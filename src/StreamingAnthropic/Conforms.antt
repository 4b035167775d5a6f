-- ===== src/StreamingAnthropic/Conforms.antt =====
-- The statements on the blocks keep the block index in step with what a client has read.
use kiro_gateway_go.Common.{
  ℕ, ◌+◌, Bool, true, false, String, none, some, [], ◌∷◌, ◌++◌, subst, if◌then◌else◌, ◌≡◌, refl,
  sym, ap, append-nil, arith,
}
use kiro_gateway_go.Common.Bytes.{Bytes}
use kiro_gateway_go.StreamingAnthropic.{
  text_block, thinking_block, text_delta, thinking_delta, content_block_start, content_block_delta,
  content_block_stop, Output, with_blocks, close_thinking, close_text, open_thinking, open_text,
  stop_thinking, stop_text, start_thinking, start_text, send_text, send_thinking,
}
use kiro_gateway_go.StreamingAnthropic.Protocol.{between, inside, text, thinking}
use kiro_gateway_go.StreamingAnthropic.Seen.{Seen, Seen-start, Seen-stop, Seen-delta}

-- The three positions between two events of the pipeline: no block open, the thinking block open, the
-- text block open.
abbrev pub Closed : Output → Bytes → Bytes → ℕ → Type 0
Closed o t th n =
    let b = o.formatter.blocks in
    (b.thinking_open ≡ false) × (b.text_open ≡ false) × Seen o.written (between b.current) t th n

abbrev pub InThinking : Output → Bytes → Bytes → ℕ → Type 0
InThinking o t th n =
    let b = o.formatter.blocks in
    (b.thinking_open ≡ true)
    × (b.text_open ≡ false)
    × (b.thinking_at ≡ b.current)
    × Seen o.written (inside b.current thinking) t th n

abbrev pub InText : Output → Bytes → Bytes → ℕ → Type 0
InText o t th n =
    let b = o.formatter.blocks in
    (b.thinking_open ≡ false)
    × (b.text_open ≡ true)
    × (b.text_at ≡ b.current)
    × Seen o.written (inside b.current text) t th n

-- What the statements on the blocks do, by the block that is open. `stop_text_if` and its like are the
-- statements with the test on the block as an argument.
module _ (o : Output) where
  abbrev stop_thinking_if : Bool → Output
  stop_thinking_if c =
      let b = o.formatter.blocks in
      with_blocks
        (if c
          then (record b { thinking_open = false; current = b.current + 1 }, some b.thinking_at)
          else (b, none))
        content_block_stop o

  abbrev stop_text_if : Bool → Output
  stop_text_if c =
      let b = o.formatter.blocks in
      with_blocks
        (if c
          then (record b { text_open = false; current = b.current + 1 }, some b.text_at)
          else (b, none))
        content_block_stop o

  abbrev pub start_thinking_if : String → Bool → Output
  start_thinking_if signature c =
      let b = o.formatter.blocks in
      with_blocks
        (if c
          then (b, none)
          else (record b { thinking_at = b.current; thinking_open = true }, some b.current))
        (λ idx. content_block_start idx (thinking_block signature)) o

  abbrev start_text_if : Bool → Output
  start_text_if c =
      let b = o.formatter.blocks in
      with_blocks
        (if c
          then (b, none)
          else (record b { text_at = b.current; text_open = true }, some b.current))
        (λ idx. content_block_start idx text_block) o

  pub stop_thinking-none : o.formatter.blocks.thinking_open ≡ false → stop_thinking o ≡ o
  unfolding stop_thinking close_thinking
  stop_thinking-none h = ap stop_thinking_if h

  pub stop_text-none : o.formatter.blocks.text_open ≡ false → stop_text o ≡ o
  unfolding stop_text close_text
  stop_text-none h = ap stop_text_if h

  pub start_text-again : o.formatter.blocks.text_open ≡ true → start_text o ≡ o
  unfolding start_text open_text
  start_text-again h = ap start_text_if h

  pub start_thinking-again :
      (signature : String)
      → o.formatter.blocks.thinking_open ≡ true
      → start_thinking signature o ≡ o
  unfolding start_thinking open_thinking
  start_thinking-again signature h = ap (start_thinking_if signature) h

  module _ (t th : Bytes) (n : ℕ) where
    pub stop_thinking-Closed : InThinking o t th n → Closed (stop_thinking o) t th n
    unfolding stop_thinking close_thinking
    stop_thinking-Closed (open_now, no_text, place, seen) =
        let b = o.formatter.blocks in
        let stopped =
          subst
            (λ i. Seen (o.written ++ (content_block_stop i ∷ [])) (between (b.current + 1)) t th n)
            (sym place) (Seen-stop o.written b.current t th n thinking seen) in
        subst (λ c. Closed (stop_thinking_if c) t th n) (sym open_now) (refl, no_text, stopped)

    pub stop_text-Closed : InText o t th n → Closed (stop_text o) t th n
    unfolding stop_text close_text
    stop_text-Closed (no_thinking, open_now, place, seen) =
        let b = o.formatter.blocks in
        let stopped =
          subst
            (λ i. Seen (o.written ++ (content_block_stop i ∷ [])) (between (b.current + 1)) t th n)
            (sym place) (Seen-stop o.written b.current t th n text seen) in
        subst (λ c. Closed (stop_text_if c) t th n) (sym open_now) (no_thinking, refl, stopped)

    pub start_text-InText : Closed o t th n → InText (start_text o) t th n
    unfolding start_text open_text
    start_text-InText (no_thinking, no_text, seen) =
        let b = o.formatter.blocks in
        subst (λ c. InText (start_text_if c) t th n) (sym no_text)
          (
            no_thinking,
            refl,
            refl,
            Seen-start o.written b.current t th n text_block n (omega arith) seen,
          )

    pub start_thinking-InThinking :
        (signature : String) → Closed o t th n → InThinking (start_thinking signature o) t th n
    unfolding start_thinking open_thinking
    start_thinking-InThinking signature (no_thinking, no_text, seen) =
        let b = o.formatter.blocks in
        subst (λ c. InThinking (start_thinking_if signature c) t th n) (sym no_thinking)
          (
            refl,
            no_text,
            refl,
            Seen-start o.written b.current t th n (thinking_block signature) n (omega arith) seen,
          )

    pub send_text-InText : (s : Bytes) → InText o t th n → InText (send_text s o) (t ++ s) th n
    unfolding send_text
    send_text-InText [] h = subst (λ x. InText o x th n) (sym (append-nil t)) h
    send_text-InText (c ∷ s) (no_thinking, open_now, place, seen) =
        let b = o.formatter.blocks in
        let d = text_delta (c ∷ s) in
        (
          no_thinking,
          open_now,
          place,
          subst
              (λ i.
                Seen (o.written ++ (content_block_delta i d ∷ [])) (inside b.current text)
                  (t ++ (c ∷ s)) th n)
              (sym place)
              (Seen-delta o.written b.current t th n text d _ _ refl refl (append-nil th) seen),
        )

    pub send_thinking-InThinking :
        (s : Bytes) → InThinking o t th n → InThinking (send_thinking s o) t (th ++ s) n
    unfolding send_thinking
    send_thinking-InThinking s (open_now, no_text, place, seen) =
        let b = o.formatter.blocks in
        let d = thinking_delta s in
        (
          open_now,
          no_text,
          place,
          subst
              (λ i.
                Seen (o.written ++ (content_block_delta i d ∷ [])) (inside b.current thinking) t
                  (th ++ s) n)
              (sym place)
              (Seen-delta o.written b.current t th n thinking d _ _ refl (append-nil t) refl seen),
        )
