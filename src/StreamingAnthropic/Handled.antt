-- ===== src/StreamingAnthropic/Handled.antt =====
-- `Handle` keeps the formatter in step with its client.
use kiro_gateway_go.Common.{
  ℕ, ◌+◌, false, String, Option, none, some, [], ◌∷◌, ◌++◌, ◌≡◌, ◌⊎◌, inl, inr, refl, sym, ◌∙◌,
  subst, arith, append-nil, if◌then◌else◌,
}
use kiro_gateway_go.Common.Bytes.{Bytes, is_empty}
use kiro_gateway_go.Json.{Fields}
use kiro_gateway_go.StreamingAnthropic.{
  BlockIndex, tool_use_block, redacted_thinking_block, input_json_delta, signature_delta,
  content_block_delta, content_block_stop, Environment, Output, Settings, close_thinking,
  reserve_tool_block, stop_thinking, stop_text, start_thinking, start_text, close_open_blocks,
  send_text, send_thinking,
}
use kiro_gateway_go.StreamingAnthropic.Handle.{
  thinking_as_text, emit_tool_use_block, open_native_thinking, signature_block, redacted_block,
}
use kiro_gateway_go.StreamingAnthropic.Protocol.{BlockKind, inside, between, tool, redacted}
use kiro_gateway_go.StreamingAnthropic.Protocol as Protocol
use kiro_gateway_go.StreamingAnthropic.Seen.{Seen, Seen-start, Seen-stop, Seen-delta}
use kiro_gateway_go.StreamingAnthropic.Conforms.{
  Closed, InThinking, InText, stop_thinking-none, stop_text-none, start_text-again,
  start_thinking-again, stop_thinking-Closed, stop_text-Closed, start_text-InText,
  start_thinking-InThinking, send_text-InText, send_thinking-InThinking,
}
use kiro_gateway_go.StreamingAnthropic.Frame.{
  Kept, Kept-trans, stop_thinking-Kept, start_text-Kept, send_text-Kept, send_thinking-Kept,
  native_if, open_native_thinking-Kept, close_open_blocks-Kept,
}

-- One of the three positions.
abbrev pub Ready : Output → Bytes → Bytes → ℕ → Type 0
Ready o t th n = Closed o t th n ⊎ (InThinking o t th n ⊎ InText o t th n)

module _ (o : Output) (t th : Bytes) (n : ℕ) where
  stop_text-at : Closed o t th n → Closed (stop_text o) t th n
  stop_text-at h = subst (λ x. Closed x t th n) (sym (stop_text-none o h.1)) h

  pub close_open_blocks-Closed : Ready o t th n → Closed (close_open_blocks o) t th n
  unfolding close_open_blocks
  close_open_blocks-Closed (inl h) =
      subst (λ x. Closed (stop_text x) t th n) (sym (stop_thinking-none o h.0)) (stop_text-at h)
  close_open_blocks-Closed (inr (inl h)) =
      let c = stop_thinking-Closed o t th n h in
      subst (λ x. Closed x t th n) (sym (stop_text-none (stop_thinking o) c.1)) c
  close_open_blocks-Closed (inr (inr h)) =
      subst (λ x. Closed (stop_text x) t th n) (sym (stop_thinking-none o h.0))
        (stop_text-Closed o t th n h)

  -- The text block is open behind this.
  text_ready : Ready o t th n → InText (start_text (stop_thinking o)) t th n
  text_ready (inl h) =
      subst (λ x. InText (start_text x) t th n) (sym (stop_thinking-none o h.0))
        (start_text-InText o t th n h)
  text_ready (inr (inl h)) =
      start_text-InText (stop_thinking o) t th n (stop_thinking-Closed o t th n h)
  text_ready (inr (inr h)) =
      subst (λ x. InText (start_text x) t th n) (sym (stop_thinking-none o h.0))
        (subst (λ x. InText x t th n) (sym (start_text-again o h.1)) h)

  pub thinking_as_text-InText :
      (s : Bytes) → Ready o t th n → InText (thinking_as_text s o) (t ++ s) th n
  unfolding thinking_as_text
  thinking_as_text-InText s h =
      send_text-InText (start_text (stop_thinking o)) t th n s (text_ready h)

  -- The thinking block is open behind this.
  pub thinking_ready :
      (signature : String)
      → Ready o t th n
      → o.formatter.blocks.text_open ≡ false
      → InThinking (start_thinking signature o) t th n
  thinking_ready signature (inl h) e = start_thinking-InThinking o t th n signature h
  thinking_ready signature (inr (inl h)) e =
      subst (λ x. InThinking x t th n) (sym (start_thinking-again o signature h.0)) h
  thinking_ready signature (inr (inr h)) e = absurd (cc (sym h.1 ∙ e))

  pub open_native_thinking-InThinking :
      (env : Environment) (cfg : Settings)
      → Ready o t th n
      → InThinking (open_native_thinking env cfg o) t th n
  unfolding open_native_thinking
  open_native_thinking-InThinking env cfg (inl h) =
      subst (λ c. InThinking (native_if o c) t th n) (sym h.0)
        (start_thinking-InThinking (stop_text o) t th n "" (stop_text-at h))
  open_native_thinking-InThinking env cfg (inr (inl h)) =
      subst (λ c. InThinking (native_if o c) t th n) (sym h.0) h
  open_native_thinking-InThinking env cfg (inr (inr h)) =
      subst (λ c. InThinking (native_if o c) t th n) (sym h.0)
        (start_thinking-InThinking (stop_text o) t th n "" (stop_text-Closed o t th n h))

  -- A whole tool block.
  pub emit_tool_use_block-Closed :
      (env : Environment) (id name : String) (input : Fields)
      → Closed o t th n
      → Closed (emit_tool_use_block env id name input o) t th (n + 1)
  unfolding emit_tool_use_block reserve_tool_block
  emit_tool_use_block-Closed env id name input (no_thinking, no_text, seen) =
      let i = o.formatter.blocks.current in
      let d = input_json_delta (env.python_style_dumps input) in
      (
        no_thinking,
        no_text,
        Seen-stop _ i t th (n + 1) tool (
            Seen-delta _ i t th (n + 1) tool d t th refl (append-nil t) (append-nil th)
              (Seen-start o.written i t th n (tool_use_block id name) (n + 1) refl seen)),
      )

pub thinking_as_text-Kept : (s : Bytes) (o : Output) → Kept o (thinking_as_text s o)
unfolding thinking_as_text
thinking_as_text-Kept s o =
    let p = stop_thinking o in
    let q = start_text p in
    Kept-trans o p (send_text s q) (stop_thinking-Kept o)
      (Kept-trans p q (send_text s q) (start_text-Kept p) (send_text-Kept q s))

module _ (o : Output) (t th : Bytes) (n : ℕ) where
  -- The signature closes the thinking block that is open behind `open_native_thinking`.
  pub signature_block-Closed :
      (env : Environment) (cfg : Settings) (signature : Bytes)
      → Ready o t th n
      → Closed (signature_block env cfg signature o) t th n
  unfolding signature_block close_thinking
  signature_block-Closed env cfg signature h =
      let p = open_native_thinking env cfg o in
      let b = p.formatter.blocks in
      let d = signature_delta signature in
      let (open_now, no_text, place, seen) = open_native_thinking-InThinking o t th n env cfg h in
      let read = Seen-stop _ b.current t th n Protocol.thinking (
        Seen-delta p.written b.current t th n Protocol.thinking d t th refl (append-nil t)
          (append-nil th) seen) in
      let read_at =
        subst
          (λ i.
            Seen ((p.written ++ (content_block_delta i d ∷ [])) ++ (content_block_stop i ∷ []))
              (between (b.current + 1)) t th n)
          (sym place) read in
      subst
        (λ c.
          Closed
            (record {
              formatter = record p.formatter {
                blocks =
                    (if◌then◌else◌ {A = BlockIndex × Option ℕ} c
                      (
                        record b { thinking_open = false; current = b.current + 1 },
                        some b.thinking_at,
                      )
                      (b, none)).0;
              };
              written =
                  (p.written ++ (content_block_delta b.thinking_at d ∷ []))
                  ++ (content_block_stop b.thinking_at ∷ []);
            })
            t th n)
        (sym open_now) (refl, no_text, read_at)

  pub redacted_block-Closed :
      (env : Environment) (cfg : Settings) (data_text : Bytes)
      → Ready o t th n
      → Closed (redacted_block env cfg data_text o) t th n
  unfolding redacted_block reserve_tool_block
  redacted_block-Closed env cfg data_text h =
      let p = close_open_blocks o in
      let b = p.formatter.blocks in
      let (no_thinking, no_text, seen) = close_open_blocks-Closed o t th n h in
      (
        no_thinking,
        no_text,
        Seen-stop _ b.current t th n Protocol.redacted (
            Seen-start p.written b.current t th n (redacted_thinking_block data_text) n
              (omega arith) seen),
      )

  pub send_nonempty-InThinking :
      (s : Bytes)
      → InThinking o t th n
      → InThinking (if is_empty s then o else send_thinking s o) t (th ++ s) n
  send_nonempty-InThinking [] h = subst (λ x. InThinking o t x n) (sym (append-nil th)) h
  send_nonempty-InThinking (c ∷ s) h = send_thinking-InThinking o t th n (c ∷ s) h

pub send_nonempty-Kept :
    (o : Output) (s : Bytes) → Kept o (if is_empty s then o else send_thinking s o)
send_nonempty-Kept o [] = refl
send_nonempty-Kept o (c ∷ s) = send_thinking-Kept o (c ∷ s)

pub signature_block-Kept :
    (env : Environment) (cfg : Settings) (signature : Bytes) (o : Output)
    → Kept o (signature_block env cfg signature o)
unfolding signature_block
signature_block-Kept env cfg signature o =
    let p = open_native_thinking env cfg o in
    Kept-trans o p (signature_block env cfg signature o) (open_native_thinking-Kept o env cfg) refl

pub redacted_block-Kept :
    (env : Environment) (cfg : Settings) (data_text : Bytes) (o : Output)
    → Kept o (redacted_block env cfg data_text o)
unfolding redacted_block reserve_tool_block
redacted_block-Kept env cfg data_text o =
    let p = close_open_blocks o in
    Kept-trans o p (redacted_block env cfg data_text o) (close_open_blocks-Kept o) refl
