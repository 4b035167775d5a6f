-- ===== src/StreamingAnthropic/Overlap.antt =====
-- What `handleThinking` does while the text block is open.
use kiro_gateway_go.Common.{
  ℕ, Option, none, some, List, [], ◌∷◌, ◌++◌, ◌≡◌, Option-cases, inl, inr, String, sym, ap, ◌∙◌,
  subst, refl, append_assoc, if◌then◌else◌,
}
use kiro_gateway_go.Common.Bytes.{Bytes, is_empty}
use kiro_gateway_go.StreamingCore.{thinking}
use kiro_gateway_go.StreamingAnthropic.{
  as_reasoning_content, thinking_block, SseEvent, thinking_delta, content_block_start,
  content_block_delta, Environment, Output, Settings, open_thinking, start_thinking, send_thinking,
}
use kiro_gateway_go.StreamingAnthropic.Handle.{add_thinking, thinking_as, handle_thinking, handle}
use kiro_gateway_go.StreamingAnthropic.Protocol.{
  Client, inside, text, new_client, next_phase, receive, receive_all,
}
use kiro_gateway_go.StreamingAnthropic.Seen.{client_at, receive_all-append}
use kiro_gateway_go.StreamingAnthropic.Conforms.{InText, start_thinking_if}

receive_all-none :
    (es es' : List SseEvent) (c : Client)
    → receive_all es c ≡ none
    → receive_all (es ++ es') c ≡ none
unfolding receive_all
receive_all-none [] es' c h = absurd (cc h)
receive_all-none (e ∷ es) es' c h =
    let next : List SseEvent → Option Client → Option Client =
      λ rest r. elim r [ none ↦ none | some d ↦ receive_all rest d ] in
    elim (Option-cases (receive e c)) [
      | inl n ↦ ap (next (es ++ es')) n
      | inr (d, r) ↦ ap (next (es ++ es')) r ∙ receive_all-none es es' d (sym (ap (next es) r) ∙ h)
    ]

-- Behind what `before` wrote, a client is in a text block with an index, and `after` begins a thinking
-- block with that same index, from which no client can read on.
abbrev pub BeginsAgain : String → (before after : Output) → Type 0
BeginsAgain signature before after =
    (i : ℕ) × (c : Client) × (later : List SseEvent) × (receive_all before.written new_client
      ≡ some c)
    × (c.phase ≡ inside i text)
    × (after.written ≡ before.written ++ content_block_start i (thinking_block signature) ∷ later)
    × (receive_all after.written new_client ≡ none)

start_thinking-BeginsAgain :
    (signature : String) (o o1 : Output) (t th : Bytes) (n : ℕ)
    → o1.written ≡ o.written
    → InText o1 t th n
    → BeginsAgain signature o (start_thinking signature o1)
unfolding start_thinking open_thinking receive_all receive next_phase
start_thinking-BeginsAgain signature o o1 t th n same (no_thinking, open_now, place, seen) =
    let i = o1.formatter.blocks.current in
    subst (λ c. BeginsAgain signature o (start_thinking_if o1 signature c)) (sym no_thinking)
      (
        i,
        client_at (inside i text) t th n,
        [],
        ap (λ es. receive_all es new_client) (sym same) ∙ seen,
        refl,
        ap (λ es. es ++ content_block_start i (thinking_block signature) ∷ []) same,
        receive_all-append o1.written (content_block_start i (thinking_block signature) ∷ [])
            new_client _ seen,
      )

send_nonempty-BeginsAgain :
    (signature : String) (s : Bytes) (o o1 : Output)
    → BeginsAgain signature o o1
    → BeginsAgain signature o (if is_empty s then o1 else send_thinking s o1)
unfolding send_thinking
send_nonempty-BeginsAgain signature [] o o1 h = h
send_nonempty-BeginsAgain signature (x ∷ s) o o1 (i, c, later, seen, phase, written, stuck) =
    let e = content_block_delta o1.formatter.blocks.thinking_at (thinking_delta (x ∷ s)) in
    let start = content_block_start i (thinking_block signature) in
    (
      i,
      c,
      later ++ (e ∷ []),
      seen,
      phase,
      ap (λ es. es ++ (e ∷ [])) written ∙ append_assoc o.written (start ∷ later) (e ∷ []),
      receive_all-none o1.written (e ∷ []) new_client stuck,
    )

-- In the mode that shows thinking blocks, a thinking event that comes while the text block is open
-- begins a thinking block with the index of the text block that a client has not seen stop, and from
-- there no client can read on.
pub handle-InText :
    (env : Environment) (cfg : Settings) (o : Output) (s t th : Bytes) (n : ℕ)
    → cfg.thinking_handling ≡ as_reasoning_content
    → InText o t th n
    → BeginsAgain cfg.thinking_signature o (handle env cfg (thinking s) o)
unfolding handle handle_thinking thinking_as
handle-InText env cfg o s t th n mode h =
    let o1 = add_thinking s o in
    subst (λ m. BeginsAgain cfg.thinking_signature o (thinking_as env cfg m s o1)) (sym mode)
      (send_nonempty-BeginsAgain cfg.thinking_signature s o
        (start_thinking cfg.thinking_signature o1)
        (start_thinking-BeginsAgain cfg.thinking_signature o o1 t th n refl h))
