-- ===== src/StreamingAnthropic/Tally.antt =====
-- What the formatter collects of the events, by an account of the events alone, and the stop reason.
use kiro_gateway_go.Common.{
  ℕ, ltb, ◌==◌, not, ◌&&◌, ◌≢◌, eq_iff, str_eq, Bool, true, false, String, List, [], ◌∷◌, ◌++◌, ◌≡◌,
  ◌↔◌, ◌<◌, refl, ap, ◌∙◌, arith, if◌then◌else◌,
}
use kiro_gateway_go.Common.Bytes.{Bytes, is_empty}
use kiro_gateway_go.StreamingCore.{
  KiroEvent, ToolUseData, content, thinking, tool_use, usage, context_usage, error, refusal,
  native_thinking, thinking_signature, redacted_thinking,
}
use kiro_gateway_go.StreamingAnthropic.{
  ThinkingHandling, as_reasoning_content, include_as_text, strip, Environment, Formatter, Output,
  Settings, reserve_tool_block, close_open_blocks, start_thinking, send_thinking,
}
use kiro_gateway_go.StreamingAnthropic.Handle.{
  handle_content, thinking_as_text, add_thinking, emit_tool_use_block, handle_tool_use,
  merge_cache_usage, thinking_as, handle_thinking, open_native_thinking, native_thinking_block,
  signature_block, redacted_block, handle_native_thinking, is_reasoning, handle_thinking_signature,
  handle_redacted_thinking, handle, handle_all,
}
use kiro_gateway_go.StreamingAnthropic.Finish.{content_was_truncated, stop_reason}
use kiro_gateway_go.StreamingAnthropic.Handled.{
  thinking_as_text-Kept, send_nonempty-Kept, signature_block-Kept, redacted_block-Kept,
}
use kiro_gateway_go.StreamingAnthropic.Frame.{
  Kept, Kept-trans, close_open_blocks-Kept, open_native_thinking-Kept, start_thinking-Kept,
  send_thinking-Kept,
}

-- The content, the thinking, whether Kiro refused, whether it told the usage of the context.
abbrev pub Tally : Type 0
Tally = Bytes × Bytes × Bool × Bool

abbrev pub tally : Formatter → Tally
tally f = (f.full_content, f.full_thinking_content, f.refused, f.received_context_usage)

-- One event more.
abbrev pub counted : KiroEvent → Tally → Tally
counted (content s) (c, k, r, u) = (c ++ s, k, r, u)
counted (thinking s) (c, k, r, u) = (c, k ++ s, r, u)
counted (native_thinking s) (c, k, r, u) = (c, k ++ s, r, u)
counted (refusal _) (c, k, r, u) = (c, k, true, u)
counted (context_usage _) (c, k, r, u) = (c, k, r, true)
counted _ t = t

unfoldable pub counted_all : List KiroEvent → Tally → Tally
counted_all [] t = t
counted_all (e ∷ es) t = counted_all es (counted e t)

same_tally : (o r : Output) → Kept o r → tally r.formatter ≡ tally o.formatter
same_tally o r kept = ap tally kept

module _ (env : Environment) (cfg : Settings) (o : Output) where
  content-tally :
      (s : Bytes) → tally (handle_content s o).formatter ≡ counted (content s) (tally o.formatter)
  unfolding handle_content thinking_as_text
  content-tally s =
      let f = o.formatter in
      let o1 = record o { formatter = record f { full_content = f.full_content ++ s } } in
      same_tally o1 (thinking_as_text s o1) (thinking_as_text-Kept s o1)

  thinking-tally :
      (h : ThinkingHandling) (s : Bytes)
      → tally (thinking_as env cfg h s (add_thinking s o)).formatter
        ≡ counted (thinking s) (tally o.formatter)
  unfolding thinking_as
  thinking-tally as_reasoning_content s =
      let o1 = add_thinking s o in
      let p = start_thinking cfg.thinking_signature o1 in
      let r = if is_empty s then p else send_thinking s p in
      same_tally o1 r
        (Kept-trans o1 p r (start_thinking-Kept o1 cfg.thinking_signature) (send_nonempty-Kept p s))
  thinking-tally include_as_text s =
      let o1 = add_thinking s o in
      same_tally o1 (thinking_as_text s o1) (thinking_as_text-Kept s o1)
  thinking-tally strip s = refl

  native_block-tally :
      (s : Bytes)
      → tally (native_thinking_block env cfg s o).formatter
        ≡ counted (native_thinking s) (tally o.formatter)
  unfolding native_thinking_block
  native_block-tally s =
      let o1 = add_thinking s o in
      let p = open_native_thinking env cfg o1 in
      same_tally o1 (send_thinking s p) (
        Kept-trans o1 p (send_thinking s p) (open_native_thinking-Kept o1 env cfg)
          (send_thinking-Kept p s))

  native_if-tally :
      (b : Bool) (s : Bytes)
      → tally
          (if b then native_thinking_block env cfg s o else handle_thinking env cfg s o).formatter
        ≡ counted (native_thinking s) (tally o.formatter)
  unfolding handle_thinking
  native_if-tally true s = native_block-tally s
  native_if-tally false s = thinking-tally cfg.thinking_handling s

  unchanged_if-tally :
      (b : Bool) (r : Output) → Kept o r → tally (if b then r else o).formatter ≡ tally o.formatter
  unchanged_if-tally true r kept = same_tally o r kept
  unchanged_if-tally false r kept = refl

  tool_use-tally :
      (tu : ToolUseData) → tally (handle_tool_use env tu o).formatter ≡ tally o.formatter
  unfolding handle_tool_use emit_tool_use_block reserve_tool_block
  tool_use-tally tu = same_tally o (close_open_blocks o) (close_open_blocks-Kept o)

  handle-tally :
      (e : KiroEvent) → tally (handle env cfg e o).formatter ≡ counted e (tally o.formatter)
  unfolding handle handle_thinking handle_native_thinking handle_thinking_signature
      handle_redacted_thinking merge_cache_usage
  handle-tally (content s) = content-tally s
  handle-tally (thinking s) = thinking-tally cfg.thinking_handling s
  handle-tally (tool_use tu) = tool_use-tally tu
  handle-tally (usage raw) = refl
  handle-tally (context_usage percentage) = refl
  handle-tally (error reason) = refl
  handle-tally (refusal info) = refl
  handle-tally (native_thinking s) = native_if-tally (is_reasoning env cfg) s
  handle-tally (thinking_signature s) =
      unchanged_if-tally (is_reasoning env cfg) (signature_block env cfg s o)
        (signature_block-Kept env cfg s o)
  handle-tally (redacted_thinking s) =
      unchanged_if-tally (is_reasoning env cfg) (redacted_block env cfg s o)
        (redacted_block-Kept env cfg s o)

-- Whatever the mode, the formatter has collected the contents of all events, the thinking of all
-- events, native or not, and knows whether one of them was a refusal and one a usage of the context.
pub handle_all-counted :
    (env : Environment) (cfg : Settings) (es : List KiroEvent) (o : Output)
    → tally (handle_all env cfg es o).formatter ≡ counted_all es (tally o.formatter)
unfolding handle_all counted_all
handle_all-counted env cfg [] o = refl
handle_all-counted env cfg (e ∷ es) o =
    handle_all-counted env cfg es (handle env cfg e o)
    ∙ ap (counted_all es) (handle-tally env cfg o e)

distinct : (a b : String) → str_eq a b ≡ false → a ≢ b
distinct a b h e = cc ((eq_iff a b).1 e, h)

reason_cases :
    (r u e : Bool) (n : ℕ)
    → let reason : String =
        if r
        then "refusal"
        else if not r && not u && not e && (n == 0)
        then "max_tokens"
        else if ltb 0 n
        then "tool_use"
        else "end_turn" in
      ((reason ≡ "refusal") ↔ (r ≡ true))
      × ((reason ≡ "tool_use") ↔ ((r ≡ false) × (0 < n)))
      × ((reason ≡ "max_tokens") ↔ ((r ≡ false) × (u ≡ false) × (e ≡ false) × (n ≡ 0)))
reason_cases r u e n = ground (
  arith,
  distinct "refusal" "tool_use" refl,
  distinct "refusal" "max_tokens" refl,
  distinct "max_tokens" "tool_use" refl,
  distinct "end_turn" "tool_use" refl,
  distinct "end_turn" "max_tokens" refl,
  distinct "end_turn" "refusal" refl,
  distinct "tool_use" "max_tokens" refl,
  distinct "tool_use" "refusal" refl,
  distinct "max_tokens" "refusal" refl,
)

-- The stop reason by the four facts it rests on: the message ends with the run of a tool exactly when
-- Kiro did not refuse and a tool block was sent, and with `max_tokens` exactly when Kiro did not
-- refuse, did not tell the usage of the context, sent a text and no tool block.
pub stop_reason_iff :
    (f : Formatter)
    → ((stop_reason f ≡ "refusal") ↔ (f.refused ≡ true))
      × ((stop_reason f ≡ "tool_use") ↔ ((f.refused ≡ false) × (0 < f.tool_block_count)))
      × ((stop_reason f ≡ "max_tokens") ↔ (
          (f.refused ≡ false)
          × (f.received_context_usage ≡ false)
          × (is_empty f.full_content ≡ false)
          × (f.tool_block_count ≡ 0)))
unfolding stop_reason content_was_truncated
stop_reason_iff f =
    reason_cases f.refused f.received_context_usage (is_empty f.full_content) f.tool_block_count
