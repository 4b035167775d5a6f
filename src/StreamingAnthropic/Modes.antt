-- ===== src/StreamingAnthropic/Modes.antt =====
-- The agreement through `Handle`, by the mode for thinking.
use kiro_gateway_go.Common.{
  arith, Bool, true, false, ◌++◌, ◌≡◌, inl, inr, refl, ap, subst, if◌then◌else◌,
}
use kiro_gateway_go.Common.Bytes.{Bytes, is_empty}
use kiro_gateway_go.StreamingCore.{
  in_order, seen_after, KiroEvent, content, thinking, tool_use, usage, context_usage, error,
  refusal, native_thinking, thinking_signature, redacted_thinking,
}
use kiro_gateway_go.StreamingAnthropic.{
  ThinkingHandling, as_reasoning_content, include_as_text, strip, Environment, Output, Settings,
  start_thinking, send_thinking,
}
use kiro_gateway_go.StreamingAnthropic.Handle.{
  thinking_as_text, add_thinking, merge_cache_usage, handle_thinking, open_native_thinking,
  handle_native_thinking, thinking_as, native_thinking_block, signature_block, redacted_block,
  handle_thinking_signature, handle_redacted_thinking, handle,
}
use kiro_gateway_go.StreamingAnthropic.Conforms.{send_thinking-InThinking}
use kiro_gateway_go.StreamingAnthropic.Handled.{
  thinking_as_text-InText, thinking_as_text-Kept, open_native_thinking-InThinking, thinking_ready,
  send_nonempty-InThinking, send_nonempty-Kept, signature_block-Closed, signature_block-Kept,
  redacted_block-Closed, redacted_block-Kept,
}
use kiro_gateway_go.StreamingAnthropic.Frame.{
  open_native_thinking-Kept, start_thinking-Kept, Kept-trans, send_thinking-Kept,
}
use kiro_gateway_go.StreamingAnthropic.Agreement.{
  Agrees, Quiet, agree, agree_same, closed-Quiet, tool_use-Agrees, content-Agrees,
}

-- The mode that shows thinking blocks.
module _ (seen : Bool) (o : Output) (a : Agrees as_reasoning_content seen o) (env : Environment)
    (cfg : Settings) where
  abbrev more : Bytes → Bytes
  more s = a.thinking_read ++ s

  thinking-Agrees :
      (s : Bytes)
      → seen ≡ false
      → Agrees as_reasoning_content seen
          (thinking_as env cfg as_reasoning_content s (add_thinking s o))
  unfolding thinking_as
  thinking-Agrees s e =
      let o1 = add_thinking s o in
      let p = start_thinking cfg.thinking_signature o1 in
      let quiet = subst (λ c. Quiet as_reasoning_content c o.formatter.blocks) e a.quiet in
      let inside = send_nonempty-InThinking p a.text_read a.thinking_read a.tools_read s (
        thinking_ready o1 a.text_read a.thinking_read a.tools_read cfg.thinking_signature a.ready
          quiet) in
      agree as_reasoning_content seen o1 _ a.text_read (more s) a.tools_read
        (Kept-trans o1 p (if is_empty s then p else send_thinking s p)
          (start_thinking-Kept o1 cfg.thinking_signature) (send_nonempty-Kept p s))
        (inr (inl inside)) a.tools (a.texts.0, ap (λ x. x ++ s) a.texts.1)
        (closed-Quiet as_reasoning_content seen _ inside.1)

  native_thinking-Agrees :
      (s : Bytes) → Agrees as_reasoning_content seen (native_thinking_block env cfg s o)
  unfolding native_thinking_block
  native_thinking-Agrees s =
      let o1 = add_thinking s o in
      let p = open_native_thinking env cfg o1 in
      let inside = send_thinking-InThinking p a.text_read a.thinking_read a.tools_read s (
        open_native_thinking-InThinking o1 a.text_read a.thinking_read a.tools_read env cfg
          a.ready) in
      agree as_reasoning_content seen o1 _ a.text_read (more s) a.tools_read
        (Kept-trans o1 p (send_thinking s p) (open_native_thinking-Kept o1 env cfg)
          (send_thinking-Kept p s))
        (inr (inl inside)) a.tools (a.texts.0, ap (λ x. x ++ s) a.texts.1)
        (closed-Quiet as_reasoning_content seen _ inside.1)

  signature-Agrees :
      (signature : Bytes) → Agrees as_reasoning_content seen (signature_block env cfg signature o)
  signature-Agrees signature =
      let c =
        signature_block-Closed o a.text_read a.thinking_read a.tools_read env cfg signature
          a.ready in
      agree as_reasoning_content seen o _ a.text_read a.thinking_read a.tools_read
        (signature_block-Kept env cfg signature o) (inl c) a.tools a.texts
        (closed-Quiet as_reasoning_content seen _ c.1)

  redacted-Agrees :
      (data_text : Bytes) → Agrees as_reasoning_content seen (redacted_block env cfg data_text o)
  redacted-Agrees data_text =
      let c =
        redacted_block-Closed o a.text_read a.thinking_read a.tools_read env cfg data_text
          a.ready in
      agree as_reasoning_content seen o _ a.text_read a.thinking_read a.tools_read
        (redacted_block-Kept env cfg data_text o) (inl c) a.tools a.texts
        (closed-Quiet as_reasoning_content seen _ c.1)

-- The other two modes open no thinking block.
include-Agrees :
    (seen : Bool) (o : Output) (s : Bytes)
    → Agrees include_as_text seen o
    → Agrees include_as_text seen (thinking_as_text s (add_thinking s o))
include-Agrees seen o s a =
    let o1 = add_thinking s o in
    agree include_as_text seen o1 (thinking_as_text s o1) (a.text_read ++ s) a.thinking_read
      a.tools_read (thinking_as_text-Kept s o1)
      (inr (inr (thinking_as_text-InText o1 a.text_read a.thinking_read a.tools_read s a.ready)))
      a.tools a.texts tt

strip-Agrees :
    (seen : Bool) (o : Output) (s : Bytes)
    → Agrees strip seen o
    → Agrees strip seen (add_thinking s o)
strip-Agrees seen o s a = record {
  text_read = a.text_read;
  thinking_read = a.thinking_read;
  tools_read = a.tools_read;
  ready = a.ready;
  tools = a.tools;
  texts = a.texts;
  quiet = a.quiet;
}

abbrev in_mode : ThinkingHandling → Settings → Settings
in_mode h cfg = record cfg { thinking_handling = h }

module _ (env : Environment) (cfg : Settings) (seen : Bool) (o : Output) where
  mode-Agrees :
      (h : ThinkingHandling) (e : KiroEvent)
      → in_order seen e ≡ true
      → Agrees h seen o
      → Agrees h (seen_after seen e) (handle env (in_mode h cfg) e o)
  unfolding handle in_order seen_after handle_thinking handle_native_thinking thinking_as
      handle_thinking_signature handle_redacted_thinking merge_cache_usage
  mode-Agrees h (content s) ok a = content-Agrees h seen o a s
  mode-Agrees as_reasoning_content (thinking s) ok a =
      thinking-Agrees seen o a env (in_mode as_reasoning_content cfg) s (ground arith)
  mode-Agrees include_as_text (thinking s) ok a = include-Agrees seen o s a
  mode-Agrees strip (thinking s) ok a = strip-Agrees seen o s a
  mode-Agrees h (tool_use tu) ok a = tool_use-Agrees h seen o env tu a
  mode-Agrees h (usage raw) ok a = agree_same h seen o _ refl refl refl refl a
  mode-Agrees h (context_usage percentage) ok a = agree_same h seen o _ refl refl refl refl a
  mode-Agrees h (error reason) ok a = a
  mode-Agrees h (refusal info) ok a = agree_same h seen o _ refl refl refl refl a
  mode-Agrees as_reasoning_content (native_thinking s) ok a =
      native_thinking-Agrees seen o a env (in_mode as_reasoning_content cfg) s
  mode-Agrees include_as_text (native_thinking s) ok a = include-Agrees seen o s a
  mode-Agrees strip (native_thinking s) ok a = strip-Agrees seen o s a
  mode-Agrees as_reasoning_content (thinking_signature signature) ok a =
      signature-Agrees seen o a env (in_mode as_reasoning_content cfg) signature
  mode-Agrees include_as_text (thinking_signature signature) ok a = a
  mode-Agrees strip (thinking_signature signature) ok a = a
  mode-Agrees as_reasoning_content (redacted_thinking data_text) ok a =
      redacted-Agrees seen o a env (in_mode as_reasoning_content cfg) data_text
  mode-Agrees include_as_text (redacted_thinking data_text) ok a = a
  mode-Agrees strip (redacted_thinking data_text) ok a = a

  pub handle-Agrees :
      (e : KiroEvent)
      → in_order seen e ≡ true
      → Agrees cfg.thinking_handling seen o
      → Agrees cfg.thinking_handling (seen_after seen e) (handle env cfg e o)
  handle-Agrees e ok a = mode-Agrees cfg.thinking_handling e ok a
