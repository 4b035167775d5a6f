-- ===== src/StreamingAnthropic/Finish.antt =====
-- finish.go: the end of the stream and the error event.
use kiro_gateway_go.Common.{
  Bool, not, ◌&&◌, String, Option, none, some, List, [], ◌∷◌, ◌++◌, ltb, ◌==◌, if◌then◌else◌, ◌<>◌,
  str_eq,
}
use kiro_gateway_go.Common.Bytes.{is_empty}
use kiro_gateway_go.Json.{Fields, no_fields}
use kiro_gateway_go.StreamingAnthropic.{
  BracketCall, Environment, Formatter, Output, message_delta, message_stop, error_event, emit,
  close_open_blocks,
}
use kiro_gateway_go.StreamingAnthropic.Handle.{tool_id, count_generated, emit_tool_use_block}

unfoldable pub content_was_truncated : Formatter → Bool
content_was_truncated f =
    not f.refused
    && not f.received_context_usage
    && not (is_empty f.full_content)
    && (f.tool_block_count == 0)

unfoldable pub stop_reason : Formatter → String
unfolding content_was_truncated
stop_reason f =
    if f.refused
    then "refusal"
    else if content_was_truncated f
    then "max_tokens"
    else if ltb 0 f.tool_block_count
    then "tool_use"
    else "end_turn"

module _ (env : Environment) where
  abbrev or_no_fields : Option Fields → Fields
  or_no_fields none = no_fields
  or_no_fields (some fields) = fields

  -- Empty arguments do not decode either.
  unfoldable pub emit_bracket_tool_call : BracketCall → Output → Output
  unfolding tool_id emit_tool_use_block
  emit_bracket_tool_call tc o =
      let id = tool_id env tc.id o.formatter in
      let input =
        if is_empty tc.arguments then no_fields else or_no_fields (env.unmarshal tc.arguments) in
      emit_tool_use_block env id tc.name input (record o {
        formatter = record o.formatter { generated = count_generated tc.id o.formatter.generated };
      })

  unfoldable pub emit_bracket_tool_calls : List BracketCall → Output → Output
  unfolding emit_bracket_tool_call
  emit_bracket_tool_calls [] o = o
  emit_bracket_tool_calls (tc ∷ calls) o =
      emit_bracket_tool_calls calls (emit_bracket_tool_call tc o)

  -- The first `if` of `Finish`.
  unfoldable pub bracket_tail : List BracketCall → Output → Output
  unfolding close_open_blocks emit_bracket_tool_calls
  bracket_tail [] o = o
  bracket_tail (tc ∷ calls) o = emit_bracket_tool_calls (tc ∷ calls) (close_open_blocks o)

  unfoldable pub emit_message_delta : Output → Output
  unfolding stop_reason
  emit_message_delta o =
      let f = o.formatter in
      emit
        (message_delta (stop_reason f) (record {
          output_tokens = env.count_tokens (f.full_content ++ f.full_thinking_content);
          cache_read = f.cache_read;
          cache_creation = f.cache_creation;
        }))
        o

  unfoldable pub finish : Output → Output
  unfolding bracket_tail close_open_blocks emit_message_delta
  finish o =
      let calls = env.parse_bracket_tool_calls o.formatter.full_content in
      emit message_stop (emit_message_delta (close_open_blocks (bracket_tail calls o)))

unfoldable pub emit_error : String → Output → Output
emit_error message o =
    let text = if str_eq message "" then "(empty message)" else message in
    emit (error_event ("Internal error: " <> text)) o
