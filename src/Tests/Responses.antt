-- ===== src/Tests/Responses.antt =====
-- The theorems on the streaming of a response in the Anthropic dialect at concrete data.
use kiro_gateway_go.Common.{
  ◌<◌, Bool, true, false, String, Option, none, some, List, [], ◌∷◌, ◌≡◌, ◌↔◌, refl, if◌then◌else◌,
}
use kiro_gateway_go.Common.Bytes.{Bytes, codes, has_prefix, is_empty, index}
use kiro_gateway_go.Common.Equality.{same_bytes}
use kiro_gateway_go.Json.{Fields, string, number, boolean, no_fields, field, lookup}
use kiro_gateway_go.ThinkingParser as Thinking
use kiro_gateway_go.Parsers.{find_matching_brace}
use kiro_gateway_go.Parsers.ToolCalls.{
  Library, ToolCall, is_truthy, process_tool_start, finalize_tool_call, tool_input_arg_string,
}
use kiro_gateway_go.Parsers.Events as Events
use kiro_gateway_go.Parsers.Dedup as Dedup
use kiro_gateway_go.Parsers.Distinct.{KeysApart, IdsApart, deduplicate-Apart}
use kiro_gateway_go.StreamingCore.{KiroEvent, content, thinking, native_thinking, context_usage}
use kiro_gateway_go.StreamingCore.Pipeline.{Pipeline, new_pipeline}
use kiro_gateway_go.StreamingCore.Pipeline as Pipeline
use kiro_gateway_go.StreamingCore.Panics.{TextIds, finish_iff}
use kiro_gateway_go.StreamingAnthropic.{
  as_reasoning_content, Environment, Output, Settings, new, stop_thinking, start_text, send_text,
  close_thinking, open_text,
}
use kiro_gateway_go.StreamingAnthropic.Handle.{handle_content, emit_message_start, handle}
use kiro_gateway_go.StreamingAnthropic.Finish.{stop_reason}
use kiro_gateway_go.StreamingAnthropic.Protocol.{receive_all, receive, next_phase, kept}
use kiro_gateway_go.StreamingAnthropic.Agreement.{Agrees}
use kiro_gateway_go.StreamingAnthropic.Drive.{
  Driven, end_of_file, read_error, drive_chunks, drive_pipeline,
}
use kiro_gateway_go.StreamingAnthropic.Response.{
  last_parser, Answered, drive_pipeline-Answered, drive_pipeline-read_error,
}
use kiro_gateway_go.StreamingAnthropic.Tally.{stop_reason_iff}
use kiro_gateway_go.StreamingAnthropic.Overlap.{BeginsAgain, handle-InText}

-- A content event or the start of a tool call.
abbrev decode : Bytes → Option Fields
decode raw =
    if has_prefix (codes "{\"c") raw
    then some (field "content" (string "<think>a</think>b") no_fields)
    else some (
        field "name" (string "f")
          (field "toolUseId" (string "t1") (field "stop" (boolean true) no_fields)))

abbrev plain : Library
plain = record {
  to_valid_utf8 = λ s. s;
  unmarshal = decode;
  filled = decode;
  raw_input = λ s. none;
  is_zero = λ s. false;
  deep_equal = λ a b. false;
  dumps_ascii = λ s. some s;
  str = λ s. s;
  str_of_value = λ v. [];
  trim_space = λ s. s;
  generate_tool_call_id = λ n. "call_0";
}

abbrev env : Environment
env = record {
  input_tokens = 3;
  count_tokens = λ s. 7;
  cache_usage = λ raw. (none, none);
  unmarshal = λ s. none;
  python_style_dumps = λ input. codes "{}";
  generate_tool_use_id = λ n. "toolu_0";
  parse_bracket_tool_calls = λ s. [];
}

abbrev cfg : Settings
cfg = record {
  message_id = "msg_0";
  model = "m";
  thinking_handling = as_reasoning_content;
  thinking_signature = "sig";
}

abbrev reads : List Bytes
reads = codes "x{\"content\":\"\"" ∷ codes "}y{\"name\":\"f\"}" ∷ []

abbrev no_usage : Bytes → Option Bytes
no_usage raw = none

reads-TextIds :
    TextIds
      (Dedup.finish plain (last_parser env cfg plain no_usage "as_reasoning_content" 20 reads)).1
unfolding drive_chunks new_pipeline Pipeline.feed Events.feed Events.absorb Events.drain
    Events.next_frame Events.earliest_of index has_prefix find_matching_brace Events.process_frame
    Events.process_event Events.process_content process_tool_start finalize_tool_call
    tool_input_arg_string is_truthy lookup emit_message_start Dedup.finish Dedup.get_tool_calls
    Dedup.deduplicate_tool_calls Dedup.by_id Dedup.put Dedup.without_id Dedup.unique Dedup.has_key
    Dedup.key_of Dedup.id_of Dedup.any_str same_bytes
reads-TextIds = (("t1", refl), tt)

drive_pipeline-Answered_example : Answered env cfg plain no_usage (
    drive_pipeline plain no_usage env cfg
      (new_pipeline "as_reasoning_content" 20)
      new
      reads
      end_of_file)
drive_pipeline-Answered_example =
    drive_pipeline-Answered env cfg plain no_usage "as_reasoning_content" 20 reads reads-TextIds

drive_pipeline-read_error_example :
    (d : Driven) × (drive_pipeline plain no_usage env cfg
        (new_pipeline "as_reasoning_content" 20)
        new
        reads
        read_error
      ≡ some d)
    × (d.failed ≡ true)
    × (seen : Bool) × Agrees as_reasoning_content seen d.output
drive_pipeline-read_error_example =
    drive_pipeline-read_error env cfg plain no_usage "as_reasoning_content" 20 reads

abbrev call : String → String → ToolCall
call id name = record {
  id = string id;
  name = string name;
  arguments = codes "{}";
  truncation = none;
}

abbrev numbered : ToolCall
numbered = record { id = number "5"; name = string "f"; arguments = codes "{}"; truncation = none }

abbrev calls : List ToolCall
calls = call "a" "f" ∷ call "b" "f" ∷ call "a" "g" ∷ numbered ∷ []

abbrev pipeline : Pipeline
pipeline = record {
  parser = record {
    buffer = [];
    calls = record {
      last_content = none;
      current_tool_call = none;
      tool_calls = calls;
      last_truncation = none;
      generated = 0;
    };
  };
  thinking = Thinking.new_parser "as_reasoning_content" 20;
}

finish_iff_example :
    ((r : Pipeline × List KiroEvent) × (Pipeline.finish plain pipeline ≡ some r))
    ↔ TextIds (Dedup.finish plain pipeline.parser).1
finish_iff_example = finish_iff plain pipeline

deduplicate-Apart_example :
    KeysApart plain (Dedup.deduplicate_tool_calls plain calls)
    × IdsApart plain (Dedup.deduplicate_tool_calls plain calls)
deduplicate-Apart_example = deduplicate-Apart plain calls

abbrev events : List KiroEvent
events =
    native_thinking (codes "n")
    ∷ content (codes "a")
    ∷ context_usage "12.5"
    ∷ content (codes "b")
    ∷ []

abbrev begun : Output
begun = record { formatter = new; written = [] }

stop_reason_iff_example :
    ((stop_reason new ≡ "refusal") ↔ (new.refused ≡ true))
    × ((stop_reason new ≡ "tool_use") ↔ ((new.refused ≡ false) × (0 < new.tool_block_count)))
    × ((stop_reason new ≡ "max_tokens") ↔ (
        (new.refused ≡ false)
        × (new.received_context_usage ≡ false)
        × (is_empty new.full_content ≡ false)
        × (new.tool_block_count ≡ 0)))
stop_reason_iff_example = stop_reason_iff new

-- The text block is open behind a content.
abbrev in_text : Output
in_text = handle_content (codes "a") (emit_message_start env cfg begun)

handle-InText_example :
    BeginsAgain cfg.thinking_signature in_text (handle env cfg (thinking (codes "t")) in_text)
unfolding handle_content stop_thinking start_text send_text emit_message_start new receive_all
    receive next_phase kept close_thinking open_text
handle-InText_example =
    handle-InText env cfg in_text (codes "t") (codes "a") [] 0 refl (refl, refl, refl, refl)
