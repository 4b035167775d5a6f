-- ===== src/StreamingCore/Pipeline.antt =====
-- internal/streamingcore/pipeline.go: the event stream parser and the thinking parser together. A
-- type assertion without its second result panics when it fails; `none` stands for that.
use kiro_gateway_go.Common.{ℕ, String, Option, none, some, List, [], ◌∷◌, ◌++◌, if◌then◌else◌}
use kiro_gateway_go.Common.Bytes.{Bytes, is_empty}
use kiro_gateway_go.Common.Utf8.{utf8}
use kiro_gateway_go.Json.{
  Value, Fields, number, no_fields, lookup, as_string, as_string?, as_object,
}
use kiro_gateway_go.Parsers.ToolCalls.{Library, ToolCall, new_calls}
use kiro_gateway_go.Parsers.Truncation.{TruncationInfo}
use kiro_gateway_go.Parsers.Events.{Kind, Event}
use kiro_gateway_go.Parsers.Events as Events
use kiro_gateway_go.Parsers.Dedup as Dedup
use kiro_gateway_go.ThinkingParser as Thinking
use kiro_gateway_go.StreamingCore.{
  KiroEvent, ToolUseData, RefusalInfo, content, thinking, tool_use, usage, context_usage, error,
  refusal, native_thinking, thinking_signature, redacted_thinking,
}

pub record Pipeline : Type 0 where
  pub parser : Events.Parser
  pub thinking : Thinking.Parser

unfoldable pub new_pipeline : String → ℕ → Pipeline
new_pipeline handling size = record {
  parser = record { buffer = []; calls = new_calls 0 };
  thinking = Thinking.new_parser handling size;
}

-- The two `if`s on the results of the thinking parser.
unfoldable pub separated : Bytes → Bytes → List KiroEvent
separated t s =
    (if is_empty t then [] else thinking t ∷ []) ++ (if is_empty s then [] else content s ∷ [])

unfoldable pub extract_refusal : Fields → RefusalInfo
extract_refusal value =
    let fields = as_object (lookup "refusal" (as_object (lookup "stopDetails" value))) in
    record {
      category = as_string (lookup "category" fields);
      explanation = as_string (lookup "explanation" fields);
    }

-- The event of a percentage that is a number.
abbrev pub percentage : Option Value → List KiroEvent
percentage (some (number n)) = context_usage n ∷ []
percentage _ = []

-- An event that carries a text, if it is not empty.
abbrev pub unless_empty : (Bytes → KiroEvent) → Bytes → List KiroEvent
unless_empty event s = if is_empty s then [] else event s ∷ []

abbrev pub field_text : String → Fields → Bytes
field_text name value = utf8 (as_string (lookup name value))

abbrev pub or_no_fields : Option Fields → Fields
or_no_fields none = no_fields
or_no_fields (some fields) = fields

-- The events of a field "content", if it is there.
unfoldable pub content_events : Option Value → Thinking.Parser → Thinking.Parser × List KiroEvent
unfolding separated
content_events none p = (p, [])
content_events (some v) p =
    let o = Thinking.feed p (utf8 (as_string (some v))) in
    (o.parser, separated o.thinking o.content)

-- The event of `TruncationDiagnosis`.
unfoldable pub diagnosis : Option TruncationInfo → List KiroEvent
diagnosis none = []
diagnosis (some info) = error info.reason ∷ []

module _ (l : Library) (extract_usage_raw : Bytes → Option Bytes) where
  -- The `switch` on the kind of a parser event.
  unfoldable pub convert : Event → Thinking.Parser → Thinking.Parser × List KiroEvent
  unfolding extract_refusal content_events
  convert e p = elim e.kind [
    | Kind.content ↦ content_events (lookup "content" e.value) p
    | Kind.usage ↦ (p, usage (extract_usage_raw e.raw) ∷ [])
    | Kind.context_usage ↦ (p, percentage (lookup "contextUsagePercentage" e.value))
    | Kind.reasoning_text ↦ (p, unless_empty native_thinking (field_text "text" e.value))
    | Kind.reasoning_signature ↦
        (p, unless_empty thinking_signature (field_text "signature" e.value))
    | Kind.reasoning_redacted ↦
        (p, unless_empty redacted_thinking (field_text "redactedContent" e.value))
    | Kind.refusal ↦ (p, refusal (extract_refusal e.value) ∷ [])
    | _ ↦ (p, [])
  ]

  unfoldable pub convert_all : List Event → Thinking.Parser → Thinking.Parser × List KiroEvent
  unfolding convert
  convert_all [] p = (p, [])
  convert_all (e ∷ events) p =
      let (q, es) = convert e p in let (q', es') = convert_all events q in (q', es ++ es')

  unfoldable pub feed : Pipeline → Bytes → Pipeline × List KiroEvent
  unfolding convert_all diagnosis
  feed p chunk =
      let (parser, events) = Events.feed l p.parser chunk in
      let (q, es) = convert_all events p.thinking in
      (record { parser = parser; thinking = q }, es ++ diagnosis parser.calls.last_truncation)

-- The data of a call, with the id behind its type assertion.
abbrev pub tool_use_data : ToolCall → Fields → Option String → Option ToolUseData
tool_use_data tc input none = none
tool_use_data tc input (some id) =
    some (record {
      id = id;
      name = as_string (some tc.name);
      input = input;
      truncation = tc.truncation;
    })

-- `none` when a call before or this one panics.
abbrev pub add_tool_use : Option ToolUseData → Option (List KiroEvent) → Option (List KiroEvent)
add_tool_use (some tu) (some es) = some (tool_use tu ∷ es)
add_tool_use _ _ = none

-- The pipeline `p` and the events at the end, the thinking and the content first.
abbrev pub ended :
    Pipeline → List KiroEvent → Option (List KiroEvent) → Option (Pipeline × List KiroEvent)
ended p es none = none
ended p es (some calls) = some (p, es ++ (calls ++ diagnosis p.parser.calls.last_truncation))

module _ (l : Library) where
  unfoldable pub extract_tool_use_data : ToolCall → Option ToolUseData
  extract_tool_use_data tc =
      tool_use_data tc (or_no_fields (l.filled tc.arguments)) (as_string? (some tc.id))

  -- The loop over the tool calls of the parser.
  unfoldable pub tool_uses : List ToolCall → Option (List KiroEvent)
  unfolding extract_tool_use_data
  tool_uses [] = some []
  tool_uses (tc ∷ calls) = add_tool_use (extract_tool_use_data tc) (tool_uses calls)

  unfoldable pub finish : Pipeline → Option (Pipeline × List KiroEvent)
  unfolding separated tool_uses diagnosis
  finish p =
      let o = Thinking.finish p.thinking in
      let (parser, calls) = Dedup.finish l p.parser in
      ended (record { parser = parser; thinking = o.parser }) (separated o.thinking o.content)
        (tool_uses calls)
