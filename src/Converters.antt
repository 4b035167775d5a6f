-- ===== src/Converters.antt =====
-- internal/converterscore: the unified messages of both dialects (types.go) and the steps of
-- `BuildKiroPayload` that turn them into a conversation that Kiro accepts (normalize.go,
-- `StripAllToolContent` of thinking.go, payload.go). A nil slice is an empty list. A loop that
-- appends to its result and looks at the last message of it passes that message along.
pub mod Text
pub mod Alternation
pub mod ToolResults
pub mod Preserved
pub mod Tools
pub mod Extract
pub mod Thinking
pub mod History
pub mod Payload
use kiro_gateway_go.Common.{
  ℕ, Bool, true, false, not, ◌&&◌, ◌||◌, String, ◌<>◌, Option, none, some, List, [], ◌∷◌, ◌++◌,
  str_eq, if◌then◌else◌,
}
use kiro_gateway_go.Json.{
  Value, Values, Fields, string, array, object, end, item, no_fields, field, append_values,
}
use kiro_gateway_go.Converters.Text.{
  extract_text_content, join, tool_calls_to_text, tool_results_to_text,
}

pub record UnifiedMessage : Type 0 where
  pub role : String
  pub content : Value
  pub tool_calls : List Fields
  pub tool_results : List Fields
  pub images : List Fields
  pub reasoning_content : Option Fields

abbrev pub empty_placeholder : String
empty_placeholder = "(empty placeholder)"

-- `UnifiedMessage{Role: role, Content: emptyPlaceholder}`
abbrev pub synthetic : String → UnifiedMessage
synthetic role = record {
  role = role;
  content = string empty_placeholder;
  tool_calls = [];
  tool_results = [];
  images = [];
  reasoning_content = none;
}

-- `len(s) > 0`
abbrev pub nonempty : List Fields → Bool
nonempty [] = false
nonempty (_ ∷ _) = true

abbrev pub is_user : UnifiedMessage → Bool
is_user msg = str_eq msg.role "user"

abbrev pub is_assistant : UnifiedMessage → Bool
is_assistant msg = str_eq msg.role "assistant"

-- The test `hasPrecedingAssistant` on the last message.
abbrev pub calls_tools : UnifiedMessage → Bool
calls_tools msg = is_assistant msg && nonempty msg.tool_calls

abbrev pub preceding_calls : Option UnifiedMessage → Bool
preceding_calls none = false
preceding_calls (some msg) = calls_tools msg

module _ (str_of : Value → String) where
  -- The three cases of `newContent`.
  unfoldable pub with_results_text : String → String → String
  with_results_text original results =
      if not (str_eq original "") && not (str_eq results "")
      then original <> "\n\n" <> results
      else if not (str_eq results "")
      then results
      else original

  -- The message whose orphaned results became text.
  unfoldable pub results_as_text : UnifiedMessage → UnifiedMessage
  unfolding with_results_text
  results_as_text msg = record {
    role = msg.role;
    content = string (
        with_results_text (extract_text_content str_of msg.content)
          (tool_results_to_text str_of msg.tool_results));
    tool_calls = msg.tool_calls;
    tool_results = [];
    images = msg.images;
    reasoning_content = none;
  }

  -- The message that the loop appends after `last`, and whether it was converted.
  unfoldable pub ensured : Option UnifiedMessage → UnifiedMessage → UnifiedMessage × Bool
  unfolding results_as_text
  ensured last msg =
      if nonempty msg.tool_results && not (preceding_calls last)
      then (results_as_text msg, true)
      else (msg, false)

  ensure_loop : Option UnifiedMessage → List UnifiedMessage → List UnifiedMessage × Bool
  unfolding ensured
  ensure_loop last [] = ([], false)
  ensure_loop last (msg ∷ msgs) =
      let (msg', converted) = ensured last msg in
      let (out, any) = ensure_loop (some msg') msgs in (msg' ∷ out, converted || any)

  unfoldable pub ensure_assistant_before_tool_results :
      List UnifiedMessage → List UnifiedMessage × Bool
  unfolding ensure_loop
  ensure_assistant_before_tool_results msgs = ensure_loop none msgs

  -- `{"type": "text", "text": ExtractTextContent(content)}`
  text_block : Value → Value
  text_block content = object (
      field "type" (string "text")
        (field "text" (string (extract_text_content str_of content)) no_fields))

  unfoldable pub merge_content : Value → Value → Value
  unfolding append_values text_block
  merge_content (array last) (array msg) = array (append_values last msg)
  merge_content (array last) content = array (append_values last (item (text_block content) end))
  merge_content content (array msg) = array (item (text_block content) msg)
  merge_content a b =
      string (extract_text_content str_of a <> "\n" <> extract_text_content str_of b)

  abbrev or_reasoning : Option Fields → Option Fields → Option Fields
  or_reasoning none r = r
  or_reasoning (some r) _ = some r

  -- `merged[idx]` after the message `msg` with the same role.
  unfoldable pub merged_with : UnifiedMessage → UnifiedMessage → UnifiedMessage
  unfolding merge_content
  merged_with last msg = record last {
    content = merge_content last.content msg.content;
    reasoning_content =
        if is_assistant msg
        then or_reasoning last.reasoning_content msg.reasoning_content
        else last.reasoning_content;
    tool_calls =
        if is_assistant msg && nonempty msg.tool_calls
        then last.tool_calls ++ msg.tool_calls
        else last.tool_calls;
    tool_results =
        if is_user msg && nonempty msg.tool_results
        then last.tool_results ++ msg.tool_results
        else last.tool_results;
  }

  merge_loop : UnifiedMessage → List UnifiedMessage → List UnifiedMessage
  unfolding merged_with
  merge_loop last [] = last ∷ []
  merge_loop last (msg ∷ msgs) =
      let same = str_eq msg.role last.role in
      let rest = merge_loop (if same then merged_with last msg else msg) msgs in
      if same then rest else last ∷ rest

  unfoldable pub merge_adjacent_messages : List UnifiedMessage → List UnifiedMessage
  unfolding merge_loop
  merge_adjacent_messages [] = []
  merge_adjacent_messages (msg ∷ msgs) = merge_loop msg msgs

  -- The part that is not "", as a list.
  abbrev part_of : String → List String
  part_of s = if not (str_eq s "") then s ∷ [] else []

  abbrev joined_or_placeholder : List String → String
  joined_or_placeholder [] = empty_placeholder
  joined_or_placeholder (part ∷ parts) = join "\n\n" (part ∷ parts)

  -- The body of the loop of `StripAllToolContent`.
  unfoldable pub stripped : UnifiedMessage → UnifiedMessage × Bool
  unfolding join
  stripped msg =
      if not (nonempty msg.tool_calls) && not (nonempty msg.tool_results) then (msg, false) else (
        record {
          role = msg.role;
          content = string (
              joined_or_placeholder (
                part_of (extract_text_content str_of msg.content)
                ++ ((if nonempty msg.tool_calls
                      then part_of (tool_calls_to_text str_of msg.tool_calls)
                      else [])
                    ++ (if nonempty msg.tool_results
                        then part_of (tool_results_to_text str_of msg.tool_results)
                        else []))));
          tool_calls = [];
          tool_results = [];
          images = msg.images;
          reasoning_content = none;
        },
        true,
      )

  unfoldable pub strip_all_tool_content : List UnifiedMessage → List UnifiedMessage × Bool
  unfolding stripped
  strip_all_tool_content [] = ([], false)
  strip_all_tool_content (msg ∷ msgs) =
      let (msg', had) = stripped msg in
      let (out, any) = strip_all_tool_content msgs in (msg' ∷ out, had || any)

unfoldable pub ensure_first_message_is_user : List UnifiedMessage → List UnifiedMessage
ensure_first_message_is_user [] = []
ensure_first_message_is_user (msg ∷ msgs) =
    if not (is_user msg) then synthetic "user" ∷ msg ∷ msgs else msg ∷ msgs

-- The body of the loop of `NormalizeMessageRoles`.
unfoldable pub normalize_role : UnifiedMessage → UnifiedMessage
normalize_role msg =
    if not (is_user msg) && not (is_assistant msg)
    then record msg { role = "user"; reasoning_content = none }
    else msg

unfoldable pub normalize_message_roles : List UnifiedMessage → List UnifiedMessage
unfolding normalize_role
normalize_message_roles [] = []
normalize_message_roles (msg ∷ msgs) = normalize_role msg ∷ normalize_message_roles msgs

alternate_loop : UnifiedMessage → List UnifiedMessage → List UnifiedMessage
alternate_loop last [] = []
alternate_loop last (msg ∷ msgs) =
    let rest = alternate_loop msg msgs in
    if is_user msg && is_user last then synthetic "assistant" ∷ msg ∷ rest else msg ∷ rest

unfoldable pub ensure_alternating_roles : List UnifiedMessage → List UnifiedMessage
unfolding alternate_loop
ensure_alternating_roles [] = []
ensure_alternating_roles (msg ∷ msgs) = msg ∷ alternate_loop msg msgs

-- The messages of `BuildKiroPayload`, with whether the request defines tools.
unfoldable pub conversation : (Value → String) → Bool → List UnifiedMessage → List UnifiedMessage
unfolding ensure_assistant_before_tool_results strip_all_tool_content merge_adjacent_messages
conversation str_of has_tools messages =
    let with_assistants =
      if has_tools
      then (ensure_assistant_before_tool_results str_of messages).0
      else (strip_all_tool_content str_of messages).0 in
    ensure_alternating_roles (
      normalize_message_roles
        (ensure_first_message_is_user (merge_adjacent_messages str_of with_assistants)))
