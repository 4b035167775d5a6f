-- ===== src/Converters/Text.antt =====
-- internal/converterscore/extract.go (`ExtractTextContent`) and text.go: content and tool traffic
-- as plain text. `str_of` is `pyjson.Str(json.Marshal(v))`, and "" where that fails.
use kiro_gateway_go.Common.{
  ◌||◌, not, String, ◌<>◌, Option, none, some, List, [], ◌∷◌, str_eq, if◌then◌else◌,
}
use kiro_gateway_go.Json.{
  Value, Values, Fields, null, string, array, object, end, item, lookup, as_string, as_object,
}

-- What one element of a content list adds to the text.
unfoldable pub text_of_item : Value → String
unfolding lookup
text_of_item (string s) = s
text_of_item (object block) =
    let kind = as_string (lookup "type" block) in
    if str_eq kind "image" || str_eq kind "image_url" || str_eq kind "tool_reference"
    then ""
    else if str_eq kind "text"
    then as_string (lookup "text" block)
    else as_string (lookup "text" block)
text_of_item _ = ""

unfoldable pub text_of_items : Values → String
unfolding text_of_item
text_of_items end = ""
text_of_items (item v vs) = text_of_item v <> text_of_items vs

-- `strings.Join`.
unfoldable pub join : String → List String → String
join sep [] = ""
join sep (part ∷ []) = part
join sep (part ∷ rest) = part <> (sep <> join sep rest)

module _ (str_of : Value → String) where
  -- A missing content is nil.
  unfoldable pub extract_text_content : Value → String
  unfolding text_of_items
  extract_text_content null = ""
  extract_text_content (string s) = s
  extract_text_content (array items) = text_of_items items
  extract_text_content v = str_of v

  abbrev pub or_default : String → String → String
  or_default s default = if str_eq s "" then default else s

  unfoldable pub tool_call_part : Fields → String
  unfolding lookup
  tool_call_part tc =
      let func_obj = as_object (lookup "function" tc) in
      let name = or_default (as_string (lookup "name" func_obj)) "unknown" in
      let arguments = or_default (as_string (lookup "arguments" func_obj)) "{}" in
      let tool_id = as_string (lookup "id" tc) in
      if not (str_eq tool_id "")
      then "[Tool: " <> name <> " (" <> tool_id <> ")]\n" <> arguments
      else "[Tool: " <> name <> "]\n" <> arguments

  tool_call_parts : List Fields → List String
  unfolding tool_call_part
  tool_call_parts [] = []
  tool_call_parts (tc ∷ tcs) = tool_call_part tc ∷ tool_call_parts tcs

  unfoldable pub tool_calls_to_text : List Fields → String
  unfolding tool_call_parts join
  tool_calls_to_text tool_calls = join "\n\n" (tool_call_parts tool_calls)

  -- A missing content is the nil value.
  abbrev pub content_of : Option Value → Value
  content_of none = null
  content_of (some v) = v

  unfoldable pub tool_result_part : Fields → String
  unfolding lookup extract_text_content
  tool_result_part tr =
      let tool_use_id = as_string (lookup "tool_use_id" tr) in
      let content_text =
        or_default (extract_text_content (content_of (lookup "content" tr))) "(empty result)" in
      if not (str_eq tool_use_id "")
      then "[Tool Result (" <> tool_use_id <> ")]\n" <> content_text
      else "[Tool Result]\n" <> content_text

  tool_result_parts : List Fields → List String
  unfolding tool_result_part
  tool_result_parts [] = []
  tool_result_parts (tr ∷ trs) = tool_result_part tr ∷ tool_result_parts trs

  unfoldable pub tool_results_to_text : List Fields → String
  unfolding tool_result_parts join
  tool_results_to_text tool_results = join "\n\n" (tool_result_parts tool_results)
