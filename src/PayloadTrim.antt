-- ===== src/PayloadTrim.antt =====
-- internal/converterscore/payloadtrim.go: a payload that is too large loses the oldest entries of its
-- history. The entries are as `BuildKiroHistory` makes them: a user entry or an assistant entry. The
-- size of the payload with a history is a parameter, `checkPayloadSize`.
pub mod Repair
use kiro_gateway_go.Common.{
  ℕ, ◌+◌, Bool, true, false, not, ◌&&◌, ◌||◌, String, Option, none, some, List, [], ◌∷◌, ◌++◌, ltb,
  ◌==◌, if◌then◌else◌, ◌<>◌, str_eq, length,
}
use kiro_gateway_go.Json.{
  Value, Values, Fields, string, array, object, end, item, lookup, as_string, as_string?,
}
use kiro_gateway_go.Converters.Text.{extract_text_content, or_default, content_of, join}

-- What the key "content" of a tool result holds: the `[]map[string]any` that the converters build, by
-- its texts; the `[]any` of decoded JSON; a text; something else.
pub data Content : Type 0 where
  built : List String → Content
  decoded : Values → Content
  text : String → Content
  other : Content

-- `none` for a missing "content".
pub record ToolResult : Type 0 where
  pub tool_use_id : String
  pub content : Option Content

-- "userInputMessageContext": its tool results, and whether it holds anything else.
pub record Context : Type 0 where
  pub tool_results : Option (List ToolResult)
  pub more_keys : Bool

pub record UserInput : Type 0 where
  pub content : String
  pub context : Option Context

-- An assistant entry, by the ids of its tool uses.
pub data Entry : Type 0 where
  user : UserInput → Entry
  assistant : Option (List String) → Entry

module _ (str_of : Value → String) where
  abbrev convert_one : Fields → ToolResult
  convert_one tr = record {
    tool_use_id = as_string (lookup "tool_use_id" tr);
    content = some (
        built (
          or_default str_of (extract_text_content str_of (content_of str_of (lookup "content" tr)))
            "(empty result)"
          ∷ []));
  }

  -- `ConvertToolResultsToKiroFormat` of images.go.
  unfoldable pub convert_tool_results_to_kiro_format : List Fields → List ToolResult
  convert_tool_results_to_kiro_format [] = []
  convert_tool_results_to_kiro_format (tr ∷ trs) =
      convert_one tr ∷ convert_tool_results_to_kiro_format trs

abbrev strip_entry : Entry → Entry
strip_entry (assistant (some [])) = assistant none
strip_entry e = e

unfoldable pub strip_empty_tool_uses : List Entry → List Entry
strip_empty_tool_uses [] = []
strip_empty_tool_uses (e ∷ history) = strip_entry e ∷ strip_empty_tool_uses history

unfoldable pub align_to_user_message : List Entry → List Entry
align_to_user_message [] = []
align_to_user_message (user u ∷ history) = user u ∷ history
align_to_user_message (assistant uses ∷ history) = align_to_user_message history

-- `validIDs`, from the entry before.
abbrev pub valid_ids : Option Entry → List String
valid_ids (some (assistant (some ids))) = ids
valid_ids _ = []

unfoldable pub is_valid : String → List String → Bool
is_valid id [] = false
is_valid id (j ∷ ids) = str_eq j id || is_valid id ids

unfoldable pub kept_results : List String → List ToolResult → List ToolResult
kept_results ids [] = []
kept_results ids (tr ∷ trs) =
    let rest = kept_results ids trs in if is_valid tr.tool_use_id ids then tr ∷ rest else rest

-- The texts that are not empty, of the parts of a decoded content.
unfoldable pub part_texts : Values → List String
part_texts end = []
part_texts (item (object part) parts) =
    let rest = part_texts parts in
    elim (as_string? (lookup "text" part)) [
      | none ↦ rest
      | some s ↦ if str_eq s "" then rest else s ∷ rest
    ]
part_texts (item _ parts) = part_texts parts

-- The type assertion to `[]any` fails on a content that the converters built.
unfoldable pub content_texts : Option Content → List String
content_texts (some (decoded parts)) = part_texts parts
content_texts (some (text s)) = if str_eq s "" then [] else s ∷ []
content_texts (some (built _)) = []
content_texts (some other) = []
content_texts none = []

unfoldable pub orphaned_texts : List String → List ToolResult → List String
orphaned_texts ids [] = []
orphaned_texts ids (tr ∷ trs) =
    let rest = orphaned_texts ids trs in
    if is_valid tr.tool_use_id ids then rest else content_texts tr.content ++ rest

-- The content with the marker, if there is a text to keep.
abbrev pub marked : String → List String → String
marked content [] = content
marked content (s ∷ texts) = content <> "\n[trimmed tool result] " <> join "; " (s ∷ texts)

-- The context with the results that are kept.
abbrev pub with_results : Context → List ToolResult → Option Context
with_results c [] =
    if c.more_keys then some (record { tool_results = none; more_keys = true }) else none
with_results c (tr ∷ trs) = some (record c { tool_results = some (tr ∷ trs) })

abbrev pub repair_results : List String → UserInput → Context → List ToolResult → UserInput
repair_results ids u c results =
    let kept = kept_results ids results in
    if not (length kept == length results)
    then record {
      content = marked u.content (orphaned_texts ids results);
      context = with_results c kept;
    }
    else u

abbrev pub repair_found : List String → UserInput → Context → Option (List ToolResult) → UserInput
repair_found ids u c none = u
repair_found ids u c (some results) = repair_results ids u c results

abbrev pub repair_context : List String → UserInput → Option Context → UserInput
repair_context ids u none = u
repair_context ids u (some c) = repair_found ids u c c.tool_results

unfoldable pub repair_user : List String → UserInput → UserInput
repair_user ids u = repair_context ids u u.context

-- The body of the loop, with the entry before.
unfoldable pub repair_entry : Option Entry → Entry → Entry
unfolding repair_user
repair_entry before (assistant uses) = assistant uses
repair_entry before (user u) = user (repair_user (valid_ids before) u)

unfoldable pub repair_from : Option Entry → List Entry → List Entry
repair_from before [] = []
repair_from before (e ∷ history) = let r = repair_entry before e in r ∷ repair_from (some r) history

unfoldable pub repair_orphaned_tool_results : List Entry → List Entry
repair_orphaned_tool_results history = repair_from none history

module _ (size : List Entry → ℕ) (max_bytes : ℕ) where
  -- The loop of step 2.
  unfoldable pub trim_pairs : List Entry → List Entry
  trim_pairs (a ∷ b ∷ c ∷ history) =
      let rest = trim_pairs (c ∷ history) in
      if ltb max_bytes (size (a ∷ b ∷ c ∷ history)) then rest else a ∷ b ∷ c ∷ history
  trim_pairs history = history

  abbrev pub nonempty : List Entry → Option (List Entry)
  nonempty [] = none
  nonempty (e ∷ history) = some (e ∷ history)

  -- The history of the payload, `none` when it has none.
  unfoldable pub trim_payload_to_limit : Option (List Entry) → Option (List Entry)
  unfolding trim_pairs
  trim_payload_to_limit none = none
  trim_payload_to_limit (some []) = some []
  trim_payload_to_limit (some (e ∷ history)) = nonempty (
      repair_orphaned_tool_results
        (align_to_user_message (trim_pairs (strip_empty_tool_uses (e ∷ history)))))
