-- ===== src/Converters/Tools.antt =====
-- internal/converterscore/tools.go: the definitions of tools, and the JSON schemas of their arguments.
-- The length of a text in characters and the decimal print of a number are parameters of `fmt` and of
-- the conversion to runes.
pub mod Clean
pub mod Within
pub mod Sanitized
use kiro_gateway_go.Common.{
  ℕ, Bool, true, false, not, ◌&&◌, ◌||◌, String, ◌<>◌, Option, none, some, List, [], ◌∷◌, str_eq,
  ltb, leb, ◌==◌, length, if◌then◌else◌,
}
use kiro_gateway_go.Common.Bytes.{codes}
use kiro_gateway_go.Json.{
  Value, Values, Fields, null, boolean, number, string, array, object, end, item, no_fields, field,
}
use kiro_gateway_go.Converters.Text.{join}

-- `arr, ok := value.([]any); ok && len(arr) == 0`
abbrev pub is_empty_array : Value → Bool
is_empty_array (array end) = true
is_empty_array _ = false

-- The keys that the loop passes over.
unfoldable pub is_dropped : String → Value → Bool
is_dropped key value =
    (str_eq key "required" && is_empty_array value) || str_eq key "additionalProperties"

unfoldable mutual
  pub sanitize_json_schema : Fields → Fields
  sanitize_json_schema no_fields = no_fields
  sanitize_json_schema (field key value fields) =
      let rest = sanitize_json_schema fields in
      if is_dropped key value
      then rest
      else field key (sanitize_value (str_eq key "properties") value) rest

  -- The value of a key; the flag says whether the key is "properties".
  pub sanitize_value : Bool → Value → Value
  sanitize_value true (object props) = object (sanitize_properties props)
  sanitize_value false (object fields) = object (sanitize_json_schema fields)
  sanitize_value b (array items) = array (sanitize_schema_list items)
  sanitize_value b null = null
  sanitize_value b (boolean x) = boolean x
  sanitize_value b (number x) = number x
  sanitize_value b (string x) = string x

  -- A schema where one is expected; all else stays as it is.
  pub sanitize_schema : Value → Value
  sanitize_schema (object fields) = object (sanitize_json_schema fields)
  sanitize_schema (array items) = array items
  sanitize_schema null = null
  sanitize_schema (boolean x) = boolean x
  sanitize_schema (number x) = number x
  sanitize_schema (string x) = string x

  pub sanitize_properties : Fields → Fields
  sanitize_properties no_fields = no_fields
  sanitize_properties (field name value props) =
      field name (sanitize_schema value) (sanitize_properties props)

  pub sanitize_schema_list : Values → Values
  sanitize_schema_list end = end
  sanitize_schema_list (item value items) =
      item (sanitize_schema value) (sanitize_schema_list items)

pub record UnifiedTool : Type 0 where
  pub name : String
  pub description : String
  pub input_schema : Fields

abbrev tool_documentation_preamble : String
tool_documentation_preamble =
    "\n\n---\n# Tool Documentation\nThe following tools have detailed documentation that couldn't fit in the tool definition.\n\n"

-- `len([]rune(s))`
abbrev rune_count : String → ℕ
rune_count s = length (codes s)

abbrev documented : UnifiedTool → String
documented tool = "## Tool: " <> (tool.name <> ("\n\n" <> tool.description))

abbrev shortened : UnifiedTool → UnifiedTool
shortened tool = record tool {
  description = "[Full documentation in system prompt under '## Tool: " <> (tool.name <> "']");
}

-- The tools and the parts of the documentation. A limit of 0 stands for every limit below 1.
unfoldable pub process_loop : ℕ → List UnifiedTool → List UnifiedTool × List String
process_loop max_len [] = ([], [])
process_loop max_len (tool ∷ tools) =
    let (processed, doc_parts) = process_loop max_len tools in
    if leb (rune_count tool.description) max_len
    then (tool ∷ processed, doc_parts)
    else (shortened tool ∷ processed, documented tool ∷ doc_parts)

abbrev addition_of : List String → String
addition_of [] = ""
addition_of (part ∷ parts) = tool_documentation_preamble <> join "\n\n---\n\n" (part ∷ parts)

unfoldable pub process_tools_with_long_descriptions :
    List UnifiedTool → ℕ → List UnifiedTool × String
process_tools_with_long_descriptions tools max_len =
    if max_len == 0
    then (tools, "")
    else ((process_loop max_len tools).0, addition_of (process_loop max_len tools).1)

-- Whether `ValidateToolNames` gives no error.
unfoldable pub validate_tool_names : List UnifiedTool → Bool
validate_tool_names [] = true
validate_tool_names (tool ∷ tools) = leb (rune_count tool.name) 64 && validate_tool_names tools

pub record ToolSpecification : Type 0 where
  pub name : String
  pub description : String
  pub json : Fields

module _ (trim_space : String → String) where
  unfoldable pub convert_tools_to_kiro_format : List UnifiedTool → List ToolSpecification
  convert_tools_to_kiro_format [] = []
  convert_tools_to_kiro_format (tool ∷ tools) =
      record {
        name = tool.name;
        description =
            if str_eq (trim_space tool.description) ""
            then "Tool: " <> tool.name
            else tool.description;
        json = sanitize_json_schema tool.input_schema;
      }
      ∷ convert_tools_to_kiro_format tools
