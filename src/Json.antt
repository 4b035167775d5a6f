-- ===== src/Json.antt =====
-- What the code holds as `any` after `json.Unmarshal`, and the type assertions it makes on it. A Go
-- map is the list of its fields, the first field of a name counts; a number is kept as its text.
use kiro_gateway_go.Common.{Bool, String, Option, none, some, str_eq, if◌then◌else◌}

mutual
  pub data Value : Type 0 where
    null : Value
    boolean : Bool → Value
    number : String → Value
    string : String → Value
    array : Values → Value
    object : Fields → Value

  pub data Values : Type 0 where
    end : Values
    item : Value → Values → Values

  pub data Fields : Type 0 where
    no_fields : Fields
    field : String → Value → Fields → Fields

-- `fields[key]` with its second result.
unfoldable pub lookup : String → Fields → Option Value
lookup key no_fields = none
lookup key (field name v fields) = if str_eq name key then some v else lookup key fields

-- `s, ok := v.(string)` of a value that may be missing.
abbrev pub as_string? : Option Value → Option String
as_string? (some (string s)) = some s
as_string? _ = none

-- `s, _ := v.(string)`, the zero value on failure.
abbrev pub as_string : Option Value → String
as_string (some (string s)) = s
as_string _ = ""

-- `m, _ := v.(map[string]any)`; a lookup in the nil map finds nothing.
abbrev pub as_object : Option Value → Fields
as_object (some (object fields)) = fields
as_object _ = no_fields

unfoldable pub append_values : Values → Values → Values
append_values end ws = ws
append_values (item v vs) ws = item v (append_values vs ws)
