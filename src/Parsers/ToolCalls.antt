-- ===== src/Parsers/ToolCalls.antt =====
-- internal/parsers/toolcalls.go: the tool call that the event stream parser builds up. What the code
-- takes from Go's encoding/json, reflect, strings and bytes, the printing of internal/pyjson and the
-- generator of ids come in as a `Library`.
use kiro_gateway_go.Common.{
  ℕ, ◌+◌, Bool, true, false, not, String, Option, none, some, List, [], ◌∷◌, ◌++◌, str_eq,
  if◌then◌else◌,
}
use kiro_gateway_go.Common.Bytes.{Bytes, codes, is_empty}
use kiro_gateway_go.Json.{
  Value, Fields, null, boolean, number, string, array, object, end, item, no_fields, field, lookup,
}
use kiro_gateway_go.Parsers.Truncation.{TruncationInfo, diagnose_json_truncation}

pub record Library : Type 0 where
  -- `bytes.ToValidUTF8(chunk, nil)`
  pub to_valid_utf8 : Bytes → Bytes
  -- `json.Unmarshal` into a map.
  pub unmarshal : Bytes → Option Fields
  -- What `json.Unmarshal` leaves in a map when its error is not looked at; `none` is the nil map.
  pub filled : Bytes → Option Fields
  -- The raw field "input" with its decoded value.
  pub raw_input : Bytes → Option (Bytes × Option Value)
  -- `x != 0` of a number's text is false.
  pub is_zero : String → Bool
  -- `reflect.DeepEqual`
  pub deep_equal : Option Value → Option Value → Bool
  -- `pyjson.DumpsASCII` and `pyjson.Str`
  pub dumps_ascii : Bytes → Option Bytes
  pub str : Bytes → Bytes
  -- `json.Marshal` of a decoded value that is no string, then `pyjson.Str`.
  pub str_of_value : Value → Bytes
  -- `strings.TrimSpace`
  pub trim_space : Bytes → Bytes
  -- `utils.GenerateToolCallID`, at its n-th call.
  pub generate_tool_call_id : ℕ → String

-- The tool call in construction; `name` and `id` are any value.
pub record ToolCallAcc : Type 0 where
  pub id : Value
  pub name : Value
  pub arguments : Bytes

-- The map of a finished tool call, with `_truncation_info` where it has one.
pub record ToolCall : Type 0 where
  pub id : Value
  pub name : Value
  pub arguments : Bytes
  pub truncation : Option TruncationInfo

-- The fields of `Parser` but the buffer, with the number of ids generated.
pub record Calls : Type 0 where
  pub last_content : Option Value
  pub current_tool_call : Option ToolCallAcc
  pub tool_calls : List ToolCall
  pub last_truncation : Option TruncationInfo
  pub generated : ℕ

abbrev pub new_calls : ℕ → Calls
new_calls n = record {
  last_content = none;
  current_tool_call = none;
  tool_calls = [];
  last_truncation = none;
  generated = n;
}

module _ (l : Library) where
  -- `isTruthy`; a missing value is nil.
  unfoldable pub is_truthy : Option Value → Bool
  is_truthy none = false
  is_truthy (some null) = false
  is_truthy (some (boolean b)) = b
  is_truthy (some (number n)) = not (l.is_zero n)
  is_truthy (some (string s)) = not (str_eq s "")
  is_truthy (some (array end)) = false
  is_truthy (some (array (item _ _))) = true
  is_truthy (some (object no_fields)) = false
  is_truthy (some (object (field _ _ _))) = true

  abbrev or_empty : Option Bytes → Bytes
  or_empty none = []
  or_empty (some s) = s

  input_text : Bytes → Value → Bytes
  unfolding is_truthy
  input_text raw (object no_fields) = []
  input_text raw (object (field _ _ _)) = or_empty (l.dumps_ascii raw)
  input_text raw v = if not (is_truthy (some v)) then [] else l.str raw

  unfoldable pub tool_input_arg_string : Option (Bytes × Option Value) → Bytes
  unfolding input_text
  tool_input_arg_string none = []
  tool_input_arg_string (some (raw, none)) = []
  tool_input_arg_string (some (raw, some v)) = input_text raw v

  -- The final arguments and the truncation.
  final_arguments : Bytes → Bytes × Option TruncationInfo
  final_arguments args =
      if is_empty (l.trim_space args) then (codes "{}", none) else elim (l.dumps_ascii args) [
        | some reformatted ↦ (reformatted, none)
        | none ↦
            let info = diagnose_json_truncation l.trim_space args in
            (codes "{}", if info.is_truncated then some info else none)
      ]

  abbrev or_else : Option TruncationInfo → Option TruncationInfo → Option TruncationInfo
  or_else none b = b
  or_else (some a) b = some a

  unfoldable pub finalize_tool_call : Calls → Calls
  unfolding final_arguments
  finalize_tool_call c = elim c.current_tool_call [
    | none ↦ c
    | some acc ↦
        let (args, trunc) = final_arguments acc.arguments in
        record c {
          current_tool_call = none;
          last_truncation = or_else trunc c.last_truncation;
          tool_calls =
              c.tool_calls
              ++ (record { id = acc.id; name = acc.name; arguments = args; truncation = trunc }
                  ∷ []);
        }
  ]

  -- The value of a key, or the default when the key is missing.
  abbrev get_or : String → Fields → Value → Value
  get_or key value default = elim (lookup key value) [ none ↦ default | some v ↦ v ]

  -- The first statement of `processToolStart` has no effect when there is no tool call.
  unfoldable pub process_tool_start : Calls → Fields → Bytes → Calls
  unfolding finalize_tool_call tool_input_arg_string is_truthy lookup
  process_tool_start c0 value raw =
      let c = finalize_tool_call c0 in
      let started : Calls = record c {
        generated = c.generated + 1;
        current_tool_call = some (record {
          id = get_or "toolUseId" value (string (l.generate_tool_call_id c.generated));
          name = get_or "name" value (string "");
          arguments = tool_input_arg_string (l.raw_input raw);
        });
      } in
      if is_truthy (lookup "stop" value) then finalize_tool_call started else started

  unfoldable pub process_tool_input : Calls → Bytes → Calls
  unfolding tool_input_arg_string
  process_tool_input c raw = elim c.current_tool_call [
    | none ↦ c
    | some acc ↦ record c {
      current_tool_call =
          some
            (record acc { arguments = acc.arguments ++ tool_input_arg_string (l.raw_input raw) });
    }
  ]

  unfoldable pub process_tool_stop : Calls → Fields → Calls
  unfolding finalize_tool_call is_truthy lookup
  process_tool_stop c value = if is_truthy (lookup "stop" value) then finalize_tool_call c else c
