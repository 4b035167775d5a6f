-- ===== src/Tests/Payloads.antt =====
-- A payload of two messages, and a schema of a tool.
use kiro_gateway_go.Common.{◌≡◌, ◌⊎◌, ◌↔◌, true, false, none, List, [], ◌∷◌}
use kiro_gateway_go.Common.Int.{pos}
use kiro_gateway_go.Json.{Fields, array, object, end, no_fields, field, boolean}
use kiro_gateway_go.Converters.{UnifiedMessage, synthetic}
use kiro_gateway_go.Converters.Thinking.{Settings, ThinkingConfig}
use kiro_gateway_go.Converters.Tools.{UnifiedTool, sanitize_json_schema}
use kiro_gateway_go.Converters.Tools.Within.{Clean, keys, kept_keys}
use kiro_gateway_go.Converters.Tools.Sanitized.{sanitize_json_schema_lem}
use kiro_gateway_go.Converters.History.{Library}
use kiro_gateway_go.Converters.Payload.{build_kiro_payload}
use kiro_gateway_go.Converters.Payload.Sent.{TakesTurns, Refused, build_kiro_payload-TakesTurns}

abbrev settings : Settings
settings = record {
  fake_reasoning_enabled = true;
  truncation_recovery_enabled = true;
  tool_description_max_length = 4;
  fake_reasoning_max_tokens = pos 4000;
  fake_reasoning_budget_cap = pos 10000;
  fake_reasoning_models = none;
  is_native = λ _. false;
  model_key = λ id. id;
  trim_space = λ s. s;
  itoa = λ _. "4000";
}

abbrev library : Library
library = record { str_of = λ _. "?"; unmarshal = λ _. none; is_zero = λ _. false }

abbrev messages : List UnifiedMessage
messages = synthetic "user" ∷ synthetic "assistant" ∷ []

-- "additionalProperties" as a key goes, as the name of a property it stays.
abbrev schema : Fields
schema = field "required" (array end) (
    field "additionalProperties" (boolean false) (
      field "properties" (object (field "additionalProperties" (object no_fields) no_fields))
        no_fields))

abbrev tools : List UnifiedTool
tools = record { name = "search"; description = "Searches."; input_schema = schema } ∷ []

abbrev thinking : ThinkingConfig
thinking = record { is_enabled = true; budget_tokens = none }

build_kiro_payload-TakesTurns_example :
    TakesTurns settings library "new"
      (build_kiro_payload settings library "new" messages "Be brief." "m" tools "" "" thinking)
    ⊎ ((build_kiro_payload settings library "new" messages "Be brief." "m" tools "" "" thinking
          ≡ none)
        × Refused settings library "new" messages tools)
build_kiro_payload-TakesTurns_example =
    build_kiro_payload-TakesTurns settings library "new" messages "Be brief." "m" tools "" ""
      thinking

sanitize_json_schema_lem_example :
    Clean (sanitize_json_schema schema)
    × (Clean schema ↔ (sanitize_json_schema schema ≡ schema))
    × (keys (sanitize_json_schema schema) ≡ kept_keys schema)
sanitize_json_schema_lem_example = sanitize_json_schema_lem schema
