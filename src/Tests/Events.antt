-- ===== src/Tests/Events.antt =====
-- The theorems on the event stream parser and the diagnosis of cut-off JSON at concrete texts.
use kiro_gateway_go.Common.{false, none, some, List, [], ◌∷◌, ◌≡◌, ◌↔◌, ◌⊎◌, true}
use kiro_gateway_go.Common.Bytes.{Bytes, codes, is_empty}
use kiro_gateway_go.Json.{no_fields}
use kiro_gateway_go.Parsers.Truncation.{diagnose_json_truncation}
use kiro_gateway_go.Parsers.Diagnosis.{Whole, diagnose_json_truncation_iff}
use kiro_gateway_go.Parsers.ToolCalls.{Library, new_calls}
use kiro_gateway_go.Parsers.Events.{Parser, absorb}
use kiro_gateway_go.Parsers.Chunks.{feed_all, cleaned, feed_all-cleaned}

abbrev library : Library
library = record {
  to_valid_utf8 = λ s. s;
  unmarshal = λ s. some no_fields;
  filled = λ s. some no_fields;
  raw_input = λ s. none;
  is_zero = λ s. false;
  deep_equal = λ a b. false;
  dumps_ascii = λ s. some s;
  str = λ s. s;
  str_of_value = λ v. [];
  trim_space = λ s. s;
  generate_tool_call_id = λ n. "call_0";
}

abbrev fresh : Parser
fresh = record { buffer = []; calls = new_calls 0 }

abbrev response : List Bytes
response = codes "..{\"usage\":" ∷ codes "1}..{\"content\":\"}" ∷ codes "\"}" ∷ []

feed_all-cleaned_example :
    feed_all library fresh response ≡ absorb library fresh (cleaned library response)
feed_all-cleaned_example =
    feed_all-cleaned library fresh (codes "..{\"usage\":")
      (codes "1}..{\"content\":\"}" ∷ codes "\"}" ∷ [])

diagnose_json_truncation_iff_example :
    ((diagnose_json_truncation (λ s. s) (codes "{\"a\": \"}")).is_truncated ≡ false)
    ↔ ((is_empty (codes "{\"a\": \"}") ≡ true) ⊎ Whole (codes "{\"a\": \"}"))
diagnose_json_truncation_iff_example = diagnose_json_truncation_iff (λ s. s) (codes "{\"a\": \"}")
