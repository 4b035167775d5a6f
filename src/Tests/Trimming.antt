-- ===== src/Tests/Trimming.antt =====
-- The theorems on the trimming of a payload at concrete data.
use kiro_gateway_go.Common.{ℕ, ◌*◌, false, Option, some, none, List, [], ◌∷◌, ◌≡◌, length}
use kiro_gateway_go.Json.{Fields, string, no_fields, field}
use kiro_gateway_go.PayloadTrim.{
  text, Context, Entry, user, assistant, convert_tool_results_to_kiro_format, strip_empty_tool_uses,
  align_to_user_message, repair_entry, repair_orphaned_tool_results, trim_payload_to_limit,
  nonempty,
}
use kiro_gateway_go.PayloadTrim.Repair.{
  NoOrphans, BeginsWithUser, Trimmed, trim_payload_to_limit-NoOrphans,
  repair_entry-convert_tool_results_to_kiro_format,
}

abbrev size : List Entry → ℕ
size history = 100 * length history

abbrev asked : Entry
asked = user (record { content = "q"; context = none })

abbrev answered : Entry
answered = user (record {
  content = "a";
  context = some (record {
    tool_results = some (record { tool_use_id = "t1"; content = some (text "4") } ∷ []);
    more_keys = false;
  });
})

-- The first pair goes, and with it the tool use that the third entry answers.
abbrev later : List Entry
later = assistant (some ("t1" ∷ [])) ∷ answered ∷ assistant (some []) ∷ []

trim_payload_to_limit-NoOrphans_example :
    (rest : List Entry) × Trimmed size 250 (strip_empty_tool_uses (asked ∷ later)) rest
    × (trim_payload_to_limit size 250 (some (asked ∷ later))
        ≡ nonempty size 250 (repair_orphaned_tool_results (align_to_user_message rest)))
    × NoOrphans none (repair_orphaned_tool_results (align_to_user_message rest))
    × BeginsWithUser (repair_orphaned_tool_results (align_to_user_message rest))
trim_payload_to_limit-NoOrphans_example = trim_payload_to_limit-NoOrphans size 250 asked later

abbrev result : Fields
result = field "tool_use_id" (string "t1") (field "content" (string "4") no_fields)

repair_entry-convert_tool_results_to_kiro_format_example :
    (context : Option Context) × (repair_entry none (
        user (record {
          content = "a";
          context = some (record {
            tool_results = some (convert_tool_results_to_kiro_format (λ v. "") (result ∷ []));
            more_keys = false;
          });
        }))
      ≡ user (record { content = "a"; context = context }))
repair_entry-convert_tool_results_to_kiro_format_example =
    repair_entry-convert_tool_results_to_kiro_format (λ v. "") none "a" false (result ∷ [])
