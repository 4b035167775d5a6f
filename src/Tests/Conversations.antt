-- ===== src/Tests/Conversations.antt =====
-- The theorems on the conversation at concrete messages.
use kiro_gateway_go.Common.{true, false, String, List, [], ◌∷◌, ◌≡◌}
use kiro_gateway_go.Json.{Value, Fields, string, no_fields, field}
use kiro_gateway_go.Converters.{UnifiedMessage, synthetic, conversation}
use kiro_gateway_go.Converters.Alternation.{takes_turns, conversation-takes_turns}
use kiro_gateway_go.Converters.ToolResults.{answers_calls, conversation-answers_calls}
use kiro_gateway_go.Converters.Preserved.{all_calls, conversation-all_calls}

abbrev str_of : Value → String
str_of v = "?"

abbrev call : Fields
call = field "id" (string "t1") no_fields

abbrev result : Fields
result = field "tool_use_id" (string "t1") no_fields

abbrev messages : List UnifiedMessage
messages =
    record (synthetic "assistant") { tool_calls = call ∷ [] }
    ∷ record (synthetic "user") { tool_results = result ∷ [] }
    ∷ record (synthetic "system") { tool_results = result ∷ [] }
    ∷ synthetic "user"
    ∷ []

conversation-takes_turns_example : takes_turns true (conversation str_of true messages) ≡ true
conversation-takes_turns_example = conversation-takes_turns str_of true messages

conversation-answers_calls_example : answers_calls false (conversation str_of true messages) ≡ true
conversation-answers_calls_example = conversation-answers_calls str_of true messages

conversation-all_calls_example : all_calls (conversation str_of true messages) ≡ call ∷ []
conversation-all_calls_example = conversation-all_calls str_of messages
