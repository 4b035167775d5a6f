-- ===== src/Converters/Preserved.antt =====
-- What the conversation that `BuildKiroPayload` sends keeps of the messages (normalize.go).
use kiro_gateway_go.Common.{
  true, false, not, ◌&&◌, String, Option, none, some, List, [], ◌∷◌, ◌++◌, ◌≡◌, inl, inr, refl, sym,
  ap, ◌∙◌, arith, str_eq, eq_iff, if◌then◌else◌, Bool-cases, append_assoc, append-nil,
}
use kiro_gateway_go.Json.{Value, Fields}
use kiro_gateway_go.Converters.{
  UnifiedMessage, is_user, is_assistant, nonempty, ensured, preceding_calls, ensure_loop,
  merged_with, merge_loop, merge_adjacent_messages, ensure_first_message_is_user, normalize_role,
  normalize_message_roles, alternate_loop, ensure_alternating_roles, conversation,
  ensure_assistant_before_tool_results, results_as_text,
}

-- The tool calls of the assistant's messages, in order.
abbrev pub calls_of : UnifiedMessage → List Fields
calls_of msg = if is_assistant msg then msg.tool_calls else []

abbrev pub all_calls : List UnifiedMessage → List Fields
all_calls [] = []
all_calls (msg ∷ msgs) = calls_of msg ++ all_calls msgs

append-empty : (a b : List Fields) → nonempty b ≡ false → a ++ b ≡ a
append-empty a [] h = append-nil a
append-empty a (x ∷ b) h = absurd (ground arith)

module _ (str_of : Value → String) where
  calls_of-ensured :
      (last : Option UnifiedMessage) (msg : UnifiedMessage)
      → calls_of (ensured str_of last msg).0 ≡ calls_of msg
  unfolding ensured results_as_text
  calls_of-ensured last msg =
      elim (Bool-cases (nonempty msg.tool_results && not (preceding_calls last))) [
        | inl e ↦ rw e refl
        | inr n ↦ rw n refl
      ]

  all_calls-ensure :
      (last : Option UnifiedMessage) (msgs : List UnifiedMessage)
      → all_calls (ensure_loop str_of last msgs).0 ≡ all_calls msgs
  unfolding ensure_loop
  all_calls-ensure last [] = refl
  all_calls-ensure last (msg ∷ msgs) =
      rw (calls_of-ensured last msg, all_calls-ensure (some (ensured str_of last msg).0) msgs) refl

  calls_of-merged :
      (last msg : UnifiedMessage)
      → str_eq msg.role last.role ≡ true
      → calls_of (merged_with str_of last msg) ≡ calls_of last ++ calls_of msg
  unfolding merged_with
  calls_of-merged last msg same =
      let e = ap (λ r. str_eq r "assistant") ((eq_iff msg.role last.role).0 same) in
      elim (Bool-cases (is_assistant msg)) [
        | inr n ↦ rw (sym e ∙ n, n) refl
        | inl a ↦ elim (Bool-cases (nonempty msg.tool_calls)) [
          | inl c ↦ rw (sym e ∙ a, a, c) refl
          | inr c ↦ rw (sym e ∙ a, a, c) (sym (append-empty last.tool_calls msg.tool_calls c))
        ]
      ]

  all_calls-merge_loop :
      (last : UnifiedMessage) (msgs : List UnifiedMessage)
      → all_calls (merge_loop str_of last msgs) ≡ calls_of last ++ all_calls msgs
  unfolding merge_loop
  all_calls-merge_loop last [] = refl
  all_calls-merge_loop last (msg ∷ msgs) = elim (Bool-cases (str_eq msg.role last.role)) [
    | inl e ↦ rw e (
        all_calls-merge_loop (merged_with str_of last msg) msgs
        ∙ ap (λ c. c ++ all_calls msgs) (calls_of-merged last msg e)
        ∙ append_assoc (calls_of last) (calls_of msg) (all_calls msgs))
    | inr n ↦ rw n (ap (λ c. calls_of last ++ c) (all_calls-merge_loop msg msgs))
  ]

  all_calls-merge :
      (msgs : List UnifiedMessage)
      → all_calls (merge_adjacent_messages str_of msgs) ≡ all_calls msgs
  unfolding merge_adjacent_messages
  all_calls-merge [] = refl
  all_calls-merge (msg ∷ msgs) = all_calls-merge_loop msg msgs

all_calls-first :
    (msgs : List UnifiedMessage) → all_calls (ensure_first_message_is_user msgs) ≡ all_calls msgs
unfolding ensure_first_message_is_user
all_calls-first [] = refl
all_calls-first (msg ∷ msgs) = elim (Bool-cases (is_user msg)) [
  | inl u ↦ rw u refl
  | inr n ↦ rw n refl
]

calls_of-normalize : (msg : UnifiedMessage) → calls_of (normalize_role msg) ≡ calls_of msg
unfolding normalize_role
calls_of-normalize msg = elim (Bool-cases (is_user msg)) [
  | inl u ↦ rw u refl
  | inr n ↦ elim (Bool-cases (is_assistant msg)) [
    | inl a ↦ rw (n, a) (ap (λ b. if b then msg.tool_calls else []) a)
    | inr n' ↦ rw (n, n') refl
  ]
]

all_calls-normalize :
    (msgs : List UnifiedMessage) → all_calls (normalize_message_roles msgs) ≡ all_calls msgs
unfolding normalize_message_roles
all_calls-normalize [] = refl
all_calls-normalize (msg ∷ msgs) = rw (calls_of-normalize msg, all_calls-normalize msgs) refl

all_calls-alternate_loop :
    (last : UnifiedMessage) (msgs : List UnifiedMessage)
    → all_calls (alternate_loop last msgs) ≡ all_calls msgs
unfolding alternate_loop
all_calls-alternate_loop last [] = refl
all_calls-alternate_loop last (msg ∷ msgs) =
    let rest = ap (λ c. calls_of msg ++ c) (all_calls-alternate_loop msg msgs) in
    elim (Bool-cases (is_user msg && is_user last)) [ inl y ↦ rw y rest | inr n ↦ rw n rest ]

all_calls-alternate :
    (msgs : List UnifiedMessage) → all_calls (ensure_alternating_roles msgs) ≡ all_calls msgs
unfolding ensure_alternating_roles
all_calls-alternate [] = refl
all_calls-alternate (msg ∷ msgs) = ap (λ c. calls_of msg ++ c) (all_calls-alternate_loop msg msgs)

-- When the request defines tools, the assistant's messages of the conversation hold exactly the
-- tool calls that the assistant's messages of the client held, in their order.
pub conversation-all_calls :
    (str_of : Value → String) (messages : List UnifiedMessage)
    → all_calls (conversation str_of true messages) ≡ all_calls messages
unfolding conversation ensure_assistant_before_tool_results
conversation-all_calls str_of messages =
    all_calls-alternate _
    ∙ all_calls-normalize _
    ∙ all_calls-first _
    ∙ all_calls-merge str_of (ensure_loop str_of none messages).0
    ∙ all_calls-ensure str_of none messages
