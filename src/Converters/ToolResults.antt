-- ===== src/Converters/ToolResults.antt =====
-- Tool calls and tool results in the conversation that `BuildKiroPayload` sends (normalize.go).
use kiro_gateway_go.Common.{
  Bool, true, false, not, ◌&&◌, ◌||◌, String, Option, none, some, List, [], ◌∷◌, ◌++◌, ◌≡◌, inl,
  inr, refl, sym, ap, ◌∙◌, arith, str_eq, eq_iff, Bool-cases,
}
use kiro_gateway_go.Json.{Value, Fields}
use kiro_gateway_go.Converters.{
  UnifiedMessage, is_user, is_assistant, nonempty, calls_tools, preceding_calls, ensured,
  ensure_loop, merged_with, merge_loop, merge_adjacent_messages, ensure_first_message_is_user,
  normalize_role, normalize_message_roles, alternate_loop, ensure_alternating_roles, conversation,
  ensure_assistant_before_tool_results, strip_all_tool_content, stripped, results_as_text,
}
use kiro_gateway_go.Converters.Alternation.{user-not-assistant}

-- Every message with tool results stands right behind an assistant message with tool calls; the
-- flag is for the message before the list.
abbrev pub answers_calls : Bool → List UnifiedMessage → Bool
answers_calls before [] = true
answers_calls before (msg ∷ msgs) =
    (not (nonempty msg.tool_results) || before) && answers_calls (calls_tools msg) msgs

-- As a chain of facts, which proofs take apart.
data Answers : Bool → List UnifiedMessage → Type 0 where
  nil : {before : Bool} → Answers before []
  cons :
      {before : Bool} {msg : UnifiedMessage} {msgs : List UnifiedMessage}
      → (nonempty msg.tool_results ≡ true → before ≡ true)
      → Answers (calls_tools msg) msgs
      → Answers before (msg ∷ msgs)

Answers-answers_calls :
    {before : Bool} {msgs : List UnifiedMessage}
    → Answers before msgs
    → answers_calls before msgs ≡ true
Answers-answers_calls nil = refl
Answers-answers_calls (cons {before} {msg} {msgs} h a) =
    let rest = Answers-answers_calls a in
    elim (Bool-cases (nonempty msg.tool_results)) [ inl e ↦ rw (e, h e) rest | inr n ↦ rw n rest ]

Answers-weaken :
    {b b' : Bool} {msgs : List UnifiedMessage}
    → (b ≡ true → b' ≡ true)
    → Answers b msgs
    → Answers b' msgs
Answers-weaken f nil = nil
Answers-weaken f (cons h a) = cons (λ e. f (h e)) a

false-not-true : false ≡ true → ⊥
false-not-true h = ground arith

and-split : (a b : Bool) → (a && b) ≡ true → (a ≡ true) × (b ≡ true)
and-split a b h = ground arith

same_assistant :
    (last msg : UnifiedMessage)
    → str_eq msg.role last.role ≡ true
    → is_assistant last ≡ true
    → is_assistant msg ≡ true
same_assistant last msg same a =
    ap (λ r. str_eq r "assistant") ((eq_iff msg.role last.role).0 same) ∙ a

nonempty-append : (a b : List Fields) → nonempty b ≡ true → nonempty (a ++ b) ≡ true
nonempty-append [] b h = h
nonempty-append (x ∷ a) b h = refl

module _ (str_of : Value → String) where
  ensured-Answers :
      (last : Option UnifiedMessage) (msg : UnifiedMessage)
      → nonempty (ensured str_of last msg).0.tool_results ≡ true
      → preceding_calls last ≡ true
  unfolding ensured results_as_text
  ensured-Answers last msg h = elim (Bool-cases (preceding_calls last)) [
    | inl e ↦ e
    | inr n ↦ elim (Bool-cases (nonempty msg.tool_results)) [
      | inl e ↦ absurd (false-not-true (rw (n, e) at h))
      | inr n' ↦ absurd (false-not-true (sym n' ∙ rw n' at h))
    ]
  ]

  ensure_loop-Answers :
      (last : Option UnifiedMessage) (msgs : List UnifiedMessage)
      → Answers (preceding_calls last) (ensure_loop str_of last msgs).0
  unfolding ensure_loop
  ensure_loop-Answers last [] = nil
  ensure_loop-Answers last (msg ∷ msgs) =
      cons (ensured-Answers last msg) (ensure_loop-Answers (some (ensured str_of last msg).0) msgs)

  stripped-no_results :
      (msg : UnifiedMessage) → nonempty (stripped str_of msg).0.tool_results ≡ false
  unfolding stripped
  stripped-no_results msg = elim (Bool-cases (nonempty msg.tool_results)) [
    | inl e ↦ elim (Bool-cases (nonempty msg.tool_calls)) [
      | inl e' ↦ rw (e, e') refl
      | inr n ↦ rw (e, n) refl
    ]
    | inr n ↦ elim (Bool-cases (nonempty msg.tool_calls)) [
      | inl e' ↦ rw (n, e') refl
      | inr n' ↦ rw (n, n') n
    ]
  ]

  strip-Answers :
      (before : Bool) (msgs : List UnifiedMessage)
      → Answers before (strip_all_tool_content str_of msgs).0
  unfolding strip_all_tool_content
  strip-Answers before [] = nil
  strip-Answers before (msg ∷ msgs) =
      cons (λ e. absurd (false-not-true (sym (stripped-no_results msg) ∙ e)))
        (strip-Answers (calls_tools (stripped str_of msg).0) msgs)

  -- Merging keeps the results of the first message alone, and all the calls.
  merged-results :
      (last msg : UnifiedMessage)
      → str_eq msg.role last.role ≡ true
      → (nonempty msg.tool_results ≡ true → calls_tools last ≡ true)
      → nonempty (merged_with str_of last msg).tool_results ≡ true
      → nonempty last.tool_results ≡ true
  unfolding merged_with
  merged-results last msg same h e = elim (Bool-cases (is_user msg && nonempty msg.tool_results)) [
    | inr n ↦ rw n at e
    | inl y ↦
        let (u, r) = and-split (is_user msg) (nonempty msg.tool_results) y in
        let (a, _) = and-split (is_assistant last) (nonempty last.tool_calls) (h r) in
        let a' = same_assistant last msg same a in
        absurd (false-not-true (sym (user-not-assistant msg u) ∙ a'))
  ]

  merged-calls :
      (last msg : UnifiedMessage)
      → str_eq msg.role last.role ≡ true
      → calls_tools msg ≡ true
      → calls_tools (merged_with str_of last msg) ≡ true
  unfolding merged_with
  merged-calls last msg same h =
      let (a, c) = and-split (is_assistant msg) (nonempty msg.tool_calls) h in
      rw (a, c, sym (ap (λ r. str_eq r "assistant") ((eq_iff msg.role last.role).0 same)) ∙ a)
        (nonempty-append last.tool_calls msg.tool_calls c)

  merge_loop-Answers :
      (before : Bool) (last : UnifiedMessage) (msgs : List UnifiedMessage)
      → Answers before (last ∷ msgs)
      → Answers before (merge_loop str_of last msgs)
  unfolding merge_loop
  merge_loop-Answers before last [] h = h
  merge_loop-Answers before last (msg ∷ msgs) (cons h (cons h' a)) =
      elim (Bool-cases (str_eq msg.role last.role)) [
        | inl e ↦
            let m = merged_with str_of last msg in
            rw e (
              merge_loop-Answers before m msgs (
                cons (λ r. h (merged-results last msg e h' r))
                  (Answers-weaken (merged-calls last msg e) a)))
        | inr n ↦ rw n (cons h (merge_loop-Answers (calls_tools last) msg msgs (cons h' a)))
      ]

  merge-Answers :
      (before : Bool) (msgs : List UnifiedMessage)
      → Answers before msgs
      → Answers before (merge_adjacent_messages str_of msgs)
  unfolding merge_adjacent_messages
  merge-Answers before [] h = nil
  merge-Answers before (msg ∷ msgs) h = merge_loop-Answers before msg msgs h

ensure_first-Answers :
    (msgs : List UnifiedMessage)
    → Answers false msgs
    → Answers false (ensure_first_message_is_user msgs)
unfolding ensure_first_message_is_user
ensure_first-Answers [] h = nil
ensure_first-Answers (msg ∷ msgs) h = elim (Bool-cases (is_user msg)) [
  | inl u ↦ rw u h
  | inr n ↦ rw n (cons (λ e. absurd (false-not-true e)) h)
]

normalize_role-tools :
    (msg : UnifiedMessage)
    → ((normalize_role msg).tool_results ≡ msg.tool_results)
      × (calls_tools (normalize_role msg) ≡ calls_tools msg)
unfolding normalize_role
normalize_role-tools msg = elim (Bool-cases (is_user msg)) [
  | inl u ↦ rw u (refl, refl)
  | inr n ↦ elim (Bool-cases (is_assistant msg)) [
    | inl a ↦ rw (n, a) (refl, ap (λ b. b && nonempty msg.tool_calls) a)
    | inr n' ↦ rw (n, n') (refl, refl)
  ]
]

normalize-Answers :
    (before : Bool) (msgs : List UnifiedMessage)
    → Answers before msgs
    → Answers before (normalize_message_roles msgs)
unfolding normalize_message_roles
normalize-Answers before [] h = nil
normalize-Answers before (msg ∷ msgs) (cons h a) =
    let (r, c) = normalize_role-tools msg in
    cons (λ e. h (rw r at e))
      (Answers-weaken (λ e. c ∙ e) (normalize-Answers (calls_tools msg) msgs a))

user-calls_no_tools : (msg : UnifiedMessage) → is_user msg ≡ true → calls_tools msg ≡ false
user-calls_no_tools msg u = ap (λ b. b && nonempty msg.tool_calls) (user-not-assistant msg u)

alternate_loop-Answers :
    (last : UnifiedMessage) (msgs : List UnifiedMessage)
    → Answers (calls_tools last) msgs
    → Answers (calls_tools last) (alternate_loop last msgs)
unfolding alternate_loop
alternate_loop-Answers last [] h = nil
alternate_loop-Answers last (msg ∷ msgs) (cons h a) =
    elim (Bool-cases (is_user msg && is_user last)) [
      | inr n ↦ rw n (cons h (alternate_loop-Answers msg msgs a))
      | inl y ↦
          let (u, u') = and-split (is_user msg) (is_user last) y in
          rw y (
            cons (λ e. absurd (false-not-true e))
              (cons (λ e. sym (user-calls_no_tools last u') ∙ h e)
                (alternate_loop-Answers msg msgs a)))
    ]

alternate-Answers :
    (before : Bool) (msgs : List UnifiedMessage)
    → Answers before msgs
    → Answers before (ensure_alternating_roles msgs)
unfolding ensure_alternating_roles
alternate-Answers before [] h = nil
alternate-Answers before (msg ∷ msgs) (cons h a) = cons h (alternate_loop-Answers msg msgs a)

finished :
    (str_of : Value → String) (msgs : List UnifiedMessage)
    → Answers false msgs
    → answers_calls false (
        ensure_alternating_roles (
          normalize_message_roles
            (ensure_first_message_is_user (merge_adjacent_messages str_of msgs))))
      ≡ true
finished str_of msgs h = Answers-answers_calls (
    alternate-Answers false _
      (normalize-Answers false _ (ensure_first-Answers _ (merge-Answers str_of false msgs h))))

-- Every message of the conversation that carries tool results stands right behind an assistant
-- message with tool calls, whatever the client sent and whether or not the request defines tools.
pub conversation-answers_calls :
    (str_of : Value → String) (has_tools : Bool) (messages : List UnifiedMessage)
    → answers_calls false (conversation str_of has_tools messages) ≡ true
unfolding conversation ensure_assistant_before_tool_results
conversation-answers_calls str_of has_tools messages = elim (Bool-cases has_tools) [
  | inl e ↦ rw e (finished str_of _ (ensure_loop-Answers str_of none messages))
  | inr n ↦ rw n (finished str_of _ (strip-Answers str_of false messages))
]
