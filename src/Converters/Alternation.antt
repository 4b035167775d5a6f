-- ===== src/Converters/Alternation.antt =====
-- The roles of the conversation that `BuildKiroPayload` sends (normalize.go).
use kiro_gateway_go.Common.{
  Bool, true, false, not, ◌&&◌, String, List, [], ◌∷◌, ◌≡◌, ◌⊎◌, inl, inr, refl, sym, ap, ◌∙◌,
  arith, str_eq, eq_iff, if◌then◌else◌, Bool-cases,
}
use kiro_gateway_go.Json.{Value}
use kiro_gateway_go.Converters.{
  UnifiedMessage, is_user, is_assistant, synthetic, merged_with, merge_loop,
  merge_adjacent_messages, ensure_first_message_is_user, normalize_role, normalize_message_roles,
  alternate_loop, ensure_alternating_roles, conversation, ensure_assistant_before_tool_results,
  strip_all_tool_content,
}

-- The roles take turns; the flag says whether it is the user's turn.
abbrev pub takes_turns : Bool → List UnifiedMessage → Bool
takes_turns users [] = true
takes_turns true (msg ∷ msgs) = is_user msg && takes_turns false msgs
takes_turns false (msg ∷ msgs) = is_assistant msg && takes_turns true msgs

-- No assistant message follows another; the flag is for the message before the list.
abbrev pub assistants_apart : Bool → List UnifiedMessage → Bool
assistants_apart before [] = true
assistants_apart before (msg ∷ msgs) =
    not (before && is_assistant msg) && assistants_apart (is_assistant msg) msgs

pub user-not-assistant : (msg : UnifiedMessage) → is_user msg ≡ true → is_assistant msg ≡ false
user-not-assistant msg h = ap (λ r. str_eq r "assistant") ((eq_iff msg.role "user").0 h)

same_role :
    (a b : UnifiedMessage)
    → str_eq b.role a.role ≡ false
    → (is_assistant a && is_assistant b) ≡ false
same_role a b h = elim (Bool-cases (is_assistant a)) [
  | inr n ↦ ap (λ x. x && is_assistant b) n
  | inl e ↦
      let r = (eq_iff a.role "assistant").0 e in
      ap (λ x. x && is_assistant b) e ∙ elim (Bool-cases (is_assistant b)) [
        | inr n ↦ n
        | inl e' ↦
            let r' = (eq_iff b.role "assistant").0 e' in
            absurd (ground (arith, h, (eq_iff b.role a.role).1 (r' ∙ sym r)))
      ]
]

module _ (str_of : Value → String) where
  merge_loop-apart :
      (before : Bool) (last : UnifiedMessage) (msgs : List UnifiedMessage)
      → (before && is_assistant last) ≡ false
      → assistants_apart before (merge_loop str_of last msgs) ≡ true
  unfolding merge_loop
  merge_loop-apart before last [] h = ground arith
  merge_loop-apart before last (msg ∷ msgs) h = elim (Bool-cases (str_eq msg.role last.role)) [
    | inl e ↦ rw e (merge_loop-apart before (merged_with str_of last msg) msgs h)
    | inr n ↦ rw (n, h) (merge_loop-apart (is_assistant last) msg msgs (same_role last msg n))
  ]

  merge-apart :
      (msgs : List UnifiedMessage)
      → assistants_apart false (merge_adjacent_messages str_of msgs) ≡ true
  unfolding merge_adjacent_messages
  merge-apart [] = refl
  merge-apart (msg ∷ msgs) = merge_loop-apart false msg msgs refl

is_assistant-normalize_role :
    (msg : UnifiedMessage) → is_assistant (normalize_role msg) ≡ is_assistant msg
unfolding normalize_role
is_assistant-normalize_role msg = elim (Bool-cases (is_user msg)) [
  | inl u ↦ rw u refl
  | inr n ↦ elim (Bool-cases (is_assistant msg)) [ inl a ↦ rw (n, a) a | inr n' ↦ rw (n, n') refl ]
]

-- A message is the user's or the assistant's.
abbrev Taken : UnifiedMessage → Type 0
Taken msg = (is_user msg ≡ true) ⊎ (is_assistant msg ≡ true)

normalize_role-Taken : (msg : UnifiedMessage) → Taken (normalize_role msg)
unfolding normalize_role
normalize_role-Taken msg = elim (Bool-cases (is_user msg)) [
  | inl u ↦ rw u (inl u)
  | inr n ↦ elim (Bool-cases (is_assistant msg)) [
    | inl a ↦ rw (n, a) (inr a)
    | inr n' ↦ rw (n, n') (inl refl)
  ]
]

pub assistant-not-user : (msg : UnifiedMessage) → is_assistant msg ≡ true → is_user msg ≡ false
assistant-not-user msg h = ap (λ r. str_eq r "user") ((eq_iff msg.role "assistant").0 h)

alternate_step :
    (last msg : UnifiedMessage) (rest : List UnifiedMessage)
    → Taken last
    → Taken msg
    → (is_assistant last && is_assistant msg) ≡ false
    → takes_turns (is_assistant msg) rest ≡ true
    → takes_turns
        (is_assistant last)
        (if is_user msg && is_user last then synthetic "assistant" ∷ msg ∷ rest else msg ∷ rest)
      ≡ true
alternate_step last msg rest (inl u) (inl u') h t =
    let n = user-not-assistant last u in
    let n' = user-not-assistant msg u' in rw (n, u, u') (rw u' (rw n' at t))
alternate_step last msg rest (inl u) (inr a) h t =
    let n = user-not-assistant last u in
    let n' = assistant-not-user msg a in rw (n, n') (rw a (rw a at t))
alternate_step last msg rest (inr a) (inl u) h t =
    let n = user-not-assistant msg u in
    let n' = assistant-not-user last a in rw (n', u, a) (rw u (rw n at t))
alternate_step last msg rest (inr a) (inr a') h t = absurd (ground arith)

and-split : (a b : Bool) → (a && b) ≡ true → (a ≡ true) × (b ≡ true)
and-split a b h = ground arith

-- The loop of `EnsureAlternatingRoles` behind a message that is the user's, or the assistant's.
alternate_loop-takes_turns :
    (last : UnifiedMessage) (msgs : List UnifiedMessage)
    → Taken last
    → assistants_apart (is_assistant last) msgs ≡ true
    → takes_turns (is_assistant last) (alternate_loop last (normalize_message_roles msgs)) ≡ true
unfolding alternate_loop normalize_message_roles
alternate_loop-takes_turns last [] k h = ground arith
alternate_loop-takes_turns last (msg ∷ msgs) k h =
    let m = normalize_role msg in
    let same = is_assistant-normalize_role msg in
    let (x, y) =
      and-split (not (is_assistant last && is_assistant msg))
        (assistants_apart (is_assistant msg) msgs) h in
    let ok = normalize_role-Taken msg in
    alternate_step last m (alternate_loop m (normalize_message_roles msgs)) k ok
      (ground (arith, x, same)) (alternate_loop-takes_turns m msgs ok (rw same y))

is_user-normalize_role :
    (msg : UnifiedMessage) → is_user msg ≡ true → is_user (normalize_role msg) ≡ true
unfolding normalize_role
is_user-normalize_role msg u = rw u u

from_user :
    (msg : UnifiedMessage) (msgs : List UnifiedMessage)
    → is_user msg ≡ true
    → assistants_apart (is_assistant msg) msgs ≡ true
    → takes_turns true (ensure_alternating_roles (normalize_message_roles (msg ∷ msgs))) ≡ true
unfolding ensure_alternating_roles normalize_message_roles
from_user msg msgs u h =
    let m = normalize_role msg in
    let u' = is_user-normalize_role msg u in
    let turns =
      alternate_loop-takes_turns m msgs (inl u') (rw (is_assistant-normalize_role msg) h) in
    rw u' (rw (user-not-assistant m u') at turns)

-- The steps behind the merge give the user the first turn and then take turns.
normalized-takes_turns :
    (msgs : List UnifiedMessage)
    → assistants_apart false msgs ≡ true
    → takes_turns true
        (ensure_alternating_roles (normalize_message_roles (ensure_first_message_is_user msgs)))
      ≡ true
unfolding ensure_first_message_is_user
normalized-takes_turns [] h = unfold ensure_alternating_roles normalize_message_roles in refl
normalized-takes_turns (msg ∷ msgs) h = elim (Bool-cases (is_user msg)) [
  | inl u ↦ rw u (from_user msg msgs u h)
  | inr n ↦ rw n (from_user (synthetic "user") (msg ∷ msgs) refl h)
]

-- The conversation that is sent begins with a user message, and user and assistant messages take
-- turns to its end, whatever roles and messages the client sent.
pub conversation-takes_turns :
    (str_of : Value → String) (has_tools : Bool) (messages : List UnifiedMessage)
    → takes_turns true (conversation str_of has_tools messages) ≡ true
unfolding conversation
conversation-takes_turns str_of has_tools messages = normalized-takes_turns _ (
    merge-apart str_of (
      if has_tools
      then (ensure_assistant_before_tool_results str_of messages).0
      else (strip_all_tool_content str_of messages).0))
