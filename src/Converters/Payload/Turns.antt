-- ===== src/Converters/Payload/Turns.antt =====
-- The order of the entries that `BuildKiroPayload` sends.
use kiro_gateway_go.Common.{
  ◌≡◌, refl, sym, ap, ◌∙◌, Bool, true, false, not, ◌&&◌, String, none, List, [], ◌∷◌, ◌++◌, str_eq,
  if◌then◌else◌, inl, inr, Bool-cases,
}
use kiro_gateway_go.Json.{string}
use kiro_gateway_go.Converters.{UnifiedMessage, is_user, is_assistant}
use kiro_gateway_go.Converters.Alternation.{takes_turns, user-not-assistant, assistant-not-user}
use kiro_gateway_go.Converters.Thinking.{Settings}
use kiro_gateway_go.Converters.History.{
  Library, UserInput, Entry, user, assistant, text_of, user_entry, assistant_entry,
  build_kiro_history,
}
use kiro_gateway_go.Converters.Payload.{split_last, prepended, with_system_prompt, moved}

-- User and assistant entries take turns; the flag says whether it is the user's turn.
abbrev pub entries_take_turns : Bool → List Entry → Bool
entries_take_turns turn [] = true
entries_take_turns true (user _ ∷ entries) = entries_take_turns false entries
entries_take_turns false (assistant _ ∷ entries) = entries_take_turns true entries
entries_take_turns _ _ = false

and_true : (a b : Bool) → a && b ≡ true → (a ≡ true) × (b ≡ true)
and_true true true h = (refl, refl)
and_true true false h = absurd (cc)
and_true false b h = absurd (cc)

module _ (cfg : Settings) (lib : Library) (new_uuid model_id : String) where
  -- What is left of a last message of the assistant.
  abbrev last_words : String → Entry
  last_words content =
      assistant (record { content = content; tool_uses = []; reasoning_content = none })

  moved-assistant :
      (history : List Entry) (msg : UnifiedMessage) (content : String)
      → is_assistant msg ≡ true
      → (moved cfg lib new_uuid history msg content).0 ≡ history ++ last_words content ∷ []
  unfolding moved
  moved-assistant history msg content h = rw h refl

  moved-user :
      (history : List Entry) (msg : UnifiedMessage) (content : String)
      → is_assistant msg ≡ false
      → (moved cfg lib new_uuid history msg content).0 ≡ history
  unfolding moved
  moved-user history msg content h = rw h refl

  moved-cons :
      (e : Entry) (history : List Entry) (msg : UnifiedMessage) (content : String)
      → (moved cfg lib new_uuid (e ∷ history) msg content).0
        ≡ e ∷ (moved cfg lib new_uuid history msg content).0
  moved-cons e history msg content = elim (Bool-cases (is_assistant msg)) [
    | inl a ↦
        moved-assistant (e ∷ history) msg content a
        ∙ ap (◌∷◌ e) (sym (moved-assistant history msg content a))
    | inr n ↦
        moved-user (e ∷ history) msg content n ∙ ap (◌∷◌ e) (sym (moved-user history msg content n))
  ]

  history-user :
      (msg : UnifiedMessage) (msgs : List UnifiedMessage)
      → is_user msg ≡ true
      → build_kiro_history lib (msg ∷ msgs) model_id
        ≡ user_entry lib model_id msg ∷ build_kiro_history lib msgs model_id
  unfolding build_kiro_history
  history-user msg msgs h = rw h refl

  history-assistant :
      (msg : UnifiedMessage) (msgs : List UnifiedMessage)
      → is_assistant msg ≡ true
      → build_kiro_history lib (msg ∷ msgs) model_id
        ≡ assistant_entry lib msg ∷ build_kiro_history lib msgs model_id
  unfolding build_kiro_history
  history-assistant msg msgs h = rw (assistant-not-user msg h, h) refl

  -- The history of the messages in front, with what is moved of the last one, and the current entry.
  abbrev pub sent : List Entry → UnifiedMessage → String → UserInput → List Entry
  sent history last content current =
      (moved cfg lib new_uuid history last content).0 ++ user current ∷ []

  abbrev pub history_of : List UnifiedMessage → List Entry
  history_of front = build_kiro_history lib front model_id

  sent-turns :
      (turn : Bool) (msg : UnifiedMessage) (msgs : List UnifiedMessage) (content : String)
      (current : UserInput)
      → takes_turns turn (msg ∷ msgs) ≡ true
      → entries_take_turns turn
          (sent (history_of (split_last msg msgs).0) (split_last msg msgs).1 content current)
        ≡ true
  unfolding split_last build_kiro_history user_entry assistant_entry
  sent-turns true msg [] content current h =
      let is_u = (and_true (is_user msg) true h).0 in
      ap (λ es. entries_take_turns true (es ++ user current ∷ []))
        (moved-user [] msg content (user-not-assistant msg is_u))
  sent-turns false msg [] content current h =
      let is_a = (and_true (is_assistant msg) true h).0 in
      ap (λ es. entries_take_turns false (es ++ user current ∷ []))
        (moved-assistant [] msg content is_a)
  sent-turns true msg (next ∷ msgs) content current h =
      let (is_u, rest) = and_true (is_user msg) (takes_turns false (next ∷ msgs)) h in
      let (front, last) = split_last next msgs in
      ap (λ es. entries_take_turns true (sent es last content current))
        (history-user msg front is_u)
      ∙ ap (λ es. entries_take_turns true (es ++ user current ∷ []))
          (moved-cons (user_entry lib model_id msg) (history_of front) last content)
      ∙ sent-turns false next msgs content current rest
  sent-turns false msg (next ∷ msgs) content current h =
      let (is_a, rest) = and_true (is_assistant msg) (takes_turns true (next ∷ msgs)) h in
      let (front, last) = split_last next msgs in
      ap (λ es. entries_take_turns false (sent es last content current))
        (history-assistant msg front is_a)
      ∙ ap (λ es. entries_take_turns false (es ++ user current ∷ []))
          (moved-cons (assistant_entry lib msg) (history_of front) last content)
      ∙ sent-turns true next msgs content current rest

  -- The system prompt changes the text of a message alone.
  prompted : String → UnifiedMessage → UnifiedMessage
  prompted prompt msg =
      if not (str_eq prompt "") && is_user msg
      then record msg { content = string (prepended cfg lib new_uuid prompt (text_of lib msg)) }
      else msg

  prompted-role : (prompt : String) (msg : UnifiedMessage) → (prompted prompt msg).role ≡ msg.role
  unfolding prompted
  prompted-role prompt msg = elim (Bool-cases (not (str_eq prompt "") && is_user msg)) [
    | inl e ↦ rw e refl
    | inr e ↦ rw e refl
  ]

  prompted-front :
      (prompt : String) (msg next : UnifiedMessage) (msgs : List UnifiedMessage)
      → with_system_prompt cfg lib new_uuid prompt (split_last msg (next ∷ msgs)).0
        ≡ (split_last (prompted prompt msg) (next ∷ msgs)).0
  unfolding with_system_prompt split_last prompted
  prompted-front prompt msg next msgs = elim (Bool-cases (not (str_eq prompt "") && is_user msg)) [
    | inl e ↦ rw e refl
    | inr e ↦ rw e refl
  ]

  prompted-turns :
      (turn : Bool) (prompt : String) (msg : UnifiedMessage) (msgs : List UnifiedMessage)
      → takes_turns turn (msg ∷ msgs) ≡ true
      → takes_turns turn (prompted prompt msg ∷ msgs) ≡ true
  prompted-turns true prompt msg msgs h =
      ap (λ r. str_eq r "user" && takes_turns false msgs) (prompted-role prompt msg) ∙ h
  prompted-turns false prompt msg msgs h =
      ap (λ r. str_eq r "assistant" && takes_turns true msgs) (prompted-role prompt msg) ∙ h

  -- The history and the current entry, as they are sent.
  pub assembled-turns :
      (prompt : String) (msg : UnifiedMessage) (msgs : List UnifiedMessage) (content : String)
      (current : UserInput)
      → takes_turns true (msg ∷ msgs) ≡ true
      → entries_take_turns true (
          sent
            (history_of (with_system_prompt cfg lib new_uuid prompt (split_last msg msgs).0))
            (split_last msg msgs).1
            content
            current)
        ≡ true
  unfolding with_system_prompt split_last
  assembled-turns prompt msg [] content current h = sent-turns true msg [] content current h
  assembled-turns prompt msg (next ∷ msgs) content current h =
      ap
        (λ front.
          entries_take_turns true
            (sent (history_of front) (split_last next msgs).1 content current))
        (prompted-front prompt msg next msgs)
      ∙ sent-turns true (prompted prompt msg) (next ∷ msgs) content current
          (prompted-turns true prompt msg (next ∷ msgs) h)
