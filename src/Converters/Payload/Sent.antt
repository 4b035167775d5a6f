-- ===== src/Converters/Payload/Sent.antt =====
-- When `BuildKiroPayload` makes a payload, and in which order its entries stand.
use kiro_gateway_go.Common.{
  ◌≡◌, refl, sym, ap, ◌∙◌, ◌⊎◌, inl, inr, Bool, true, false, not, String, Option, none, some, List,
  [], ◌∷◌, ◌++◌, str_eq, Bool-cases,
}
use kiro_gateway_go.Json.{Value}
use kiro_gateway_go.Converters.{
  UnifiedMessage, is_user, conversation, ensure_loop, ensured, ensure_assistant_before_tool_results,
  stripped, strip_all_tool_content, merge_loop, merged_with, merge_adjacent_messages,
  ensure_first_message_is_user, normalize_message_roles, ensure_alternating_roles,
}
use kiro_gateway_go.Converters.Alternation.{takes_turns, conversation-takes_turns}
use kiro_gateway_go.Converters.Thinking.{Settings, ThinkingConfig}
use kiro_gateway_go.Converters.Tools.{
  UnifiedTool, validate_tool_names, process_tools_with_long_descriptions,
}
use kiro_gateway_go.Converters.History.{Library, user}
use kiro_gateway_go.Converters.Payload.{
  Payload, has_tools, split_last, full_system_prompt, assembled, assembled_all, build_kiro_payload,
}
use kiro_gateway_go.Converters.Payload.Turns.{entries_take_turns, assembled-turns}

-- A list with a message at least.
abbrev IsFilled : List UnifiedMessage → Type 0
IsFilled msgs = (msg : UnifiedMessage) × (rest : List UnifiedMessage) × (msgs ≡ msg ∷ rest)

module _ (str_of : Value → String) where
  merge_loop-IsFilled :
      (last : UnifiedMessage) (msgs : List UnifiedMessage) → IsFilled (merge_loop str_of last msgs)
  unfolding merge_loop
  merge_loop-IsFilled last [] = (last, [], refl)
  merge_loop-IsFilled last (msg ∷ msgs) = elim (Bool-cases (str_eq msg.role last.role)) [
    | inl e ↦ rw e (merge_loop-IsFilled (merged_with str_of last msg) msgs)
    | inr e ↦ rw e (last, merge_loop str_of msg msgs, refl)
  ]

  finish : List UnifiedMessage → List UnifiedMessage
  finish msgs =
      ensure_alternating_roles (
        normalize_message_roles
          (ensure_first_message_is_user (merge_adjacent_messages str_of msgs)))

  ordered-IsFilled :
      (msg : UnifiedMessage) (msgs : List UnifiedMessage)
      → IsFilled (
          ensure_alternating_roles
            (normalize_message_roles (ensure_first_message_is_user (msg ∷ msgs))))
  unfolding ensure_alternating_roles normalize_message_roles ensure_first_message_is_user
  ordered-IsFilled msg msgs = elim (Bool-cases (not (is_user msg))) [
    | inl e ↦ rw e (_, _, refl)
    | inr e ↦ rw e (_, _, refl)
  ]

  finish-IsFilled :
      (msg : UnifiedMessage) (msgs : List UnifiedMessage) → IsFilled (finish (msg ∷ msgs))
  unfolding finish merge_adjacent_messages
  finish-IsFilled msg msgs =
      let (m, ms, e) = merge_loop-IsFilled msg msgs in rw e (ordered-IsFilled m ms)

  conversation-IsFilled :
      (with_tools : Bool) (msg : UnifiedMessage) (msgs : List UnifiedMessage)
      → IsFilled (conversation str_of with_tools (msg ∷ msgs))
  unfolding conversation finish ensure_assistant_before_tool_results strip_all_tool_content
      ensure_loop
  conversation-IsFilled true msg msgs =
      finish-IsFilled (ensured str_of none msg).0
        (ensure_loop str_of (some (ensured str_of none msg).0) msgs).0
  conversation-IsFilled false msg msgs =
      finish-IsFilled (stripped str_of msg).0 (strip_all_tool_content str_of msgs).0

  conversation-nil : (with_tools : Bool) → conversation str_of with_tools [] ≡ []
  unfolding conversation ensure_assistant_before_tool_results strip_all_tool_content ensure_loop
      merge_adjacent_messages ensure_alternating_roles normalize_message_roles
      ensure_first_message_is_user
  conversation-nil true = refl
  conversation-nil false = refl

module _ (cfg : Settings) (lib : Library) (new_uuid : String) where
  -- A payload whose history and current message take turns.
  abbrev pub TakesTurns : Option Payload → Type 0
  TakesTurns o =
      (p : Payload) × (o ≡ some p)
      × (entries_take_turns true (p.history ++ user p.current ∷ []) ≡ true)

  assembled-TakesTurns :
      (model_id conversation_id profile_arn : String) (thinking : ThinkingConfig)
      (tools : List UnifiedTool) (doc prompt : String) (msg : UnifiedMessage)
      (msgs : List UnifiedMessage)
      → takes_turns true (msg ∷ msgs) ≡ true
      → TakesTurns (
          assembled_all cfg lib new_uuid model_id conversation_id profile_arn thinking tools doc
            prompt
            (msg ∷ msgs))
  unfolding assembled_all assembled
  assembled-TakesTurns model_id conversation_id profile_arn thinking tools doc prompt msg msgs h = (
    assembled cfg lib new_uuid model_id conversation_id profile_arn thinking tools doc prompt
        (split_last msg msgs),
    refl,
    assembled-turns cfg lib new_uuid model_id prompt msg msgs _ _ h,
  )

  conversation-TakesTurns :
      (model_id conversation_id profile_arn : String) (thinking : ThinkingConfig)
      (tools : List UnifiedTool) (doc prompt : String) (with_tools : Bool) (msg : UnifiedMessage)
      (msgs : List UnifiedMessage)
      → TakesTurns (
          assembled_all cfg lib new_uuid model_id conversation_id profile_arn thinking tools doc
            prompt
            (conversation lib.str_of with_tools (msg ∷ msgs)))
  conversation-TakesTurns model_id conversation_id profile_arn thinking tools doc prompt with_tools
        msg msgs =
      let (m, ms, e) = conversation-IsFilled lib.str_of with_tools msg msgs in
      rw e (
        assembled-TakesTurns model_id conversation_id profile_arn thinking tools doc prompt m ms (
          ap (takes_turns true) (sym e)
          ∙ conversation-takes_turns lib.str_of with_tools (msg ∷ msgs)))

  -- The name of a tool is too long, or there is no message.
  abbrev pub Refused : List UnifiedMessage → List UnifiedTool → Type 0
  Refused messages tools =
      (validate_tool_names
          (process_tools_with_long_descriptions tools cfg.tool_description_max_length).0
        ≡ false)
      ⊎ (messages ≡ [])

  -- `BuildKiroPayload` gives a payload, whose history and current message begin with the user's and
  -- take turns between the user and the assistant, or it panics, and then the name of
  -- a tool is longer than 64 characters, or there are no messages.
  pub build_kiro_payload-TakesTurns :
      (messages : List UnifiedMessage) (system_prompt model_id : String) (tools : List UnifiedTool)
      (conversation_id profile_arn : String) (thinking : ThinkingConfig)
      → TakesTurns (
          build_kiro_payload cfg lib new_uuid messages system_prompt model_id tools conversation_id
            profile_arn thinking)
        ⊎ ((build_kiro_payload cfg lib new_uuid messages system_prompt model_id tools
                conversation_id profile_arn thinking
              ≡ none)
            × Refused messages tools)
  unfolding build_kiro_payload assembled_all
  build_kiro_payload-TakesTurns [] system_prompt model_id tools conversation_id profile_arn
        thinking =
      let (processed, doc) =
        process_tools_with_long_descriptions tools cfg.tool_description_max_length in
      elim (Bool-cases (validate_tool_names processed)) [
        | inl e ↦ inr (rw (e, conversation-nil lib.str_of (has_tools tools)) refl, inr refl)
        | inr e ↦ inr (rw e refl, inl e)
      ]
  build_kiro_payload-TakesTurns (msg ∷ msgs) system_prompt model_id tools conversation_id
        profile_arn thinking =
      let (processed, doc) =
        process_tools_with_long_descriptions tools cfg.tool_description_max_length in
      elim (Bool-cases (validate_tool_names processed)) [
        | inl e ↦ inl (
            rw e (
              conversation-TakesTurns model_id conversation_id profile_arn thinking processed doc
                (full_system_prompt cfg lib new_uuid system_prompt doc model_id) (has_tools tools)
                msg msgs))
        | inr e ↦ inr (rw e refl, inl e)
      ]
