-- ===== src/Converters/Payload.antt =====
-- internal/converterscore/payload.go: `BuildKiroPayload` up to the payload that may then be trimmed
-- (PayloadTrim). `none` stands for a panic; `utils.NewUUID` is a parameter.
pub mod Turns
pub mod Sent
use kiro_gateway_go.Common.{
  Bool, true, false, not, ◌&&◌, ◌||◌, String, ◌<>◌, Option, none, some, List, [], ◌∷◌, ◌++◌, str_eq,
  if◌then◌else◌,
}
use kiro_gateway_go.Json.{Fields, string}
use kiro_gateway_go.Converters.{
  UnifiedMessage, empty_placeholder, is_user, is_assistant, conversation,
}
use kiro_gateway_go.Converters.Tools.{
  UnifiedTool, ToolSpecification, process_tools_with_long_descriptions, validate_tool_names,
  convert_tools_to_kiro_format,
}
use kiro_gateway_go.Converters.Thinking.{
  Settings, ThinkingConfig, fake_reasoning_applies_to, get_thinking_system_prompt_addition,
  get_truncation_recovery_system_addition, inject_thinking_tags, append_system_prompt_addition,
}
use kiro_gateway_go.Converters.History.{
  Library, UserInput, Response, Entry, user, assistant, text_of, or_placeholder, images_of,
  tool_results_of, build_kiro_history,
}

pub record Payload : Type 0 where
  pub history : List Entry
  pub current : UserInput
  pub tools : List ToolSpecification
  pub conversation_id : String
  pub profile_arn : Option String
  pub tool_documentation : String

-- `len(tools) > 0`
abbrev pub has_tools : List UnifiedTool → Bool
has_tools [] = false
has_tools (_ ∷ _) = true

-- All messages but the last one, and the last one.
unfoldable pub split_last :
    UnifiedMessage → List UnifiedMessage → List UnifiedMessage × UnifiedMessage
split_last msg [] = ([], msg)
split_last msg (next ∷ msgs) = let (front, last) = split_last next msgs in (msg ∷ front, last)

module _ (cfg : Settings) (lib : Library) (new_uuid : String) where
  unfoldable pub full_system_prompt : String → String → String → String
  full_system_prompt system_prompt tool_documentation model_id =
      let documented = append_system_prompt_addition cfg system_prompt tool_documentation in
      let thinking =
        if fake_reasoning_applies_to cfg model_id
        then append_system_prompt_addition cfg documented (get_thinking_system_prompt_addition cfg)
        else documented in
      append_system_prompt_addition cfg thinking (get_truncation_recovery_system_addition cfg)

  abbrev pub prepended : String → String → String
  prepended prompt content = prompt <> ("\n\n" <> content)

  -- `historyMessages[0].Content = ...`
  unfoldable pub with_system_prompt : String → List UnifiedMessage → List UnifiedMessage
  with_system_prompt prompt [] = []
  with_system_prompt prompt (msg ∷ msgs) =
      if not (str_eq prompt "") && is_user msg
      then record msg { content = string (prepended prompt (text_of lib msg)) } ∷ msgs
      else msg ∷ msgs

  abbrev is_nil : List Entry → Bool
  is_nil [] = true
  is_nil (_ ∷ _) = false

  -- The text of the last message, with the system prompt if there is no history.
  unfoldable pub current_text : String → List Entry → UnifiedMessage → String
  current_text prompt history msg =
      if not (str_eq prompt "") && is_nil history
      then prepended prompt (text_of lib msg)
      else text_of lib msg

  -- The assistant's last message goes to the history, with its text alone.
  unfoldable pub moved : List Entry → UnifiedMessage → (content : String) → List Entry × String
  moved history msg content =
      if is_assistant msg
      then (
        history
            ++ assistant (record { content = content; tool_uses = []; reasoning_content = none })
              ∷ [],
        empty_placeholder,
      )
      else (history, content)

  -- `thinkingCfg` with the tags off where they do not apply.
  abbrev effective : String → ThinkingConfig → ThinkingConfig
  effective model_id thinking =
      if not (fake_reasoning_applies_to cfg model_id)
      then record thinking { is_enabled = false }
      else thinking

  unfoldable pub tagged : String → ThinkingConfig → UnifiedMessage → String → String
  tagged model_id thinking msg content =
      if is_user msg
      then inject_thinking_tags cfg content (effective model_id thinking)
      else content

  abbrev arn_of : String → Option String
  arn_of profile_arn = if str_eq profile_arn "" then none else some profile_arn

  module _ (model_id : String) (conversation_id profile_arn : String) (thinking : ThinkingConfig)
      (tools : List UnifiedTool) (tool_documentation prompt : String) where
    -- From the merged messages: those in front and the last one.
    unfoldable pub assembled : List UnifiedMessage × UnifiedMessage → Payload
    assembled (front, msg) =
        let history = build_kiro_history lib (with_system_prompt prompt front) model_id in
        let (history', content) = moved history msg (current_text prompt history msg) in
        record {
          history = history';
          current = record {
            content = tagged model_id thinking msg (or_placeholder lib content);
            model_id = model_id;
            images = images_of lib msg;
            tool_results = tool_results_of lib msg;
          };
          tools = convert_tools_to_kiro_format cfg.trim_space tools;
          conversation_id = if str_eq conversation_id "" then new_uuid else conversation_id;
          profile_arn = arn_of profile_arn;
          tool_documentation = tool_documentation;
        }

    unfoldable pub assembled_all : List UnifiedMessage → Option Payload
    assembled_all [] = none
    assembled_all (msg ∷ msgs) = some (assembled (split_last msg msgs))

  unfoldable pub build_kiro_payload :
      (messages : List UnifiedMessage) (system_prompt model_id : String) (tools : List UnifiedTool)
      (conversation_id profile_arn : String) (thinking : ThinkingConfig)
      → Option Payload
  build_kiro_payload messages system_prompt model_id tools conversation_id profile_arn thinking =
      let (processed, tool_documentation) =
        process_tools_with_long_descriptions tools cfg.tool_description_max_length in
      if not (validate_tool_names processed)
      then none
      else assembled_all model_id conversation_id profile_arn thinking processed tool_documentation
          (full_system_prompt system_prompt tool_documentation model_id)
          (conversation lib.str_of (has_tools tools) messages)
