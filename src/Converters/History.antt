-- ===== src/Converters/History.antt =====
-- internal/converterscore/payload.go: `BuildKiroHistory`. What the converters of text, images, tool
-- results and tool uses need from outside comes in as `Library`.
use kiro_gateway_go.Common.{Bool, String, Option, List, [], ◌∷◌, str_eq, if◌then◌else◌}
use kiro_gateway_go.Json.{Value, Fields}
use kiro_gateway_go.Converters.{UnifiedMessage, empty_placeholder, is_user, is_assistant, nonempty}
use kiro_gateway_go.Converters.Text.{extract_text_content}
use kiro_gateway_go.Converters.Extract.{
  RawImage, KiroImage, KiroToolResult, ToolUse, raw_images, convert_images_to_kiro_format,
  extract_images_from_content, convert_tool_results, extract_tool_results_from_content,
  extract_tool_uses_from_message,
}

pub record Library : Type 0 where
  pub str_of : Value → String
  pub unmarshal : String → Option Value
  pub is_zero : String → Bool

-- A missing key is an empty list.
pub record UserInput : Type 0 where
  pub content : String
  pub model_id : String
  pub images : List KiroImage
  pub tool_results : List KiroToolResult

pub record Response : Type 0 where
  pub content : String
  pub tool_uses : List ToolUse
  pub reasoning_content : Option Fields

pub data Entry : Type 0 where
  user : UserInput → Entry
  assistant : Response → Entry

abbrev or_images : List RawImage → List RawImage → List RawImage
or_images [] others = others
or_images (img ∷ imgs) others = img ∷ imgs

module _ (lib : Library) where
  abbrev pub text_of : UnifiedMessage → String
  text_of msg = extract_text_content lib.str_of msg.content

  abbrev pub or_placeholder : String → String
  or_placeholder content = if str_eq content "" then empty_placeholder else content

  unfoldable pub images_of : UnifiedMessage → List KiroImage
  images_of msg =
      convert_images_to_kiro_format
        (or_images (raw_images msg.images) (extract_images_from_content msg.content))

  unfoldable pub tool_results_of : UnifiedMessage → List KiroToolResult
  tool_results_of msg =
      if nonempty msg.tool_results
      then convert_tool_results lib.str_of msg.tool_results
      else extract_tool_results_from_content lib.str_of msg.content

  unfoldable pub user_entry : String → UnifiedMessage → Entry
  user_entry model_id msg = user (record {
    content = or_placeholder (text_of msg);
    model_id = model_id;
    images = images_of msg;
    tool_results = tool_results_of msg;
  })

  unfoldable pub assistant_entry : UnifiedMessage → Entry
  assistant_entry msg = assistant (record {
    content = or_placeholder (text_of msg);
    tool_uses = extract_tool_uses_from_message lib.unmarshal lib.is_zero msg;
    reasoning_content = msg.reasoning_content;
  })

  -- A message with another role is left out.
  unfoldable pub build_kiro_history : List UnifiedMessage → String → List Entry
  build_kiro_history [] model_id = []
  build_kiro_history (msg ∷ msgs) model_id =
      let rest = build_kiro_history msgs model_id in
      if is_user msg
      then user_entry model_id msg ∷ rest
      else if is_assistant msg
      then assistant_entry msg ∷ rest
      else rest
