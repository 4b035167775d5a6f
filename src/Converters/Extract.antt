-- ===== src/Converters/Extract.antt =====
-- internal/converterscore/extract.go and images.go: images, tool results and tool uses of a message, in
-- the form that Kiro takes. The texts of an image are kept as bytes. Parameters: `json.Unmarshal` of
-- a text to `any`, with `none` for an error, and whether the text of a JSON number is zero.
use kiro_gateway_go.Common.{
  ℕ, zero, suc, Bool, true, false, not, String, Option, none, some, List, [], ◌∷◌, ◌++◌, str_eq,
  drop, ◌==◌, if◌then◌else◌,
}
use kiro_gateway_go.Common.Bytes.{Bytes, has_prefix, is_empty}
use kiro_gateway_go.Common.Utf8.{utf8}
use kiro_gateway_go.Json.{
  Value, Values, Fields, null, boolean, number, string, array, object, end, item, no_fields, lookup,
  as_string, as_object,
}
use kiro_gateway_go.Converters.{UnifiedMessage}
use kiro_gateway_go.Converters.Text.{extract_text_content, or_default, content_of}

-- The keys "media_type" and "data" of an image.
pub record RawImage : Type 0 where
  pub media_type : Option Bytes
  pub data_bytes : Bytes

pub record KiroImage : Type 0 where
  pub format : Bytes
  pub source_bytes : Bytes

pub record KiroToolResult : Type 0 where
  pub text : String
  pub tool_use_id : String

pub record ToolUse : Type 0 where
  pub name : String
  pub input : Value
  pub tool_use_id : String

-- `before, after, found := strings.Cut(s, sep)` with a separator of one byte.
unfoldable pub cut_before : ℕ → Bytes → Bytes
cut_before sep [] = []
cut_before sep (c ∷ s) = if c == sep then [] else c ∷ cut_before sep s

unfoldable pub cut_after : ℕ → Bytes → Option Bytes
cut_after sep [] = none
cut_after sep (c ∷ s) = if c == sep then some s else cut_after sep s

abbrev or_nothing : Option Bytes → Bytes
or_nothing none = []
or_nothing (some s) = s

abbrev or_whole : Bytes → Option Bytes → Bytes
or_whole whole none = whole
or_whole whole (some s) = s

abbrev data_scheme : Bytes
data_scheme = utf8 "data:"

-- `strings.TrimPrefix(s, "data:")`
abbrev without_scheme : Bytes → Bytes
without_scheme s = if has_prefix data_scheme s then drop 5 s else s

-- `strings.ReplaceAll(s, "data:", "")`; after a replacement `skip` bytes of it are left out.
unfoldable pub remove_scheme : (skip : ℕ) → Bytes → Bytes
remove_scheme skip [] = []
remove_scheme (suc skip) (c ∷ s) = remove_scheme skip s
remove_scheme zero (c ∷ s) =
    let replaced = remove_scheme 4 s in
    let kept = c ∷ remove_scheme 0 s in if has_prefix data_scheme (c ∷ s) then replaced else kept

abbrev jpeg : Bytes
jpeg = utf8 "image/jpeg"

abbrev as_bytes? : Option Value → Option Bytes
as_bytes? (some (string s)) = some (utf8 s)
as_bytes? _ = none

unfoldable pub raw_image : Fields → RawImage
raw_image img = record {
  media_type = as_bytes? (lookup "media_type" img);
  data_bytes = or_nothing (as_bytes? (lookup "data" img));
}

abbrev format_of : (media_type : Bytes) → Bytes
format_of media_type = or_whole media_type (cut_after b'/' media_type)

abbrev media_type_of_header : (header default : Bytes) → Bytes
media_type_of_header header default =
    let extracted = without_scheme (cut_before b';' header) in
    if is_empty extracted then default else extracted

-- A data URL of two parts, or what it was taken for.
abbrev from_data_url : (media_type whole : Bytes) → (rest : Option Bytes) → KiroImage
from_data_url media_type whole none = record { format = format_of media_type; source_bytes = whole }
from_data_url media_type whole (some actual) = record {
  format = format_of (media_type_of_header (cut_before b',' whole) media_type);
  source_bytes = actual;
}

unfoldable pub convert_image : RawImage → KiroImage
convert_image img =
    let media_type = or_whole jpeg img.media_type in
    if has_prefix data_scheme img.data_bytes
    then from_data_url media_type img.data_bytes (cut_after b',' img.data_bytes)
    else record { format = format_of media_type; source_bytes = img.data_bytes }

unfoldable pub convert_images_to_kiro_format : List RawImage → List KiroImage
convert_images_to_kiro_format [] = []
convert_images_to_kiro_format (img ∷ imgs) =
    let rest = convert_images_to_kiro_format imgs in
    if is_empty img.data_bytes then rest else convert_image img ∷ rest

unfoldable pub raw_images : List Fields → List RawImage
raw_images [] = []
raw_images (img ∷ imgs) = raw_image img ∷ raw_images imgs

abbrev image_if_data : Bytes → (media_type : Bytes) → List RawImage
image_if_data data_bytes media_type =
    if is_empty data_bytes
    then []
    else record { media_type = some media_type; data_bytes = data_bytes } ∷ []

-- The case "image_url".
abbrev image_of_url : Bytes → List RawImage
image_of_url url =
    if has_prefix data_scheme url
    then image_if_data (or_nothing (cut_after b',' url))
        (remove_scheme 0 (cut_before b';' (cut_before b',' url)))
    else []

-- The case "image".
abbrev image_of_source : Option Value → List RawImage
image_of_source (some (object source)) =
    if str_eq (as_string (lookup "type" source)) "base64"
    then image_if_data (or_nothing (as_bytes? (lookup "data" source)))
        (or_whole jpeg (as_bytes? (lookup "media_type" source)))
    else []
image_of_source _ = []

abbrev images_of_item : Value → List RawImage
images_of_item (object block) =
    let kind = as_string (lookup "type" block) in
    if str_eq kind "image_url"
    then image_of_url (or_nothing (as_bytes? (lookup "url" (as_object (lookup "image_url" block)))))
    else if str_eq kind "image"
    then image_of_source (lookup "source" block)
    else []
images_of_item _ = []

unfoldable pub images_of_items : Values → List RawImage
images_of_items end = []
images_of_items (item v items) = images_of_item v ++ images_of_items items

unfoldable pub extract_images_from_content : Value → List RawImage
extract_images_from_content (array items) = images_of_items items
extract_images_from_content _ = []

module _ (str_of : Value → String) where
  abbrev result_text : Option Value → String
  result_text content =
      or_default str_of (extract_text_content str_of (content_of str_of content)) "(empty result)"

  unfoldable pub convert_tool_results : List Fields → List KiroToolResult
  convert_tool_results [] = []
  convert_tool_results (tr ∷ trs) =
      record {
        text = result_text (lookup "content" tr);
        tool_use_id = as_string (lookup "tool_use_id" tr);
      }
      ∷ convert_tool_results trs

  abbrev results_of_item : Value → List KiroToolResult
  results_of_item (object block) =
      if str_eq (as_string (lookup "type" block)) "tool_result"
      then record {
        text = result_text (lookup "content" block);
        tool_use_id = as_string (lookup "tool_use_id" block);
      }
        ∷ []
      else []
  results_of_item _ = []

  unfoldable pub results_of_items : Values → List KiroToolResult
  results_of_items end = []
  results_of_items (item v items) = results_of_item v ++ results_of_items items

  unfoldable pub extract_tool_results_from_content : Value → List KiroToolResult
  extract_tool_results_from_content (array items) = results_of_items items
  extract_tool_results_from_content _ = []

module _ (unmarshal : String → Option Value) (is_zero : String → Bool) where
  unfoldable pub is_truthy : Value → Bool
  is_truthy null = false
  is_truthy (boolean b) = b
  is_truthy (string s) = not (str_eq s "")
  is_truthy (number n) = not (is_zero n)
  is_truthy (array end) = false
  is_truthy (array _) = true
  is_truthy (object no_fields) = false
  is_truthy (object _) = true

  abbrev parsed_or_empty : Option Value → Value
  parsed_or_empty none = object no_fields
  parsed_or_empty (some v) = v

  -- The arguments of a call, of which a missing one is the text "{}".
  unfoldable pub input_data : Option Value → Value
  input_data none = parsed_or_empty (unmarshal "{}")
  input_data (some (string a)) =
      if str_eq a "" then object no_fields else parsed_or_empty (unmarshal a)
  input_data (some a) = if is_truthy a then a else object no_fields

  unfoldable pub uses_of_calls : List Fields → List ToolUse
  uses_of_calls [] = []
  uses_of_calls (tc ∷ tcs) =
      let func_obj = as_object (lookup "function" tc) in
      record {
        name = as_string (lookup "name" func_obj);
        input = input_data (lookup "arguments" func_obj);
        tool_use_id = as_string (lookup "id" tc);
      }
      ∷ uses_of_calls tcs

  abbrev input_or_empty : Option Value → Value
  input_or_empty none = object no_fields
  input_or_empty (some v) = v

  abbrev uses_of_item : Value → List ToolUse
  uses_of_item (object block) =
      if str_eq (as_string (lookup "type" block)) "tool_use"
      then record {
        name = as_string (lookup "name" block);
        input = input_or_empty (lookup "input" block);
        tool_use_id = as_string (lookup "id" block);
      }
        ∷ []
      else []
  uses_of_item _ = []

  unfoldable pub uses_of_items : Values → List ToolUse
  uses_of_items end = []
  uses_of_items (item v items) = uses_of_item v ++ uses_of_items items

  abbrev uses_of_content : Value → List ToolUse
  uses_of_content (array items) = uses_of_items items
  uses_of_content _ = []

  unfoldable pub extract_tool_uses_from_message : UnifiedMessage → List ToolUse
  extract_tool_uses_from_message msg = uses_of_calls msg.tool_calls ++ uses_of_content msg.content
