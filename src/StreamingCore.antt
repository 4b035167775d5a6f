-- ===== src/StreamingCore.antt =====
-- internal/streamingcore/events.go: the events that the pipeline makes of a response, for the
-- formatters of the two dialects. A text that the parser cut out of the response is a byte list, a
-- text of its decoded JSON too; the number of a percentage is kept as its text.
pub mod Pipeline
pub mod Steps
pub mod Order
pub mod Panics
use kiro_gateway_go.Common.{Bool, true, not, String, Option, List, [], ◌∷◌, ◌≡◌}
use kiro_gateway_go.Common.Bytes.{Bytes}
use kiro_gateway_go.Json.{Fields}
use kiro_gateway_go.Parsers.Truncation.{Reason, TruncationInfo}

-- `TruncationDetected` says that `truncation` is there.
pub record ToolUseData : Type 0 where
  pub id : String
  pub name : String
  pub input : Fields
  pub truncation : Option TruncationInfo

pub record RefusalInfo : Type 0 where
  pub category : String
  pub explanation : String

-- A constructor for each `Kind`, with the fields that it uses.
pub data KiroEvent : Type 0 where
  content : Bytes → KiroEvent
  thinking : Bytes → KiroEvent
  tool_use : ToolUseData → KiroEvent
  usage : Option Bytes → KiroEvent
  context_usage : String → KiroEvent
  error : Reason → KiroEvent
  refusal : RefusalInfo → KiroEvent
  native_thinking : Bytes → KiroEvent
  thinking_signature : Bytes → KiroEvent
  redacted_thinking : Bytes → KiroEvent

-- May an event come, when a content has been seen or not? The reasoning that was cut out of the text
-- comes before every content.
unfoldable pub in_order : Bool → KiroEvent → Bool
in_order seen (thinking _) = not seen
in_order seen _ = true

unfoldable pub seen_after : Bool → KiroEvent → Bool
seen_after seen (content _) = true
seen_after seen _ = seen

unfoldable pub all_seen_after : Bool → List KiroEvent → Bool
all_seen_after seen [] = seen
all_seen_after seen (e ∷ events) = all_seen_after (seen_after seen e) events

abbrev pub AllInOrder : Bool → List KiroEvent → Type 0
AllInOrder seen [] = Unit
AllInOrder seen (e ∷ events) = (in_order seen e ≡ true) × AllInOrder (seen_after seen e) events
