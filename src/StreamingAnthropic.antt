-- ===== src/StreamingAnthropic.antt =====
-- internal/streaminganthropic: block_index.go, formatter.go, native_thinking.go and finish.go, which
-- turn the events of the pipeline into the SSE events of the Anthropic Messages API. A method works
-- on the formatter and on what has been written to `w`. A failing write, after which the caller
-- stops, is left out. The estimates of tokens, the decoding and printing of JSON, the ids and
-- `ParseBracketToolCalls` come in as an `Environment`.
pub mod Handle
pub mod Finish
pub mod Protocol
pub mod Seen
pub mod Conforms
pub mod Frame
pub mod Handled
pub mod Agreement
pub mod Modes
pub mod Finished
pub mod Drive
pub mod Response
pub mod Tally
pub mod Overlap
use kiro_gateway_go.Common.{
  ℕ, ◌+◌, Bool, true, false, not, ◌&&◌, String, Option, none, some, List, [], ◌∷◌, ◌++◌, ltb, ◌==◌,
  if◌then◌else◌, ◌<>◌, str_eq,
}
use kiro_gateway_go.Common.Bytes.{Bytes, is_empty}
use kiro_gateway_go.Json.{Fields, no_fields}
use kiro_gateway_go.Parsers.Truncation.{TruncationInfo}
use kiro_gateway_go.StreamingCore.{
  KiroEvent, ToolUseData, content, thinking, tool_use, usage, context_usage, error, refusal,
  native_thinking, thinking_signature, redacted_thinking,
}

pub data ThinkingHandling : Type 0 where
  as_reasoning_content include_as_text strip : ThinkingHandling

pub record BlockIndex : Type 0 where
  pub current : ℕ
  pub thinking_open : Bool
  pub thinking_at : ℕ
  pub text_open : Bool
  pub text_at : ℕ

-- The `content_block` of a content_block_start, and the `delta` of a content_block_delta.
pub data Block : Type 0 where
  text_block : Block
  thinking_block : (signature : String) → Block
  tool_use_block : (id name : String) → Block
  redacted_thinking_block : (data_text : Bytes) → Block

pub data Delta : Type 0 where
  text_delta : Bytes → Delta
  thinking_delta : Bytes → Delta
  input_json_delta : Bytes → Delta
  signature_delta : Bytes → Delta

-- The cache fields of a message_delta are missing when they are nil.
pub record Usage : Type 0 where
  pub output_tokens : ℕ
  pub cache_read : Option ℕ
  pub cache_creation : Option ℕ

pub data SseEvent : Type 0 where
  message_start : (id model : String) → (input_tokens : ℕ) → SseEvent
  content_block_start : ℕ → Block → SseEvent
  content_block_delta : ℕ → Delta → SseEvent
  content_block_stop : ℕ → SseEvent
  message_delta : (stop_reason : String) → Usage → SseEvent
  message_stop : SseEvent
  error_event : (message : String) → SseEvent

pub record TruncatedTool : Type 0 where
  pub id : String
  pub name : String
  pub info : TruncationInfo

-- A call that `ParseBracketToolCalls` finds: its arguments are JSON.
pub record BracketCall : Type 0 where
  pub id : String
  pub name : String
  pub arguments : Bytes

pub record Environment : Type 0 where
  -- The sum of the three estimates of `EmitMessageStart`, 0 with nothing to count.
  pub input_tokens : ℕ
  -- `tokenizer.CountTokens(s, true)`
  pub count_tokens : Bytes → ℕ
  -- `extractCacheUsageFields` of a usage payload.
  pub cache_usage : Option Bytes → Option ℕ × Option ℕ
  -- What `json.Unmarshal` leaves in a nil map when its error is not looked at; `none` if it stays nil.
  pub unmarshal : Bytes → Option Fields
  -- `pythonStyleDumps` of a decoded map.
  pub python_style_dumps : Fields → Bytes
  -- `generateToolUseID` at its n-th call.
  pub generate_tool_use_id : ℕ → String
  pub parse_bracket_tool_calls : Bytes → List BracketCall

-- The fields of the formatter that change, but `blocks`; the last one counts the ids generated.
pub record Formatter : Type 0 where
  pub blocks : BlockIndex
  pub full_content : Bytes
  pub full_thinking_content : Bytes
  pub tool_block_count : ℕ
  pub received_context_usage : Bool
  pub refused : Bool
  pub context_usage_percentage : Option String
  pub cache_read : Option ℕ
  pub cache_creation : Option ℕ
  pub truncated_tools : List TruncatedTool
  pub generated : ℕ

-- A formatter with what it has written.
pub record Output : Type 0 where
  pub formatter : Formatter
  pub written : List SseEvent

-- The fields that `New` sets and nothing changes.
pub record Settings : Type 0 where
  pub message_id : String
  pub model : String
  pub thinking_handling : ThinkingHandling
  pub thinking_signature : String

abbrev pub new_blocks : BlockIndex
new_blocks = record {
  current = 0;
  thinking_open = false;
  thinking_at = 0;
  text_open = false;
  text_at = 0;
}

unfoldable pub new : Formatter
new = record {
  blocks = new_blocks;
  full_content = [];
  full_thinking_content = [];
  tool_block_count = 0;
  received_context_usage = false;
  refused = false;
  context_usage_percentage = none;
  cache_read = none;
  cache_creation = none;
  truncated_tools = [];
  generated = 0;
}

-- The methods of `blockIndex`, with the index of the block that was closed, if one was.
unfoldable pub close_thinking : BlockIndex → BlockIndex × Option ℕ
close_thinking b =
    if b.thinking_open
    then (record b { thinking_open = false; current = b.current + 1 }, some b.thinking_at)
    else (b, none)

unfoldable pub close_text : BlockIndex → BlockIndex × Option ℕ
close_text b =
    if b.text_open
    then (record b { text_open = false; current = b.current + 1 }, some b.text_at)
    else (b, none)

-- The index of the block that was opened now, if it was not open before.
unfoldable pub open_thinking : BlockIndex → BlockIndex × Option ℕ
open_thinking b =
    if b.thinking_open
    then (b, none)
    else (record b { thinking_at = b.current; thinking_open = true }, some b.current)

unfoldable pub open_text : BlockIndex → BlockIndex × Option ℕ
open_text b =
    if b.text_open
    then (b, none)
    else (record b { text_at = b.current; text_open = true }, some b.current)

unfoldable pub reserve_tool_block : BlockIndex → BlockIndex × ℕ
reserve_tool_block b = (record b { current = b.current + 1 }, b.current)

-- `writeEvent`
abbrev pub emit : SseEvent → Output → Output
emit e o = record o { written = o.written ++ (e ∷ []) }

-- New blocks, and an event that depends on whether a block changed.
abbrev pub with_blocks : BlockIndex × Option ℕ → (ℕ → SseEvent) → Output → Output
with_blocks (b, none) event o = record o { formatter = record o.formatter { blocks = b } }
with_blocks (b, some idx) event o =
    emit (event idx) (record o { formatter = record o.formatter { blocks = b } })

-- The statements `if idx, closed := f.blocks.Close...(); closed` and `if idx, opened := ...`.
unfoldable pub stop_thinking : Output → Output
unfolding close_thinking
stop_thinking o = with_blocks (close_thinking o.formatter.blocks) content_block_stop o

unfoldable pub stop_text : Output → Output
unfolding close_text
stop_text o = with_blocks (close_text o.formatter.blocks) content_block_stop o

unfoldable pub start_thinking : String → Output → Output
unfolding open_thinking
start_thinking signature o =
    with_blocks (open_thinking o.formatter.blocks)
      (λ idx. content_block_start idx (thinking_block signature)) o

unfoldable pub start_text : Output → Output
unfolding open_text
start_text o =
    with_blocks (open_text o.formatter.blocks) (λ idx. content_block_start idx text_block) o

unfoldable pub close_open_blocks : Output → Output
unfolding stop_thinking stop_text
close_open_blocks o = stop_text (stop_thinking o)

unfoldable pub send_text : Bytes → Output → Output
send_text s o =
    if is_empty s then o else emit (content_block_delta o.formatter.blocks.text_at (text_delta s)) o

unfoldable pub send_thinking : Bytes → Output → Output
send_thinking s o = emit (content_block_delta o.formatter.blocks.thinking_at (thinking_delta s)) o
