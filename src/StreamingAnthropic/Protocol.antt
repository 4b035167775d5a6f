-- ===== src/StreamingAnthropic/Protocol.antt =====
-- What a client of the Anthropic Messages API expects of the events of one response, written down
-- apart from the formatter: the blocks come one behind the other, numbered from 0, each begun once,
-- filled with deltas that suit it and stopped once; then the message_delta and the message_stop. The
-- client keeps the texts that it was sent.
use kiro_gateway_go.Common.{
  ℕ, ◌+◌, Bool, true, false, ◌&&◌, String, Option, none, some, List, [], ◌∷◌, ◌++◌, ◌==◌,
  if◌then◌else◌,
}
use kiro_gateway_go.Common.Bytes.{Bytes}
use kiro_gateway_go.StreamingAnthropic.{
  Block, text_block, thinking_block, tool_use_block, redacted_thinking_block, Delta, text_delta,
  thinking_delta, input_json_delta, signature_delta, SseEvent, message_start, content_block_start,
  content_block_delta, content_block_stop, message_delta, message_stop,
}

pub data BlockKind : Type 0 where
  text thinking tool redacted : BlockKind

-- Where the client is: no message, between two blocks with the number of the next one, in a block,
-- behind the message_delta, at the end.
pub data Phase : Type 0 where
  idle : Phase
  between : ℕ → Phase
  inside : ℕ → BlockKind → Phase
  closing : Phase
  finished : Phase

pub record Client : Type 0 where
  pub phase : Phase
  pub text_read : Bytes
  pub thinking_read : Bytes
  pub tools_read : ℕ
  pub stop_reason : Option String

abbrev pub new_client : Client
new_client = record {
  phase = idle;
  text_read = [];
  thinking_read = [];
  tools_read = 0;
  stop_reason = none;
}

abbrev pub kind_of : Block → BlockKind
kind_of text_block = text
kind_of (thinking_block _) = thinking
kind_of (tool_use_block _ _) = tool
kind_of (redacted_thinking_block _) = redacted

abbrev pub suits : BlockKind → Delta → Bool
suits text (text_delta _) = true
suits thinking (thinking_delta _) = true
suits thinking (signature_delta _) = true
suits tool (input_json_delta _) = true
suits _ _ = false

abbrev pub text_of : Delta → Bytes
text_of (text_delta s) = s
text_of _ = []

abbrev pub thinking_of : Delta → Bytes
thinking_of (thinking_delta s) = s
thinking_of _ = []

abbrev pub tools_of : BlockKind → ℕ
tools_of tool = 1
tools_of _ = 0

-- The next phase, if the event may come now.
unfoldable pub next_phase : Phase → SseEvent → Option Phase
next_phase idle (message_start _ _ _) = some (between 0)
next_phase (between n) (content_block_start i b) =
    if i == n then some (inside n (kind_of b)) else none
next_phase (inside n k) (content_block_delta i d) =
    if (i == n) && suits k d then some (inside n k) else none
next_phase (inside n k) (content_block_stop i) = if i == n then some (between (n + 1)) else none
next_phase (between n) (message_delta _ _) = some closing
next_phase closing message_stop = some finished
next_phase _ _ = none

-- What the client keeps of an event that may come now.
unfoldable pub kept : SseEvent → Client → Client
kept (content_block_start i b) c = record c { tools_read = c.tools_read + tools_of (kind_of b) }
kept (content_block_delta i d) c = record c {
  text_read = c.text_read ++ text_of d;
  thinking_read = c.thinking_read ++ thinking_of d;
}
kept (message_delta reason _) c = record c { stop_reason = some reason }
kept _ c = c

unfoldable pub receive : SseEvent → Client → Option Client
unfolding next_phase kept
receive e c = elim (next_phase c.phase e) [
  | none ↦ none
  | some q ↦ some (record (kept e c) { phase = q })
]

unfoldable pub receive_all : List SseEvent → Client → Option Client
receive_all [] c = some c
receive_all (e ∷ events) c = elim (receive e c) [ none ↦ none | some c' ↦ receive_all events c' ]
