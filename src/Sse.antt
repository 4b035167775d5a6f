-- ===== src/Sse.antt =====
-- internal/sse/framing.go: the frames of server-sent events.
pub mod Events
use kiro_gateway_go.Common.{List, [], ◌∷◌, ◌++◌}
use kiro_gateway_go.Common.Bytes.{Bytes}

-- `event: ` and `data: `
abbrev pub event_field : Bytes
event_field = b'e' ∷ b'v' ∷ b'e' ∷ b'n' ∷ b't' ∷ b':' ∷ b' ' ∷ []

abbrev pub data_field : Bytes
data_field = b'd' ∷ b'a' ∷ b't' ∷ b'a' ∷ b':' ∷ b' ' ∷ []

unfoldable pub format_event : (name data_bytes : Bytes) → Bytes
format_event [] data_bytes = data_field ++ (data_bytes ++ 10 ∷ 10 ∷ [])
format_event (c ∷ name) data_bytes =
    event_field ++ ((c ∷ name) ++ 10 ∷ (data_field ++ (data_bytes ++ 10 ∷ 10 ∷ [])))

-- The message that closes a stream of the OpenAI dialect.
unfoldable pub format_done : Bytes
format_done =
    b'd' ∷ b'a' ∷ b't' ∷ b'a' ∷ b':' ∷ b' ' ∷ b'[' ∷ b'D' ∷ b'O' ∷ b'N' ∷ b'E' ∷ b']' ∷ 10 ∷ 10 ∷ []
