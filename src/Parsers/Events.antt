-- ===== src/Parsers/Events.antt =====
-- internal/parsers/parser.go: the event stream parser. Its buffer stands apart from its other fields,
-- which the framing of the events does not read.
use kiro_gateway_go.Common.{
  ℕ, zero, suc, ◌+◌, ◌-◌, Bool, false, Option, none, some, List, [], ◌∷◌, ◌++◌, ltb, str_eq,
  if◌then◌else◌, length, take, drop,
}
use kiro_gateway_go.Common.Bytes.{Bytes, codes, index}
use kiro_gateway_go.Json.{Value, Fields, string, lookup}
use kiro_gateway_go.Parsers.{find_matching_brace}
use kiro_gateway_go.Parsers.ToolCalls.{
  Library, Calls, new_calls, is_truthy, process_tool_start, process_tool_input, process_tool_stop,
}

pub data Kind : Type 0 where
  content tool_start tool_input tool_stop followup usage context_usage metadata : Kind
  reasoning_text reasoning_signature reasoning_redacted refusal : Kind

abbrev pub event_patterns : List (Bytes × Kind)
event_patterns =
    (codes "{\"content\":", content)
    ∷ (codes "{\"name\":", tool_start)
    ∷ (codes "{\"input\":", tool_input)
    ∷ (codes "{\"stop\":", tool_stop)
    ∷ (codes "{\"followupPrompt\":", followup)
    ∷ (codes "{\"usage\":", usage)
    ∷ (codes "{\"contextUsagePercentage\":", context_usage)
    ∷ (codes "{\"stopDetails\":", metadata)
    ∷ (codes "{\"stopReason\":", metadata)
    ∷ (codes "{\"text\":", reasoning_text)
    ∷ (codes "{\"signature\":", reasoning_signature)
    ∷ (codes "{\"redactedContent\":", reasoning_redacted)
    ∷ []

pub record Parser : Type 0 where
  pub buffer : Bytes
  pub calls : Calls

pub record Event : Type 0 where
  pub kind : Kind
  pub raw : Bytes
  pub value : Fields

-- The update of `earliestPos` and `earliestKind` by one pattern.
abbrev pub better : Option ℕ → Kind → Option (ℕ × Kind) → Option (ℕ × Kind)
better none kind acc = acc
better (some idx) kind none = some (idx, kind)
better (some idx) kind (some (pos, k)) = if ltb idx pos then some (idx, kind) else some (pos, k)

unfoldable pub earliest_of : List (Bytes × Kind) → Bytes → Option (ℕ × Kind) → Option (ℕ × Kind)
earliest_of [] buf acc = acc
earliest_of ((pat, kind) ∷ pats) buf acc = earliest_of pats buf (better (index pat buf) kind acc)

-- An event cut out of the buffer: its kind, its bytes and what is left of the buffer.
pub record Frame : Type 0 where
  pub kind : Kind
  pub raw : Bytes
  pub rest : Bytes

abbrev pub cut : Bytes → ℕ → Kind → Option ℕ → Option Frame
cut buf pos kind none = none
cut buf pos kind (some json_end) = some (record {
  kind = kind;
  raw = take (json_end + 1 - pos) (drop pos buf);
  rest = drop (json_end + 1) buf;
})

abbrev pub frame_of : Bytes → Option (ℕ × Kind) → Option Frame
frame_of buf none = none
frame_of buf (some (pos, kind)) = cut buf pos kind (find_matching_brace buf pos)

unfoldable pub next_frame : Bytes → Option Frame
next_frame buf = frame_of buf (earliest_of event_patterns buf none)

module _ (l : Library) where
  unfoldable pub process_content : Calls → Fields → Bytes → Calls × List Event
  unfolding is_truthy lookup
  process_content c value raw =
      if is_truthy l (lookup "followupPrompt" value)
      then (c, [])
      else if l.deep_equal (lookup "content" value) c.last_content
      then (c, [])
      else (
        record c { last_content = lookup "content" value },
        record { kind = content; raw = raw; value = value } ∷ [],
      )

  is_filtered : Option Value → Bool
  is_filtered (some (string s)) = str_eq s "CONTENT_FILTERED"
  is_filtered _ = false

  -- The `switch` on the kind.
  unfoldable pub process_event : Kind → Calls → Fields → Bytes → Calls × List Event
  unfolding process_content process_tool_start process_tool_input process_tool_stop is_filtered
      lookup
  process_event content c value raw = process_content c value raw
  process_event tool_start c value raw = (process_tool_start l c value raw, [])
  process_event tool_input c value raw = (process_tool_input l c raw, [])
  process_event tool_stop c value raw = (process_tool_stop l c value, [])
  process_event followup c value raw = (c, [])
  process_event metadata c value raw =
      if is_filtered (lookup "stopReason" value)
      then (c, record { kind = refusal; raw = raw; value = value } ∷ [])
      else (c, [])
  process_event refusal c value raw = (c, [])
  process_event k c value raw = (c, record { kind = k; raw = raw; value = value } ∷ [])

  unfoldable pub process_frame : Calls → Frame → Calls × List Event
  process_frame c f = elim (l.unmarshal f.raw) [
    | none ↦ (c, [])
    | some value ↦ process_event f.kind c value f.raw
  ]

  -- The loop of `Feed`, a unit of fuel for each event.
  unfoldable pub drain : ℕ → Calls → Bytes → Parser × List Event
  drain zero c buf = (record { buffer = buf; calls = c }, [])
  drain (suc fuel) c buf = elim (next_frame buf) [
    | none ↦ (record { buffer = buf; calls = c }, [])
    | some f ↦
        let (c', events) = process_frame c f in
        let (p, events') = drain fuel c' f.rest in (p, events ++ events')
  ]

  -- `Feed` of bytes that are valid UTF-8. Each event takes a byte at least, so this fuel is enough.
  unfoldable pub absorb : Parser → Bytes → Parser × List Event
  absorb p s = let buf = p.buffer ++ s in drain (length buf + 1) p.calls buf

  unfoldable pub feed : Parser → Bytes → Parser × List Event
  unfolding absorb
  feed p chunk = absorb p (l.to_valid_utf8 chunk)

unfoldable pub reset : Parser → Parser
reset p = record { buffer = []; calls = new_calls p.calls.generated }
