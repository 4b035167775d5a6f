-- ===== src/Sse/Events.antt =====
-- A reader of server-sent events, written down apart from the code, and what it reads of the frames.
use kiro_gateway_go.Common.{
  ℕ, ◌≡◌, refl, sym, ap, ◌∙◌, inl, inr, Bool, true, not, ◌&&◌, Option, none, some, List, [], ◌∷◌,
  ◌++◌, ◌==◌, drop, arith, if◌then◌else◌, Bool-cases, append_assoc, append-nil,
}
use kiro_gateway_go.Common.Bytes.{Bytes, has_prefix}
use kiro_gateway_go.Sse.{event_field, data_field, format_event, format_done}

-- The name, which may be empty, and the data.
abbrev pub Event : Type 0
Event = Bytes × Bytes

unfoldable pub onto_first : ℕ → List Bytes → List Bytes
onto_first c [] = (c ∷ []) ∷ []
onto_first c (l ∷ ls) = (c ∷ l) ∷ ls

-- The lines of a text; the last one has no line end.
unfoldable pub lines : Bytes → List Bytes
lines [] = [] ∷ []
lines (c ∷ s) = let rest = lines s in if c == 10 then [] ∷ rest else onto_first c rest

-- What the lines since the last blank one say: the name, and the data if there is a line of data.
abbrev pub Pending : Type 0
Pending = Bytes × Option Bytes

unfoldable pub with_data : Bytes → Option Bytes → Option Bytes
with_data d none = some d
with_data d (some before) = some (before ++ 10 ∷ d)

unfoldable pub after_line : Bytes → Pending → Pending
after_line [] p = ([], none)
after_line (c ∷ l) (name, found) =
    if has_prefix event_field (c ∷ l)
    then (drop 7 (c ∷ l), found)
    else if has_prefix data_field (c ∷ l)
    then (name, with_data (drop 6 (c ∷ l)) found)
    else (name, found)

-- A blank line ends an event that has data.
unfoldable pub dispatched : Bytes → Pending → List Event
dispatched [] (name, some d) = (name, d) ∷ []
dispatched _ _ = []

unfoldable pub read_lines : List Bytes → Pending → List Event
read_lines [] p = []
read_lines (l ∷ ls) p = dispatched l p ++ read_lines ls (after_line l p)

unfoldable pub read_events : Bytes → List Event
read_events s = read_lines (lines s) ([], none)

abbrev pub is_line : Bytes → Bool
is_line [] = true
is_line (c ∷ s) = not (c == 10) && is_line s

lines-line : (l rest : Bytes) → is_line l ≡ true → lines (l ++ 10 ∷ rest) ≡ l ∷ lines rest
unfolding lines onto_first
lines-line [] rest h = refl
lines-line (c ∷ l) rest h = elim (Bool-cases (c == 10)) [
  | inl e ↦ absurd (cc)
  | inr n ↦ rw (n, lines-line l rest (grind arith)) refl
]

-- The rest of a frame, from its line of data on.
read_lines-data_field :
    (name d rest : Bytes)
    → is_line d ≡ true
    → read_lines (lines ((data_field ++ (d ++ 10 ∷ 10 ∷ [])) ++ rest)) (name, none)
      ≡ (name, d) ∷ read_events rest
unfolding read_events read_lines dispatched after_line with_data has_prefix lines
read_lines-data_field name d rest h =
    ap (λ s. read_lines (lines (data_field ++ s)) (name, none)) (append_assoc d (10 ∷ 10 ∷ []) rest)
    ∙ ap (λ ls. read_lines ls (name, none)) (lines-line (data_field ++ d) (10 ∷ rest) h)

read_events-format_event :
    (name d rest : Bytes)
    → is_line name ≡ true
    → is_line d ≡ true
    → read_events (format_event name d ++ rest) ≡ (name, d) ∷ read_events rest
unfolding format_event read_events read_lines dispatched after_line has_prefix
read_events-format_event [] d rest hn hd = read_lines-data_field [] d rest hd
read_events-format_event (c ∷ name) d rest hn hd =
    let tail = data_field ++ (d ++ 10 ∷ 10 ∷ []) in
    ap (λ s. read_lines (lines (event_field ++ s)) ([], none))
      (append_assoc (c ∷ name) (10 ∷ tail) rest)
    ∙ ap (λ ls. read_lines ls ([], none)) (lines-line (event_field ++ (c ∷ name)) (tail ++ rest) hn)
    ∙ read_lines-data_field (c ∷ name) d rest hd

-- The frames of events, one after the other.
abbrev pub frames : List Event → Bytes
frames [] = []
frames ((name, d) ∷ events) = format_event name d ++ frames events

-- No name and no data has a line end.
abbrev pub are_lines : List Event → Bool
are_lines [] = true
are_lines ((name, d) ∷ events) = is_line name && (is_line d && are_lines events)

read_events-append :
    (events : List Event) (rest : Bytes)
    → are_lines events ≡ true
    → read_events (frames events ++ rest) ≡ events ++ read_events rest
read_events-append [] rest h = refl
read_events-append ((name, d) ∷ events) rest h =
    ap read_events (append_assoc (format_event name d) (frames events) rest)
    ∙ read_events-format_event name d (frames events ++ rest) (grind arith) (grind arith)
    ∙ ap (◌∷◌ (name, d)) (read_events-append events rest (grind arith))

-- The data of the closing message.
abbrev pub done : Bytes
done = b'[' ∷ b'D' ∷ b'O' ∷ b'N' ∷ b'E' ∷ b']' ∷ []

-- A client reads from the frames of a list of events, none of whose names and data has a line end,
-- those events in their order and no other; and when the closing message of the OpenAI dialect
-- follows, that one besides at the end.
pub read_events-frames :
    (events : List Event)
    → are_lines events ≡ true
    → (read_events (frames events) ≡ events)
      × (read_events (frames events ++ format_done) ≡ events ++ ([], done) ∷ [])
unfolding read_events lines read_lines dispatched after_line with_data has_prefix onto_first
    format_done
read_events-frames events h = (
  ap read_events (sym (append-nil (frames events)))
      ∙ read_events-append events [] h
      ∙ append-nil events,
  read_events-append events format_done h,
)
