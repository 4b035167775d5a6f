-- ===== src/Parsers/Chunks.antt =====
-- `Feed` of the event stream parser (parser.go) over a response that comes in chunks.
use kiro_gateway_go.Common.{
  ℕ, zero, suc, ◌+◌, ◌-◌, ◌<◌, none, some, List, [], ◌∷◌, ◌++◌, ◌≡◌, inl, inr, refl, sym, ap, ◌∙◌,
  arith, subst, length, take, drop, Option-cases, some_inj, length-append, length-drop, drop-drop,
  drop-length_append, drop-append_le, take-append_le, append_assoc, append-nil,
}
use kiro_gateway_go.Common.Bytes.{Bytes}
use kiro_gateway_go.Parsers.{find_matching_brace}
use kiro_gateway_go.Parsers.Grammar.{text, append_object}
use kiro_gateway_go.Parsers.Balanced.{find_matching_brace_iff, find_matching_brace-append}
use kiro_gateway_go.Parsers.ToolCalls.{Library, Calls}
use kiro_gateway_go.Parsers.Events.{
  Kind, cut, frame_of, event_patterns, earliest_of, Frame, next_frame, Parser, Event, process_frame,
  drain, absorb, feed,
}
use kiro_gateway_go.Parsers.Framing.{same, earliest-more}

drop-lt : (j : ℕ) (s t : Bytes) (c : ℕ) → drop j s ≡ c ∷ t → j < length s
drop-lt j s t c h =
    let e : length (drop j s) ≡ suc (length t) = ap length h in omega (arith, length-drop j s)

-- The closing brace that the scanner finds.
brace_at :
    (buf : Bytes) (start j : ℕ)
    → find_matching_brace buf start ≡ some j
    → (rest : Bytes) × (start < j) × (drop j buf ≡ b'}' ∷ rest)
brace_at buf start j h =
    let (b, rest, t, e) = (find_matching_brace_iff buf start j).0 h in
    let e' : j ≡ start + suc (length (text b)) = omega arith in
    (
      rest,
      omega arith,
      ap (λ n. drop n buf) e'
          ∙ drop-drop start (suc (length (text b))) buf
          ∙ ap (drop (suc (length (text b)))) (t ∙ append_object b rest)
          ∙ drop-length_append (text b) (b'}' ∷ rest),
    )

-- A frame as it is with more bytes behind the buffer.
abbrev extended : Bytes → Frame → Frame
extended more f = record { kind = f.kind; raw = f.raw; rest = f.rest ++ more }

abbrev frame_at : Bytes → ℕ → Kind → ℕ → Frame
frame_at buf pos kind j = record {
  kind = kind;
  raw = take (j + 1 - pos) (drop pos buf);
  rest = drop (j + 1) buf;
}

frame_at-extended :
    (buf more rest : Bytes) (pos : ℕ) (kind : Kind) (j : ℕ)
    → pos < j
    → drop j buf ≡ b'}' ∷ rest
    → frame_at (buf ++ more) pos kind j ≡ extended more (frame_at buf pos kind j)
frame_at-extended buf more rest pos kind j lt h =
    let len = drop-lt j buf rest b'}' h in
    let front = drop-append_le pos buf more (omega arith) in
    let raw_same =
      ap (take (j + 1 - pos)) front
      ∙ take-append_le (j + 1 - pos) (drop pos buf) more (omega (arith, length-drop pos buf)) in
    let rest_same = drop-append_le (j + 1) buf more (omega arith) in
    ap (λ r. record { kind = kind; raw = r; rest = drop (j + 1) (buf ++ more) }) raw_same
    ∙ ap (λ r. record { kind = kind; raw = take (j + 1 - pos) (drop pos buf); rest = r }) rest_same

-- The frame that is cut off a buffer is the same with more bytes behind it, and shortens it.
next_frame-append :
    (buf more : Bytes) (f : Frame)
    → next_frame buf ≡ some f
    → (next_frame (buf ++ more) ≡ some (extended more f)) × (length f.rest < length buf)
unfolding next_frame
next_frame-append buf more f h = elim (Option-cases (earliest_of event_patterns buf none)) [
  | inl n ↦ absurd (cc (sym (ap (frame_of buf) n) ∙ h))
  | inr ((pos, kind), e) ↦ elim (Option-cases (find_matching_brace buf pos)) [
    | inl n ↦ absurd (cc (sym (ap (frame_of buf) e ∙ ap (cut buf pos kind) n) ∙ h))
    | inr (j, e') ↦
        let (rest, lt, brace) = brace_at buf pos j e' in
        let len = drop-lt j buf rest b'}' brace in
        let same_frame : frame_at buf pos kind j ≡ f =
          some_inj (sym (ap (frame_of buf) e ∙ ap (cut buf pos kind) e') ∙ h) in
        let again =
          earliest-more buf more (rest ++ more) pos j (omega arith) len
            (drop-append_le j buf more (omega arith) ∙ ap (λ s. s ++ more) brace) event_patterns
            kind none none refl (same none) e in
        let shorter : length (frame_at buf pos kind j).rest < length buf =
          omega (arith, length-drop (j + 1) buf) in
        (
          ap (frame_of (buf ++ more)) again
              ∙ ap (cut (buf ++ more) pos kind) (find_matching_brace-append buf more pos j e')
              ∙ ap some (
                  frame_at-extended buf more rest pos kind j lt brace
                  ∙ ap (extended more) same_frame),
          subst (λ (g : Frame). length g.rest < length buf) same_frame shorter,
        )
  ]
]

-- One frame more, in front of a run of the loop.
abbrev pub prepended : List Event → Parser × List Event → Parser × List Event
prepended events (p, later) = (p, events ++ later)

module _ (l : Library) where
  drain-none :
      (fuel : ℕ) (c : Calls) (buf : Bytes)
      → next_frame buf ≡ none
      → drain l fuel c buf ≡ (record { buffer = buf; calls = c }, [])
  unfolding drain
  drain-none zero c buf h = refl
  drain-none (suc fuel) c buf h = rw (h, drain) refl

  drain-some :
      (fuel : ℕ) (c : Calls) (buf : Bytes) (f : Frame)
      → next_frame buf ≡ some f
      → drain l (suc fuel) c buf
        ≡ prepended (process_frame l c f).1 (drain l fuel (process_frame l c f).0 f.rest)
  unfolding drain
  drain-some fuel c buf f h = rw (h, drain) refl

  -- Fuel above the length of the buffer makes no difference.
  drain_fuel :
      (n m : ℕ) (c : Calls) (buf : Bytes)
      → length buf < n
      → length buf < m
      → drain l n c buf ≡ drain l m c buf
  drain_fuel zero m c buf h k = absurd (omega arith)
  drain_fuel (suc n) zero c buf h k = absurd (omega arith)
  drain_fuel (suc n) (suc m) c buf h k = elim (Option-cases (next_frame buf)) [
    | inl e ↦ drain-none (suc n) c buf e ∙ sym (drain-none (suc m) c buf e)
    | inr (f, e) ↦
        let (_, shorter) = next_frame-append buf [] f e in
        drain-some n c buf f e
        ∙ ap (prepended (process_frame l c f).1)
            (drain_fuel n m (process_frame l c f).0 f.rest (omega arith) (omega arith))
        ∙ sym (drain-some m c buf f e)
  ]

  -- The loop goes on with more bytes.
  abbrev resumed : ℕ → Bytes → Parser × List Event → Parser × List Event
  resumed k more (p, events) = prepended events (drain l k p.calls (p.buffer ++ more))

  prepended-resumed :
      (k : ℕ) (more : Bytes) (events : List Event) (o : Parser × List Event)
      → prepended events (resumed k more o) ≡ resumed k more (prepended events o)
  prepended-resumed k more events (p, later) =
      let (p', events') = drain l k p.calls (p.buffer ++ more) in
      ap (λ es. (p', es)) (sym (append_assoc events later events'))

  -- A run over a buffer and then over more bytes is a run over all of them.
  drain-append :
      (n m k : ℕ) (c : Calls) (buf more : Bytes)
      → length buf < n
      → length buf + length more < m
      → length (drain l n c buf).0.buffer + length more < k
      → drain l m c (buf ++ more) ≡ resumed k more (drain l n c buf)
  unfolding process_frame
  drain-append zero m k c buf more h h' h'' = absurd (omega arith)
  drain-append (suc n) zero k c buf more h h' h'' = absurd (omega arith)
  drain-append (suc n) (suc m) k c buf more h h' h'' = elim (Option-cases (next_frame buf)) [
    | inl e ↦
        let all = length-append buf more in
        let none_cut = drain-none (suc n) c buf e in
        let enough : length buf + length more < k =
          subst (λ (o : Parser × List Event). length o.0.buffer + length more < k) none_cut h'' in
        drain_fuel (suc m) k c (buf ++ more) (omega (arith, all)) (omega (arith, all))
        ∙ sym (ap (resumed k more) none_cut)
    | inr (f, e) ↦
        let (again, shorter) = next_frame-append buf more f e in
        let (c', events) = process_frame l c f in
        let one_cut = drain-some n c buf f e in
        let enough : length (drain l n c' f.rest).0.buffer + length more < k =
          subst (λ (o : Parser × List Event). length o.0.buffer + length more < k) one_cut h'' in
        drain-some m c (buf ++ more) (extended more f) again
        ∙ ap (prepended events)
            (drain-append n m k c' f.rest more (omega arith) (omega arith) enough)
        ∙ prepended-resumed k more events (drain l n c' f.rest)
        ∙ sym (ap (resumed k more) one_cut)
  ]

  -- The chunks are fed in turn and the events joined.
  abbrev pub feed_all : Parser → List Bytes → Parser × List Event
  feed_all p [] = (p, [])
  feed_all p (chunk ∷ chunks) =
      let (p', events) = feed l p chunk in prepended events (feed_all p' chunks)

  -- The chunks, each one cleaned by itself, as one text.
  abbrev pub cleaned : List Bytes → Bytes
  cleaned [] = []
  cleaned (chunk ∷ chunks) = l.to_valid_utf8 chunk ++ cleaned chunks

  absorb-append :
      (p : Parser) (a b : Bytes)
      → absorb l p (a ++ b) ≡ (let (p', events) = absorb l p a in prepended events (absorb l p' b))
  unfolding absorb
  absorb-append p a b =
      let buf = p.buffer ++ a in
      let p' = (drain l (length buf + 1) p.calls buf).0 in
      let all = length-append p.buffer (a ++ b) in
      let first = length-append p.buffer a in
      let second = length-append a b in
      let last = length-append p'.buffer b in
      let whole = append_assoc p.buffer a b in
      ap (drain l (length (p.buffer ++ (a ++ b)) + 1) p.calls) (sym whole)
      ∙ drain-append (length buf + 1) (length (p.buffer ++ (a ++ b)) + 1)
          (length (p'.buffer ++ b) + 1) p.calls buf b (omega arith)
          (omega (arith, all, first, second)) (omega (arith, last))

  -- However a response is cut into chunks, the events are those of the whole text fed at once, and
  -- so are the bytes held back and the tool calls. Each chunk is cleaned of invalid UTF-8 by itself.
  pub feed_all-cleaned :
      (p : Parser) (chunk : Bytes) (chunks : List Bytes)
      → feed_all p (chunk ∷ chunks) ≡ absorb l p (cleaned (chunk ∷ chunks))
  unfolding feed
  feed_all-cleaned p chunk [] =
      let (p', events) = absorb l p (l.to_valid_utf8 chunk) in
      ap (λ es. (p', es)) (append-nil events)
      ∙ ap (absorb l p) (sym (append-nil (l.to_valid_utf8 chunk)))
  feed_all-cleaned p chunk (next ∷ chunks) =
      let (p', events) = absorb l p (l.to_valid_utf8 chunk) in
      ap (prepended events) (feed_all-cleaned p' next chunks)
      ∙ sym (absorb-append p (l.to_valid_utf8 chunk) (cleaned (next ∷ chunks)))
