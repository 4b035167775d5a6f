-- ===== src/StreamingCore/Steps.antt =====
-- The events of one piece of text, and the events that may come at any time.
use kiro_gateway_go.Common.{
  Bool, true, false, Option, none, some, List, [], ◌∷◌, ◌++◌, ◌≡◌, inl, inr, refl, sym, ap, ◌∙◌,
  if◌then◌else◌,
}
use kiro_gateway_go.Common.Bytes.{Bytes, is_empty}
use kiro_gateway_go.Common.Utf8.{utf8}
use kiro_gateway_go.Json.{Value, null, boolean, number, string, array, object, as_string}
use kiro_gateway_go.ThinkingParser.{streaming}
use kiro_gateway_go.ThinkingParser as Thinking
use kiro_gateway_go.ThinkingParser.Late.{feed-Late, feed-streaming}
use kiro_gateway_go.Parsers.Truncation.{TruncationInfo}
use kiro_gateway_go.StreamingCore.{
  native_thinking, thinking_signature, redacted_thinking, KiroEvent, in_order, seen_after,
  all_seen_after, AllInOrder,
}
use kiro_gateway_go.StreamingCore.Pipeline.{
  content_events, separated, percentage, unless_empty, diagnosis,
}

pub AllInOrder-append :
    (seen : Bool) (es es' : List KiroEvent)
    → AllInOrder seen es
    → AllInOrder (all_seen_after seen es) es'
    → AllInOrder seen (es ++ es')
unfolding all_seen_after
AllInOrder-append seen [] es' h h' = h'
AllInOrder-append seen (e ∷ es) es' h h' =
    (h.0, AllInOrder-append (seen_after seen e) es es' h.1 h')

pub all_seen_after-append :
    (seen : Bool) (es es' : List KiroEvent)
    → all_seen_after seen (es ++ es') ≡ all_seen_after (all_seen_after seen es) es'
unfolding all_seen_after
all_seen_after-append seen [] es' = refl
all_seen_after-append seen (e ∷ es) es' = all_seen_after-append (seen_after seen e) es es'

-- Once a content has been seen, the thinking parser is in its last state.
abbrev pub Behind : Bool → Thinking.Parser → Type 0
Behind seen p = seen ≡ true → p.state ≡ streaming

-- Events that may come now, behind which the parser is `q`.
abbrev pub Step : Bool → List KiroEvent → Thinking.Parser → Type 0
Step seen es q = AllInOrder seen es × Behind (all_seen_after seen es) q

pub separated-AllInOrder :
    (seen : Bool) (t s : Bytes) → (seen ≡ true → t ≡ []) → AllInOrder seen (separated t s)
unfolding separated in_order seen_after
separated-AllInOrder seen [] [] h = tt
separated-AllInOrder seen [] (c ∷ s) h = (refl, tt)
separated-AllInOrder false (d ∷ t) [] h = (refl, tt)
separated-AllInOrder false (d ∷ t) (c ∷ s) h = (refl, (refl, tt))
separated-AllInOrder true (d ∷ t) s h = absurd (cc (h refl))

separated-seen :
    (seen : Bool) (t s : Bytes)
    → all_seen_after seen (separated t s) ≡ (if is_empty s then seen else true)
unfolding separated all_seen_after seen_after
separated-seen seen [] [] = refl
separated-seen seen [] (c ∷ s) = refl
separated-seen seen (d ∷ t) [] = refl
separated-seen seen (d ∷ t) (c ∷ s) = refl

feed-Step :
    (seen : Bool) (p : Thinking.Parser) (s : Bytes)
    → Behind seen p
    → let o = Thinking.feed p s in Step seen (separated o.thinking o.content) o.parser
feed-Step seen p s h =
    let o = Thinking.feed p s in
    (
      separated-AllInOrder seen o.thinking o.content (λ e. (feed-streaming p s (h e)).0),
      λ e. elim (feed-Late p s) [
        | inl empty ↦
            let before : seen ≡ true =
              sym (
                separated-seen seen o.thinking o.content
                ∙ ap (λ c. if is_empty c then seen else true) empty)
              ∙ e in
            (feed-streaming p s (h before)).1
        | inr last ↦ last
      ],
    )

-- Events that may come at any time and show no content.
abbrev pub Neutral : List KiroEvent → Type 0
Neutral es = (seen : Bool) → AllInOrder seen es × (all_seen_after seen es ≡ seen)

pub Neutral-Step :
    (seen : Bool) (es : List KiroEvent) (p : Thinking.Parser)
    → Neutral es
    → Behind seen p
    → Step seen es p
Neutral-Step seen es p n h = ((n seen).0, λ e. h (sym (n seen).1 ∙ e))

pub nothing-Neutral : Neutral []
unfolding all_seen_after
nothing-Neutral seen = (tt, refl)

pub percentage-Neutral : (v : Option Value) → Neutral (percentage v)
unfolding all_seen_after in_order seen_after
percentage-Neutral (some (number n)) seen = ((refl, tt), refl)
percentage-Neutral none seen = (tt, refl)
percentage-Neutral (some null) seen = (tt, refl)
percentage-Neutral (some (boolean b)) seen = (tt, refl)
percentage-Neutral (some (string s)) seen = (tt, refl)
percentage-Neutral (some (array vs)) seen = (tt, refl)
percentage-Neutral (some (object _)) seen = (tt, refl)

pub native_thinking-Neutral : (s : Bytes) → Neutral (unless_empty native_thinking s)
unfolding all_seen_after in_order seen_after
native_thinking-Neutral [] seen = (tt, refl)
native_thinking-Neutral (c ∷ s) seen = ((refl, tt), refl)

pub thinking_signature-Neutral : (s : Bytes) → Neutral (unless_empty thinking_signature s)
unfolding all_seen_after in_order seen_after
thinking_signature-Neutral [] seen = (tt, refl)
thinking_signature-Neutral (c ∷ s) seen = ((refl, tt), refl)

pub redacted_thinking-Neutral : (s : Bytes) → Neutral (unless_empty redacted_thinking s)
unfolding all_seen_after in_order seen_after
redacted_thinking-Neutral [] seen = (tt, refl)
redacted_thinking-Neutral (c ∷ s) seen = ((refl, tt), refl)

pub content_events-Step :
    (seen : Bool) (v : Option Value) (p : Thinking.Parser)
    → Behind seen p
    → let (q, es) = content_events v p in Step seen es q
unfolding content_events
content_events-Step seen none p h = Neutral-Step seen [] p nothing-Neutral h
content_events-Step seen (some v) p h = feed-Step seen p (utf8 (as_string (some v))) h

pub diagnosis-Neutral : (t : Option TruncationInfo) → Neutral (diagnosis t)
unfolding diagnosis all_seen_after in_order seen_after
diagnosis-Neutral none seen = (tt, refl)
diagnosis-Neutral (some info) seen = ((refl, tt), refl)
