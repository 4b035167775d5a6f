-- ===== src/StreamingCore/Order.antt =====
-- The pipeline sends the reasoning that it cuts out of the text before every content.
use kiro_gateway_go.Common.{
  Bool, Option, none, some, List, [], ◌∷◌, ◌++◌, ◌≡◌, refl, sym, ap, ◌∙◌, subst, some_inj,
}
use kiro_gateway_go.Common.Bytes.{Bytes}
use kiro_gateway_go.Json.{Fields, lookup}
use kiro_gateway_go.ThinkingParser.{streaming}
use kiro_gateway_go.ThinkingParser as Thinking
use kiro_gateway_go.ThinkingParser.Late.{finish-no_thinking}
use kiro_gateway_go.Parsers.ToolCalls.{Library, ToolCall}
use kiro_gateway_go.Parsers.Events as Events
use kiro_gateway_go.Parsers.Dedup as Dedup
use kiro_gateway_go.Parsers.Events.{Kind, Event}
use kiro_gateway_go.StreamingCore.{
  ToolUseData, tool_use, KiroEvent, in_order, seen_after, all_seen_after, AllInOrder,
}
use kiro_gateway_go.StreamingCore.Pipeline.{
  add_tool_use, ended, Pipeline, separated, field_text, convert, convert_all, diagnosis, feed,
  tool_uses, finish,
}
use kiro_gateway_go.StreamingCore.Steps.{
  AllInOrder-append, all_seen_after-append, Behind, Step, separated-AllInOrder, Neutral,
  Neutral-Step, nothing-Neutral, percentage-Neutral, native_thinking-Neutral,
  thinking_signature-Neutral, redacted_thinking-Neutral, content_events-Step, diagnosis-Neutral,
}

module _ (l : Library) (extract_usage_raw : Bytes → Option Bytes) where
  convert_kind-Step :
      (seen : Bool) (k : Kind) (raw : Bytes) (value : Fields) (p : Thinking.Parser)
      → Behind seen p
      → let (q, es) =
          convert l extract_usage_raw (record { kind = k; raw = raw; value = value }) p in
        Step seen es q
  unfolding convert in_order seen_after all_seen_after
  convert_kind-Step seen Kind.content raw value p h =
      content_events-Step seen (lookup "content" value) p h
  convert_kind-Step seen Kind.usage raw value p h = ((refl, tt), h)
  convert_kind-Step seen Kind.context_usage raw value p h =
      Neutral-Step seen _ p (percentage-Neutral (lookup "contextUsagePercentage" value)) h
  convert_kind-Step seen Kind.reasoning_text raw value p h =
      Neutral-Step seen _ p (native_thinking-Neutral (field_text "text" value)) h
  convert_kind-Step seen Kind.reasoning_signature raw value p h =
      Neutral-Step seen _ p (thinking_signature-Neutral (field_text "signature" value)) h
  convert_kind-Step seen Kind.reasoning_redacted raw value p h =
      Neutral-Step seen _ p (redacted_thinking-Neutral (field_text "redactedContent" value)) h
  convert_kind-Step seen Kind.refusal raw value p h = ((refl, tt), h)
  convert_kind-Step seen Kind.tool_start raw value p h = Neutral-Step seen [] p nothing-Neutral h
  convert_kind-Step seen Kind.tool_input raw value p h = Neutral-Step seen [] p nothing-Neutral h
  convert_kind-Step seen Kind.tool_stop raw value p h = Neutral-Step seen [] p nothing-Neutral h
  convert_kind-Step seen Kind.followup raw value p h = Neutral-Step seen [] p nothing-Neutral h
  convert_kind-Step seen Kind.metadata raw value p h = Neutral-Step seen [] p nothing-Neutral h

  convert_all-Step :
      (events : List Event) (seen : Bool) (p : Thinking.Parser)
      → Behind seen p
      → let (q, es) = convert_all l extract_usage_raw events p in Step seen es q
  unfolding convert_all
  convert_all-Step [] seen p h = Neutral-Step seen [] p nothing-Neutral h
  convert_all-Step (e ∷ events) seen p h =
      let (q, es) = convert l extract_usage_raw e p in
      let es' = (convert_all l extract_usage_raw events q).1 in
      let (now, behind) = convert_kind-Step seen e.kind e.raw e.value p h in
      let (later, behind') = convert_all-Step events (all_seen_after seen es) q behind in
      (
        AllInOrder-append seen es es' now later,
        λ b. behind' (sym (all_seen_after-append seen es es') ∙ b),
      )

  -- One chunk of the response.
  pub feed-AllInOrder :
      (seen : Bool) (p : Pipeline) (chunk : Bytes)
      → Behind seen p.thinking
      → let (q, es) = feed l extract_usage_raw p chunk in
        AllInOrder seen es × Behind (all_seen_after seen es) q.thinking
  unfolding feed
  feed-AllInOrder seen p chunk h =
      let (parser, events) = Events.feed l p.parser chunk in
      let es = (convert_all l extract_usage_raw events p.thinking).1 in
      let (now, behind) = convert_all-Step events seen p.thinking h in
      let (last, same) = diagnosis-Neutral parser.calls.last_truncation (all_seen_after seen es) in
      (
        AllInOrder-append seen es _ now last,
        λ b. behind (sym same ∙ sym (all_seen_after-append seen es _) ∙ b),
      )

add_tool_use-some :
    (a : Option ToolUseData) (b : Option (List KiroEvent)) (es : List KiroEvent)
    → add_tool_use a b ≡ some es
    → (tu : ToolUseData) × (es' : List KiroEvent) × (b ≡ some es') × (tool_use tu ∷ es' ≡ es)
add_tool_use-some (some tu) (some es') es h = (tu, es', refl, some_inj h)
add_tool_use-some (some tu) none es h = absurd (cc h)
add_tool_use-some none b es h = absurd (cc h)

tool_uses-Neutral :
    (l : Library) (calls : List ToolCall) (es : List KiroEvent)
    → tool_uses l calls ≡ some es
    → Neutral es
unfolding tool_uses in_order seen_after all_seen_after
tool_uses-Neutral l [] es h seen =
    subst (λ x. AllInOrder seen x × (all_seen_after seen x ≡ seen)) (some_inj h) (tt, refl)
tool_uses-Neutral l (tc ∷ calls) es h seen =
    let (tu, es', h', e) = add_tool_use-some _ (tool_uses l calls) es h in
    let (now, same) = tool_uses-Neutral l calls es' h' seen in
    subst (λ x. AllInOrder seen x × (all_seen_after seen x ≡ seen)) e ((refl, now), same)

ended-some :
    (p q : Pipeline) (first : List KiroEvent) (calls : Option (List KiroEvent))
    (es : List KiroEvent)
    → ended p first calls ≡ some (q, es)
    → (mid : List KiroEvent) × (calls ≡ some mid)
      × (first ++ (mid ++ diagnosis p.parser.calls.last_truncation) ≡ es)
unfolding diagnosis
ended-some p q first none es h = absurd (cc h)
ended-some p q first (some mid) es h =
    (mid, refl, ap (λ (r : Pipeline × List KiroEvent). r.1) (some_inj h))

-- The events at the end of the response.
pub finish-AllInOrder :
    (l : Library) (seen : Bool) (p q : Pipeline) (es : List KiroEvent)
    → Behind seen p.thinking
    → finish l p ≡ some (q, es)
    → AllInOrder seen es
unfolding finish
finish-AllInOrder l seen p q es h e =
    let o = Thinking.finish p.thinking in
    let (parser, calls) = Dedup.finish l p.parser in
    let first = separated o.thinking o.content in
    let (mid, some_calls, whole) = ended-some _ q first (tool_uses l calls) es e in
    let (calls_now, calls_same) =
      tool_uses-Neutral l calls mid some_calls (all_seen_after seen first) in
    let (last, _) =
      diagnosis-Neutral parser.calls.last_truncation
        (all_seen_after (all_seen_after seen first) mid) in
    subst (AllInOrder seen) whole (
      AllInOrder-append seen first _
        (separated-AllInOrder seen o.thinking o.content (λ b. finish-no_thinking p.thinking (h b)))
        (AllInOrder-append (all_seen_after seen first) mid _ calls_now last))
