-- ===== src/StreamingCore/Panics.antt =====
-- When `Finish` of the pipeline panics: on a tool call with an id that is no text.
use kiro_gateway_go.Common.{String, Option, none, some, List, [], ◌∷◌, ◌≡◌, ◌↔◌, refl, ap, some_inj}
use kiro_gateway_go.Json.{Fields, Value, null, boolean, number, string, array, object, as_string?}
use kiro_gateway_go.Parsers.ToolCalls.{Library, ToolCall}
use kiro_gateway_go.Parsers.Dedup as Dedup
use kiro_gateway_go.StreamingCore.{KiroEvent, ToolUseData, tool_use}
use kiro_gateway_go.StreamingCore.Pipeline.{
  Pipeline, extract_tool_use_data, or_no_fields, tool_use_data, add_tool_use, ended, tool_uses,
  finish,
}

abbrev pub TextId : ToolCall → Type 0
TextId tc = (s : String) × (tc.id ≡ string s)

abbrev pub TextIds : List ToolCall → Type 0
TextIds [] = Unit
TextIds (tc ∷ calls) = TextId tc × TextIds calls

as_string?-text : (v : Value) (s : String) → as_string? (some v) ≡ some s → v ≡ string s
as_string?-text (string t) s h = ap string (some_inj h)
as_string?-text null s h = absurd (cc h)
as_string?-text (boolean b) s h = absurd (cc h)
as_string?-text (number n) s h = absurd (cc h)
as_string?-text (array vs) s h = absurd (cc h)
as_string?-text (object _) s h = absurd (cc h)

add_tool_use_iff :
    (a : Option ToolUseData) (b : Option (List KiroEvent))
    → ((es : List KiroEvent) × (add_tool_use a b ≡ some es))
      ↔ (((tu : ToolUseData) × (a ≡ some tu)) × ((es : List KiroEvent) × (b ≡ some es)))
add_tool_use_iff (some tu) (some es) =
    (λ h. ((tu, refl), (es, refl)), λ h. (tool_use tu ∷ es, refl))
add_tool_use_iff (some tu) none = (λ h. absurd (cc h.1), λ h. absurd (cc h.1.1))
add_tool_use_iff none b = (λ h. absurd (cc h.1), λ h. absurd (cc h.0.1))

tool_use_data_iff :
    (tc : ToolCall) (input : Fields) (id : Option String)
    → ((tu : ToolUseData) × (tool_use_data tc input id ≡ some tu)) ↔ ((s : String) × (id ≡ some s))
tool_use_data_iff tc input none = (λ h. absurd (cc h.1), λ h. absurd (cc h.1))
tool_use_data_iff tc input (some id) = (λ h. (id, refl), λ h. (_, refl))

module _ (l : Library) where
  extract_iff :
      (tc : ToolCall) → ((tu : ToolUseData) × (extract_tool_use_data l tc ≡ some tu)) ↔ TextId tc
  unfolding extract_tool_use_data
  extract_iff tc =
      let input = or_no_fields (l.filled tc.arguments) in
      let (there, back) = tool_use_data_iff tc input (as_string? (some tc.id)) in
      (
        λ h. let (s, e) = there h in (s, as_string?-text tc.id s e),
        λ h. back (h.0, ap (λ v. as_string? (some v)) h.1),
      )

  tool_uses_iff :
      (calls : List ToolCall)
      → ((es : List KiroEvent) × (tool_uses l calls ≡ some es)) ↔ TextIds calls
  unfolding tool_uses
  tool_uses_iff [] = (λ h. tt, λ h. ([], refl))
  tool_uses_iff (tc ∷ calls) =
      let (there, back) = add_tool_use_iff (extract_tool_use_data l tc) (tool_uses l calls) in
      (
        λ h. ((extract_iff tc).0 (there h).0, (tool_uses_iff calls).0 (there h).1),
        λ h. back ((extract_iff tc).1 h.0, (tool_uses_iff calls).1 h.1),
      )

  ended_iff :
      (p : Pipeline) (first : List KiroEvent) (calls : Option (List KiroEvent))
      → ((r : Pipeline × List KiroEvent) × (ended p first calls ≡ some r))
        ↔ ((es : List KiroEvent) × (calls ≡ some es))
  ended_iff p first none = (λ h. absurd (cc h.1), λ h. absurd (cc h.1))
  ended_iff p first (some es) = (λ h. (es, refl), λ h. (_, refl))

  -- `Finish` of the pipeline returns exactly when the id of every tool call, duplicates left out, is
  -- a text; otherwise its type assertion panics.
  pub finish_iff :
      (p : Pipeline)
      → ((r : Pipeline × List KiroEvent) × (finish l p ≡ some r))
        ↔ TextIds (Dedup.finish l p.parser).1
  unfolding finish
  finish_iff p =
      let calls = (Dedup.finish l p.parser).1 in
      let (there, back) = ended_iff _ _ (tool_uses l calls) in
      (λ h. (tool_uses_iff calls).0 (there h), λ h. back ((tool_uses_iff calls).1 h))
