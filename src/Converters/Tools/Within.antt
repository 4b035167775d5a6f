-- ===== src/Converters/Tools/Within.antt =====
-- Which schemas stand within a JSON schema, and which of their fields Kiro refuses, said apart from the
-- recursion and the tests of `SanitizeJSONSchema`.
use kiro_gateway_go.Common.{
  String, List, [], ◌∷◌, Bool, true, false, ◌&&◌, ◌||◌, str_eq, eq_iff, if◌then◌else◌, ◌≡◌, refl,
  sym, ap, ◌∙◌, subst, ◌⊎◌, inl, inr,
}
use kiro_gateway_go.Json.{
  Value, Values, Fields, null, boolean, number, string, array, object, end, item, no_fields, field,
}
use kiro_gateway_go.Converters.Tools.{is_empty_array, is_dropped}

pub data Has (key : String) (value : Value) : Fields → Type 0 where
  here : (fs : Fields) → Has key value (field key value fs)
  there : (k : String) (v : Value) (fs : Fields) → Has key value fs → Has key value (field k v fs)

pub data Among (value : Value) : Values → Type 0 where
  first : (vs : Values) → Among value (item value vs)
  later : (v : Value) (vs : Values) → Among value vs → Among value (item v vs)

-- The schema `s` stands within a schema: it is that schema, or it stands within the object of a key
-- other than "properties", within the object of a property, or within an object of a list.
pub data Within (s : Fields) : Fields → Type 0 where
  itself : Within s s
  nested :
      (key : String) (t fs : Fields)
      → ¬ (key ≡ "properties")
      → Has key (object t) fs
      → Within s t
      → Within s fs
  property :
      (name : String) (t props fs : Fields)
      → Has "properties" (object props) fs
      → Has name (object t) props
      → Within s t
      → Within s fs
  listed :
      (key : String) (t : Fields) (items : Values) (fs : Fields)
      → Has key (array items) fs
      → Among (object t) items
      → Within s t
      → Within s fs

-- What Kiro refuses.
abbrev pub Fault : String → Value → Type 0
Fault key value = (key ≡ "additionalProperties") ⊎ ((key ≡ "required") × (value ≡ array end))

abbrev pub Faultless : Fields → Type 0
Faultless s = (key : String) (value : Value) → Has key value s → ¬ Fault key value

abbrev pub Clean : Fields → Type 0
Clean fs = (s : Fields) → Within s fs → Faultless s

abbrev pub is_fault : String → Value → Bool
is_fault key (array end) = str_eq key "required" || str_eq key "additionalProperties"
is_fault key _ = str_eq key "additionalProperties"

abbrev pub keys : Fields → List String
keys no_fields = []
keys (field key _ fs) = key ∷ keys fs

abbrev pub kept_keys : Fields → List String
kept_keys no_fields = []
kept_keys (field key value fs) =
    let rest = kept_keys fs in if is_fault key value then rest else key ∷ rest

and_true : (a : Bool) → (a && true) ≡ a
and_true true = refl
and_true false = refl

and_false : (a : Bool) → (a && false) ≡ false
and_false true = refl
and_false false = refl

pub is_dropped-is_fault : (key : String) (value : Value) → is_dropped key value ≡ is_fault key value
unfolding is_dropped
is_dropped-is_fault key (array end) =
    ap (λ b. b || str_eq key "additionalProperties") (and_true (str_eq key "required"))
is_dropped-is_fault key (array (item v vs)) =
    ap (λ b. b || str_eq key "additionalProperties") (and_false (str_eq key "required"))
is_dropped-is_fault key null =
    ap (λ b. b || str_eq key "additionalProperties") (and_false (str_eq key "required"))
is_dropped-is_fault key (boolean x) =
    ap (λ b. b || str_eq key "additionalProperties") (and_false (str_eq key "required"))
is_dropped-is_fault key (number x) =
    ap (λ b. b || str_eq key "additionalProperties") (and_false (str_eq key "required"))
is_dropped-is_fault key (string x) =
    ap (λ b. b || str_eq key "additionalProperties") (and_false (str_eq key "required"))
is_dropped-is_fault key (object fs) =
    ap (λ b. b || str_eq key "additionalProperties") (and_false (str_eq key "required"))

additional_dropped :
    (key : String) → key ≡ "additionalProperties" → (value : Value) → is_dropped key value ≡ true
unfolding is_dropped
additional_dropped key e value = subst (λ k. is_dropped k value ≡ true) (sym e) refl

required_dropped : (key : String) → key ≡ "required" → is_dropped key (array end) ≡ true
unfolding is_dropped
required_dropped key e = subst (λ k. is_dropped k (array end) ≡ true) (sym e) refl

pub Fault-is_dropped :
    (key : String) (value : Value) → Fault key value → is_dropped key value ≡ true
Fault-is_dropped key value (inl e) = additional_dropped key e value
Fault-is_dropped key value (inr (e, f)) = ap (is_dropped key) f ∙ required_dropped key e

either : (a b c : Bool) → (a && b) || c ≡ true → (c ≡ true) ⊎ ((a ≡ true) × (b ≡ true))
either a b true h = inl refl
either true true false h = inr (refl, refl)
either true false false h = absurd (cc)
either false b false h = absurd (cc)

empty : (value : Value) → is_empty_array value ≡ true → value ≡ array end
empty (array end) h = refl
empty (array (item v vs)) h = absurd (cc h)
empty null h = absurd (cc h)
empty (boolean x) h = absurd (cc h)
empty (number x) h = absurd (cc h)
empty (string x) h = absurd (cc h)
empty (object fs) h = absurd (cc h)

pub is_dropped-Fault :
    (key : String) (value : Value) → is_dropped key value ≡ true → Fault key value
unfolding is_dropped
is_dropped-Fault key value h =
    elim (either (str_eq key "required") (is_empty_array value) (str_eq key "additionalProperties")
      h) [
        | inl e ↦ inl ((eq_iff key "additionalProperties").0 e)
        | inr (e, f) ↦ inr ((eq_iff key "required").0 e, empty value f)
      ]
