-- ===== src/Converters/Tools/Sanitized.antt =====
-- What `SanitizeJSONSchema` leaves of a schema and of the schemas within it.
use kiro_gateway_go.Common.{
  String, ◌∷◌, Bool, true, false, str_eq, eq_iff, Bool-cases, ◌≡◌, refl, sym, ap, ◌∙◌, subst, inl,
  inr, ◌↔◌,
}
use kiro_gateway_go.Json.{
  Value, Values, Fields, null, boolean, number, string, array, object, end, item, no_fields, field,
}
use kiro_gateway_go.Converters.Tools.{is_dropped, sanitize_json_schema}
use kiro_gateway_go.Converters.Tools.Clean.{
  is_clean, is_clean_value, is_clean_schema, are_clean_properties, are_clean, left, halves,
  all_three, both, sanitize_json_schema_cleaned, sanitize_json_schema_kept,
}
use kiro_gateway_go.Converters.Tools.Within.{
  Has, Among, Within, Clean, keys, kept_keys, is_dropped-is_fault, Fault-is_dropped,
  is_dropped-Fault,
}

kept_fields : (fs : Fields) → keys (sanitize_json_schema fs) ≡ kept_keys fs
unfolding sanitize_json_schema
kept_fields no_fields = refl
kept_fields (field key value fs) =
    let same = is_dropped-is_fault key value in
    elim (Bool-cases (is_dropped key value)) [
      | inl e ↦ rw (e, sym same ∙ e) (kept_fields fs)
      | inr n ↦ rw (n, sym same ∙ n) (ap (λ ks. key ∷ ks) (kept_fields fs))
    ]

-- What the tests say of a field, of a property and of an object in a list.
field_clean :
    (key : String) (value : Value) (fs : Fields)
    → is_clean fs ≡ true
    → Has key value fs
    → (is_dropped key value ≡ false) × (is_clean_value (str_eq key "properties") value ≡ true)
unfolding is_clean
field_clean key value fs h (Has.here rest) =
    let (kept, clean, _) =
      left (is_dropped key value) (is_clean_value (str_eq key "properties") value) (is_clean rest)
        h in
    (kept, clean)
field_clean key value fs h (Has.there k v rest has) =
    let (_, _, clean) =
      left (is_dropped k v) (is_clean_value (str_eq k "properties") v) (is_clean rest) h in
    field_clean key value rest clean has

property_clean :
    (name : String) (t props : Fields)
    → are_clean_properties props ≡ true
    → Has name (object t) props
    → is_clean t ≡ true
unfolding is_clean
property_clean name t props h (Has.here rest) =
    (halves (is_clean t) (are_clean_properties rest) h).0
property_clean name t props h (Has.there k v rest has) =
    property_clean name t rest (halves (is_clean_schema v) (are_clean_properties rest) h).1 has

item_clean :
    (t : Fields) (items : Values)
    → are_clean items ≡ true
    → Among (object t) items
    → is_clean t ≡ true
unfolding is_clean
item_clean t items h (Among.first rest) = (halves (is_clean t) (are_clean rest) h).0
item_clean t items h (Among.later v rest among) =
    item_clean t rest (halves (is_clean_schema v) (are_clean rest) h).1 among

array_clean : (b : Bool) (items : Values) → is_clean_value b (array items) ≡ are_clean items
unfolding is_clean
array_clean true items = refl
array_clean false items = refl

object_clean :
    (key : String) (t : Fields)
    → ¬ (key ≡ "properties")
    → is_clean_value (str_eq key "properties") (object t) ≡ is_clean t
unfolding is_clean
object_clean key t other = elim (Bool-cases (str_eq key "properties")) [
  | inl e ↦ absurd (other ((eq_iff key "properties").0 e))
  | inr n ↦ rw n refl
]

tested_inside : (s fs : Fields) → is_clean fs ≡ true → Within s fs → is_clean s ≡ true
unfolding is_clean
tested_inside s fs h Within.itself = h
tested_inside s fs h (Within.nested key t fs' other has within) =
    tested_inside s t (sym (object_clean key t other) ∙ (field_clean key (object t) fs h has).1)
      within
tested_inside s fs h (Within.property name t props fs' has prop within) =
    tested_inside s t
      (property_clean name t props (field_clean "properties" (object props) fs h has).1 prop) within
tested_inside s fs h (Within.listed key t items fs' has among within) =
    tested_inside s t
      (item_clean t items
        (sym (array_clean (str_eq key "properties") items)
          ∙ (field_clean key (array items) fs h has).1)
        among)
      within

is_clean-Clean : (fs : Fields) → is_clean fs ≡ true → Clean fs
is_clean-Clean fs h s within key value has fault =
    let kept = (field_clean key value s (tested_inside s fs h within) has).0 in
    let dropped = Fault-is_dropped key value fault in absurd (cc)

-- The fields behind the first one of a clean schema.
rest-Clean : (key : String) (value : Value) (fs : Fields) → Clean (field key value fs) → Clean fs
rest-Clean key value fs h s Within.itself =
    λ k v has. h (field key value fs) Within.itself k v (Has.there key value fs has)
rest-Clean key value fs h s (Within.nested k t fs' other has within) =
    h s (Within.nested k t (field key value fs) other (Has.there key value fs has) within)
rest-Clean key value fs h s (Within.property name t props fs' has prop within) =
    h s (Within.property name t props (field key value fs) (Has.there key value fs has) prop within)
rest-Clean key value fs h s (Within.listed k t items fs' has among within) =
    h s (Within.listed k t items (field key value fs) (Has.there key value fs has) among within)

-- What stands as the value of a key, which may be "properties", is clean.
abbrev ValueClean : Bool → Value → Type 0
ValueClean true (object props) = (name : String) (t : Fields) → Has name (object t) props → Clean t
ValueClean false (object t) = Clean t
ValueClean _ (array items) = (t : Fields) → Among (object t) items → Clean t
ValueClean _ _ = Unit

value-ValueClean :
    (key : String) (value : Value) (fs : Fields)
    → Clean (field key value fs)
    → (b : Bool) → str_eq key "properties" ≡ b
    → ValueClean b value
value-ValueClean key (object props) fs h true e = λ name t has s within. h s (
    Within.property name t props (field key (object props) fs)
      (subst (λ k. Has "properties" (object props) (field k (object props) fs))
        (sym ((eq_iff key "properties").0 e)) (Has.here fs))
      has within)
value-ValueClean key (object t) fs h false e = λ s within. h s (
    Within.nested key t (field key (object t) fs)
      (λ same. let yes = (eq_iff key "properties").1 same in absurd (cc)) (Has.here fs) within)
value-ValueClean key (array items) fs h true e = λ t among s within.
    h s (Within.listed key t items (field key (array items) fs) (Has.here fs) among within)
value-ValueClean key (array items) fs h false e = λ t among s within.
    h s (Within.listed key t items (field key (array items) fs) (Has.here fs) among within)
value-ValueClean key null fs h true e = tt
value-ValueClean key (boolean x) fs h true e = tt
value-ValueClean key (number x) fs h true e = tt
value-ValueClean key (string x) fs h true e = tt
value-ValueClean key null fs h false e = tt
value-ValueClean key (boolean x) fs h false e = tt
value-ValueClean key (number x) fs h false e = tt
value-ValueClean key (string x) fs h false e = tt

mutual
  unfolding is_clean

  Clean-is_clean : (fs : Fields) → Clean fs → is_clean fs ≡ true
  Clean-is_clean no_fields h = refl
  Clean-is_clean (field key value fs) h =
      let value_clean =
        ValueClean-is_clean (str_eq key "properties") value
          (value-ValueClean key value fs h (str_eq key "properties") refl) in
      let rest_clean = Clean-is_clean fs (rest-Clean key value fs h) in
      elim (Bool-cases (is_dropped key value)) [
        | inl e ↦ absurd (
            h (field key value fs) Within.itself key value (Has.here fs)
              (is_dropped-Fault key value e))
        | inr n ↦
            all_three (is_dropped key value) (is_clean_value (str_eq key "properties") value)
              (is_clean fs) n value_clean rest_clean
      ]

  ValueClean-is_clean :
      (b : Bool) (value : Value) → ValueClean b value → is_clean_value b value ≡ true
  ValueClean-is_clean true (object props) h = properties_tested props h
  ValueClean-is_clean false (object t) h = Clean-is_clean t h
  ValueClean-is_clean true (array items) h = items_tested items h
  ValueClean-is_clean false (array items) h = items_tested items h
  ValueClean-is_clean true null h = refl
  ValueClean-is_clean true (boolean x) h = refl
  ValueClean-is_clean true (number x) h = refl
  ValueClean-is_clean true (string x) h = refl
  ValueClean-is_clean false null h = refl
  ValueClean-is_clean false (boolean x) h = refl
  ValueClean-is_clean false (number x) h = refl
  ValueClean-is_clean false (string x) h = refl

  schema_tested :
      (value : Value) → ((t : Fields) → value ≡ object t → Clean t) → is_clean_schema value ≡ true
  schema_tested (object t) h = Clean-is_clean t (h t refl)
  schema_tested (array items) h = refl
  schema_tested null h = refl
  schema_tested (boolean x) h = refl
  schema_tested (number x) h = refl
  schema_tested (string x) h = refl

  properties_tested :
      (props : Fields)
      → ((name : String) (t : Fields) → Has name (object t) props → Clean t)
      → are_clean_properties props ≡ true
  properties_tested no_fields h = refl
  properties_tested (field name value props) h =
      both (is_clean_schema value) (are_clean_properties props)
        (schema_tested value (λ t same.
          h name t (subst (λ v. Has name v (field name value props)) same (Has.here props))))
        (properties_tested props (λ k t has. h k t (Has.there name value props has)))

  items_tested :
      (items : Values) → ((t : Fields) → Among (object t) items → Clean t) → are_clean items ≡ true
  items_tested end h = refl
  items_tested (item value items) h =
      both (is_clean_schema value) (are_clean items)
        (schema_tested value
          (λ t same. h t (subst (λ v. Among v (item value items)) same (Among.first items))))
        (items_tested items (λ t among. h t (Among.later value items among)))

-- In a sanitised schema no schema that stands within it, at any depth, has the key
-- "additionalProperties" or an empty list for "required"; a schema is left as it is exactly if that
-- already holds of it; and of the keys of a schema exactly those two kinds of field go, the others
-- stay in their order. Within it stand the objects of its keys other than "properties", those of
-- its properties and those of its lists; lists within lists and properties that are lists are not
-- looked into.
pub sanitize_json_schema_lem :
    (fields : Fields)
    → Clean (sanitize_json_schema fields)
      × (Clean fields ↔ (sanitize_json_schema fields ≡ fields))
      × (keys (sanitize_json_schema fields) ≡ kept_keys fields)
sanitize_json_schema_lem fields =
    let sanitized =
      is_clean-Clean (sanitize_json_schema fields) (sanitize_json_schema_cleaned fields) in
    (
      sanitized,
      (
        λ h. sanitize_json_schema_kept fields (Clean-is_clean fields h),
        λ same. subst Clean same sanitized,
      ),
      kept_fields fields,
    )
