-- ===== src/Converters/Tools/Clean.antt =====
-- The tests that `SanitizeJSONSchema` leaves satisfied, along its own recursion. What they mean for the
-- schemas within a schema is said in Within.
use kiro_gateway_go.Common.{
  String, ◌||◌, ◌≡◌, refl, ap, ◌∙◌, Bool, true, false, not, ◌&&◌, str_eq, inl, inr, Bool-cases,
}
use kiro_gateway_go.Json.{
  Value, Values, Fields, null, boolean, number, string, array, object, end, item, no_fields, field,
}
use kiro_gateway_go.Converters.Tools.{
  is_empty_array, is_dropped, sanitize_json_schema, sanitize_value, sanitize_schema,
  sanitize_properties, sanitize_schema_list,
}

-- No field is left that the code drops.
unfoldable mutual
  pub is_clean : Fields → Bool
  is_clean no_fields = true
  is_clean (field key value fields) =
      not (is_dropped key value)
      && (is_clean_value (str_eq key "properties") value && is_clean fields)

  pub is_clean_value : Bool → Value → Bool
  is_clean_value true (object props) = are_clean_properties props
  is_clean_value false (object fields) = is_clean fields
  is_clean_value b (array items) = are_clean items
  is_clean_value b _ = true

  pub is_clean_schema : Value → Bool
  is_clean_schema (object fields) = is_clean fields
  is_clean_schema _ = true

  pub are_clean_properties : Fields → Bool
  are_clean_properties no_fields = true
  are_clean_properties (field name value props) =
      is_clean_schema value && are_clean_properties props

  pub are_clean : Values → Bool
  are_clean end = true
  are_clean (item value items) = is_clean_schema value && are_clean items

is_empty_array-sanitize_value :
    (b : Bool) (value : Value) → is_empty_array (sanitize_value b value) ≡ is_empty_array value
unfolding sanitize_json_schema
is_empty_array-sanitize_value true (object props) = refl
is_empty_array-sanitize_value false (object fs) = refl
is_empty_array-sanitize_value b (array end) = refl
is_empty_array-sanitize_value b (array (item v items)) = refl
is_empty_array-sanitize_value b null = refl
is_empty_array-sanitize_value b (boolean x) = refl
is_empty_array-sanitize_value b (number x) = refl
is_empty_array-sanitize_value b (string x) = refl

is_dropped-sanitize_value :
    (b : Bool) (key : String) (value : Value)
    → is_dropped key (sanitize_value b value) ≡ is_dropped key value
unfolding is_dropped
is_dropped-sanitize_value b key value =
    ap (λ empty. (str_eq key "required" && empty) || str_eq key "additionalProperties")
      (is_empty_array-sanitize_value b value)

-- Three tests that hold.
pub all_three : (a b c : Bool) → a ≡ false → b ≡ true → c ≡ true → not a && (b && c) ≡ true
all_three false true true h k l = refl
all_three true b c h k l = absurd (cc)
all_three false false c h k l = absurd (cc)
all_three false true false h k l = absurd (cc)

pub both : (a b : Bool) → a ≡ true → b ≡ true → a && b ≡ true
both true true h k = refl
both false b h k = h
both true false h k = k

mutual
  unfolding sanitize_json_schema is_clean

  pub sanitize_json_schema_cleaned :
      (fields : Fields) → is_clean (sanitize_json_schema fields) ≡ true
  sanitize_json_schema_cleaned no_fields = refl
  sanitize_json_schema_cleaned (field key value fields) = elim (Bool-cases (is_dropped key value)) [
    | inl e ↦ rw e (sanitize_json_schema_cleaned fields)
    | inr e ↦ rw e (
        all_three _ _ _ (is_dropped-sanitize_value (str_eq key "properties") key value ∙ e)
          (sanitize_value_cleaned (str_eq key "properties") value)
          (sanitize_json_schema_cleaned fields))
  ]

  sanitize_value_cleaned :
      (b : Bool) (value : Value) → is_clean_value b (sanitize_value b value) ≡ true
  sanitize_value_cleaned true (object props) = sanitize_properties_cleaned props
  sanitize_value_cleaned false (object fields) = sanitize_json_schema_cleaned fields
  sanitize_value_cleaned true (array items) = sanitize_schema_list_cleaned items
  sanitize_value_cleaned false (array items) = sanitize_schema_list_cleaned items
  sanitize_value_cleaned true null = refl
  sanitize_value_cleaned true (boolean x) = refl
  sanitize_value_cleaned true (number x) = refl
  sanitize_value_cleaned true (string x) = refl
  sanitize_value_cleaned false null = refl
  sanitize_value_cleaned false (boolean x) = refl
  sanitize_value_cleaned false (number x) = refl
  sanitize_value_cleaned false (string x) = refl

  sanitize_schema_cleaned : (value : Value) → is_clean_schema (sanitize_schema value) ≡ true
  sanitize_schema_cleaned (object fields) = sanitize_json_schema_cleaned fields
  sanitize_schema_cleaned (array items) = refl
  sanitize_schema_cleaned null = refl
  sanitize_schema_cleaned (boolean x) = refl
  sanitize_schema_cleaned (number x) = refl
  sanitize_schema_cleaned (string x) = refl

  sanitize_properties_cleaned :
      (props : Fields) → are_clean_properties (sanitize_properties props) ≡ true
  sanitize_properties_cleaned no_fields = refl
  sanitize_properties_cleaned (field name value props) =
      both _ _ (sanitize_schema_cleaned value) (sanitize_properties_cleaned props)

  sanitize_schema_list_cleaned : (items : Values) → are_clean (sanitize_schema_list items) ≡ true
  sanitize_schema_list_cleaned end = refl
  sanitize_schema_list_cleaned (item value items) =
      both _ _ (sanitize_schema_cleaned value) (sanitize_schema_list_cleaned items)

pub left : (a b c : Bool) → not a && (b && c) ≡ true → (a ≡ false) × (b ≡ true) × (c ≡ true)
left true b c h = absurd (cc)
left false true true h = (refl, refl, refl)
left false false c h = absurd (cc)
left false true false h = absurd (cc)

pub halves : (a b : Bool) → a && b ≡ true → (a ≡ true) × (b ≡ true)
halves true true h = (refl, refl)
halves true false h = absurd (cc)
halves false b h = absurd (cc)

mutual
  unfolding sanitize_json_schema is_clean

  pub sanitize_json_schema_kept :
      (fields : Fields) → is_clean fields ≡ true → sanitize_json_schema fields ≡ fields
  sanitize_json_schema_kept no_fields h = refl
  sanitize_json_schema_kept (field key value fields) h =
      let (kept, value_clean, rest_clean) =
        left (is_dropped key value) (is_clean_value (str_eq key "properties") value)
          (is_clean fields) h in
      rw kept (
        ap (λ v. field key v (sanitize_json_schema fields))
          (sanitize_value_kept (str_eq key "properties") value value_clean)
        ∙ ap (field key value) (sanitize_json_schema_kept fields rest_clean))

  sanitize_value_kept :
      (b : Bool) (value : Value) → is_clean_value b value ≡ true → sanitize_value b value ≡ value
  sanitize_value_kept true (object props) h = ap object (sanitize_properties_kept props h)
  sanitize_value_kept false (object fields) h = ap object (sanitize_json_schema_kept fields h)
  sanitize_value_kept true (array items) h = ap array (sanitize_schema_list_kept items h)
  sanitize_value_kept false (array items) h = ap array (sanitize_schema_list_kept items h)
  sanitize_value_kept true null h = refl
  sanitize_value_kept true (boolean x) h = refl
  sanitize_value_kept true (number x) h = refl
  sanitize_value_kept true (string x) h = refl
  sanitize_value_kept false null h = refl
  sanitize_value_kept false (boolean x) h = refl
  sanitize_value_kept false (number x) h = refl
  sanitize_value_kept false (string x) h = refl

  sanitize_schema_kept :
      (value : Value) → is_clean_schema value ≡ true → sanitize_schema value ≡ value
  sanitize_schema_kept (object fields) h = ap object (sanitize_json_schema_kept fields h)
  sanitize_schema_kept (array items) h = refl
  sanitize_schema_kept null h = refl
  sanitize_schema_kept (boolean x) h = refl
  sanitize_schema_kept (number x) h = refl
  sanitize_schema_kept (string x) h = refl

  sanitize_properties_kept :
      (props : Fields) → are_clean_properties props ≡ true → sanitize_properties props ≡ props
  sanitize_properties_kept no_fields h = refl
  sanitize_properties_kept (field name value props) h =
      let (value_clean, rest_clean) =
        halves (is_clean_schema value) (are_clean_properties props) h in
      ap (λ v. field name v (sanitize_properties props)) (sanitize_schema_kept value value_clean)
      ∙ ap (field name value) (sanitize_properties_kept props rest_clean)

  sanitize_schema_list_kept :
      (items : Values) → are_clean items ≡ true → sanitize_schema_list items ≡ items
  sanitize_schema_list_kept end h = refl
  sanitize_schema_list_kept (item value items) h =
      let (value_clean, rest_clean) = halves (is_clean_schema value) (are_clean items) h in
      ap (λ v. item v (sanitize_schema_list items)) (sanitize_schema_kept value value_clean)
      ∙ ap (item value) (sanitize_schema_list_kept items rest_clean)
