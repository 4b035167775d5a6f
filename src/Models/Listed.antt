-- ===== src/Models/Listed.antt =====
-- Which models are listed for the clients.
use kiro_gateway_go.Common.{
  ◌≡◌, refl, sym, ap, ◌∙◌, inl, inr, Bool, true, false, not, ◌&&◌, ◌||◌, String, List, [], ◌∷◌,
  str_eq, eq_iff, if◌then◌else◌, Bool-cases,
}
use kiro_gateway_go.Common.Int.{ℤ}
use kiro_gateway_go.Json.{Fields}
use kiro_gateway_go.TruncationState.{store}
use kiro_gateway_go.Models.{
  model_id, index_models, update, get_all_model_ids, has, remove, with_all, without_all, names,
  ModelResolver, get_available_models,
}

absorb : (b h : Bool) → (not b && h) ≡ (not b && (b || h))
absorb true h = refl
absorb false h = refl

pulled : (b c h : Bool) → (c ≡ true → b ≡ false) → (c || (not b && h)) ≡ (not b && (c || h))
pulled false true h d = refl
pulled false false h d = refl
pulled true false h d = refl
pulled true true h d = absurd (let e = d refl in cc)

-- Two different names are not both equal to a third one.
apart : (x y id : String) → str_eq y id ≡ false → str_eq y x ≡ true → str_eq id x ≡ false
apart x y id n e = elim (Bool-cases (str_eq id x)) [
  | inl h ↦ let same = (eq_iff y id).1 ((eq_iff y x).0 e ∙ sym ((eq_iff id x).0 h)) in absurd (cc)
  | inr h ↦ h
]

has-remove :
    (x id : String) (set : List String) → has x (remove id set) ≡ (not (str_eq id x) && has x set)
unfolding remove has
has-remove x id [] = elim (Bool-cases (str_eq id x)) [ inl e ↦ rw e refl | inr n ↦ rw n refl ]
has-remove x id (y ∷ set) = elim (Bool-cases (str_eq y id)) [
  | inl e ↦ rw e (
      has-remove x id set
      ∙ absorb (str_eq id x) (has x set)
      ∙ ap (λ z. not (str_eq id x) && (str_eq z x || has x set)) (sym ((eq_iff y id).0 e)))
  | inr n ↦ rw n (
      ap (λ b. str_eq y x || b) (has-remove x id set)
      ∙ pulled (str_eq id x) (str_eq y x) (has x set) (apart x y id n))
]

present :
    (x id : String) (set : List String) → has id set ≡ true → str_eq id x ≡ true → has x set ≡ true
present x id set e h = ap (λ z. has z set) (sym ((eq_iff id x).0 h)) ∙ e

inserted : String → List String → List String
inserted id set = if has id set then set else id ∷ set

has-inserted :
    (x id : String) (set : List String) → has x (inserted id set) ≡ (str_eq id x || has x set)
unfolding has inserted
has-inserted x id set = elim (Bool-cases (has id set)) [
  | inl e ↦
      rw e (elim (Bool-cases (str_eq id x)) [
        | inl h ↦ rw h (present x id set e h)
        | inr n ↦ rw n refl
      ])
  | inr n ↦ rw n refl
]

regroup : (a b c : Bool) → (a || (b || c)) ≡ ((b || a) || c)
regroup true true c = refl
regroup true false c = refl
regroup false true c = refl
regroup false false c = refl

neither : (a b c : Bool) → (not a && (not b && c)) ≡ (not (b || a) && c)
neither true true c = refl
neither true false c = refl
neither false true c = refl
neither false false c = refl

has-with_all :
    (x : String) (ids set : List String) → has x (with_all ids set) ≡ (has x ids || has x set)
unfolding with_all has inserted
has-with_all x [] set = refl
has-with_all x (id ∷ ids) set =
    has-with_all x ids (inserted id set)
    ∙ ap (λ b. has x ids || b) (has-inserted x id set)
    ∙ regroup (has x ids) (str_eq id x) (has x set)

has-without_all :
    (x : String) (ids set : List String)
    → has x (without_all ids set) ≡ (not (has x ids) && has x set)
unfolding without_all has
has-without_all x [] set = refl
has-without_all x (id ∷ ids) set =
    has-without_all x ids (remove id set)
    ∙ ap (λ b. not (has x ids) && b) (has-remove x id set)
    ∙ neither (has x ids) (str_eq id x) (has x set)

or_false : (b : Bool) → (b || false) ≡ b
or_false true = refl
or_false false = refl

twice : (a b c : Bool) → a ≡ b → (b || c) ≡ (b || (a || c))
twice a true c e = refl
twice true false c e = absurd (cc)
twice false false c e = refl

swap : (a b c : Bool) → (a || (b || c)) ≡ (b || (a || c))
swap true true c = refl
swap true false c = refl
swap false b c = refl

has-store :
    (x k : String) (model : Fields) (m : List (String × Fields))
    → has x (get_all_model_ids (store Fields k model m))
      ≡ (str_eq k x || has x (get_all_model_ids m))
unfolding store has get_all_model_ids
has-store x k model [] = refl
has-store x k model ((j, old) ∷ m) = elim (Bool-cases (str_eq j k)) [
  | inl e ↦ rw e (
      twice (str_eq j x) (str_eq k x) (has x (get_all_model_ids m))
        (ap (λ z. str_eq z x) ((eq_iff j k).0 e)))
  | inr n ↦ rw n (
      ap (λ b. str_eq j x || b) (has-store x k model m)
      ∙ swap (str_eq j x) (str_eq k x) (has x (get_all_model_ids m)))
]

-- The ids of the models that a listing gives.
abbrev pub ids_of : List Fields → List String
ids_of [] = []
ids_of (model ∷ models) = model_id model ∷ ids_of models

has-index_models :
    (x : String) (models : List Fields) (m : List (String × Fields))
    → has x (get_all_model_ids (index_models models m))
      ≡ (has x (ids_of models) || has x (get_all_model_ids m))
unfolding index_models has
has-index_models x [] m = refl
has-index_models x (model ∷ models) m =
    has-index_models x models (store Fields (model_id model) model m)
    ∙ ap (λ b. has x (ids_of models) || b) (has-store x (model_id model) model m)
    ∙ regroup (has x (ids_of models)) (str_eq (model_id model) x) (has x (get_all_model_ids m))

has-get_available_models :
    (sort : List String → List String) (x : String) (r : ModelResolver)
    → ((y : String) (ids : List String) → has y (sort ids) ≡ has y ids)
    → has x (get_available_models sort r) ≡ (
        has x (names r.aliases)
        || (not (has x r.hidden_from_list)
            && (has x (names r.hidden_models) || has x (get_all_model_ids r.cache.cache))))
unfolding get_available_models has
has-get_available_models sort x r kept =
    let cached = get_all_model_ids r.cache.cache in
    let known = with_all (names r.hidden_models) (with_all cached []) in
    kept x (with_all (names r.aliases) (without_all r.hidden_from_list known))
    ∙ has-with_all x (names r.aliases) (without_all r.hidden_from_list known)
    ∙ ap (λ b. has x (names r.aliases) || b)
        (has-without_all x r.hidden_from_list known
          ∙ ap (λ b. not (has x r.hidden_from_list) && b)
              (has-with_all x (names r.hidden_models) (with_all cached [])
                ∙ ap (λ b. has x (names r.hidden_models) || b)
                    (has-with_all x cached [] ∙ or_false (has x cached))))

-- After `Update` with a listing, and when sorting keeps what a list holds, `GetAvailableModels` lists a
-- name exactly when it is an alias, or is not hidden from the list and is a hidden model or the id of
-- a model of the listing; what the cache held before is gone.
pub get_available_models-update :
    (sort : List String → List String) (models : List Fields) (now : ℤ) (x : String)
    (r : ModelResolver)
    → ((y : String) (ids : List String) → has y (sort ids) ≡ has y ids)
    → has x (get_available_models sort (record r { cache = update models now r.cache })) ≡ (
        has x (names r.aliases)
        || (not (has x r.hidden_from_list)
            && (has x (names r.hidden_models) || has x (ids_of models))))
unfolding update has get_all_model_ids
get_available_models-update sort models now x r kept =
    has-get_available_models sort x (record r { cache = update models now r.cache }) kept
    ∙ ap
        (λ b.
          has x (names r.aliases)
          || (not (has x r.hidden_from_list) && (has x (names r.hidden_models) || b)))
        (has-index_models x models [] ∙ or_false (has x (ids_of models)))
