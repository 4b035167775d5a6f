-- ===== src/Models.antt =====
-- internal/cache/cache.go, the cache of what is known of the models, and of
-- internal/modelresolver/resolver.go the list of models for the clients. A Go map with empty values is
-- a list without repetition; `sort.Strings` and the clock are parameters. A time is in nanoseconds.
pub mod Listed
use kiro_gateway_go.Common.{
  Bool, true, false, not, ◌||◌, String, ◌<>◌, Option, none, some, List, [], ◌∷◌, str_eq,
  if◌then◌else◌,
}
use kiro_gateway_go.Common.Int.{ℤ, leb_ℤ}
use kiro_gateway_go.Json.{
  Fields, no_fields, field, string, number, boolean, object, lookup, as_string,
}
use kiro_gateway_go.TruncationState.{find, store}

pub record ModelInfoCache : Type 0 where
  pub cache : List (String × Fields)
  pub last_update : Option ℤ
  pub ttl : ℤ

abbrev pub model_id : Fields → String
model_id model = as_string (lookup "modelId" model)

-- The loop of `Update`: `newCache[id] = model`
unfoldable pub index_models : List Fields → List (String × Fields) → List (String × Fields)
index_models [] m = m
index_models (model ∷ models) m = index_models models (store Fields (model_id model) model m)

unfoldable pub update : List Fields → (now : ℤ) → ModelInfoCache → ModelInfoCache
update models_data now c = record c { cache = index_models models_data []; last_update = some now }

abbrev is_some : Option Fields → Bool
is_some none = false
is_some (some _) = true

unfoldable pub is_valid_model : String → ModelInfoCache → Bool
is_valid_model id c = is_some (find Fields id c.cache)

abbrev hidden_model : (display_name internal_id : String) → Fields
hidden_model display_name internal_id = field "modelId" (string display_name) (
    field "modelName" (string display_name) (
      field "description" (string ("Hidden model (internal: " <> (internal_id <> ")"))) (
        field "tokenLimits" (object (field "maxInputTokens" (number "200000") no_fields)) (
          field "_internal_id" (string internal_id)
            (field "_is_hidden" (boolean true) no_fields)))))

unfoldable pub add_hidden_model :
    (display_name internal_id : String) → ModelInfoCache → ModelInfoCache
add_hidden_model display_name internal_id c =
    if is_valid_model display_name c then c else record c {
      cache = store Fields display_name (hidden_model display_name internal_id) c.cache;
    }

unfoldable pub get_all_model_ids : List (String × Fields) → List String
get_all_model_ids [] = []
get_all_model_ids ((id, _) ∷ m) = id ∷ get_all_model_ids m

-- The sets of the resolver.
unfoldable pub has : String → List String → Bool
has x [] = false
has x (id ∷ ids) = str_eq id x || has x ids

unfoldable pub remove : String → List String → List String
remove x [] = []
remove x (id ∷ ids) = let rest = remove x ids in if str_eq id x then rest else id ∷ rest

unfoldable pub with_all : List String → List String → List String
with_all [] set = set
with_all (id ∷ ids) set = with_all ids (if has id set then set else id ∷ set)

unfoldable pub without_all : List String → List String → List String
without_all [] set = set
without_all (id ∷ ids) set = without_all ids (remove id set)

unfoldable pub names : List (String × String) → List String
names [] = []
names ((name, _) ∷ m) = name ∷ names m

pub record ModelResolver : Type 0 where
  pub cache : ModelInfoCache
  pub hidden_models : List (String × String)
  pub aliases : List (String × String)
  pub hidden_from_list : List String

unfoldable pub get_available_models :
    (sort : List String → List String) → ModelResolver → List String
get_available_models sort r =
    let known = with_all (names r.hidden_models) (with_all (get_all_model_ids r.cache.cache) []) in
    sort (with_all (names r.aliases) (without_all r.hidden_from_list known))
