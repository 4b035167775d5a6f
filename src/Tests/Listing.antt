-- ===== src/Tests/Listing.antt =====
-- The models that are listed after an update of the cache.
use kiro_gateway_go.Common.{◌≡◌, refl, not, ◌&&◌, ◌||◌, String, none, List, [], ◌∷◌}
use kiro_gateway_go.Common.Int.{pos}
use kiro_gateway_go.Json.{Fields, string, no_fields, field}
use kiro_gateway_go.Models.{ModelResolver, update, has, names, get_available_models}
use kiro_gateway_go.Models.Listed.{ids_of, get_available_models-update}

abbrev listing : List Fields
listing =
    field "modelId" (string "auto") no_fields
    ∷ field "modelId" (string "claude-sonnet-4.5") no_fields
    ∷ []

abbrev resolver : ModelResolver
resolver = record {
  cache = record { cache = []; last_update = none; ttl = pos 3600 };
  hidden_models = [];
  aliases = ("auto-kiro", "auto") ∷ [];
  hidden_from_list = "auto" ∷ [];
}

abbrev unsorted : List String → List String
unsorted ids = ids

get_available_models-update_example :
    has "auto" (
      get_available_models unsorted
        (record resolver { cache = update listing (pos 1) resolver.cache }))
    ≡ (has "auto" (names resolver.aliases)
        || (not (has "auto" resolver.hidden_from_list)
            && (has "auto" (names resolver.hidden_models) || has "auto" (ids_of listing))))
get_available_models-update_example =
    get_available_models-update unsorted listing (pos 1) "auto" resolver (λ y ids. refl)
