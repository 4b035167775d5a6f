-- ===== src/Tests/Caches.antt =====
-- The theorem on the truncation state at concrete contents.
use kiro_gateway_go.Common.{ℕ, String, none, some, [], ◌≡◌, refl}
use kiro_gateway_go.Common.Bytes.{Bytes, codes}
use kiro_gateway_go.TruncationState.{State, set_content, get_content}
use kiro_gateway_go.TruncationState.Once.{get_content-set_content}

abbrev hash : Bytes → String
hash s = "d41d8cd98f00b204"

abbrev empty : State ℕ
empty = record { tool_cache = []; content_cache = [] }

get_content-set_content_example :
    let (found, s') = get_content ℕ hash (codes "cut") (set_content ℕ hash (codes "cut") 7 empty) in
    (found ≡ some 7) × ((get_content ℕ hash (codes "cut") s').0 ≡ none)
get_content-set_content_example =
    get_content-set_content ℕ hash (codes "cut") (codes "cut") 7 empty refl
