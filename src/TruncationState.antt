-- ===== src/TruncationState.antt =====
-- internal/truncationstate/cache.go: the records of truncated tool calls and contents, each of which
-- is handed out once. A Go map is a list with one entry for a key; `hash` is the hexadecimal
-- beginning of SHA-256.
pub mod Once
use kiro_gateway_go.Common.{
  ℕ, Bool, String, Option, none, some, List, [], ◌∷◌, ltb, str_eq, if◌then◌else◌, length, take,
}
use kiro_gateway_go.Common.Bytes.{Bytes}

module _ (Record : Type 0) where
  abbrev pub Cache : Type 0
  Cache = List (String × Record)

  -- `m[k]`, `m[k] = r` and `delete(m, k)`.
  unfoldable pub find : String → Cache → Option Record
  find k [] = none
  find k ((j, r) ∷ m) = if str_eq j k then some r else find k m

  unfoldable pub store : String → Record → Cache → Cache
  store k r [] = (k, r) ∷ []
  store k r ((j, q) ∷ m) = if str_eq j k then (k, r) ∷ m else (j, q) ∷ store k r m

  unfoldable pub delete : String → Cache → Cache
  delete k [] = []
  delete k ((j, r) ∷ m) = let rest = delete k m in if str_eq j k then rest else (j, r) ∷ rest

  pub record State : Type 0 where
    pub tool_cache : Cache
    pub content_cache : Cache

  unfoldable pub set_tool : String → Record → State → State
  set_tool tool_id r s = record s { tool_cache = store tool_id r s.tool_cache }

  -- The record and its deletion under the one lock.
  unfoldable pub get_tool : String → State → Option Record × State
  get_tool tool_id s = elim (find tool_id s.tool_cache) [
    | none ↦ (none, s)
    | some r ↦ (some r, record s { tool_cache = delete tool_id s.tool_cache })
  ]

  module _ (hash : Bytes → String) where
    unfoldable pub hash_content_key : Bytes → String
    hash_content_key content = hash (if ltb 500 (length content) then take 500 content else content)

    unfoldable pub set_content : Bytes → Record → State → State
    set_content content r s = record s {
      content_cache = store (hash_content_key content) r s.content_cache;
    }

    unfoldable pub get_content : Bytes → State → Option Record × State
    get_content content s = elim (find (hash_content_key content) s.content_cache) [
      | none ↦ (none, s)
      | some r ↦
          (some r, record s { content_cache = delete (hash_content_key content) s.content_cache })
    ]
