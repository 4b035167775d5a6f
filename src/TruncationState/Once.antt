-- ===== src/TruncationState/Once.antt =====
-- A record of truncationstate/cache.go is handed out once, to a content with the same beginning.
use kiro_gateway_go.Common.{
  String, Option, none, some, [], ◌∷◌, ◌≡◌, inl, inr, refl, sym, ap, ◌∙◌, arith, ltb, str_eq,
  eq_iff, length, take, take_all, Bool-cases,
}
use kiro_gateway_go.Common.Bytes.{Bytes}
use kiro_gateway_go.TruncationState.{
  Cache, find, store, delete, State, set_content, get_content, hash_content_key,
}

module _ (Record : Type 0) where
  find-store :
      (k : String) (r : Record) (m : Cache Record) → find Record k (store Record k r m) ≡ some r
  unfolding find store
  find-store k r [] = rw ((eq_iff k k).1 refl)
  find-store k r ((j, q) ∷ m) = elim (Bool-cases (str_eq j k)) [
    | inl e ↦ rw (e, (eq_iff k k).1 refl)
    | inr n ↦ rw (n, n) (find-store k r m)
  ]

  find-delete : (k : String) (m : Cache Record) → find Record k (delete Record k m) ≡ none
  unfolding find delete
  find-delete k [] = refl
  find-delete k ((j, r) ∷ m) = elim (Bool-cases (str_eq j k)) [
    | inl e ↦ rw e (find-delete k m)
    | inr n ↦ rw (n, n) (find-delete k m)
  ]

  key-take :
      (hash : Bytes → String) (content : Bytes)
      → hash_content_key Record hash content ≡ hash (take 500 content)
  unfolding hash_content_key
  key-take hash content = elim (Bool-cases (ltb 500 (length content))) [
    | inl e ↦ rw e refl
    | inr n ↦ rw n (ap hash (sym (take_all 500 content (ground arith))))
  ]

  get_content-some :
      (hash : Bytes → String) (content : Bytes) (s : State Record) (r : Record)
      → find Record (hash_content_key Record hash content) s.content_cache ≡ some r
      → get_content Record hash content s ≡ (
        some r,
        record s {
          content_cache = delete Record (hash_content_key Record hash content) s.content_cache;
        },
      )
  unfolding get_content
  get_content-some hash content s r h = rw (h, get_content) refl

  get_content-none :
      (hash : Bytes → String) (content : Bytes) (s : State Record)
      → find Record (hash_content_key Record hash content) s.content_cache ≡ none
      → (get_content Record hash content s).0 ≡ none
  unfolding get_content
  get_content-none hash content s h = rw (h, get_content) refl

  -- A record that was stored for a content comes back for every content with the same first 500
  -- bytes, and then it is gone.
  pub get_content-set_content :
      (hash : Bytes → String) (content later : Bytes) (r : Record) (s : State Record)
      → take 500 content ≡ take 500 later
      → let (found, s') = get_content Record hash later (set_content Record hash content r s) in
        (found ≡ some r) × ((get_content Record hash later s').0 ≡ none)
  unfolding set_content
  get_content-set_content hash content later r s same =
      let key : hash_content_key Record hash content ≡ hash_content_key Record hash later =
        key-take hash content ∙ ap hash same ∙ sym (key-take hash later) in
      let cache = store Record (hash_content_key Record hash content) r s.content_cache in
      let there : find Record (hash_content_key Record hash later) cache ≡ some r =
        ap
          (λ k. find Record (hash_content_key Record hash later) (store Record k r s.content_cache))
          key
        ∙ find-store (hash_content_key Record hash later) r s.content_cache in
      let e = get_content-some hash later (record s { content_cache = cache }) r there in
      (
        ap (λ (o : Option Record × State Record). o.0) e,
        ap (λ (o : Option Record × State Record). (get_content Record hash later o.1).0) e
            ∙ get_content-none hash later _
                (find-delete (hash_content_key Record hash later) cache),
      )
