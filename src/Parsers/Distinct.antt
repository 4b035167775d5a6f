-- ===== src/Parsers/Distinct.antt =====
-- What the deduplication of the tool calls leaves.
use kiro_gateway_go.Common.{
  Bool, true, false, Option, none, some, List, [], ◌∷◌, ◌++◌, ◌≡◌, ◌≢◌, refl, sym, ap, ◌∙◌, subst,
  inl, inr, map, Bool-cases, some_inj, if◌then◌else◌,
}
use kiro_gateway_go.Common.Bytes.{Bytes}
use kiro_gateway_go.Common.Equality.{same_bytes, same_bytes_iff}
use kiro_gateway_go.Parsers.ToolCalls.{Library, ToolCall}
use kiro_gateway_go.Parsers.Dedup.{
  updated, entered, replaces, put, id_of, by_id, without_id, key_of, has_key, unique,
  deduplicate_tool_calls,
}
use kiro_gateway_go.Parsers.Each.{
  Each, Each-append, Each-weaken, or_false, call_of, put-Each, without_id-Each, unique-Each,
}

module _ (l : Library) where
  -- No two calls have one key.
  abbrev pub KeysApart : List ToolCall → Type 0
  KeysApart [] = Unit
  KeysApart (tc ∷ calls) = Each (λ u. key_of l u ≢ key_of l tc) calls × KeysApart calls

  -- No two calls have one id.
  abbrev pub OtherId : ToolCall → ToolCall → Type 0
  OtherId tc u = (id : Bytes) → id_of l tc ≡ some id → id_of l u ≢ some id

  abbrev pub IdsApart : List ToolCall → Type 0
  IdsApart [] = Unit
  IdsApart (tc ∷ calls) = Each (OtherId tc) calls × IdsApart calls

  abbrev unique_if : Bool → List Bytes → ToolCall → List ToolCall → List ToolCall
  unique_if b seen tc calls = elim b [
    | true ↦ unique l seen calls
    | false ↦ tc ∷ unique l (key_of l tc ∷ seen) calls
  ]

  unique-new :
      (seen : List Bytes) (calls : List ToolCall)
      → Each (λ u. has_key l (key_of l u) seen ≡ false) (unique l seen calls)
  unfolding unique has_key
  unique-new seen [] = tt
  unique-new seen (tc ∷ calls) = elim (Bool-cases (has_key l (key_of l tc) seen)) [
    | inl e ↦
        subst (λ b. Each (λ u. has_key l (key_of l u) seen ≡ false) (unique_if b seen tc calls))
          (sym e) (unique-new seen calls)
    | inr n ↦
        subst (λ b. Each (λ u. has_key l (key_of l u) seen ≡ false) (unique_if b seen tc calls))
          (sym n)
          (
            n,
            Each-weaken _ (λ u. has_key l (key_of l u) seen ≡ false)
                (unique l (key_of l tc ∷ seen) calls) (λ u h. (or_false _ _ h).1)
                (unique-new (key_of l tc ∷ seen) calls),
          )
  ]

  unique-KeysApart : (seen : List Bytes) (calls : List ToolCall) → KeysApart (unique l seen calls)
  unfolding unique has_key
  unique-KeysApart seen [] = tt
  unique-KeysApart seen (tc ∷ calls) =
      elim (has_key l (key_of l tc) seen) as (λ b. KeysApart (unique_if b seen tc calls)) [
        | true ↦ unique-KeysApart seen calls
        | false ↦ (
          Each-weaken (λ u. has_key l (key_of l u) (key_of l tc ∷ seen) ≡ false)
              (λ u. key_of l u ≢ key_of l tc) (unique l (key_of l tc ∷ seen) calls)
              (λ u h e.
                let different = (or_false (same_bytes (key_of l tc) (key_of l u)) _ h).0 in
                cc ((same_bytes_iff (key_of l tc) (key_of l u)).1 (sym e), different))
              (unique-new (key_of l tc ∷ seen) calls),
          unique-KeysApart (key_of l tc ∷ seen) calls,
        )
      ]

  unique-IdsApart :
      (seen : List Bytes) (calls : List ToolCall) → IdsApart calls → IdsApart (unique l seen calls)
  unfolding unique
  unique-IdsApart seen [] h = tt
  unique-IdsApart seen (tc ∷ calls) h =
      elim (has_key l (key_of l tc) seen) as (λ b. IdsApart (unique_if b seen tc calls)) [
        | true ↦ unique-IdsApart seen calls h.1
        | false ↦ (
          unique-Each l (OtherId tc) (key_of l tc ∷ seen) calls h.0,
          unique-IdsApart (key_of l tc ∷ seen) calls h.1,
        )
      ]

  -- The first loop keeps each call under its id, and the ids apart.
  abbrev Tagged : List (Bytes × ToolCall) → Type 0
  Tagged values = Each (λ (e : Bytes × ToolCall). id_of l e.1 ≡ some e.0) values

  abbrev Ids : List (Bytes × ToolCall) → Type 0
  Ids [] = Unit
  Ids ((k, tc) ∷ values) = Each (λ (e : Bytes × ToolCall). e.0 ≢ k) values × Ids values

  put-Ids :
      (id : Bytes) (tc : ToolCall) (values : List (Bytes × ToolCall))
      → Ids values
      → Ids (put id tc values)
  unfolding put
  put-Ids id tc [] h = (tt, tt)
  put-Ids id tc ((k, old) ∷ values) h = elim (Bool-cases (same_bytes k id)) [
    | inl e ↦
        let first : (b : Bool) → Ids (updated b k old tc ∷ values) =
          λ b. elim b as (λ c. Ids (updated c k old tc ∷ values)) [ true ↦ h | false ↦ h ] in
        subst
          (λ b. Ids (
            if b then updated (replaces old tc) k old tc ∷ values else (k, old) ∷ put id tc values))
          (sym e) (first (replaces old tc))
    | inr n ↦
        let other : k ≢ id = λ e. cc ((same_bytes_iff k id).1 e, n) in
        subst
          (λ b. Ids (
            if b then updated (replaces old tc) k old tc ∷ values else (k, old) ∷ put id tc values))
          (sym n)
          (
            put-Each (λ (e : Bytes × ToolCall). e.0 ≢ k) id tc values (λ j e e'. other (sym e' ∙ e))
                h.0,
            put-Ids id tc values h.1,
          )
  ]

  abbrev Indexed : List (Bytes × ToolCall) → Type 0
  Indexed values = Tagged values × Ids values

  entered-Indexed :
      (tc : ToolCall) (values : List (Bytes × ToolCall)) (id : Option Bytes)
      → id_of l tc ≡ id
      → Indexed values
      → Indexed (entered tc values id)
  entered-Indexed tc values none e h = h
  entered-Indexed tc values (some id) e h = (
    put-Each (λ (x : Bytes × ToolCall). id_of l x.1 ≡ some x.0) id tc values
        (λ k same. e ∙ ap some (sym same)) h.0,
    put-Ids id tc values h.1,
  )

  by_id-Indexed :
      (calls : List ToolCall) (values : List (Bytes × ToolCall))
      → Indexed values
      → Indexed (by_id l calls values)
  unfolding by_id
  by_id-Indexed [] values h = h
  by_id-Indexed (tc ∷ calls) values h =
      by_id-Indexed calls (entered tc values (id_of l tc))
        (entered-Indexed tc values (id_of l tc) refl h)

  others :
      (k : Bytes) (tc : ToolCall) (values : List (Bytes × ToolCall))
      → id_of l tc ≡ some k
      → Tagged values
      → Each (λ (e : Bytes × ToolCall). e.0 ≢ k) values
      → Each (OtherId tc) (map call_of values)
  others k tc [] e h n = tt
  others k tc ((j, u) ∷ values) e h n =
      (λ id this that. n.0 (some_inj (sym h.0 ∙ that ∙ sym this ∙ e)), others k tc values e h.1 n.1)

  Indexed-IdsApart :
      (values : List (Bytes × ToolCall)) (rest : List ToolCall)
      → Indexed values
      → Each (λ u. id_of l u ≡ none) rest
      → IdsApart rest
      → IdsApart (map call_of values ++ rest)
  Indexed-IdsApart [] rest h n r = r
  Indexed-IdsApart ((k, tc) ∷ values) rest (tagged, ids) n r = (
    Each-append (OtherId tc) (map call_of values) rest (others k tc values tagged.0 tagged.1 ids.0)
        (Each-weaken (λ u. id_of l u ≡ none) (OtherId tc) rest (λ u e id this that. cc (e, that))
          n),
    Indexed-IdsApart values rest (tagged.1, ids.1) n r,
  )

  no_ids-IdsApart : (rest : List ToolCall) → Each (λ u. id_of l u ≡ none) rest → IdsApart rest
  no_ids-IdsApart [] n = tt
  no_ids-IdsApart (tc ∷ rest) n = (
    Each-weaken (λ u. id_of l u ≡ none) (OtherId tc) rest (λ u e id this that. cc (e, that)) n.1,
    no_ids-IdsApart rest n.1,
  )

  no_id_itself : (calls : List ToolCall) → Each (λ tc. id_of l tc ≡ none → id_of l tc ≡ none) calls
  no_id_itself [] = tt
  no_id_itself (tc ∷ calls) = (λ e. e, no_id_itself calls)

  -- No two of the calls that are left have one key of name and arguments, and no two have one id.
  pub deduplicate-Apart :
      (calls : List ToolCall)
      → KeysApart (deduplicate_tool_calls l calls) × IdsApart (deduplicate_tool_calls l calls)
  unfolding deduplicate_tool_calls
  deduplicate-Apart calls =
      let values = by_id l calls [] in
      let rest = without_id l calls in
      let none_there = without_id-Each l (λ tc. id_of l tc ≡ none) calls (no_id_itself calls) in
      (
        unique-KeysApart [] (map call_of values ++ rest),
        unique-IdsApart [] (map call_of values ++ rest) (
            Indexed-IdsApart values rest (by_id-Indexed calls [] (tt, tt)) none_there
              (no_ids-IdsApart rest none_there)),
      )
