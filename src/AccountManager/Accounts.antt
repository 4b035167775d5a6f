-- ===== src/AccountManager/Accounts.antt =====
-- Looking an account up by its ID, and writing its statistics.
use kiro_gateway_go.Common.{
  ℕ, zero, suc, String, none, some, List, [], ◌∷◌, ◌≡◌, ◌≢◌, refl, sym, ap, arith, length,
  get_elem?, str_eq, eq_iff, Bool-cases, Option-cases, inl, inr, some_inj, map,
}
use kiro_gateway_go.AccountManager.{Account, AccountStats, find_account_index_by_id, update_at}

-- The index found is that of an account with the ID, and it is the first.
pub find_account_index_by_id-some :
    (k : String) (accounts : List Account) (i : ℕ)
    → find_account_index_by_id k accounts ≡ some i
    → (acc : Account) × (get_elem? accounts i ≡ some acc) × (acc.id ≡ k)
unfolding find_account_index_by_id
find_account_index_by_id-some k [] i h = cc
find_account_index_by_id-some k (a ∷ accounts) i h = elim (Bool-cases (str_eq a.id k)) [
  | inl e ↦ (a, rw (sym (some_inj (rw e at h))), (eq_iff a.id k).0 e)
  | inr e ↦ elim (Option-cases (find_account_index_by_id k accounts)) [
    | inl n ↦ absurd (ground arith)
    | inr (j, found) ↦
        let (acc, at, same) = find_account_index_by_id-some k accounts j found in
        (acc, ground arith, same)
  ]
]

pub find_account_index_by_id-none :
    (k : String) (accounts : List Account)
    → find_account_index_by_id k accounts ≡ none
    → (i : ℕ) (acc : Account) → get_elem? accounts i ≡ some acc
    → acc.id ≢ k
unfolding find_account_index_by_id
find_account_index_by_id-none k [] h i acc e = cc
find_account_index_by_id-none k (a ∷ accounts) h zero acc e = ground (arith, eq_iff a.id k)
find_account_index_by_id-none k (a ∷ accounts) h (suc i) acc e =
    elim (Option-cases (find_account_index_by_id k accounts)) [
      | inl n ↦ find_account_index_by_id-none k accounts n i acc e
      | inr (j, found) ↦ absurd (ground arith)
    ]

module _ (f : AccountStats → AccountStats) where
  pub get_elem?-update_at_self :
      (accounts : List Account) (i : ℕ) (acc : Account)
      → get_elem? accounts i ≡ some acc
      → get_elem? (update_at accounts i f) i ≡ some (record acc { stats = f acc.stats })
  get_elem?-update_at_self [] i acc h = cc
  get_elem?-update_at_self (a ∷ accounts) zero acc h =
      ap (λ (b : Account). some (record b { stats = f b.stats })) (some_inj h)
  get_elem?-update_at_self (a ∷ accounts) (suc i) acc h = get_elem?-update_at_self accounts i acc h

  pub get_elem?-update_at_ne :
      (accounts : List Account) (i j : ℕ)
      → i ≢ j
      → get_elem? (update_at accounts i f) j ≡ get_elem? accounts j
  get_elem?-update_at_ne [] i j h = refl
  get_elem?-update_at_ne (a ∷ accounts) zero zero h = absurd (h refl)
  get_elem?-update_at_ne (a ∷ accounts) zero (suc j) h = refl
  get_elem?-update_at_ne (a ∷ accounts) (suc i) zero h = refl
  get_elem?-update_at_ne (a ∷ accounts) (suc i) (suc j) h =
      get_elem?-update_at_ne accounts i j (λ e. h (ap suc e))

  -- The IDs, their number and their order stay.
  pub ids-update_at :
      (accounts : List Account) (i : ℕ)
      → map (λ (a : Account). a.id) (update_at accounts i f) ≡ map (λ (a : Account). a.id) accounts
  ids-update_at [] i = refl
  ids-update_at (a ∷ accounts) zero = refl
  ids-update_at (a ∷ accounts) (suc i) = ap (◌∷◌ a.id) (ids-update_at accounts i)

  pub length-update_at :
      (accounts : List Account) (i : ℕ) → length (update_at accounts i f) ≡ length accounts
  length-update_at [] i = refl
  length-update_at (a ∷ accounts) zero = refl
  length-update_at (a ∷ accounts) (suc i) = ap suc (length-update_at accounts i)
