-- ===== src/AccountManager/Selection.antt =====
-- What `nextEnabledIdx` finds, and what it means that it finds nothing.
use native.Mathlib.Decide.{ℕ_discrete, dec_lt}
use native.Mathlib.Nat.{mod-lt, mod-add-mod, add-mod_right, mod-eq_of_lt}
use kiro_gateway_go.Common.{
  ℕ, zero, suc, ◌+◌, ◌-◌, ◌%◌, ◌≤◌, ◌<◌, Bool, true, false, String, Option, some, List, [], ◌∷◌,
  ◌≡◌, ◌⊎◌, inl, inr, refl, sym, ap, subst, some_inj, get_elem?-lt, ◌∙◌, arith, length, get_elem?,
  get_elem?-some, Bool-cases,
}
use kiro_gateway_go.AccountManager.{
  Account, Config, Choice, found, nothing, has, is_skipped, within_window, next_enabled_loop,
  next_enabled_idx,
}

-- Why an account is passed over.
abbrev pub Blocked : Config → List String → ℕ → Account → Type 0
Blocked cfg exclude now acc =
    (acc.enabled ≡ false) ⊎ (has acc.id exclude ≡ true) ⊎ (within_window cfg acc now ≡ true)

-- What is known of an account that is chosen: if it is in its window, a draw let it through.
pub record Usable (fires : ℕ → Bool) (cfg : Config) (exclude : List String) (now : ℕ)
    (acc : Account) : Type 0 where
  pub enabled : acc.enabled ≡ true
  pub not_excluded : has acc.id exclude ≡ false
  pub let_through : (within_window cfg acc now ≡ false) ⊎ ((n : ℕ) × (fires n ≡ true))

module _ (fires : ℕ → Bool) (cfg : Config) (exclude : List String) (now : ℕ) where
  is_skipped-true :
      (acc : Account) (drawn : ℕ)
      → (is_skipped fires cfg exclude now acc drawn).0 ≡ true
      → Blocked cfg exclude now acc
  unfolding is_skipped
  is_skipped-true acc drawn h = ground arith

  is_skipped-false :
      (acc : Account) (drawn : ℕ)
      → (is_skipped fires cfg exclude now acc drawn).0 ≡ false
      → Usable fires cfg exclude now acc
  unfolding is_skipped
  is_skipped-false acc drawn h = record {
    enabled = ground arith;
    not_excluded = ground arith;
    let_through = elim (Bool-cases (within_window cfg acc now)) [
      | inl w ↦ inr (drawn, ground arith)
      | inr w ↦ inl w
    ];
  }

-- Every index has its turn within one round.
turn_of : (n start idx : ℕ) → idx < n → (j : ℕ) × (j < n) × ((start + j) % n ≡ idx)
turn_of n start idx h =
    let s = start % n in
    let small : s < n = mod-lt start (omega arith) in
    elim (dec_lt idx s) [
      | yes p ↦
          let j = idx + n - s in
          let e : s + j ≡ idx + n = omega arith in
          (
            j,
            omega arith,
            sym (mod-add-mod start n j) ∙ ap (λ m. m % n) e ∙ add-mod_right idx n ∙ mod-eq_of_lt h,
          )
      | no p ↦
          let j = idx - s in
          let e : s + j ≡ idx = omega arith in
          (j, omega arith, sym (mod-add-mod start n j) ∙ ap (λ m. m % n) e ∙ mod-eq_of_lt h)
    ]

-- The account `i` places on from `start`, round the circle.
abbrev pub at_turn : List Account → ℕ → ℕ → Option Account
at_turn accounts start i = get_elem? accounts ((start + i) % length accounts)

module _ (fires : ℕ → Bool) (cfg : Config) (accounts : List Account) (exclude : List String)
    (now start : ℕ) where
  -- The rounds from `i` to `k` passed over blocked accounts.
  abbrev pub BlockedFrom : ℕ → ℕ → Type 0
  BlockedFrom i k =
      (j : ℕ)
      → i ≤ j
      → j < k
      → (acc : Account) → at_turn accounts start j ≡ some acc
      → Blocked cfg exclude now acc

  abbrev pub Outcome : ℕ → ℕ → Choice → Type 0
  Outcome i rounds (found idx acc) =
      (k : ℕ) × (k < i + rounds)
      × (idx ≡ (start + k) % length accounts)
      × (at_turn accounts start k ≡ some acc)
      × Usable fires cfg exclude now acc
      × BlockedFrom i k
  Outcome i rounds nothing = BlockedFrom i (i + rounds)

  BlockedFrom-cons :
      (i k : ℕ) (acc : Account)
      → at_turn accounts start i ≡ some acc
      → Blocked cfg exclude now acc
      → BlockedFrom (i + 1) k
      → BlockedFrom i k
  BlockedFrom-cons i k acc here b rest j le lt acc' e' = elim (ℕ_discrete i j) [
    | yes same ↦
        subst (Blocked cfg exclude now)
          (some_inj (sym here ∙ ap (at_turn accounts start) same ∙ e')) b
    | no other ↦ rest j (omega arith) lt acc' e'
  ]

  skip :
      (i rounds : ℕ) (c : Choice) (acc : Account)
      → at_turn accounts start i ≡ some acc
      → Blocked cfg exclude now acc
      → Outcome (i + 1) rounds c
      → Outcome i (suc rounds) c
  skip i rounds (found idx acc') acc here b (k, lt, e, at, u, before) =
      (k, omega arith, e, at, u, BlockedFrom-cons i k acc here b before)
  skip i rounds nothing acc here b rest =
      BlockedFrom-cons i (i + suc rounds) acc here b (λ j le lt. rest j le (omega arith))

  next_enabled_loop-Outcome :
      (rounds i drawn : ℕ)
      → 0 < length accounts
      → Outcome i rounds (next_enabled_loop fires cfg accounts exclude now start rounds i drawn)
  unfolding next_enabled_loop
  next_enabled_loop-Outcome zero i drawn h = λ j a b acc e. absurd (omega arith)
  next_enabled_loop-Outcome (suc rounds) i drawn h =
      let (acc, here) =
        get_elem?-some accounts ((start + i) % length accounts) (mod-lt (start + i) h) in
      let (b, drawn') = is_skipped fires cfg exclude now acc drawn in
      let rest = next_enabled_loop-Outcome rounds (i + 1) drawn' h in
      rw (here, next_enabled_loop)
        (elim (Bool-cases (is_skipped fires cfg exclude now acc drawn).0) [
          | inl e ↦
              rw e
                (skip i rounds _ acc here (is_skipped-true fires cfg exclude now acc drawn e) rest)
          | inr e ↦ rw e (
            i,
            omega arith,
            refl,
            here,
            is_skipped-false fires cfg exclude now acc drawn e,
            λ j a b acc' e'. absurd (omega arith),
          )
        ])

next_enabled_idx-Outcome :
    (fires : ℕ → Bool) (cfg : Config) (accounts : List Account) (exclude : List String)
    (now start : ℕ)
    → Outcome fires cfg accounts exclude now start 0
        (length accounts)
        (next_enabled_idx fires cfg accounts exclude now start)
unfolding next_enabled_idx next_enabled_loop
next_enabled_idx-Outcome fires cfg [] exclude now start = λ j a b acc e. absurd (omega arith)
next_enabled_idx-Outcome fires cfg (x ∷ xs) exclude now start =
    next_enabled_loop-Outcome fires cfg (x ∷ xs) exclude now start (length (x ∷ xs)) 0 0
      (omega arith)

module _ (fires : ℕ → Bool) (cfg : Config) (accounts : List Account) (exclude : List String)
    (now start : ℕ) where
  -- The account that is handed out stands first among the usable ones in the circle from `start`:
  -- it is enabled, not excluded and not held in quarantine, and every account before it is blocked.
  pub next_enabled_idx-found :
      {idx : ℕ} {acc : Account}
      → next_enabled_idx fires cfg accounts exclude now start ≡ found idx acc
      → (k : ℕ) × (k < length accounts)
        × (idx ≡ (start + k) % length accounts)
        × (get_elem? accounts idx ≡ some acc)
        × Usable fires cfg exclude now acc
        × BlockedFrom fires cfg accounts exclude now start 0 k
  next_enabled_idx-found {idx} {acc} h =
      let o = next_enabled_idx-Outcome fires cfg accounts exclude now start in
      let (k, lt, e, at, u, before) =
        subst (Outcome fires cfg accounts exclude now start 0 (length accounts)) h o in
      (k, omega arith, e, rw e at, u, before)

  -- If no account is handed out, each one is disabled, excluded or inside its quarantine window.
  pub next_enabled_idx-nothing :
      next_enabled_idx fires cfg accounts exclude now start ≡ nothing
      → (idx : ℕ) (acc : Account) → get_elem? accounts idx ≡ some acc
      → Blocked cfg exclude now acc
  next_enabled_idx-nothing h idx acc e =
      let lt = get_elem?-lt accounts idx e in
      let o = next_enabled_idx-Outcome fires cfg accounts exclude now start in
      let (j, small, turn) = turn_of (length accounts) start idx lt in
      subst (Outcome fires cfg accounts exclude now start 0 (length accounts)) h o j (omega arith)
        (omega arith) acc (rw turn e)
