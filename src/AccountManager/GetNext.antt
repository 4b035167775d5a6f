-- ===== src/AccountManager/GetNext.antt =====
-- `GetNextAccount`: what it hands out and when it gives up, and the sticky account.
use native.Mathlib.Nat.{mod-eq_of_lt, add-zero}
use kiro_gateway_go.Common.{
  ℕ, zero, suc, ◌+◌, ◌<◌, ◌%◌, Bool, true, false, String, some, List, [], ◌∷◌, ◌≡◌, ◌⊎◌, inl, inr,
  refl, sym, ap, ◌∙◌, arith, length, get_elem?, get_elem?-lt, Bool-cases, some_inj, if◌then◌else◌,
  not, ◌==◌,
}
use kiro_gateway_go.AccountManager.{
  Account, Config, Manager, Choice, found, nothing, account, exhausted, has, within_window,
  next_enabled_idx, next_of, next_of_many, get_next_account, report_success,
  find_account_index_by_id, update_at, clear_stats,
}
use kiro_gateway_go.AccountManager.Accounts.{get_elem?-update_at_self}
use kiro_gateway_go.AccountManager.Selection.{
  Blocked, Usable, BlockedFrom, at_turn, next_enabled_idx-found, next_enabled_idx-nothing,
}

Choice-cases : (c : Choice) → ((idx : ℕ) × (acc : Account) × (c ≡ found idx acc)) ⊎ (c ≡ nothing)
Choice-cases (found idx acc) = inl (idx, acc, refl)
Choice-cases nothing = inr refl

-- What holds of an account that is handed out. With one account alone the breaker is bypassed.
pub record Granted (fires : ℕ → Bool) (m : Manager) (exclude : List String) (now : ℕ)
    (acc : Account) : Type 0 where
  pub idx : ℕ
  pub at : get_elem? m.accounts idx ≡ some acc
  pub not_excluded : has acc.id exclude ≡ false
  pub usable : 1 < length m.accounts → Usable fires m.cfg exclude now acc

not_Blocked :
    (cfg : Config) (exclude : List String) (now : ℕ) (acc : Account)
    → acc.enabled ≡ true
    → has acc.id exclude ≡ false
    → within_window cfg acc now ≡ false
    → ¬ Blocked cfg exclude now acc
not_Blocked cfg exclude now acc on x w b = ground arith

only_one : (a acc : Account) (i : ℕ) → get_elem? (a ∷ []) i ≡ some acc → a ≡ acc
only_one a acc zero h = some_inj h
only_one a acc (suc i) h = cc

sticky_set : (a i : ℕ) → (if not (a == i) then i else a) ≡ i
sticky_set a i = ground arith

report_success-some :
    (m : Manager) (k : String) (i : ℕ)
    → find_account_index_by_id k m.accounts ≡ some i
    → report_success m k
      ≡ record m { accounts = update_at m.accounts i clear_stats; sticky_idx = i }
unfolding report_success
report_success-some m k i f = rw (f, report_success, sticky_set)

turn_zero : (s n : ℕ) → s < n → (s + 0) % n ≡ s
turn_zero s n h = rw add-zero (mod-eq_of_lt h)

module _ (fires : ℕ → Bool) (m : Manager) (exclude : List String) (now : ℕ) where
  next_of_many-account :
      (acc : Account)
      → next_of_many fires m exclude now ≡ account acc
      → Granted fires m exclude now acc
  unfolding next_of_many
  next_of_many-account acc h =
      elim (Choice-cases (next_enabled_idx fires m.cfg m.accounts exclude now m.sticky_idx)) [
        | inl (idx, acc', e) ↦
            let (k, lt, i, at, u, before) =
              next_enabled_idx-found fires m.cfg m.accounts exclude now m.sticky_idx e in
            let same : acc' ≡ acc = ground (arith, e) in
            record {
              idx = idx;
              at = at ∙ ap some same;
              not_excluded = rw (← same) u.not_excluded;
              usable = λ _. rw (← same) u;
            }
        | inr e ↦ absurd (ground (arith, e))
      ]

  next_of_many-exhausted :
      (msg : String)
      → next_of_many fires m exclude now ≡ exhausted msg
      → next_enabled_idx fires m.cfg m.accounts exclude now m.sticky_idx ≡ nothing
  unfolding next_of_many
  next_of_many-exhausted msg h =
      elim (Choice-cases (next_enabled_idx fires m.cfg m.accounts exclude now m.sticky_idx)) [
        | inl (idx, acc', e) ↦ absurd (ground (arith, e))
        | inr e ↦ e
      ]

  next_of-account :
      (accounts : List Account) (acc : Account)
      → m.accounts ≡ accounts
      → next_of accounts fires m exclude now ≡ account acc
      → Granted fires m exclude now acc
  unfolding next_of
  next_of-account [] acc e h = absurd (ground arith)
  next_of-account (a ∷ []) acc e h = elim (Bool-cases (has a.id exclude)) [
    | inl x ↦ absurd (ground arith)
    | inr x ↦
        let same : a ≡ acc = ground arith in
        record {
          idx = 0;
          at = rw e (ap some same);
          not_excluded = rw (← same) x;
          usable = λ lt. absurd (omega (arith, ap (length {A = Account}) e));
        }
  ]
  next_of-account (a ∷ b ∷ accounts) acc e h = next_of_many-account acc h

  next_of-exhausted :
      (accounts : List Account) (msg : String)
      → m.accounts ≡ accounts
      → next_of accounts fires m exclude now ≡ exhausted msg
      → (idx : ℕ) (acc : Account) → get_elem? accounts idx ≡ some acc
      → Blocked m.cfg exclude now acc
  unfolding next_of
  next_of-exhausted [] msg e h idx acc at = absurd (ground arith)
  next_of-exhausted (a ∷ []) msg e h zero acc at = elim (Bool-cases (has a.id exclude)) [
    | inl x ↦ inr (inl (ap (λ (b : Account). has b.id exclude) (sym (some_inj at)) ∙ x))
    | inr x ↦ absurd (ground arith)
  ]
  next_of-exhausted (a ∷ []) msg e h (suc idx) acc at = absurd (ground arith)
  next_of-exhausted (a ∷ b ∷ accounts) msg e h idx acc at =
      next_enabled_idx-nothing fires m.cfg m.accounts exclude now m.sticky_idx
        (next_of_many-exhausted msg h) idx acc (rw e at)

  -- An account that `GetNextAccount` hands out is one of the accounts, and not one that this request
  -- has tried. With several accounts it is also enabled and not held in quarantine.
  pub get_next_account-account :
      (acc : Account)
      → get_next_account fires m exclude now ≡ account acc
      → Granted fires m exclude now acc
  unfolding get_next_account
  get_next_account-account acc h = next_of-account m.accounts acc refl h

  -- `GetNextAccount` fails only if every account is disabled, was tried by this request or is
  -- inside its quarantine window.
  pub get_next_account-exhausted :
      (msg : String)
      → get_next_account fires m exclude now ≡ exhausted msg
      → (idx : ℕ) (acc : Account) → get_elem? m.accounts idx ≡ some acc
      → Blocked m.cfg exclude now acc
  unfolding get_next_account
  get_next_account-exhausted msg h = next_of-exhausted m.accounts msg refl h

  -- Only the first turn is not behind an unblocked account.
  first_turn :
      (acc acc' : Account) (k : ℕ)
      → get_elem? m.accounts m.sticky_idx ≡ some acc
      → ¬ Blocked m.cfg exclude now acc
      → at_turn m.accounts m.sticky_idx k ≡ some acc'
      → BlockedFrom fires m.cfg m.accounts exclude now m.sticky_idx 0 k
      → acc' ≡ acc
  first_turn acc acc' zero at free turn before =
      some_inj (sym turn ∙ rw (turn_zero m.sticky_idx (length m.accounts) (get_elem?-lt _ _ at)) at)
  first_turn acc acc' (suc k) at free turn before = absurd (
      free (
        before 0 (omega arith) (omega arith) acc
          (rw (turn_zero m.sticky_idx (length m.accounts) (get_elem?-lt _ _ at)) at)))

  -- The usable account at the sticky index comes first.
  next_of_many-sticky :
      (acc : Account)
      → get_elem? m.accounts m.sticky_idx ≡ some acc
      → acc.enabled ≡ true
      → has acc.id exclude ≡ false
      → within_window m.cfg acc now ≡ false
      → next_of_many fires m exclude now ≡ account acc
  unfolding next_of_many
  next_of_many-sticky acc at on x w =
      elim (Choice-cases (next_enabled_idx fires m.cfg m.accounts exclude now m.sticky_idx)) [
        | inl (idx, acc', e) ↦
            let (k, lt, i, at', u, before) =
              next_enabled_idx-found fires m.cfg m.accounts exclude now m.sticky_idx e in
            rw (e, next_of_many)
              (ap account (
                first_turn acc acc' k at (not_Blocked m.cfg exclude now acc on x w) (rw (← i) at')
                  before))
        | inr e ↦ absurd (
            not_Blocked m.cfg exclude now acc on x w (
              next_enabled_idx-nothing fires m.cfg m.accounts exclude now m.sticky_idx e
                m.sticky_idx acc at))
      ]

  next_of-sticky :
      (accounts : List Account) (acc : Account)
      → m.accounts ≡ accounts
      → get_elem? m.accounts m.sticky_idx ≡ some acc
      → acc.enabled ≡ true
      → has acc.id exclude ≡ false
      → within_window m.cfg acc now ≡ false
      → next_of accounts fires m exclude now ≡ account acc
  unfolding next_of
  next_of-sticky [] acc e at on x w =
      absurd (ground (arith, get_elem?-lt m.accounts m.sticky_idx at))
  next_of-sticky (a ∷ []) acc e at on x w =
      let same = only_one a acc m.sticky_idx (rw e at at) in rw (same, x) refl
  next_of-sticky (a ∷ b ∷ accounts) acc e at on x w = next_of_many-sticky acc at on x w

-- The account of a success report is the one that the next request gets, whatever its failures
-- were, if it is enabled and not tried before.
pub get_next_account-report_success :
    (fires : ℕ → Bool) (m : Manager) (exclude : List String) (now i : ℕ) (acc : Account)
    → find_account_index_by_id acc.id m.accounts ≡ some i
    → get_elem? m.accounts i ≡ some acc
    → acc.enabled ≡ true
    → has acc.id exclude ≡ false
    → get_next_account fires (report_success m acc.id) exclude now
      ≡ account (record acc { stats = clear_stats acc.stats })
unfolding get_next_account within_window
get_next_account-report_success fires m exclude now i acc f at on x =
    let acc' = record acc { stats = clear_stats acc.stats } in
    let m' = record m { accounts = update_at m.accounts i clear_stats; sticky_idx = i } in
    let e = report_success-some m acc.id i f in
    ap (λ n. get_next_account fires n exclude now) e
    ∙ next_of-sticky fires m' exclude now m'.accounts acc' refl
        (get_elem?-update_at_self clear_stats m.accounts i acc at) on x refl
