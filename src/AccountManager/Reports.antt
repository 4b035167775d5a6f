-- ===== src/AccountManager/Reports.antt =====
-- What the reports of failures and successes do to the breaker and to the other accounts.
use native.Mathlib.Decide.{ℕ_discrete}
use kiro_gateway_go.Common.{
  ℕ, ◌+◌, ◌*◌, ◌<◌, ◌≤◌, true, String, none, some, List, ◌≡◌, ◌≢◌, ◌↔◌, inl, inr, refl, ap, ◌∙◌,
  arith, get_elem?, Option-cases, map,
}
use kiro_gateway_go.Common.Int.{max_int64}
use kiro_gateway_go.AccountErrors.{ErrorType, fatal, recoverable, classify}
use kiro_gateway_go.AccountManager.{
  Account, AccountStats, Config, Manager, second, within_window, window_of,
  find_account_index_by_id, update_at, failed_stats, report_failure_as, report_failure,
}
use kiro_gateway_go.AccountManager.Accounts.{
  get_elem?-update_at_self, get_elem?-update_at_ne, ids-update_at,
}
use kiro_gateway_go.AccountManager.Breaker.{window_spec, within_window_iff}

-- The account as the breaker and the selection see it.
pub record SameBreaker (cfg : Config) (a b : Account) : Type 0 where
  pub id : a.id ≡ b.id
  pub enabled : a.enabled ≡ b.enabled
  pub window : (now : ℕ) → within_window cfg a now ≡ within_window cfg b now

SameBreaker-refl : (cfg : Config) (a : Account) → SameBreaker cfg a a
SameBreaker-refl cfg a = record { id = refl; enabled = refl; window = λ now. refl }

SameBreaker-fatal :
    (cfg : Config) (msg : String) (now : ℕ) (a : Account)
    → SameBreaker cfg a (record a { stats = failed_stats fatal msg now a.stats })
unfolding failed_stats within_window window_of
SameBreaker-fatal cfg msg now a = record { id = refl; enabled = refl; window = λ t. refl }

update_at-SameBreaker :
    (cfg : Config) (f : AccountStats → AccountStats)
    → ((a : Account) → SameBreaker cfg a (record a { stats = f a.stats }))
    → (accounts : List Account) (i j : ℕ) (acc : Account) → get_elem? accounts j ≡ some acc
    → (acc' : Account) × (get_elem? (update_at accounts i f) j ≡ some acc')
      × SameBreaker cfg acc acc'
update_at-SameBreaker cfg f same accounts i j acc at = elim (ℕ_discrete i j) [
  | yes e ↦ (
    record acc { stats = f acc.stats },
    rw e (get_elem?-update_at_self f accounts j acc at),
    same acc,
  )
  | no ne ↦ (acc, get_elem?-update_at_ne f accounts i j ne ∙ at, SameBreaker-refl cfg acc)
]

pub report_failure_as-some :
    (m : Manager) (k : String) (kind : ErrorType) (msg : String) (now i : ℕ)
    → find_account_index_by_id k m.accounts ≡ some i
    → report_failure_as m k kind msg now
      ≡ (record m { accounts = update_at m.accounts i (failed_stats kind msg now) }, kind)
unfolding report_failure_as
report_failure_as-some m k kind msg now i f = rw (f, report_failure_as)

report_failure_as-none :
    (m : Manager) (k : String) (kind : ErrorType) (msg : String) (now : ℕ)
    → find_account_index_by_id k m.accounts ≡ none
    → report_failure_as m k kind msg now ≡ (m, kind)
unfolding report_failure_as
report_failure_as-none m k kind msg now f = rw (f, report_failure_as)

-- A fatal failure is the client's: no account comes nearer to quarantine, or leaves it.
pub report_failure-fatal :
    (m : Manager) (k : String) (status : ℕ) (reason msg : String) (now j : ℕ) (acc : Account)
    → classify status reason ≡ fatal
    → get_elem? m.accounts j ≡ some acc
    → (acc' : Account) × (get_elem? (report_failure m k status reason msg now).0.accounts j
        ≡ some acc')
      × SameBreaker m.cfg acc acc'
unfolding report_failure
report_failure-fatal m k status reason msg now j acc f at =
    elim (Option-cases (find_account_index_by_id k m.accounts)) [
      | inl none_found ↦
          rw (report_failure_as-none m k (classify status reason) msg now none_found)
            (acc, at, SameBreaker-refl m.cfg acc)
      | inr (i, found) ↦
          rw (report_failure_as-some m k (classify status reason) msg now i found, f)
            (update_at-SameBreaker m.cfg (failed_stats fatal msg now)
              (SameBreaker-fatal m.cfg msg now) m.accounts i j acc at)
    ]

-- A recoverable failure opens the breaker of the account it is reported for: from now on and until
-- the back-off time of one more failure is over it is held in quarantine.
pub report_failure_as-recoverable :
    (m : Manager) (msg : String) (now i : ℕ) (acc : Account)
    → find_account_index_by_id acc.id m.accounts ≡ some i
    → get_elem? m.accounts i ≡ some acc
    → m.cfg.account_recovery_timeout * second ≤ max_int64
    → m.cfg.account_recovery_timeout * second * m.cfg.account_max_backoff_multiplier ≤ max_int64
    → (acc' : Account) × (get_elem? (report_failure_as m acc.id recoverable msg now).0.accounts i
        ≡ some acc')
      × (acc'.stats.consecutive_failures ≡ acc.stats.consecutive_failures + 1)
      × ((t : ℕ) → (within_window m.cfg acc' t ≡ true) ↔ (t < now + window_spec m.cfg acc'))
unfolding failed_stats
report_failure_as-recoverable m msg now i acc found at b h =
    let acc' = record acc { stats = failed_stats recoverable msg now acc.stats } in
    rw (report_failure_as-some m acc.id recoverable msg now i found) (
      acc',
      get_elem?-update_at_self (failed_stats recoverable msg now) m.accounts i acc at,
      refl,
      λ t. within_window_iff m.cfg acc' t (omega arith) b h,
    )

abbrev pub ids : Manager → List String
ids m = map (λ (a : Account). a.id) m.accounts

-- No report of a failure moves the sticky index or touches another account.
pub report_failure_as-frame :
    (m : Manager) (k : String) (kind : ErrorType) (msg : String) (now : ℕ)
    → let m' = (report_failure_as m k kind msg now).0 in
      (m'.sticky_idx ≡ m.sticky_idx)
      × (ids m' ≡ ids m)
      × ((j : ℕ)
          → find_account_index_by_id k m.accounts ≢ some j
          → get_elem? m'.accounts j ≡ get_elem? m.accounts j)
report_failure_as-frame m k kind msg now =
    elim (Option-cases (find_account_index_by_id k m.accounts)) [
      | inl none_found ↦
          rw (report_failure_as-none m k kind msg now none_found) (refl, refl, λ j ne. refl)
      | inr (i, found) ↦ rw (report_failure_as-some m k kind msg now i found) (
        refl,
        ids-update_at (failed_stats kind msg now) m.accounts i,
        λ j ne.
            get_elem?-update_at_ne (failed_stats kind msg now) m.accounts i j
              (λ e. ne (found ∙ ap some e)),
      )
    ]
