-- ===== src/AccountManager.antt =====
-- internal/accountmanager: the accounts, their failure statistics, the circuit breaker and the
-- choice of the account for a request (types.go, breaker.go, selection.go, failover.go).
-- A `time.Time` is its nanoseconds since Go's zero time, so 0 is `IsZero`. A `time.Duration` is a
-- 64-bit pattern. The clock is the argument `now`. `m.randFloat() < chance` is a drawn Boolean:
-- `fires n` is the outcome of the n-th draw, and the number of draws made is passed on.
-- The fields of an account that these operations do not read are left out.
pub mod Breaker
pub mod Reports
pub mod Accounts
pub mod GetNext
pub mod Selection
pub mod State
use kiro_gateway_go.Common.{
  ℕ, zero, suc, ◌+◌, ◌-◌, ◌*◌, ◌/◌, ◌%◌, Bool, true, false, not, ◌||◌, String, Option, none, some,
  List, [], ◌∷◌, ltb, leb, ◌==◌, min, if◌then◌else◌, length, get_elem?, set, str_eq,
}
use kiro_gateway_go.Common.Int.{ℤ, pos, negsuc, leb_ℤ, word, max_int64, to_int64}
use kiro_gateway_go.AccountErrors.{ErrorType, fatal, recoverable, classify}

pub record AccountStats : Type 0 where
  pub consecutive_failures : ℕ
  pub last_failure : ℕ
  pub last_failure_msg : String

pub record Account : Type 0 where
  pub id : String
  pub enabled : Bool
  pub stats : AccountStats

-- The settings that are read here, none of them negative.
pub record Config : Type 0 where
  pub account_recovery_timeout : ℕ
  pub account_max_backoff_multiplier : ℕ

pub record Manager : Type 0 where
  pub cfg : Config
  pub accounts : List Account
  pub sticky_idx : ℕ

-- The loop of `quarantineWindow` over the rounds that are left; both breaks set the cap.
backoff_loop : ℕ → ℕ → ℕ → ℕ
backoff_loop zero multiplier limit = multiplier
backoff_loop (suc rounds) multiplier limit =
    let rest = backoff_loop rounds (multiplier * 2) limit in
    if ltb limit multiplier then limit else if ltb (limit / 2) multiplier then limit else rest

unfoldable pub multiplier_of : ℕ → ℕ → ℕ
unfolding backoff_loop
multiplier_of fails limit =
    let multiplier = backoff_loop (fails - 1) 1 limit in
    if ltb limit multiplier then limit else multiplier

-- `base * time.Duration(multiplier)` in 64 bits.
unfoldable pub quarantine_window : ℕ → ℕ → ℕ → ℕ
unfolding multiplier_of
quarantine_window fails base limit =
    if fails == 0 then 0 else base * multiplier_of fails limit % word

abbrev pub second : ℕ
second = 1000000000

-- `now.Sub(last)`, which saturates.
unfoldable pub time_sub : ℕ → ℕ → ℤ
time_sub now last =
    if leb last now
    then pos (min (now - last) max_int64)
    else negsuc (min (last - now - 1) max_int64)

unfoldable pub window_of : Config → Account → ℕ
unfolding quarantine_window
window_of cfg a =
    quarantine_window a.stats.consecutive_failures (cfg.account_recovery_timeout * second % word)
      cfg.account_max_backoff_multiplier

-- The test of the window, before the draw.
unfoldable pub within_window : Config → Account → ℕ → Bool
within_window cfg a now =
    if a.stats.consecutive_failures == 0
    then false
    else not (leb_ℤ (to_int64 (window_of cfg a)) (time_sub now a.stats.last_failure))

-- The answer and the number of draws made.
unfoldable pub is_in_quarantine : (ℕ → Bool) → Config → Account → ℕ → ℕ → Bool × ℕ
unfolding within_window
is_in_quarantine fires cfg a now drawn =
    if within_window cfg a now then (not (fires drawn), drawn + 1) else (false, drawn)

unfoldable pub has : String → List String → Bool
has k [] = false
has k (j ∷ ids) = str_eq j k || has k ids

pub data Choice : Type 0 where
  found : ℕ → Account → Choice
  nothing : Choice

-- One round of the loop of `nextEnabledIdx`: whether the account is skipped.
unfoldable pub is_skipped : (ℕ → Bool) → Config → List String → ℕ → Account → ℕ → Bool × ℕ
unfolding is_in_quarantine
is_skipped fires cfg exclude now acc drawn =
    if not acc.enabled
    then (true, drawn)
    else if has acc.id exclude
    then (true, drawn)
    else is_in_quarantine fires cfg acc now drawn

module _ (fires : ℕ → Bool) (cfg : Config) (accounts : List Account) (exclude : List String)
    (now start : ℕ) where
  -- The rounds left, the round, and the draws made. An index out of range would panic; it is never
  -- out of range.
  next_enabled_loop : ℕ → ℕ → ℕ → Choice
  unfolding is_skipped
  next_enabled_loop zero i drawn = nothing
  next_enabled_loop (suc rounds) i drawn =
      elim (get_elem? accounts ((start + i) % length accounts)) [
        | none ↦ nothing
        | some acc ↦
            let (skipped, drawn') = is_skipped fires cfg exclude now acc drawn in
            let rest = next_enabled_loop rounds (i + 1) drawn' in
            if skipped then rest else found ((start + i) % length accounts) acc
      ]

  unfoldable pub next_enabled_idx : Choice
  unfolding next_enabled_loop
  next_enabled_idx = next_enabled_loop (length accounts) 0 0

pub data Selected : Type 0 where
  account : Account → Selected
  exhausted : String → Selected

abbrev or_else : String → String → String
or_else msg default = if str_eq msg "" then default else msg

-- `GetNextAccount` with more than one account.
next_of_many : (ℕ → Bool) → Manager → List String → ℕ → Selected
next_of_many fires m exclude now =
    elim (next_enabled_idx fires m.cfg m.accounts exclude now m.sticky_idx) [
      | found _ acc ↦ account acc
      | nothing ↦
          let last = (m.sticky_idx + length m.accounts - 1) % length m.accounts in
          elim (get_elem? m.accounts last) [
            | none ↦ exhausted "no accounts available"
            | some acc ↦ exhausted (or_else acc.stats.last_failure_msg "no accounts available")
          ]
    ]

-- The dispatch on the number of accounts.
next_of : List Account → (ℕ → Bool) → Manager → List String → ℕ → Selected
unfolding next_of_many
next_of [] fires m exclude now = exhausted "no accounts available"
next_of (acc ∷ []) fires m exclude now =
    if has acc.id exclude
    then exhausted (or_else acc.stats.last_failure_msg "account already tried")
    else account acc
next_of (_ ∷ _ ∷ _) fires m exclude now = next_of_many fires m exclude now

unfoldable pub get_next_account : (ℕ → Bool) → Manager → List String → ℕ → Selected
unfolding next_of
get_next_account fires m exclude now = next_of m.accounts fires m exclude now

-- `findAccountIndexByID`; `none` is -1.
unfoldable pub find_account_index_by_id : String → List Account → Option ℕ
find_account_index_by_id k [] = none
find_account_index_by_id k (acc ∷ accounts) =
    if str_eq acc.id k
    then some 0
    else elim (find_account_index_by_id k accounts) [ none ↦ none | some i ↦ some (suc i) ]

-- A write through the pointer at index `i`.
abbrev pub update_at : List Account → ℕ → (AccountStats → AccountStats) → List Account
update_at [] i f = []
update_at (acc ∷ accounts) zero f = record acc { stats = f acc.stats } ∷ accounts
update_at (acc ∷ accounts) (suc i) f = acc ∷ update_at accounts i f

abbrev pub clear_stats : AccountStats → AccountStats
clear_stats s = record { consecutive_failures = 0; last_failure = 0; last_failure_msg = "" }

unfoldable pub report_success : Manager → String → Manager
report_success m account_id = elim (find_account_index_by_id account_id m.accounts) [
  | none ↦ m
  | some i ↦ record m {
    accounts = update_at m.accounts i clear_stats;
    sticky_idx = if not (m.sticky_idx == i) then i else m.sticky_idx;
  }
]

-- What a failure of the given kind writes; `ConsecutiveFailures` is an int, far from its bound.
unfoldable pub failed_stats : ErrorType → String → ℕ → AccountStats → AccountStats
failed_stats recoverable msg now s = record {
  consecutive_failures = s.consecutive_failures + 1;
  last_failure = now;
  last_failure_msg = msg;
}
failed_stats fatal msg now s = record s { last_failure_msg = msg }

unfoldable pub report_failure_as : Manager → String → ErrorType → String → ℕ → Manager × ErrorType
report_failure_as m account_id kind msg now =
    elim (find_account_index_by_id account_id m.accounts) [
      | none ↦ (m, kind)
      | some i ↦ (record m { accounts = update_at m.accounts i (failed_stats kind msg now) }, kind)
    ]

unfoldable pub report_failure : Manager → String → ℕ → String → String → ℕ → Manager × ErrorType
unfolding report_failure_as
report_failure m account_id status_code reason msg now =
    report_failure_as m account_id (classify status_code reason) msg now
