-- ===== src/AccountManager/Breaker.antt =====
-- The back-off of the circuit breaker.
use native.Mathlib.Nat.{pow-suc, mod-eq_of_lt}
use kiro_gateway_go.Common.{
  ℕ, zero, suc, ◌+◌, ◌-◌, ◌*◌, ◌^◌, ◌≤◌, ◌<◌, min, Bool, true, false, not, ◌≡◌, ◌↔◌, arith, ltb,
  ◌==◌, if◌then◌else◌, ap, ◌∙◌, refl,
}
use kiro_gateway_go.Common.Int.{word, max_int64, to_int64-small, pos, leb_ℤ}
use kiro_gateway_go.AccountManager.{
  Account, Config, backoff_loop, multiplier_of, quarantine_window, time_sub, window_of,
  within_window, is_in_quarantine, second,
}

pow-pos : (n : ℕ) → 0 < 2 ^ n
pow-pos zero = omega arith
pow-pos (suc n) = rw pow-suc (omega (arith, pow-pos n))

clamp : ℕ → ℕ → ℕ
clamp limit n = if ltb limit n then limit else n

clamp-loop :
    (rounds m limit : ℕ)
    → 0 < m
    → clamp limit (backoff_loop rounds m limit) ≡ min (m * 2 ^ rounds) limit
unfolding clamp backoff_loop
clamp-loop zero m limit h = ground arith
clamp-loop (suc rounds) m limit h =
    let ih = clamp-loop rounds (m * 2) limit (omega arith) in rw pow-suc (grind (arith, pow-pos))

multiplier_of-eq :
    (fails limit : ℕ) → 0 < fails → multiplier_of fails limit ≡ min (2 ^ (fails - 1)) limit
unfolding multiplier_of
multiplier_of-eq fails limit h =
    unfold clamp in
    (clamp-loop (fails - 1) 1 limit (omega arith) ∙ ap (λ n. min n limit) (omega arith))

nonzero : (n : ℕ) → 0 < n → (n == 0) ≡ false
nonzero n h = ground arith

mul-min_le : (base n limit : ℕ) → base * min n limit ≤ base * limit
mul-min_le base n limit = grind arith

-- After `fails` failures the quarantine lasts the base time doubled for each failure but the first,
-- and never more than the base time multiplied by the limit, as long as that product is a
-- `time.Duration`.
pub quarantine_window-eq :
    (fails base limit : ℕ)
    → 0 < fails
    → base * limit ≤ max_int64
    → quarantine_window fails base limit ≡ base * min (2 ^ (fails - 1)) limit
unfolding quarantine_window
quarantine_window-eq fails base limit f h =
    rw (nonzero fails f, multiplier_of-eq fails limit f)
      (mod-eq_of_lt (omega (arith, mul-min_le base (2 ^ (fails - 1)) limit)))

abbrev pub window_spec : Config → Account → ℕ
window_spec cfg a =
    cfg.account_recovery_timeout
    * second
    * min (2 ^ (a.stats.consecutive_failures - 1)) cfg.account_max_backoff_multiplier

window_of-eq :
    (cfg : Config) (a : Account)
    → 0 < a.stats.consecutive_failures
    → cfg.account_recovery_timeout * second ≤ max_int64
    → cfg.account_recovery_timeout * second * cfg.account_max_backoff_multiplier ≤ max_int64
    → window_of cfg a ≡ window_spec cfg a
unfolding window_of
window_of-eq cfg a f b h =
    rw (mod-eq_of_lt {n = cfg.account_recovery_timeout * second} {m = word} (omega arith)) (
      quarantine_window-eq a.stats.consecutive_failures (cfg.account_recovery_timeout * second)
        cfg.account_max_backoff_multiplier f h)

after_window :
    (window now last : ℕ)
    → window ≤ max_int64
    → (not (leb_ℤ (pos window) (time_sub now last)) ≡ true) ↔ (now < last + window)
unfolding time_sub
after_window window now last h = (ground arith, ground arith)

-- The time before the draw for an early retry.
pub within_window_iff :
    (cfg : Config) (a : Account) (now : ℕ)
    → 0 < a.stats.consecutive_failures
    → cfg.account_recovery_timeout * second ≤ max_int64
    → cfg.account_recovery_timeout * second * cfg.account_max_backoff_multiplier ≤ max_int64
    → (within_window cfg a now ≡ true) ↔ (now < a.stats.last_failure + window_spec cfg a)
unfolding within_window
within_window_iff cfg a now f b h =
    let w = window_of-eq cfg a f b h in
    let le : window_spec cfg a ≤ max_int64 = omega (
      arith,
      mul-min_le (cfg.account_recovery_timeout * second) (2 ^ (a.stats.consecutive_failures - 1))
          cfg.account_max_backoff_multiplier,
    ) in
    rw (nonzero a.stats.consecutive_failures f, w, to_int64-small (window_spec cfg a) le)
      (after_window (window_spec cfg a) now a.stats.last_failure le)

held :
    (c d : Bool) (drawn : ℕ)
    → ((let r : Bool × ℕ = if c then (not d, drawn + 1) else (false, drawn) in r.0) ≡ true)
      ↔ ((c ≡ true) × (d ≡ false))
held true true drawn = (λ h. absurd (cc), λ h. absurd (cc h.1))
held true false drawn = (λ h. (refl, refl), λ h. refl)
held false d drawn = (λ h. absurd (cc), λ h. absurd (cc h.0))

-- An account with failures is held in quarantine exactly if the draw for an early retry does not fire
-- and the time is before its last failure plus the back-off: the base time doubled for each failure
-- but the first, and at most the base time multiplied by the limit. This holds under a clock that
-- was set back as well. The bounds say that the configured times are `time.Duration`s.
pub is_in_quarantine_iff :
    (fires : ℕ → Bool) (cfg : Config) (a : Account) (now drawn : ℕ)
    → 0 < a.stats.consecutive_failures
    → cfg.account_recovery_timeout * second ≤ max_int64
    → cfg.account_recovery_timeout * second * cfg.account_max_backoff_multiplier ≤ max_int64
    → ((is_in_quarantine fires cfg a now drawn).0 ≡ true)
      ↔ ((now < a.stats.last_failure + window_spec cfg a) × (fires drawn ≡ false))
unfolding is_in_quarantine
is_in_quarantine_iff fires cfg a now drawn f b h =
    let (there, back) = held (within_window cfg a now) (fires drawn) drawn in
    let (inside, kept) = within_window_iff cfg a now f b h in
    (λ q. let (w, d) = there q in (inside w, d), λ q. back (kept q.0, q.1))
