-- ===== src/Tests/Failures.antt =====
-- The theorems on errors, accounts and failover at concrete data.
use kiro_gateway_go.Common.{
  ℕ, ◌+◌, ◌*◌, ◌<◌, Bool, true, false, some, List, [], ◌∷◌, zero, suc, ◌≡◌, ◌↔◌, ◌⊎◌, refl, arith,
}
use kiro_gateway_go.Common.Int.{to_int64}
use kiro_gateway_go.AccountErrors.{
  recoverable, classify, reason_invalid_model_id, classify-recoverable_iff,
}
use kiro_gateway_go.AccountManager.{
  window_of, time_sub, AccountStats, Account, Config, Manager, account, is_in_quarantine,
  next_enabled_idx, get_next_account, report_success, second, clear_stats, find_account_index_by_id,
  has,
}
use kiro_gateway_go.AccountManager.Breaker.{window_spec, is_in_quarantine_iff}
use kiro_gateway_go.AccountManager.GetNext.{
  Granted, get_next_account-account, get_next_account-report_success,
}
use kiro_gateway_go.Failover.{
  Reply, World, kiro_error, success, served, failover_chat_completions, failover, attempt_account,
}
use kiro_gateway_go.Failover.Termination.{failover_chat_completions-total}
use kiro_gateway_go.Failover.Replies.{Explained, failover_chat_completions-Explained}

abbrev status : ℕ
status = 400

classify-recoverable_iff_example : (classify status "INVALID_MODEL_ID" ≡ recoverable) ↔ (
    (status ≡ 402)
    ⊎ (status ≡ 403)
    ⊎ (status ≡ 429)
    ⊎ (status ≡ 400) × ("INVALID_MODEL_ID" ≡ reason_invalid_model_id))
classify-recoverable_iff_example = classify-recoverable_iff status "INVALID_MODEL_ID"

abbrev settings : Config
settings = record { account_recovery_timeout = 60; account_max_backoff_multiplier = 1440 }

abbrev with_failures : ℕ → ℕ → AccountStats
with_failures n at = record { consecutive_failures = n; last_failure = at; last_failure_msg = "" }

abbrev acc_a : Account
acc_a = record { id = "a"; enabled = true; stats = with_failures 3 (1000 * second) }

abbrev acc_b : Account
acc_b = record { id = "b"; enabled = true; stats = with_failures 0 0 }

abbrev acc_c : Account
acc_c = record { id = "c"; enabled = false; stats = with_failures 0 0 }

abbrev three : List Account
three = acc_a ∷ acc_b ∷ acc_c ∷ []

abbrev m : Manager
m = record { cfg = settings; accounts = three; sticky_idx = 0 }

abbrev never : ℕ → Bool
never n = false

is_in_quarantine_iff_example :
    ((is_in_quarantine never settings acc_a (1200 * second) 0).0 ≡ true)
    ↔ ((1200 * second < 1000 * second + window_spec settings acc_a) × (never 0 ≡ false))
is_in_quarantine_iff_example =
    is_in_quarantine_iff never settings acc_a (1200 * second) 0 (omega arith) (omega arith)
      (omega arith)

abbrev now : ℕ
now = 1200 * second

get_next_account-account_example : Granted never m [] now acc_b
unfolding get_next_account next_enabled_idx has to_int64 window_of time_sub
get_next_account-account_example = get_next_account-account never m [] now acc_b refl

get_next_account-report_success_example :
    get_next_account never (report_success m "a") [] now
    ≡ account (record acc_a { stats = clear_stats acc_a.stats })
unfolding find_account_index_by_id has
get_next_account-report_success_example =
    get_next_account-report_success never m [] now 0 acc_a refl refl refl refl

-- The first account asks too much of the API, the second serves.
abbrev world : World
world = record {
  fires = λ n. never;
  clock = λ n. now;
  respond = λ n acc. elim acc.stats.consecutive_failures [
    | zero ↦ success
    | suc _ ↦ kiro_error 429 "" "slow down"
  ];
}

abbrev ready : Manager
ready = record m { accounts = acc_b ∷ acc_c ∷ [] }

failover_chat_completions-total_example :
    (r : Manager × Reply) × (failover_chat_completions world 4 m ≡ some r)
failover_chat_completions-total_example = failover_chat_completions-total world m

failover_chat_completions-Explained_example : Explained world served
unfolding failover_chat_completions report_success get_next_account find_account_index_by_id
    next_enabled_idx has to_int64 window_of time_sub failover attempt_account
failover_chat_completions-Explained_example =
    failover_chat_completions-Explained world 3 ready (report_success ready "b") served
      (omega arith) refl
