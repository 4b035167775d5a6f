-- ===== src/Tests/States.antt =====
-- The theorems on the saved state at concrete accounts.
use kiro_gateway_go.Common.{true, false, String, List, [], ◌∷◌, ◌≡◌, refl, ◌==◌}
use kiro_gateway_go.AccountManager.{Account, Manager, has}
use kiro_gateway_go.AccountManager.State.{snapshot, has_state_changed, save_state}
use kiro_gateway_go.AccountManager.State.Dirty.{has_state_changed-save_state}

abbrev plain : String → Account
plain id = record {
  id = id;
  enabled = true;
  stats = record { consecutive_failures = 0; last_failure = 0; last_failure_msg = "" };
}

abbrev two : List Account
two = plain "a" ∷ plain "b" ∷ []

abbrev manager : Manager
manager = record {
  cfg = record { account_recovery_timeout = 60; account_max_backoff_multiplier = 1440 };
  accounts = two;
  sticky_idx = 0;
}

-- The second attempt to rename works.
has_state_changed-save_state_example : has_state_changed (snapshot two []) two ≡ false
unfolding save_state has
has_state_changed-save_state_example =
    has_state_changed-save_state "state.json" (λ n. n == 2) two [] (snapshot two []) refl refl refl
