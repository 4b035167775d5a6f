-- ===== src/AccountManager/State.antt =====
-- internal/accountmanager/state.go and `hasStateChanged` of manager.go: when the failure statistics
-- are saved, and whether they have to be. The map `lastSaved` is a list with one entry for a key.
-- What the file system answers is a parameter; the text of the file is not modelled.
pub mod Dirty
use kiro_gateway_go.Common.{
  ℕ, zero, suc, ◌+◌, ◌-◌, ◌<◌, Bool, true, false, not, ◌&&◌, ◌||◌, String, Option, none, some, List,
  [], ◌∷◌, ◌==◌, str_eq, if◌then◌else◌, length,
}
use kiro_gateway_go.AccountManager.{Account, AccountStats, Manager}

abbrev pub Saved : Type 0
Saved = List (String × AccountStats)

-- `m[k] = v` and `m[k]`.
unfoldable pub put : String → AccountStats → Saved → Saved
put k v [] = (k, v) ∷ []
put k v ((j, w) ∷ m) = if str_eq j k then (k, v) ∷ m else (j, w) ∷ put k v m

unfoldable pub get : String → Saved → Option AccountStats
get k [] = none
get k ((j, w) ∷ m) = if str_eq j k then some w else get k m

-- The loop `snapshot[acc.ID] = acc.Stats` of `SaveState` and `LoadState`.
unfoldable pub snapshot : List Account → Saved → Saved
unfolding put
snapshot [] m = m
snapshot (acc ∷ accounts) m = snapshot accounts (put acc.id acc.stats m)

-- The statistics of an account that was not saved before.
unfoldable pub touched : AccountStats → Bool
touched s =
    not (s.consecutive_failures == 0)
    || not (s.last_failure == 0)
    || not (str_eq s.last_failure_msg "")

unfoldable pub stats_differ : AccountStats → AccountStats → Bool
stats_differ saved s =
    not (saved.consecutive_failures == s.consecutive_failures)
    || not (str_eq saved.last_failure_msg s.last_failure_msg)
    || not (saved.last_failure == s.last_failure)

-- The body of the loop of `hasStateChanged`.
abbrev pub differs_from : Option AccountStats → AccountStats → Bool
differs_from none s = touched s
differs_from (some saved) s = stats_differ saved s

unfoldable pub any_changed : Saved → List Account → Bool
any_changed saved [] = false
any_changed saved (acc ∷ accounts) =
    differs_from (get acc.id saved) acc.stats || any_changed saved accounts

unfoldable pub has_state_changed : Saved → List Account → Bool
has_state_changed saved accounts =
    if any_changed saved accounts then true else not (length saved == length accounts)

-- The loop of `renameWithRetry` over the attempts that are left, with the answer to each.
rename_loop : (ℕ → Bool) → ℕ → ℕ → Bool
rename_loop rename zero attempt = false
rename_loop rename (suc left) attempt =
    let rest = rename_loop rename left (attempt + 1) in if rename attempt then true else rest

unfoldable pub rename_with_retry : (ℕ → Bool) → Bool
unfolding rename_loop
rename_with_retry rename = rename_loop rename 3 1

-- The new `lastSaved`, and whether `SaveState` returns nil. `written` says that the state was
-- encoded and the temporary file written.
unfoldable pub save_state : String → Bool → (ℕ → Bool) → List Account → Saved → Saved × Bool
unfolding rename_with_retry
save_state state_file written rename accounts saved =
    if str_eq state_file ""
    then (saved, true)
    else if not written
    then (saved, false)
    else if rename_with_retry rename
    then (snapshot accounts [], true)
    else (saved, false)
