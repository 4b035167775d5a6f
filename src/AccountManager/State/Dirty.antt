-- ===== src/AccountManager/State/Dirty.antt =====
-- After a save the state is clean until a failure is reported (state.go, manager.go).
use kiro_gateway_go.Common.{
  ℕ, zero, suc, ◌+◌, Bool, true, false, not, ◌&&◌, ◌||◌, String, none, some, List, [], ◌∷◌, ◌≡◌,
  inl, inr, refl, sym, ap, ◌∙◌, arith, str_eq, eq_iff, if◌then◌else◌, length, map, Bool-cases,
  Option-cases,
}
use kiro_gateway_go.AccountErrors.{recoverable}
use kiro_gateway_go.AccountManager.{
  Account, AccountStats, Manager, has, find_account_index_by_id, report_failure_as, failed_stats,
  update_at,
}
use kiro_gateway_go.AccountManager.Reports.{report_failure_as-some}
use kiro_gateway_go.AccountManager.State.{
  Saved, put, get, snapshot, stats_differ, differs_from, any_changed, has_state_changed,
  rename_with_retry, save_state,
}

abbrev pub account_ids : List Account → List String
account_ids accounts = map (λ (a : Account). a.id) accounts

-- No two accounts have the same id.
abbrev pub distinct : List Account → Bool
distinct [] = true
distinct (acc ∷ accounts) = not (has acc.id (account_ids accounts)) && distinct accounts

str_eq_refl : (k : String) → str_eq k k ≡ true
str_eq_refl k = (eq_iff k k).1 refl

or-false : (a b : Bool) → (a || b) ≡ false → (a ≡ false) × (b ≡ false)
or-false a b h = ground arith

and-true : (a b : Bool) → (not a && b) ≡ true → (a ≡ false) × (b ≡ true)
and-true a b h = ground arith

str_eq-sym : (j k : String) → str_eq j k ≡ false → str_eq k j ≡ false
str_eq-sym j k h = elim (Bool-cases (str_eq k j)) [
  | inr n ↦ n
  | inl e ↦ absurd (cc ((eq_iff j k).1 (sym ((eq_iff k j).0 e))))
]

get-put_same : (k : String) (v : AccountStats) (m : Saved) → get k (put k v m) ≡ some v
unfolding get put
get-put_same k v [] = rw (str_eq_refl k)
get-put_same k v ((j, w) ∷ m) = elim (Bool-cases (str_eq j k)) [
  | inl e ↦ rw (e, str_eq_refl k)
  | inr n ↦ rw (n, n) (get-put_same k v m)
]

get-put_ne :
    (k j : String) (v : AccountStats) (m : Saved) → str_eq j k ≡ false → get k (put j v m) ≡ get k m
unfolding get put
get-put_ne k j v [] h = rw h
get-put_ne k j v ((i, w) ∷ m) h = elim (Bool-cases (str_eq i j)) [
  | inl e ↦ let same = (eq_iff i j).0 e in rw (e, h, same, h)
  | inr n ↦ rw n (ap (λ o. if str_eq i k then some w else o) (get-put_ne k j v m h))
]

length-put :
    (k : String) (v : AccountStats) (m : Saved)
    → get k m ≡ none
    → length (put k v m) ≡ suc (length m)
unfolding get put
length-put k v [] h = refl
length-put k v ((j, w) ∷ m) h = elim (Bool-cases (str_eq j k)) [
  | inl e ↦ absurd (cc (rw e at h))
  | inr n ↦ rw n (ap suc (length-put k v m (rw n at h)))
]

-- Every account has its statistics in the map.
abbrev AllSaved : Saved → List Account → Type 0
AllSaved m [] = Unit
AllSaved m (acc ∷ accounts) = (get acc.id m ≡ some acc.stats) × AllSaved m accounts

-- No account is in the map.
abbrev Fresh : Saved → List Account → Type 0
Fresh m [] = Unit
Fresh m (acc ∷ accounts) = (get acc.id m ≡ none) × Fresh m accounts

Fresh-put :
    (k : String) (v : AccountStats) (m : Saved) (accounts : List Account)
    → has k (account_ids accounts) ≡ false
    → Fresh m accounts
    → Fresh (put k v m) accounts
unfolding has
Fresh-put k v m [] h f = tt
Fresh-put k v m (acc ∷ accounts) h (f, fs) =
    let (ne, later) = or-false (str_eq acc.id k) (has k (account_ids accounts)) h in
    (get-put_ne acc.id k v m (str_eq-sym acc.id k ne) ∙ f, Fresh-put k v m accounts later fs)

get-snapshot :
    (k : String) (m : Saved) (accounts : List Account)
    → has k (account_ids accounts) ≡ false
    → get k (snapshot accounts m) ≡ get k m
unfolding has snapshot
get-snapshot k m [] h = refl
get-snapshot k m (acc ∷ accounts) h =
    let (ne, later) = or-false (str_eq acc.id k) (has k (account_ids accounts)) h in
    get-snapshot k (put acc.id acc.stats m) accounts later ∙ get-put_ne k acc.id acc.stats m ne

snapshot-AllSaved :
    (m : Saved) (accounts : List Account)
    → distinct accounts ≡ true
    → AllSaved (snapshot accounts m) accounts
unfolding snapshot
snapshot-AllSaved m [] d = tt
snapshot-AllSaved m (acc ∷ accounts) d =
    let (n, ds) = and-true (has acc.id (account_ids accounts)) (distinct accounts) d in
    (
      get-snapshot acc.id (put acc.id acc.stats m) accounts n ∙ get-put_same acc.id acc.stats m,
      snapshot-AllSaved (put acc.id acc.stats m) accounts ds,
    )

length-snapshot :
    (m : Saved) (accounts : List Account)
    → distinct accounts ≡ true
    → Fresh m accounts
    → length (snapshot accounts m) ≡ length accounts + length m
unfolding snapshot
length-snapshot m [] d f = omega arith
length-snapshot m (acc ∷ accounts) d (f, fs) =
    let (n, ds) = and-true (has acc.id (account_ids accounts)) (distinct accounts) d in
    let rest =
      length-snapshot (put acc.id acc.stats m) accounts ds
        (Fresh-put acc.id acc.stats m accounts n fs) in
    omega (arith, rest, length-put acc.id acc.stats m f)

Fresh-nil : (accounts : List Account) → Fresh [] accounts
unfolding get
Fresh-nil [] = tt
Fresh-nil (acc ∷ accounts) = (refl, Fresh-nil accounts)

stats_differ_self : (s : AccountStats) → stats_differ s s ≡ false
unfolding stats_differ
stats_differ_self s = rw (str_eq_refl s.last_failure_msg) (ground arith)

any_changed-AllSaved :
    (m : Saved) (accounts : List Account) → AllSaved m accounts → any_changed m accounts ≡ false
unfolding any_changed
any_changed-AllSaved m [] h = refl
any_changed-AllSaved m (acc ∷ accounts) (h, hs) =
    rw (h, stats_differ_self acc.stats) (any_changed-AllSaved m accounts hs)

save_state-ok :
    (state_file : String) (rename : ℕ → Bool) (accounts : List Account) (saved saved' : Saved)
    → str_eq state_file "" ≡ false
    → save_state state_file true rename accounts saved ≡ (saved', true)
    → saved' ≡ snapshot accounts []
unfolding save_state
save_state-ok state_file rename accounts saved saved' named h =
    elim (Bool-cases (rename_with_retry rename)) [
      | inl e ↦ ap (λ (o : Saved × Bool). o.0) (sym (rw (named, e) at h))
      | inr n ↦ absurd (cc (ap (λ (o : Saved × Bool). o.1) (rw (named, n) at h)))
    ]

-- With distinct ids, a save that succeeds leaves nothing to save: until an account changes, the
-- periodic loop does not write again.
pub has_state_changed-save_state :
    (state_file : String) (rename : ℕ → Bool) (accounts : List Account) (saved saved' : Saved)
    → str_eq state_file "" ≡ false
    → distinct accounts ≡ true
    → save_state state_file true rename accounts saved ≡ (saved', true)
    → has_state_changed saved' accounts ≡ false
unfolding has_state_changed
has_state_changed-save_state state_file rename accounts saved saved' named d h =
    let e = save_state-ok state_file rename accounts saved saved' named h in
    let all =
      any_changed-AllSaved (snapshot accounts []) accounts (snapshot-AllSaved [] accounts d) in
    let size : length (snapshot accounts []) ≡ length accounts =
      omega (arith, length-snapshot [] accounts d (Fresh-nil accounts)) in
    rw (e, all, size) (ground arith)

failed-differs :
    (msg : String) (now : ℕ) (s : AccountStats)
    → stats_differ s (failed_stats recoverable msg now s) ≡ true
unfolding stats_differ failed_stats
failed-differs msg now s = ground arith

or-true : (a : Bool) → (a || true) ≡ true
or-true a = ground arith

find-suc :
    (k : String) (acc : Account) (accounts : List Account) (i : ℕ)
    → find_account_index_by_id k (acc ∷ accounts) ≡ some (suc i)
    → find_account_index_by_id k accounts ≡ some i
unfolding find_account_index_by_id
find-suc k acc accounts i h = elim (Bool-cases (str_eq acc.id k)) [
  | inl e ↦ absurd (ground (arith, rw e at h))
  | inr n ↦ elim (Option-cases (find_account_index_by_id k accounts)) [
    | inl e ↦ absurd (cc (rw (n, e) at h))
    | inr (j, e) ↦ e ∙ ground (arith, rw (n, e) at h)
  ]
]

any_changed-failed :
    (msg : String) (now : ℕ) (saved : Saved) (accounts : List Account) (k : String) (i : ℕ)
    → AllSaved saved accounts
    → find_account_index_by_id k accounts ≡ some i
    → any_changed saved (update_at accounts i (failed_stats recoverable msg now)) ≡ true
unfolding any_changed find_account_index_by_id
any_changed-failed msg now saved [] k i a h = absurd (cc)
any_changed-failed msg now saved (acc ∷ accounts) k zero (a, rest) h =
    rw (a, failed-differs msg now acc.stats)
any_changed-failed msg now saved (acc ∷ accounts) k (suc i) (a, rest) h =
    let tail = any_changed-failed msg now saved accounts k i rest (find-suc k acc accounts i h) in
    rw tail (or-true (differs_from (get acc.id saved) acc.stats))

-- With distinct ids, a recoverable failure that is reported for one of the accounts after a save
-- makes the state dirty, so that the next tick of the periodic loop saves the open breaker.
pub has_state_changed-report_failure_as :
    (state_file : String) (rename : ℕ → Bool) (m : Manager) (saved saved' : Saved) (k msg : String)
    (now i : ℕ)
    → str_eq state_file "" ≡ false
    → distinct m.accounts ≡ true
    → save_state state_file true rename m.accounts saved ≡ (saved', true)
    → find_account_index_by_id k m.accounts ≡ some i
    → has_state_changed saved' (report_failure_as m k recoverable msg now).0.accounts ≡ true
unfolding has_state_changed
has_state_changed-report_failure_as state_file rename m saved saved' k msg now i named d h found =
    let e = save_state-ok state_file rename m.accounts saved saved' named h in
    let dirty =
      any_changed-failed msg now (snapshot m.accounts []) m.accounts k i
        (snapshot-AllSaved [] m.accounts d) found in
    rw (e, report_failure_as-some m k recoverable msg now i found, dirty) refl
