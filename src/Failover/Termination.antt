-- ===== src/Failover/Termination.antt =====
-- The loop ends: each attempt takes one account out of the running.
use kiro_gateway_go.Common.{
  ℕ, zero, suc, ◌+◌, ◌<◌, ◌≤◌, true, false, String, some, List, [], ◌∷◌, ◌≡◌, ◌⊎◌, inl, inr, refl,
  ap, arith, length, get_elem?, map, eq_iff, if◌then◌else◌, some_inj, subst,
}
use kiro_gateway_go.AccountErrors.{ErrorType, fatal, recoverable, classify}
use kiro_gateway_go.AccountManager.{
  Account, Manager, Selected, account, exhausted, has, get_next_account, report_failure,
}
use kiro_gateway_go.AccountManager.GetNext.{get_next_account-account}
use kiro_gateway_go.AccountManager.Reports.{ids, report_failure_as-frame}
use kiro_gateway_go.Failover.{
  Response, Reply, Attempt, done, failed, attempt_account, World, Loop, failover, start,
  write_exhausted, failover_chat_completions, openai_fatal_reply,
}

-- The IDs that were not tried.
abbrev pub free : List String → List String → ℕ
free exclude [] = 0
free exclude (k ∷ ks) = (if has k exclude then 0 else 1) + free exclude ks

free-cons_le : (k : String) (exclude ks : List String) → free (k ∷ exclude) ks ≤ free exclude ks
unfolding has
free-cons_le k exclude [] = omega arith
free-cons_le k exclude (j ∷ ks) = ground (arith, free-cons_le k exclude ks)

-- Trying an account that was free leaves fewer free ones.
free-cons_lt :
    (accounts : List Account) (i : ℕ) (acc : Account) (exclude : List String)
    → get_elem? accounts i ≡ some acc
    → has acc.id exclude ≡ false
    → free (acc.id ∷ exclude) (map (λ (a : Account). a.id) accounts)
      < free exclude (map (λ (a : Account). a.id) accounts)
unfolding has
free-cons_lt [] i acc exclude h x = cc
free-cons_lt (a ∷ accounts) zero acc exclude h x =
    let same : a ≡ acc = some_inj h in
    rw same (
      ground (
        arith,
        eq_iff acc.id acc.id,
        free-cons_le acc.id exclude (map (λ (b : Account). b.id) accounts),
      ))
free-cons_lt (a ∷ accounts) (suc i) acc exclude h x =
    ground (arith, free-cons_lt accounts i acc exclude h x)

free-le_length : (exclude ks : List String) → free exclude ks ≤ length ks
free-le_length exclude [] = omega arith
free-le_length exclude (k ∷ ks) = ground (arith, free-le_length exclude ks)

pub length-ids :
    (accounts : List Account) → length (map (λ (a : Account). a.id) accounts) ≡ length accounts
length-ids [] = refl
length-ids (a ∷ accounts) = ap suc (length-ids accounts)

pub Selected-cases :
    (c : Selected) → ((msg : String) × (c ≡ exhausted msg)) ⊎ ((acc : Account) × (c ≡ account acc))
Selected-cases (exhausted msg) = inl (msg, refl)
Selected-cases (account acc) = inr (acc, refl)

-- An attempt that leaves the loop running leaves the IDs as they are.
abbrev pub SameIds : Manager → Attempt → Type 0
SameIds m (done _ _) = Unit
SameIds m (failed m' _ _) = ids m' ≡ ids m

SameIds-kind :
    (m m' : Manager) (kind : ErrorType) (reply : Reply) (status : ℕ) (message : String)
    → ids m' ≡ ids m
    → SameIds m (elim kind [ fatal ↦ done m' reply | recoverable ↦ failed m' status message ])
SameIds-kind m m' fatal reply status message e = tt
SameIds-kind m m' recoverable reply status message e = e

ids-report_failure :
    (m : Manager) (k : String) (status : ℕ) (reason msg : String) (now : ℕ)
    → ids (report_failure m k status reason msg now).0 ≡ ids m
unfolding report_failure
ids-report_failure m k status reason msg now =
    (report_failure_as-frame m k (classify status reason) msg now).1

pub attempt_account-SameIds :
    (fatal_reply : ℕ → String → String → Reply) (m : Manager) (acc : Account) (r : Response)
    (now : ℕ)
    → SameIds m (attempt_account fatal_reply m acc r now)
unfolding attempt_account
attempt_account-SameIds f m acc (Response.encode_error e) now = tt
attempt_account-SameIds f m acc (Response.build_error e) now = tt
attempt_account-SameIds f m acc (Response.transport_error status message) now =
    (report_failure_as-frame m acc.id recoverable message now).1
attempt_account-SameIds f m acc (Response.kiro_error status reason message) now =
    SameIds-kind m _ (report_failure m acc.id status reason message now).1 _ status message
      (ids-report_failure m acc.id status reason message now)
attempt_account-SameIds f m acc Response.success now = tt

pub Attempt-cases :
    (a : Attempt)
    → ((m : Manager) × (r : Reply) × (a ≡ done m r))
      ⊎ ((m : Manager) × (status : ℕ) × (message : String) × (a ≡ failed m status message))
Attempt-cases (done m r) = inl (m, r, refl)
Attempt-cases (failed m status message) = inr (m, status, message, refl)

module _ (fatal_reply : ℕ → String → String → Reply) (w : World) where
  -- Fuel above the number of accounts that are left to try is enough.
  failover-total :
      (fuel : ℕ) (s : Loop)
      → free s.exclude (ids s.manager) < fuel
      → (r : Manager × Reply) × (failover fatal_reply w fuel s ≡ some r)
  unfolding failover
  failover-total zero s h = elim h [ ]
  failover-total (suc fuel) s h =
      elim (Selected-cases
        (get_next_account (w.fires s.attempt) s.manager s.exclude (w.clock s.attempt))) [
          | inl (msg, e) ↦ (
            (
              s.manager,
              write_exhausted (length s.manager.accounts) msg s.attempted s.last_status
                  s.last_message,
            ),
            rw (e, failover) refl,
          )
          | inr (acc, e) ↦
              let g =
                get_next_account-account (w.fires s.attempt) s.manager s.exclude (w.clock s.attempt)
                  acc e in
              elim (Attempt-cases (
                attempt_account fatal_reply s.manager acc (w.respond s.attempt acc)
                  (w.clock s.attempt))) [
                    | inl (m, r, f) ↦ ((m, r), rw (e, f, failover) refl)
                    | inr (m, status, message, f) ↦
                        let same : ids m ≡ ids s.manager = subst (SameIds s.manager) f (
                          attempt_account-SameIds fatal_reply s.manager acc
                            (w.respond s.attempt acc) (w.clock s.attempt)) in
                        let fewer : free (acc.id ∷ s.exclude) (ids m) < fuel = rw same (
                          omega (
                            arith,
                            free-cons_lt s.manager.accounts g.idx acc s.exclude g.at g.not_excluded,
                          )) in
                        let (r, done_later) =
                          failover-total fuel
                            (record {
                              manager = m;
                              exclude = acc.id ∷ s.exclude;
                              attempted = true;
                              last_status = status;
                              last_message = message;
                              attempt = s.attempt + 1;
                            })
                            fewer in
                        (r, rw (e, f, failover) done_later)
                  ]
        ]

-- Whatever Kiro, the network, the clock and the draws do, the loop of `failoverChatCompletions` has
-- given its reply after one call of `GetNextAccount` more than there are accounts.
pub failover_chat_completions-total :
    (w : World) (m : Manager)
    → (r : Manager × Reply) × (failover_chat_completions w (length m.accounts + 1) m ≡ some r)
unfolding failover_chat_completions
failover_chat_completions-total w m =
    failover-total openai_fatal_reply w (length m.accounts + 1) (start m)
      (omega (arith, free-le_length [] (ids m), length-ids m.accounts))
