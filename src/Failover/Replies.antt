-- ===== src/Failover/Replies.antt =====
-- Where the reply of the loop comes from.
use kiro_gateway_go.Common.{
  ℕ, zero, suc, ◌+◌, ◌<◌, Bool, true, false, String, Option, some, [], ◌∷◌, ◌≡◌, ◌⊎◌, inl, inr,
  refl, sym, arith, length, leb, subst,
}
use kiro_gateway_go.AccountErrors.{ErrorType, fatal, recoverable, classify}
use kiro_gateway_go.AccountManager.{
  Account, Manager, get_next_account, report_failure, report_failure_as,
}
use kiro_gateway_go.AccountManager.Reports.{ids}
use kiro_gateway_go.Failover.{
  Response, encode_error, build_error, transport_error, kiro_error, success, Reply, served, error,
  done, failed, attempt_account, write_exhausted, World, Loop, failover, start,
  failover_chat_completions, openai_fatal_reply,
}
use kiro_gateway_go.Failover.Termination.{
  length-ids, Selected-cases, SameIds, attempt_account-SameIds, Attempt-cases,
}

-- A served reply comes from a 200. An error is the 503 of the exhausted loop, a 500 from before the
-- request, or a fatal error of Kiro with its status and its message.
abbrev pub Explained : World → Reply → Type 0
Explained w served = (n : ℕ) × (acc : Account) × (w.respond n acc ≡ success)
Explained w (error status parts) =
    (status ≡ 503)
    ⊎ (status ≡ 500)
    ⊎ ((n : ℕ) × (acc : Account) × (reason : String) × (message : String) × (w.respond n acc
          ≡ kiro_error status reason message)
        × (classify status reason ≡ fatal)
        × (parts ≡ message ∷ []))

report_failure-kind :
    (m : Manager) (k : String) (status : ℕ) (reason msg : String) (now : ℕ)
    → (report_failure m k status reason msg now).1 ≡ classify status reason
unfolding report_failure report_failure_as
report_failure-kind m k status reason msg now = ground arith

done-reply : {m m' : Manager} {a b : Reply} → done m a ≡ done m' b → a ≡ b
done-reply e = cc

Explained-kind :
    (w : World) (m1 m' : Manager) (n : ℕ) (acc : Account) (r : Reply) (kind : ErrorType)
    (status : ℕ) (reason message : String)
    → w.respond n acc ≡ kiro_error status reason message
    → kind ≡ classify status reason
    → (elim kind [
      | fatal ↦ done m1 (error status (message ∷ []))
      | recoverable ↦ failed m1 status message
    ])
      ≡ done m' r
    → Explained w r
Explained-kind w m1 m' n acc r fatal status reason message h k d =
    subst (Explained w) (done-reply d) (inr (inr (n, acc, reason, message, h, sym k, refl)))
Explained-kind w m1 m' n acc r recoverable status reason message h k d = absurd (ground arith)

Explained-done :
    (w : World) (m m' : Manager) (n now : ℕ) (acc : Account) (r : Reply) (response : Response)
    → w.respond n acc ≡ response
    → attempt_account openai_fatal_reply m acc response now ≡ done m' r
    → Explained w r
unfolding attempt_account openai_fatal_reply
Explained-done w m m' n now acc r (encode_error e) h d =
    subst (Explained w) (done-reply d) (inr (inl refl))
Explained-done w m m' n now acc r (build_error e) h d =
    subst (Explained w) (done-reply d) (inr (inl refl))
Explained-done w m m' n now acc r (transport_error status message) h d = absurd (ground arith)
Explained-done w m m' n now acc r (kiro_error status reason message) h d =
    Explained-kind w _ m' n acc r (report_failure m acc.id status reason message now).1 status
      reason message h (report_failure-kind m acc.id status reason message now) d
Explained-done w m m' n now acc r success h d = subst (Explained w) (done-reply d) (n, acc, h)

reply_of :
    {m m' : Manager} {a b : Reply}
    → ◌≡◌ {A = Option (Manager × Reply)} (some (m, a)) (some (m', b))
    → a ≡ b
reply_of e = ground arith

write_exhausted-many :
    (w : World) (total : ℕ) (msg : String) (attempted : Bool) (status : ℕ) (last : String)
    → 1 < total
    → Explained w (write_exhausted total msg attempted status last)
unfolding write_exhausted
write_exhausted-many w total msg attempted status last h =
    let many : leb total 1 ≡ false = ground arith in rw many (inl refl)

module _ (w : World) where
  failover-Explained :
      (fuel : ℕ) (s : Loop) (m : Manager) (r : Reply)
      → 1 < length (ids s.manager)
      → failover openai_fatal_reply w fuel s ≡ some (m, r)
      → Explained w r
  unfolding failover
  failover-Explained zero s m r many h = absurd (ground arith)
  failover-Explained (suc fuel) s m r many h =
      elim (Selected-cases
        (get_next_account (w.fires s.attempt) s.manager s.exclude (w.clock s.attempt))) [
          | inl (msg, e) ↦ subst (Explained w) (reply_of (rw (e, failover) at h)) (
              write_exhausted-many w (length s.manager.accounts) msg s.attempted s.last_status
                s.last_message (omega (arith, length-ids s.manager.accounts)))
          | inr (acc, e) ↦
              elim (Attempt-cases (
                attempt_account openai_fatal_reply s.manager acc (w.respond s.attempt acc)
                  (w.clock s.attempt))) [
                    | inl (m1, r1, f) ↦ subst (Explained w) (reply_of (rw (e, f, failover) at h)) (
                        Explained-done w s.manager m1 s.attempt (w.clock s.attempt) acc r1 _ refl f)
                    | inr (m1, status, message, f) ↦
                        let same : ids m1 ≡ ids s.manager = subst (SameIds s.manager) f (
                          attempt_account-SameIds openai_fatal_reply s.manager acc
                            (w.respond s.attempt acc) (w.clock s.attempt)) in
                        failover-Explained fuel
                          (record {
                            manager = m1;
                            exclude = acc.id ∷ s.exclude;
                            attempted = true;
                            last_status = status;
                            last_message = message;
                            attempt = s.attempt + 1;
                          })
                          m r (rw same many) (rw (e, f, failover) at h)
                  ]
        ]

-- With several accounts, a reply of `failoverChatCompletions` is a served answer of Kiro, a 503, a
-- 500, or a fatal error of Kiro passed on with its status and message. So no recoverable error, such
-- as a 402, 403 or 429 of one account, reaches the client as such.
pub failover_chat_completions-Explained :
    (w : World) (fuel : ℕ) (m m' : Manager) (r : Reply)
    → 1 < length m.accounts
    → failover_chat_completions w fuel m ≡ some (m', r)
    → Explained w r
unfolding failover_chat_completions
failover_chat_completions-Explained w fuel m m' r many h =
    failover-Explained w fuel (start m) m' r (omega (arith, length-ids m.accounts)) h
