-- ===== src/Failover.antt =====
-- internal/routesopenai/failover.go and internal/routesanthropic/failover.go: the loop that tries
-- one account after another for a request. What happens outside this repository, and the pieces of
-- it that are modelled elsewhere (payload conversion, HTTP client, stream), come in as the `Response`
-- of each attempt; the clock and the random draws come in with them. The loop takes fuel, one unit
-- for a call of `GetNextAccount`; `none` means that the fuel ran out. A message is a list of texts,
-- which the code concatenates.
pub mod Termination
pub mod Replies
use kiro_gateway_go.Common.{
  ℕ, zero, suc, ◌+◌, Bool, true, false, String, Option, none, some, List, [], ◌∷◌, ◌++◌, ltb, leb,
  ◌==◌, if◌then◌else◌, length, str_eq,
}
use kiro_gateway_go.AccountErrors.{
  ErrorType, fatal, recoverable, reason_content_length_exceeds_threshold,
}
use kiro_gateway_go.AccountManager.{
  Account, Manager, Selected, account, exhausted, get_next_account, report_success,
  report_failure_as, report_failure,
}

-- The ways in which an attempt goes: the payload cannot be encoded, the request cannot be built, a
-- transport error with its suggested status, an answer of Kiro that is not 200 with the reason and
-- the message of `parseKiroError`, or 200.
pub data Response : Type 0 where
  encode_error : String → Response
  build_error : String → Response
  transport_error : ℕ → String → Response
  kiro_error : ℕ → String → String → Response
  success : Response

-- What the client gets: a served response, or an error with its status and the parts of its text.
pub data Reply : Type 0 where
  served : Reply
  error : ℕ → List String → Reply

pub data Attempt : Type 0 where
  done : Manager → Reply → Attempt
  failed : Manager → ℕ → String → Attempt

-- `handleKiroError`, with the reply that the dialect gives on a fatal error.
handle_kiro_error :
    (ℕ → String → String → Reply) → Manager → Account → ℕ → String → String → ℕ → Attempt
handle_kiro_error fatal_reply m acc status reason message now =
    let (m', kind) = report_failure m acc.id status reason message now in
    elim kind [
      | fatal ↦ done m' (fatal_reply status reason message)
      | recoverable ↦ failed m' status message
    ]

-- `handleTransportError`: recoverable whatever the status.
handle_transport_error : Manager → Account → ℕ → String → ℕ → Attempt
handle_transport_error m acc status message now =
    failed (report_failure_as m acc.id recoverable message now).0 status message

unfoldable pub attempt_account :
    (ℕ → String → String → Reply) → Manager → Account → Response → ℕ → Attempt
unfolding handle_kiro_error handle_transport_error
attempt_account fatal_reply m acc (encode_error e) now =
    done m (error 500 ("failed to encode Kiro payload: " ∷ e ∷ []))
attempt_account fatal_reply m acc (build_error e) now =
    done m (error 500 ("failed to build Kiro request: " ∷ e ∷ []))
attempt_account fatal_reply m acc (transport_error status message) now =
    handle_transport_error m acc status message now
attempt_account fatal_reply m acc (kiro_error status reason message) now =
    handle_kiro_error fatal_reply m acc status reason message now
attempt_account fatal_reply m acc success now = done (report_success m acc.id) served

-- The fatal replies of the two dialects.
unfoldable pub openai_fatal_reply : ℕ → String → String → Reply
openai_fatal_reply status reason message = error status (message ∷ [])

unfoldable pub anthropic_fatal_reply : ℕ → String → String → Reply
anthropic_fatal_reply status reason message =
    if str_eq reason reason_content_length_exceeds_threshold
    then error 400
        ("prompt is too long: " ∷ message ∷ " (capability_rejected: prompt_too_long)" ∷ [])
    else error status (message ∷ [])

abbrev first_nonempty : String → String → String
first_nonempty a b = if str_eq a "" then b else a

-- `writeExhausted`, with the number of accounts.
unfoldable pub write_exhausted : ℕ → String → Bool → ℕ → String → Reply
write_exhausted total exhausted_msg attempted last_status last_message =
    if leb total 1
    then error (if last_status == 0 then 503 else last_status)
        (first_nonempty (first_nonempty last_message exhausted_msg) "Account unavailable" ∷ [])
    else let detail =
        if attempted
        then "All accounts failed after full circle."
        else "No available accounts for this model." in
      let context = first_nonempty last_message exhausted_msg in
      error 503 (
        if str_eq context ""
        then detail ∷ []
        else detail ∷ " Error from last account: " ∷ context ∷ [])

-- What the n-th attempt of the request meets.
pub record World : Type 0 where
  pub fires : ℕ → ℕ → Bool
  pub clock : ℕ → ℕ
  pub respond : ℕ → Account → Response

-- The local variables of the loop, with the number of the attempt.
pub record Loop : Type 0 where
  pub manager : Manager
  pub exclude : List String
  pub attempted : Bool
  pub last_status : ℕ
  pub last_message : String
  pub attempt : ℕ

module _ (fatal_reply : ℕ → String → String → Reply) (w : World) where
  -- The loop of `failoverChatCompletions`; `failoverMessages` of internal/routesanthropic/failover.go
  -- has the same statements, and differs in the reply to a fatal error.
  unfoldable pub failover : ℕ → Loop → Option (Manager × Reply)
  failover zero s = none
  failover (suc fuel) s =
      elim (get_next_account (w.fires s.attempt) s.manager s.exclude (w.clock s.attempt)) [
        | exhausted msg ↦ some (
          s.manager,
          write_exhausted (length s.manager.accounts) msg s.attempted s.last_status s.last_message,
        )
        | account acc ↦
            elim (attempt_account fatal_reply s.manager acc (w.respond s.attempt acc)
              (w.clock s.attempt)) [
                | done m reply ↦ some (m, reply)
                | failed m status message ↦ failover fuel (record {
                  manager = m;
                  exclude = acc.id ∷ s.exclude;
                  attempted = true;
                  last_status = status;
                  last_message = message;
                  attempt = s.attempt + 1;
                })
              ]
      ]

abbrev pub start : Manager → Loop
start m = record {
  manager = m;
  exclude = [];
  attempted = false;
  last_status = 0;
  last_message = "";
  attempt = 0;
}

unfoldable pub failover_chat_completions : World → ℕ → Manager → Option (Manager × Reply)
failover_chat_completions w fuel m = failover openai_fatal_reply w fuel (start m)

unfoldable pub failover_messages : World → ℕ → Manager → Option (Manager × Reply)
failover_messages w fuel m = failover anthropic_fatal_reply w fuel (start m)
