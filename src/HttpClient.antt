-- ===== src/HttpClient.antt =====
-- internal/httpclient/client.go: `RequestWithRetry`. What each attempt meets comes in as an `Answer`:
-- it stands for `prepareAttempt`, the HTTP library, the reads of the body, the cancellation of the
-- context and `networkerrors.Classify`. The refresh of the token and the waits are recorded as the
-- steps that the code takes; a delay is a number of nanoseconds.
pub mod Retries
pub mod Retried
pub mod Outcomes
use kiro_gateway_go.Common.{
  ℕ, zero, suc, ◌+◌, ◌-◌, ◌*◌, ◌^◌, ◌%◌, Bool, true, false, not, ◌&&◌, ◌||◌, String, Option, none,
  some, List, [], ◌∷◌, ◌++◌, ltb, leb, ◌==◌, if◌then◌else◌,
}

-- The part of `networkerrors.Info` that is read here.
pub record Info : Type 0 where
  pub is_retryable : Bool
  pub suggested_http_code : ℕ

-- The read of the whole body of a 429 or 5xx, and the wait behind it.
pub data Buffered : Type 0 where
  unreadable : Info → Buffered
  cancelled : String → Buffered
  waited : Buffered

-- A response as the HTTP library gives it: its status, how the first read of its body goes within
-- the timeout for the first token, and how it can be buffered.
pub record Response : Type 0 where
  pub status_code : ℕ
  pub first_chunk_error : Option Info
  pub buffered : Buffered

pub data Answer : Type 0 where
  not_prepared : String → Answer
  transport_error : Info → Answer
  responded : Response → Answer

-- What the caller gets. A buffered response is one whose body was read into memory.
pub data Result : Type 0 where
  response : ℕ → (buffered : Bool) → Result
  request_error : Info → Result
  plain_error : String → Result

pub data Step : Type 0 where
  requested : Step
  refreshed : Step
  slept : ℕ → Step

abbrev pub max_retries : ℕ
max_retries = 3

-- `baseRetryDelay * (1 << attempt)` in nanoseconds, as the 64 bits of a `time.Duration`.
unfoldable pub backoff_delay : ℕ → ℕ
backoff_delay attempt = 1000000000 * (2 ^ attempt % 18446744073709551616) % 18446744073709551616

-- The number of attempts, at least one.
unfoldable pub max_attempts_of : Bool → ℕ → ℕ
max_attempts_of stream first_token_max_retries =
    let n = if stream then first_token_max_retries else max_retries in if ltb n 1 then 1 else n

unfoldable pub exhausted_info : Bool → Info
exhausted_info stream = record {
  is_retryable = false;
  suggested_http_code = if stream then 504 else 502;
}

-- One pass of the loop: it returns, or goes on with the last retryable response.
pub data Pass : Type 0 where
  returns : Result → Pass
  continues : Option ℕ → Pass

module _ (stream : Bool) (max_attempts : ℕ) where
  -- The retry of an error that may be retried, if another attempt is left.
  abbrev pub retry_or : Bool → ℕ → Option ℕ → Info → List Step × Pass
  retry_or may attempt last info =
      if may && ltb attempt (max_attempts - 1)
      then (slept (backoff_delay attempt) ∷ [], continues last)
      else ([], returns (request_error info))

  abbrev pub buffered_pass : ℕ → ℕ → Option ℕ → Buffered → List Step × Pass
  buffered_pass status attempt last (unreadable info) = ([], returns (request_error info))
  buffered_pass status attempt last (cancelled e) = ([], returns (plain_error e))
  buffered_pass status attempt last waited =
      (slept (backoff_delay attempt) ∷ [], continues (some status))

  abbrev pub first_pass : ℕ → ℕ → Option ℕ → Option Info → List Step × Pass
  first_pass status attempt last none = ([], returns (response status false))
  first_pass status attempt last (some info) = retry_or true attempt last info

  -- The `switch` on the status.
  unfoldable pub status_pass : ℕ → Option ℕ → Response → List Step × Pass
  status_pass attempt last r =
      if r.status_code == 200
      then (if not stream
          then ([], returns (response r.status_code false))
          else first_pass r.status_code attempt last r.first_chunk_error)
      else if r.status_code == 403
      then (refreshed ∷ [], continues last)
      else if (r.status_code == 429) || (leb 500 r.status_code && ltb r.status_code 600)
      then buffered_pass r.status_code attempt last r.buffered
      else ([], returns (response r.status_code false))

  -- The body of the loop, with the steps behind the request.
  unfoldable pub attempt_pass : ℕ → Option ℕ → Answer → List Step × Pass
  unfolding status_pass
  attempt_pass attempt last (not_prepared e) = ([], returns (plain_error e))
  attempt_pass attempt last (transport_error info) =
      let (steps, pass) = retry_or info.is_retryable attempt last info in (requested ∷ steps, pass)
  attempt_pass attempt last (responded r) =
      let (steps, pass) = status_pass attempt last r in (requested ∷ steps, pass)

  -- Behind the loop.
  unfoldable pub exhausted : Option ℕ → Result
  unfolding exhausted_info
  exhausted none = request_error (exhausted_info stream)
  exhausted (some status) = response status true

  -- One pass, and the rest of the loop behind it.
  abbrev pub proceed : List Step × Pass → (Option ℕ → List Step × Result) → List Step × Result
  proceed (steps, returns r) rest = (steps, r)
  proceed (steps, continues last) rest = (steps ++ (rest last).0, (rest last).1)

  -- The loop from the attempt `attempt` on, with `left` attempts left.
  unfoldable pub retry_loop : (ℕ → Answer) → ℕ → ℕ → Option ℕ → List Step × Result
  unfolding attempt_pass exhausted
  retry_loop answers zero attempt last = ([], exhausted last)
  retry_loop answers (suc left) attempt last =
      proceed (attempt_pass attempt last (answers attempt))
        (λ last'. retry_loop answers left (attempt + 1) last')

unfoldable pub request_with_retry : Bool → ℕ → (ℕ → Answer) → List Step × Result
unfolding max_attempts_of retry_loop
request_with_retry stream first_token_max_retries answers =
    let n = max_attempts_of stream first_token_max_retries in retry_loop stream n answers n 0 none
