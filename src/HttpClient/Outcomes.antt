-- ===== src/HttpClient/Outcomes.antt =====
-- When `RequestWithRetry` succeeds, and what it returns when no attempt gave a response.
use kiro_gateway_go.Common.{
  ℕ, zero, suc, ◌+◌, ◌<◌, Bool, true, false, not, Option, none, [], if◌then◌else◌, ◌≡◌, refl, ap,
  ◌∙◌, subst, arith,
}
use kiro_gateway_go.HttpClient.{
  Buffered, Answer, responded, response, request_error, returns, first_pass, proceed, status_pass,
  attempt_pass, exhausted, exhausted_info, retry_loop, max_attempts_of, request_with_retry,
}
use kiro_gateway_go.HttpClient.Retried.{Retried, kept_after, attempt_pass-continues}

-- A response with the status 200, and for a stream with its first token.
abbrev pub IsServed : Answer → Type 0
IsServed a =
    (b : Buffered) × (a
      ≡ responded (record { status_code = 200; first_chunk_error = none; buffered = b }))

-- An answer that is retried and of which nothing is kept.
abbrev pub Lost : (stream : Bool) (n attempt : ℕ) → Answer → Type 0
Lost stream n attempt a = (r : Retried stream n attempt a) × (kept_after r none ≡ none)

module _ (stream : Bool) (n : ℕ) (answers : ℕ → Answer) where
  -- Behind an answer that is retried, the result is that of the later attempts.
  retry_loop-later :
      (left attempt : ℕ) (last : Option ℕ) (r : Retried stream n attempt (answers attempt))
      → (retry_loop stream n answers (suc left) attempt last).1
        ≡ (retry_loop stream n answers left (attempt + 1) (kept_after r last)).1
  unfolding retry_loop
  retry_loop-later left attempt last r =
      let (steps, pass) = attempt_pass stream n attempt last (answers attempt) in
      ap
        (λ p.
          (proceed stream n (steps, p)
            (λ last'. retry_loop stream n answers left (attempt + 1) last')).1)
        (attempt_pass-continues stream n attempt (answers attempt) last r)

  served_pass :
      (attempt : ℕ) (last : Option ℕ) (a : Answer)
      → IsServed a
      → (attempt_pass stream n attempt last a).1 ≡ returns (response 200 false)
  unfolding attempt_pass status_pass
  served_pass attempt last a (b, e) =
      let ok : (c : Bool)
          → (if not c
              then ([], returns (response 200 false))
              else first_pass stream n 200 attempt last none).1
            ≡ returns (response 200 false) =
        λ c.
          elim c
            as (λ d.
              (if not d
                then ([], returns (response 200 false))
                else first_pass stream n 200 attempt last none).1
              ≡ returns (response 200 false)) [ true ↦ refl | false ↦ refl ] in
      ap (λ x. (attempt_pass stream n attempt last x).1) e ∙ ok stream

  served_now :
      (left attempt : ℕ) (last : Option ℕ)
      → IsServed (answers attempt)
      → (retry_loop stream n answers (suc left) attempt last).1 ≡ response 200 false
  unfolding retry_loop
  served_now left attempt last h =
      let (steps, pass) = attempt_pass stream n attempt last (answers attempt) in
      ap
        (λ p.
          (proceed stream n (steps, p)
            (λ last'. retry_loop stream n answers left (attempt + 1) last')).1)
        (served_pass attempt last (answers attempt) h)

  -- The answers from `attempt` on, `k` of them.
  abbrev AllRetried : ℕ → ℕ → Type 0
  AllRetried attempt k = (j : ℕ) → j < k → Retried stream n (attempt + j) (answers (attempt + j))

  first_one :
      (attempt k : ℕ) → 0 < k → AllRetried attempt k → Retried stream n attempt (answers attempt)
  first_one attempt k lt h =
      let e : attempt + 0 ≡ attempt = omega arith in
      subst (λ a. Retried stream n a (answers a)) e (h 0 lt)

  later_ones : (attempt k : ℕ) → AllRetried attempt (suc k) → AllRetried (attempt + 1) k
  later_ones attempt k h j lt =
      let e : attempt + suc j ≡ attempt + 1 + j = omega arith in
      subst (λ a. Retried stream n a (answers a)) e (h (suc j) (omega arith))

  retry_loop-served :
      (k left attempt : ℕ) (last : Option ℕ)
      → k < left
      → AllRetried attempt k
      → IsServed (answers (attempt + k))
      → (retry_loop stream n answers left attempt last).1 ≡ response 200 false
  retry_loop-served k zero attempt last lt before served = absurd (omega arith)
  retry_loop-served zero (suc left) attempt last lt before served =
      let e : attempt + 0 ≡ attempt = omega arith in
      let this = subst (λ a. IsServed (answers a)) e served in served_now left attempt last this
  retry_loop-served (suc k) (suc left) attempt last lt before served =
      let e : attempt + suc k ≡ attempt + 1 + k = omega arith in
      let r = first_one attempt (suc k) (omega arith) before in
      retry_loop-later left attempt last r
      ∙ retry_loop-served k left (attempt + 1) (kept_after r last) (omega arith)
          (later_ones attempt k before) (subst (λ a. IsServed (answers a)) e served)

  retry_loop-Lost :
      (left attempt : ℕ)
      → ((j : ℕ) → j < left → Lost stream n (attempt + j) (answers (attempt + j)))
      → (retry_loop stream n answers left attempt none).1 ≡ exhausted stream n none
  unfolding retry_loop
  retry_loop-Lost zero attempt h = refl
  retry_loop-Lost (suc left) attempt h =
      let here : attempt + 0 ≡ attempt = omega arith in
      let (r, gone) = subst (λ a. Lost stream n a (answers a)) here (h 0 (omega arith)) in
      let next : (j : ℕ) → j < left → Lost stream n (attempt + 1 + j) (answers (attempt + 1 + j)) =
        λ j lt.
          let there : attempt + suc j ≡ attempt + 1 + j = omega arith in
          subst (λ a. Lost stream n a (answers a)) there (h (suc j) (omega arith)) in
      retry_loop-later left attempt none r
      ∙ ap (λ last. (retry_loop stream n answers left (attempt + 1) last).1) gone
      ∙ retry_loop-Lost left (attempt + 1) next

-- If an attempt that is allowed gets a 200, and for a stream its first token, and every attempt before
-- it is one that is retried, then the caller is handed that response.
pub request_with_retry-IsServed :
    (stream : Bool) (m : ℕ) (answers : ℕ → Answer) (k : ℕ)
    → k < max_attempts_of stream m
    → ((j : ℕ) → j < k → Retried stream (max_attempts_of stream m) j (answers j))
    → IsServed (answers k)
    → (request_with_retry stream m answers).1 ≡ response 200 false
unfolding request_with_retry
request_with_retry-IsServed stream m answers k lt before served =
    let n = max_attempts_of stream m in
    let from : (j : ℕ) → j ≡ 0 + j = λ j. omega arith in
    retry_loop-served stream n answers k n 0 none lt
      (λ j less. subst (λ a. Retried stream n a (answers a)) (from j) (before j less))
      (subst (λ a. IsServed (answers a)) (from k) served)

-- If no attempt gives anything to hand out, be it by 403s or, before a last 403, by transport errors
-- that are retried and first tokens that do not come, the caller gets the error that says that all
-- attempts are exhausted: 504 for a stream, 502 otherwise.
pub request_with_retry-Lost :
    (stream : Bool) (m : ℕ) (answers : ℕ → Answer)
    → ((j : ℕ)
        → j < max_attempts_of stream m
        → Lost stream (max_attempts_of stream m) j (answers j))
    → (request_with_retry stream m answers).1
      ≡ request_error
          (record { is_retryable = false; suggested_http_code = if stream then 504 else 502 })
unfolding request_with_retry exhausted exhausted_info
request_with_retry-Lost stream m answers h =
    let n = max_attempts_of stream m in
    let from : (j : ℕ) → j ≡ 0 + j = λ j. omega arith in
    retry_loop-Lost stream n answers n 0
      (λ j less. subst (λ a. Lost stream n a (answers a)) (from j) (h j less))
