-- ===== src/Tests/Requests.antt =====
-- The theorems on `RequestWithRetry` at concrete data.
use kiro_gateway_go.Common.{ℕ, zero, suc, ◌≤◌, ◌<◌, true, false, none, ◌≡◌, refl, arith}
use kiro_gateway_go.HttpClient.{
  Info, waited, Answer, transport_error, responded, response, request_error, max_attempts_of,
  request_with_retry,
}
use kiro_gateway_go.HttpClient.Retries.{
  MayHand, requests, request_with_retry-MayHand, requests-request_with_retry,
}
use kiro_gateway_go.HttpClient.Outcomes.{Lost, request_with_retry-IsServed, request_with_retry-Lost}
use kiro_gateway_go.HttpClient.Retried.{Retried}

abbrev answer : ℕ → Answer
answer status =
    responded (record { status_code = status; first_chunk_error = none; buffered = waited })

abbrev timeout : Info
timeout = record { is_retryable = true; suggested_http_code = 504 }

-- A 403, a 503, and then a 200.
abbrev recovering : ℕ → Answer
recovering zero = answer 403
recovering (suc zero) = answer 503
recovering (suc (suc n)) = answer 200

-- A timeout, and then 403s.
abbrev denied : ℕ → Answer
denied zero = transport_error timeout
denied (suc n) = answer 403

request_with_retry-MayHand_example : MayHand 3 (request_with_retry false 5 recovering)
request_with_retry-MayHand_example = request_with_retry-MayHand false 5 recovering

requests-request_with_retry_example : requests (request_with_retry true 5 recovering).0 ≤ 5
requests-request_with_retry_example = requests-request_with_retry true 5 recovering

recovering-Retried : (j : ℕ) → j < 2 → Retried false 3 j (recovering j)
recovering-Retried zero lt = Retried.forbidden waited none
recovering-Retried (suc zero) lt = Retried.busy 503 none refl
recovering-Retried (suc (suc j)) lt = absurd (omega arith)

request_with_retry-IsServed_example : (request_with_retry false 5 recovering).1 ≡ response 200 false
unfolding max_attempts_of
request_with_retry-IsServed_example =
    request_with_retry-IsServed false 5 recovering 2 (omega arith) recovering-Retried (waited, refl)

denied-Lost : (j : ℕ) → j < 2 → Lost true 2 j (denied j)
denied-Lost zero lt = (Retried.transport timeout refl (omega arith), refl)
denied-Lost (suc j) lt = (Retried.forbidden waited none, refl)

request_with_retry-Lost_example :
    (request_with_retry true 2 denied).1
    ≡ request_error (record { is_retryable = false; suggested_http_code = 504 })
unfolding max_attempts_of
request_with_retry-Lost_example = request_with_retry-Lost true 2 denied denied-Lost
