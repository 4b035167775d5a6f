-- ===== src/AccountErrors.antt =====
-- internal/accounterrors/classify.go: whether an error of the Kiro API is worth another account.
use kiro_gateway_go.Common.{
  ℕ, ◌||◌, String, ◌≡◌, ◌↔◌, ◌⊎◌, arith, ◌==◌, str_eq, eq_iff, if◌then◌else◌, leb, ltb, ◌&&◌,
}

pub data ErrorType : Type 0 where
  fatal recoverable : ErrorType

abbrev pub reason_invalid_model_id : String
reason_invalid_model_id = "INVALID_MODEL_ID"

abbrev pub reason_content_length_exceeds_threshold : String
reason_content_length_exceeds_threshold = "CONTENT_LENGTH_EXCEEDS_THRESHOLD"

-- A switch on the status, a switch on the reason inside, and the 5xx range behind them.
unfoldable pub classify : ℕ → String → ErrorType
classify status_code reason =
    if status_code == 402 || status_code == 403 || status_code == 429
    then recoverable
    else if status_code == 400
    then (if str_eq reason reason_invalid_model_id
        then recoverable
        else if str_eq reason reason_content_length_exceeds_threshold
        then fatal
        else fatal)
    else if status_code == 422
    then fatal
    else if leb 500 status_code && ltb status_code 600
    then fatal
    else fatal

-- Exactly the answers 402, 403 and 429, and a 400 for an invalid model, are tried on another
-- account. Every other status and reason is fatal.
pub classify-recoverable_iff :
    (status_code : ℕ) (reason : String)
    → (classify status_code reason ≡ recoverable) ↔ (
        (status_code ≡ 402)
        ⊎ (status_code ≡ 403)
        ⊎ (status_code ≡ 429)
        ⊎ (status_code ≡ 400) × (reason ≡ reason_invalid_model_id))
unfolding classify
classify-recoverable_iff status_code reason = (
  ground (arith, eq_iff reason reason_invalid_model_id),
  ground (arith, eq_iff reason reason_invalid_model_id),
)
