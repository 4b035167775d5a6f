-- ===== src/Tests/Network.antt =====
-- A concrete failure of the transport and what it is told to be.
use kiro_gateway_go.Common.{false, none, some, ◌≡◌}
use kiro_gateway_go.Common.Bytes.{index, has_prefix}
use kiro_gateway_go.Common.Utf8.{utf8}
use kiro_gateway_go.NetworkErrors.{GoError}
use kiro_gateway_go.NetworkErrors.Classify.{
  contains, is_refused_text, is_reset_text, is_unreachable_text, is_timeout_error, classify,
}
use kiro_gateway_go.NetworkErrors.Retryable.{is_retryable-classify}

abbrev expired : GoError
expired = record {
  text = utf8 "Get: x509: expired";
  dns = none;
  is_deadline_exceeded = false;
  op_error = none;
  certificate = some (utf8 "x509: expired");
  is_refused = false;
  is_reset = false;
  is_unreachable = false;
  is_canceled = false;
}

is_retryable-classify_example : (classify (λ s. s) (some expired)).is_retryable ≡ false
unfolding is_refused_text is_reset_text is_unreachable_text is_timeout_error contains index
    has_prefix
is_retryable-classify_example = is_retryable-classify (λ s. s) (λ s h. h) (some expired)
