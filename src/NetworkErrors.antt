-- ===== src/NetworkErrors.antt =====
-- internal/networkerrors/types.go and classify.go: what a failure of the transport is told to be.
-- A text that the code only hands out is a `String`, one that it searches or builds is its bytes.
pub mod Infos
pub mod Classify
pub mod Retryable
use kiro_gateway_go.Common.{ℕ, Bool, String, Option, List}
use kiro_gateway_go.Common.Bytes.{Bytes}

pub data Category : Type 0 where
  dns_resolution : Category
  connection_refused : Category
  connection_reset : Category
  network_unreachable : Category
  timeout_connect : Category
  timeout_read : Category
  ssl_error : Category
  proxy_error : Category
  too_many_redirects : Category
  unknown : Category

pub record Info : Type 0 where
  pub category : Category
  pub user_message : String
  pub troubleshooting_steps : List String
  pub technical_details : Bytes
  pub is_retryable : Bool
  pub suggested_http_code : ℕ

pub data ErrKind : Type 0 where
  other : ErrKind
  request_error : ErrKind
  connect_error : ErrKind
  connect_timeout : ErrKind
  read_timeout : ErrKind
  timeout_exception : ErrKind
  proxy_failure : ErrKind
  redirects : ErrKind
  gaierror : ErrKind

-- The number of a failed lookup: 0, or -2 where there is no such name.
pub data Errno : Type 0 where
  zero_errno : Errno
  eai_noname : Errno

-- Of the cause only the kind is read.
pub record ErrDesc : Type 0 where
  pub kind : ErrKind
  pub type_name : Bytes
  pub message : Bytes
  pub cause : Option ErrKind
  pub errno : Errno

-- What `errors.As` finds in the chain of an error.
pub record DnsError : Type 0 where
  pub dns_text : Bytes
  pub is_not_found : Bool

pub record OpError : Type 0 where
  pub is_dial : Bool
  pub has_timed_out : Bool

-- An error as the code looks at it: its text, and what `errors.As` and `errors.Is` find in it.
pub record GoError : Type 0 where
  pub text : Bytes
  pub dns : Option DnsError
  pub is_deadline_exceeded : Bool
  pub op_error : Option OpError
  pub certificate : Option Bytes
  pub is_refused : Bool
  pub is_reset : Bool
  pub is_unreachable : Bool
  pub is_canceled : Bool
