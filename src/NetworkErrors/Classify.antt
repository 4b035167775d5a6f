-- ===== src/NetworkErrors/Classify.antt =====
-- internal/networkerrors/classify.go: `Classify`, `translate`, `classifyDesc` and
-- `classifyConnectError`. The lower case of a text (`strings.ToLower`) is a parameter.
use kiro_gateway_go.Common.{ℕ, Bool, true, false, ◌||◌, Option, none, some, [], ◌++◌, if◌then◌else◌}
use kiro_gateway_go.Common.Bytes.{Bytes, index}
use kiro_gateway_go.Common.Utf8.{utf8}
use kiro_gateway_go.NetworkErrors.{
  Info, ErrKind, other, request_error, connect_error, connect_timeout, read_timeout,
  timeout_exception, proxy_failure, redirects, gaierror, Errno, zero_errno, eai_noname, ErrDesc,
  DnsError, OpError, GoError,
}
use kiro_gateway_go.NetworkErrors.Infos.{
  connect_timeout_info, read_timeout_info, timeout_info, redirects_info, proxy_info, request_info,
  other_info, dns_info, refused_info, reset_info, unreachable_info, ssl_info, connect_info,
}

abbrev pub is_found : Option ℕ → Bool
is_found none = false
is_found (some _) = true

-- `strings.Contains(s, pat)`
unfoldable pub contains : (s pat : Bytes) → Bool
contains s pat = is_found (index pat s)

unfoldable pub is_gaierror : Option ErrKind → Bool
is_gaierror (some gaierror) = true
is_gaierror _ = false

abbrev pub errno_text : Errno → Bytes
errno_text zero_errno = utf8 "0"
errno_text eai_noname = utf8 "-2"

unfoldable pub is_refused_text : Bytes → Bool
is_refused_text s = contains s (utf8 "Connection refused") || contains s (utf8 "ECONNREFUSED")

unfoldable pub is_reset_text : Bytes → Bool
is_reset_text s = contains s (utf8 "Connection reset") || contains s (utf8 "ECONNRESET")

unfoldable pub is_unreachable_text : Bytes → Bool
is_unreachable_text s =
    contains s (utf8 "Network is unreachable")
    || (contains s (utf8 "No route to host") || contains s (utf8 "ENETUNREACH"))

unfoldable pub is_ssl_text : (Bytes → Bytes) → Bytes → Bool
is_ssl_text to_lower s =
    contains s (utf8 "SSL")
    || (contains s (utf8 "TLS") || contains (to_lower s) (utf8 "certificate"))

unfoldable pub classify_connect_error : (Bytes → Bytes) → ErrDesc → Bytes → Info
classify_connect_error to_lower d details =
    if is_gaierror d.cause
    then dns_info (details ++ (utf8 " (errno: " ++ (errno_text d.errno ++ utf8 ")")))
    else if is_refused_text d.message
    then refused_info details
    else if is_reset_text d.message
    then reset_info details
    else if is_unreachable_text d.message
    then unreachable_info details
    else if is_ssl_text to_lower d.message
    then ssl_info details
    else connect_info details

unfoldable pub classify_kind : (Bytes → Bytes) → ErrKind → ErrDesc → Bytes → Info
classify_kind to_lower connect_error d details = classify_connect_error to_lower d details
classify_kind to_lower connect_timeout d details = connect_timeout_info details
classify_kind to_lower read_timeout d details = read_timeout_info details
classify_kind to_lower timeout_exception d details = timeout_info details
classify_kind to_lower redirects d details = redirects_info details
classify_kind to_lower proxy_failure d details = proxy_info details
classify_kind to_lower request_error d details = request_info details
classify_kind to_lower _ d details = other_info details

unfoldable pub classify_desc : (Bytes → Bytes) → ErrDesc → Info
classify_desc to_lower d = classify_kind to_lower d.kind d (d.type_name ++ (utf8 ": " ++ d.message))

-- A description without a cause.
unfoldable pub plain_desc : ErrKind → (type_name message : Bytes) → ErrDesc
plain_desc k type_name message = record {
  kind = k;
  type_name = type_name;
  message = message;
  cause = none;
  errno = zero_errno;
}

unfoldable pub dns_desc : DnsError → ErrDesc
dns_desc e = record {
  kind = connect_error;
  type_name = utf8 "ConnectError";
  message = e.dns_text;
  cause = some gaierror;
  errno = if e.is_not_found then eai_noname else zero_errno;
}

unfoldable pub is_dial_error : Option OpError → Bool
is_dial_error none = false
is_dial_error (some op) = op.is_dial

unfoldable pub is_timeout_error : Option OpError → Bool
is_timeout_error none = false
is_timeout_error (some op) = op.has_timed_out

-- Behind the check for a certificate.
unfoldable pub errno_desc : GoError → ErrDesc
errno_desc e =
    if e.is_refused
    then plain_desc connect_error (utf8 "ConnectError") (utf8 "Connection refused: " ++ e.text)
    else if e.is_reset
    then plain_desc connect_error (utf8 "ConnectError") (utf8 "Connection reset: " ++ e.text)
    else if e.is_unreachable
    then plain_desc connect_error (utf8 "ConnectError") (utf8 "Network is unreachable: " ++ e.text)
    else if e.is_canceled
    then plain_desc other (utf8 "Exception") e.text
    else plain_desc other (utf8 "Exception") e.text

unfoldable pub certificate_desc : Option Bytes → GoError → ErrDesc
certificate_desc none e = errno_desc e
certificate_desc (some c) e =
    plain_desc connect_error (utf8 "ConnectError") (utf8 "certificate verification failed: " ++ c)

unfoldable pub timeout_desc : GoError → ErrDesc
timeout_desc e =
    if e.is_deadline_exceeded
    then if is_dial_error e.op_error
      then plain_desc connect_timeout (utf8 "ConnectTimeout") e.text
      else plain_desc timeout_exception (utf8 "TimeoutException") e.text
    else if is_timeout_error e.op_error
    then if is_dial_error e.op_error
      then plain_desc connect_timeout (utf8 "ConnectTimeout") e.text
      else plain_desc read_timeout (utf8 "ReadTimeout") e.text
    else certificate_desc e.certificate e

unfoldable pub lookup_desc : Option DnsError → GoError → ErrDesc
lookup_desc none e = timeout_desc e
lookup_desc (some dns) e = dns_desc dns

unfoldable pub translate : Option GoError → ErrDesc
translate none = plain_desc other (utf8 "Exception") []
translate (some e) = lookup_desc e.dns e

unfoldable pub classify : (Bytes → Bytes) → Option GoError → Info
classify to_lower err = classify_desc to_lower (translate err)
