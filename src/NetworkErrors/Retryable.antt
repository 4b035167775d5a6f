-- ===== src/NetworkErrors/Retryable.antt =====
-- Which failures of the transport are not to be tried again.
use kiro_gateway_go.Common.{
  Bool, true, false, not, ◌&&◌, ◌||◌, Option, none, some, ◌++◌, ◌≡◌, refl, arith, ap, ◌∙◌,
  if◌then◌else◌,
}
use kiro_gateway_go.Common.Bytes.{Bytes, index, has_prefix}
use kiro_gateway_go.Common.Utf8.{utf8}
use kiro_gateway_go.NetworkErrors.{ErrDesc, DnsError, GoError, connect_error, other}
use kiro_gateway_go.NetworkErrors.Infos.{
  dns_info, refused_info, reset_info, unreachable_info, ssl_info, connect_info,
  connect_timeout_info, read_timeout_info, timeout_info, other_info,
}
use kiro_gateway_go.NetworkErrors.Classify.{
  contains, is_refused_text, is_reset_text, is_unreachable_text, is_ssl_text, is_gaierror,
  classify_connect_error, classify_kind, classify_desc, plain_desc, dns_desc, is_dial_error,
  is_timeout_error, errno_desc, certificate_desc, timeout_desc, lookup_desc, translate, classify,
}

-- The text tells of a refused or reset connection or of an unreachable network.
abbrev pub is_connection_text : Bytes → Bool
is_connection_text s = is_refused_text s || (is_reset_text s || is_unreachable_text s)

-- The message that the code makes for a certificate that could not be verified.
abbrev pub certificate_message : Bytes → Bytes
certificate_message c = utf8 "certificate verification failed: " ++ c

abbrev pub is_final_certificate : Option Bytes → Bool
is_final_certificate none = false
is_final_certificate (some c) = not (is_connection_text (certificate_message c))

abbrev pub is_absent : Option DnsError → Bool
is_absent none = true
is_absent (some _) = false

-- A certificate could not be verified, which no lookup and no timeout hides, and whose text tells of
-- no trouble with the connection.
abbrev pub is_final : Option GoError → Bool
is_final none = false
is_final (some e) =
    is_absent e.dns
    && (not e.is_deadline_exceeded
        && (not (is_timeout_error e.op_error) && is_final_certificate e.certificate))

-- What `strings.ToLower` keeps.
abbrev pub KeepsLower : (Bytes → Bytes) → Type 0
KeepsLower to_lower =
    (s : Bytes)
    → contains s (utf8 "certificate") ≡ true
    → contains (to_lower s) (utf8 "certificate") ≡ true

refused-prefix : (t : Bytes) → is_refused_text (utf8 "Connection refused: " ++ t) ≡ true
unfolding is_refused_text contains index has_prefix
refused-prefix t = refl

reset-prefix :
    (t : Bytes) → contains (utf8 "Connection reset: " ++ t) (utf8 "Connection reset") ≡ true
unfolding contains index has_prefix
reset-prefix t = refl

unreachable-prefix :
    (t : Bytes)
    → contains (utf8 "Network is unreachable: " ++ t) (utf8 "Network is unreachable") ≡ true
unfolding contains index has_prefix
unreachable-prefix t = refl

certificate-prefix : (c : Bytes) → contains (certificate_message c) (utf8 "certificate") ≡ true
unfolding contains index has_prefix
certificate-prefix c = refl

-- The branches of `classify_connect_error`, as they leave a failure open to another attempt.
branches :
    (r s u l : Bool) (details : Bytes)
    → (r || (s || u)) || not l ≡ true
    → (if r
        then refused_info details
        else if s
        then reset_info details
        else if u
        then unreachable_info details
        else if l
        then ssl_info details
        else connect_info details).is_retryable
      ≡ true
unfolding refused_info reset_info unreachable_info ssl_info connect_info
branches true s u l details h = refl
branches false true u l details h = refl
branches false false true l details h = refl
branches false false false true details h = cc
branches false false false false details h = refl

ssl_branch :
    (r s u l : Bool) (details : Bytes)
    → l ≡ true
    → (if r
        then refused_info details
        else if s
        then reset_info details
        else if u
        then unreachable_info details
        else if l
        then ssl_info details
        else connect_info details).is_retryable
      ≡ (r || (s || u))
unfolding refused_info reset_info unreachable_info ssl_info connect_info
ssl_branch true s u l details h = refl
ssl_branch false true u l details h = refl
ssl_branch false false true l details h = refl
ssl_branch false false false true details h = refl
ssl_branch false false false false details h = absurd (cc h)

connect-retryable :
    (to_lower : Bytes → Bytes) (n m : Bytes)
    → is_connection_text m || not (is_ssl_text to_lower m) ≡ true
    → (classify_desc to_lower (plain_desc connect_error n m)).is_retryable ≡ true
unfolding classify_desc classify_kind plain_desc classify_connect_error is_gaierror
connect-retryable to_lower n m h =
    branches (is_refused_text m) (is_reset_text m) (is_unreachable_text m) (is_ssl_text to_lower m)
      _ h

reset_message : (r c d u l : Bool) → c ≡ true → (r || ((c || d) || u)) || l ≡ true
reset_message true c d u l h = refl
reset_message false c d u l h = ground arith

unreachable_message : (r s c d l : Bool) → c ≡ true → (r || (s || (c || d))) || l ≡ true
unreachable_message true s c d l h = refl
unreachable_message false true c d l h = refl
unreachable_message false false c d l h = ground arith

-- The description is of a failure that can be tried again.
abbrev IsRetried : (Bytes → Bytes) → ErrDesc → Type 0
IsRetried to_lower d = (classify_desc to_lower d).is_retryable ≡ true

chosen :
    (to_lower : Bytes → Bytes) (b : Bool) (x y : ErrDesc)
    → IsRetried to_lower x
    → IsRetried to_lower y
    → IsRetried to_lower (if b then x else y)
chosen to_lower true x y h k = h
chosen to_lower false x y h k = k

refused-IsRetried :
    (to_lower : Bytes → Bytes) (n t : Bytes)
    → IsRetried to_lower (plain_desc connect_error n (utf8 "Connection refused: " ++ t))
refused-IsRetried to_lower n t = connect-retryable to_lower n _ (
    ap (λ r. (r || (is_reset_text m || is_unreachable_text m)) || not (is_ssl_text to_lower m))
      (refused-prefix t))
  where
    m : Bytes
    m = utf8 "Connection refused: " ++ t

reset-IsRetried :
    (to_lower : Bytes → Bytes) (n t : Bytes)
    → IsRetried to_lower (plain_desc connect_error n (utf8 "Connection reset: " ++ t))
unfolding is_reset_text
reset-IsRetried to_lower n t =
    connect-retryable to_lower n _ (reset_message _ _ _ _ _ (reset-prefix t))

unreachable-IsRetried :
    (to_lower : Bytes → Bytes) (n t : Bytes)
    → IsRetried to_lower (plain_desc connect_error n (utf8 "Network is unreachable: " ++ t))
unfolding is_unreachable_text
unreachable-IsRetried to_lower n t =
    connect-retryable to_lower n _ (unreachable_message _ _ _ _ _ (unreachable-prefix t))

other-IsRetried :
    (to_lower : Bytes → Bytes) (n m : Bytes) → IsRetried to_lower (plain_desc other n m)
unfolding classify_desc classify_kind plain_desc other_info
other-IsRetried to_lower n m = refl

errno_desc-IsRetried : (to_lower : Bytes → Bytes) (e : GoError) → IsRetried to_lower (errno_desc e)
unfolding errno_desc
errno_desc-IsRetried to_lower e =
    chosen to_lower e.is_refused _ _ (refused-IsRetried to_lower _ e.text) (
      chosen to_lower e.is_reset _ _ (reset-IsRetried to_lower _ e.text) (
        chosen to_lower e.is_unreachable _ _ (unreachable-IsRetried to_lower _ e.text) (
          chosen to_lower e.is_canceled _ _ (other-IsRetried to_lower _ e.text)
            (other-IsRetried to_lower _ e.text))))

not-not : (b : Bool) → b ≡ not (not b)
not-not true = refl
not-not false = refl

ssl_text : (a b c : Bool) → c ≡ true → a || (b || c) ≡ true
ssl_text true b c h = refl
ssl_text false true c h = refl
ssl_text false false c h = h

certificate-retryable :
    (to_lower : Bytes → Bytes)
    → KeepsLower to_lower
    → (o : Option Bytes) (e : GoError)
    → (classify_desc to_lower (certificate_desc o e)).is_retryable ≡ not (is_final_certificate o)
unfolding certificate_desc classify_desc classify_kind plain_desc classify_connect_error is_gaierror
    is_ssl_text
certificate-retryable to_lower keeps none e = errno_desc-IsRetried to_lower e
certificate-retryable to_lower keeps (some c) e =
    ssl_branch (is_refused_text m) (is_reset_text m) (is_unreachable_text m) _ _
      (ssl_text _ _ _ (keeps m (certificate-prefix c)))
    ∙ not-not _
  where
    m : Bytes
    m = certificate_message c

timed :
    (to_lower : Bytes → Bytes) (d t f : Bool) (x y w : ErrDesc)
    → IsRetried to_lower x
    → IsRetried to_lower y
    → (classify_desc to_lower w).is_retryable ≡ not f
    → (classify_desc to_lower (if d then x else if t then y else w)).is_retryable
      ≡ not (not d && (not t && f))
timed to_lower true t f x y w hx hy hw = hx
timed to_lower false true f x y w hx hy hw = hy
timed to_lower false false f x y w hx hy hw = hw

timeout-retryable :
    (to_lower : Bytes → Bytes)
    → KeepsLower to_lower
    → (e : GoError)
    → (classify_desc to_lower (timeout_desc e)).is_retryable
      ≡ not (
          not e.is_deadline_exceeded
          && (not (is_timeout_error e.op_error) && is_final_certificate e.certificate))
unfolding timeout_desc classify_desc classify_kind plain_desc connect_timeout_info timeout_info
    read_timeout_info
timeout-retryable to_lower keeps e =
    timed to_lower e.is_deadline_exceeded (is_timeout_error e.op_error)
      (is_final_certificate e.certificate) _ _ _
      (chosen to_lower (is_dial_error e.op_error) _ _ refl refl)
      (chosen to_lower (is_dial_error e.op_error) _ _ refl refl)
      (certificate-retryable to_lower keeps e.certificate e)

lookup-retryable :
    (to_lower : Bytes → Bytes)
    → KeepsLower to_lower
    → (o : Option DnsError) (e : GoError)
    → (classify_desc to_lower (lookup_desc o e)).is_retryable
      ≡ not (
          is_absent o
          && (not e.is_deadline_exceeded
              && (not (is_timeout_error e.op_error) && is_final_certificate e.certificate)))
unfolding lookup_desc dns_desc classify_desc classify_kind classify_connect_error is_gaierror
    dns_info
lookup-retryable to_lower keeps none e = timeout-retryable to_lower keeps e
lookup-retryable to_lower keeps (some dns) e = refl

-- Provided that the lower case of a text keeps the word "certificate", a failure is not to be tried
-- again exactly if a certificate could not be verified, with no failed lookup and no timeout in the
-- same error, and the text of that certificate error does not tell of a refused or reset connection
-- or of an unreachable network. Any other failure of TLS is thus to be tried again.
pub is_retryable-classify :
    (to_lower : Bytes → Bytes)
    → KeepsLower to_lower
    → (err : Option GoError) → (classify to_lower err).is_retryable ≡ not (is_final err)
unfolding classify translate
is_retryable-classify to_lower keeps none = other-IsRetried to_lower _ _
is_retryable-classify to_lower keeps (some e) = lookup-retryable to_lower keeps e.dns e
