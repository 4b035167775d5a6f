-- ===== src/HttpClient/Retried.antt =====
-- The answers behind which the loop of `RequestWithRetry` goes on.
use kiro_gateway_go.Common.{
  ℕ, ◌+◌, ◌-◌, ◌<◌, Bool, true, false, not, ◌&&◌, Option, some, List, ltb, ◌==◌, if◌then◌else◌, ◌≡◌,
  refl, ap, ◌∙◌, arith,
}
use kiro_gateway_go.HttpClient.{
  Info, Buffered, waited, Answer, transport_error, responded, Step, Pass, continues, retry_or,
  status_pass, attempt_pass,
}
use kiro_gateway_go.HttpClient.Retries.{is_kept}

-- The answers behind which the loop goes on: a transport error that may be retried and a first token
-- that does not come, if an attempt is left, a 403, and a 429 or 5xx that is read and waited for.
pub data Retried (stream : Bool) (n attempt : ℕ) : Answer → Type 0 where
  transport :
      (info : Info)
      → info.is_retryable ≡ true
      → attempt + 1 < n
      → Retried stream n attempt (transport_error info)
  no_token :
      (b : Buffered) (info : Info)
      → stream ≡ true
      → attempt + 1 < n
      → Retried stream n attempt
          (responded (record { status_code = 200; first_chunk_error = some info; buffered = b }))
  forbidden :
      (b : Buffered) (first : Option Info)
      → Retried stream n attempt
          (responded (record { status_code = 403; first_chunk_error = first; buffered = b }))
  busy :
      (status : ℕ) (first : Option Info)
      → is_kept status ≡ true
      → Retried stream n attempt (
          responded (record { status_code = status; first_chunk_error = first; buffered = waited }))

-- The status that is kept behind such an answer.
abbrev pub kept_after :
    {stream : Bool} {n attempt : ℕ} {a : Answer} → Retried stream n attempt a → Option ℕ → Option ℕ
kept_after (Retried.busy status first k) last = some status
kept_after _ last = last

if_true {ℓ} : {A : Type ℓ} (c : Bool) (x y : A) → c ≡ true → (if c then x else y) ≡ x
if_true true x y h = refl
if_true false x y h = absurd (cc h)

if_false {ℓ} : {A : Type ℓ} (c : Bool) (x y : A) → c ≡ false → (if c then x else y) ≡ y
if_false true x y h = absurd (cc h)
if_false false x y h = refl

kept_not_ok :
    (status : ℕ) → is_kept status ≡ true → ((status == 200) ≡ false) × ((status == 403) ≡ false)
kept_not_ok status k = (ground arith, ground arith)

module _ (stream : Bool) (n attempt : ℕ) where
  pub retry_or-continues :
      (may : Bool) (last : Option ℕ) (info : Info)
      → may ≡ true
      → attempt + 1 < n
      → (retry_or stream n may attempt last info).1 ≡ continues last
  retry_or-continues may last info m left =
      let test : (may && ltb attempt (n - 1)) ≡ true = ground arith in
      ap (λ (sp : List Step × Pass). sp.1) (if_true (may && ltb attempt (n - 1)) _ _ test)

  pub busy_pass-continues :
      (status : ℕ) (first : Option Info) (last : Option ℕ)
      → is_kept status ≡ true
      → (status_pass stream n attempt last
          (record { status_code = status; first_chunk_error = first; buffered = waited })).1
        ≡ continues (some status)
  unfolding status_pass
  busy_pass-continues status first last k =
      let (ok, denied) = kept_not_ok status k in
      ap (λ (sp : List Step × Pass). sp.1)
        (if_false (status == 200) _ _ ok
          ∙ if_false (status == 403) _ _ denied
          ∙ if_true (is_kept status) _ _ k)

  pub attempt_pass-continues :
      (a : Answer) (last : Option ℕ) (r : Retried stream n attempt a)
      → (attempt_pass stream n attempt last a).1 ≡ continues (kept_after r last)
  unfolding attempt_pass status_pass
  attempt_pass-continues a last (Retried.transport info may left) =
      retry_or-continues info.is_retryable last info may left
  attempt_pass-continues a last (Retried.no_token b info s left) =
      let tested : (not stream) ≡ false = ap not s in
      ap (λ (sp : List Step × Pass). sp.1) (if_false (not stream) _ _ tested)
      ∙ retry_or-continues true last info refl left
  attempt_pass-continues a last (Retried.forbidden b first) = refl
  attempt_pass-continues a last (Retried.busy status first k) =
      busy_pass-continues status first last k
