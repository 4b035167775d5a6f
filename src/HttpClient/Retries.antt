-- ===== src/HttpClient/Retries.antt =====
-- The theorems on `RequestWithRetry`.
use kiro_gateway_go.Common.{
  ℕ, zero, suc, ◌+◌, ◌-◌, ◌≤◌, Bool, true, false, not, ◌&&◌, ◌||◌, Option, none, some, List, [],
  ◌∷◌, ◌++◌, ltb, leb, ◌==◌, if◌then◌else◌, ◌≡◌, refl, arith, subst,
}
use kiro_gateway_go.HttpClient.{
  Info, Buffered, unreadable, cancelled, waited, Response, Answer, not_prepared, transport_error,
  responded, Result, response, request_error, plain_error, Step, requested, refreshed, slept, Pass,
  proceed, retry_or, buffered_pass, first_pass, returns, continues, status_pass, attempt_pass,
  exhausted, retry_loop, max_attempts_of, request_with_retry,
}

pub requests : List Step → ℕ
requests [] = 0
requests (requested ∷ steps) = suc (requests steps)
requests (_ ∷ steps) = requests steps

requests-append : (a b : List Step) → requests (a ++ b) ≡ requests a + requests b
unfolding requests
requests-append [] b = omega arith
requests-append (requested ∷ a) b = omega (arith, requests-append a b)
requests-append (refreshed ∷ a) b = requests-append a b
requests-append (slept n ∷ a) b = requests-append a b

-- Is this the status of an answer that is kept for the caller while the loop goes on?
abbrev pub is_kept : ℕ → Bool
is_kept status = (status == 429) || (leb 500 status && ltb status 600)

-- What the caller may be handed behind the steps of a call with `n` attempts: a response whose body
-- was read ahead only if a request was sent in each of the attempts.
abbrev pub MayHand : ℕ → List Step × Result → Type 0
MayHand n (steps, response status false) = ((status == 403) ≡ false) × (is_kept status ≡ false)
MayHand n (steps, response status true) = (is_kept status ≡ true) × (requests steps ≡ n)
MayHand n _ = Unit

abbrev LastIsKept : Option ℕ → Type 0
LastIsKept none = Unit
LastIsKept (some status) = is_kept status ≡ true

-- What one pass returns is no response that was read ahead.
abbrev Handed : Result → Type 0
Handed (response status false) = ((status == 403) ≡ false) × (is_kept status ≡ false)
Handed (response status true) = ⊥
Handed _ = Unit

abbrev GoodPass : Pass → Type 0
GoodPass (returns r) = Handed r
GoodPass (continues last) = LastIsKept last

-- A pass that hands out what may be handed out, and sends no request beyond its own.
abbrev Good : List Step × Pass → Type 0
Good (steps, pass) = GoodPass pass × (requests steps ≡ 0)

-- The same with the request of the pass, which a pass that goes on has sent.
abbrev GoodAttempt : List Step × Pass → Type 0
GoodAttempt (steps, returns r) = Handed r × (requests steps ≤ 1)
GoodAttempt (steps, continues last) = LastIsKept last × (requests steps ≡ 1)

with_request :
    (steps : List Step) (pass : Pass) → Good (steps, pass) → GoodAttempt (requested ∷ steps, pass)
unfolding requests
with_request steps (returns r) (good, few) = (good, omega arith)
with_request steps (continues last) (good, few) = (good, omega arith)

if-Good :
    (b : Bool) (x y : List Step × Pass)
    → (b ≡ true → Good x)
    → (b ≡ false → Good y)
    → Good (if b then x else y)
if-Good true x y h k = h refl
if-Good false x y h k = k refl

handed-Good :
    (status : ℕ)
    → (status == 403) ≡ false
    → is_kept status ≡ false
    → Good ([], returns (response status false))
unfolding requests
handed-Good status a b = ((a, b), omega arith)

ok-Good : (status : ℕ) → (status == 200) ≡ true → Good ([], returns (response status false))
ok-Good status e =
    let same : status ≡ 200 = ground arith in handed-Good status (rw same refl) (rw same refl)

module _ (stream : Bool) (max_attempts : ℕ) where
  retry_or-Good :
      (may : Bool) (attempt : ℕ) (last : Option ℕ) (info : Info)
      → LastIsKept last
      → Good (retry_or stream max_attempts may attempt last info)
  unfolding requests
  retry_or-Good may attempt last info h =
      if-Good (may && ltb attempt (max_attempts - 1)) _ _ (λ e. (h, omega arith))
        (λ e. (tt, omega arith))

  buffered-Good :
      (status attempt : ℕ) (last : Option ℕ) (b : Buffered)
      → is_kept status ≡ true
      → Good (buffered_pass stream max_attempts status attempt last b)
  unfolding requests
  buffered-Good status attempt last (unreadable info) e = (tt, omega arith)
  buffered-Good status attempt last (cancelled c) e = (tt, omega arith)
  buffered-Good status attempt last waited e = (e, omega arith)

  first-Good :
      (status attempt : ℕ) (last : Option ℕ) (first : Option Info)
      → LastIsKept last
      → (status == 200) ≡ true
      → Good (first_pass stream max_attempts status attempt last first)
  first-Good status attempt last none h e = ok-Good status e
  first-Good status attempt last (some info) h e = retry_or-Good true attempt last info h

  status_pass-Good :
      (attempt : ℕ) (last : Option ℕ) (r : Response)
      → LastIsKept last
      → Good (status_pass stream max_attempts attempt last r)
  unfolding status_pass requests
  status_pass-Good attempt last r h =
      if-Good (r.status_code == 200) _ _
        (λ e.
          if-Good (not stream) _ _ (λ f. ok-Good r.status_code e)
            (λ f. first-Good r.status_code attempt last r.first_chunk_error h e))
        (λ e.
          if-Good (r.status_code == 403) _ _ (λ f. (h, omega arith))
            (λ f.
              if-Good (is_kept r.status_code) _ _
                (λ g. buffered-Good r.status_code attempt last r.buffered g)
                (λ g. handed-Good r.status_code f g)))

  attempt_pass-GoodAttempt :
      (attempt : ℕ) (last : Option ℕ) (a : Answer)
      → LastIsKept last
      → GoodAttempt (attempt_pass stream max_attempts attempt last a)
  unfolding attempt_pass requests
  attempt_pass-GoodAttempt attempt last (not_prepared e) h = (tt, omega arith)
  attempt_pass-GoodAttempt attempt last (transport_error info) h =
      let (steps, pass) = retry_or stream max_attempts info.is_retryable attempt last info in
      with_request steps pass (retry_or-Good info.is_retryable attempt last info h)
  attempt_pass-GoodAttempt attempt last (responded r) h =
      let (steps, pass) = status_pass stream max_attempts attempt last r in
      with_request steps pass (status_pass-Good attempt last r h)

  -- The loop with `n` attempts left.
  abbrev GoodLoop : ℕ → List Step × Result → Type 0
  GoodLoop n sr = MayHand n sr × (requests sr.0 ≤ n)

  exhausted-GoodLoop :
      (last : Option ℕ) → LastIsKept last → GoodLoop 0 ([], exhausted stream max_attempts last)
  unfolding exhausted requests
  exhausted-GoodLoop none h = (tt, omega arith)
  exhausted-GoodLoop (some status) h = ((h, refl), omega arith)

  returned-GoodLoop :
      (steps : List Step) (r : Result) (n : ℕ)
      → Handed r
      → requests steps ≤ 1
      → GoodLoop (suc n) (steps, r)
  returned-GoodLoop steps (response status false) n good few = (good, omega arith)
  returned-GoodLoop steps (response status true) n good few = absurd good
  returned-GoodLoop steps (request_error info) n good few = (tt, omega arith)
  returned-GoodLoop steps (plain_error e) n good few = (tt, omega arith)

  further-GoodLoop :
      (steps later : List Step) (r : Result) (n : ℕ)
      → requests steps ≡ 1
      → GoodLoop n (later, r)
      → GoodLoop (suc n) (steps ++ later, r)
  further-GoodLoop steps later (response status false) n one (good, few) =
      (good, omega (arith, requests-append steps later))
  further-GoodLoop steps later (response status true) n one ((kept, all), few) = (
    (kept, omega (arith, requests-append steps later)),
    omega (arith, requests-append steps later),
  )
  further-GoodLoop steps later (request_error info) n one (good, few) =
      (tt, omega (arith, requests-append steps later))
  further-GoodLoop steps later (plain_error e) n one (good, few) =
      (tt, omega (arith, requests-append steps later))

  proceed-GoodLoop :
      (sp : List Step × Pass) (rest : Option ℕ → List Step × Result) (n : ℕ)
      → GoodAttempt sp
      → ((last : Option ℕ) → LastIsKept last → GoodLoop n (rest last))
      → GoodLoop (suc n) (proceed stream max_attempts sp rest)
  proceed-GoodLoop (steps, returns r) rest n (good, few) h = returned-GoodLoop steps r n good few
  proceed-GoodLoop (steps, continues last) rest n (good, one) h =
      further-GoodLoop steps (rest last).0 (rest last).1 n one (h last good)

  retry_loop-GoodLoop :
      (answers : ℕ → Answer) (left attempt : ℕ) (last : Option ℕ)
      → LastIsKept last
      → GoodLoop left (retry_loop stream max_attempts answers left attempt last)
  unfolding retry_loop
  retry_loop-GoodLoop answers zero attempt last h = exhausted-GoodLoop last h
  retry_loop-GoodLoop answers (suc left) attempt last h =
      proceed-GoodLoop (attempt_pass stream max_attempts attempt last (answers attempt))
        (λ last'. retry_loop stream max_attempts answers left (attempt + 1) last') left
        (attempt_pass-GoodAttempt attempt last (answers attempt) h)
        (λ last' h'. retry_loop-GoodLoop answers left (attempt + 1) last' h')

-- The attempts of a call: three, or for a stream the configured number, and one in any case.
abbrev pub allowed : Bool → ℕ → ℕ
allowed true first_token_max_retries = first_token_max_retries + (1 - first_token_max_retries)
allowed false first_token_max_retries = 3

max_attempts_of-allowed : (stream : Bool) (m : ℕ) → max_attempts_of stream m ≡ allowed stream m
unfolding max_attempts_of
max_attempts_of-allowed true m = ground arith
max_attempts_of-allowed false m = refl

bound :
    (stream : Bool) (m k : ℕ)
    → k ≤ max_attempts_of stream m
    → k ≤ (if stream then m + (1 - m) else 3)
unfolding max_attempts_of
bound true m k h = ground arith
bound false m k h = h

-- The caller is never handed a 403; a response whose body was not read ahead is neither a 429 nor a
-- 5xx; and a response whose body was read ahead is a 429 or a 5xx, and is only handed out behind as
-- many requests as there are attempts: three, or for a stream the configured number, and one in any
-- case.
pub request_with_retry-MayHand :
    (stream : Bool) (first_token_max_retries : ℕ) (answers : ℕ → Answer)
    → MayHand
        (allowed stream first_token_max_retries)
        (request_with_retry stream first_token_max_retries answers)
unfolding request_with_retry
request_with_retry-MayHand stream m answers =
    let n = max_attempts_of stream m in
    subst (λ k. MayHand k (retry_loop stream n answers n 0 none)) (max_attempts_of-allowed stream m)
      (retry_loop-GoodLoop stream n answers n 0 none tt).0

-- A request with retries sends at most three requests, or for a stream at most the configured number,
-- and in both cases one is allowed.
pub requests-request_with_retry :
    (stream : Bool) (first_token_max_retries : ℕ) (answers : ℕ → Answer)
    → requests (request_with_retry stream first_token_max_retries answers).0
      ≤ (if stream then first_token_max_retries + (1 - first_token_max_retries) else 3)
unfolding request_with_retry max_attempts_of
requests-request_with_retry stream m answers =
    let (_, few) =
      retry_loop-GoodLoop stream (max_attempts_of stream m) answers (max_attempts_of stream m) 0
        none tt in
    bound stream m _ few
