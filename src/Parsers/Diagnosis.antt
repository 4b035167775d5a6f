-- ===== src/Parsers/Diagnosis.antt =====
-- When the diagnosis of truncation.go calls a text cut off, against a description of the text that
-- does not use what the code counts.
use kiro_gateway_go.Common.{
  ℕ, suc, ◌+◌, ◌%◌, ◌/◌, true, false, [], ◌∷◌, ◌++◌, ◌==◌, length, if◌then◌else◌, Bool-cases, ◌≡◌,
  refl, sym, ap, ◌∙◌, ◌⊎◌, inl, inr, ◌↔◌, arith, subst,
}
use kiro_gateway_go.Common.Bytes.{Bytes, is_empty}
use kiro_gateway_go.Parsers.Truncation.{
  count, begins_with, ends_with, quote_count, diagnose_json_truncation,
}

-- The text read from left to right as quotes, other bytes, and pairs of a backslash and the byte that
-- it escapes, with the number of the quotes; at the end a backslash may stand alone.
pub data Read : Bytes → ℕ → Type 0 where
  nothing : Read [] 0
  lone : Read (b'\\' ∷ []) 0
  escaped : (c : ℕ) (s : Bytes) (n : ℕ) → Read s n → Read (b'\\' ∷ c ∷ s) n
  quote : (s : Bytes) (n : ℕ) → Read s n → Read (b'"' ∷ s) (suc n)
  other :
      (c : ℕ) (s : Bytes) (n : ℕ)
      → (c == b'\\') ≡ false
      → (c == b'"') ≡ false
      → Read s n
      → Read (c ∷ s) n

-- The bytes of a text that are `c`.
abbrev pub occurrences : ℕ → Bytes → Bytes
occurrences c [] = []
occurrences c (x ∷ s) = let rest = occurrences c s in if x == c then x ∷ rest else rest

-- A text with all its closing signs.
pub record Whole (s : Bytes) : Type 0 where
  pub object_closed : (rest : Bytes) → s ≡ b'{' ∷ rest → (front : Bytes) × (s ≡ front ++ b'}' ∷ [])
  pub array_closed : (rest : Bytes) → s ≡ b'[' ∷ rest → (front : Bytes) × (s ≡ front ++ b']' ∷ [])
  pub braces : length (occurrences b'{' s) ≡ length (occurrences b'}' s)
  pub brackets : length (occurrences b'[' s) ≡ length (occurrences b']' s)
  pub quotes : (half : ℕ) × Read s (half + half)

count-occurrences : (c : ℕ) (s : Bytes) → count c s ≡ length (occurrences c s)
unfolding count
count-occurrences c [] = refl
count-occurrences c (x ∷ s) = elim (Bool-cases (x == c)) [
  | inl e ↦ rw e (ap suc (count-occurrences c s))
  | inr e ↦ rw e (count-occurrences c s)
]

quote_count-quote : (s : Bytes) → quote_count (b'"' ∷ s) ≡ suc (quote_count s)
unfolding quote_count
quote_count-quote [] = refl
quote_count-quote (d ∷ s) = refl

quote_count-other :
    (c : ℕ) (s : Bytes)
    → (c == b'\\') ≡ false
    → (c == b'"') ≡ false
    → quote_count (c ∷ s) ≡ quote_count s
unfolding quote_count
quote_count-other c [] b q = rw q refl
quote_count-other c (d ∷ s) b q = rw (b, q) refl

quote_count-Read : (s : Bytes) (n : ℕ) → Read s n → quote_count s ≡ n
unfolding quote_count
quote_count-Read s n Read.nothing = refl
quote_count-Read s n Read.lone = refl
quote_count-Read s n (Read.escaped c t m r) = quote_count-Read t m r
quote_count-Read s n (Read.quote t m r) = quote_count-quote t ∙ ap suc (quote_count-Read t m r)
quote_count-Read s n (Read.other c t m b q r) = quote_count-other c t b q ∙ quote_count-Read t m r

-- A byte that passes a test for `k` is `k`.
same_byte : (c k : ℕ) → (c == k) ≡ true → c ≡ k
same_byte c k h = ground arith

Read-unescaped :
    (c : ℕ) (s : Bytes)
    → (c == b'\\') ≡ false
    → Read s (quote_count s)
    → Read (c ∷ s) (quote_count (c ∷ s))
Read-unescaped c s b r = elim (Bool-cases (c == b'"')) [
  | inl e ↦
      subst (λ k. Read (k ∷ s) (quote_count (k ∷ s))) (sym (same_byte c b'"' e))
        (subst (Read (b'"' ∷ s)) (sym (quote_count-quote s)) (Read.quote s (quote_count s) r))
  | inr q ↦
      subst (Read (c ∷ s)) (sym (quote_count-other c s b q)) (Read.other c s (quote_count s) b q r)
]

Read-quote_count : (s : Bytes) → Read s (quote_count s)
unfolding quote_count
Read-quote_count [] = Read.nothing
Read-quote_count (c ∷ []) = elim (Bool-cases (c == b'\\')) [
  | inl e ↦ subst (λ k. Read (k ∷ []) (quote_count (k ∷ []))) (sym (same_byte c b'\\' e)) Read.lone
  | inr b ↦ Read-unescaped c [] b Read.nothing
]
Read-quote_count (c ∷ d ∷ s) = elim (Bool-cases (c == b'\\')) [
  | inl e ↦
      subst (λ k. Read (k ∷ d ∷ s) (quote_count (k ∷ d ∷ s))) (sym (same_byte c b'\\' e))
        (Read.escaped d s (quote_count s) (Read-quote_count s))
  | inr b ↦ Read-unescaped c (d ∷ s) b (Read-quote_count (d ∷ s))
]

begins_with-cons : (c : ℕ) (rest : Bytes) → begins_with c (c ∷ rest) ≡ true
unfolding begins_with
begins_with-cons c rest = ground arith

cons-begins_with : (c : ℕ) (s : Bytes) → begins_with c s ≡ true → (rest : Bytes) × (s ≡ c ∷ rest)
unfolding begins_with
cons-begins_with c [] h = absurd (cc)
cons-begins_with c (x ∷ s) h = (s, ap (λ k. k ∷ s) (same_byte x c h))

ends_with-append : (c : ℕ) (front : Bytes) → ends_with c (front ++ c ∷ []) ≡ true
unfolding ends_with
ends_with-append c [] = ground arith
ends_with-append c (x ∷ []) = ground arith
ends_with-append c (x ∷ y ∷ front) = ends_with-append c (y ∷ front)

append-ends_with :
    (c : ℕ) (s : Bytes) → ends_with c s ≡ true → (front : Bytes) × (s ≡ front ++ c ∷ [])
unfolding ends_with
append-ends_with c [] h = absurd (cc)
append-ends_with c (x ∷ []) h = ([], ap (λ k. k ∷ []) (same_byte x c h))
append-ends_with c (x ∷ y ∷ s) h =
    let (front, e) = append-ends_with c (y ∷ s) h in (x ∷ front, ap (λ t. x ∷ t) e)

-- What the code tests.
record Tested (s : Bytes) : Type 0 where
  object_closed : begins_with b'{' s ≡ true → ends_with b'}' s ≡ true
  array_closed : begins_with b'[' s ≡ true → ends_with b']' s ≡ true
  braces : count b'{' s ≡ count b'}' s
  brackets : count b'[' s ≡ count b']' s
  quotes : quote_count s % 2 ≡ 0

closed_tested :
    (a b : ℕ) (s : Bytes)
    → ((rest : Bytes) → s ≡ a ∷ rest → (front : Bytes) × (s ≡ front ++ b ∷ []))
    → begins_with a s ≡ true
    → ends_with b s ≡ true
closed_tested a b s closed h =
    let (rest, e) = cons-begins_with a s h in
    let (front, f) = closed rest e in ap (ends_with b) f ∙ ends_with-append b front

tested_closed :
    (a b : ℕ) (s : Bytes)
    → (begins_with a s ≡ true → ends_with b s ≡ true)
    → (rest : Bytes) → s ≡ a ∷ rest
    → (front : Bytes) × (s ≡ front ++ b ∷ [])
tested_closed a b s tested rest e =
    append-ends_with b s (tested (ap (begins_with a) e ∙ begins_with-cons a rest))

counted :
    (a b : ℕ) (s : Bytes)
    → count a s ≡ count b s
    → length (occurrences a s) ≡ length (occurrences b s)
counted a b s h = sym (count-occurrences a s) ∙ h ∙ count-occurrences b s

recounted :
    (a b : ℕ) (s : Bytes)
    → length (occurrences a s) ≡ length (occurrences b s)
    → count a s ≡ count b s
recounted a b s h = count-occurrences a s ∙ h ∙ sym (count-occurrences b s)

even_half : (n : ℕ) → n % 2 ≡ 0 → (half : ℕ) × (n ≡ half + half)
even_half n h = (n / 2, omega arith)

half_even : (half : ℕ) → (half + half) % 2 ≡ 0
half_even half = omega arith

Whole-Tested : (s : Bytes) → Whole s → Tested s
Whole-Tested s w =
    let (half, r) = w.quotes in
    record {
      object_closed = closed_tested b'{' b'}' s w.object_closed;
      array_closed = closed_tested b'[' b']' s w.array_closed;
      braces = recounted b'{' b'}' s w.braces;
      brackets = recounted b'[' b']' s w.brackets;
      quotes = ap (λ n. n % 2) (quote_count-Read s (half + half) r) ∙ half_even half;
    }

Tested-Whole : (s : Bytes) → Tested s → Whole s
Tested-Whole s t =
    let (half, e) = even_half (quote_count s) t.quotes in
    record {
      object_closed = tested_closed b'{' b'}' s t.object_closed;
      array_closed = tested_closed b'[' b']' s t.array_closed;
      braces = counted b'{' b'}' s t.braces;
      brackets = counted b'[' b']' s t.brackets;
      quotes = (half, subst (Read s) e (Read-quote_count s));
    }

diagnose-Tested :
    (trim_space : Bytes → Bytes) (json_str : Bytes)
    → ((diagnose_json_truncation trim_space json_str).is_truncated ≡ false)
      ↔ ((is_empty (trim_space json_str) ≡ true) ⊎ Tested (trim_space json_str))
unfolding diagnose_json_truncation
diagnose-Tested trim_space json_str = (ground arith, ground arith)

-- A text that cannot be decoded is taken for merely malformed, not for cut off, exactly when what is
-- left of it without blanks around it is empty, or it ends with a brace if it begins with one, and
-- with a bracket if it begins with one, holds as many opening braces and brackets as closing ones,
-- and an even number of quotes, where a backslash takes the byte behind it out of the count.
pub diagnose_json_truncation_iff :
    (trim_space : Bytes → Bytes) (json_str : Bytes)
    → ((diagnose_json_truncation trim_space json_str).is_truncated ≡ false)
      ↔ ((is_empty (trim_space json_str) ≡ true) ⊎ Whole (trim_space json_str))
diagnose_json_truncation_iff trim_space json_str =
    let s = trim_space json_str in
    let (there, back) = diagnose-Tested trim_space json_str in
    (
      λ h. elim (there h) [ inl e ↦ inl e | inr t ↦ inr (Tested-Whole s t) ],
      λ h. elim h [ inl e ↦ back (inl e) | inr w ↦ back (inr (Whole-Tested s w)) ],
    )
