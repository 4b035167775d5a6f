-- ===== src/Tokenizer/Pretokens/Advance.antt =====
-- The first piece of a text that is not empty: it has a byte at least and lies in the text.
use kiro_gateway_go.Common.{
  ℕ, zero, suc, ◌+◌, ◌≤◌, ◌≡◌, subst, Bool, true, false, not, ◌||◌, Option, none, some, [], ◌∷◌,
  length, length-drop, drop, ltb, ◌==◌, if◌then◌else◌, inl, inr, Bool-cases, arith,
}
use kiro_gateway_go.Common.Bytes.{Bytes}
use kiro_gateway_go.Common.Runes.{rune_of, size_of, decode_rune-size}
use kiro_gateway_go.Tokenizer.Pretokens.{
  Unicode, is_apostrophe_sdmt, is_apostrophe_digraph, is_crlf, run, past, second_letter,
  first_letter, alt_apostrophe, may_lead, alt_letters, digits, alt_digits, is_other, line_ends,
  leading_space, alt_other, alt_ws_end, last_crlf, alt_ws_crlf, blanks, alt_ws_holdback,
  alt_single_ws,
}

-- An end that an alternative gives lies in a text of `n` bytes, behind its first byte.
abbrev pub Within : ℕ → Option ℕ → Type 0
Within n none = Unit
Within n (some end) = (1 ≤ end) × (end ≤ n)

if-Within :
    (n : ℕ) (b : Bool) (x y : Option ℕ) → Within n x → Within n y → Within n (if b then x else y)
if-Within n true x y h k = h
if-Within n false x y h k = k

if-le : (n : ℕ) (b : Bool) (x y : ℕ) → x ≤ n → y ≤ n → (if b then x else y) ≤ n
if-le n true x y h k = h
if-le n false x y h k = k

past-Within : (n start end : ℕ) → start ≤ end → end ≤ n → Within n (past start end)
past-Within n start end h k = elim (Bool-cases (start == end)) [
  | inl e ↦ rw e tt
  | inr e ↦ rw e (ground arith, k)
]

run-le : (p : ℕ → Bool) (fuel : ℕ) (s : Bytes) → run p fuel s ≤ length s
unfolding run
run-le p zero s = omega arith
run-le p (suc fuel) [] = omega arith
run-le p (suc fuel) (c ∷ s) = elim (Bool-cases (p (rune_of (c ∷ s)))) [
  | inl e ↦ rw e (
      omega (
        arith,
        run-le p fuel (drop (size_of (c ∷ s)) (c ∷ s)),
        length-drop (size_of (c ∷ s)) (c ∷ s),
        (decode_rune-size c s).1,
      ))
  | inr e ↦ rw e (omega arith)
]

run-drop_le :
    (p : ℕ → Bool) (fuel j : ℕ) (s : Bytes) → j ≤ length s → j + run p fuel (drop j s) ≤ length s
run-drop_le p fuel j s h = omega (arith, run-le p fuel (drop j s), length-drop j s)

-- A character that fits is taken.
pub run-positive :
    (p : ℕ → Bool) (fuel c : ℕ) (s : Bytes)
    → p (rune_of (c ∷ s)) ≡ true
    → 1 ≤ run p (suc fuel) (c ∷ s)
unfolding run
run-positive p fuel c s e = rw e (omega (arith, (decode_rune-size c s).0))

second_letter-Within :
    (r offset : ℕ) (s : Bytes) → 1 ≤ offset → Within (offset + length s) (second_letter r offset s)
second_letter-Within r offset [] h = tt
second_letter-Within r offset (c ∷ s) h =
    if-Within _ (is_apostrophe_digraph r (rune_of (c ∷ s))) _ _
      (omega arith, omega (arith, (decode_rune-size c s).1)) tt

first_letter-Within : (s : Bytes) → Within (suc (length s)) (first_letter s)
first_letter-Within [] = tt
first_letter-Within (c ∷ s) =
    let size = size_of (c ∷ s) in
    let fits = (decode_rune-size c s).1 in
    let whole : (1 + size) + length (drop size (c ∷ s)) ≡ suc (length (c ∷ s)) =
      omega (arith, length-drop size (c ∷ s)) in
    if-Within _ (is_apostrophe_sdmt (rune_of (c ∷ s))) _ _ (omega arith, omega arith)
      (subst (λ n. Within n (second_letter (rune_of (c ∷ s)) (1 + size) (drop size (c ∷ s)))) whole
        (second_letter-Within (rune_of (c ∷ s)) (1 + size) (drop size (c ∷ s)) (omega arith)))

pub alt_apostrophe-Within : (s : Bytes) → Within (length s) (alt_apostrophe s)
unfolding alt_apostrophe
alt_apostrophe-Within [] = tt
alt_apostrophe-Within (c ∷ s) = if-Within _ (c == b'\'') _ _ (first_letter-Within s) tt

line_ends-le : (s : Bytes) → line_ends s ≤ length s
unfolding line_ends
line_ends-le [] = omega arith
line_ends-le (c ∷ s) = elim (Bool-cases (is_crlf c)) [
  | inl e ↦ rw e (omega (arith, line_ends-le s))
  | inr e ↦ rw e (omega arith)
]

leading_space-le : (s : Bytes) → leading_space s ≤ length s
leading_space-le [] = omega arith
leading_space-le (c ∷ s) = ground arith

module _ (u : Unicode) where
  pub alt_letters-Within : (s : Bytes) → Within (length s) (alt_letters u s)
  unfolding alt_letters
  alt_letters-Within [] = tt
  alt_letters-Within (c ∷ s) =
      let j = if may_lead u (rune_of (c ∷ s)) then size_of (c ∷ s) else 0 in
      let fits : j ≤ length (c ∷ s) =
        if-le _ (may_lead u (rune_of (c ∷ s))) _ _ (decode_rune-size c s).1 (omega arith) in
      past-Within _ j _ (omega arith) (run-drop_le u.is_letter (length (c ∷ s)) j (c ∷ s) fits)

  digits-le : (count : ℕ) (s : Bytes) → digits u count s ≤ length s
  unfolding digits
  digits-le zero s = omega arith
  digits-le (suc count) [] = omega arith
  digits-le (suc count) (c ∷ s) = elim (Bool-cases (u.is_number (rune_of (c ∷ s)))) [
    | inl e ↦ rw e (
        omega (
          arith,
          digits-le count (drop (size_of (c ∷ s)) (c ∷ s)),
          length-drop (size_of (c ∷ s)) (c ∷ s),
          (decode_rune-size c s).1,
        ))
    | inr e ↦ rw e (omega arith)
  ]

  pub alt_digits-Within : (s : Bytes) → Within (length s) (alt_digits u s)
  unfolding alt_digits
  alt_digits-Within s = past-Within _ 0 _ (omega arith) (digits-le 3 s)

  pub alt_other-Within : (s : Bytes) → Within (length s) (alt_other u s)
  unfolding alt_other
  alt_other-Within s =
      let start : ℕ = leading_space s in
      let j : ℕ = start + run (is_other u) (length s) (drop start s) in
      let fits : j ≤ length s = run-drop_le (is_other u) (length s) start s (leading_space-le s) in
      elim (Bool-cases (start == j)) [
        | inl e ↦ rw e tt
        | inr e ↦ rw e (ground arith, omega (arith, line_ends-le (drop j s), length-drop j s, fits))
      ]

  pub alt_ws_end-Within : (s : Bytes) → Within (length s) (alt_ws_end u s)
  unfolding alt_ws_end
  alt_ws_end-Within s =
      if-Within _ (ltb (run u.is_space (length s) s) (length s)) _ _ tt
        (past-Within _ 0 _ (omega arith) (run-le u.is_space (length s) s))

  last_crlf-Within :
      (n fuel j : ℕ) (found : Option ℕ) (s : Bytes)
      → j + length s ≡ n
      → Within n found
      → Within n (last_crlf u fuel j found s)
  unfolding last_crlf
  last_crlf-Within n zero j found s e h = h
  last_crlf-Within n (suc fuel) j found [] e h = h
  last_crlf-Within n (suc fuel) j found (c ∷ s) e h =
      let (some_bytes, fits) = decode_rune-size c s in
      if-Within n (u.is_space (rune_of (c ∷ s))) _ _
        (last_crlf-Within n fuel (j + size_of (c ∷ s))
          (if is_crlf (rune_of (c ∷ s)) then some (j + size_of (c ∷ s)) else found)
          (drop (size_of (c ∷ s)) (c ∷ s)) (omega (arith, length-drop (size_of (c ∷ s)) (c ∷ s)))
          (if-Within n (is_crlf (rune_of (c ∷ s))) _ _ (omega arith, omega arith) h))
        h

  pub alt_ws_crlf-Within : (s : Bytes) → Within (length s) (alt_ws_crlf u s)
  unfolding alt_ws_crlf
  alt_ws_crlf-Within s = last_crlf-Within (length s) (length s) 0 none s (omega arith) tt

  -- From the second blank on the last one begins behind the first byte.
  abbrev Held : ℕ → ℕ × ℕ → Type 0
  Held n held = (2 ≤ held.0 → 1 ≤ held.1) × (held.1 ≤ n)

  if-Held : (n : ℕ) (b : Bool) (x y : ℕ × ℕ) → Held n x → Held n y → Held n (if b then x else y)
  if-Held n true x y h k = h
  if-Held n false x y h k = k

  blanks-Held :
      (n fuel j count last_start : ℕ) (s : Bytes)
      → j + length s ≡ n
      → (1 ≤ count → 1 ≤ j)
      → Held n (count, last_start)
      → Held n (blanks u fuel j count last_start s)
  unfolding blanks
  blanks-Held n zero j count last_start s e h k = k
  blanks-Held n (suc fuel) j count last_start [] e h k = k
  blanks-Held n (suc fuel) j count last_start (c ∷ s) e h k =
      let (some_bytes, fits) = decode_rune-size c s in
      if-Held n (not (u.is_space (rune_of (c ∷ s))) || is_crlf (rune_of (c ∷ s))) _ _ k (
        blanks-Held n fuel (j + size_of (c ∷ s)) (count + 1) j (drop (size_of (c ∷ s)) (c ∷ s))
          (omega (arith, length-drop (size_of (c ∷ s)) (c ∷ s))) (λ _. omega arith)
          ((λ m. h (omega arith)), omega arith))

  pub alt_ws_holdback-Within : (s : Bytes) → Within (length s) (alt_ws_holdback u s)
  unfolding alt_ws_holdback
  alt_ws_holdback-Within s =
      let (behind, fits) =
        blanks-Held (length s) (length s) 0 0 0 s (omega arith) (λ m. omega arith)
          ((λ m. omega arith), omega arith) in
      elim (Bool-cases (ltb (blanks u (length s) 0 0 0 s).0 2)) [
        | inl e ↦ rw e tt
        | inr e ↦ rw e (behind (ground arith), fits)
      ]

  pub alt_single_ws-Within : (s : Bytes) → Within (length s) (alt_single_ws u s)
  unfolding alt_single_ws
  alt_single_ws-Within [] = tt
  alt_single_ws-Within (c ∷ s) =
      if-Within _ (u.is_space (rune_of (c ∷ s))) _ _ (decode_rune-size c s) tt
