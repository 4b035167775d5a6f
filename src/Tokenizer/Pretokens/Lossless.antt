-- ===== src/Tokenizer/Pretokens/Lossless.antt =====
-- The pieces of a text: none is empty, and together they are the text.
use kiro_gateway_go.Common.{
  ℕ, zero, suc, ◌+◌, ◌≤◌, ◌≡◌, refl, ap, ◌∙◌, inl, inr, true, false, Option, none, some, List, [],
  ◌∷◌, ◌++◌, length, length-drop, take, drop, take-append-drop, ◌==◌, Bool-cases, arith, get_elem?,
}
use kiro_gateway_go.Common.Bytes.{Bytes, concat}
use kiro_gateway_go.Common.Runes.{rune_of, size_of, decode_rune, decode_rune-size}
use kiro_gateway_go.Tokenizer.Pretokens.{
  Unicode, run, past, alt_apostrophe, may_lead, alt_letters, digits, alt_digits, is_other,
  line_ends, alt_other, alt_ws_end, alt_ws_crlf, alt_ws_holdback, alt_single_ws, first_end,
  next_pretoken_end, at_least_one, with_piece, split_loop, split_pretokens,
}
use kiro_gateway_go.Tokenizer.Pretokens.Advance.{
  Within, run-positive, alt_apostrophe-Within, alt_letters-Within, alt_digits-Within,
  alt_other-Within, alt_ws_end-Within, alt_ws_crlf-Within, alt_ws_holdback-Within,
  alt_single_ws-Within,
}

abbrev AllWithin : ℕ → List (Option ℕ) → Type 0
AllWithin n [] = Unit
AllWithin n (o ∷ alts) = Within n o × AllWithin n alts

first_end-le : (n : ℕ) (alts : List (Option ℕ)) → AllWithin n alts → first_end alts ≤ n
first_end-le n [] h = omega arith
first_end-le n (none ∷ alts) h = first_end-le n alts h.1
first_end-le n (some end ∷ alts) h = h.0.1

-- Where an alternative fits, the first that does takes a byte at least.
first_end-positive :
    (n k : ℕ) (alts : List (Option ℕ)) {end : ℕ}
    → AllWithin n alts
    → get_elem? alts k ≡ some (some end)
    → 1 ≤ first_end alts
first_end-positive n k [] h e = cc
first_end-positive n zero (none ∷ alts) h e = cc
first_end-positive n (suc k) (none ∷ alts) h e = first_end-positive n k alts h.1 e
first_end-positive n k (some end ∷ alts) h e = h.0.0

past-some : (start end : ℕ) → suc start ≤ end → past start end ≡ some end
past-some start end h = ground arith

at_least_one-bounds :
    (c : ℕ) (s : Bytes) (end : ℕ)
    → end ≤ length (c ∷ s)
    → (1 ≤ at_least_one (c ∷ s) end) × (at_least_one (c ∷ s) end ≤ length (c ∷ s))
at_least_one-bounds c s zero h =
    let (p, q) = decode_rune-size c s in
    elim (Bool-cases (size_of (c ∷ s) == 0)) [
      | inl e ↦ rw e (omega arith, omega arith)
      | inr e ↦ rw e (p, q)
    ]
at_least_one-bounds c s (suc end) h = (omega arith, h)

abbrev NoneEmpty : List Bytes → Type 0
NoneEmpty [] = Unit
NoneEmpty (piece ∷ pieces) = (1 ≤ length piece) × NoneEmpty pieces

length-take : (n : ℕ) (s : Bytes) → n ≤ length s → length (take n s) ≡ n
length-take zero s h = refl
length-take (suc n) [] h = elim h [ ]
length-take (suc n) (x ∷ s) h = ap suc (length-take n s (omega arith))

module _ (u : Unicode) where
  abbrev alternatives : Bytes → List (Option ℕ)
  alternatives s =
      alt_apostrophe s
      ∷ alt_letters u s
      ∷ alt_digits u s
      ∷ alt_other u s
      ∷ alt_ws_end u s
      ∷ alt_ws_crlf u s
      ∷ alt_ws_holdback u s
      ∷ alt_single_ws u s
      ∷ []

  alternatives-AllWithin : (s : Bytes) → AllWithin (length s) (alternatives s)
  alternatives-AllWithin s = (
    alt_apostrophe-Within s,
    (
      alt_letters-Within u s,
      (
        alt_digits-Within u s,
        (
          alt_other-Within u s,
          (
            alt_ws_end-Within u s,
            (alt_ws_crlf-Within u s, (alt_ws_holdback-Within u s, (alt_single_ws-Within u s, tt))),
          ),
        ),
      ),
    ),
  )

  next-le : (s : Bytes) → next_pretoken_end u s ≤ length s
  unfolding next_pretoken_end
  next-le s = first_end-le (length s) (alternatives s) (alternatives-AllWithin s)

  -- What `split_loop` gives, once there is fuel enough.
  abbrev Lossless : Bytes → Option (List Bytes) → Type 0
  Lossless s o = (pieces : List Bytes) × (o ≡ some pieces) × (concat pieces ≡ s) × NoneEmpty pieces

  split_loop-Lossless : (fuel : ℕ) (s : Bytes) → length s ≤ fuel → Lossless s (split_loop u fuel s)
  unfolding split_loop
  split_loop-Lossless fuel [] h = ([], refl, refl, tt)
  split_loop-Lossless zero (c ∷ s) h = absurd (omega arith)
  split_loop-Lossless (suc fuel) (c ∷ s) h =
      let end = at_least_one (c ∷ s) (next_pretoken_end u (c ∷ s)) in
      let (some_bytes, fits) = at_least_one-bounds c s _ (next-le (c ∷ s)) in
      let (pieces, e, whole, full) =
        split_loop-Lossless fuel (drop end (c ∷ s))
          (omega (arith, length-drop end (c ∷ s), some_bytes)) in
      (
        take end (c ∷ s) ∷ pieces,
        ap (with_piece (take end (c ∷ s))) e,
        ap (λ t. take end (c ∷ s) ++ t) whole ∙ take-append-drop end (c ∷ s),
        (omega (arith, length-take end (c ∷ s) fits, some_bytes), full),
      )

  -- Every text is cut into pieces, be it valid UTF-8 or not: the loop ends, no piece is empty, and
  -- the pieces one behind the other are the text.
  pub split_pretokens-Lossless :
      (s : Bytes)
      → (pieces : List Bytes) × (split_pretokens u s ≡ some pieces)
        × (concat pieces ≡ s)
        × NoneEmpty pieces
  unfolding split_pretokens
  split_pretokens-Lossless s = split_loop-Lossless (length s) s (omega arith)

  taken_by :
      (k c : ℕ) (s : Bytes) {end : ℕ}
      → get_elem? (alternatives (c ∷ s)) k ≡ some (some end)
      → 1 ≤ next_pretoken_end u (c ∷ s)
  unfolding next_pretoken_end
  taken_by k c s e =
      first_end-positive (length (c ∷ s)) k (alternatives (c ∷ s)) (alternatives-AllWithin (c ∷ s))
        e

  letter-alt :
      (c : ℕ) (s : Bytes)
      → u.is_letter (rune_of (c ∷ s)) ≡ true
      → (end : ℕ) × (alt_letters u (c ∷ s) ≡ some end)
  unfolding alt_letters
  letter-alt c s e =
      let leads : may_lead u (rune_of (c ∷ s)) ≡ false = ground arith in
      let taken = run-positive u.is_letter (length s) c s e in
      (0 + run u.is_letter (length (c ∷ s)) (c ∷ s), rw leads (past-some 0 _ (omega arith)))

  digit-alt :
      (c : ℕ) (s : Bytes)
      → u.is_number (rune_of (c ∷ s)) ≡ true
      → (end : ℕ) × (alt_digits u (c ∷ s) ≡ some end)
  unfolding alt_digits digits
  digit-alt c s e = (_, past-some 0 _ (rw e (omega (arith, (decode_rune-size c s).0))))

  blank-alt :
      (c : ℕ) (s : Bytes)
      → u.is_space (rune_of (c ∷ s)) ≡ true
      → (end : ℕ) × (alt_single_ws u (c ∷ s) ≡ some end)
  unfolding alt_single_ws
  blank-alt c s e = (size_of (c ∷ s), rw e)

  space-rune : (c : ℕ) (s : Bytes) → (c == b' ') ≡ true → rune_of (c ∷ s) ≡ b' '
  unfolding decode_rune
  space-rune c s e = let c_eq : c ≡ b' ' = ground arith in rw c_eq

  other-alt :
      (c : ℕ) (s : Bytes)
      → u.is_space b' ' ≡ true
      → u.is_space (rune_of (c ∷ s)) ≡ false
      → is_other u (rune_of (c ∷ s)) ≡ true
      → (end : ℕ) × (alt_other u (c ∷ s) ≡ some end)
  unfolding alt_other
  other-alt c s space blank e =
      let no_lead : (c == b' ') ≡ false = elim (Bool-cases (c == b' ')) [
        | inl at ↦ absurd (cc (blank, space, ap (u.is_space) (space-rune c s at)))
        | inr no_space ↦ no_space
      ] in
      let taken = run-positive (is_other u) (length s) c s e in
      let j : ℕ = 0 + run (is_other u) (length (c ∷ s)) (c ∷ s) in
      let moved : (0 == j) ≡ false = ground arith in
      (j + line_ends (drop j (c ∷ s)), rw no_lead (rw moved))

  -- Provided that U+0020 counts as a blank, some alternative takes a byte or more of every text that is
  -- not empty, be it valid UTF-8 or not.
  pub next_pretoken_end-positive :
      u.is_space b' ' ≡ true → (c : ℕ) (s : Bytes) → 1 ≤ next_pretoken_end u (c ∷ s)
  next_pretoken_end-positive space c s = elim (Bool-cases (u.is_letter (rune_of (c ∷ s)))) [
    | inl e ↦ taken_by 1 c s (ap some (letter-alt c s e).1)
    | inr letter ↦ elim (Bool-cases (u.is_number (rune_of (c ∷ s)))) [
      | inl e ↦ taken_by 2 c s (ap some (digit-alt c s e).1)
      | inr number ↦ elim (Bool-cases (u.is_space (rune_of (c ∷ s)))) [
        | inl e ↦ taken_by 7 c s (ap some (blank-alt c s e).1)
        | inr blank ↦
            taken_by 3 c s (ap some (other-alt c s space blank (rw (letter, number, blank))).1)
      ]
    ]
  ]
