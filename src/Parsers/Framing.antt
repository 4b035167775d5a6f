-- ===== src/Parsers/Framing.antt =====
-- The frame that the loop of `Feed` (parser.go) cuts off a buffer does not depend on what is behind
-- it in the buffer.
use kiro_gateway_go.Common.{
  ℕ, zero, suc, ◌+◌, ◌-◌, ◌≤◌, ◌<◌, Bool, true, not, ◌&&◌, Option, none, some, List, [], ◌∷◌, ◌++◌,
  ◌≡◌, inl, inr, sym, ◌∙◌, arith, ltb, ◌==◌, length, drop, Bool-cases, Option-cases,
}
use kiro_gateway_go.Common.Bytes.{
  Bytes, index, has_prefix, index-append, index-drop, index-zero, index-tail, shift-le,
}
use kiro_gateway_go.Parsers.Events.{Kind, better, earliest_of}

-- A pattern has no closing brace.
abbrev pub lacks_brace : Bytes → Bool
lacks_brace [] = true
lacks_brace (c ∷ s) = not (c == b'}') && lacks_brace s

prefix-no_brace :
    (pat s t : Bytes) (j : ℕ)
    → lacks_brace pat ≡ true
    → has_prefix pat s ≡ true
    → j < length pat
    → drop j s ≡ b'}' ∷ t
    → ⊥
unfolding has_prefix
prefix-no_brace [] s t j l h lt e = elim lt [ ]
prefix-no_brace (x ∷ pat) [] t j l h lt e = absurd (ground arith)
prefix-no_brace (x ∷ pat) (y ∷ s) t zero l h lt e = absurd (ground arith)
prefix-no_brace (x ∷ pat) (y ∷ s) t (suc j) l h lt e =
    prefix-no_brace pat s t j (ground arith) (ground arith) (omega arith) e

-- An occurrence of a pattern does not reach over a closing brace.
index-no_brace :
    (pat s t : Bytes) (i j : ℕ)
    → lacks_brace pat ≡ true
    → index pat s ≡ some i
    → i ≤ j
    → j < i + length pat
    → drop j s ≡ b'}' ∷ t
    → ⊥
index-no_brace pat s t zero j l h le lt e =
    prefix-no_brace pat s t j l (index-zero pat s h) (omega arith) e
index-no_brace pat [] t (suc i) zero l h le lt e = absurd (ground arith)
index-no_brace pat [] t (suc i) (suc j) l h le lt e = absurd (ground arith)
index-no_brace pat (c ∷ s) t (suc i) zero l h le lt e = absurd (omega arith)
index-no_brace pat (c ∷ s) t (suc i) (suc j) l h le lt e =
    index-no_brace pat s t i j l (index-tail pat s c i h) (omega arith) (omega arith) e

-- With a closing brace at `j`, a pattern that more bytes complete stands behind it.
index-behind :
    (pat buf more t : Bytes) (i j : ℕ)
    → lacks_brace pat ≡ true
    → index pat buf ≡ none
    → index pat (buf ++ more) ≡ some i
    → j < length buf
    → drop j (buf ++ more) ≡ b'}' ∷ t
    → j < i
index-behind pat buf more t i j l n h lt e = elim (Bool-cases (ltb j i)) [
  | inl y ↦ ground arith
  | inr y ↦
      let over : length buf ≤ i + length pat = elim (Bool-cases (ltb (length buf) (length pat))) [
        | inl z ↦ ground arith
        | inr z ↦
            let d = index-drop (length buf - length pat) pat buf more n (ground arith) in
            let b = shift-le _ i _ (sym d ∙ h) in ground (arith, b)
      ] in
      absurd (index-no_brace pat (buf ++ more) t i j l h (ground arith) (ground (arith, over)) e)
]

-- What more bytes do to the earliest pattern before all patterns have been tried.
pub data Later (p : ℕ) : Option (ℕ × Kind) → Option (ℕ × Kind) → Type 0 where
  same : (a : Option (ℕ × Kind)) → Later p a a
  appeared : (i : ℕ) (k : Kind) → p < i → Later p none (some (i, k))
  both : (i i' : ℕ) (k k' : Kind) → p < i → p < i' → Later p (some (i, k)) (some (i', k'))

better-appeared :
    (p : ℕ) (kind : Kind) (i : ℕ) (a a' : Option (ℕ × Kind))
    → p < i
    → Later p a a'
    → Later p a (better (some i) kind a')
better-appeared p kind i _ _ lt (same none) = appeared i kind lt
better-appeared p kind i _ _ lt (same (some (q, k))) = elim (Bool-cases (ltb i q)) [
  | inl e ↦ rw e (both q i k kind (ground arith) lt)
  | inr e ↦ rw e (same (some (q, k)))
]
better-appeared p kind i _ _ lt (appeared q k l) = elim (Bool-cases (ltb i q)) [
  | inl e ↦ rw e (appeared i kind lt)
  | inr e ↦ rw e (appeared q k l)
]
better-appeared p kind i _ _ lt (both q q' k k' l l') = elim (Bool-cases (ltb i q')) [
  | inl e ↦ rw e (both q i k kind l lt)
  | inr e ↦ rw e (both q q' k k' l l')
]

better-both :
    (p : ℕ) (kind : Kind) (i : ℕ) (a a' : Option (ℕ × Kind))
    → Later p a a'
    → Later p (better (some i) kind a) (better (some i) kind a')
better-both p kind i _ _ (same a) = same (better (some i) kind a)
better-both p kind i _ _ (appeared q k l) = elim (Bool-cases (ltb i q)) [
  | inl e ↦ rw e (same (some (i, kind)))
  | inr e ↦ rw e (both i q kind k (ground arith) l)
]
better-both p kind i _ _ (both q q' k k' l l') = elim (Bool-cases (ltb i q)) [
  | inl e ↦ elim (Bool-cases (ltb i q')) [
    | inl e' ↦ rw (e, e') (same (some (i, kind)))
    | inr e' ↦ rw (e, e') (both i q' kind k' (ground arith) l')
  ]
  | inr e ↦ elim (Bool-cases (ltb i q')) [
    | inl e' ↦ rw (e, e') (both q i k kind l (ground arith))
    | inr e' ↦ rw (e, e') (both q q' k k' l l')
  ]
]

-- The patterns have no closing brace.
abbrev pub all_lack_brace : List (Bytes × Kind) → Bool
all_lack_brace [] = true
all_lack_brace ((pat, kind) ∷ pats) = lacks_brace pat && all_lack_brace pats

Later-result :
    (p : ℕ) (k : Kind) (a a' : Option (ℕ × Kind))
    → Later p a a'
    → a ≡ some (p, k)
    → a' ≡ some (p, k)
Later-result p k _ _ (same a) h = h
Later-result p k _ _ (appeared i k' l) h = absurd (cc)
Later-result p k _ _ (both i i' k' k'' l l') h = let e : i ≡ p = cc in absurd (omega (arith, e))

module _ (buf more t : Bytes) (p j : ℕ) (le : p ≤ j) (lt : j < length buf)
    (brace : drop j (buf ++ more) ≡ b'}' ∷ t) where
  better-more :
      (pat : Bytes) (kind : Kind) (a a' : Option (ℕ × Kind))
      → lacks_brace pat ≡ true
      → Later p a a'
      → Later p (better (index pat buf) kind a) (better (index pat (buf ++ more)) kind a')
  better-more pat kind a a' l h = elim (Option-cases (index pat buf)) [
    | inr (i, e) ↦ rw (e, index-append pat buf more i e) (better-both p kind i a a' h)
    | inl n ↦ elim (Option-cases (index pat (buf ++ more))) [
      | inl n' ↦ rw (n, n') h
      | inr (i, e) ↦
          rw (n, e)
            (better-appeared p kind i a a'
              (omega (arith, index-behind pat buf more t i j l n e lt brace)) h)
    ]
  ]

  pub earliest-more :
      (pats : List (Bytes × Kind)) (k : Kind) (a a' : Option (ℕ × Kind))
      → all_lack_brace pats ≡ true
      → Later p a a'
      → earliest_of pats buf a ≡ some (p, k)
      → earliest_of pats (buf ++ more) a' ≡ some (p, k)
  unfolding earliest_of
  earliest-more [] k a a' l h e = Later-result p k a a' h e
  earliest-more ((pat, kind) ∷ pats) k a a' l h e =
      earliest-more pats k _ _ (ground arith) (better-more pat kind a a' (ground arith) h) e
