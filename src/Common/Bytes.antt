-- ===== src/Common/Bytes.antt =====
-- Go strings and byte slices as lists of bytes: comparison, `HasPrefix`, `Index`, `TrimLeft`.
use Prim.Native.Char.{code}
use Prim.Native.Nat.{ℕ, zero, suc, ◌+◌, ◌≤◌}
use Prim.Native.String.{String}
use mathlib.Core.Path.{◌≡◌, refl, sym, ap, ◌∙◌}
use mathlib.Core.Logic.{◌≢◌, inl, inr}
use mathlib.Core.Bool.{Bool, true, false, ◌&&◌, ◌||◌}
use mathlib.Core.Option.{Option, none, some}
use mathlib.Core.List.{List, [], ◌∷◌, ◌++◌}
use native.Mathlib.Nat.{suc-add}
use native.Mathlib.Omega.{arith}
use kiro_gateway_go.Common.Tests.{◌==◌, if◌then◌else◌, Bool-cases, Option-cases}
use kiro_gateway_go.Common.Lists.{length, drop, take}

abbrev pub Bytes : Type 0
Bytes = List ℕ

-- The code points of a text: its bytes, if it is ASCII.
abbrev pub codes : String → Bytes
codes String.[] = []
codes (String.◌∷◌ c s) = code c ∷ codes s

abbrev pub is_empty {ℓ} : {A : Type ℓ} → List A → Bool
is_empty [] = true
is_empty (_ ∷ _) = false

-- `strings.HasPrefix(s, prefix)`, the prefix first.
unfoldable pub has_prefix : Bytes → Bytes → Bool
has_prefix [] s = true
has_prefix (x ∷ p) [] = false
has_prefix (x ∷ p) (y ∷ s) = x == y && has_prefix p s

abbrev bump : Option ℕ → Option ℕ
bump none = none
bump (some i) = some (suc i)

-- `strings.Index(s, pat)`, the pattern first; `none` is -1.
unfoldable pub index : Bytes → Bytes → Option ℕ
unfolding has_prefix
index pat [] = if has_prefix pat [] then some 0 else none
index pat (x ∷ s) = if has_prefix pat (x ∷ s) then some 0 else bump (index pat s)

-- `strings.TrimLeft(s, " \t\n\r")`
abbrev pub is_space : ℕ → Bool
is_space c = c == 32 || c == 9 || c == 10 || c == 13

abbrev pub AllSpace : Bytes → Type 0
AllSpace [] = Unit
AllSpace (c ∷ s) = (is_space c ≡ true) × AllSpace s

unfoldable pub trim_left : Bytes → Bytes
trim_left [] = []
trim_left (c ∷ s) = let rest = trim_left s in if is_space c then rest else c ∷ s

pub has_prefix-append : (p s : Bytes) → has_prefix p (p ++ s) ≡ true
unfolding has_prefix
has_prefix-append [] s = refl
has_prefix-append (x ∷ p) s = ground (arith, has_prefix-append p s)

pub has_prefix-split : (p s : Bytes) → has_prefix p s ≡ true → s ≡ p ++ drop (length p) s
unfolding has_prefix
has_prefix-split [] s h = refl
has_prefix-split (x ∷ p) [] h = cc
has_prefix-split (x ∷ p) (y ∷ s) h = ground (arith, has_prefix-split p s)

-- More text behind a text that is long enough does not change the test.
pub has_prefix-long :
    (p s more : Bytes) → length p ≤ length s → has_prefix p (s ++ more) ≡ has_prefix p s
unfolding has_prefix
has_prefix-long [] s more h = refl
has_prefix-long (x ∷ p) [] more h = elim h [ ]
has_prefix-long (x ∷ p) (y ∷ s) more h = rw (has_prefix-long p s more (omega arith))

index-long :
    (pat : Bytes) (c : ℕ) (s : Bytes)
    → index pat (c ∷ s) ≡ none
    → (has_prefix pat (c ∷ s) ≡ false) × (index pat s ≡ none)
unfolding index
index-long pat c s h =
    (ground arith, elim (Option-cases (index pat s)) [ inl e ↦ e | inr (k, e) ↦ ground (arith, e) ])

index-cons :
    (pat : Bytes) (c : ℕ) (s : Bytes)
    → has_prefix pat (c ∷ s) ≡ false
    → index pat (c ∷ s) ≡ bump (index pat s)
unfolding index
index-cons pat c s h = rw h

abbrev pub shift : ℕ → Option ℕ → Option ℕ
shift n none = none
shift n (some k) = some (n + k)

shift-suc : (n : ℕ) (o : Option ℕ) → bump (shift n o) ≡ shift (suc n) o
shift-suc n none = refl
shift-suc n (some k) = ap some (omega arith)

pub shift-zero : (o : Option ℕ) → shift 0 o ≡ o
shift-zero none = refl
shift-zero (some k) = ap some (omega arith)

-- Where `pat` does not occur in `s`, the first `n` bytes of `s` can be dropped as long as
-- `length pat` bytes are kept: an occurrence with more text behind is found in what is left.
pub index-drop :
    (n : ℕ) (pat s more : Bytes)
    → index pat s ≡ none
    → n + length pat ≤ length s
    → index pat (s ++ more) ≡ shift n (index pat (drop n s ++ more))
index-drop zero pat s more h l = sym (shift-zero _)
index-drop (suc n) pat [] more h l = absurd (omega arith)
index-drop (suc n) pat (c ∷ s) more h l =
    let (p, q) = index-long pat c s h in
    let long = has_prefix-long pat (c ∷ s) more (omega arith) in
    index-cons pat c (s ++ more) (long ∙ p)
    ∙ ap (bump) (index-drop n pat s more q (omega arith))
    ∙ shift-suc n _

-- Nothing is found in a shorter text either.
pub index-none-drop : (n : ℕ) (pat s : Bytes) → index pat s ≡ none → index pat (drop n s) ≡ none
index-none-drop zero pat s h = h
index-none-drop (suc n) pat [] h = h
index-none-drop (suc n) pat (c ∷ s) h = index-none-drop n pat s (index-long pat c s h).1

unbump : (o : Option ℕ) (i : ℕ) → bump o ≡ some (suc i) → o ≡ some i
unbump none i h = cc
unbump (some k) i h = ground arith

-- What `Index` finds is an occurrence.
pub index-split :
    (pat s : Bytes) (i : ℕ)
    → index pat s ≡ some i
    → s ≡ take i s ++ (pat ++ drop (i + length pat) s)
unfolding index
index-split pat [] i h = ground (arith, has_prefix-split pat [])
index-split pat (c ∷ s) zero h = ground (arith, has_prefix-split pat (c ∷ s))
index-split pat (c ∷ s) (suc i) h = elim (Bool-cases (has_prefix pat (c ∷ s))) [
  | inl e ↦ absurd (ground arith)
  | inr e ↦ rw suc-add (ap (◌∷◌ c) (index-split pat s i (unbump _ _ (rw e at h))))
]

-- `TrimLeft` drops blanks only.
pub trim_left-split : (s : Bytes) → (ws : Bytes) × (s ≡ ws ++ trim_left s) × (AllSpace ws)
unfolding trim_left
trim_left-split [] = ([], refl, tt)
trim_left-split (c ∷ s) = elim (Bool-cases (is_space c)) [
  | inl e ↦ let (ws, p, q) = trim_left-split s in (c ∷ ws, rw e (ap (◌∷◌ c) p), (e, q))
  | inr e ↦ ([], rw e, tt)
]

has_prefix-more : (p s more : Bytes) → has_prefix p s ≡ true → has_prefix p (s ++ more) ≡ true
unfolding has_prefix
has_prefix-more [] s more h = refl
has_prefix-more (x ∷ p) [] more h = cc
has_prefix-more (x ∷ p) (y ∷ s) more h = ground (arith, has_prefix-more p s more)

index-of_prefix : (pat s : Bytes) → has_prefix pat s ≡ true → index pat s ≡ some 0
unfolding index
index-of_prefix pat [] h = rw h
index-of_prefix pat (c ∷ s) h = rw h

bump-ne_zero : (o : Option ℕ) → bump o ≢ some 0
bump-ne_zero none h = cc
bump-ne_zero (some k) h = ground arith

pub index-zero : (pat s : Bytes) → index pat s ≡ some 0 → has_prefix pat s ≡ true
unfolding index
index-zero pat [] h = ground arith
index-zero pat (c ∷ s) h = ground (arith, bump-ne_zero (index pat s))

has_prefix-le : (p s : Bytes) → has_prefix p s ≡ true → length p ≤ length s
unfolding has_prefix
has_prefix-le [] s h = omega arith
has_prefix-le (x ∷ p) [] h = cc
has_prefix-le (x ∷ p) (y ∷ s) h = ground (arith, has_prefix-le p s)

pub index-le_length : (pat s : Bytes) (i : ℕ) → index pat s ≡ some i → i + length pat ≤ length s
index-le_length pat s zero h = omega (arith, has_prefix-le pat s (index-zero pat s h))
index-le_length pat [] (suc i) h = unfold index in absurd (ground arith)
index-le_length pat (c ∷ s) (suc i) h = elim (Bool-cases (has_prefix pat (c ∷ s))) [
  | inl e ↦ absurd (cc (index-of_prefix pat (c ∷ s) e))
  | inr e ↦ omega (arith, index-le_length pat s i (unbump _ _ (sym (index-cons pat c s e) ∙ h)))
]

-- An occurrence stays where it is when text follows.
pub index-append :
    (pat s more : Bytes) (i : ℕ) → index pat s ≡ some i → index pat (s ++ more) ≡ some i
index-append pat s more zero h =
    index-of_prefix pat (s ++ more) (has_prefix-more pat s more (index-zero pat s h))
index-append pat [] more (suc i) h = unfold index in absurd (ground arith)
index-append pat (c ∷ s) more (suc i) h = elim (Bool-cases (has_prefix pat (c ∷ s))) [
  | inl e ↦ absurd (cc (index-of_prefix pat (c ∷ s) e))
  | inr e ↦
      let long =
        has_prefix-long pat (c ∷ s) more (omega (arith, index-le_length pat (c ∷ s) _ h)) in
      let later = unbump _ _ (sym (index-cons pat c s e) ∙ h) in
      index-cons pat c (s ++ more) (long ∙ e) ∙ ap bump (index-append pat s more i later)
]

pub index-tail : (pat s : Bytes) (c i : ℕ) → index pat (c ∷ s) ≡ some (suc i) → index pat s ≡ some i
index-tail pat s c i h = elim (Bool-cases (has_prefix pat (c ∷ s))) [
  | inl e ↦ absurd (cc (index-of_prefix pat (c ∷ s) e))
  | inr e ↦ unbump _ _ (sym (index-cons pat c s e) ∙ h)
]

pub shift-le : (n i : ℕ) (o : Option ℕ) → shift n o ≡ some i → n ≤ i
shift-le n i none h = cc
shift-le n i (some k) h = ground arith

abbrev pub concat : List Bytes → Bytes
concat [] = []
concat (chunk ∷ chunks) = chunk ++ concat chunks
