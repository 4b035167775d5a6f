-- ===== src/Common/Runes.antt =====
-- `utf8.DecodeRuneInString`: the first character of a text and the number of its bytes. Of no bytes
-- it makes 65533 and 0, of bytes that are no character 65533 and 1.
use Prim.Native.Nat.{ℕ, suc, ◌+◌, ◌-◌, ◌*◌, ◌≤◌, ◌<◌}
use mathlib.Core.Path.{◌≡◌, refl}
use mathlib.Core.Logic.{◌⊎◌, inl, inr}
use mathlib.Core.Bool.{Bool, true, false, ◌&&◌}
use mathlib.Core.List.{[], ◌∷◌}
use native.Mathlib.Omega.{arith}
use kiro_gateway_go.Common.Tests.{ltb, leb, ◌==◌, if◌then◌else◌, Bool-cases}
use kiro_gateway_go.Common.Lists.{length}
use kiro_gateway_go.Common.Bytes.{Bytes}

abbrev within : (low high b : ℕ) → Bool
within low high b = leb low b && leb b high

-- The range of the second byte, by the first one.
abbrev low_of : ℕ → ℕ
low_of b = if b == 0xe0 then 0xa0 else if b == 0xf0 then 0x90 else 0x80

abbrev high_of : ℕ → ℕ
high_of b = if b == 0xed then 0x9f else if b == 0xf4 then 0x8f else 0xbf

abbrev broken : ℕ × ℕ
broken = (65533, 1)

abbrev two_bytes : ℕ → Bytes → ℕ × ℕ
two_bytes a (b ∷ _) = if within 0x80 0xbf b then ((a - 0xc0) * 64 + (b - 0x80), 2) else broken
two_bytes a _ = broken

abbrev three_bytes : ℕ → Bytes → ℕ × ℕ
three_bytes a (b ∷ c ∷ _) =
    if within (low_of a) (high_of a) b && within 0x80 0xbf c
    then ((a - 0xe0) * 4096 + (b - 0x80) * 64 + (c - 0x80), 3)
    else broken
three_bytes a _ = broken

abbrev four_bytes : ℕ → Bytes → ℕ × ℕ
four_bytes a (b ∷ c ∷ d ∷ _) =
    if within (low_of a) (high_of a) b && (within 0x80 0xbf c && within 0x80 0xbf d)
    then ((a - 0xf0) * 262144 + (b - 0x80) * 4096 + (c - 0x80) * 64 + (d - 0x80), 4)
    else broken
four_bytes a _ = broken

unfoldable pub decode_rune : Bytes → ℕ × ℕ
decode_rune [] = (65533, 0)
decode_rune (a ∷ s) =
    if ltb a 0x80
    then (a, 1)
    else if within 0xc2 0xdf a
    then two_bytes a s
    else if within 0xe0 0xef a
    then three_bytes a s
    else if within 0xf0 0xf4 a
    then four_bytes a s
    else broken

abbrev pub rune_of : Bytes → ℕ
rune_of s = (decode_rune s).0

abbrev pub size_of : Bytes → ℕ
size_of s = (decode_rune s).1

-- A size of at least one byte and at most `n`.
abbrev Sized : ℕ → ℕ × ℕ → Type 0
Sized n r = (1 ≤ r.1) × (r.1 ≤ n)

if-Sized : (n : ℕ) (c : Bool) (x y : ℕ × ℕ) → Sized n x → Sized n y → Sized n (if c then x else y)
if-Sized n true x y h k = h
if-Sized n false x y h k = k

broken-Sized : (n : ℕ) → Sized (suc n) broken
broken-Sized n = (omega arith, omega arith)

two_bytes-Sized : (a : ℕ) (s : Bytes) → Sized (suc (length s)) (two_bytes a s)
two_bytes-Sized a [] = broken-Sized _
two_bytes-Sized a (b ∷ s) =
    if-Sized _ (within 0x80 0xbf b) _ _ (omega arith, omega arith) (broken-Sized _)

three_bytes-Sized : (a : ℕ) (s : Bytes) → Sized (suc (length s)) (three_bytes a s)
three_bytes-Sized a [] = broken-Sized _
three_bytes-Sized a (b ∷ []) = broken-Sized _
three_bytes-Sized a (b ∷ c ∷ s) =
    if-Sized _ (within (low_of a) (high_of a) b && within 0x80 0xbf c) _ _
      (omega arith, omega arith) (broken-Sized _)

four_bytes-Sized : (a : ℕ) (s : Bytes) → Sized (suc (length s)) (four_bytes a s)
four_bytes-Sized a [] = broken-Sized _
four_bytes-Sized a (b ∷ []) = broken-Sized _
four_bytes-Sized a (b ∷ c ∷ []) = broken-Sized _
four_bytes-Sized a (b ∷ c ∷ d ∷ s) =
    if-Sized _ (within (low_of a) (high_of a) b && (within 0x80 0xbf c && within 0x80 0xbf d)) _ _
      (omega arith, omega arith) (broken-Sized _)

-- Of a text that is not empty a byte is taken at least, and no more than there are.
pub decode_rune-size :
    (a : ℕ) (s : Bytes) → (1 ≤ size_of (a ∷ s)) × (size_of (a ∷ s) ≤ length (a ∷ s))
unfolding decode_rune
decode_rune-size a s =
    if-Sized _ (ltb a 0x80) _ _ (omega arith, omega arith)
      (if-Sized _ (within 0xc2 0xdf a) _ _ (two_bytes-Sized a s) (
        if-Sized _ (within 0xe0 0xef a) _ _ (three_bytes-Sized a s)
          (if-Sized _ (within 0xf0 0xf4 a) _ _ (four_bytes-Sized a s) (broken-Sized _))))

-- A code point that a character can have.
abbrev pub IsScalar : ℕ → Type 0
IsScalar r = (r < 0xd800) ⊎ ((0xe000 ≤ r) × (r < 0x110000))

if-IsScalar :
    (b : Bool) (x y : ℕ × ℕ)
    → (b ≡ true → IsScalar x.0)
    → (b ≡ false → IsScalar y.0)
    → IsScalar (if b then x else y).0
if-IsScalar true x y h k = h refl
if-IsScalar false x y h k = k refl

broken-IsScalar : IsScalar broken.0
broken-IsScalar = inr (omega arith, omega arith)

two_bytes-IsScalar : (a : ℕ) (s : Bytes) → within 0xc2 0xdf a ≡ true → IsScalar (two_bytes a s).0
two_bytes-IsScalar a [] h = broken-IsScalar
two_bytes-IsScalar a (b ∷ s) h =
    if-IsScalar (within 0x80 0xbf b) _ _ (λ e. inl (ground arith)) (λ _. broken-IsScalar)

-- Behind 0xed the second byte keeps below the surrogates.
three-IsScalar :
    (a b c : ℕ)
    → within 0xe0 0xef a ≡ true
    → (within (low_of a) (high_of a) b && within 0x80 0xbf c) ≡ true
    → IsScalar ((a - 0xe0) * 4096 + (b - 0x80) * 64 + (c - 0x80))
three-IsScalar a b c h e = elim (Bool-cases (leb a 0xed)) [
  | inl le ↦ inl (ground arith)
  | inr gt ↦ inr (ground arith, ground arith)
]

three_bytes-IsScalar :
    (a : ℕ) (s : Bytes) → within 0xe0 0xef a ≡ true → IsScalar (three_bytes a s).0
three_bytes-IsScalar a [] h = broken-IsScalar
three_bytes-IsScalar a (b ∷ []) h = broken-IsScalar
three_bytes-IsScalar a (b ∷ c ∷ s) h =
    if-IsScalar (within (low_of a) (high_of a) b && within 0x80 0xbf c) _ _
      (λ e. three-IsScalar a b c h e) (λ _. broken-IsScalar)

four_bytes-IsScalar : (a : ℕ) (s : Bytes) → within 0xf0 0xf4 a ≡ true → IsScalar (four_bytes a s).0
four_bytes-IsScalar a [] h = broken-IsScalar
four_bytes-IsScalar a (b ∷ []) h = broken-IsScalar
four_bytes-IsScalar a (b ∷ c ∷ []) h = broken-IsScalar
four_bytes-IsScalar a (b ∷ c ∷ d ∷ s) h =
    if-IsScalar (within (low_of a) (high_of a) b && (within 0x80 0xbf c && within 0x80 0xbf d)) _ _
      (λ e. inr (ground arith, ground arith)) (λ _. broken-IsScalar)

-- Whatever the bytes are, a code point comes out that a character can have.
pub rune_of-IsScalar : (s : Bytes) → IsScalar (rune_of s)
unfolding decode_rune
rune_of-IsScalar [] = broken-IsScalar
rune_of-IsScalar (a ∷ s) =
    if-IsScalar (ltb a 0x80) _ _ (λ e. inl (ground arith))
      (λ _. if-IsScalar (within 0xc2 0xdf a) _ _ (two_bytes-IsScalar a s) (λ _.
        if-IsScalar (within 0xe0 0xef a) _ _ (three_bytes-IsScalar a s) (λ _.
          if-IsScalar (within 0xf0 0xf4 a) _ _ (four_bytes-IsScalar a s) (λ _. broken-IsScalar))))
