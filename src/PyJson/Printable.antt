-- ===== src/PyJson/Printable.antt =====
-- Of which bytes the strings of `writeASCIIString` are made.
use kiro_gateway_go.Common.{
  ℕ, zero, suc, ◌/◌, ◌%◌, ◌≤◌, ◌<◌, ◌≡◌, refl, Bool, true, false, ◌&&◌, [], ◌∷◌, ◌++◌, length, leb,
  ◌==◌, if◌then◌else◌, arith,
}
use kiro_gateway_go.Common.Bytes.{Bytes}
use kiro_gateway_go.Common.Runes.{rune_of, IsScalar, rune_of-IsScalar}
use kiro_gateway_go.PyJson.Strings.{
  hex_digit, unicode_escape, short_form, high_half, low_half, escape_rune, escape_runes,
  write_ascii_string,
}

abbrev pub AllPrintable : Bytes → Type 0
AllPrintable [] = Unit
AllPrintable (b ∷ s) = (0x20 ≤ b) × (b ≤ 0x7e) × AllPrintable s

append-AllPrintable : (s t : Bytes) → AllPrintable s → AllPrintable t → AllPrintable (s ++ t)
append-AllPrintable [] t h k = k
append-AllPrintable (b ∷ s) t h k = (h.0, h.1, append-AllPrintable s t h.2 k)

if-AllPrintable :
    (b : Bool) (s t : Bytes)
    → (b ≡ true → AllPrintable s)
    → (b ≡ false → AllPrintable t)
    → AllPrintable (if b then s else t)
if-AllPrintable true s t h k = h refl
if-AllPrintable false s t h k = k refl

hex_digit-bounds : (d : ℕ) → d < 16 → (0x20 ≤ hex_digit d) × (hex_digit d ≤ 0x7e)
unfolding hex_digit
hex_digit-bounds d h = ground arith

unicode_escape-AllPrintable : (n : ℕ) → n < 65536 → AllPrintable (unicode_escape n)
unfolding unicode_escape
unicode_escape-AllPrintable n h =
    let (a, a') = hex_digit-bounds (n / 4096) (omega arith) in
    let (b, b') = hex_digit-bounds (n / 256 % 16) (omega arith) in
    let (c, c') = hex_digit-bounds (n / 16 % 16) (omega arith) in
    let (d, d') = hex_digit-bounds (n % 16) (omega arith) in
    (omega arith, omega arith, (omega arith, omega arith, (a, a', (b, b', (c, c', (d, d', tt))))))

short_form-AllPrintable :
    (r : ℕ) (other : Bytes) → AllPrintable other → AllPrintable (short_form r other)
unfolding short_form
short_form-AllPrintable r other h = two (r == b'"') _ _ (omega arith) (
    two (r == b'\\') _ _ (omega arith) (
      two (r == 8) _ _ (omega arith) (
        two (r == 12) _ _ (omega arith) (
          two (r == 10) _ _ (omega arith)
            (two (r == 13) _ _ (omega arith) (two (r == 9) _ _ (omega arith) h))))))
  where
    two :
        (b : Bool) (s t : Bytes)
        → AllPrintable s
        → AllPrintable t
        → AllPrintable (if b then s else t)
    two b s t h k = if-AllPrintable b s t (λ _. h) (λ _. k)

escape_rune-AllPrintable : (r : ℕ) → IsScalar r → AllPrintable (escape_rune r)
unfolding escape_rune
escape_rune-AllPrintable r h = short_form-AllPrintable r _ (
    if-AllPrintable (leb 0x20 r && leb r 0x7e) _ _ (λ e. (ground arith, ground arith, tt))
      (λ _.
        if-AllPrintable (leb r 0xffff) _ _ (λ e. unicode_escape-AllPrintable r (ground arith))
          (λ e.
            append-AllPrintable (unicode_escape (high_half r)) (unicode_escape (low_half r))
              (unicode_escape-AllPrintable (high_half r) (ground arith))
              (unicode_escape-AllPrintable (low_half r) (ground arith)))))

escape_runes-AllPrintable : (fuel : ℕ) (s : Bytes) → AllPrintable (escape_runes fuel s)
unfolding escape_runes
escape_runes-AllPrintable zero s = tt
escape_runes-AllPrintable (suc fuel) [] = tt
escape_runes-AllPrintable (suc fuel) (c ∷ s) =
    append-AllPrintable (escape_rune (rune_of (c ∷ s))) _
      (escape_rune-AllPrintable (rune_of (c ∷ s)) (rune_of-IsScalar (c ∷ s)))
      (escape_runes-AllPrintable fuel _)

-- Whatever bytes `writeASCIIString` is given, it prints only bytes from 0x20 to 0x7e.
pub write_ascii_string-AllPrintable : (s : Bytes) → AllPrintable (write_ascii_string s)
unfolding write_ascii_string
write_ascii_string-AllPrintable s = (
  omega arith,
  omega arith,
  append-AllPrintable (escape_runes (length s) s) _ (escape_runes-AllPrintable (length s) s)
      (omega arith, omega arith, tt),
)
