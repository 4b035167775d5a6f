-- ===== src/PyJson/Strings.antt =====
-- internal/pyjson/dumps.go: `writeString` and `writeASCIIString`. A function that writes to the
-- builder gives the bytes that it adds.
use kiro_gateway_go.Common.{
  ℕ, zero, suc, ◌+◌, ◌-◌, ◌/◌, ◌%◌, [], ◌∷◌, ◌++◌, ◌&&◌, length, drop, ltb, leb, ◌==◌,
  if◌then◌else◌,
}
use kiro_gateway_go.Common.Bytes.{Bytes}
use kiro_gateway_go.Common.Runes.{rune_of, size_of}

unfoldable pub hex_digit : ℕ → ℕ
hex_digit d = if ltb d 10 then b'0' + d else b'a' + (d - 10)

-- `\u%04x` of a number of 16 bits.
unfoldable pub unicode_escape : ℕ → Bytes
unicode_escape n =
    b'\\'
    ∷ b'u'
    ∷ hex_digit (n / 4096)
    ∷ hex_digit (n / 256 % 16)
    ∷ hex_digit (n / 16 % 16)
    ∷ hex_digit (n % 16)
    ∷ []

-- A backslash and a letter, for the characters that have a short form; `other` for all else.
unfoldable pub short_form : ℕ → (other : Bytes) → Bytes
short_form c other =
    if c == b'"'
    then b'\\' ∷ b'"' ∷ []
    else if c == b'\\'
    then b'\\' ∷ b'\\' ∷ []
    else if c == 8
    then b'\\' ∷ b'b' ∷ []
    else if c == 12
    then b'\\' ∷ b'f' ∷ []
    else if c == 10
    then b'\\' ∷ b'n' ∷ []
    else if c == 13
    then b'\\' ∷ b'r' ∷ []
    else if c == 9
    then b'\\' ∷ b't' ∷ []
    else other

unfoldable pub escape_byte : ℕ → Bytes
escape_byte c = short_form c (if ltb c 0x20 then unicode_escape c else c ∷ [])

unfoldable pub escape_bytes : Bytes → Bytes
escape_bytes [] = []
escape_bytes (c ∷ s) = escape_byte c ++ escape_bytes s

unfoldable pub write_string : Bytes → Bytes
write_string s = b'"' ∷ (escape_bytes s ++ b'"' ∷ [])

-- The pair of surrogates of a character above 0xffff.
abbrev pub high_half : ℕ → ℕ
high_half r = 0xd800 + (r - 0x10000) / 1024

abbrev pub low_half : ℕ → ℕ
low_half r = 0xdc00 + (r - 0x10000) % 1024

unfoldable pub escape_rune : ℕ → Bytes
escape_rune r = short_form r (
    if leb 0x20 r && leb r 0x7e
    then r ∷ []
    else if leb r 0xffff
    then unicode_escape r
    else unicode_escape (high_half r) ++ unicode_escape (low_half r))

-- `for _, r := range s`, for as many characters as `fuel` says.
unfoldable pub escape_runes : (fuel : ℕ) → Bytes → Bytes
escape_runes zero s = []
escape_runes (suc fuel) [] = []
escape_runes (suc fuel) (c ∷ s) =
    escape_rune (rune_of (c ∷ s)) ++ escape_runes fuel (drop (size_of (c ∷ s)) (c ∷ s))

-- A character has a byte at least.
unfoldable pub write_ascii_string : Bytes → Bytes
write_ascii_string s = b'"' ∷ (escape_runes (length s) s ++ b'"' ∷ [])
