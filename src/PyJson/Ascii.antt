-- ===== src/PyJson/Ascii.antt =====
-- What the strings of `writeASCIIString` are read back as, and of which bytes they are made.
use kiro_gateway_go.Common.{
  ℕ, zero, suc, ◌+◌, ◌-◌, ◌*◌, ◌<◌, ◌≡◌, refl, sym, ap, ◌∙◌, Bool, true, false, ◌&&◌, inl, inr,
  some, List, [], ◌∷◌, ◌++◌, append_assoc, length, drop, ltb, leb, if◌then◌else◌, Bool-cases,
  leb→le, arith,
}
use kiro_gateway_go.Common.Bytes.{Bytes}
use kiro_gateway_go.Common.Runes.{rune_of, size_of, IsScalar, rune_of-IsScalar}
use kiro_gateway_go.PyJson.Strings.{
  unicode_escape, short_form, high_half, low_half, escape_rune, escape_runes, write_ascii_string,
}
use kiro_gateway_go.PyJson.Reader.{plain, ReadResult, with_unit, read_from, read_string}
use kiro_gateway_go.PyJson.Unescaped.{
  read-unicode_escape, Reads, if-Reads, short_form-Reads, itself, with_units, closed,
}

-- The characters of a text, as `range` goes through them.
unfoldable pub runes_from : (fuel : ℕ) → Bytes → List ℕ
runes_from zero s = []
runes_from (suc fuel) [] = []
runes_from (suc fuel) (c ∷ s) = rune_of (c ∷ s) ∷ runes_from fuel (drop (size_of (c ∷ s)) (c ∷ s))

abbrev pub runes : Bytes → List ℕ
runes s = runes_from (length s) s

abbrev is_high : ℕ → Bool
is_high u = leb 0xd800 u && ltb u 0xdc00

abbrev is_low : ℕ → Bool
is_low u = leb 0xdc00 u && ltb u 0xe000

-- UTF-16: two surrogates are one character.
unfoldable pub decode16 : List ℕ → List ℕ
decode16 [] = []
decode16 (u ∷ []) = u ∷ []
decode16 (u ∷ v ∷ us) =
    let pair = (0x10000 + (u - 0xd800) * 1024 + (v - 0xdc00)) ∷ decode16 us in
    let single = u ∷ decode16 (v ∷ us) in if is_high u && is_low v then pair else single

abbrev units_of : ℕ → List ℕ
units_of r = if leb r 0xffff then r ∷ [] else high_half r ∷ low_half r ∷ []

abbrev all_units : List ℕ → List ℕ
all_units [] = []
all_units (r ∷ rs) = units_of r ++ all_units rs

abbrev AllScalar : List ℕ → Type 0
AllScalar [] = Unit
AllScalar (r ∷ rs) = IsScalar r × AllScalar rs

runes_from-AllScalar : (fuel : ℕ) (s : Bytes) → AllScalar (runes_from fuel s)
unfolding runes_from
runes_from-AllScalar zero s = tt
runes_from-AllScalar (suc fuel) [] = tt
runes_from-AllScalar (suc fuel) (c ∷ s) = (rune_of-IsScalar (c ∷ s), runes_from-AllScalar fuel _)

decode16-single : (u : ℕ) (us : List ℕ) → is_high u ≡ false → decode16 (u ∷ us) ≡ u ∷ decode16 us
unfolding decode16
decode16-single u [] h = refl
decode16-single u (v ∷ us) h = rw h refl

decode16-pair :
    (u v : ℕ) (us : List ℕ)
    → is_high u && is_low v ≡ true
    → decode16 (u ∷ v ∷ us) ≡ (0x10000 + (u - 0xd800) * 1024 + (v - 0xdc00)) ∷ decode16 us
unfolding decode16
decode16-pair u v us h = rw h refl

decode16-units_of :
    (r : ℕ) (us : List ℕ) → IsScalar r → decode16 (units_of r ++ us) ≡ r ∷ decode16 us
decode16-units_of r us h = elim (Bool-cases (leb r 0xffff)) [
  | inl e ↦ rw e (decode16-single r us (ground arith))
  | inr e ↦ rw e (
      decode16-pair (high_half r) (low_half r) us (ground arith)
      ∙ ap (λ k. k ∷ decode16 us) (ground arith))
]

decode16-nil : decode16 [] ≡ []
unfolding decode16
decode16-nil = refl

decode16-all_units : (rs : List ℕ) → AllScalar rs → decode16 (all_units rs) ≡ rs
decode16-all_units [] h = decode16-nil
decode16-all_units (r ∷ rs) h =
    decode16-units_of r (all_units rs) h.0 ∙ ap (◌∷◌ r) (decode16-all_units rs h.1)

-- A character beyond the first 65536 has no short form.
short_form-other : (r : ℕ) (other : Bytes) → 0xffff < r → short_form r other ≡ other
unfolding short_form
short_form-other r other h = ground arith

escape_rune-short :
    (r : ℕ)
    → leb r 0xffff ≡ true
    → Reads r (short_form r (if leb 0x20 r && leb r 0x7e then r ∷ [] else unicode_escape r))
escape_rune-short r e = short_form-Reads r _ (λ quote slash.
    if-Reads r (leb 0x20 r && leb r 0x7e) _ _ (λ p. itself r quote slash (ground arith))
      (λ _. λ rest. read-unicode_escape r rest (omega (arith, leb→le r 0xffff e))))

escape_rune-long :
    (r : ℕ)
    → leb r 0xffff ≡ false
    → escape_rune r ≡ unicode_escape (high_half r) ++ unicode_escape (low_half r)
unfolding escape_rune
escape_rune-long r e =
    let no_ascii : (leb 0x20 r && leb r 0x7e) ≡ false = ground arith in
    rw (no_ascii, e) (short_form-other r _ (ground arith))

escape_rune-read :
    (r : ℕ) (rest : Bytes)
    → IsScalar r
    → read_from plain (escape_rune r ++ rest) ≡ with_units (units_of r) (read_from plain rest)
escape_rune-read r rest h = elim (Bool-cases (leb r 0xffff)) [
  | inl e ↦ unfold escape_rune in rw e (escape_rune-short r e rest)
  | inr e ↦ rw e (
      ap (λ t. read_from plain (t ++ rest)) (escape_rune-long r e)
      ∙ ap (read_from plain)
          (append_assoc (unicode_escape (high_half r)) (unicode_escape (low_half r)) rest)
      ∙ read-unicode_escape (high_half r) (unicode_escape (low_half r) ++ rest) (ground arith)
      ∙ ap (with_unit (high_half r)) (read-unicode_escape (low_half r) rest (ground arith)))
]

with_units-append :
    (us vs : List ℕ) (r : ReadResult) → with_units (us ++ vs) r ≡ with_units us (with_units vs r)
with_units-append [] vs r = refl
with_units-append (u ∷ us) vs r = ap (with_unit u) (with_units-append us vs r)

with_units-end : (us : List ℕ) (rest : Bytes) → with_units us (some ([], rest)) ≡ some (us, rest)
with_units-end [] rest = refl
with_units-end (u ∷ us) rest = ap (with_unit u) (with_units-end us rest)

escape_runes-read :
    (fuel : ℕ) (s rest : Bytes)
    → read_from plain (escape_runes fuel s ++ b'"' ∷ rest)
      ≡ with_units (all_units (runes_from fuel s)) (some ([], rest))
unfolding escape_runes runes_from
escape_runes-read zero s rest = closed rest
escape_runes-read (suc fuel) [] rest = closed rest
escape_runes-read (suc fuel) (c ∷ s) rest =
    let r : ℕ = rune_of (c ∷ s) in
    let more : Bytes = drop (size_of (c ∷ s)) (c ∷ s) in
    ap (read_from plain) (append_assoc (escape_rune r) (escape_runes fuel more) (b'"' ∷ rest))
    ∙ escape_rune-read r (escape_runes fuel more ++ b'"' ∷ rest) (rune_of-IsScalar (c ∷ s))
    ∙ ap (with_units (units_of r)) (escape_runes-read fuel more rest)
    ∙ sym (with_units-append (units_of r) (all_units (runes_from fuel more)) (some ([], rest)))

-- Every text that `writeASCIIString` prints, be it valid UTF-8 or not, is read back, whatever stands
-- behind it, as code units of UTF-16 that are the characters through which `range` goes.
pub read_string-write_ascii_string :
    (s rest : Bytes)
    → (units : List ℕ) × (read_string (write_ascii_string s ++ rest) ≡ some (units, rest))
      × (decode16 units ≡ runes s)
unfolding read_string write_ascii_string
read_string-write_ascii_string s rest = (
  all_units (runes s),
  ap (read_from plain) (append_assoc (escape_runes (length s) s) (b'"' ∷ []) rest)
      ∙ escape_runes-read (length s) s rest
      ∙ with_units-end (all_units (runes s)) rest,
  decode16-all_units (runes s) (runes_from-AllScalar (length s) s),
)
