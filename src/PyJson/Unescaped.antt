-- ===== src/PyJson/Unescaped.antt =====
-- What the strings of `pyjson` are read back as.
use kiro_gateway_go.Common.{
  ℕ, suc, ◌+◌, ◌*◌, ◌/◌, ◌%◌, ◌<◌, ◌≡◌, refl, sym, ap, ◌∙◌, Bool, true, false, some, List, [], ◌∷◌,
  ◌++◌, append_assoc, ltb, ◌==◌, if◌then◌else◌, ==_iff, ltb→lt, arith,
}
use kiro_gateway_go.Common.Bytes.{Bytes}
use kiro_gateway_go.PyJson.Strings.{
  hex_digit, unicode_escape, short_form, escape_byte, escape_bytes, write_string,
}
use kiro_gateway_go.PyJson.Reader.{
  plain, digits, gives, read_plain, read_escaped, digit_value, read_digit, action, ReadResult,
  with_unit, acted, read_from, read_string,
}

digit_value-hex_digit : (d : ℕ) → d < 16 → digit_value (hex_digit d) ≡ some d
unfolding digit_value hex_digit
digit_value-hex_digit d h = ground arith

read-digit :
    (left value d : ℕ) (s : Bytes)
    → d < 16
    → read_from (digits (suc left) value) (hex_digit d ∷ s)
      ≡ read_from (digits left (value * 16 + d)) s
unfolding read_from action read_digit
read-digit left value d s h =
    ap (λ o. acted (read_digit (suc left) value o) s (λ next. read_from next s))
      (digit_value-hex_digit d h)

read-last_digit :
    (value d : ℕ) (s : Bytes)
    → d < 16
    → read_from (digits 0 value) (hex_digit d ∷ s) ≡ with_unit (value * 16 + d) (read_from plain s)
unfolding read_from action read_digit
read-last_digit value d s h =
    ap (λ o. acted (read_digit 0 value o) s (λ next. read_from next s)) (digit_value-hex_digit d h)

-- Four digits stand for their number.
pub read-unicode_escape :
    (n : ℕ) (s : Bytes)
    → n < 65536
    → read_from plain (unicode_escape n ++ s) ≡ with_unit n (read_from plain s)
unfolding unicode_escape read_from action read_plain read_escaped
read-unicode_escape n s h =
    read-digit 2 0 (n / 4096) _ (omega arith)
    ∙ read-digit 1 _ (n / 256 % 16) _ (omega arith)
    ∙ read-digit 0 _ (n / 16 % 16) _ (omega arith)
    ∙ read-last_digit _ (n % 16) s (omega arith)
    ∙ ap (λ k. with_unit k (read_from plain s)) (omega arith)

-- What `s` begins with is read as the unit `c`.
abbrev pub Reads : ℕ → Bytes → Type 0
Reads c s = (rest : Bytes) → read_from plain (s ++ rest) ≡ with_unit c (read_from plain rest)

pub if-Reads :
    (c : ℕ) (b : Bool) (x y : Bytes)
    → (b ≡ true → Reads c x)
    → (b ≡ false → Reads c y)
    → Reads c (if b then x else y)
if-Reads c true x y h k = h refl
if-Reads c false x y h k = k refl

-- A short form is read as its character.
short : (c letter : ℕ) → read_escaped letter ≡ gives c → Reads c (b'\\' ∷ letter ∷ [])
unfolding read_from action read_plain
short c letter e rest = ap (λ a. acted a rest (λ next. read_from next rest)) e

pub short_form-Reads :
    (c : ℕ) (other : Bytes)
    → ((c == b'"') ≡ false → (c == b'\\') ≡ false → Reads c other)
    → Reads c (short_form c other)
unfolding short_form read_escaped
short_form-Reads c other h =
    if-Reads c (c == b'"') _ _ (λ e. of b'"' b'"' e refl)
      (λ quote.
        if-Reads c (c == b'\\') _ _ (λ e. of b'\\' b'\\' e refl)
          (λ slash.
            if-Reads c (c == 8) _ _ (λ e. of 8 b'b' e refl)
              (λ _.
                if-Reads c (c == 12) _ _ (λ e. of 12 b'f' e refl)
                  (λ _.
                    if-Reads c (c == 10) _ _ (λ e. of 10 b'n' e refl)
                      (λ _.
                        if-Reads c (c == 13) _ _ (λ e. of 13 b'r' e refl)
                          (λ _.
                            if-Reads c (c == 9) _ _ (λ e. of 9 b't' e refl)
                              (λ _. h quote slash)))))))
  where
    of :
        (k letter : ℕ)
        → (c == k) ≡ true
        → read_escaped letter ≡ gives k
        → Reads c (b'\\' ∷ letter ∷ [])
    of k letter e r = short c letter (r ∙ ap gives (sym ((==_iff c k).0 e)))

-- A character that needs no escape.
pub itself :
    (c : ℕ) → (c == b'"') ≡ false → (c == b'\\') ≡ false → ltb c 0x20 ≡ false → Reads c (c ∷ [])
unfolding read_from action read_plain
itself c quote slash control rest = rw (quote, slash, control) refl

escape_byte-Reads : (c : ℕ) → Reads c (escape_byte c)
unfolding escape_byte
escape_byte-Reads c = short_form-Reads c _ (λ quote slash.
    if-Reads c (ltb c 0x20) _ _
      (λ e. λ rest. read-unicode_escape c rest (omega (arith, ltb→lt c 0x20 e)))
      (λ e. itself c quote slash e))

-- In front of the units that are read behind.
abbrev pub with_units : List ℕ → ReadResult → ReadResult
with_units [] r = r
with_units (u ∷ us) r = with_unit u (with_units us r)

with_units-some :
    (us vs : List ℕ) (rest : Bytes) → with_units us (some (vs, rest)) ≡ some (us ++ vs, rest)
with_units-some [] vs rest = refl
with_units-some (u ∷ us) vs rest = ap (with_unit u) (with_units-some us vs rest)

pub closed : (rest : Bytes) → read_from plain (b'"' ∷ rest) ≡ some ([], rest)
unfolding read_from action read_plain
closed rest = refl

escape_bytes-read :
    (s rest : Bytes) → read_from plain (escape_bytes s ++ b'"' ∷ rest) ≡ some (s, rest)
unfolding escape_bytes
escape_bytes-read [] rest = closed rest
escape_bytes-read (c ∷ s) rest =
    ap (read_from plain) (append_assoc (escape_byte c) (escape_bytes s) (b'"' ∷ rest))
    ∙ escape_byte-Reads c (escape_bytes s ++ b'"' ∷ rest)
    ∙ ap (with_unit c) (escape_bytes-read s rest)

-- Every string of bytes that `writeString` prints is read back as it was, whatever stands behind it.
pub read_string-write_string :
    (s rest : Bytes) → read_string (write_string s ++ rest) ≡ some (s, rest)
unfolding read_string write_string
read_string-write_string s rest =
    ap (read_from plain) (append_assoc (escape_bytes s) (b'"' ∷ []) rest) ∙ escape_bytes-read s rest
