-- ===== src/Tokenizer/Pretokens.antt =====
-- internal/tokenizer/pretoken.go: where the first piece of a text ends, and the pieces of a text. The
-- classes of the characters (the package `unicode`) are a parameter. A function of the source that
-- reads `text` from the offset `i` takes the rest of the text from there, and gives the end of the
-- piece as an offset from `i`. A loop over the characters takes a bound on their number.
pub mod Advance
pub mod Lossless
use kiro_gateway_go.Common.{
  ℕ, zero, suc, ◌+◌, ◌≡◌, Bool, true, false, not, ◌&&◌, ◌||◌, Option, none, some, List, [], ◌∷◌,
  length, take, drop, ltb, leb, ◌==◌, if◌then◌else◌,
}
use kiro_gateway_go.Common.Bytes.{Bytes}
use kiro_gateway_go.Common.Runes.{rune_of, size_of}

pub record Unicode : Type 0 where
  pub is_letter : ℕ → Bool
  pub is_number : ℕ → Bool
  pub is_space : ℕ → Bool

unfoldable pub is_apostrophe_sdmt : ℕ → Bool
is_apostrophe_sdmt r =
    (r == b's'
      || (r == b'S'
          || (r == b'd' || (r == b'D' || (r == b'm' || (r == b'M' || (r == b't' || r == b'T')))))))
    || r == 0x017f

abbrev ascii_lower : ℕ → ℕ
ascii_lower r = if leb b'A' r && leb r b'Z' then r + 32 else r

unfoldable pub is_apostrophe_digraph : ℕ → ℕ → Bool
is_apostrophe_digraph a b =
    let la = ascii_lower a in
    let lb = ascii_lower b in
    (la == b'l' && lb == b'l') || ((la == b'v' && lb == b'e') || (la == b'r' && lb == b'e'))

abbrev is_crlf : ℕ → Bool
is_crlf r = r == 13 || r == 10

-- The bytes of the characters at the beginning for which `p` holds.
unfoldable pub run : (ℕ → Bool) → (fuel : ℕ) → Bytes → ℕ
run p zero s = 0
run p (suc fuel) [] = 0
run p (suc fuel) (c ∷ s) =
    let rest = size_of (c ∷ s) + run p fuel (drop (size_of (c ∷ s)) (c ∷ s)) in
    if p (rune_of (c ∷ s)) then rest else 0

-- The end, if the piece is not empty.
abbrev past : (start end : ℕ) → Option ℕ
past start end = if start == end then none else some end

-- The second character behind the apostrophe.
abbrev second_letter : (r offset : ℕ) → Bytes → Option ℕ
second_letter r offset [] = none
second_letter r offset (c ∷ s) =
    if is_apostrophe_digraph r (rune_of (c ∷ s)) then some (offset + size_of (c ∷ s)) else none

abbrev first_letter : Bytes → Option ℕ
first_letter [] = none
first_letter (c ∷ s) =
    let r = rune_of (c ∷ s) in
    let size = size_of (c ∷ s) in
    if is_apostrophe_sdmt r then some (1 + size) else second_letter r (1 + size) (drop size (c ∷ s))

unfoldable pub alt_apostrophe : Bytes → Option ℕ
alt_apostrophe [] = none
alt_apostrophe (c ∷ s) = if c == b'\'' then first_letter s else none

-- The first alternative that fits, or no byte.
abbrev first_end : List (Option ℕ) → ℕ
first_end [] = 0
first_end (none ∷ alts) = first_end alts
first_end (some end ∷ alts) = end

-- `pieces = append(pieces, piece)`
abbrev with_piece : Bytes → Option (List Bytes) → Option (List Bytes)
with_piece piece none = none
with_piece piece (some pieces) = some (piece ∷ pieces)

-- Where no byte is taken, the source takes a character, or a byte where that has no size.
abbrev at_least_one : Bytes → ℕ → ℕ
at_least_one s zero = if size_of s == 0 then 1 else size_of s
at_least_one s (suc end) = suc end

-- The bytes that are CR or LF.
unfoldable pub line_ends : Bytes → ℕ
line_ends [] = 0
line_ends (c ∷ s) = if is_crlf c then suc (line_ends s) else 0

abbrev leading_space : Bytes → ℕ
leading_space [] = 0
leading_space (c ∷ s) = if c == b' ' then 1 else 0

module _ (u : Unicode) where
  open u use {is_letter, is_number, is_space}

  abbrev may_lead : ℕ → Bool
  may_lead r = not (is_crlf r) && (not (is_letter r) && not (is_number r))

  unfoldable pub alt_letters : Bytes → Option ℕ
  alt_letters [] = none
  alt_letters (c ∷ s) =
      let j = if may_lead (rune_of (c ∷ s)) then size_of (c ∷ s) else 0 in
      past j (j + run is_letter (length (c ∷ s)) (drop j (c ∷ s)))

  -- At most `count` digits.
  unfoldable pub digits : (count : ℕ) → Bytes → ℕ
  digits zero s = 0
  digits (suc count) [] = 0
  digits (suc count) (c ∷ s) =
      let rest = size_of (c ∷ s) + digits count (drop (size_of (c ∷ s)) (c ∷ s)) in
      if is_number (rune_of (c ∷ s)) then rest else 0

  unfoldable pub alt_digits : Bytes → Option ℕ
  alt_digits s = past 0 (digits 3 s)

  abbrev is_other : ℕ → Bool
  is_other r = not (is_space r || (is_letter r || is_number r))

  unfoldable pub alt_other : Bytes → Option ℕ
  alt_other s =
      let start = leading_space s in
      let j = start + run is_other (length s) (drop start s) in
      if start == j then none else some (j + line_ends (drop j s))

  unfoldable pub alt_ws_end : Bytes → Option ℕ
  alt_ws_end s = let j = run is_space (length s) s in if ltb j (length s) then none else past 0 j

  -- Behind `j` bytes, with the end of the last CR or LF so far.
  unfoldable pub last_crlf : (fuel j : ℕ) → Option ℕ → Bytes → Option ℕ
  last_crlf zero j found s = found
  last_crlf (suc fuel) j found [] = found
  last_crlf (suc fuel) j found (c ∷ s) =
      let end = j + size_of (c ∷ s) in
      let rest =
        last_crlf fuel end (if is_crlf (rune_of (c ∷ s)) then some end else found)
          (drop (size_of (c ∷ s)) (c ∷ s)) in
      if is_space (rune_of (c ∷ s)) then rest else found

  unfoldable pub alt_ws_crlf : Bytes → Option ℕ
  alt_ws_crlf s = last_crlf (length s) 0 none s

  -- The number of blanks that are no CR or LF, and the offset of the last one.
  unfoldable pub blanks : (fuel j count last_start : ℕ) → Bytes → ℕ × ℕ
  blanks zero j count last_start s = (count, last_start)
  blanks (suc fuel) j count last_start [] = (count, last_start)
  blanks (suc fuel) j count last_start (c ∷ s) =
      let r = rune_of (c ∷ s) in
      let size = size_of (c ∷ s) in
      let rest = blanks fuel (j + size) (count + 1) j (drop size (c ∷ s)) in
      if not (is_space r) || is_crlf r then (count, last_start) else rest

  unfoldable pub alt_ws_holdback : Bytes → Option ℕ
  alt_ws_holdback s =
      let (count, last_start) = blanks (length s) 0 0 0 s in
      if ltb count 2 then none else some last_start

  unfoldable pub alt_single_ws : Bytes → Option ℕ
  alt_single_ws [] = none
  alt_single_ws (c ∷ s) = if is_space (rune_of (c ∷ s)) then some (size_of (c ∷ s)) else none

  unfoldable pub next_pretoken_end : Bytes → ℕ
  next_pretoken_end s = first_end (
      alt_apostrophe s
      ∷ alt_letters s
      ∷ alt_digits s
      ∷ alt_other s
      ∷ alt_ws_end s
      ∷ alt_ws_crlf s
      ∷ alt_ws_holdback s
      ∷ alt_single_ws s
      ∷ [])

  -- `none`: the bound was too low.
  unfoldable pub split_loop : (fuel : ℕ) → Bytes → Option (List Bytes)
  split_loop fuel [] = some []
  split_loop zero (c ∷ s) = none
  split_loop (suc fuel) (c ∷ s) =
      let end = at_least_one (c ∷ s) (next_pretoken_end (c ∷ s)) in
      with_piece (take end (c ∷ s)) (split_loop fuel (drop end (c ∷ s)))

  unfoldable pub split_pretokens : Bytes → Option (List Bytes)
  split_pretokens s = split_loop (length s) s
