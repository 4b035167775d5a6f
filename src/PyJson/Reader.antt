-- ===== src/PyJson/Reader.antt =====
-- A reader of JSON strings, by RFC 8259 and apart from the code: it gives the code units of the
-- string, an escape of four digits as one unit, and the text behind the closing quote.
use kiro_gateway_go.Common.{
  ℕ, zero, suc, ◌+◌, ◌-◌, ◌*◌, ◌&&◌, Option, none, some, List, [], ◌∷◌, ltb, leb, ◌==◌,
  if◌then◌else◌,
}
use kiro_gateway_go.Common.Bytes.{Bytes}

pub data Reading : Type 0 where
  plain : Reading
  escaped : Reading
  digits : (left value : ℕ) → Reading

pub data Action : Type 0 where
  closes : Action
  refuses : Action
  moves : Reading → Action
  gives : ℕ → Action

-- A quote closes, a backslash begins an escape, and a control character may not stand.
unfoldable pub read_plain : ℕ → Action
read_plain c =
    if c == b'"'
    then closes
    else if c == b'\\'
    then moves escaped
    else if ltb c 0x20
    then refuses
    else gives c

unfoldable pub read_escaped : ℕ → Action
read_escaped c =
    if c == b'"'
    then gives b'"'
    else if c == b'\\'
    then gives b'\\'
    else if c == b'/'
    then gives b'/'
    else if c == b'b'
    then gives 8
    else if c == b'f'
    then gives 12
    else if c == b'n'
    then gives 10
    else if c == b'r'
    then gives 13
    else if c == b't'
    then gives 9
    else if c == b'u'
    then moves (digits 3 0)
    else refuses

unfoldable pub digit_value : ℕ → Option ℕ
digit_value c =
    if leb b'0' c && leb c b'9'
    then some (c - b'0')
    else if leb b'a' c && leb c b'f'
    then some (10 + (c - b'a'))
    else if leb b'A' c && leb c b'F'
    then some (10 + (c - b'A'))
    else none

-- With `left` digits to come behind this one.
unfoldable pub read_digit : (left value : ℕ) → Option ℕ → Action
read_digit left value none = refuses
read_digit zero value (some d) = gives (value * 16 + d)
read_digit (suc left) value (some d) = moves (digits left (value * 16 + d))

unfoldable pub action : Reading → ℕ → Action
action plain c = read_plain c
action escaped c = read_escaped c
action (digits left value) c = read_digit left value (digit_value c)

abbrev pub ReadResult : Type 0
ReadResult = Option (List ℕ × Bytes)

abbrev pub with_unit : ℕ → ReadResult → ReadResult
with_unit c none = none
with_unit c (some (units, rest)) = some (c ∷ units, rest)

abbrev pub acted : Action → Bytes → (Reading → ReadResult) → ReadResult
acted closes s further = some ([], s)
acted refuses s further = none
acted (moves st) s further = further st
acted (gives c) s further = with_unit c (further plain)

unfoldable pub read_from : Reading → Bytes → ReadResult
read_from st [] = none
read_from st (c ∷ s) = acted (action st c) s (λ next. read_from next s)

-- A whole string, from its opening quote.
unfoldable pub read_string : Bytes → ReadResult
read_string [] = none
read_string (c ∷ s) = if c == b'"' then read_from plain s else none
