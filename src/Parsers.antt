-- ===== src/Parsers.antt =====
-- internal/parsers: the scanner that finds the end of a JSON object in the event stream
-- (brace_scanner.go). Text is a list of bytes; an index of -1 is `none`, and `start` is never
-- negative.
pub mod Grammar
pub mod Scanner
pub mod Balanced
pub mod Truncation
pub mod Diagnosis
pub mod ToolCalls
pub mod Events
pub mod Framing
pub mod Chunks
pub mod Dedup
pub mod Each
pub mod Distinct
use kiro_gateway_go.Common.{
  ℕ, zero, suc, ◌+◌, ◌-◌, ◌%◌, Bool, true, false, not, ◌&&◌, ◌||◌, Option, none, some, List, [],
  ◌∷◌, ◌++◌, ltb, leb, ◌==◌, if◌then◌else◌, length, drop,
}
use kiro_gateway_go.Common.Bytes.{Bytes, is_empty, has_prefix}

-- The three variables of the loop of `findMatchingBrace`.
pub record Scan : Type 0 where
  pub brace_count : ℕ
  pub in_string : Bool
  pub escape_next : Bool

pub data Next : Type 0 where
  matched : Next
  go_on : Scan → Next

-- One byte. The count is above 0 at every byte but the first, which is `{`; so it never gets below
-- 0, and the truncated `- 1` is exact.
unfoldable pub scan_byte : Scan → ℕ → Next
scan_byte s c =
    if s.escape_next
    then go_on (record s { escape_next = false })
    else if c == b'\\' && s.in_string
    then go_on (record s { escape_next = true })
    else if c == b'"'
    then go_on (record s { in_string = not s.in_string })
    else if not s.in_string
    then (if c == b'{'
        then go_on (record s { brace_count = s.brace_count + 1 })
        else if c == b'}'
        then (if s.brace_count - 1 == 0
            then matched
            else go_on (record s { brace_count = s.brace_count - 1 }))
        else go_on s)
    else go_on s

-- The loop over the bytes that are left, from index `i`.
unfoldable pub scan : Bytes → ℕ → Scan → Option ℕ
scan [] i s = none
scan (c ∷ cs) i s = elim (scan_byte s c) [ matched ↦ some i | go_on s' ↦ scan cs (i + 1) s' ]

abbrev pub scan_start : Scan
scan_start = record { brace_count = 0; in_string = false; escape_next = false }

-- The guard reads `buf[start]`, which is the first byte of what is left from `start`.
find_from : Bytes → ℕ → Option ℕ
find_from [] start = none
find_from (c ∷ cs) start = if not (c == b'{') then none else scan (c ∷ cs) start scan_start

unfoldable pub find_matching_brace : Bytes → ℕ → Option ℕ
unfolding find_from scan scan_byte
find_matching_brace buf start = find_from (drop start buf) start
