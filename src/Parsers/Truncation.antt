-- ===== src/Parsers/Truncation.antt =====
-- internal/parsers/truncation.go: is malformed JSON cut off or merely wrong? `stripped` is the text
-- behind `strings.TrimSpace`. A reason is kept with its numbers, which the code prints.
use kiro_gateway_go.Common.{
  ℕ, suc, ◌-◌, ◌%◌, Bool, true, false, not, ◌&&◌, [], ◌∷◌, ltb, ◌==◌, if◌then◌else◌, length,
}
use kiro_gateway_go.Common.Bytes.{Bytes, is_empty}
use kiro_gateway_go.Common.Int.{ℤ, pos, negsuc}

pub data Reason : Type 0 where
  empty_string : Reason
  missing_closing_braces : ℤ → Reason
  missing_closing_brackets : ℤ → Reason
  unbalanced_braces : ℕ → ℕ → Reason
  unbalanced_brackets : ℕ → ℕ → Reason
  unclosed_string_literal : Reason
  malformed_json : Reason

pub record TruncationInfo : Type 0 where
  pub is_truncated : Bool
  pub reason : Reason
  pub size_bytes : ℕ

-- `strings.Count` of one byte.
unfoldable pub count : ℕ → Bytes → ℕ
count c [] = 0
count c (x ∷ s) = if x == c then suc (count c s) else count c s

-- `HasPrefix` and `HasSuffix` of one byte.
unfoldable pub begins_with : ℕ → Bytes → Bool
begins_with c [] = false
begins_with c (x ∷ s) = x == c

unfoldable pub ends_with : ℕ → Bytes → Bool
ends_with c [] = false
ends_with c (x ∷ []) = x == c
ends_with c (_ ∷ y ∷ s) = ends_with c (y ∷ s)

-- The loop that counts the quotes which are not escaped.
unfoldable pub quote_count : Bytes → ℕ
quote_count [] = 0
quote_count (c ∷ []) = if c == b'"' then 1 else 0
quote_count (c ∷ d ∷ s) =
    let skipped = quote_count s in
    let rest = quote_count (d ∷ s) in
    if c == b'\\' then skipped else if c == b'"' then suc rest else rest

-- `a - b` of two counts, as an int.
abbrev minus : ℕ → ℕ → ℤ
minus a b = if ltb a b then negsuc (b - a - 1) else pos (a - b)

unfoldable pub diagnose_json_truncation : (Bytes → Bytes) → Bytes → TruncationInfo
diagnose_json_truncation trim_space json_str =
    let size = length json_str in
    let stripped = trim_space json_str in
    let verdict : Bool → Reason → TruncationInfo =
      λ b r. record { is_truncated = b; reason = r; size_bytes = size } in
    let open_braces = count b'{' stripped in
    let close_braces = count b'}' stripped in
    let open_brackets = count b'[' stripped in
    let close_brackets = count b']' stripped in
    if is_empty stripped
    then verdict false empty_string
    else if begins_with b'{' stripped && not (ends_with b'}' stripped)
    then verdict true (missing_closing_braces (minus open_braces close_braces))
    else if begins_with b'[' stripped && not (ends_with b']' stripped)
    then verdict true (missing_closing_brackets (minus open_brackets close_brackets))
    else if not (open_braces == close_braces)
    then verdict true (unbalanced_braces open_braces close_braces)
    else if not (open_brackets == close_brackets)
    then verdict true (unbalanced_brackets open_brackets close_brackets)
    else if not (quote_count stripped % 2 == 0)
    then verdict true unclosed_string_literal
    else verdict false malformed_json
