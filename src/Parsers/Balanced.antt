-- ===== src/Parsers/Balanced.antt =====
-- The brace scanner of brace_scanner.go decides where a balanced object ends.
use kiro_gateway_go.Common.{
  ℕ, zero, suc, ◌+◌, false, some, [], ◌∷◌, ◌++◌, ◌≡◌, ◌↔◌, inl, inr, refl, sym, ap, ◌∙◌, arith,
  ◌==◌, ==_iff, length, drop, Bool-cases, append_assoc,
}
use kiro_gateway_go.Common.Bytes.{Bytes}
use kiro_gateway_go.Parsers.{scan_byte, scan, scan_start, find_from, find_matching_brace}
use kiro_gateway_go.Parsers.Grammar.{
  Body, text, object, normal, scan_last, scan-text, append_object,
}
use kiro_gateway_go.Parsers.Scanner.{in_body, scan-Claim, Closes-last}

scan_first : (cs : Bytes) (i : ℕ) → scan (b'{' ∷ cs) i scan_start ≡ scan cs (i + 1) (normal 0)
unfolding scan scan_byte
scan_first cs i =
    ap (λ n. scan cs (i + 1) (record { brace_count = n; in_string = false; escape_next = false }))
      (omega arith)

-- `j` ends an object that begins at `start`.
abbrev pub EndsObject : Bytes → ℕ → ℕ → Type 0
EndsObject buf start j =
    (b : Body) × (rest : Bytes) × (drop start buf ≡ object b ++ rest)
    × (j ≡ start + length (text b) + 1)

find_from_sound :
    (cs : Bytes) (start j : ℕ)
    → find_from cs start ≡ some j
    → (b : Body) × (rest : Bytes) × (cs ≡ object b ++ rest) × (j ≡ start + length (text b) + 1)
unfolding find_from
find_from_sound [] start j h = absurd (ground arith)
find_from_sound (c ∷ cs) start j h = elim (Bool-cases (c == b'{')) [
  | inr n ↦ absurd (ground arith)
  | inl e ↦
      let e' = (==_iff c b'{').0 e in
      let (m, k, cl) =
        scan-Claim cs in_body 0 (start + 1) j (sym (scan_first cs start) ∙ rw e' at (rw e at h)) in
      let (b, rest, t, n) = Closes-last cl in
      (b, rest, ap (λ x. x ∷ cs) e' ∙ ap (◌∷◌ b'{') t ∙ sym (append_object b rest), omega arith)
]

find_from_complete :
    (b : Body) (rest : Bytes) (start : ℕ)
    → find_from (object b ++ rest) start ≡ some (start + length (text b) + 1)
unfolding find_from
find_from_complete b rest start =
    ap (λ t. find_from t start) (append_object b rest)
    ∙ scan_first (text b ++ (b'}' ∷ rest)) start
    ∙ scan-text b (b'}' ∷ rest) (start + 1) 0
    ∙ scan_last rest (start + 1 + length (text b)) 0
    ∙ ap some (omega arith)

-- The scanner finds `j` exactly when a balanced object, with string literals in which braces do not
-- count, stands at `start` and ends at `j`.
pub find_matching_brace_iff :
    (buf : Bytes) (start j : ℕ) → (find_matching_brace buf start ≡ some j) ↔ EndsObject buf start j
unfolding find_matching_brace
find_matching_brace_iff buf start j = (
  find_from_sound (drop start buf) start j,
  λ (b, rest, t, e).
      ap (λ cs. find_from cs start) t ∙ find_from_complete b rest start ∙ ap some (sym e),
)

drop-append :
    (n : ℕ) (s later : Bytes) {c : ℕ} {t : Bytes}
    → drop n s ≡ c ∷ t
    → drop n (s ++ later) ≡ drop n s ++ later
drop-append zero s later h = refl
drop-append (suc n) [] later h = absurd (ground arith)
drop-append (suc n) (x ∷ s) later h = drop-append n s later h

-- Once the end of an object is found, more bytes behind the buffer do not change it. So a chunk
-- that arrives later can complete an object and never moves one.
pub find_matching_brace-append :
    (buf later : Bytes) (start j : ℕ)
    → find_matching_brace buf start ≡ some j
    → find_matching_brace (buf ++ later) start ≡ some j
find_matching_brace-append buf later start j h =
    let (b, rest, t, e) = (find_matching_brace_iff buf start j).0 h in
    (find_matching_brace_iff (buf ++ later) start j).1 (
      b,
      rest ++ later,
      drop-append start buf later t ∙ ap (λ s. s ++ later) t ∙ append_assoc (object b) rest later,
      e,
    )
