-- ===== src/Parsers/Grammar.antt =====
-- A grammar for what stands between matching braces, and how the scanner of brace_scanner.go runs
-- over it.
use kiro_gateway_go.Common.{
  ℕ, suc, ◌+◌, true, false, ◌||◌, some, [], ◌∷◌, ◌++◌, ◌≡◌, refl, ap, ◌∙◌, arith, ◌==◌, length,
  length-append, append_assoc,
}
use kiro_gateway_go.Common.Bytes.{Bytes}
use kiro_gateway_go.Parsers.{Scan, scan_byte, scan}

-- The rest of a string literal, its closing quote included.
pub data Quoted : Type 0 where
  close : Quoted
  char : (c : ℕ) → (c == b'\\' || c == b'"') ≡ false → Quoted → Quoted
  escaped : ℕ → Quoted → Quoted

-- What stands between matching braces: plain bytes, string literals and nested objects.
pub data Body : Type 0 where
  done : Body
  plain : (c : ℕ) → (c == b'"' || c == b'{' || c == b'}') ≡ false → Body → Body
  quoted : Quoted → Body → Body
  nested : Body → Body → Body

abbrev pub quoted_text : Quoted → Bytes
quoted_text close = b'"' ∷ []
quoted_text (char c h q) = c ∷ quoted_text q
quoted_text (escaped c q) = b'\\' ∷ c ∷ quoted_text q

abbrev pub text : Body → Bytes
text done = []
text (plain c h b) = c ∷ text b
text (quoted q b) = b'"' ∷ (quoted_text q ++ text b)
text (nested b b') = b'{' ∷ (text b ++ (b'}' ∷ text b'))

abbrev pub object : Body → Bytes
object b = b'{' ∷ (text b ++ (b'}' ∷ []))

abbrev pub normal : ℕ → Scan
normal d = record { brace_count = suc d; in_string = false; escape_next = false }

abbrev pub inside : ℕ → Scan
inside d = record { brace_count = suc d; in_string = true; escape_next = false }

abbrev pub escaping : ℕ → Scan
escaping d = record { brace_count = suc d; in_string = true; escape_next = true }

pub scan-quoted_text :
    (q : Quoted) (cs : Bytes) (i d : ℕ)
    → scan (quoted_text q ++ cs) i (inside d) ≡ scan cs (i + length (quoted_text q)) (normal d)
unfolding scan scan_byte
scan-quoted_text close cs i d = refl
scan-quoted_text (char c h q) cs i d = ground (arith, scan-quoted_text q cs (i + 1) d)
scan-quoted_text (escaped c q) cs i d = ground (arith, scan-quoted_text q cs (i + 1 + 1) d)

module _ (cs : Bytes) (i d : ℕ) where
  pub scan_plain :
      (c : ℕ)
      → (c == b'"' || c == b'{' || c == b'}') ≡ false
      → scan (c ∷ cs) i (normal d) ≡ scan cs (i + 1) (normal d)
  unfolding scan scan_byte
  scan_plain c h = ground arith

  pub scan_quote : scan (b'"' ∷ cs) i (normal d) ≡ scan cs (i + 1) (inside d)
  unfolding scan scan_byte
  scan_quote = refl

  pub scan_open : scan (b'{' ∷ cs) i (normal d) ≡ scan cs (i + 1) (normal (suc d))
  unfolding scan scan_byte
  scan_open =
      ap (λ n. scan cs (i + 1) (record { brace_count = n; in_string = false; escape_next = false }))
        (omega arith)

  pub scan_close : scan (b'}' ∷ cs) i (normal (suc d)) ≡ scan cs (i + 1) (normal d)
  unfolding scan scan_byte
  scan_close = ground arith

  pub scan_last : scan (b'}' ∷ cs) i (normal 0) ≡ some i
  unfolding scan scan_byte
  scan_last = refl

pub scan_at : (cs : Bytes) (s : Scan) {i j : ℕ} → i ≡ j → scan cs i s ≡ scan cs j s
scan_at cs s e = ap (λ n. scan cs n s) e

pub scan-text :
    (b : Body) (cs : Bytes) (i d : ℕ)
    → scan (text b ++ cs) i (normal d) ≡ scan cs (i + length (text b)) (normal d)
scan-text done cs i d = scan_at cs (normal d) (omega arith)
scan-text (plain c h b) cs i d =
    scan_plain (text b ++ cs) i d c h
    ∙ scan-text b cs (i + 1) d
    ∙ scan_at cs (normal d) (omega arith)
scan-text (quoted q b) cs i d =
    scan_quote _ i d
    ∙ ap (λ t. scan t (i + 1) (inside d)) (append_assoc (quoted_text q) (text b) cs)
    ∙ scan-quoted_text q (text b ++ cs) (i + 1) d
    ∙ scan-text b cs (i + 1 + length (quoted_text q)) d
    ∙ scan_at cs (normal d) (omega (arith, length-append {0} (quoted_text q) (text b)))
scan-text (nested b b') cs i d =
    scan_open _ i d
    ∙ ap (λ t. scan t (i + 1) (normal (suc d))) (append_assoc (text b) (b'}' ∷ text b') cs)
    ∙ scan-text b (b'}' ∷ (text b' ++ cs)) (i + 1) (suc d)
    ∙ scan_close (text b' ++ cs) (i + 1 + length (text b)) d
    ∙ scan-text b' cs (i + 1 + length (text b) + 1) d
    ∙ scan_at cs (normal d) (omega (arith, length-append {0} (text b) (b'}' ∷ text b')))

pub append_object : (b : Body) (rest : Bytes) → object b ++ rest ≡ b'{' ∷ (text b ++ (b'}' ∷ rest))
append_object b rest = ap (◌∷◌ b'{') (append_assoc (text b) (b'}' ∷ []) rest)
