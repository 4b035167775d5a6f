-- ===== src/Parsers/Scanner.antt =====
-- What a success of the scanner of brace_scanner.go says about the text it has read.
use mathlib.Core.Path.{subst, subst₂}
use kiro_gateway_go.Common.{
  ℕ, zero, suc, ◌+◌, false, ◌||◌, some, [], ◌∷◌, ◌++◌, ◌≡◌, inl, inr, refl, sym, ap, ◌∙◌, arith,
  ◌==◌, ==_iff, length, length-append, Bool-cases, some_inj, append_assoc,
}
use kiro_gateway_go.Common.Bytes.{Bytes}
use kiro_gateway_go.Parsers.{Scan, scan_byte, scan}
use kiro_gateway_go.Parsers.Grammar.{
  Quoted, close, char, escaped, Body, done, plain, quoted, nested, quoted_text, text, object,
  normal, inside, escaping, scan_plain, scan_quote, scan_open, scan_close, scan_last, append_object,
}

-- The text from the scanner's place closes the levels that are open, one body at a time.
pub data Closes : ℕ → Bytes → ℕ → Type 0 where
  last :
      (b : Body) (rest : Bytes) {cs : Bytes} {n : ℕ}
      → cs ≡ text b ++ (b'}' ∷ rest)
      → n ≡ length (text b)
      → Closes 0 cs n
  more :
      (b : Body) {rest cs : Bytes} {d m n : ℕ}
      → cs ≡ text b ++ (b'}' ∷ rest)
      → Closes d rest m
      → n ≡ length (text b) + 1 + m
      → Closes (suc d) cs n

Closes-append :
    (f : Body → Body) (pre : Bytes) {d : ℕ} {cs : Bytes} {m : ℕ}
    → ((b : Body) → text (f b) ≡ pre ++ text b)
    → Closes d cs m
    → Closes d (pre ++ cs) (length pre + m)
Closes-append f pre e (last b rest t n) =
    last (f b) rest (rw (t, e) (sym (append_assoc pre (text b) (b'}' ∷ rest))))
      (rw e (omega (arith, length-append {0} pre (text b))))
Closes-append f pre e (more b {rest} t c n) =
    more (f b) (rw (t, e) (sym (append_assoc pre (text b) (b'}' ∷ rest)))) c
      (rw e (omega (arith, length-append {0} pre (text b))))

-- An inner object is part of the body around it.
Closes-open : {d : ℕ} {cs : Bytes} {m : ℕ} → Closes (suc d) cs m → Closes d (b'{' ∷ cs) (suc m)
Closes-open (more b {rest} {cs} {d} {m} {n} t c e) =
    subst₂ (Closes d) (append_object b rest ∙ ap (◌∷◌ b'{') (sym t))
      (omega (arith, length-append {0} (text b) (b'}' ∷ [])))
      (Closes-append (nested b) (object b) (λ b'. sym (append_object b (text b'))) c)

pub data Mode : Type 0 where
  in_body in_quoted in_escape : Mode

abbrev pub state_of : Mode → ℕ → Scan
state_of in_body d = normal d
state_of in_quoted d = inside d
state_of in_escape d = escaping d

abbrev pub QuotedThen : ℕ → Bytes → ℕ → Type 0
QuotedThen d cs m =
    (q : Quoted) × (rest : Bytes) × (k : ℕ) × (cs ≡ quoted_text q ++ rest)
    × Closes d rest k
    × (m ≡ length (quoted_text q) + k)

-- What the scanner's success says in each mode, `m` bytes on.
abbrev pub Claim : Mode → ℕ → Bytes → ℕ → Type 0
Claim in_body d cs m = Closes d cs m
Claim in_quoted d cs m = QuotedThen d cs m
Claim in_escape d cs m =
    (c : ℕ) × (rest : Bytes) × (k : ℕ) × (cs ≡ c ∷ rest) × QuotedThen d rest k × (m ≡ suc k)

abbrev pub Claimed : Mode → ℕ → Bytes → ℕ → ℕ → Type 0
Claimed mode d cs i j = (m : ℕ) × (j ≡ i + m) × Claim mode d cs m

step_quote :
    (cs : Bytes) (d i j : ℕ) → Claimed in_quoted d cs (i + 1) j → Claimed in_body d (b'"' ∷ cs) i j
step_quote cs d i j (m, e, (q, rest, k, t, c, n)) = (
  suc m,
  omega arith,
  subst₂ (Closes d) (ap (◌∷◌ b'"') (sym t)) (omega arith)
      (Closes-append (quoted q) (b'"' ∷ quoted_text q) (λ b. refl) c),
)

step_open :
    (cs : Bytes) (d i j : ℕ)
    → Claimed in_body (suc d) cs (i + 1) j
    → Claimed in_body d (b'{' ∷ cs) i j
step_open cs d i j (m, e, c) = (suc m, omega arith, Closes-open c)

step_close :
    (cs : Bytes) (d i j : ℕ)
    → ((d' : ℕ) → scan cs (i + 1) (normal d') ≡ some j → Claimed in_body d' cs (i + 1) j)
    → scan (b'}' ∷ cs) i (normal d) ≡ some j
    → Claimed in_body d (b'}' ∷ cs) i j
step_close cs zero i j ih h =
    (0, omega (arith, some_inj (sym (scan_last cs i 0) ∙ h)), last done cs refl refl)
step_close cs (suc d) i j ih h =
    let (m, e, c) = ih d (sym (scan_close cs i d) ∙ h) in
    (suc m, omega arith, more done refl c (omega arith))

step_plain :
    (c : ℕ) (cs : Bytes) (d i j : ℕ)
    → (c == b'"' || c == b'{' || c == b'}') ≡ false
    → Claimed in_body d cs (i + 1) j
    → Claimed in_body d (c ∷ cs) i j
step_plain c cs d i j p (m, e, cl) = (
  suc m,
  omega arith,
  subst (Closes d (c ∷ cs)) (omega arith) (Closes-append (plain c p) (c ∷ []) (λ b. refl) cl),
)

step_body :
    (c : ℕ) (cs : Bytes) (d i j : ℕ)
    → ((mode : Mode) (d' : ℕ)
        → scan cs (i + 1) (state_of mode d') ≡ some j
        → Claimed mode d' cs (i + 1) j)
    → scan (c ∷ cs) i (normal d) ≡ some j
    → Claimed in_body d (c ∷ cs) i j
step_body c cs d i j ih h = elim (Bool-cases (c == b'"')) [
  | inl e ↦
      let e' = (==_iff c b'"').0 e in
      rw e' (step_quote cs d i j (ih in_quoted d (sym (scan_quote cs i d) ∙ rw e' at h)))
  | inr n ↦ elim (Bool-cases (c == b'{')) [
    | inl e ↦
        let e' = (==_iff c b'{').0 e in
        rw e' (step_open cs d i j (ih in_body (suc d) (sym (scan_open cs i d) ∙ rw e' at h)))
    | inr n' ↦ elim (Bool-cases (c == b'}')) [
      | inl e ↦
          let e' = (==_iff c b'}').0 e in rw e' (step_close cs d i j (ih in_body) (rw e' at h))
      | inr n'' ↦
          let p : (c == b'"' || c == b'{' || c == b'}') ≡ false = rw (n, n', n'') in
          step_plain c cs d i j p (ih in_body d (sym (scan_plain cs i d c p) ∙ h))
    ]
  ]
]

module _ (c : ℕ) (cs : Bytes) (i d : ℕ) where
  scan_escape_start : scan (b'\\' ∷ cs) i (inside d) ≡ scan cs (i + 1) (escaping d)
  unfolding scan scan_byte
  scan_escape_start = refl

  scan_escape_end : scan (c ∷ cs) i (escaping d) ≡ scan cs (i + 1) (inside d)
  unfolding scan scan_byte
  scan_escape_end = refl

  scan_quote_end : scan (b'"' ∷ cs) i (inside d) ≡ scan cs (i + 1) (normal d)
  unfolding scan scan_byte
  scan_quote_end = refl

  scan_char :
      (c == b'\\' || c == b'"') ≡ false → scan (c ∷ cs) i (inside d) ≡ scan cs (i + 1) (inside d)
  unfolding scan scan_byte
  scan_char h = ground arith

step_quoted :
    (c : ℕ) (cs : Bytes) (d i j : ℕ)
    → ((mode : Mode) (d' : ℕ)
        → scan cs (i + 1) (state_of mode d') ≡ some j
        → Claimed mode d' cs (i + 1) j)
    → scan (c ∷ cs) i (inside d) ≡ some j
    → Claimed in_quoted d (c ∷ cs) i j
step_quoted c cs d i j ih h = elim (Bool-cases (c == b'\\')) [
  | inl e ↦
      let e' = (==_iff c b'\\').0 e in
      let (m, k, (x, rest, l, t, (q, r', k', t', cl, n), n')) =
        ih in_escape d (sym (scan_escape_start c cs i d) ∙ rw e' at h) in
      rw e' (
        suc m,
        omega arith,
        (escaped x q, r', k', ap (◌∷◌ b'\\') (t ∙ ap (◌∷◌ x) t'), cl, omega arith),
      )
  | inr n ↦ elim (Bool-cases (c == b'"')) [
    | inl e ↦
        let e' = (==_iff c b'"').0 e in
        let (m, k, cl) = ih in_body d (sym (scan_quote_end c cs i d) ∙ rw e' at h) in
        rw e' (suc m, omega arith, (close, cs, m, refl, cl, omega arith))
    | inr n' ↦
        let p : (c == b'\\' || c == b'"') ≡ false = rw (n, n') in
        let (m, k, (q, rest, l, t, cl, o)) = ih in_quoted d (sym (scan_char c cs i d p) ∙ h) in
        (suc m, omega arith, (char c p q, rest, l, ap (◌∷◌ c) t, cl, omega arith))
  ]
]

pub scan-Claim :
    (cs : Bytes) (mode : Mode) (d i j : ℕ)
    → scan cs i (state_of mode d) ≡ some j
    → Claimed mode d cs i j
scan-Claim [] mode d i j h = absurd (unfold scan in ground arith)
scan-Claim (c ∷ cs) in_body d i j h =
    step_body c cs d i j (λ mode d' h'. scan-Claim cs mode d' (i + 1) j h') h
scan-Claim (c ∷ cs) in_quoted d i j h =
    step_quoted c cs d i j (λ mode d' h'. scan-Claim cs mode d' (i + 1) j h') h
scan-Claim (c ∷ cs) in_escape d i j h =
    let (m, e, q) = scan-Claim cs in_quoted d (i + 1) j (sym (scan_escape_end c cs i d) ∙ h) in
    (suc m, omega arith, (c, cs, m, refl, q, refl))

pub Closes-last :
    {cs : Bytes} {m : ℕ}
    → Closes 0 cs m
    → (b : Body) × (rest : Bytes) × (cs ≡ text b ++ (b'}' ∷ rest)) × (m ≡ length (text b))
Closes-last (last b rest t n) = (b, rest, t, n)
