-- ===== src/PyJson/Documents.antt =====
-- A JSON document, its tokens, and its text by the rules of Python: what `Dumps` makes of it.
use kiro_gateway_go.Common.{
  ℕ, zero, suc, ◌+◌, ◌≤◌, ◌≡◌, refl, sym, ap, ◌∙◌, Bool, true, false, Option, none, some, List, [],
  ◌∷◌, ◌++◌, append_assoc, length, if◌then◌else◌, arith,
}
use kiro_gateway_go.Common.Bytes.{Bytes}
use kiro_gateway_go.PyJson.Dumps.{
  Token, open_object, close_object, open_array, close_array, more, wrote, prepend, after, separator,
  word, null_word, write_number, write_text, write_value, write_object, write_array, whole, dumps,
}

mutual
  pub data Doc : Type 0 where
    str : Bytes → Doc
    num : Bytes → Doc
    bool : Bool → Doc
    nul : Doc
    arr : Items → Doc
    obj : Fields → Doc

  pub data Items : Type 0 where
    end : Items
    item : Doc → Items → Items

  pub data Fields : Type 0 where
    no_fields : Fields
    field : Bytes → Doc → Fields → Fields

-- The tokens of a document, in front of those that follow.
unfoldable mutual
  pub tokens : Doc → List Token → List Token
  tokens (str s) rest = Token.text s ∷ rest
  tokens (num s) rest = Token.number s ∷ rest
  tokens (bool b) rest = Token.boolean b ∷ rest
  tokens nul rest = Token.null ∷ rest
  tokens (arr ds) rest = open_array ∷ item_tokens ds rest
  tokens (obj fs) rest = open_object ∷ field_tokens fs rest

  pub item_tokens : Items → List Token → List Token
  item_tokens end rest = close_array ∷ rest
  item_tokens (item d ds) rest = tokens d (item_tokens ds rest)

  pub field_tokens : Fields → List Token → List Token
  field_tokens no_fields rest = close_object ∷ rest
  field_tokens (field key d fs) rest = Token.text key ∷ tokens d (field_tokens fs rest)

-- `", ".join(parts)`
abbrev tail_of : List Bytes → Bytes
tail_of [] = []
tail_of (p ∷ parts) = b',' ∷ b' ' ∷ (p ++ tail_of parts)

abbrev join : List Bytes → Bytes
join [] = []
join (p ∷ parts) = p ++ tail_of parts

-- The number of tokens.
mutual
  size : Doc → ℕ
  size (str s) = 1
  size (num s) = 1
  size (bool b) = 1
  size nul = 1
  size (arr ds) = suc (item_size ds)
  size (obj fs) = suc (field_size fs)

  item_size : Items → ℕ
  item_size end = 1
  item_size (item d ds) = size d + item_size ds

  field_size : Fields → ℕ
  field_size no_fields = 1
  field_size (field key d fs) = suc (size d + field_size fs)

size_pos : (d : Doc) → 1 ≤ size d
unfolding size
size_pos (str s) = omega arith
size_pos (num s) = omega arith
size_pos (bool b) = omega arith
size_pos nul = omega arith
size_pos (arr ds) = omega arith
size_pos (obj fs) = omega arith

item_size_pos : (ds : Items) → 1 ≤ item_size ds
unfolding size
item_size_pos end = omega arith
item_size_pos (item d ds) = omega (arith, size_pos d)

field_size_pos : (fs : Fields) → 1 ≤ field_size fs
unfolding size
field_size_pos no_fields = omega arith
field_size_pos (field key d fs) = omega arith

mutual
  unfolding tokens size

  length-tokens : (d : Doc) (rest : List Token) → length (tokens d rest) ≡ size d + length rest
  length-tokens (str s) rest = omega arith
  length-tokens (num s) rest = omega arith
  length-tokens (bool b) rest = omega arith
  length-tokens nul rest = omega arith
  length-tokens (arr ds) rest = omega (arith, length-item_tokens ds rest)
  length-tokens (obj fs) rest = omega (arith, length-field_tokens fs rest)

  length-item_tokens :
      (ds : Items) (rest : List Token) → length (item_tokens ds rest) ≡ item_size ds + length rest
  length-item_tokens end rest = omega arith
  length-item_tokens (item d ds) rest =
      omega (arith, length-tokens d (item_tokens ds rest), length-item_tokens ds rest)

  length-field_tokens :
      (fs : Fields) (rest : List Token)
      → length (field_tokens fs rest) ≡ field_size fs + length rest
  length-field_tokens no_fields rest = omega arith
  length-field_tokens (field key d fs) rest =
      omega (arith, length-tokens d (field_tokens fs rest), length-field_tokens fs rest)

module _ (float : Bytes → Option Bytes) (ascii : Bool) where
  unfoldable mutual
    pub printed : Doc → Bytes
    printed (str s) = write_text float ascii s
    printed (num s) = write_number float ascii s
    printed (bool b) = word b
    printed nul = null_word
    printed (arr ds) = b'[' ∷ (join (printed_items ds) ++ b']' ∷ [])
    printed (obj fs) = b'{' ∷ (join (printed_fields fs) ++ b'}' ∷ [])

    pub printed_items : Items → List Bytes
    printed_items end = []
    printed_items (item d ds) = printed d ∷ printed_items ds

    pub printed_fields : Fields → List Bytes
    printed_fields no_fields = []
    printed_fields (field key d fs) =
        (write_text float ascii key ++ b':' ∷ b' ' ∷ printed d) ∷ printed_fields fs

  -- The parts so far behind, with the separator in front unless they are the first.
  abbrev opened : (first : Bool) → List Bytes → Bytes
  opened true parts = join parts
  opened false parts = tail_of parts

  opened-cons :
      (first : Bool) (p : Bytes) (parts : List Bytes) (s : Bytes)
      → opened first (p ∷ parts) ++ s ≡ separator first ++ (p ++ (tail_of parts ++ s))
  opened-cons true p parts s = append_assoc p (tail_of parts) s
  opened-cons false p parts s = ap (λ t. b',' ∷ b' ' ∷ t) (append_assoc p (tail_of parts) s)

  regrouped :
      (a b c s : Bytes)
      → (a ++ (b ++ b':' ∷ b' ' ∷ [])) ++ (c ++ s) ≡ a ++ ((b ++ b':' ∷ b' ' ∷ c) ++ s)
  regrouped a b c s = simp append_assoc

  more-tokens : (d : Doc) (rest : List Token) → more (tokens d rest) ≡ true
  unfolding more tokens
  more-tokens (str s) rest = refl
  more-tokens (num s) rest = refl
  more-tokens (bool b) rest = refl
  more-tokens nul rest = refl
  more-tokens (arr ds) rest = refl
  more-tokens (obj fs) rest = refl

  write_array-more :
      (fuel : ℕ) (first : Bool) (ts : List Token)
      → more ts ≡ true
      → write_array float ascii (suc fuel) first ts
        ≡ prepend
            (separator first)
            (after (write_value float ascii fuel ts) (λ us. write_array float ascii fuel false us))
  unfolding write_array
  write_array-more fuel first ts e = rw e refl

  mutual
    unfolding write_value write_object write_array tokens printed size more

    value_written :
        (d : Doc) (fuel : ℕ) (rest : List Token)
        → size d ≤ fuel
        → write_value float ascii fuel (tokens d rest) ≡ wrote (printed d) rest
    value_written (str s) zero rest h = absurd (omega arith)
    value_written (str s) (suc fuel) rest h = refl
    value_written (num s) zero rest h = absurd (omega arith)
    value_written (num s) (suc fuel) rest h = refl
    value_written (bool b) zero rest h = absurd (omega arith)
    value_written (bool b) (suc fuel) rest h = refl
    value_written nul zero rest h = absurd (omega arith)
    value_written nul (suc fuel) rest h = refl
    value_written (arr ds) zero rest h = absurd (omega arith)
    value_written (arr ds) (suc fuel) rest h =
        ap (prepend (b'[' ∷ [])) (items_written true ds fuel rest (omega arith))
    value_written (obj fs) zero rest h = absurd (omega arith)
    value_written (obj fs) (suc fuel) rest h =
        ap (prepend (b'{' ∷ [])) (fields_written true fs fuel rest (omega arith))

    items_written :
        (first : Bool) (ds : Items) (fuel : ℕ) (rest : List Token)
        → item_size ds ≤ fuel
        → write_array float ascii fuel first (item_tokens ds rest)
          ≡ wrote (opened first (printed_items ds) ++ b']' ∷ []) rest
    items_written first end zero rest h = absurd (omega arith)
    items_written true end (suc fuel) rest h = refl
    items_written false end (suc fuel) rest h = refl
    items_written first (item d ds) zero rest h = absurd (omega (arith, size_pos d))
    items_written first (item d ds) (suc fuel) rest h =
        write_array-more fuel first (tokens d (item_tokens ds rest))
          (more-tokens d (item_tokens ds rest))
        ∙ ap
            (λ w. prepend (separator first) (after w (λ us. write_array float ascii fuel false us)))
            (value_written d fuel (item_tokens ds rest) (omega (arith, item_size_pos ds)))
        ∙ ap (λ w. prepend (separator first) (prepend (printed d) w))
            (items_written false ds fuel rest (omega (arith, size_pos d)))
        ∙ ap (λ b. wrote b rest)
            (sym (opened-cons first (printed d) (printed_items ds) (b']' ∷ [])))

    fields_written :
        (first : Bool) (fs : Fields) (fuel : ℕ) (rest : List Token)
        → field_size fs ≤ fuel
        → write_object float ascii fuel first (field_tokens fs rest)
          ≡ wrote (opened first (printed_fields fs) ++ b'}' ∷ []) rest
    fields_written first no_fields zero rest h = absurd (omega arith)
    fields_written true no_fields (suc fuel) rest h = refl
    fields_written false no_fields (suc fuel) rest h = refl
    fields_written first (field key d fs) zero rest h = absurd (omega arith)
    fields_written first (field key d fs) (suc fuel) rest h =
        ap
          (λ w.
            prepend (separator first ++ (write_text float ascii key ++ b':' ∷ b' ' ∷ []))
              (after w (λ us. write_object float ascii fuel false us)))
          (value_written d fuel (field_tokens fs rest) (omega (arith, field_size_pos fs)))
        ∙ ap
            (λ w.
              prepend (separator first ++ (write_text float ascii key ++ b':' ∷ b' ' ∷ []))
                (prepend (printed d) w))
            (fields_written false fs fuel rest (omega (arith, size_pos d)))
        ∙ ap (λ b. wrote b rest)
            (regrouped (separator first) (write_text float ascii key) (printed d) _
              ∙ sym (
                  opened-cons first (write_text float ascii key ++ b':' ∷ b' ' ∷ printed d)
                    (printed_fields fs) (b'}' ∷ [])))

  -- On the tokens of a document `Dumps` and `DumpsASCII` print it with the separators of Python, in the
  -- order of the input. What follows the document is refused if `More` sees it; a `]` or a `}` and all
  -- that stands behind is passed over.
  pub dumps-tokens :
      (d : Doc) (rest : List Token)
      → dumps float ascii (tokens d rest) ≡ (if more rest then none else some (printed d))
  unfolding dumps
  dumps-tokens d rest =
      ap (whole float ascii) (value_written d _ rest (omega (arith, length-tokens d rest)))
