-- ===== src/PyJson/Dumps.antt =====
-- internal/pyjson/dumps.go: `Dumps` and `DumpsASCII` over what `json.Decoder` makes of the input, which
-- comes in as the list of its tokens. `strconv.ParseFloat` with `FormatFloat` is a parameter.
use kiro_gateway_go.Common.{
  ℕ, zero, suc, ◌+◌, Bool, true, false, ◌||◌, Option, none, some, List, [], ◌∷◌, ◌++◌, length, ◌==◌,
  if◌then◌else◌,
}
use kiro_gateway_go.Common.Bytes.{Bytes}
use kiro_gateway_go.PyJson.Strings.{write_string, write_ascii_string}

-- `invalid` is a place at which `Token` gives an error, and which is neither `]` nor `}`.
pub data Token : Type 0 where
  open_object : Token
  close_object : Token
  open_array : Token
  close_array : Token
  text : Bytes → Token
  number : Bytes → Token
  boolean : Bool → Token
  null : Token
  invalid : Token

-- `dec.More()`
unfoldable pub more : List Token → Bool
more [] = false
more (close_object ∷ _) = false
more (close_array ∷ _) = false
more (_ ∷ _) = true

-- What was written and the tokens left, or an error. `stuck`: the bound was too low.
pub data Written : Type 0 where
  wrote : Bytes → List Token → Written
  failed : Written
  stuck : Written

abbrev pub prepend : Bytes → Written → Written
prepend b (wrote c ts) = wrote (b ++ c) ts
prepend b failed = failed
prepend b stuck = stuck

abbrev pub after : Written → (List Token → Written) → Written
after (wrote b ts) further = prepend b (further ts)
after failed further = failed
after stuck further = stuck

-- The closing bracket is taken from the decoder.
abbrev pub close : ℕ → List Token → Written
close bracket [] = failed
close bracket (invalid ∷ ts) = failed
close bracket (t ∷ ts) = wrote (bracket ∷ []) ts

abbrev pub separator : (first : Bool) → Bytes
separator true = []
separator false = b',' ∷ b' ' ∷ []

unfoldable pub has_float_sign : Bytes → Bool
has_float_sign [] = false
has_float_sign (c ∷ s) = (c == b'.' || (c == b'e' || c == b'E')) || has_float_sign s

abbrev pub with_fraction : Bytes → Bytes
with_fraction out = if has_float_sign out then out else out ++ b'.' ∷ b'0' ∷ []

abbrev pub reformatted : Bytes → Option Bytes → Bytes
reformatted s none = s
reformatted s (some out) = with_fraction out

-- The text of a number is ASCII; these are the texts of the three words.
abbrev pub word : Bool → Bytes
word true = b't' ∷ b'r' ∷ b'u' ∷ b'e' ∷ []
word false = b'f' ∷ b'a' ∷ b'l' ∷ b's' ∷ b'e' ∷ []

abbrev pub null_word : Bytes
null_word = b'n' ∷ b'u' ∷ b'l' ∷ b'l' ∷ []

module _ (float : Bytes → Option Bytes) (ascii : Bool) where
  unfoldable pub write_number : Bytes → Bytes
  write_number s = if has_float_sign s then reformatted s (float s) else s

  unfoldable pub write_text : Bytes → Bytes
  write_text s = if ascii then write_ascii_string s else write_string s

  abbrev pub keyed : Bytes → (List Token → Written) → List Token → Written
  keyed sep further (text key ∷ ts) =
      prepend (sep ++ (write_text key ++ b':' ∷ b' ' ∷ [])) (further ts)
  keyed sep further _ = failed

  unfoldable mutual
    pub write_value : (fuel : ℕ) → List Token → Written
    write_value zero ts = stuck
    write_value (suc fuel) [] = failed
    write_value (suc fuel) (open_object ∷ ts) = prepend (b'{' ∷ []) (write_object fuel true ts)
    write_value (suc fuel) (open_array ∷ ts) = prepend (b'[' ∷ []) (write_array fuel true ts)
    write_value (suc fuel) (close_object ∷ ts) = failed
    write_value (suc fuel) (close_array ∷ ts) = failed
    write_value (suc fuel) (text s ∷ ts) = wrote (write_text s) ts
    write_value (suc fuel) (number s ∷ ts) = wrote (write_number s) ts
    write_value (suc fuel) (boolean b ∷ ts) = wrote (word b) ts
    write_value (suc fuel) (null ∷ ts) = wrote null_word ts
    write_value (suc fuel) (invalid ∷ ts) = failed

    pub write_object : (fuel : ℕ) (first : Bool) → List Token → Written
    write_object zero first ts = stuck
    write_object (suc fuel) first ts =
        if more ts
        then keyed (separator first)
            (λ us. after (write_value fuel us) (λ vs. write_object fuel false vs)) ts
        else close b'}' ts

    pub write_array : (fuel : ℕ) (first : Bool) → List Token → Written
    write_array zero first ts = stuck
    write_array (suc fuel) first ts =
        if more ts
        then prepend (separator first)
            (after (write_value fuel ts) (λ us. write_array fuel false us))
        else close b']' ts

  -- The text, or an error, also for what `More` reports behind the value.
  abbrev pub whole : Written → Option Bytes
  whole (wrote b ts) = if more ts then none else some b
  whole failed = none
  whole stuck = none

  -- Of two calls in a row one takes a token.
  unfoldable pub dumps : List Token → Option Bytes
  dumps ts = whole (write_value (suc (length ts + length ts)) ts)
