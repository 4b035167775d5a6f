-- ===== src/Tests/Tokens.antt =====
-- A small vocabulary, and the texts that are encoded with it.
use kiro_gateway_go.Common.{
  ℕ, zero, suc, ◌+◌, ◌≤◌, ◌≡◌, refl, ◌&&◌, Option, none, some, List, [], ◌∷◌, map, leb, ◌==◌,
  if◌then◌else◌, arith,
}
use kiro_gateway_go.Common.Bytes.{Bytes, concat}
use kiro_gateway_go.Tokenizer.Pretokens.{Unicode, next_pretoken_end}
use kiro_gateway_go.Tokenizer.Pretokens.Lossless.{next_pretoken_end-positive}
use kiro_gateway_go.Tokenizer.Bpe.{byte_pair_encode, encode_ordinary, id_of}
use kiro_gateway_go.Tokenizer.Bpe.Chunks.{singles, Merges, IsFinal}
use kiro_gateway_go.Tokenizer.Bpe.Refines.{byte_pair_encode-Merges}
use kiro_gateway_go.Tokenizer.Bpe.RoundTrip.{IsVocabulary, decode, encode_ordinary-decode}

abbrev ascii : Unicode
ascii = record {
  is_letter = λ r. leb b'a' r && leb r b'z';
  is_number = λ r. leb b'0' r && leb r b'9';
  is_space = λ r. r == b' ';
}

-- Every byte, and the pair "ab" with the lowest rank.
abbrev ranks : Bytes → Option ℕ
ranks (b ∷ []) = some (b + 1)
ranks (a ∷ b ∷ []) = if a == b'a' && b == b'b' then some 0 else none
ranks _ = none

abbrev token : ℕ → Bytes
token zero = b'a' ∷ b'b' ∷ []
token (suc b) = b ∷ []

token-ranks : (s : Bytes) (r : ℕ) → ranks s ≡ some r → token r ≡ s
token-ranks [] r h = absurd (ground arith)
token-ranks (b ∷ []) zero h = absurd (ground arith)
token-ranks (b ∷ []) (suc r) h = ground arith
token-ranks (a ∷ b ∷ []) zero h = ground arith
token-ranks (a ∷ b ∷ []) (suc r) h = absurd (ground arith)
token-ranks (a ∷ b ∷ c ∷ s) r h = absurd (ground arith)

ranks-IsVocabulary : IsVocabulary ranks token
ranks-IsVocabulary = record { has_bytes = λ b h. (b + 1, refl); inverse = token-ranks }

-- "ab ab"
abbrev two_words : Bytes
two_words = b'a' ∷ b'b' ∷ b' ' ∷ b'a' ∷ b'b' ∷ []

encode_ordinary-decode_example :
    (ids : List ℕ) × (encode_ordinary ranks ascii two_words ≡ some ids)
    × (decode token ids ≡ two_words)
encode_ordinary-decode_example =
    encode_ordinary-decode ranks-IsVocabulary ascii two_words (omega arith)

byte_pair_encode-Merges_example :
    (ds : List Bytes) × (byte_pair_encode ranks two_words ≡ some (map (id_of ranks) ds))
    × (concat ds ≡ two_words)
    × Merges ranks (singles two_words) ds
    × IsFinal ranks ds
byte_pair_encode-Merges_example = byte_pair_encode-Merges ranks two_words

next_pretoken_end-positive_example : 1 ≤ next_pretoken_end ascii two_words
next_pretoken_end-positive_example =
    next_pretoken_end-positive ascii refl b'a' (b'b' ∷ b' ' ∷ b'a' ∷ b'b' ∷ [])
