-- ===== src/Tokenizer/Bpe.antt =====
-- internal/tokenizer/bpe.go: `bytePairEncode` and `EncodeOrdinary`. The vocabulary is a parameter.
pub mod Chunks
pub mod Refines
pub mod RoundTrip
use kiro_gateway_go.Common.{
  ℕ, zero, suc, ◌+◌, ◌-◌, Option, none, some, List, [], ◌∷◌, ◌++◌, length, take, drop, ltb,
  if◌then◌else◌,
}
use kiro_gateway_go.Common.Bytes.{Bytes}
use kiro_gateway_go.Tokenizer.Pretokens.{Unicode, split_pretokens}

-- `math.MaxInt`
abbrev pub max_rank : ℕ
max_rank = 9223372036854775807

pub record Part : Type 0 where
  pub start : ℕ
  pub rank : ℕ

-- `piece[from:to]`
abbrev pub slice : Bytes → (from to : ℕ) → Bytes
slice piece from to = take (to - from) (drop from piece)

-- Every byte is a part, and an end behind them.
unfoldable pub start_parts : ℕ → Bytes → List Part
start_parts i [] = record { start = i; rank = max_rank } ∷ []
start_parts i (c ∷ s) = record { start = i; rank = max_rank } ∷ start_parts (suc i) s

-- The index of the lowest rank, the first one of several. The end is not looked at.
unfoldable pub lowest : List Part → (i min_rank : ℕ) → (min_idx : Option ℕ) → Option ℕ
lowest [] i min_rank min_idx = min_idx
lowest (p ∷ []) i min_rank min_idx = min_idx
lowest (p ∷ q ∷ parts) i min_rank min_idx =
    lowest (q ∷ parts) (suc i) (if ltb p.rank min_rank then p.rank else min_rank)
      (if ltb p.rank min_rank then some i else min_idx)

-- `append(parts[:i+1], parts[i+2:]...)`
abbrev without_next : ℕ → List Part → List Part
without_next i parts = take (suc i) parts ++ drop (suc (suc i)) parts

abbrev pub rank_or : ℕ → Option ℕ → ℕ
rank_or default none = default
rank_or default (some r) = r

abbrev appended : Option (List ℕ) → Option (List ℕ) → Option (List ℕ)
appended none _ = none
appended (some _) none = none
appended (some out) (some more) = some (out ++ more)

-- The loop ends where no pair has a rank.
abbrev pub merged_further :
    List Part → (ℕ → Option (List Part)) → (min_idx : Option ℕ) → Option (List Part)
merged_further parts further none = some parts
merged_further parts further (some i) = further i

module _ (ranks : Bytes → Option ℕ) where
  abbrev pub rank_of : Bytes → ℕ
  rank_of key = rank_or max_rank (ranks key)

  -- A key that the map does not have gives 0.
  abbrev pub id_of : Bytes → ℕ
  id_of key = rank_or 0 (ranks key)

  -- `pairRank(idx)`, of the parts from `idx` on.
  unfoldable pub pair_rank : Bytes → List Part → ℕ
  pair_rank piece (p ∷ q ∷ r ∷ parts) = rank_of (slice piece p.start r.start)
  pair_rank piece _ = max_rank

  -- The first ranks. Those of the last two parts stay as they are, which is `max_rank`.
  unfoldable pub rank_parts : Bytes → List Part → List Part
  rank_parts piece [] = []
  rank_parts piece (p ∷ parts) =
      record p { rank = pair_rank piece (p ∷ parts) } ∷ rank_parts piece parts

  -- `parts[i].rank = pairRank(i)`
  unfoldable pub rerank : Bytes → ℕ → List Part → List Part
  rerank piece i [] = []
  rerank piece zero (p ∷ parts) = record p { rank = pair_rank piece (p ∷ parts) } ∷ parts
  rerank piece (suc i) (p ∷ parts) = p ∷ rerank piece i parts

  unfoldable pub merge_at : Bytes → ℕ → List Part → List Part
  merge_at piece zero parts = rerank piece 0 (without_next 0 parts)
  merge_at piece (suc i) parts = rerank piece i (rerank piece (suc i) (without_next (suc i) parts))

  -- `none`: the bound was too low.
  unfoldable pub merge_loop : Bytes → (fuel : ℕ) → List Part → Option (List Part)
  merge_loop piece zero parts = none
  merge_loop piece (suc fuel) parts =
      merged_further parts (λ i. merge_loop piece fuel (merge_at piece i parts))
        (lowest parts 0 max_rank none)

  unfoldable pub ids : Bytes → List Part → List ℕ
  ids piece [] = []
  ids piece (p ∷ []) = []
  ids piece (p ∷ q ∷ parts) = id_of (slice piece p.start q.start) ∷ ids piece (q ∷ parts)

  abbrev ids_of : Bytes → Option (List Part) → Option (List ℕ)
  ids_of piece none = none
  ids_of piece (some parts) = some (ids piece parts)

  unfoldable pub byte_pair_encode : Bytes → Option (List ℕ)
  byte_pair_encode [] = some []
  byte_pair_encode (c ∷ []) = some (id_of (c ∷ []) ∷ [])
  byte_pair_encode (c ∷ d ∷ s) =
      let piece = c ∷ d ∷ s in
      let parts = rank_parts piece (start_parts 0 piece) in
      ids_of piece (merge_loop piece (length parts) parts)

  unfoldable pub encode_all : List Bytes → Option (List ℕ)
  encode_all [] = some []
  encode_all (p ∷ pieces) = appended (byte_pair_encode p) (encode_all pieces)

  abbrev encode_pieces : Option (List Bytes) → Option (List ℕ)
  encode_pieces none = none
  encode_pieces (some pieces) = encode_all pieces

  unfoldable pub encode_ordinary : Unicode → Bytes → Option (List ℕ)
  encode_ordinary u [] = some []
  encode_ordinary u (c ∷ s) = encode_pieces (split_pretokens u (c ∷ s))
