-- ===== src/Tokenizer/Bpe/Chunks.antt =====
-- What the merging of pairs is to do, apart from offsets and stored ranks: a piece is a list of
-- chunks, and the pair of neighbours with the lowest rank, the first one of several, becomes one.
use kiro_gateway_go.Common.{
  ℕ, zero, suc, ◌+◌, ◌≤◌, ◌<◌, ◌≡◌, refl, ap, Option, List, [], ◌∷◌, ◌++◌, length, append_assoc,
  arith,
}
use kiro_gateway_go.Common.Bytes.{Bytes, concat}
use kiro_gateway_go.Tokenizer.Bpe.{max_rank, rank_of}

unfoldable pub singles : Bytes → List Bytes
singles [] = []
singles (c ∷ s) = (c ∷ []) ∷ singles s

unfoldable pub merge : ℕ → List Bytes → List Bytes
merge zero (a ∷ b ∷ cs) = (a ++ b) ∷ cs
merge (suc i) (a ∷ cs) = a ∷ merge i cs
merge _ cs = cs

module _ (ranks : Bytes → Option ℕ) where
  abbrev pub first_rank : List Bytes → ℕ
  first_rank (a ∷ b ∷ cs) = rank_of ranks (a ++ b)
  first_rank _ = max_rank

  -- The rank of the pair that begins with the chunk `i`.
  unfoldable pub rank_at : ℕ → List Bytes → ℕ
  rank_at zero cs = first_rank cs
  rank_at (suc i) [] = max_rank
  rank_at (suc i) (c ∷ cs) = rank_at i cs

  -- A pair below `m` that no pair goes below, and none in front of it reaches.
  pub record Best (m k : ℕ) (cs : List Bytes) : Type 0 where
    pub low : rank_at k cs < m
    pub least : (j : ℕ) → rank_at k cs ≤ rank_at j cs
    pub first : (j : ℕ) → j < k → rank_at k cs < rank_at j cs

  pub data Merges (start : List Bytes) : List Bytes → Type 0 where
    unmerged : Merges start start
    merged :
        {cs ds : List Bytes} (i : ℕ)
        → Merges start cs
        → Best max_rank i cs
        → ds ≡ merge i cs
        → Merges start ds

  -- No pair of neighbours is left that has a rank.
  abbrev pub IsFinal : List Bytes → Type 0
  IsFinal cs = (j : ℕ) → max_rank ≤ rank_at j cs

pub concat-singles : (s : Bytes) → concat (singles s) ≡ s
unfolding singles
concat-singles [] = refl
concat-singles (c ∷ s) = ap (◌∷◌ c) (concat-singles s)

pub concat-merge : (i : ℕ) (cs : List Bytes) → concat (merge i cs) ≡ concat cs
unfolding merge
concat-merge zero [] = refl
concat-merge zero (a ∷ []) = refl
concat-merge zero (a ∷ b ∷ cs) = append_assoc a b (concat cs)
concat-merge (suc i) [] = refl
concat-merge (suc i) (a ∷ cs) = ap (λ t. a ++ t) (concat-merge i cs)

pub length-merge : (i : ℕ) (cs : List Bytes) → i + 1 < length cs → length (merge i cs) < length cs
unfolding merge
length-merge zero [] h = absurd (omega arith)
length-merge zero (a ∷ []) h = absurd (omega arith)
length-merge zero (a ∷ b ∷ cs) h = omega arith
length-merge (suc i) [] h = absurd (omega arith)
length-merge (suc i) (a ∷ cs) h = omega (arith, length-merge i cs)

module _ (ranks : Bytes → Option ℕ) where
  pub rank_at-nil : (i : ℕ) → rank_at ranks i [] ≡ max_rank
  unfolding rank_at
  rank_at-nil zero = refl
  rank_at-nil (suc i) = refl

  -- A pair with a rank is a pair.
  pub rank_at-lt : (i : ℕ) (cs : List Bytes) → rank_at ranks i cs < max_rank → i + 1 < length cs
  unfolding rank_at
  rank_at-lt zero [] h = absurd (omega arith)
  rank_at-lt zero (a ∷ []) h = absurd (omega arith)
  rank_at-lt zero (a ∷ b ∷ cs) h = omega arith
  rank_at-lt (suc i) [] h = absurd (omega arith)
  rank_at-lt (suc i) (a ∷ cs) h = omega (arith, rank_at-lt i cs)
