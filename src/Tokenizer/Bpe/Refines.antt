-- ===== src/Tokenizer/Bpe/Refines.antt =====
-- The parts of `bytePairEncode`, with their offsets and stored ranks, stand for a list of chunks, and
-- the loop merges the chunks.
use kiro_gateway_go.Common.{
  ℕ, zero, suc, ◌+◌, ◌-◌, ◌≤◌, ◌<◌, ◌≡◌, refl, sym, ap, ◌∙◌, subst, ◌⊎◌, inl, inr, Option, none,
  some, List, [], ◌∷◌, ◌++◌, map, length, length-append, take, drop, drop-drop, drop-length_append,
  take-length_append, append_assoc, ltb, if◌then◌else◌, Bool-cases, arith,
}
use kiro_gateway_go.Common.Bytes.{Bytes, concat}
use kiro_gateway_go.Tokenizer.Bpe.{
  max_rank, Part, slice, start_parts, lowest, rank_of, id_of, pair_rank, rank_parts, rerank,
  merge_at, merge_loop, merged_further, ids, ids_of, byte_pair_encode,
}
use kiro_gateway_go.Tokenizer.Bpe.Chunks.{
  singles, merge, first_rank, rank_at, Best, Merges, unmerged, merged, IsFinal, concat-singles,
  concat-merge, length-merge, rank_at-nil, rank_at-lt,
}

-- The text behind a chunk.
drop-chunk :
    (piece c : Bytes) (cs : List Bytes) (off : ℕ)
    → drop off piece ≡ concat (c ∷ cs)
    → drop (off + length c) piece ≡ concat cs
drop-chunk piece c cs off h =
    drop-drop off (length c) piece ∙ ap (drop (length c)) h ∙ drop-length_append c (concat cs)

-- The text of a chunk.
slice-chunk :
    (piece c : Bytes) (cs : List Bytes) (off : ℕ)
    → drop off piece ≡ concat (c ∷ cs)
    → slice piece off (off + length c) ≡ c
slice-chunk piece c cs off h =
    let n : off + length c - off ≡ length c = omega arith in
    ap (λ k. take k (drop off piece)) n ∙ ap (take (length c)) h ∙ take-length_append c (concat cs)

module _ (ranks : Bytes → Option ℕ) (piece : Bytes) where
  -- The parts that stand for chunks from the offset `off` on.
  abbrev parts_of : ℕ → List Bytes → List Part
  parts_of off [] = record { start = off; rank = max_rank } ∷ []
  parts_of off (c ∷ cs) =
      record { start = off; rank = first_rank ranks (c ∷ cs) } ∷ parts_of (off + length c) cs

  pair_rank-two :
      (off r e s end : ℕ) (cs : List Bytes)
      → pair_rank ranks piece
          (record { start = off; rank = r } ∷ record { start = e; rank = s } ∷ parts_of end cs)
        ≡ rank_of ranks (slice piece off end)
  unfolding pair_rank
  pair_rank-two off r e s end [] = refl
  pair_rank-two off r e s end (c ∷ cs) = refl

  joined :
      (off : ℕ) (a b : Bytes) (cs : List Bytes)
      → drop off piece ≡ concat (a ∷ b ∷ cs)
      → drop off piece ≡ concat ((a ++ b) ∷ cs)
  joined off a b cs h = h ∙ sym (append_assoc a b (concat cs))

  joined_end : (off : ℕ) (a b : Bytes) → off + length a + length b ≡ off + length (a ++ b)
  joined_end off a b = omega (arith, length-append a b)

  pair_rank-parts_of :
      (off r : ℕ) (c : Bytes) (cs : List Bytes)
      → drop off piece ≡ concat (c ∷ cs)
      → pair_rank ranks piece (record { start = off; rank = r } ∷ parts_of (off + length c) cs)
        ≡ first_rank ranks (c ∷ cs)
  unfolding pair_rank
  pair_rank-parts_of off r c [] h = refl
  pair_rank-parts_of off r c (d ∷ ds) h =
      pair_rank-two off r (off + length c) (first_rank ranks (d ∷ ds)) (off + length c + length d)
        ds
      ∙ ap (λ e. rank_of ranks (slice piece off e)) (joined_end off c d)
      ∙ ap (rank_of ranks) (slice-chunk piece (c ++ d) ds off (joined off c d ds h))

  rerank-parts_of :
      (off r : ℕ) (c : Bytes) (cs : List Bytes)
      → drop off piece ≡ concat (c ∷ cs)
      → rerank ranks piece 0 (record { start = off; rank = r } ∷ parts_of (off + length c) cs)
        ≡ parts_of off (c ∷ cs)
  unfolding rerank
  rerank-parts_of off r c cs h =
      ap (λ k. record { start = off; rank = k } ∷ parts_of (off + length c) cs)
        (pair_rank-parts_of off r c cs h)

  rerank-joined :
      (off r : ℕ) (a b : Bytes) (cs : List Bytes)
      → drop off piece ≡ concat (a ∷ b ∷ cs)
      → rerank ranks piece 0
          (record { start = off; rank = r } ∷ parts_of (off + length a + length b) cs)
        ≡ parts_of off ((a ++ b) ∷ cs)
  rerank-joined off r a b cs h =
      ap (λ e. rerank ranks piece 0 (record { start = off; rank = r } ∷ parts_of e cs))
        (joined_end off a b)
      ∙ rerank-parts_of off r (a ++ b) cs (joined off a b cs h)

  merge_at-parts_of :
      (i off : ℕ) (cs : List Bytes)
      → drop off piece ≡ concat cs
      → i + 1 < length cs
      → merge_at ranks piece i (parts_of off cs) ≡ parts_of off (merge i cs)
  unfolding merge_at merge rerank
  merge_at-parts_of i off [] h l = absurd (omega arith)
  merge_at-parts_of i off (a ∷ []) h l = absurd (omega arith)
  merge_at-parts_of zero off (a ∷ b ∷ cs) h l = rerank-joined off _ a b cs h
  merge_at-parts_of (suc zero) off (a ∷ b ∷ []) h l = absurd (omega arith)
  merge_at-parts_of (suc zero) off (x ∷ a ∷ b ∷ cs) h l =
      ap (λ ps. rerank ranks piece 0 (record { start = off; rank = rank_of ranks (x ++ a) } ∷ ps))
        (rerank-joined (off + length x) _ a b cs (drop-chunk piece x (a ∷ b ∷ cs) off h))
      ∙ rerank-parts_of off _ x ((a ++ b) ∷ cs)
          (h ∙ ap (λ t. x ++ t) (sym (append_assoc a b (concat cs))))
  merge_at-parts_of (suc (suc i)) off (a ∷ b ∷ cs) h l =
      ap (◌∷◌ (record { start = off; rank = rank_of ranks (a ++ b) })) (
        merge_at-parts_of (suc i) (off + length a) (b ∷ cs) (drop-chunk piece a (b ∷ cs) off h)
          (omega arith))

  -- What the search finds from the index `i` on.
  abbrev Lowest : (i m : ℕ) → Option ℕ → List Bytes → Option ℕ → Type 0
  Lowest i m idx cs found =
      ((found ≡ idx) × ((j : ℕ) → m ≤ rank_at ranks j cs))
      ⊎ ((k : ℕ) × (found ≡ some (i + k)) × Best ranks m k cs)

  lowest-cons :
      (off i m : ℕ) (idx : Option ℕ) (p : Part) (cs : List Bytes)
      → lowest (p ∷ parts_of off cs) i m idx
        ≡ lowest
            (parts_of off cs)
            (suc i)
            (if ltb p.rank m then p.rank else m)
            (if ltb p.rank m then some i else idx)
  unfolding lowest
  lowest-cons off i m idx p [] = refl
  lowest-cons off i m idx p (c ∷ cs) = refl

  le-rank_at :
      (m : ℕ) (c : Bytes) (cs : List Bytes)
      → m ≤ first_rank ranks (c ∷ cs)
      → ((j : ℕ) → m ≤ rank_at ranks j cs)
      → (j : ℕ) → m ≤ rank_at ranks j (c ∷ cs)
  unfolding rank_at
  le-rank_at m c cs here later zero = here
  le-rank_at m c cs here later (suc j) = later j

  Best-zero :
      (m : ℕ) (c : Bytes) (cs : List Bytes)
      → first_rank ranks (c ∷ cs) < m
      → ((j : ℕ) → first_rank ranks (c ∷ cs) ≤ rank_at ranks j cs)
      → Best ranks m 0 (c ∷ cs)
  unfolding rank_at
  Best-zero m c cs low least = record {
    low = low;
    least = le-rank_at (first_rank ranks (c ∷ cs)) c cs (omega arith) least;
    first = λ j before. absurd (omega (arith, before));
  }

  Best-suc :
      (m n k : ℕ) (c : Bytes) (cs : List Bytes)
      → n ≤ m
      → n ≤ first_rank ranks (c ∷ cs)
      → Best ranks n k cs
      → Best ranks m (suc k) (c ∷ cs)
  unfolding rank_at
  Best-suc m n k c cs le above b = record {
    low = omega (arith, b.low);
    least = le-rank_at (rank_at ranks k cs) c cs (omega (arith, b.low)) b.least;
    first = λ j. elim j as (λ j. j < suc k → rank_at ranks k cs < rank_at ranks j (c ∷ cs)) [
      | zero ↦ λ before. omega (arith, b.low)
      | suc l ↦ λ before. b.first l (omega (arith, before))
    ];
  }

  found_lower :
      (i m : ℕ) (idx : Option ℕ) (c : Bytes) (cs : List Bytes) (found : Option ℕ)
      → first_rank ranks (c ∷ cs) < m
      → Lowest (suc i) (first_rank ranks (c ∷ cs)) (some i) cs found
      → Lowest i m idx (c ∷ cs) found
  found_lower i m idx c cs found low (inl (e, least)) =
      inr (0, e ∙ ap some (omega arith), Best-zero m c cs low least)
  found_lower i m idx c cs found low (inr (k, e, b)) = inr (
    suc k,
    e ∙ ap some (omega arith),
    Best-suc m (first_rank ranks (c ∷ cs)) k c cs (omega arith) (omega arith) b,
  )

  found_higher :
      (i m : ℕ) (idx : Option ℕ) (c : Bytes) (cs : List Bytes) (found : Option ℕ)
      → m ≤ first_rank ranks (c ∷ cs)
      → Lowest (suc i) m idx cs found
      → Lowest i m idx (c ∷ cs) found
  unfolding rank_at
  found_higher i m idx c cs found high (inl (e, least)) = inl (e, le-rank_at m c cs high least)
  found_higher i m idx c cs found high (inr (k, e, b)) =
      inr (suc k, e ∙ ap some (omega arith), Best-suc m m k c cs (omega arith) high b)

  lowest-Lowest :
      (off i m : ℕ) (idx : Option ℕ) (cs : List Bytes)
      → m ≤ max_rank
      → Lowest i m idx cs (lowest (parts_of off cs) i m idx)
  unfolding lowest rank_at
  lowest-Lowest off i m idx [] h = inl (refl, λ j. omega (arith, rank_at-nil ranks j))
  lowest-Lowest off i m idx (c ∷ cs) h =
      let r : ℕ = first_rank ranks (c ∷ cs) in
      let step = lowest-cons (off + length c) i m idx (record { start = off; rank = r }) cs in
      elim (Bool-cases (ltb r m)) [
        | inl e ↦
            let low : r < m = ground arith in
            subst (Lowest i m idx (c ∷ cs)) (sym (step ∙ rw e)) (
              found_lower i m idx c cs _ low
                (lowest-Lowest (off + length c) (suc i) r (some i) cs (omega arith)))
        | inr e ↦ subst (Lowest i m idx (c ∷ cs)) (sym (step ∙ rw e)) (
            found_higher i m idx c cs _ (ground arith)
              (lowest-Lowest (off + length c) (suc i) m idx cs h))
      ]

  -- The loop ends, with the chunks merged as far as they can be.
  abbrev MergesTo : List Bytes → Option (List Part) → Type 0
  MergesTo start o =
      (ds : List Bytes) × (o ≡ some (parts_of 0 ds))
      × (concat ds ≡ piece)
      × Merges ranks start ds
      × IsFinal ranks ds

  merge_loop-none :
      (fuel : ℕ) (parts : List Part)
      → lowest parts 0 max_rank none ≡ none
      → merge_loop ranks piece (suc fuel) parts ≡ some parts
  unfolding merge_loop
  merge_loop-none fuel parts e =
      ap (merged_further parts (λ i. merge_loop ranks piece fuel (merge_at ranks piece i parts))) e

  merge_loop-some :
      (fuel i : ℕ) (parts : List Part)
      → lowest parts 0 max_rank none ≡ some i
      → merge_loop ranks piece (suc fuel) parts
        ≡ merge_loop ranks piece fuel (merge_at ranks piece i parts)
  unfolding merge_loop
  merge_loop-some fuel i parts e =
      ap (merged_further parts (λ k. merge_loop ranks piece fuel (merge_at ranks piece k parts))) e

  merge_loop-MergesTo :
      (fuel : ℕ) (start cs : List Bytes)
      → concat cs ≡ piece
      → length cs < fuel
      → Merges ranks start cs
      → MergesTo start (merge_loop ranks piece fuel (parts_of 0 cs))
  merge_loop-MergesTo zero start cs whole l m = absurd (omega arith)
  merge_loop-MergesTo (suc fuel) start cs whole l m =
      elim (lowest-Lowest 0 0 max_rank none cs (omega arith)) [
        | inl (e, least) ↦ (cs, merge_loop-none fuel (parts_of 0 cs) e, whole, m, least)
        | inr (k, e, b) ↦
            let pair = rank_at-lt ranks k cs b.low in
            let e' : lowest (parts_of 0 cs) 0 max_rank none ≡ some k = e ∙ ap some (omega arith) in
            let ih =
              merge_loop-MergesTo fuel start (merge k cs) (concat-merge k cs ∙ whole)
                (omega (arith, length-merge k cs pair)) (merged k m b refl) in
            subst (MergesTo start)
              (sym (
                merge_loop-some fuel k (parts_of 0 cs) e'
                ∙ ap (merge_loop ranks piece fuel) (merge_at-parts_of k 0 cs (sym whole) pair)))
              ih
      ]

  ids-parts_of :
      (off : ℕ) (cs : List Bytes)
      → drop off piece ≡ concat cs
      → ids ranks piece (parts_of off cs) ≡ map (id_of ranks) cs
  unfolding ids
  ids-parts_of off [] h = refl
  ids-parts_of off (c ∷ []) h = ap (λ t. id_of ranks t ∷ []) (slice-chunk piece c [] off h)
  ids-parts_of off (c ∷ d ∷ cs) h =
      ap (λ t. id_of ranks t ∷ ids ranks piece (parts_of (off + length c) (d ∷ cs)))
        (slice-chunk piece c (d ∷ cs) off h)
      ∙ ap (◌∷◌ (id_of ranks c))
          (ids-parts_of (off + length c) (d ∷ cs) (drop-chunk piece c (d ∷ cs) off h))

  -- Ranks are not read by `pairRank`.
  pair_rank-start_parts :
      (p : Part) (off : ℕ) (s : Bytes)
      → pair_rank ranks piece (p ∷ start_parts off s)
        ≡ pair_rank ranks piece (p ∷ parts_of off (singles s))
  unfolding pair_rank start_parts singles
  pair_rank-start_parts p off [] = refl
  pair_rank-start_parts p off (c ∷ []) =
      ap (λ e. rank_of ranks (slice piece p.start e)) (omega arith)
  pair_rank-start_parts p off (c ∷ d ∷ s) =
      ap (λ e. rank_of ranks (slice piece p.start e)) (omega arith)

  pair_rank-end : (p : Part) → pair_rank ranks piece (p ∷ []) ≡ max_rank
  unfolding pair_rank
  pair_rank-end p = refl

  start_parts-parts_of :
      (off : ℕ) (s : Bytes)
      → drop off piece ≡ s
      → rank_parts ranks piece (start_parts off s) ≡ parts_of off (singles s)
  unfolding rank_parts start_parts singles
  start_parts-parts_of off [] h = ap (λ r. record { start = off; rank = r } ∷ []) (pair_rank-end _)
  start_parts-parts_of off (c ∷ s) h =
      let next : suc off ≡ off + length (c ∷ []) = omega arith in
      let p : Part = record { start = off; rank = max_rank } in
      let here = h ∙ sym (concat-singles (c ∷ s)) in
      let rank =
        pair_rank-start_parts p (suc off) s
        ∙ ap (λ o. pair_rank ranks piece (p ∷ parts_of o (singles s))) next
        ∙ pair_rank-parts_of off max_rank (c ∷ []) (singles s) here in
      ap (λ r. record { start = off; rank = r } ∷ rank_parts ranks piece (start_parts (suc off) s))
        rank
      ∙ ap (◌∷◌ (record { start = off; rank = first_rank ranks ((c ∷ []) ∷ singles s) })) (
          start_parts-parts_of (suc off) s
            (ap (λ o. drop o piece) next ∙ drop-drop off 1 piece ∙ ap (drop 1) h)
          ∙ ap (λ o. parts_of o (singles s)) next)

length-parts_of :
    (ranks : Bytes → Option ℕ) (piece : Bytes) (off : ℕ) (cs : List Bytes)
    → length cs < length (parts_of ranks piece off cs)
length-parts_of ranks piece off [] = omega arith
length-parts_of ranks piece off (c ∷ cs) =
    omega (arith, length-parts_of ranks piece (off + length c) cs)

-- The loop of the source ends, and gives the identifiers of the chunks that are left when the bytes
-- of the piece are merged, at each step the two neighbours whose pair has the lowest rank, the first
-- of several, until no pair of neighbours has a rank.
pub byte_pair_encode-Merges :
    (ranks : Bytes → Option ℕ) (piece : Bytes)
    → (ds : List Bytes) × (byte_pair_encode ranks piece ≡ some (map (id_of ranks) ds))
      × (concat ds ≡ piece)
      × Merges ranks (singles piece) ds
      × IsFinal ranks ds
unfolding byte_pair_encode rank_at singles
byte_pair_encode-Merges ranks [] =
    ([], refl, refl, unmerged, λ j. omega (arith, rank_at-nil ranks j))
byte_pair_encode-Merges ranks (c ∷ []) = (
  (c ∷ []) ∷ [],
  refl,
  refl,
  unmerged,
  le-rank_at ranks [] max_rank (c ∷ []) [] (omega arith) (λ j. omega (arith, rank_at-nil ranks j)),
)
byte_pair_encode-Merges ranks (c ∷ d ∷ s) =
    let piece : Bytes = c ∷ d ∷ s in
    let start = start_parts-parts_of ranks piece 0 piece refl in
    let (ds, e, whole, m, final) =
      merge_loop-MergesTo ranks piece (length (parts_of ranks piece 0 (singles piece)))
        (singles piece) (singles piece) (concat-singles piece)
        (length-parts_of ranks piece 0 (singles piece)) unmerged in
    (
      ds,
      ap (λ ps. ids_of ranks piece (merge_loop ranks piece (length ps) ps)) start
          ∙ ap (ids_of ranks piece) e
          ∙ ap some (ids-parts_of ranks piece 0 ds (sym whole)),
      whole,
      m,
      final,
    )
