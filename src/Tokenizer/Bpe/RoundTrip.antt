-- ===== src/Tokenizer/Bpe/RoundTrip.antt =====
-- The identifiers of a text give the text back.
use kiro_gateway_go.Common.{
  ℕ, zero, suc, ◌<◌, ◌≡◌, refl, sym, ap, ◌∙◌, subst, Option, some, List, [], ◌∷◌, ◌++◌, map,
  append_assoc, inl, inr, Option-cases, arith,
}
use kiro_gateway_go.Common.Bytes.{Bytes, concat}
use kiro_gateway_go.Tokenizer.Pretokens.{Unicode}
use kiro_gateway_go.Tokenizer.Pretokens.Lossless.{split_pretokens-Lossless}
use kiro_gateway_go.Tokenizer.Bpe.{
  max_rank, rank_or, rank_of, id_of, byte_pair_encode, appended, encode_all, encode_pieces,
  encode_ordinary,
}
use kiro_gateway_go.Tokenizer.Bpe.Chunks.{singles, merge, rank_at, Merges, unmerged, merged}
use kiro_gateway_go.Tokenizer.Bpe.Refines.{byte_pair_encode-Merges}

abbrev pub AllBytes : Bytes → Type 0
AllBytes [] = Unit
AllBytes (b ∷ s) = (b < 256) × AllBytes s

AllBytes-parts : (s t : Bytes) → AllBytes (s ++ t) → AllBytes s × AllBytes t
AllBytes-parts [] t h = (tt, h)
AllBytes-parts (b ∷ s) t h = let (p, q) = AllBytes-parts s t h.1 in ((h.0, p), q)

-- What a decoder makes of a list of identifiers.
abbrev pub decode : (ℕ → Bytes) → List ℕ → Bytes
decode token ids = concat (map token ids)

decode-append :
    (token : ℕ → Bytes) (xs ys : List ℕ)
    → decode token (xs ++ ys) ≡ decode token xs ++ decode token ys
decode-append token [] ys = refl
decode-append token (x ∷ xs) ys =
    ap (λ t. token x ++ t) (decode-append token xs ys)
    ∙ sym (append_assoc (token x) (decode token xs) (decode token ys))

-- The vocabulary: every single byte has a rank, and no two tokens have the same one.
pub record IsVocabulary (ranks : Bytes → Option ℕ) (token : ℕ → Bytes) : Type 0 where
  pub has_bytes : (b : ℕ) → b < 256 → (r : ℕ) × (ranks (b ∷ []) ≡ some r)
  pub inverse : (s : Bytes) (r : ℕ) → ranks s ≡ some r → token r ≡ s

module _ {ranks : Bytes → Option ℕ} {token : ℕ → Bytes} (v : IsVocabulary ranks token) where
  abbrev AllKnown : List Bytes → Type 0
  AllKnown [] = Unit
  AllKnown (c ∷ cs) = ((r : ℕ) × (ranks c ≡ some r)) × AllKnown cs

  singles-AllKnown : (s : Bytes) → AllBytes s → AllKnown (singles s)
  unfolding singles
  singles-AllKnown [] h = tt
  singles-AllKnown (b ∷ s) h = (v.has_bytes b h.0, singles-AllKnown s h.1)

  known : (s : Bytes) → rank_of ranks s < max_rank → (r : ℕ) × (ranks s ≡ some r)
  known s h = elim (Option-cases (ranks s)) [
    | inl e ↦ absurd (omega (arith, ap (rank_or max_rank) e))
    | inr (r, e) ↦ (r, e)
  ]

  merge-AllKnown :
      (i : ℕ) (cs : List Bytes)
      → rank_at ranks i cs < max_rank
      → AllKnown cs
      → AllKnown (merge i cs)
  unfolding merge rank_at
  merge-AllKnown zero [] h k = k
  merge-AllKnown zero (a ∷ []) h k = k
  merge-AllKnown zero (a ∷ b ∷ cs) h k = (known (a ++ b) h, k.1.1)
  merge-AllKnown (suc i) [] h k = k
  merge-AllKnown (suc i) (a ∷ cs) h k = (k.0, merge-AllKnown i cs h k.1)

  Merges-AllKnown : {start cs : List Bytes} → Merges ranks start cs → AllKnown start → AllKnown cs
  Merges-AllKnown unmerged k = k
  Merges-AllKnown (merged {cs} i m b e) k =
      subst AllKnown (sym e) (merge-AllKnown i cs b.low (Merges-AllKnown m k))

  token-id_of : (c : Bytes) (r : ℕ) → ranks c ≡ some r → token (id_of ranks c) ≡ c
  token-id_of c r e = ap token (ap (rank_or 0) e) ∙ v.inverse c r e

  decode-ids : (cs : List Bytes) → AllKnown cs → decode token (map (id_of ranks) cs) ≡ concat cs
  decode-ids [] k = refl
  decode-ids (c ∷ cs) ((r, e), k) =
      ap (λ t. t ++ decode token (map (id_of ranks) cs)) (token-id_of c r e)
      ∙ ap (λ t. c ++ t) (decode-ids cs k)

  -- The identifiers of a piece, from which the piece can be read back.
  abbrev Decodes : Bytes → Option (List ℕ) → Type 0
  Decodes s o = (ids : List ℕ) × (o ≡ some ids) × (decode token ids ≡ s)

  byte_pair_encode-Decodes :
      (piece : Bytes) → AllBytes piece → Decodes piece (byte_pair_encode ranks piece)
  byte_pair_encode-Decodes piece h =
      let (ds, e, whole, m, final) = byte_pair_encode-Merges ranks piece in
      (
        map (id_of ranks) ds,
        e,
        decode-ids ds (Merges-AllKnown m (singles-AllKnown piece h)) ∙ whole,
      )

  encode_all-Decodes :
      (pieces : List Bytes)
      → AllBytes (concat pieces)
      → Decodes (concat pieces) (encode_all ranks pieces)
  unfolding encode_all
  encode_all-Decodes [] h = ([], refl, refl)
  encode_all-Decodes (p ∷ pieces) h =
      let (hp, hs) = AllBytes-parts p (concat pieces) h in
      let (xs, ex, dx) = byte_pair_encode-Decodes p hp in
      let (ys, ey, dy) = encode_all-Decodes pieces hs in
      let ex' : byte_pair_encode ranks p ≡ some xs = ex in
      let ey' : encode_all ranks pieces ≡ some ys = ey in
      (
        xs ++ ys,
        ap (λ o. appended o (encode_all ranks pieces)) ex' ∙ ap (appended (some xs)) ey',
        decode-append token xs ys ∙ ap (λ t. t ++ decode token ys) dx ∙ ap (λ t. p ++ t) dy,
      )

  -- Provided that every byte has a rank and no two tokens share one, the encoding of every text of
  -- bytes ends, and the tokens of the identifiers one behind the other are the text.
  pub encode_ordinary-decode :
      (u : Unicode) (text : Bytes)
      → AllBytes text
      → (ids : List ℕ) × (encode_ordinary ranks u text ≡ some ids) × (decode token ids ≡ text)
  unfolding encode_ordinary
  encode_ordinary-decode u [] h = ([], refl, refl)
  encode_ordinary-decode u (c ∷ s) h =
      let (pieces, e, whole, full) = split_pretokens-Lossless u (c ∷ s) in
      let (ids, ei, d) = encode_all-Decodes pieces (subst AllBytes (sym whole) h) in
      (ids, ap (encode_pieces ranks) e ∙ ei, d ∙ whole)
