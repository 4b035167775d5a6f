-- ===== src/ThinkingParser/Tags.antt =====
-- When the opening tag is recognised: the decision of `handlePreContent` on a part of the text is
-- final for all of the text.
use kiro_gateway_go.Common.{
  ℕ, ◌+◌, ◌≤◌, ◌<◌, false, ◌&&◌, none, some, List, [], ◌∷◌, ◌++◌, ◌⊎◌, inl, inr, ◌≡◌, ◌≢◌, refl,
  arith, length, ltb, Bool-cases, drop,
}
use kiro_gateway_go.Common.Bytes.{Bytes, has_prefix, has_prefix-split, trim_left, is_space}
use kiro_gateway_go.ThinkingParser.{close_tag_of, find_tag, still_receiving}

abbrev pub OneOf : Bytes → List Bytes → Type 0
OneOf tag [] = ⊥
OneOf tag (t ∷ tags) = (tag ≡ t) ⊎ OneOf tag tags

pub find_tag-OneOf :
    (tags : List Bytes) (s tag : Bytes)
    → find_tag tags s ≡ some tag
    → OneOf tag tags × (s ≡ tag ++ drop (length tag) s)
unfolding find_tag
find_tag-OneOf [] s tag h = cc
find_tag-OneOf (t ∷ tags) s tag h = elim (Bool-cases (has_prefix t s)) [
  | inl e ↦ ground (arith, has_prefix-split t s)
  | inr e ↦ let (one, split) = find_tag-OneOf tags s tag (rw e at h) in (inr one, split)
]

mismatch :
    (tag s more : Bytes)
    → has_prefix tag s ≡ false
    → (has_prefix s tag && ltb (length s) (length tag)) ≡ false
    → has_prefix tag (s ++ more) ≡ false
unfolding has_prefix
mismatch [] s more h r = cc
mismatch (x ∷ t) [] more h r = absurd (ground arith)
mismatch (x ∷ t) (y ∷ s) more h r = ground (arith, mismatch t s more)

pub find_tag-append :
    (tags : List Bytes) (s more : Bytes)
    → find_tag tags s ≡ none
    → still_receiving tags s ≡ false
    → find_tag tags (s ++ more) ≡ none
unfolding find_tag still_receiving
find_tag-append [] s more h r = refl
find_tag-append (t ∷ tags) s more h r =
    ground (arith, mismatch t s more, find_tag-append tags s more)

pub trim_left-append :
    (s more : Bytes) → trim_left s ≢ [] → trim_left (s ++ more) ≡ trim_left s ++ more
unfolding trim_left
trim_left-append [] more h = absurd (h refl)
trim_left-append (c ∷ s) more h = elim (Bool-cases (is_space c)) [
  | inl e ↦ rw (e, trim_left-append s more (rw e at h))
  | inr e ↦ rw e
]

-- No tag is empty, and the closing tag of each fits in what is held back.
abbrev pub FitTags : List Bytes → ℕ → Type 0
FitTags [] n = Unit
FitTags (t ∷ tags) n = (0 < length t) × (length t + 1 ≤ n) × FitTags tags n

length-close_tag_of : (tag : Bytes) → 0 < length tag → length (close_tag_of tag) ≡ length tag + 1
length-close_tag_of [] h = elim h [ ]
length-close_tag_of (c ∷ tag) h = omega arith

pub OneOf-fits :
    (tags : List Bytes) (tag : Bytes) (n : ℕ)
    → FitTags tags n
    → OneOf tag tags
    → length (close_tag_of tag) ≤ n
OneOf-fits [] tag n f h = elim h [ ]
OneOf-fits (t ∷ tags) tag n f (inl e) = rw (e, length-close_tag_of t f.0) f.1
OneOf-fits (t ∷ tags) tag n f (inr h) = OneOf-fits tags tag n f.2 h

-- Blanks alone never settle the question.
still_receiving-nil :
    (tags : List Bytes) (n : ℕ) (s : Bytes)
    → FitTags tags n
    → still_receiving tags [] ≡ false
    → find_tag tags s ≡ none
unfolding find_tag still_receiving has_prefix
still_receiving-nil [] n s f h = refl
still_receiving-nil (t ∷ tags) n s f h = absurd (ground arith)

empty-cases : (s : Bytes) → (s ≡ []) ⊎ (s ≢ [])
empty-cases [] = inl refl
empty-cases (c ∷ s) = inr (λ e. cc)

pub find_tag-final :
    (tags : List Bytes) (n : ℕ) (s more : Bytes)
    → FitTags tags n
    → find_tag tags (trim_left s) ≡ none
    → still_receiving tags (trim_left s) ≡ false
    → find_tag tags (trim_left (s ++ more)) ≡ none
find_tag-final tags n s more f h r = elim (empty-cases (trim_left s)) [
  | inl e ↦ still_receiving-nil tags n _ f (rw e at r)
  | inr ne ↦ rw (trim_left-append s more ne) (find_tag-append tags (trim_left s) more h r)
]
