-- ===== src/Parsers/Each.antt =====
-- What holds of every call holds of every call that the loops of the deduplication keep.
use kiro_gateway_go.Common.{
  Bool, true, false, ◌||◌, Option, none, some, List, [], ◌∷◌, ◌++◌, ◌≡◌, refl, sym, subst, inl, inr,
  Bool-cases, arith, if◌then◌else◌,
}
use kiro_gateway_go.Common.Bytes.{Bytes}
use kiro_gateway_go.Common.Equality.{same_bytes, same_bytes_iff}
use kiro_gateway_go.Parsers.ToolCalls.{Library, ToolCall}
use kiro_gateway_go.Parsers.Dedup.{
  updated, unless_id, replaces, put, id_of, without_id, key_of, has_key, unique,
}

abbrev pub Each {ℓ κ} : {A : Type ℓ} → (A → Type κ) → List A → Type κ
Each P [] = Unit
Each P (x ∷ xs) = P x × Each P xs

pub Each-append {ℓ κ} :
    {A : Type ℓ} (P : A → Type κ) (xs ys : List A) → Each P xs → Each P ys → Each P (xs ++ ys)
Each-append P [] ys h k = k
Each-append P (x ∷ xs) ys h k = (h.0, Each-append P xs ys h.1 k)

pub Each-weaken {ℓ κ μ} :
    {A : Type ℓ} (P : A → Type κ) (Q : A → Type μ) (xs : List A)
    → ((x : A) → P x → Q x)
    → Each P xs
    → Each Q xs
Each-weaken P Q [] f h = tt
Each-weaken P Q (x ∷ xs) f h = (f x h.0, Each-weaken P Q xs f h.1)

pub or_false : (a b : Bool) → (a || b) ≡ false → (a ≡ false) × (b ≡ false)
or_false a b h = ground arith

abbrev pub call_of : Bytes × ToolCall → ToolCall
call_of entry = entry.1

-- What `put` writes is the new entry, the new call under an old id, or an old entry.
pub put-Each :
    (P : Bytes × ToolCall → Type 0) (id : Bytes) (tc : ToolCall) (values : List (Bytes × ToolCall))
    → ((k : Bytes) → k ≡ id → P (k, tc))
    → Each P values
    → Each P (put id tc values)
unfolding put
put-Each P id tc [] new h = (new id refl, tt)
put-Each P id tc ((k, old) ∷ values) new h = elim (Bool-cases (same_bytes k id)) [
  | inl e ↦
      let first : (b : Bool) → P (updated b k old tc) = λ b.
        elim b as (λ c. P (updated c k old tc)) [
          | true ↦ new k ((same_bytes_iff k id).0 e)
          | false ↦ h.0
        ] in
      subst
        (λ b.
          Each P (
            if b then updated (replaces old tc) k old tc ∷ values else (k, old) ∷ put id tc values))
        (sym e) (first (replaces old tc), h.1)
  | inr n ↦
      subst
        (λ b.
          Each P (
            if b then updated (replaces old tc) k old tc ∷ values else (k, old) ∷ put id tc values))
        (sym n) (h.0, put-Each P id tc values new h.1)
]

module _ (l : Library) (P : ToolCall → Type 0) where
  pub unless_id-Each :
      (tc : ToolCall) (rest : List ToolCall) (id : Option Bytes)
      → (id ≡ none → P tc)
      → Each P rest
      → Each P (unless_id tc rest id)
  unless_id-Each tc rest none p h = (p refl, h)
  unless_id-Each tc rest (some id) p h = h

  pub without_id-Each :
      (calls : List ToolCall)
      → Each (λ tc. id_of l tc ≡ none → P tc) calls
      → Each P (without_id l calls)
  unfolding without_id
  without_id-Each [] h = tt
  without_id-Each (tc ∷ calls) h =
      unless_id-Each tc (without_id l calls) (id_of l tc) h.0 (without_id-Each calls h.1)

  pub unique-Each :
      (seen : List Bytes) (calls : List ToolCall) → Each P calls → Each P (unique l seen calls)
  unfolding unique
  unique-Each seen [] h = tt
  unique-Each seen (tc ∷ calls) h =
      elim (has_key l (key_of l tc) seen)
        as (λ b. Each P (elim b [
          | true ↦ unique l seen calls
          | false ↦ tc ∷ unique l (key_of l tc ∷ seen) calls
        ])) [
          | true ↦ unique-Each seen calls h.1
          | false ↦ (h.0, unique-Each (key_of l tc ∷ seen) calls h.1)
        ]
