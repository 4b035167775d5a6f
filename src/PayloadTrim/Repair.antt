-- ===== src/PayloadTrim/Repair.antt =====
-- The theorems on the trimming of a payload.
use kiro_gateway_go.Common.{
  ℕ, suc, ◌+◌, ◌≤◌, Bool, true, false, not, String, Option, none, some, List, [], ◌∷◌, ltb, ◌==◌,
  if◌then◌else◌, length, drop, ◌≡◌, ◌⊎◌, inl, inr, refl, sym, ap, ◌∙◌, subst, arith, Bool-cases,
}
use kiro_gateway_go.Json.{Value, Fields, as_string, lookup}
use kiro_gateway_go.PayloadTrim.{
  ToolResult, Context, UserInput, Entry, user, assistant, convert_tool_results_to_kiro_format,
  strip_empty_tool_uses, align_to_user_message, valid_ids, is_valid, kept_results, content_texts,
  orphaned_texts, marked, with_results, repair_found, repair_results, repair_context, repair_user,
  repair_entry, repair_from, repair_orphaned_tool_results, trim_pairs, trim_payload_to_limit,
  nonempty,
}

-- Every tool result has its tool use in the entry before.
abbrev pub AllValid : List String → List ToolResult → Type 0
AllValid ids [] = Unit
AllValid ids (tr ∷ trs) = (is_valid tr.tool_use_id ids ≡ true) × AllValid ids trs

abbrev pub ResultsAnswered : List String → Option (List ToolResult) → Type 0
ResultsAnswered ids none = Unit
ResultsAnswered ids (some trs) = AllValid ids trs

abbrev pub Answered : List String → Option Context → Type 0
Answered ids none = Unit
Answered ids (some c) = ResultsAnswered ids c.tool_results

abbrev pub EntryAnswered : Option Entry → Entry → Type 0
EntryAnswered before (user u) = Answered (valid_ids before) u.context
EntryAnswered before (assistant uses) = Unit

abbrev pub NoOrphans : Option Entry → List Entry → Type 0
NoOrphans before [] = Unit
NoOrphans before (e ∷ history) = EntryAnswered before e × NoOrphans (some e) history

kept-AllValid : (ids : List String) (trs : List ToolResult) → AllValid ids (kept_results ids trs)
unfolding kept_results
kept-AllValid ids [] = tt
kept-AllValid ids (tr ∷ trs) = elim (Bool-cases (is_valid tr.tool_use_id ids)) [
  | inl e ↦
      subst (λ b. AllValid ids (if b then tr ∷ kept_results ids trs else kept_results ids trs))
        (sym e) (e, kept-AllValid ids trs)
  | inr n ↦
      subst (λ b. AllValid ids (if b then tr ∷ kept_results ids trs else kept_results ids trs))
        (sym n) (kept-AllValid ids trs)
]

length-kept_results :
    (ids : List String) (trs : List ToolResult) → length (kept_results ids trs) ≤ length trs
unfolding kept_results
length-kept_results ids [] = omega arith
length-kept_results ids (tr ∷ trs) = ground (arith, length-kept_results ids trs)

-- If no result is dropped, all have their tool use.
kept-all :
    (ids : List String) (trs : List ToolResult)
    → length (kept_results ids trs) ≡ length trs
    → AllValid ids trs
unfolding kept_results
kept-all ids [] h = tt
kept-all ids (tr ∷ trs) h = elim (Bool-cases (is_valid tr.tool_use_id ids)) [
  | inl e ↦
      let all : length (kept_results ids trs) ≡ length trs = ground arith in
      (e, kept-all ids trs all)
  | inr n ↦ absurd (ground (arith, length-kept_results ids trs))
]

with_results-Answered :
    (ids : List String) (c : Context) (trs : List ToolResult)
    → AllValid ids trs
    → Answered ids (with_results c trs)
with_results-Answered ids c [] h =
    elim c.more_keys
      as (λ b.
        Answered ids
          (if b then some (record { tool_results = none; more_keys = true }) else none)) [
            | true ↦ tt
            | false ↦ tt
          ]
with_results-Answered ids c (tr ∷ trs) h = h

repair_results-Answered :
    (ids : List String) (u : UserInput) (c : Context) (results : List ToolResult)
    → u.context ≡ some c
    → c.tool_results ≡ some results
    → Answered ids (repair_results ids u c results).context
repair_results-Answered ids u c results e f =
    let kept = kept_results ids results in
    let repaired : UserInput = record {
      content = marked u.content (orphaned_texts ids results);
      context = with_results c kept;
    } in
    elim (Bool-cases (length kept == length results)) [
      | inl same ↦
          let all = kept-all ids results (ground arith) in
          let whole : Answered ids (some c) = subst (ResultsAnswered ids) (sym f) all in
          subst (λ b. Answered ids (if not b then repaired else u).context) (sym same)
            (subst (Answered ids) (sym e) whole)
      | inr fewer ↦
          subst (λ b. Answered ids (if not b then repaired else u).context) (sym fewer)
            (with_results-Answered ids c kept (kept-AllValid ids results))
    ]

repair_found-Answered :
    (ids : List String) (u : UserInput) (c : Context) (r : Option (List ToolResult))
    → u.context ≡ some c
    → c.tool_results ≡ r
    → Answered ids (repair_found ids u c r).context
repair_found-Answered ids u c none e f =
    let whole : Answered ids (some c) = subst (ResultsAnswered ids) (sym f) tt in
    subst (Answered ids) (sym e) whole
repair_found-Answered ids u c (some results) e f = repair_results-Answered ids u c results e f

repair_context-Answered :
    (ids : List String) (u : UserInput) (c : Option Context)
    → u.context ≡ c
    → Answered ids (repair_context ids u c).context
repair_context-Answered ids u none e = subst (Answered ids) (sym e) tt
repair_context-Answered ids u (some c) e = repair_found-Answered ids u c c.tool_results e refl

repair_entry-EntryAnswered :
    (before : Option Entry) (e : Entry) → EntryAnswered before (repair_entry before e)
unfolding repair_entry repair_user
repair_entry-EntryAnswered before (user u) =
    repair_context-Answered (valid_ids before) u u.context refl
repair_entry-EntryAnswered before (assistant uses) = tt

repair_from-NoOrphans :
    (before : Option Entry) (history : List Entry) → NoOrphans before (repair_from before history)
unfolding repair_from
repair_from-NoOrphans before [] = tt
repair_from-NoOrphans before (e ∷ history) = (
  repair_entry-EntryAnswered before e,
  repair_from-NoOrphans (some (repair_entry before e)) history,
)

-- The first entry is a user entry.
abbrev pub BeginsWithUser : List Entry → Type 0
BeginsWithUser [] = Unit
BeginsWithUser (user u ∷ history) = Unit
BeginsWithUser (assistant uses ∷ history) = ⊥

aligned_repaired-BeginsWithUser :
    (history : List Entry) → BeginsWithUser (repair_from none (align_to_user_message history))
unfolding align_to_user_message repair_from repair_entry
aligned_repaired-BeginsWithUser [] = tt
aligned_repaired-BeginsWithUser (user u ∷ history) = tt
aligned_repaired-BeginsWithUser (assistant uses ∷ history) = aligned_repaired-BeginsWithUser history

module _ (size : List Entry → ℕ) (max_bytes : ℕ) where
  -- What is left of the pairs: a rest of the history from an even place on, which fits or has at
  -- most two entries.
  abbrev pub Trimmed : List Entry → List Entry → Type 0
  Trimmed history rest =
      ((k : ℕ) × (rest ≡ drop (k + k) history)) × ((size rest ≤ max_bytes) ⊎ (length rest ≤ 2))

  pub trim_pairs-Trimmed :
      (history : List Entry) → Trimmed history (trim_pairs size max_bytes history)
  unfolding trim_pairs
  trim_pairs-Trimmed [] = ((0, refl), inr (omega arith))
  trim_pairs-Trimmed (a ∷ []) = ((0, refl), inr (omega arith))
  trim_pairs-Trimmed (a ∷ b ∷ []) = ((0, refl), inr (omega arith))
  trim_pairs-Trimmed (a ∷ b ∷ c ∷ history) =
      let whole = a ∷ b ∷ c ∷ history in
      let rest = trim_pairs size max_bytes (c ∷ history) in
      elim (Bool-cases (ltb max_bytes (size whole))) [
        | inl e ↦
            let ((k, r), fits) = trim_pairs-Trimmed (c ∷ history) in
            let twice : suc k + suc k ≡ suc (suc (k + k)) = omega arith in
            subst (λ t. Trimmed whole (if t then rest else whole)) (sym e)
              ((suc k, r ∙ ap (λ n. drop n whole) (sym twice)), fits)
        | inr n ↦
            let small : size whole ≤ max_bytes = ground arith in
            subst (λ t. Trimmed whole (if t then rest else whole)) (sym n) ((0, refl), inl small)
      ]

  or_empty : Option (List Entry) → List Entry
  or_empty none = []
  or_empty (some history) = history

  -- What is left of a history that is not empty: nothing, or a history that begins with a user entry
  -- and in which every tool result answers a tool use of the entry before it. It is made from a rest
  -- of the history, whole pairs having been dropped in front, that fits the limit or has two entries
  -- at most.
  pub trim_payload_to_limit-NoOrphans :
      (e : Entry) (history : List Entry)
      → (rest : List Entry) × Trimmed (strip_empty_tool_uses (e ∷ history)) rest
        × (trim_payload_to_limit size max_bytes (some (e ∷ history))
            ≡ nonempty size max_bytes (repair_orphaned_tool_results (align_to_user_message rest)))
        × NoOrphans none (repair_orphaned_tool_results (align_to_user_message rest))
        × BeginsWithUser (repair_orphaned_tool_results (align_to_user_message rest))
  unfolding trim_payload_to_limit repair_orphaned_tool_results
  trim_payload_to_limit-NoOrphans e history =
      let rest = trim_pairs size max_bytes (strip_empty_tool_uses (e ∷ history)) in
      (
        rest,
        trim_pairs-Trimmed (strip_empty_tool_uses (e ∷ history)),
        refl,
        repair_from-NoOrphans none (align_to_user_message rest),
        aligned_repaired-BeginsWithUser rest,
      )

-- The contents of built results give no text.
built_texts :
    (str_of : Value → String) (ids : List String) (trs : List Fields)
    → orphaned_texts ids (convert_tool_results_to_kiro_format str_of trs) ≡ []
unfolding orphaned_texts convert_tool_results_to_kiro_format content_texts
built_texts str_of ids [] = refl
built_texts str_of ids (tr ∷ trs) =
    let rest = orphaned_texts ids (convert_tool_results_to_kiro_format str_of trs) in
    let same : (b : Bool) → (if b then rest else rest) ≡ rest =
      λ b. elim b as (λ c. (if c then rest else rest) ≡ rest) [ true ↦ refl | false ↦ refl ] in
    same (is_valid (as_string (lookup "tool_use_id" tr)) ids) ∙ built_texts str_of ids trs

-- A tool result that `ConvertToolResultsToKiroFormat` made and that is dropped as an orphan leaves no
-- trace: the text of the entry stays as it was, with no marker and no text of the result.
pub repair_entry-convert_tool_results_to_kiro_format :
    (str_of : Value → String) (before : Option Entry) (content : String) (more_keys : Bool)
    (trs : List Fields)
    → let results = convert_tool_results_to_kiro_format str_of trs in
      let c : Context = record { tool_results = some results; more_keys = more_keys } in
      (context : Option Context) × (repair_entry before
          (user (record { content = content; context = some c }))
        ≡ user (record { content = content; context = context }))
unfolding repair_entry repair_user
repair_entry-convert_tool_results_to_kiro_format str_of before content more_keys trs =
    let ids = valid_ids before in
    let results = convert_tool_results_to_kiro_format str_of trs in
    let c : Context = record { tool_results = some results; more_keys = more_keys } in
    let u : UserInput = record { content = content; context = some c } in
    let kept = kept_results ids results in
    let repaired : UserInput = record {
      content = marked content (orphaned_texts ids results);
      context = with_results c kept;
    } in
    let unmarked = ap (marked content) (built_texts str_of ids trs) in
    elim (Bool-cases (length kept == length results)) [
      | inl same ↦ (some c, ap (λ b. user (if not b then repaired else u)) same)
      | inr fewer ↦ (
        with_results c kept,
        ap (λ b. user (if not b then repaired else u)) fewer
            ∙ ap (λ s. user (record { content = s; context = with_results c kept })) unmarked,
      )
    ]
