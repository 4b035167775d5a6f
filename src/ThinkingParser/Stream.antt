-- ===== src/ThinkingParser/Stream.antt =====
-- The whole life of a parser: from `NewParser` through any chunks to `Finish`.
use kiro_gateway_go.Common.{
  ℕ, true, false, not, ◌||◌, String, none, some, List, [], ◌∷◌, ◌++◌, ◌⊎◌, inl, inr, ◌≡◌, refl, sym,
  ap, ◌∙◌, arith, length, ltb, drop, str_eq, Bool-cases, Option-cases, append-nil, append_assoc,
}
use kiro_gateway_go.Common.Bytes.{
  concat, Bytes, has_prefix, AllSpace, index, trim_left, trim_left-split,
}
use kiro_gateway_go.ThinkingParser.{
  Parser, pre_content, streaming, Output, silent, joined, new_parser, find_tag, still_receiving,
  could_be_tag_prefix, close_tag_of, enter_thinking, no_tag_yet, handle_pre_content,
  process_thinking_buffer, feed, feed_in, feed_all, handling_remove, handling_pass,
}
use kiro_gateway_go.ThinkingParser.Separation.{
  Separated, process-Separated, feed_all-streaming, feed_all-cons,
}
use kiro_gateway_go.ThinkingParser.Block.{KeepsText, Inside}
use kiro_gateway_go.ThinkingParser.Tags.{OneOf, FitTags, find_tag-OneOf, find_tag-final, OneOf-fits}

-- A parser that has seen no opening tag yet.
pub record Waiting (p : Parser) : Type 0 where
  pub in_state : p.state ≡ pre_content
  pub no_thinking : p.thinking_buffer ≡ []
  pub keeps : KeepsText p
  pub fits : FitTags p.open_tags p.max_tag_length
  pub no_tag : find_tag p.open_tags (trim_left p.initial_buffer) ≡ none

-- A thinking block: blanks, one of the opening tags, and what the parser does with the rest.
pub record Block (tags : List Bytes) (whole : Bytes) (o : Output) : Type 0 where
  pub blanks : Bytes
  pub tag : Bytes
  pub inner : Bytes
  pub blanks_AllSpace : AllSpace blanks
  pub tag_OneOf : OneOf tag tags
  pub text : whole ≡ blanks ++ (tag ++ inner)
  pub separated : Separated (close_tag_of tag) inner o (index (close_tag_of tag) inner)

pub data Progress (tags : List Bytes) (whole : Bytes) (o : Output) : Type 0 where
  waiting :
      o.parser.state ≡ pre_content
      → o.thinking ≡ []
      → o.content ≡ []
      → o.parser.initial_buffer ≡ whole
      → find_tag tags (trim_left whole) ≡ none
      → Progress tags whole o
  plain :
      o.parser.state ≡ streaming
      → o.thinking ≡ []
      → o.content ≡ whole
      → find_tag tags (trim_left whole) ≡ none
      → Progress tags whole o
  block : Block tags whole o → Progress tags whole o

-- The parser with the chunk in its buffer.
abbrev extended : Parser → Bytes → Parser
extended p text = record p { initial_buffer = p.initial_buffer ++ text }

feed-nil : (p : Parser) → feed p [] ≡ silent p
unfolding feed
feed-nil p = refl

feed-pre_content :
    (p : Parser) (c : ℕ) (cs : Bytes)
    → p.state ≡ pre_content
    → feed p (c ∷ cs) ≡ handle_pre_content p (c ∷ cs)
unfolding feed
feed-pre_content p c cs h = ap (λ s. feed_in s p (c ∷ cs)) h

module _ (p : Parser) (text : Bytes) where
  abbrev q : Parser
  q = extended p text

  abbrev stripped : Bytes
  stripped = trim_left q.initial_buffer

  handle-found :
      (tag : Bytes)
      → find_tag q.open_tags stripped ≡ some tag
      → handle_pre_content p text ≡ process_thinking_buffer (enter_thinking q tag stripped)
  unfolding handle_pre_content
  handle-found tag e = rw (e, handle_pre_content)

  handle-none :
      find_tag q.open_tags stripped ≡ none
      → handle_pre_content p text ≡ no_tag_yet q q.initial_buffer stripped
  unfolding handle_pre_content
  handle-none e = rw (e, handle_pre_content)

  no_tag_yet-receiving :
      still_receiving q.open_tags stripped ≡ true
      → no_tag_yet q q.initial_buffer stripped ≡ silent q
  unfolding no_tag_yet
  no_tag_yet-receiving r = rw r

  -- Past the tests of the tags the buffer is kept or sent.
  no_tag_yet-past :
      still_receiving q.open_tags stripped ≡ false
      → (no_tag_yet q q.initial_buffer stripped ≡ silent q)
        ⊎ (no_tag_yet q q.initial_buffer stripped ≡ record {
          thinking = [];
          content = q.initial_buffer;
          parser = record q { state = streaming; initial_buffer = [] };
        })
  unfolding no_tag_yet
  no_tag_yet-past r =
      elim (Bool-cases (
        ltb q.initial_buffer_size (length q.initial_buffer)
        || not (could_be_tag_prefix q stripped))) [
          | inl t ↦ inr (rw (r, t))
          | inr f ↦ inl (rw (r, f))
        ]

-- Where one step of a waiting parser leads: it waits on, or it has sent the buffer for good, or it
-- has found a tag.
data Next (p : Parser) (text : Bytes) (o : Output) : Type 0 where
  still : o ≡ silent (extended p text) → Waiting (extended p text) → Next p text o
  sent :
      o.parser.state ≡ streaming
      → o.thinking ≡ []
      → o.content ≡ p.initial_buffer ++ text
      → ((more : Bytes)
          → find_tag p.open_tags (trim_left ((p.initial_buffer ++ text) ++ more)) ≡ none)
      → Next p text o
  found :
      (tag : Bytes)
      → find_tag p.open_tags (trim_left (p.initial_buffer ++ text)) ≡ some tag
      → o
        ≡ process_thinking_buffer
            (enter_thinking (extended p text) tag (trim_left (p.initial_buffer ++ text)))
      → Next p text o

Waiting-extended :
    (p : Parser) (text : Bytes)
    → Waiting p
    → find_tag p.open_tags (trim_left (p.initial_buffer ++ text)) ≡ none
    → Waiting (extended p text)
Waiting-extended p text w e = record {
  in_state = w.in_state;
  no_thinking = w.no_thinking;
  keeps = w.keeps;
  fits = w.fits;
  no_tag = e;
}

handle_pre_content-Next :
    (p : Parser) (text : Bytes) → Waiting p → Next p text (handle_pre_content p text)
handle_pre_content-Next p text w =
    let s = trim_left (p.initial_buffer ++ text) in
    elim (Option-cases (find_tag p.open_tags s)) [
      | inr (tag, e) ↦ Next.found tag e (handle-found p text tag e)
      | inl e ↦ rw (handle-none p text e) (elim (Bool-cases (still_receiving p.open_tags s)) [
        | inl r ↦ Next.still (no_tag_yet-receiving p text r) (Waiting-extended p text w e)
        | inr r ↦ elim (no_tag_yet-past p text r) [
          | inl same ↦ Next.still same (Waiting-extended p text w e)
          | inr flushed ↦ rw flushed (
              Next.sent refl refl refl
                λ more. find_tag-final p.open_tags p.max_tag_length _ more w.fits e r)
        ]
      ])
    ]

Block-found :
    (p : Parser) (text : Bytes) (chunks : List Bytes) (tag : Bytes)
    → Waiting p
    → find_tag p.open_tags (trim_left (p.initial_buffer ++ text)) ≡ some tag
    → let o =
        process_thinking_buffer
          (enter_thinking (extended p text) tag (trim_left (p.initial_buffer ++ text))) in
      Block p.open_tags
        ((p.initial_buffer ++ text) ++ concat chunks)
        (joined o (feed_all o.parser chunks))
unfolding enter_thinking
Block-found p text chunks tag w e =
    let s = trim_left (p.initial_buffer ++ text) in
    let e' = enter_thinking (extended p text) tag s in
    let (one, split) = find_tag-OneOf p.open_tags s tag e in
    let (ws, blank_split, blank) = trim_left-split (p.initial_buffer ++ text) in
    let inside : Inside e' = record {
      in_state = refl;
      closing = refl;
      fits = OneOf-fits p.open_tags tag p.max_tag_length w.fits one;
      keeps = w.keeps;
    } in
    record {
      blanks = ws;
      tag = tag;
      inner = e'.thinking_buffer ++ concat chunks;
      blanks_AllSpace = blank;
      tag_OneOf = one;
      text =
          ap (λ r. r ++ concat chunks) (blank_split ∙ ap (λ r. ws ++ r) split)
          ∙ append_assoc ws (tag ++ drop (length tag) s) (concat chunks)
          ∙ ap (λ r. ws ++ r) (append_assoc tag (drop (length tag) s) (concat chunks))
          ∙ ap (λ b. ws ++ (tag ++ ((b ++ drop (length tag) s) ++ concat chunks)))
              (sym w.no_thinking);
      separated = process-Separated e' chunks inside;
    }

pub feed_all-Progress :
    (p : Parser) (chunks : List Bytes)
    → Waiting p
    → Progress p.open_tags (p.initial_buffer ++ concat chunks) (feed_all p chunks)
feed_all-Progress p [] w =
    rw append-nil (unfold feed_all in Progress.waiting w.in_state refl refl refl w.no_tag)
feed_all-Progress p ([] ∷ chunks) w = rw (feed_all-cons, feed-nil) (feed_all-Progress p chunks w)
feed_all-Progress p ((c ∷ cs) ∷ chunks) w =
    rw
      (
        feed_all-cons,
        feed-pre_content p c cs w.in_state,
        ← append_assoc p.initial_buffer (c ∷ cs) (concat chunks),
      )
      (elim (handle_pre_content-Next p (c ∷ cs) w) [
        | still same w' ↦ rw same (feed_all-Progress (extended p (c ∷ cs)) chunks w')
        | sent st t u never ↦
            let (t', u', same) =
              feed_all-streaming (handle_pre_content p (c ∷ cs)).parser chunks st in
            Progress.plain (rw same st) (rw (t, t')) (rw (u, u')) (never (concat chunks))
        | found tag e same ↦ rw same (Progress.block (Block-found p (c ∷ cs) chunks tag w e))
      ])

pub new_parser-Waiting :
    (handling : String) (size : ℕ)
    → str_eq handling handling_remove ≡ false
    → str_eq handling handling_pass ≡ false
    → Waiting (new_parser handling size)
unfolding new_parser find_tag trim_left has_prefix
new_parser-Waiting handling size r s = record {
  in_state = refl;
  no_thinking = refl;
  keeps = (r, s);
  fits = omega arith;
  no_tag = refl;
}
