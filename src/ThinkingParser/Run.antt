-- ===== src/ThinkingParser/Run.antt =====
-- The theorems on a whole stream, and `Reset`.
use kiro_gateway_go.Common.{
  ℕ, false, String, Option, none, some, List, [], ◌∷◌, ◌++◌, ◌≡◌, refl, sym, ap, ◌∙◌, arith, str_eq,
  append-nil, Option-cases, inl, inr,
}
use kiro_gateway_go.Common.Bytes.{concat, Bytes, AllSpace, index, trim_left}
use kiro_gateway_go.ThinkingParser.{
  Parser, State, pre_content, in_thinking, streaming, Output, silent, joined, new_parser, find_tag,
  new_parser_with_tags, handling_remove, handling_pass, close_tag_of, process_thinking_buffer,
  close_block, send_part, feed, feed_in, feed_all, finish, finish_in, run, reset, default_open_tags,
  handle_pre_content, handle_in_thinking, handle_streaming, enter_thinking, no_tag_yet,
}
use kiro_gateway_go.ThinkingParser.Separation.{Separated}
use kiro_gateway_go.ThinkingParser.Block.{KeepsText, Ended, process_thinking_output-KeepsText}
use kiro_gateway_go.ThinkingParser.Tags.{OneOf}
use kiro_gateway_go.ThinkingParser.Stream.{Progress, feed_all-Progress, new_parser-Waiting}

-- How a finished stream was read: `inner` is what follows the opening tag.
abbrev pub BlockRead : Bytes → Bytes → Output → Option ℕ → Type 0
BlockRead close inner o none = (o.thinking ≡ inner) × (o.content ≡ [])
BlockRead close inner o (some k) = Ended close inner k o

pub data Reading (tags : List Bytes) (whole : Bytes) (o : Output) : Type 0 where
  plain :
      o.thinking ≡ []
      → o.content ≡ whole
      → find_tag tags (trim_left whole) ≡ none
      → Reading tags whole o
  block :
      (blanks tag inner : Bytes)
      → AllSpace blanks
      → OneOf tag tags
      → whole ≡ blanks ++ (tag ++ inner)
      → BlockRead (close_tag_of tag) inner o (index (close_tag_of tag) inner)
      → Reading tags whole o

finish-pre_content :
    (p : Parser)
    → p.state ≡ pre_content
    → ((finish p).thinking ≡ []) × ((finish p).content ≡ p.initial_buffer)
unfolding finish
finish-pre_content p h = rw h (refl, refl)

finish-streaming : (p : Parser) → p.state ≡ streaming → finish p ≡ silent p
unfolding finish
finish-streaming p h = ap (λ s. finish_in s p) h

finish-in_thinking :
    (p : Parser)
    → p.state ≡ in_thinking
    → KeepsText p
    → ((finish p).thinking ≡ p.thinking_buffer) × ((finish p).content ≡ [])
unfolding finish
finish-in_thinking p h keeps =
    let e = ap (λ s. finish_in s p) h in
    (
      ap (λ (o : Output). o.thinking) e
          ∙ process_thinking_output-KeepsText p p.thinking_buffer _ _ keeps,
      ap (λ (o : Output). o.content) e,
    )

BlockRead-finish :
    (close inner : Bytes) (o : Output) (r : Option ℕ)
    → Separated close inner o r
    → BlockRead close inner (joined o (finish o.parser)) r
BlockRead-finish close inner o none (s, c, t, keeps) =
    let (t', c') = finish-in_thinking o.parser s keeps in
    (ap (◌++◌ o.thinking) t' ∙ sym t, rw (c, c'))
BlockRead-finish close inner o (some k) h = rw (finish-streaming o.parser h.state) (record {
  state = h.state;
  thinking_length = rw append-nil h.thinking_length;
  blanks = h.blanks;
  blanks_AllSpace = h.blanks_AllSpace;
  text = rw (append-nil, append-nil) h.text;
})

Reading-finish :
    (tags : List Bytes) (whole : Bytes) (o : Output)
    → Progress tags whole o
    → Reading tags whole (joined o (finish o.parser))
Reading-finish tags whole o (Progress.waiting s t c b never) =
    let (t', c') = finish-pre_content o.parser s in Reading.plain (rw (t, t')) (rw (c, c') b) never
Reading-finish tags whole o (Progress.plain s t c never) =
    rw (finish-streaming o.parser s) (Reading.plain (rw t) (rw append-nil c) never)
Reading-finish tags whole o (Progress.block b) =
    Reading.block b.blanks b.tag b.inner b.blanks_AllSpace b.tag_OneOf b.text
      (BlockRead-finish (close_tag_of b.tag) b.inner o _ b.separated)

-- However a response is cut into chunks, and whatever the buffer size, a parser of `NewParser` that
-- keeps the thinking text reads it so: a text that begins, behind blanks, with no opening tag is
-- all regular content. Otherwise the text is blanks, a tag and a rest; up to the first closing tag
-- the rest is the thinking output, and what follows that tag, less some blanks, is the content.
-- With no closing tag the whole rest is thinking.
pub run-Reading :
    (handling : String) (size : ℕ) (chunks : List Bytes)
    → str_eq handling handling_remove ≡ false
    → str_eq handling handling_pass ≡ false
    → Reading default_open_tags (concat chunks) (run (new_parser handling size) chunks)
unfolding run new_parser
run-Reading handling size chunks r s =
    Reading-finish default_open_tags (concat chunks) _
      (feed_all-Progress (new_parser handling size) chunks (new_parser-Waiting handling size r s))

-- The settings of a parser are what `NewParser` was given.
pub record SameSettings (p q : Parser) : Type 0 where
  pub handling : p.handling ≡ q.handling
  pub initial_buffer_size : p.initial_buffer_size ≡ q.initial_buffer_size
  pub open_tags : p.open_tags ≡ q.open_tags
  pub max_tag_length : p.max_tag_length ≡ q.max_tag_length

process-SameSettings : (p : Parser) → SameSettings (process_thinking_buffer p).parser p
unfolding process_thinking_buffer close_block send_part
process-SameSettings p = ground arith

SameSettings-trans : {p q r : Parser} → SameSettings p q → SameSettings q r → SameSettings p r
SameSettings-trans a b = ground arith

no_tag_yet-SameSettings :
    (p : Parser) (buffer stripped : Bytes) → SameSettings (no_tag_yet p buffer stripped).parser p
unfolding no_tag_yet
no_tag_yet-SameSettings p buffer stripped = ground arith

handle_pre_content-SameSettings :
    (p : Parser) (text : Bytes) → SameSettings (handle_pre_content p text).parser p
unfolding handle_pre_content enter_thinking
handle_pre_content-SameSettings p text =
    let q = record p { initial_buffer = p.initial_buffer ++ text } in
    let s = trim_left q.initial_buffer in
    elim (Option-cases (find_tag q.open_tags s)) [
      | inl e ↦
          rw (e, handle_pre_content)
            (SameSettings-trans {q = q} (no_tag_yet-SameSettings q q.initial_buffer s) (record {
              handling = refl;
              initial_buffer_size = refl;
              open_tags = refl;
              max_tag_length = refl;
            }))
      | inr (tag, e) ↦
          rw (e, handle_pre_content)
            (SameSettings-trans {q = enter_thinking q tag s}
              (process-SameSettings (enter_thinking q tag s))
              (record {
                handling = refl;
                initial_buffer_size = refl;
                open_tags = refl;
                max_tag_length = refl;
              }))
    ]

feed_in-SameSettings :
    (s : State) (p : Parser) (text : Bytes) → SameSettings (feed_in s p text).parser p
unfolding feed_in handle_in_thinking handle_streaming
feed_in-SameSettings pre_content p text = handle_pre_content-SameSettings p text
feed_in-SameSettings in_thinking p text =
    let q = record p { thinking_buffer = p.thinking_buffer ++ text } in
    SameSettings-trans {q = q} (process-SameSettings q) (record {
      handling = refl;
      initial_buffer_size = refl;
      open_tags = refl;
      max_tag_length = refl;
    })
feed_in-SameSettings streaming p text = ground arith

feed-SameSettings : (p : Parser) (chunk : Bytes) → SameSettings (feed p chunk).parser p
unfolding feed
feed-SameSettings p [] = ground arith
feed-SameSettings p (c ∷ cs) = feed_in-SameSettings p.state p (c ∷ cs)

feed_all-SameSettings :
    (p : Parser) (chunks : List Bytes) → SameSettings (feed_all p chunks).parser p
unfolding feed_all
feed_all-SameSettings p [] = ground arith
feed_all-SameSettings p (chunk ∷ chunks) =
    SameSettings-trans (feed_all-SameSettings (feed p chunk).parser chunks)
      (feed-SameSettings p chunk)

-- `Reset` after any chunks gives the parser that `NewParserWithTags` gave, so nothing of one
-- stream can reach the next.
pub reset-feed_all :
    (handling : String) (size : ℕ) (tags : List Bytes) (chunks : List Bytes)
    → let p = new_parser_with_tags handling size tags in reset (feed_all p chunks).parser ≡ p
unfolding reset new_parser_with_tags
reset-feed_all handling size tags chunks =
    ground (arith, feed_all-SameSettings (new_parser_with_tags handling size tags) chunks)
