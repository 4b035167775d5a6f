-- ===== src/ThinkingParser/Separation.antt =====
-- What the parser does from inside a thinking block, whatever the chunks are.
use kiro_gateway_go.Common.{
  ℕ, ◌+◌, Option, none, some, List, [], ◌∷◌, ◌++◌, ◌⊎◌, ◌≡◌, refl, sym, ap, ◌∙◌, length,
  length-append, append-nil, append_assoc, inl, inr, Option-cases,
}
use kiro_gateway_go.Common.Bytes.{concat, Bytes, index, shift, shift-zero, index-append}
use kiro_gateway_go.ThinkingParser.{
  Parser, in_thinking, streaming, Output, process_thinking_buffer, feed, feed_all,
  handle_in_thinking, handle_streaming, joined,
}
use kiro_gateway_go.ThinkingParser.Block.{
  KeepsText, Inside, Ended, Open, process-Ended, process-Open,
}

feed-in_thinking :
    (p : Parser) (c : ℕ) (cs : Bytes)
    → p.state ≡ in_thinking
    → feed p (c ∷ cs)
      ≡ process_thinking_buffer (record p { thinking_buffer = p.thinking_buffer ++ c ∷ cs })
unfolding feed handle_in_thinking
feed-in_thinking p c cs h = rw h

-- What one chunk does to a parser inside a block that holds no closing tag.
feed-Inside :
    (p : Parser) (chunk : Bytes)
    → Inside p
    → index p.close_tag p.thinking_buffer ≡ none
    → Open p.close_tag (p.thinking_buffer ++ chunk) (feed p chunk)
      ⊎ ((k : ℕ) × (index p.close_tag (p.thinking_buffer ++ chunk) ≡ some k)
          × Ended p.close_tag (p.thinking_buffer ++ chunk) k (feed p chunk))
feed-Inside p [] h e = inl (
    unfold feed in
    rw append-nil (record {
      inside = h;
      same_tag = refl;
      silent_content = refl;
      text = refl;
      none_held = e;
      found_later = λ more. sym (shift-zero _);
    }))
feed-Inside p (c ∷ cs) h e =
    let q = record p { thinking_buffer = p.thinking_buffer ++ c ∷ cs } in
    let hq : Inside q = record {
      in_state = h.in_state;
      closing = h.closing;
      fits = h.fits;
      keeps = h.keeps;
    } in
    rw (feed-in_thinking p c cs h.in_state)
      (elim (Option-cases (index q.close_tag q.thinking_buffer)) [
        | inl n ↦ inl (process-Open q hq n)
        | inr (k, found) ↦ inr (k, found, process-Ended q k hq found)
      ])

feed-streaming :
    (p : Parser) (chunk : Bytes)
    → p.state ≡ streaming
    → feed p chunk ≡ record { thinking = []; content = chunk; parser = p }
unfolding feed handle_streaming
feed-streaming p [] h = refl
feed-streaming p (c ∷ cs) h = rw h

-- Once the block has ended, chunks are regular text.
pub feed_all-streaming :
    (p : Parser) (chunks : List Bytes)
    → p.state ≡ streaming
    → ((feed_all p chunks).thinking ≡ [])
      × ((feed_all p chunks).content ≡ concat chunks)
      × ((feed_all p chunks).parser ≡ p)
unfolding feed_all
feed_all-streaming p [] h = (refl, refl, refl)
feed_all-streaming p (chunk ∷ chunks) h =
    let (t, c, same) = feed_all-streaming p chunks h in
    rw (feed-streaming p chunk h) (t, ap (◌++◌ chunk) c, same)

pub feed_all-cons :
    (p : Parser) (chunk : Bytes) (chunks : List Bytes)
    → feed_all p (chunk ∷ chunks) ≡ joined (feed p chunk) (feed_all (feed p chunk).parser chunks)
unfolding feed_all
feed_all-cons p chunk chunks = refl

abbrev pub Separated : Bytes → Bytes → Output → Option ℕ → Type 0
Separated close whole o none =
    (o.parser.state ≡ in_thinking)
    × (o.content ≡ [])
    × (whole ≡ o.thinking ++ o.parser.thinking_buffer)
    × KeepsText o.parser
Separated close whole o (some k) = Ended close whole k o

-- A step of the block before what the rest of the chunks does.
Separated-Open :
    {close whole : Bytes} (more : Bytes) (o later : Output) (r : Option ℕ)
    → Open close whole o
    → Separated close (o.parser.thinking_buffer ++ more) later r
    → Separated close (whole ++ more) (joined o later) (shift (length o.thinking) r)
Separated-Open more o later none h (s, c, t, keeps) = (
  s,
  rw (h.silent_content, c) refl,
  ap (λ w. w ++ more) h.text
      ∙ append_assoc o.thinking o.parser.thinking_buffer more
      ∙ ap (λ r. o.thinking ++ r) t
      ∙ sym (append_assoc o.thinking later.thinking later.parser.thinking_buffer),
  keeps,
)
Separated-Open more o later (some k) h e = record {
  state = e.state;
  thinking_length =
      length-append o.thinking later.thinking ∙ ap (λ n. length o.thinking + n) e.thinking_length;
  blanks = e.blanks;
  blanks_AllSpace = e.blanks_AllSpace;
  text =
      ap (λ w. w ++ more) h.text
      ∙ append_assoc o.thinking o.parser.thinking_buffer more
      ∙ ap (λ r. o.thinking ++ r) e.text
      ∙ rw h.silent_content (sym (append_assoc o.thinking later.thinking _));
}

Ended-streaming :
    {close whole rest : Bytes} {k : ℕ} {o later : Output}
    → Ended close whole k o
    → (later.thinking ≡ []) × (later.content ≡ rest) × (later.parser ≡ o.parser)
    → Ended close (whole ++ rest) k (joined o later)
Ended-streaming {rest = rest} {o = o} {later = later} h (t, c, same) = record {
  state = rw same h.state;
  thinking_length = rw (t, append-nil) h.thinking_length;
  blanks = h.blanks;
  blanks_AllSpace = h.blanks_AllSpace;
  text = rw (h.text, t, c) (simp (append-nil, append_assoc));
}

-- However a text is cut into chunks, the parser inside a thinking block sends as thinking exactly
-- the bytes before the first closing tag. What follows that tag and some blanks is the content.
-- While no closing tag has come, the thinking that was sent and the bytes held back are the text.
pub feed_all-Separated :
    (p : Parser) (chunks : List Bytes)
    → Inside p
    → index p.close_tag p.thinking_buffer ≡ none
    → Separated p.close_tag
        (p.thinking_buffer ++ concat chunks)
        (feed_all p chunks)
        (index p.close_tag (p.thinking_buffer ++ concat chunks))
feed_all-Separated p [] h e =
    rw (append-nil, e) (unfold feed_all in (h.in_state, refl, refl, h.keeps))
feed_all-Separated p (chunk ∷ chunks) h e = elim (feed-Inside p chunk h e) [
  | inl o ↦
      let later =
        feed_all-Separated (feed p chunk).parser chunks o.inside (rw o.same_tag o.none_held) in
      rw
        (
          feed_all-cons,
          ← append_assoc p.thinking_buffer chunk (concat chunks),
          o.found_later (concat chunks),
        )
        (Separated-Open (concat chunks) (feed p chunk) _ _ o (rw o.same_tag at later))
  | inr (k, found, o) ↦
      rw
        (
          feed_all-cons,
          ← append_assoc p.thinking_buffer chunk (concat chunks),
          index-append _ _ (concat chunks) k found,
        )
        (Ended-streaming o (feed_all-streaming (feed p chunk).parser chunks o.state))
]

-- The same from a buffer that is yet to be processed.
pub process-Separated :
    (p : Parser) (chunks : List Bytes)
    → Inside p
    → Separated p.close_tag
        (p.thinking_buffer ++ concat chunks)
        (joined (process_thinking_buffer p) (feed_all (process_thinking_buffer p).parser chunks))
        (index p.close_tag (p.thinking_buffer ++ concat chunks))
process-Separated p chunks h = elim (Option-cases (index p.close_tag p.thinking_buffer)) [
  | inl e ↦
      let o = process-Open p h e in
      let q = (process_thinking_buffer p).parser in
      let later = feed_all-Separated q chunks o.inside (rw o.same_tag o.none_held) in
      rw (o.found_later (concat chunks))
        (Separated-Open (concat chunks) (process_thinking_buffer p) _ _ o (rw o.same_tag at later))
  | inr (k, found) ↦
      let o = process-Ended p k h found in
      rw (index-append _ _ (concat chunks) k found)
        (Ended-streaming o (feed_all-streaming (process_thinking_buffer p).parser chunks o.state))
]
