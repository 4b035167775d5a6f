-- ===== src/ThinkingParser/Block.antt =====
-- The thinking parser inside a thinking block, when its buffer is processed.
use kiro_gateway_go.Common.{
  ℕ, ◌+◌, ◌-◌, ◌≤◌, Bool, true, false, none, some, [], ◌∷◌, ◌++◌, ◌≡◌, refl, sym, ap, ◌∙◌, arith,
  length, length-append, length-drop, take, drop, take-append-drop, str_eq, ltb→lt, ltb, inl, inr,
  Bool-cases,
}
use kiro_gateway_go.Common.Bytes.{
  Bytes, AllSpace, is_empty, index, shift, shift-zero, trim_left-split, index-split, index-drop,
  index-none-drop, index-le_length,
}
use kiro_gateway_go.ThinkingParser.{
  Parser, in_thinking, streaming, Output, handling_remove, handling_pass, process_thinking_output,
  process_thinking_buffer, silent, close_block, send_part,
}

-- The handling mode passes the thinking text on as it is.
abbrev pub KeepsText : Parser → Type 0
KeepsText p =
    (str_eq p.handling handling_remove ≡ false) × (str_eq p.handling handling_pass ≡ false)

pub process_thinking_output-KeepsText :
    (p : Parser) (t : Bytes) (is_first is_last : Bool)
    → KeepsText p
    → process_thinking_output p t is_first is_last ≡ t
unfolding process_thinking_output
process_thinking_output-KeepsText p [] f l k = refl
process_thinking_output-KeepsText p (c ∷ t) f l k = ground arith

-- A parser inside a block whose closing tag fits in what the cautious sending holds back.
pub record Inside (p : Parser) : Type 0 where
  pub in_state : p.state ≡ in_thinking
  pub closing : is_empty p.close_tag ≡ false
  pub fits : length p.close_tag ≤ p.max_tag_length
  pub keeps : KeepsText p

-- The block has ended: `k` bytes of thinking, the tag, blanks, and the regular text.
pub record Ended (close whole : Bytes) (k : ℕ) (o : Output) : Type 0 where
  pub state : o.parser.state ≡ streaming
  pub thinking_length : length o.thinking ≡ k
  pub blanks : Bytes
  pub blanks_AllSpace : AllSpace blanks
  pub text : whole ≡ o.thinking ++ (close ++ (blanks ++ o.content))

-- The block goes on: all of the text is thinking, the last part of it held back.
pub record Open (close whole : Bytes) (o : Output) : Type 0 where
  pub inside : Inside o.parser
  pub same_tag : o.parser.close_tag ≡ close
  pub silent_content : o.content ≡ []
  pub text : whole ≡ o.thinking ++ o.parser.thinking_buffer
  pub none_held : index close o.parser.thinking_buffer ≡ none
  pub found_later :
      (more : Bytes)
      → index close (whole ++ more)
        ≡ shift (length o.thinking) (index close (o.parser.thinking_buffer ++ more))

length-take : (n : ℕ) (s : Bytes) → n ≤ length s → length (take n s) ≡ n
length-take n s h = omega (
  arith,
  ap (length {A = ℕ}) (take-append-drop n s),
  length-append {0} (take n s) (drop n s),
  length-drop {0} n s,
)

process-eq_close :
    (p : Parser) (i : ℕ)
    → is_empty p.close_tag ≡ false
    → index p.close_tag p.thinking_buffer ≡ some i
    → process_thinking_buffer p ≡ close_block p i
unfolding process_thinking_buffer
process-eq_close p i h e = rw (h, e)

process-eq_send :
    (p : Parser)
    → is_empty p.close_tag ≡ false
    → index p.close_tag p.thinking_buffer ≡ none
    → ltb p.max_tag_length (length p.thinking_buffer) ≡ true
    → process_thinking_buffer p ≡ send_part p (length p.thinking_buffer - p.max_tag_length)
unfolding process_thinking_buffer
process-eq_send p h e l = rw (h, e, l)

process-eq_silent :
    (p : Parser)
    → is_empty p.close_tag ≡ false
    → index p.close_tag p.thinking_buffer ≡ none
    → ltb p.max_tag_length (length p.thinking_buffer) ≡ false
    → process_thinking_buffer p ≡ silent p
unfolding process_thinking_buffer
process-eq_silent p h e l = rw (h, e, l)

pub process-Ended :
    (p : Parser) (i : ℕ)
    → Inside p
    → index p.close_tag p.thinking_buffer ≡ some i
    → Ended p.close_tag p.thinking_buffer i (process_thinking_buffer p)
unfolding close_block
process-Ended p i h e =
    let shown =
      process_thinking_output-KeepsText p (take i p.thinking_buffer) p.is_first_thinking_chunk true
        h.keeps in
    let le = index-le_length p.close_tag p.thinking_buffer i e in
    let (ws, split, blank) = trim_left-split (drop (i + length p.close_tag) p.thinking_buffer) in
    rw (process-eq_close p i h.closing e) (record {
      state = refl;
      thinking_length = rw shown (length-take i p.thinking_buffer (omega arith));
      blanks = ws;
      blanks_AllSpace = blank;
      text = rw shown (
          index-split p.close_tag p.thinking_buffer i e
          ∙ ap (λ r. take i p.thinking_buffer ++ (p.close_tag ++ r)) split);
    })

pub process-Open :
    (p : Parser)
    → Inside p
    → index p.close_tag p.thinking_buffer ≡ none
    → Open p.close_tag p.thinking_buffer (process_thinking_buffer p)
unfolding send_part
process-Open p h e = elim (Bool-cases (ltb p.max_tag_length (length p.thinking_buffer))) [
  | inl l ↦
      let n = length p.thinking_buffer - p.max_tag_length in
      let shown =
        process_thinking_output-KeepsText p (take n p.thinking_buffer) p.is_first_thinking_chunk
          false h.keeps in
      let le : n ≤ length p.thinking_buffer = omega arith in
      rw (process-eq_send p h.closing e l) (record {
        inside = record {
          in_state = h.in_state;
          closing = h.closing;
          fits = h.fits;
          keeps = h.keeps;
        };
        same_tag = refl;
        silent_content = refl;
        text = rw shown (sym (take-append-drop n p.thinking_buffer));
        none_held = index-none-drop n p.close_tag p.thinking_buffer e;
        found_later = λ more.
            rw (shown, length-take n p.thinking_buffer le)
              (index-drop n p.close_tag p.thinking_buffer more e
                (omega (arith, ltb→lt _ _ l, h.fits)));
      })
  | inr l ↦ rw (process-eq_silent p h.closing e l) (record {
    inside = h;
    same_tag = refl;
    silent_content = refl;
    text = refl;
    none_held = e;
    found_later = λ more. sym (shift-zero _);
  })
]
