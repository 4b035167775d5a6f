-- ===== src/ThinkingParser/Late.antt =====
-- Regular text comes only from the last state, and from there no thinking text comes.
use kiro_gateway_go.Common.{[], ◌∷◌, ◌++◌, ◌≡◌, ◌∙◌, ◌⊎◌, inl, inr, refl, ap, arith, Option-cases}
use kiro_gateway_go.Common.Bytes.{Bytes, trim_left}
use kiro_gateway_go.ThinkingParser.{
  Parser, State, pre_content, in_thinking, streaming, Output, process_thinking_buffer, close_block,
  send_part, find_tag, no_tag_yet, handle_pre_content, enter_thinking, handle_in_thinking,
  handle_streaming, feed, feed_in, finish, finish_in,
}

abbrev pub Late : Output → Type 0
Late o = (o.content ≡ []) ⊎ (o.parser.state ≡ streaming)

process-Late : (p : Parser) → Late (process_thinking_buffer p)
unfolding process_thinking_buffer close_block send_part
process-Late p = ground arith

no_tag_yet-Late : (p : Parser) (buffer stripped : Bytes) → Late (no_tag_yet p buffer stripped)
unfolding no_tag_yet
no_tag_yet-Late p buffer stripped = ground arith

handle_pre_content-Late : (p : Parser) (text : Bytes) → Late (handle_pre_content p text)
unfolding handle_pre_content
handle_pre_content-Late p text =
    let q = record p { initial_buffer = p.initial_buffer ++ text } in
    let s = trim_left q.initial_buffer in
    elim (Option-cases (find_tag q.open_tags s)) [
      | inl e ↦ rw (e, handle_pre_content) (no_tag_yet-Late q q.initial_buffer s)
      | inr (tag, e) ↦ rw (e, handle_pre_content) (process-Late (enter_thinking q tag s))
    ]

feed_in-Late : (s : State) (p : Parser) (text : Bytes) → p.state ≡ s → Late (feed_in s p text)
unfolding feed_in handle_in_thinking handle_streaming
feed_in-Late pre_content p text h = handle_pre_content-Late p text
feed_in-Late in_thinking p text h =
    process-Late (record p { thinking_buffer = p.thinking_buffer ++ text })
feed_in-Late streaming p text h = inr h

pub feed-Late : (p : Parser) (text : Bytes) → Late (feed p text)
unfolding feed
feed-Late p [] = inl refl
feed-Late p (c ∷ text) = feed_in-Late p.state p (c ∷ text) refl

pub feed-streaming :
    (p : Parser) (text : Bytes)
    → p.state ≡ streaming
    → ((feed p text).thinking ≡ []) × ((feed p text).parser.state ≡ streaming)
unfolding feed feed_in handle_streaming
feed-streaming p [] h = (refl, h)
feed-streaming p (c ∷ text) h =
    let e = ap (λ s. feed_in s p (c ∷ text)) h in
    (ap (λ (o : Output). o.thinking) e, ap (λ (o : Output). o.parser.state) e ∙ h)

pub finish-no_thinking : (p : Parser) → p.state ≡ streaming → (finish p).thinking ≡ []
unfolding finish finish_in
finish-no_thinking p h = ap (λ s. (finish_in s p).thinking) h
