-- ===== src/StreamingAnthropic/Response.antt =====
-- The pipeline, the formatter and the loop together: what a client reads of a whole response.
use kiro_gateway_go.Common.{
  ℕ, sym, Bool, true, false, String, Option, some, List, [], ◌∷◌, ◌≡◌, inl, refl, subst,
}
use kiro_gateway_go.Common.Bytes.{Bytes}
use kiro_gateway_go.Parsers.ToolCalls.{Library}
use kiro_gateway_go.Parsers.Dedup as Dedup
use kiro_gateway_go.Parsers.Events as Events
use kiro_gateway_go.StreamingCore.Panics.{TextIds, finish_iff}
use kiro_gateway_go.StreamingCore.{KiroEvent, AllInOrder, all_seen_after}
use kiro_gateway_go.StreamingCore.Pipeline.{
  Pipeline, new_pipeline, tool_uses, extract_tool_use_data, add_tool_use,
}
use kiro_gateway_go.StreamingCore.Pipeline as Pipeline
use kiro_gateway_go.StreamingCore.Order.{feed-AllInOrder, finish-AllInOrder}
use kiro_gateway_go.StreamingCore.Steps.{Behind}
use kiro_gateway_go.StreamingAnthropic.{
  ThinkingHandling, as_reasoning_content, include_as_text, strip, Environment, Output, Settings,
  new,
}
use kiro_gateway_go.StreamingAnthropic.Handle.{emit_message_start, handle_all}
use kiro_gateway_go.StreamingAnthropic.Finish.{finish}
use kiro_gateway_go.StreamingAnthropic.Protocol.{receive, receive_all, next_phase, kept}
use kiro_gateway_go.StreamingAnthropic.Agreement.{Texts, Agrees, closed-Quiet}
use kiro_gateway_go.StreamingAnthropic.Modes.{handle-Agrees}
use kiro_gateway_go.StreamingAnthropic.Finished.{Complete, finish-Complete}
use kiro_gateway_go.StreamingAnthropic.Drive.{
  end_of_file, read_error, Driven, drive_chunk, drive_chunks, conclude, drive_pipeline,
}

new-Texts : (h : ThinkingHandling) → Texts h [] [] new
unfolding new
new-Texts as_reasoning_content = (refl, refl)
new-Texts include_as_text = refl
new-Texts strip = (refl, refl)

module _ (env : Environment) (cfg : Settings) where
  pub handle_all-Agrees :
      (es : List KiroEvent) (seen : Bool) (o : Output)
      → AllInOrder seen es
      → Agrees cfg.thinking_handling seen o
      → Agrees cfg.thinking_handling (all_seen_after seen es) (handle_all env cfg es o)
  unfolding handle_all all_seen_after
  handle_all-Agrees [] seen o h a = a
  handle_all-Agrees (e ∷ es) seen o h a =
      handle_all-Agrees es _ _ h.1 (handle-Agrees env cfg seen o e h.0 a)

  start-Agrees :
      Agrees cfg.thinking_handling false
        (emit_message_start env cfg (record { formatter = new; written = [] }))
  unfolding emit_message_start new receive_all receive next_phase kept
  start-Agrees = record {
    text_read = [];
    thinking_read = [];
    tools_read = 0;
    ready = inl (refl, refl, refl);
    tools = refl;
    texts = new-Texts cfg.thinking_handling;
    quiet = closed-Quiet cfg.thinking_handling false _ refl;
  }

  module _ (l : Library) (extract_usage_raw : Bytes → Option Bytes) where
    -- The state between two reads.
    abbrev Between : Bool → Pipeline × Output → Type 0
    Between seen (p, o) = Behind seen p.thinking × Agrees cfg.thinking_handling seen o

    drive_chunk-Between :
        (chunk : Bytes) (seen : Bool) (s : Pipeline × Output)
        → Between seen s
        → (later : Bool) × Between later (drive_chunk l extract_usage_raw env cfg chunk s)
    unfolding drive_chunk
    drive_chunk-Between [] seen (p, o) h = (seen, h)
    drive_chunk-Between (c ∷ chunk) seen (p, o) (behind, a) =
        let es = (Pipeline.feed l extract_usage_raw p (c ∷ chunk)).1 in
        let (now, later) = feed-AllInOrder l extract_usage_raw seen p (c ∷ chunk) behind in
        (all_seen_after seen es, (later, handle_all-Agrees es seen o now a))

    drive_chunks-Between :
        (chunks : List Bytes) (seen : Bool) (s : Pipeline × Output)
        → Between seen s
        → (later : Bool) × Between later (drive_chunks l extract_usage_raw env cfg chunks s)
    unfolding drive_chunks
    drive_chunks-Between [] seen s h = (seen, h)
    drive_chunks-Between (chunk ∷ chunks) seen s h =
        let (later, h') = drive_chunk-Between chunk seen s h in
        drive_chunks-Between chunks later (drive_chunk l extract_usage_raw env cfg chunk s) h'

    -- The conclusion: a client that reads a whole response comes to the end of the message.
    abbrev pub Answered : Option Driven → Type 0
    Answered r =
        (d : Driven) × (r ≡ some d)
        × (d.failed ≡ false)
        × Complete cfg.thinking_handling env d.output

    conclude-Answered :
        (seen : Bool) (p q : Pipeline) (o : Output) (es : List KiroEvent)
        → Between seen (p, o)
        → Pipeline.finish l p ≡ some (q, es)
        → Answered (conclude l extract_usage_raw env cfg o (Pipeline.finish l p))
    conclude-Answered seen p q o es (behind, a) e =
        subst (λ r. Answered (conclude l extract_usage_raw env cfg o r)) (sym e)
          (
            record { output = finish env (handle_all env cfg es o); failed = false },
            refl,
            refl,
            finish-Complete cfg.thinking_handling env (all_seen_after seen es)
                (handle_all env cfg es o)
                (handle_all-Agrees es seen o (finish-AllInOrder l seen p q es behind e) a),
          )

    -- The parser behind the last read of a response.
    abbrev pub last_parser : String → ℕ → List Bytes → Events.Parser
    last_parser handling size chunks =
        (drive_chunks l extract_usage_raw env cfg chunks (
          new_pipeline handling size,
          emit_message_start env cfg (record { formatter = new; written = [] }),
        )).0.parser

    new_pipeline-Behind :
        (handling : String) (size : ℕ) → Behind false (new_pipeline handling size).thinking
    new_pipeline-Behind handling size e = absurd (cc e)

    -- However Kiro's response is cut into reads and whatever it holds, if the ids of its tool calls
    -- are texts, the loop returns without an error, and a client that follows the protocol reads
    -- the events to the end of the message: the blocks come one behind the other with indices that
    -- grow by one. It has read the tool blocks that the formatter counts, the collected text and
    -- thinking that the mode promises, and the stop reason.
    pub drive_pipeline-Answered :
        (handling : String) (size : ℕ) (chunks : List Bytes)
        → TextIds (Dedup.finish l (last_parser handling size chunks)).1
        → Answered (
            drive_pipeline l extract_usage_raw env cfg
              (new_pipeline handling size)
              new
              chunks
              end_of_file)
    unfolding drive_pipeline
    drive_pipeline-Answered handling size chunks ids =
        let start = emit_message_start env cfg (record { formatter = new; written = [] }) in
        let s : Pipeline × Output = (new_pipeline handling size, start) in
        let (p, o) = drive_chunks l extract_usage_raw env cfg chunks s in
        let (seen, between) =
          drive_chunks-Between chunks false s (new_pipeline-Behind handling size, start-Agrees) in
        let ((q, es), e) = (finish_iff l p).1 ids in conclude-Answered seen p q o es between e

    -- When the reading fails, the loop returns an error, and the client has read everything that was
    -- written and waits in the middle of the message.
    pub drive_pipeline-read_error :
        (handling : String) (size : ℕ) (chunks : List Bytes)
        → (d : Driven) × (drive_pipeline l extract_usage_raw env cfg
              (new_pipeline handling size)
              new
              chunks
              read_error
            ≡ some d)
          × (d.failed ≡ true)
          × (seen : Bool) × Agrees cfg.thinking_handling seen d.output
    unfolding drive_pipeline
    drive_pipeline-read_error handling size chunks =
        let start = emit_message_start env cfg (record { formatter = new; written = [] }) in
        let s : Pipeline × Output = (new_pipeline handling size, start) in
        let (seen, between) =
          drive_chunks-Between chunks false s (new_pipeline-Behind handling size, start-Agrees) in
        (_, refl, refl, seen, between.1)
