-- ===== src/StreamingAnthropic/Finished.antt =====
-- `Finish` brings the client to the end of the message.
use kiro_gateway_go.Common.{
  ℕ, ◌+◌, Bool, true, some, List, [], ◌∷◌, ◌++◌, ◌≡◌, inl, refl, sym, ap, ◌∙◌,
}
use kiro_gateway_go.Common.Bytes.{Bytes}
use kiro_gateway_go.StreamingAnthropic.{
  ThinkingHandling, message_delta, message_stop, BracketCall, Environment, Formatter, Output, emit,
  close_open_blocks,
}
use kiro_gateway_go.StreamingAnthropic.Handle.{emit_tool_use_block, tool_id, count_generated}
use kiro_gateway_go.StreamingAnthropic.Finish.{
  stop_reason, emit_bracket_tool_call, emit_bracket_tool_calls, bracket_tail, emit_message_delta,
  finish,
}
use kiro_gateway_go.StreamingAnthropic.Protocol.{
  closing, finished, Client, new_client, next_phase, kept, receive, receive_all,
}
use kiro_gateway_go.StreamingAnthropic.Seen.{Seen-emit, receive_all-append}
use kiro_gateway_go.StreamingAnthropic.Conforms.{Closed}
use kiro_gateway_go.StreamingAnthropic.Handled.{
  close_open_blocks-Closed, emit_tool_use_block-Closed,
}
use kiro_gateway_go.StreamingAnthropic.Frame.{close_open_blocks-Kept}
use kiro_gateway_go.StreamingAnthropic.Agreement.{Texts, Texts-same, Agrees, closed-Quiet}

-- The agreement with no block open.
pub record Idle (h : ThinkingHandling) (o : Output) : Type 0 where
  pub text_read : Bytes
  pub thinking_read : Bytes
  pub tools_read : ℕ
  pub closed : Closed o text_read thinking_read tools_read
  pub tools : tools_read ≡ o.formatter.tool_block_count
  pub texts : Texts h text_read thinking_read o.formatter

module _ (h : ThinkingHandling) (o : Output) where
  close_open_blocks-Idle : (seen : Bool) → Agrees h seen o → Idle h (close_open_blocks o)
  close_open_blocks-Idle seen a =
      let kept = close_open_blocks-Kept o in
      record {
        text_read = a.text_read;
        thinking_read = a.thinking_read;
        tools_read = a.tools_read;
        closed = close_open_blocks-Closed o a.text_read a.thinking_read a.tools_read a.ready;
        tools = a.tools ∙ sym (ap (λ (f : Formatter). f.tool_block_count) kept);
        texts =
            Texts-same h a.text_read a.thinking_read o.formatter _
              (sym (ap (λ (f : Formatter). f.full_content) kept))
              (sym (ap (λ (f : Formatter). f.full_thinking_content) kept)) a.texts;
      }

  Idle-Agrees : Idle h o → Agrees h true o
  Idle-Agrees i = record {
    text_read = i.text_read;
    thinking_read = i.thinking_read;
    tools_read = i.tools_read;
    ready = inl i.closed;
    tools = i.tools;
    texts = i.texts;
    quiet = closed-Quiet h true _ i.closed.1;
  }

  bracket_call-Idle :
      (env : Environment) (tc : BracketCall) → Idle h o → Idle h (emit_bracket_tool_call env tc o)
  unfolding emit_bracket_tool_call emit_tool_use_block
  bracket_call-Idle env tc i =
      let o1 = record o {
        formatter = record o.formatter { generated = count_generated tc.id o.formatter.generated };
      } in
      record {
        text_read = i.text_read;
        thinking_read = i.thinking_read;
        tools_read = i.tools_read + 1;
        closed =
            emit_tool_use_block-Closed o1 i.text_read i.thinking_read i.tools_read env
              (tool_id env tc.id o.formatter) tc.name _ i.closed;
        tools = ap (λ n. n + 1) i.tools;
        texts = Texts-same h i.text_read i.thinking_read o.formatter _ refl refl i.texts;
      }

module _ (h : ThinkingHandling) (env : Environment) where
  bracket_calls-Idle :
      (calls : List BracketCall) (o : Output)
      → Idle h o
      → Idle h (emit_bracket_tool_calls env calls o)
  unfolding emit_bracket_tool_calls
  bracket_calls-Idle [] o i = i
  bracket_calls-Idle (tc ∷ calls) o i =
      bracket_calls-Idle calls (emit_bracket_tool_call env tc o) (bracket_call-Idle h o env tc i)

  bracket_tail-Agrees :
      (seen : Bool) (calls : List BracketCall) (o : Output)
      → Agrees h seen o
      → (later : Bool) × Agrees h later (bracket_tail env calls o)
  unfolding bracket_tail
  bracket_tail-Agrees seen [] o a = (seen, a)
  bracket_tail-Agrees seen (tc ∷ calls) o a =
      let i =
        bracket_calls-Idle (tc ∷ calls) (close_open_blocks o) (close_open_blocks-Idle h o seen a) in
      (true, Idle-Agrees h _ i)

  -- A client that has read everything is at the end of the message, and has what the formatter has.
  pub record Complete (o : Output) : Type 0 where
    pub client : Client
    pub reads : receive_all o.written new_client ≡ some client
    pub phase : client.phase ≡ finished
    pub tools : client.tools_read ≡ o.formatter.tool_block_count
    pub texts : Texts h client.text_read client.thinking_read o.formatter
    pub reason : client.stop_reason ≡ some (stop_reason o.formatter)

  last-Complete : (o : Output) → Idle h o → Complete (emit message_stop (emit_message_delta env o))
  unfolding emit_message_delta next_phase kept receive receive_all
  last-Complete o i =
      let c : Client = record {
        phase = finished;
        text_read = i.text_read;
        thinking_read = i.thinking_read;
        tools_read = i.tools_read;
        stop_reason = some (stop_reason o.formatter);
      } in
      let f = o.formatter in
      let e = message_delta (stop_reason f) (record {
        output_tokens = env.count_tokens (f.full_content ++ f.full_thinking_content);
        cache_read = f.cache_read;
        cache_creation = f.cache_creation;
      }) in
      let closing_read =
        Seen-emit o.written e _ closing i.text_read i.thinking_read i.tools_read i.closed.2 refl in
      record {
        client = c;
        reads =
            receive_all-append (o.written ++ (e ∷ [])) (message_stop ∷ []) new_client _
              closing_read;
        phase = refl;
        tools = i.tools;
        texts = i.texts;
        reason = refl;
      }

  pub finish-Complete : (seen : Bool) (o : Output) → Agrees h seen o → Complete (finish env o)
  unfolding finish
  finish-Complete seen o a =
      let calls = env.parse_bracket_tool_calls o.formatter.full_content in
      let (later, b) = bracket_tail-Agrees seen calls o a in
      last-Complete (close_open_blocks (bracket_tail env calls o))
        (close_open_blocks-Idle h (bracket_tail env calls o) later b)
