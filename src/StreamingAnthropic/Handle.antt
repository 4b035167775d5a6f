-- ===== src/StreamingAnthropic/Handle.antt =====
-- formatter.go and native_thinking.go: `Handle` and the handlers of the kinds of event.
use kiro_gateway_go.Common.{
  ℕ, ◌+◌, Bool, true, false, String, Option, none, some, List, [], ◌∷◌, ◌++◌, if◌then◌else◌, str_eq,
}
use kiro_gateway_go.Common.Bytes.{Bytes, is_empty}
use kiro_gateway_go.Json.{Fields}
use kiro_gateway_go.StreamingCore.{
  KiroEvent, ToolUseData, content, thinking, tool_use, usage, context_usage, error, refusal,
  native_thinking, thinking_signature, redacted_thinking,
}
use kiro_gateway_go.StreamingAnthropic.{
  ThinkingHandling, as_reasoning_content, include_as_text, strip, tool_use_block,
  redacted_thinking_block, input_json_delta, signature_delta, message_start, content_block_start,
  content_block_delta, content_block_stop, TruncatedTool, Environment, Formatter, Output, Settings,
  close_thinking, reserve_tool_block, emit, stop_thinking, stop_text, start_thinking, start_text,
  close_open_blocks, send_text, send_thinking,
}

unfoldable pub handle_content : Bytes → Output → Output
unfolding stop_thinking start_text send_text
handle_content s o =
    let o1 = record o {
      formatter = record o.formatter { full_content = o.formatter.full_content ++ s };
    } in
    send_text s (start_text (stop_thinking o1))

-- A thinking text that is folded into the text block.
unfoldable pub thinking_as_text : Bytes → Output → Output
unfolding stop_thinking start_text send_text
thinking_as_text s o = send_text s (start_text (stop_thinking o))

abbrev pub add_thinking : Bytes → Output → Output
add_thinking s o = record o {
  formatter = record o.formatter { full_thinking_content = o.formatter.full_thinking_content ++ s };
}

abbrev orelse_id : String → String → String
orelse_id id fallback = if str_eq id "" then fallback else id

abbrev pub count_generated : String → ℕ → ℕ
count_generated id n = if str_eq id "" then n + 1 else n

module _ (env : Environment) where
  unfoldable pub emit_message_start : Settings → Output → Output
  emit_message_start cfg o = emit (message_start cfg.message_id cfg.model env.input_tokens) o

  unfoldable pub emit_tool_use_block : String → String → Fields → Output → Output
  unfolding reserve_tool_block
  emit_tool_use_block id name input o =
      let (b, idx) = reserve_tool_block o.formatter.blocks in
      let o1 = record o { formatter = record o.formatter { blocks = b } } in
      let o2 = emit (content_block_start idx (tool_use_block id name)) o1 in
      let o3 =
        emit (content_block_delta idx (input_json_delta (env.python_style_dumps input))) o2 in
      let o4 = emit (content_block_stop idx) o3 in
      record o4 {
        formatter = record o4.formatter { tool_block_count = o4.formatter.tool_block_count + 1 };
      }

  -- The id of a tool call, made up when it is empty.
  unfoldable pub tool_id : String → Formatter → String
  tool_id id f = orelse_id id (env.generate_tool_use_id f.generated)

  abbrev collected : String → ToolUseData → List TruncatedTool
  collected id tu = elim tu.truncation [
    | none ↦ []
    | some info ↦ record { id = id; name = tu.name; info = info } ∷ []
  ]

  unfoldable pub handle_tool_use : ToolUseData → Output → Output
  unfolding close_open_blocks tool_id emit_tool_use_block
  handle_tool_use tu o =
      let o1 = close_open_blocks o in
      let id = tool_id tu.id o1.formatter in
      let o2 = record o1 {
        formatter = record o1.formatter {
          truncated_tools = o1.formatter.truncated_tools ++ collected id tu;
          generated = count_generated tu.id o1.formatter.generated;
        };
      } in
      emit_tool_use_block id tu.name tu.input o2

  abbrev newer : Option ℕ → Option ℕ → Option ℕ
  newer none old = old
  newer (some n) old = some n

  unfoldable pub merge_cache_usage : Option Bytes → Output → Output
  merge_cache_usage raw o =
      let (read, creation) = env.cache_usage raw in
      record o {
        formatter = record o.formatter {
          cache_read = newer read o.formatter.cache_read;
          cache_creation = newer creation o.formatter.cache_creation;
        };
      }

  module _ (cfg : Settings) where
    -- The `switch` of `handleThinking`, behind the first statement.
    unfoldable pub thinking_as : ThinkingHandling → Bytes → Output → Output
    unfolding start_thinking thinking_as_text send_thinking
    thinking_as as_reasoning_content s o =
        let o1 = start_thinking cfg.thinking_signature o in
        if is_empty s then o1 else send_thinking s o1
    thinking_as include_as_text s o = thinking_as_text s o
    thinking_as strip s o = o

    unfoldable pub handle_thinking : Bytes → Output → Output
    unfolding thinking_as
    handle_thinking s o = thinking_as cfg.thinking_handling s (add_thinking s o)

    unfoldable pub open_native_thinking : Output → Output
    unfolding stop_text start_thinking
    open_native_thinking o =
        if o.formatter.blocks.thinking_open then o else start_thinking "" (stop_text o)

    -- The three handlers of native reasoning in the mode `AsReasoningContent`.
    unfoldable pub native_thinking_block : Bytes → Output → Output
    unfolding open_native_thinking send_thinking
    native_thinking_block s o = send_thinking s (open_native_thinking (add_thinking s o))

    unfoldable pub signature_block : Bytes → Output → Output
    unfolding open_native_thinking close_thinking
    signature_block signature o =
        let o1 = open_native_thinking o in
        let idx = o1.formatter.blocks.thinking_at in
        let o2 = emit (content_block_delta idx (signature_delta signature)) o1 in
        let (b, closed) = close_thinking o2.formatter.blocks in
        emit (content_block_stop idx) (record o2 { formatter = record o2.formatter { blocks = b } })

    unfoldable pub redacted_block : Bytes → Output → Output
    unfolding close_open_blocks reserve_tool_block
    redacted_block data_text o =
        let o1 = close_open_blocks o in
        let (b, idx) = reserve_tool_block o1.formatter.blocks in
        emit (content_block_stop idx) (
          emit (content_block_start idx (redacted_thinking_block data_text))
            (record o1 { formatter = record o1.formatter { blocks = b } }))

    abbrev pub is_reasoning : Bool
    is_reasoning = elim cfg.thinking_handling [ as_reasoning_content ↦ true | _ ↦ false ]

    unfoldable pub handle_native_thinking : Bytes → Output → Output
    unfolding native_thinking_block handle_thinking
    handle_native_thinking s o =
        if is_reasoning then native_thinking_block s o else handle_thinking s o

    unfoldable pub handle_thinking_signature : Bytes → Output → Output
    unfolding signature_block
    handle_thinking_signature signature o = if is_reasoning then signature_block signature o else o

    unfoldable pub handle_redacted_thinking : Bytes → Output → Output
    unfolding redacted_block
    handle_redacted_thinking data_text o = if is_reasoning then redacted_block data_text o else o

    unfoldable pub handle : KiroEvent → Output → Output
    unfolding handle_content handle_thinking handle_tool_use merge_cache_usage
        handle_native_thinking handle_thinking_signature handle_redacted_thinking
    handle (content s) o = handle_content s o
    handle (thinking s) o = handle_thinking s o
    handle (tool_use tu) o = handle_tool_use tu o
    handle (context_usage percentage) o = record o {
      formatter = record o.formatter {
        received_context_usage = true;
        context_usage_percentage = some percentage;
      };
    }
    handle (usage raw) o = merge_cache_usage raw o
    handle (refusal info) o = record o { formatter = record o.formatter { refused = true } }
    handle (native_thinking s) o = handle_native_thinking s o
    handle (thinking_signature signature) o = handle_thinking_signature signature o
    handle (redacted_thinking data_text) o = handle_redacted_thinking data_text o
    handle (error reason) o = o

    unfoldable pub handle_all : List KiroEvent → Output → Output
    handle_all [] o = o
    handle_all (e ∷ events) o = handle_all events (handle e o)
