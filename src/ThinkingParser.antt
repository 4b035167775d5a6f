-- ===== src/ThinkingParser.antt =====
-- internal/thinkingparser/state_machine.go: the three-state machine that separates a thinking
-- block from the regular text of a streamed response. Go strings are byte lists, a
-- `strings.Builder` is the text written to it, and a method returns its two results with the new
-- parser. An opening tag is never empty (`tag[1:]` would panic on one).
pub mod Block
pub mod Separation
pub mod Tags
pub mod Stream
pub mod Run
pub mod Late
use kiro_gateway_go.Common.{
  ℕ, ◌+◌, ◌-◌, ◌*◌, Bool, true, false, not, ◌&&◌, ◌||◌, String, Option, none, some, List, [], ◌∷◌,
  ◌++◌, ltb, if◌then◌else◌, length, take, drop, str_eq,
}
use kiro_gateway_go.Common.Bytes.{Bytes, codes, is_empty, has_prefix, index, trim_left}

pub data State : Type 0 where
  pre_content in_thinking streaming : State

abbrev pub handling_as_reasoning_content : String
handling_as_reasoning_content = "as_reasoning_content"

abbrev pub handling_remove : String
handling_remove = "remove"

abbrev pub handling_pass : String
handling_pass = "pass"

abbrev pub handling_strip_tags : String
handling_strip_tags = "strip_tags"

pub record Parser : Type 0 where
  pub state : State
  pub handling : String
  pub initial_buffer_size : ℕ
  pub initial_buffer : Bytes
  pub thinking_buffer : Bytes
  pub open_tag : Bytes
  pub close_tag : Bytes
  pub thinking_block_found : Bool
  pub is_first_thinking_chunk : Bool
  pub open_tags : List Bytes
  pub max_tag_length : ℕ

-- The loop of `NewParserWithTags` over the tags.
longest : ℕ → List Bytes → ℕ
longest acc [] = acc
longest acc (tag ∷ tags) = longest (if ltb acc (length tag) then length tag else acc) tags

unfoldable pub new_parser_with_tags : String → ℕ → List Bytes → Parser
unfolding longest
new_parser_with_tags handling size tags = record {
  state = pre_content;
  handling = handling;
  initial_buffer_size = size;
  initial_buffer = [];
  thinking_buffer = [];
  open_tag = [];
  close_tag = [];
  thinking_block_found = false;
  is_first_thinking_chunk = true;
  open_tags = tags;
  max_tag_length = longest 0 tags * 2;
}

abbrev pub default_open_tags : List Bytes
default_open_tags =
    codes "<thinking>" ∷ codes "<think>" ∷ codes "<reasoning>" ∷ codes "<thought>" ∷ []

unfoldable pub new_parser : String → ℕ → Parser
unfolding new_parser_with_tags
new_parser handling size = new_parser_with_tags handling size default_open_tags

-- What a method hands back: the thinking text, the regular text and the parser.
pub record Output : Type 0 where
  pub thinking : Bytes
  pub content : Bytes
  pub parser : Parser

abbrev pub silent : Parser → Output
silent p = record { thinking = []; content = []; parser = p }

unfoldable pub process_thinking_output : Parser → Bytes → Bool → Bool → Bytes
process_thinking_output p [] is_first is_last = []
process_thinking_output p thinking is_first is_last =
    if str_eq p.handling handling_remove
    then []
    else if str_eq p.handling handling_pass
    then (if is_first && not (is_empty p.open_tag) then p.open_tag else [])
      ++ (thinking ++ (if is_last && not (is_empty p.close_tag) then p.close_tag else []))
    else thinking

-- The closing tag is at `i` of the buffer.
close_block : Parser → ℕ → Output
close_block p i = record {
  thinking = process_thinking_output p (take i p.thinking_buffer) p.is_first_thinking_chunk true;
  content = trim_left (drop (i + length p.close_tag) p.thinking_buffer);
  parser = record p { is_first_thinking_chunk = false; state = streaming; thinking_buffer = [] };
}

-- The cautious sending: `max_tag_length` bytes stay behind.
send_part : Parser → ℕ → Output
send_part p n = record {
  thinking = process_thinking_output p (take n p.thinking_buffer) p.is_first_thinking_chunk false;
  content = [];
  parser = record p { is_first_thinking_chunk = false; thinking_buffer = drop n p.thinking_buffer };
}

unfoldable pub process_thinking_buffer : Parser → Output
unfolding close_block send_part
process_thinking_buffer p =
    if is_empty p.close_tag then silent p else elim (index p.close_tag p.thinking_buffer) [
      | some i ↦ close_block p i
      | none ↦
          if ltb p.max_tag_length (length p.thinking_buffer)
          then send_part p (length p.thinking_buffer - p.max_tag_length)
          else silent p
    ]

-- The first tag that the text begins with.
unfoldable pub find_tag : List Bytes → Bytes → Option Bytes
find_tag [] stripped = none
find_tag (tag ∷ tags) stripped =
    if has_prefix tag stripped then some tag else find_tag tags stripped

pub still_receiving : List Bytes → Bytes → Bool
still_receiving [] stripped = false
still_receiving (tag ∷ tags) stripped =
    (has_prefix stripped tag && ltb (length stripped) (length tag)) || still_receiving tags stripped

any_has_prefix : List Bytes → Bytes → Bool
any_has_prefix [] text = false
any_has_prefix (tag ∷ tags) text = has_prefix text tag || any_has_prefix tags text

could_be_tag_prefix : Parser → Bytes → Bool
unfolding any_has_prefix
could_be_tag_prefix p text = is_empty text || any_has_prefix p.open_tags text

-- `"</" + tag[1:]`
abbrev pub close_tag_of : Bytes → Bytes
close_tag_of tag = codes "</" ++ drop 1 tag

-- The parser behind the opening tag `tag`, before the rest of the buffer is processed.
enter_thinking : Parser → Bytes → Bytes → Parser
enter_thinking p tag stripped = record p {
  state = in_thinking;
  open_tag = tag;
  close_tag = close_tag_of tag;
  thinking_block_found = true;
  thinking_buffer = p.thinking_buffer ++ drop (length tag) stripped;
  initial_buffer = [];
}

-- `handlePreContent` behind its first loop, which found no tag.
no_tag_yet : Parser → Bytes → Bytes → Output
unfolding still_receiving could_be_tag_prefix
no_tag_yet p buffer stripped =
    if still_receiving p.open_tags stripped
    then silent p
    else if ltb p.initial_buffer_size (length buffer) || not (could_be_tag_prefix p stripped)
    then record {
      thinking = [];
      content = buffer;
      parser = record p { state = streaming; initial_buffer = [] };
    }
    else silent p

unfoldable pub handle_pre_content : Parser → Bytes → Output
unfolding enter_thinking no_tag_yet
handle_pre_content p0 text =
    let p = record p0 { initial_buffer = p0.initial_buffer ++ text } in
    let stripped = trim_left p.initial_buffer in
    elim (find_tag p.open_tags stripped) [
      | some tag ↦ process_thinking_buffer (enter_thinking p tag stripped)
      | none ↦ no_tag_yet p p.initial_buffer stripped
    ]

unfoldable pub handle_in_thinking : Parser → Bytes → Output
handle_in_thinking p text =
    process_thinking_buffer (record p { thinking_buffer = p.thinking_buffer ++ text })

unfoldable pub handle_streaming : Parser → Bytes → Output
handle_streaming p text = record { thinking = []; content = text; parser = p }

-- The `switch` of `Feed`.
feed_in : State → Parser → Bytes → Output
feed_in pre_content p text = handle_pre_content p text
feed_in in_thinking p text = handle_in_thinking p text
feed_in streaming p text = handle_streaming p text

unfoldable pub feed : Parser → Bytes → Output
unfolding feed_in
feed p text = if is_empty text then silent p else feed_in p.state p text

finish_in : State → Parser → Output
finish_in pre_content p = record {
  thinking = [];
  content = p.initial_buffer;
  parser = record p { initial_buffer = [] };
}
finish_in in_thinking p = record {
  thinking = process_thinking_output p p.thinking_buffer p.is_first_thinking_chunk true;
  content = [];
  parser = record p { thinking_buffer = [] };
}
finish_in streaming p = silent p

unfoldable pub finish : Parser → Output
unfolding finish_in
finish p = finish_in p.state p

unfoldable pub reset : Parser → Parser
reset p = record p {
  state = pre_content;
  initial_buffer = [];
  thinking_buffer = [];
  open_tag = [];
  close_tag = [];
  thinking_block_found = false;
  is_first_thinking_chunk = true;
}

-- A stream: the chunks are fed in turn and the outputs joined. This is how the callers use it.
abbrev pub joined : Output → Output → Output
joined a b = record {
  thinking = a.thinking ++ b.thinking;
  content = a.content ++ b.content;
  parser = b.parser;
}

unfoldable pub feed_all : Parser → List Bytes → Output
feed_all p [] = silent p
feed_all p (chunk ∷ chunks) = let o = feed p chunk in joined o (feed_all o.parser chunks)

unfoldable pub run : Parser → List Bytes → Output
run p chunks = let o = feed_all p chunks in joined o (finish o.parser)
