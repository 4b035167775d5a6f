-- ===== src/Tests/Streams.antt =====
-- The theorems on the thinking parser and the brace scanner at concrete data.
use kiro_gateway_go.Common.{true, some, List, [], ◌∷◌, ◌≡◌, ◌↔◌, refl}
use kiro_gateway_go.Common.Bytes.{concat, Bytes, codes}
use kiro_gateway_go.ThinkingParser.{
  Parser, in_thinking, new_parser, default_open_tags, run, handling_as_reasoning_content,
  handling_strip_tags,
}
use kiro_gateway_go.ThinkingParser.Run.{Reading, run-Reading}
use kiro_gateway_go.Parsers.{find_matching_brace}
use kiro_gateway_go.Parsers.Balanced.{EndsObject, find_matching_brace_iff}

abbrev chunks : List Bytes
chunks = codes " <thi" ∷ codes "nk>ab</th" ∷ codes "ink>\n ok" ∷ []

run-Reading_example :
    Reading default_open_tags
      (concat chunks)
      (run (new_parser handling_as_reasoning_content 20) chunks)
run-Reading_example = run-Reading handling_as_reasoning_content 20 chunks refl refl

abbrev inside : Parser
inside = record {
  state = in_thinking;
  handling = handling_strip_tags;
  initial_buffer_size = 20;
  initial_buffer = [];
  thinking_buffer = codes "a";
  open_tag = codes "<t>";
  close_tag = codes "</t>";
  thinking_block_found = true;
  is_first_thinking_chunk = true;
  open_tags = codes "<t>" ∷ [];
  max_tag_length = 6;
}

abbrev later : List Bytes
later = codes "bcdefghij</" ∷ codes "t> x" ∷ []

abbrev object : Bytes
object = codes "x{\"a\":\"}\",\"b\":{}}"

find_matching_brace_iff_example : (find_matching_brace object 1 ≡ some 16) ↔ EndsObject object 1 16
find_matching_brace_iff_example = find_matching_brace_iff object 1 16
