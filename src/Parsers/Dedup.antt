-- ===== src/Parsers/Dedup.antt =====
-- internal/parsers/dedup.go, and GetToolCalls and Finish of toolcalls.go. Every tool call that the
-- code makes has its "function" with a text as "arguments". `values` and `byID` are one list of ids
-- with their calls, in the order in which the ids came up.
use kiro_gateway_go.Common.{
  Bool, true, false, not, ◌&&◌, ◌||◌, Option, none, some, List, [], ◌∷◌, ◌++◌, ltb, if◌then◌else◌,
  length, map,
}
use kiro_gateway_go.Common.Bytes.{Bytes, codes, is_empty}
use kiro_gateway_go.Common.Utf8.{utf8}
use kiro_gateway_go.Common.Equality.{same_bytes}
use kiro_gateway_go.Json.{Value, string}
use kiro_gateway_go.Parsers.ToolCalls.{Library, ToolCall, is_truthy, finalize_tool_call}
use kiro_gateway_go.Parsers.Events.{Parser}

abbrev pub no_arguments : Bytes
no_arguments = codes "{}"

-- Does a later call replace the one that came up with the same id?
unfoldable pub replaces : ToolCall → ToolCall → Bool
replaces existing current =
    not (same_bytes current.arguments no_arguments)
    && (same_bytes existing.arguments no_arguments
        || ltb (length existing.arguments) (length current.arguments))

-- The entry of an id that came up before, when it comes up again with the call `tc`.
abbrev pub updated : Bool → Bytes → ToolCall → ToolCall → Bytes × ToolCall
updated true k old tc = (k, tc)
updated false k old tc = (k, old)

unfoldable pub put : Bytes → ToolCall → List (Bytes × ToolCall) → List (Bytes × ToolCall)
put id tc [] = (id, tc) ∷ []
put id tc ((k, old) ∷ values) =
    let rest = put id tc values in
    if same_bytes k id then updated (replaces old tc) k old tc ∷ values else (k, old) ∷ rest

-- The body of the first loop, with the id of the call.
abbrev pub entered : ToolCall → List (Bytes × ToolCall) → Option Bytes → List (Bytes × ToolCall)
entered tc values none = values
entered tc values (some id) = put id tc values

abbrev pub unless_id : ToolCall → List ToolCall → Option Bytes → List ToolCall
unless_id tc rest none = tc ∷ rest
unless_id tc rest (some id) = rest

module _ (l : Library) where
  unfoldable pub any_str : Value → Bytes
  any_str (string s) = utf8 s
  any_str v = l.str_of_value v

  unfoldable pub id_of : ToolCall → Option Bytes
  unfolding any_str is_truthy
  id_of tc = if is_truthy l (some tc.id) then some (any_str tc.id) else none

  -- The first loop.
  unfoldable pub by_id : List ToolCall → List (Bytes × ToolCall) → List (Bytes × ToolCall)
  by_id [] values = values
  by_id (tc ∷ calls) values = by_id calls (entered tc values (id_of tc))

  -- The second loop.
  unfoldable pub without_id : List ToolCall → List ToolCall
  without_id [] = []
  without_id (tc ∷ calls) = unless_id tc (without_id calls) (id_of tc)

  -- The key of the last loop: `name + "-" + args`.
  unfoldable pub key_of : ToolCall → Bytes
  unfolding any_str is_truthy
  key_of tc =
      let name = if is_truthy l (some tc.name) then any_str tc.name else [] in
      let args = if is_empty tc.arguments then no_arguments else tc.arguments in
      name ++ (codes "-" ++ args)

  unfoldable pub has_key : Bytes → List Bytes → Bool
  has_key k [] = false
  has_key k (j ∷ seen) = same_bytes j k || has_key k seen

  unfoldable pub unique : List Bytes → List ToolCall → List ToolCall
  unique seen [] = []
  unique seen (tc ∷ calls) = elim (has_key (key_of tc) seen) [
    | true ↦ unique seen calls
    | false ↦ tc ∷ unique (key_of tc ∷ seen) calls
  ]

  unfoldable pub deduplicate_tool_calls : List ToolCall → List ToolCall
  deduplicate_tool_calls calls =
      unique [] (map (λ (entry : Bytes × ToolCall). entry.1) (by_id calls []) ++ without_id calls)

  unfoldable pub get_tool_calls : Parser → Parser × List ToolCall
  unfolding finalize_tool_call deduplicate_tool_calls
  get_tool_calls p =
      let calls = finalize_tool_call l p.calls in
      (record p { calls = calls }, deduplicate_tool_calls calls.tool_calls)

  -- `Finish`, whose events of kind "tool_call" hold these calls.
  unfoldable pub finish : Parser → Parser × List ToolCall
  unfolding get_tool_calls
  finish p = get_tool_calls p
