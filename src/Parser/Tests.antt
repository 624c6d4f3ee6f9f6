-- ===== src/Parser/Tests.antt =====
-- The theorems on internal/parser at concrete streams and bodies.
use langley.Prelude.{
  ℕ, ◌≤◌, ◌≡◌, refl, true, false, List, [], ◌∷◌, map, Option, none, some, Bytes, codes, beq, length,
  ◌<◌, ◌⊎◌, if◌then◌else◌,
}
use langley.Parser.Json.{boolean, Members, no_members, member}
use langley.Parser.Sse.{Event, new_sse_parser, parse, max_events_per_flow}
use langley.Parser.Sse.Data.{size_of}
use langley.Parser.Sse.Sent.{Numbered, GivesNil, parse-Numbered}
use langley.Parser.Claude.{extract_tool_uses}
use langley.Parser.Claude.Streamed.{
  tool_start, input_delta, text_start, extract_tool_uses-later_block,
}
use langley.Parser.ToolJson.{
  ContentBlock, ToolCall, starts_object, extract_anthropic_tools_from_json, anthropic_tools,
  extract_tool_uses_from_json,
}
use langley.Parser.ToolResult.{ResultBlock}

-- a decoder that knows one text
abbrev decode_flag : Bytes → Option (Option Members)
decode_flag [] = none
decode_flag (c ∷ raw) = some (some (member (codes "ok") (boolean true) no_members))

-- "null" is a nil map
abbrev decode_json : Bytes → Option (Option Members)
decode_json raw = if beq raw (codes "null") then some none else decode_flag raw

abbrev no_error : Option ℕ
no_error = none

abbrev two_events : List Bytes
two_events =
    codes "event: message_start"
    ∷ codes "data: {}"
    ∷ []
    ∷ codes ": a comment"
    ∷ codes "event: ping"
    ∷ codes "data: {}"
    ∷ []

parse-Numbered_example :
    ((events : List Event) × ((reported : Option ℕ) × ((parse decode_json
              (new_sse_parser (codes "f1"))
              two_events
              no_error
            ≡ some (events, reported))
          × (Numbered (codes "f1") 0 events × (length events ≤ max_events_per_flow)))))
    ⊎ ((parse decode_json (new_sse_parser (codes "f1")) two_events no_error ≡ none)
        × (GivesNil decode_json two_events × (2_097_152 < size_of two_events)))
parse-Numbered_example =
    parse-Numbered decode_json (new_sse_parser (codes "f1")) two_events no_error

extract_tool_uses-later_block_example :
    extract_tool_uses decode_flag (
      text_start
      ∷ tool_start 1 (codes "t1") (codes "read")
      ∷ map (input_delta 1) (codes "{\"a\":" ∷ codes "1}" ∷ []))
    ≡ some (record { id = codes "t1"; name = codes "read"; input = none } ∷ [])
extract_tool_uses-later_block_example =
    extract_tool_uses-later_block decode_flag 0 b't' b'r' (b'1' ∷ []) (codes "ead")
      (codes "{\"a\":" ∷ codes "1}" ∷ [])

-- a body with a tool call, a text and a call without a name
abbrev three_blocks : Bytes → Option (List ContentBlock)
three_blocks body = some (
    record { block_type = codes "tool_use"; id = codes "t1"; name = codes "read"; input = none }
    ∷ record { block_type = codes "text"; id = []; name = []; input = none }
    ∷ record { block_type = codes "tool_use"; id = codes "t2"; name = []; input = none }
    ∷ [])

abbrev no_choices : Bytes → Option (List (List ToolCall))
no_choices body = none

three_blocks_tools :
    extract_tool_uses_from_json three_blocks no_choices decode_flag (codes "{}")
    ≡ record { id = codes "t1"; name = codes "read"; input = none } ∷ []
unfolding extract_tool_uses_from_json starts_object extract_anthropic_tools_from_json
    anthropic_tools beq
three_blocks_tools = refl

abbrev one_message : Bytes → Option (List Bytes)
one_message body = some (codes "[]" ∷ [])

-- a result with a text, and a result without an id
abbrev two_results : Bytes → Option (List ResultBlock)
two_results content = some (
    record {
      block_type = codes "tool_result";
      tool_use_id = codes "t1";
      is_error = true;
      content = codes "\"no\"";
    }
    ∷ record { block_type = codes "tool_result"; tool_use_id = []; is_error = false; content = [] }
    ∷ [])

abbrev one_text : Bytes → Option Bytes
one_text raw = some (codes "no")
