-- ===== src/Parser/ToolJson.antt =====
-- internal/parser/tool_use_json.go: the tool calls of a response body that is not streamed. The
-- decodings of encoding/json are parameters; a nil slice is the empty list.
pub mod Named
use langley.Prelude.{
  ℕ, Bool, true, false, not, ◌&&◌, ◌||◌, List, [], ◌∷◌, ◌++◌, Option, none, some, Bytes, codes, beq,
  is_empty, ◌==◌, if◌then◌else◌, length,
}
use langley.Parser.Json.{Members}
use langley.Parser.Claude.{ToolUse}

-- a block of an Anthropic body, and a tool call of an OpenAI body
pub record ContentBlock : Type 0 where
  pub block_type : Bytes
  pub id : Bytes
  pub name : Bytes
  pub input : Option Members

pub record ToolCall : Type 0 where
  pub id : Bytes
  pub function_name : Bytes
  pub arguments : Bytes

-- the first byte that is not white space is '{'
unfoldable pub starts_object : Bytes → Bool
starts_object [] = false
starts_object (c ∷ body) =
    if c == 32 || c == 9 || c == 10 || c == 13 then starts_object body else c == b'{'

unfoldable pub anthropic_tools : List ContentBlock → List ToolUse
anthropic_tools [] = []
anthropic_tools (b ∷ bs) =
    let rest = anthropic_tools bs in
    if not (beq b.block_type (codes "tool_use"))
    then rest
    else if is_empty b.id || is_empty b.name
    then rest
    else record { id = b.id; name = b.name; input = b.input } ∷ rest

module _ (decode_content : Bytes → Option (List ContentBlock))
    (decode_choices : Bytes → Option (List (List ToolCall)))
    (unmarshal : Bytes → Option (Option Members)) where
  unfoldable pub extract_anthropic_tools_from_json : Bytes → List ToolUse
  extract_anthropic_tools_from_json body = elim (decode_content body) [
    | some content ↦ anthropic_tools content
    | none ↦ []
  ]

  -- malformed arguments keep the tool, with nil input
  unfoldable pub arguments_of : Bytes → Option Members
  arguments_of [] = none
  arguments_of (c ∷ s) = elim (unmarshal (c ∷ s)) [ some args ↦ args | none ↦ none ]

  unfoldable pub call_tools : List ToolCall → List ToolUse
  call_tools [] = []
  call_tools (call ∷ calls) =
      let rest = call_tools calls in
      if is_empty call.id || is_empty call.function_name
      then rest
      else record { id = call.id; name = call.function_name; input = arguments_of call.arguments }
        ∷ rest

  unfoldable pub choice_tools : List (List ToolCall) → List ToolUse
  choice_tools [] = []
  choice_tools (calls ∷ choices) = call_tools calls ++ choice_tools choices

  unfoldable pub extract_openai_tools_from_json : Bytes → List ToolUse
  extract_openai_tools_from_json body = elim (decode_choices body) [
    | some choices ↦ choice_tools choices
    | none ↦ []
  ]

  unfoldable pub extract_tool_uses_from_json : Bytes → List ToolUse
  extract_tool_uses_from_json body =
      if starts_object body
      then elim (extract_anthropic_tools_from_json body) [
        | t ∷ tools ↦ t ∷ tools
        | [] ↦ extract_openai_tools_from_json body
      ]
      else []
