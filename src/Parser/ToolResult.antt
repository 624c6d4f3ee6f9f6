-- ===== src/Parser/ToolResult.antt =====
-- internal/parser/tool_result.go: the tool results in a request body. The decodings of
-- encoding/json are parameters; a json.RawMessage is its bytes.
pub mod Filled
use langley.Prelude.{
  Bool, not, ◌||◌, List, [], ◌∷◌, ◌++◌, Option, none, some, Bytes, is_empty, codes, beq,
  if◌then◌else◌,
}

pub record ToolResult : Type 0 where
  pub tool_use_id : Bytes
  pub is_error : Bool
  pub content : Option Bytes

-- a block of a message
pub record ResultBlock : Type 0 where
  pub block_type : Bytes
  pub tool_use_id : Bytes
  pub is_error : Bool
  pub content : Bytes

module _ (decode_messages : Bytes → Option (List Bytes))
    (decode_blocks : Bytes → Option (List ResultBlock)) (decode_text : Bytes → Option Bytes) where
  -- the text of a result: a JSON string that is not empty, or the raw JSON
  unfoldable pub result_content : Bytes → Option Bytes
  result_content [] = none
  result_content (c ∷ raw) = elim (decode_text (c ∷ raw)) [
    | some (t ∷ s) ↦ some (t ∷ s)
    | _ ↦ some (c ∷ raw)
  ]

  unfoldable pub block_results : List ResultBlock → List ToolResult
  block_results [] = []
  block_results (b ∷ bs) =
      let rest = block_results bs in
      if not (beq b.block_type (codes "tool_result")) || is_empty b.tool_use_id
      then rest
      else record {
        tool_use_id = b.tool_use_id;
        is_error = b.is_error;
        content = result_content b.content;
      }
        ∷ rest

  -- a content that is no array of blocks is skipped
  unfoldable pub message_results : List Bytes → List ToolResult
  message_results [] = []
  message_results (content ∷ contents) =
      let rest = message_results contents in
      elim (decode_blocks content) [ some blocks ↦ block_results blocks ++ rest | none ↦ rest ]

  unfoldable pub extract_tool_results : Bytes → List ToolResult
  extract_tool_results [] = []
  extract_tool_results (c ∷ body) = elim (decode_messages (c ∷ body)) [
    | some contents ↦ message_results contents
    | none ↦ []
  ]
