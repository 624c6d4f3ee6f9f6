-- ===== src/Parser/ToolResult/Filled.antt =====
-- What is known of every tool result taken from a request body.
use langley.Prelude.{
  ◌≡◌, ◌≢◌, Bool, true, false, not, ◌||◌, List, [], ◌∷◌, ◌++◌, Option, none, some, Bytes, is_empty,
  codes, beq, Bool-cases, inl, inr,
}
use langley.Parser.ToolResult.{
  ToolResult, ResultBlock, result_content, block_results, message_results, extract_tool_results,
}

-- results of a tool use, each with no content or one that is not empty
abbrev pub AllFilled : List ToolResult → Type 0
AllFilled [] = Unit {0}
AllFilled (r ∷ rs) = ((r.tool_use_id ≢ []) × (r.content ≢ some [])) × AllFilled rs

AllFilled-append : (rs ss : List ToolResult) → AllFilled rs → AllFilled ss → AllFilled (rs ++ ss)
AllFilled-append [] ss h k = k
AllFilled-append (r ∷ rs) ss h k = (h.0, AllFilled-append rs ss h.1 k)

filled_id : (b : Bool) (id : Bytes) → (b || is_empty id) ≡ false → id ≢ []
filled_id false (c ∷ id) h e = cc e
filled_id false [] h e = cc h
filled_id true id h e = cc h

module _ (decode_messages : Bytes → Option (List Bytes))
    (decode_blocks : Bytes → Option (List ResultBlock)) (decode_text : Bytes → Option Bytes) where
  filled_content :
      (raw : Bytes) → result_content decode_messages decode_blocks decode_text raw ≢ some []
  unfolding result_content
  filled_content [] e = cc e
  filled_content (c ∷ raw) e = by_text (decode_text (c ∷ raw)) e
    where
      by_text :
          (d : Option Bytes)
          → elim d as (λ x. Option Bytes) [
            | some t ↦ elim t [ c' ∷ s ↦ some (c' ∷ s) | [] ↦ some (c ∷ raw) ]
            | none ↦ some (c ∷ raw)
          ]
            ≢ some []
      by_text none e = cc e
      by_text (some []) e = cc e
      by_text (some (d ∷ s)) e = cc e

  block_results-AllFilled :
      (bs : List ResultBlock)
      → AllFilled (block_results decode_messages decode_blocks decode_text bs)
  unfolding block_results
  block_results-AllFilled [] = tt
  block_results-AllFilled (b ∷ bs) =
      let other = not (beq b.block_type (codes "tool_result")) in
      elim (Bool-cases (other || is_empty b.tool_use_id)) [
        | inl skipped ↦ rw skipped (block_results-AllFilled bs)
        | inr kept ↦ rw kept (
          (filled_id other b.tool_use_id kept, filled_content b.content),
          block_results-AllFilled bs,
        )
      ]

  message_results-AllFilled :
      (contents : List Bytes)
      → AllFilled (message_results decode_messages decode_blocks decode_text contents)
  unfolding message_results
  message_results-AllFilled [] = tt
  message_results-AllFilled (m ∷ ms) = by_blocks (decode_blocks m) _ (message_results-AllFilled ms)
    where
      by_blocks :
          (d : Option (List ResultBlock)) (rest : List ToolResult)
          → AllFilled rest
          → AllFilled (elim d [
            | some blocks ↦ block_results decode_messages decode_blocks decode_text blocks ++ rest
            | none ↦ rest
          ])
      by_blocks none rest h = h
      by_blocks (some blocks) rest h = AllFilled-append _ _ (block_results-AllFilled blocks) h

  -- Whatever the decoders give for a body, each result that ExtractToolResults returns names the
  -- tool use that it belongs to, and its content, if it has one, is not empty.
  pub extract_tool_results-AllFilled :
      (body : Bytes)
      → AllFilled (extract_tool_results decode_messages decode_blocks decode_text body)
  unfolding extract_tool_results
  extract_tool_results-AllFilled [] = tt
  extract_tool_results-AllFilled (c ∷ body) = by_messages (decode_messages (c ∷ body))
    where
      by_messages :
          (d : Option (List Bytes))
          → AllFilled (elim d [
            | some contents ↦ message_results decode_messages decode_blocks decode_text contents
            | none ↦ []
          ])
      by_messages none = tt
      by_messages (some contents) = message_results-AllFilled contents
