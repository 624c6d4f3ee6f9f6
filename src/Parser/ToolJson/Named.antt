-- ===== src/Parser/ToolJson/Named.antt =====
-- Every tool call taken from a response body has an id and a name.
use langley.Prelude.{
  ◌≡◌, ◌≢◌, refl, Bool, true, false, not, ◌||◌, List, [], ◌∷◌, ◌++◌, Option, none, some, Bytes,
  is_empty, codes, beq, if◌then◌else◌, Bool-cases, inl, inr,
}
use langley.Parser.Json.{Members}
use langley.Parser.Claude.{ToolUse}
use langley.Parser.ToolJson.{
  ContentBlock, ToolCall, starts_object, anthropic_tools, call_tools, choice_tools,
  extract_anthropic_tools_from_json, extract_openai_tools_from_json, extract_tool_uses_from_json,
}

abbrev pub AllNamed : List ToolUse → Type 0
AllNamed [] = Unit {0}
AllNamed (t ∷ ts) = ((t.id ≢ []) × (t.name ≢ [])) × AllNamed ts

AllNamed-append : (ts us : List ToolUse) → AllNamed ts → AllNamed us → AllNamed (ts ++ us)
AllNamed-append [] us h k = k
AllNamed-append (t ∷ ts) us h k = (h.0, AllNamed-append ts us h.1 k)

both_filled : (id name : Bytes) → (is_empty id || is_empty name) ≡ false → (id ≢ []) × (name ≢ [])
both_filled (c ∷ id) (d ∷ name) h = ((λ e. cc e), λ e. cc e)
both_filled [] name h = absurd (cc h)
both_filled (c ∷ id) [] h = absurd (cc h)

-- one more tool, if its id and its name are filled
AllNamed-guard :
    (id name : Bytes) (t : ToolUse) (rest : List ToolUse)
    → t.id ≡ id
    → t.name ≡ name
    → AllNamed rest
    → AllNamed (if is_empty id || is_empty name then rest else t ∷ rest)
AllNamed-guard id name t rest e f h = elim (Bool-cases (is_empty id || is_empty name)) [
  | inl empty ↦ rw empty h
  | inr filled ↦ rw filled (rw (e, f) (both_filled id name filled), h)
]

anthropic_tools-AllNamed : (bs : List ContentBlock) → AllNamed (anthropic_tools bs)
unfolding anthropic_tools
anthropic_tools-AllNamed [] = tt
anthropic_tools-AllNamed (b ∷ bs) = elim (Bool-cases (not (beq b.block_type (codes "tool_use")))) [
  | inl other ↦ rw other (anthropic_tools-AllNamed bs)
  | inr tool ↦ rw tool (AllNamed-guard b.id b.name _ _ refl refl (anthropic_tools-AllNamed bs))
]

module _ (decode_content : Bytes → Option (List ContentBlock))
    (decode_choices : Bytes → Option (List (List ToolCall)))
    (unmarshal : Bytes → Option (Option Members)) where
  call_tools-AllNamed :
      (calls : List ToolCall) → AllNamed (call_tools decode_content decode_choices unmarshal calls)
  unfolding call_tools
  call_tools-AllNamed [] = tt
  call_tools-AllNamed (c ∷ cs) =
      AllNamed-guard c.id c.function_name _ _ refl refl (call_tools-AllNamed cs)

  choice_tools-AllNamed :
      (choices : List (List ToolCall))
      → AllNamed (choice_tools decode_content decode_choices unmarshal choices)
  unfolding choice_tools
  choice_tools-AllNamed [] = tt
  choice_tools-AllNamed (c ∷ cs) =
      AllNamed-append _ _ (call_tools-AllNamed c) (choice_tools-AllNamed cs)

  -- Whatever the decoders give for a body, each tool call that ExtractToolUsesFromJSON returns has
  -- an id and a name that are not empty, for Anthropic and for OpenAI bodies.
  pub extract_tool_uses_from_json-AllNamed :
      (body : Bytes)
      → AllNamed (extract_tool_uses_from_json decode_content decode_choices unmarshal body)
  unfolding extract_tool_uses_from_json extract_anthropic_tools_from_json
      extract_openai_tools_from_json
  extract_tool_uses_from_json-AllNamed body =
      by_start (starts_object body) (decode_content body) (decode_choices body)
    where
      by_openai :
          (d : Option (List (List ToolCall)))
          → AllNamed (elim d [
            | some choices ↦ choice_tools decode_content decode_choices unmarshal choices
            | none ↦ []
          ])
      by_openai none = tt
      by_openai (some choices) = choice_tools-AllNamed choices

      pick :
          (ts us : List ToolUse)
          → AllNamed ts
          → AllNamed us
          → AllNamed (elim ts [ t ∷ r ↦ t ∷ r | [] ↦ us ])
      pick [] us h k = k
      pick (t ∷ ts) us h k = h

      by_start :
          (b : Bool) (content : Option (List ContentBlock)) (d : Option (List (List ToolCall)))
          → AllNamed (
              if b
              then elim (elim content as (λ x. List ToolUse) [
                | some bs ↦ anthropic_tools bs
                | none ↦ []
              ]) [
                | t ∷ r ↦ t ∷ r
                | [] ↦ elim d [
                  | some choices ↦ choice_tools decode_content decode_choices unmarshal choices
                  | none ↦ []
                ]
              ]
              else [])
      by_start false content d = tt
      by_start true none d = by_openai d
      by_start true (some bs) d =
          pick (anthropic_tools bs) _ (anthropic_tools-AllNamed bs) (by_openai d)
