-- ===== src/Parser/Claude/Streamed.antt =====
-- ExtractToolUses on the stream of one tool call.
use langley.Prelude.{
  ℕ, suc, ◌≡◌, refl, ap, sym, ◌∙◌, ◌>>=◌, beq_refl, List, [], ◌∷◌, ◌++◌, map, Option, none, some,
  Bytes, codes, beq, lookup, insert, lookup-insert_self,
}
use mathlib.Core.List.{append_assoc, append-nil}
use langley.Parser.Json.{pos, number, text, object, Members, no_members, member, field}
use langley.Parser.Sse.{Event, priority_of}
use langley.Parser.Claude.{
  ToolUse, append_input, tool_at, add_delta, start_block, collect, collect_all, with_input,
  extract_tool_uses, is_text, get_string,
}

-- an event of a type, with its data
abbrev pub event : Bytes → Members → Event
event kind fields = record {
  flow_id = [];
  sequence = 0;
  event_type = kind;
  event_data = some fields;
  priority = priority_of kind;
}

-- content_block_start of a tool call, and content_block_delta with a part of its input
abbrev pub tool_start : ℕ → Bytes → Bytes → Event
tool_start index id name = event (codes "content_block_start") (
    member (codes "index") (number (pos index)) (
      member (codes "content_block")
        (object (
          member (codes "type") (text (codes "tool_use"))
            (member (codes "id") (text id) (member (codes "name") (text name) no_members))))
        no_members))

abbrev pub input_delta : ℕ → Bytes → Event
input_delta index partial = event (codes "content_block_delta") (
    member (codes "index") (number (pos index)) (
      member (codes "delta")
        (object (
          member (codes "type") (text (codes "input_json_delta"))
            (member (codes "partial_json") (text partial) no_members)))
        no_members))

abbrev pub text_start : Event
text_start = event (codes "content_block_start") (
    member (codes "index") (number (pos 0)) (
      member (codes "content_block")
        (object (member (codes "type") (text (codes "text")) no_members)) no_members))

abbrev pub joined : List Bytes → Bytes
joined [] = []
joined (p ∷ ps) = p ++ joined ps

start_lem :
    (index a b : ℕ) (id name : Bytes)
    → collect (record { tools = []; tool_inputs = [] }) (tool_start index (a ∷ id) (b ∷ name))
      ≡ some (record {
        tools = record { id = a ∷ id; name = b ∷ name; input = none } ∷ [];
        tool_inputs = (a ∷ id, []) ∷ [];
      })
unfolding collect start_block get_string is_text field beq insert
start_lem index a b id name = refl

text_lem :
    collect (record { tools = []; tool_inputs = [] }) text_start
    ≡ some (record { tools = []; tool_inputs = [] })
unfolding collect start_block is_text field beq
text_lem = refl

delta_first :
    (t : ToolUse) (inputs : List (Bytes × Bytes)) (partial : Bytes)
    → collect (record { tools = t ∷ []; tool_inputs = inputs }) (input_delta 0 partial)
      ≡ some (record { tools = t ∷ []; tool_inputs = append_input t.id partial inputs })
unfolding collect add_delta is_text field beq tool_at
delta_first t inputs partial = refl

delta_later :
    (t : ToolUse) (inputs : List (Bytes × Bytes)) (k : ℕ) (partial : Bytes)
    → collect (record { tools = t ∷ []; tool_inputs = inputs }) (input_delta (suc k) partial)
      ≡ some (record { tools = t ∷ []; tool_inputs = inputs })
unfolding collect add_delta is_text field beq tool_at
delta_later t inputs k partial = refl

-- the inputs of one id, as they grow
append_input-lookup :
    (id acc partial : Bytes) (inputs : List (Bytes × Bytes))
    → lookup id inputs ≡ some acc
    → lookup id (append_input id partial inputs) ≡ some (acc ++ partial)
unfolding append_input
append_input-lookup id acc partial inputs e =
    rw (append_input, e) (lookup-insert_self id (acc ++ partial) inputs)

collect_deltas :
    (t : ToolUse) (acc : Bytes) (inputs : List (Bytes × Bytes)) (ps : List Bytes)
    → lookup t.id inputs ≡ some acc
    → (grown : List (Bytes × Bytes)) × ((collect_all
            (record { tools = t ∷ []; tool_inputs = inputs })
            (map (input_delta 0) ps)
          ≡ some (record { tools = t ∷ []; tool_inputs = grown }))
        × (lookup t.id grown ≡ some (acc ++ joined ps)))
unfolding collect_all
collect_deltas t acc inputs [] e = (inputs, (refl, e ∙ ap some (sym (append-nil acc))))
collect_deltas t acc inputs (p ∷ ps) e =
    let kept = append_input-lookup t.id acc p inputs e in
    let (grown, (runs, found)) = collect_deltas t (acc ++ p) (append_input t.id p inputs) ps kept in
    (
      grown,
      (rw (delta_first t inputs p, ◌>>=◌) runs, found ∙ ap some (append_assoc acc p (joined ps))),
    )

collect_ignored :
    (t : ToolUse) (inputs : List (Bytes × Bytes)) (k : ℕ) (ps : List Bytes)
    → collect_all (record { tools = t ∷ []; tool_inputs = inputs }) (map (input_delta (suc k)) ps)
      ≡ some (record { tools = t ∷ []; tool_inputs = inputs })
unfolding collect_all
collect_ignored t inputs k [] = refl
collect_ignored t inputs k (p ∷ ps) =
    rw (delta_later t inputs k p, ◌>>=◌) (collect_ignored t inputs k ps)

-- the input that a text decodes to: none for an empty text or a malformed one
abbrev pub decoded : (Bytes → Option (Option Members)) → Bytes → Option Members
decoded unmarshal [] = none
decoded unmarshal (c ∷ s) = elim (unmarshal (c ∷ s)) [ some m ↦ m | none ↦ none ]

module _ (unmarshal : Bytes → Option (Option Members)) where
  with_input_lem :
      (id name input : Bytes) (inputs : List (Bytes × Bytes))
      → lookup id inputs ≡ some input
      → with_input unmarshal inputs (record { id = id; name = name; input = none })
        ≡ record { id = id; name = name; input = decoded unmarshal input }
  unfolding with_input
  with_input_lem id name [] inputs e = rw (with_input, e) refl
  with_input_lem id name (c ∷ input) inputs e =
      rw (with_input, e) (by_decoded (unmarshal (c ∷ input)))
    where
      by_decoded :
          (d : Option (Option Members))
          → elim d as (λ x. ToolUse) [
            | some parsed ↦ record { id = id; name = name; input = parsed }
            | none ↦ record { id = id; name = name; input = none }
          ]
            ≡ record { id = id; name = name; input = elim d [ some m ↦ m | none ↦ none ] }
      by_decoded none = refl
      by_decoded (some m) = refl

  -- The stream of one tool call whose content block has index 0 gives this call, with its id and
  -- name (which are not empty) and the input that the parts of its JSON decode to once they are
  -- joined in their order.
  pub extract_tool_uses-first_block :
      (a b : ℕ) (id name : Bytes) (partials : List Bytes)
      → extract_tool_uses unmarshal
          (tool_start 0 (a ∷ id) (b ∷ name) ∷ map (input_delta 0) partials)
        ≡ some (
            record { id = a ∷ id; name = b ∷ name; input = decoded unmarshal (joined partials) }
            ∷ [])
  unfolding extract_tool_uses collect_all
  extract_tool_uses-first_block a b id name partials =
      let t : ToolUse = record { id = a ∷ id; name = b ∷ name; input = none } in
      let (grown, (runs, found)) =
        collect_deltas t [] ((a ∷ id, []) ∷ []) partials (unfold lookup in rw beq_refl refl) in
      rw (start_lem 0 a b id name, ◌>>=◌, runs)
        (ap (λ u. some (u ∷ [])) (with_input_lem (a ∷ id) (b ∷ name) _ grown found))

  -- A tool call that comes after a text block loses its input: the content block of the call then
  -- has an index of 1 or more, which ExtractToolUses takes as an index among the calls alone, so
  -- that every part of the input is left out, whatever the parts are.
  pub extract_tool_uses-later_block :
      (k a b : ℕ) (id name : Bytes) (partials : List Bytes)
      → extract_tool_uses unmarshal
          (text_start ∷ tool_start (suc k) (a ∷ id) (b ∷ name) ∷ map (input_delta (suc k)) partials)
        ≡ some (record { id = a ∷ id; name = b ∷ name; input = none } ∷ [])
  unfolding extract_tool_uses collect_all
  extract_tool_uses-later_block k a b id name partials =
      let t : ToolUse = record { id = a ∷ id; name = b ∷ name; input = none } in
      rw
        (
          text_lem,
          ◌>>=◌,
          start_lem (suc k) a b id name,
          collect_ignored t ((a ∷ id, []) ∷ []) k partials,
        )
        (ap (λ u. some (u ∷ []))
          (with_input_lem (a ∷ id) (b ∷ name) [] ((a ∷ id, []) ∷ [])
            (unfold lookup in rw beq_refl refl)))
