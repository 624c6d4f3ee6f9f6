-- ===== src/Parser/Claude.antt =====
-- ExtractUsage, ExtractModel and ExtractToolUses of internal/parser/sse.go: what the events of a
-- Claude response say. A type assertion on a nil map fails, as on a missing key.
pub mod Streamed
use langley.Prelude.{
  ℕ, ◌≤◌, Bool, true, false, not, is_empty, ◌&&◌, List, [], ◌∷◌, ◌++◌, map, Option, none, some,
  ◌>>=◌, Bytes, codes, beq, Dict, lookup, insert, ltb, if◌then◌else◌, length, get_elem?,
}
use langley.Parser.Json.{ℤ, pos, negsuc, Json, text, Members, field, as_object, as_text, as_number}
use langley.Parser.Sse.{Event}

pub record ClaudeUsage : Type 0 where
  pub input_tokens : ℤ
  pub output_tokens : ℤ
  pub cache_creation_tokens : ℤ
  pub cache_read_tokens : ℤ

abbrev pub no_usage : ClaudeUsage
no_usage = record {
  input_tokens = pos 0;
  output_tokens = pos 0;
  cache_creation_tokens = pos 0;
  cache_read_tokens = pos 0;
}

-- m[key] of a map that may be nil
abbrev pub at : Option Members → Bytes → Option Json
at none key = none
at (some m) key = field key m

-- an assertion to float64 that keeps the old value when it fails
unfoldable pub count_or : Members → Bytes → ℤ → ℤ
count_or u key old = elim (as_number (field key u)) [ some v ↦ v | none ↦ old ]

unfoldable pub start_usage : ClaudeUsage → Members → ClaudeUsage
unfolding count_or
start_usage usage u = record usage {
  input_tokens = count_or u (codes "input_tokens") usage.input_tokens;
  cache_creation_tokens =
      count_or u (codes "cache_creation_input_tokens") usage.cache_creation_tokens;
  cache_read_tokens = count_or u (codes "cache_read_input_tokens") usage.cache_read_tokens;
}

unfoldable pub use_event : ClaudeUsage → Event → ClaudeUsage
unfolding start_usage count_or
use_event usage event =
    if beq event.event_type (codes "message_start")
    then elim (as_object (at (as_object (at event.event_data (codes "message"))) (codes "usage"))) [
      | some u ↦ start_usage usage u
      | none ↦ usage
    ]
    else if beq event.event_type (codes "message_delta")
    then elim (as_object (at event.event_data (codes "usage"))) [
      | some u ↦ record usage {
        output_tokens = count_or u (codes "output_tokens") usage.output_tokens;
      }
      | none ↦ usage
    ]
    else usage

unfoldable pub use_events : ClaudeUsage → List Event → ClaudeUsage
use_events usage [] = usage
use_events usage (e ∷ es) = use_events (use_event usage e) es

unfoldable pub extract_usage : List Event → ClaudeUsage
unfolding use_events
extract_usage = use_events no_usage

unfoldable pub event_model : Event → Option Bytes
event_model event =
    if beq event.event_type (codes "message_start")
    then as_text (at (as_object (at event.event_data (codes "message"))) (codes "model"))
    else none

unfoldable pub extract_model : List Event → Bytes
unfolding event_model
extract_model [] = []
extract_model (e ∷ es) = elim (event_model e) [ some model ↦ model | none ↦ extract_model es ]

-- `none` in input is a nil map
pub record ToolUse : Type 0 where
  pub id : Bytes
  pub name : Bytes
  pub input : Option Members

unfoldable pub get_string : Members → Bytes → Bytes
get_string m key = elim (as_text (field key m)) [ some s ↦ s | none ↦ [] ]

-- m[key] == s, of an interface and a string
unfoldable pub is_text : Option Json → Bytes → Bool
is_text (some (text t)) s = beq t s
is_text o s = false

-- the tools so far, and the input text of each id
pub record Collected : Type 0 where
  pub tools : List ToolUse
  pub tool_inputs : Dict Bytes

-- content_block_start
unfoldable pub start_block : Collected → Members → Collected
unfolding get_string is_text
start_block c cb =
    let id = get_string cb (codes "id") in
    let name = get_string cb (codes "name") in
    if is_text (field (codes "type") cb) (codes "tool_use")
    then if not (is_empty id) && not (is_empty name)
      then record {
        tools = c.tools ++ record { id = id; name = name; input = none } ∷ [];
        tool_inputs = insert id [] c.tool_inputs;
      }
      else c
    else c

-- toolInputs[id] += partial
unfoldable pub append_input : Bytes → Bytes → Dict Bytes → Dict Bytes
append_input id partial inputs = elim (lookup id inputs) [
  | some old ↦ insert id (old ++ partial) inputs
  | none ↦ insert id partial inputs
]

-- the entry tools[idx] of an index below len(tools); `none` is the panic on a negative one
unfoldable pub tool_at : ℤ → List ToolUse → Option (Option ToolUse)
tool_at (pos i) tools = some (get_elem? tools i)
tool_at (negsuc i) tools = none

-- content_block_delta
unfoldable pub add_delta : Collected → Option Members → Members → Option Collected
unfolding is_text append_input tool_at
add_delta c event_data delta =
    if is_text (field (codes "type") delta) (codes "input_json_delta")
    then elim (as_number (at event_data (codes "index"))) [
      | none ↦ some c
      | some idx ↦ do
        tool ← tool_at idx c.tools
        elim tool [
          | none ↦ some c
          | some t ↦ elim (as_text (field (codes "partial_json") delta)) [
            | some partial ↦
                some (record c { tool_inputs = append_input t.id partial c.tool_inputs })
            | none ↦ some c
          ]
        ]
    ]
    else some c

unfoldable pub collect : Collected → Event → Option Collected
unfolding start_block add_delta
collect c event =
    if beq event.event_type (codes "content_block_start")
    then some (elim (as_object (at event.event_data (codes "content_block"))) [
      | some cb ↦ start_block c cb
      | none ↦ c
    ])
    else if beq event.event_type (codes "content_block_delta")
    then elim (as_object (at event.event_data (codes "delta"))) [
      | some delta ↦ add_delta c event.event_data delta
      | none ↦ some c
    ]
    else some c

unfoldable pub collect_all : Collected → List Event → Option Collected
unfolding collect
collect_all c [] = some c
collect_all c (e ∷ es) = collect c e >>= λ d. collect_all d es

module _ (unmarshal : Bytes → Option (Option Members)) where
  -- the input of a tool, from its accumulated text
  unfoldable pub with_input : Dict Bytes → ToolUse → ToolUse
  with_input inputs tool = elim (lookup tool.id inputs) [
    | some (c ∷ input) ↦ elim (unmarshal (c ∷ input)) [
      | some parsed ↦ record tool { input = parsed }
      | none ↦ tool
    ]
    | _ ↦ tool
  ]

  -- `none` is a panic
  unfoldable pub extract_tool_uses : List Event → Option (List ToolUse)
  extract_tool_uses events = do
    c ← collect_all (record { tools = []; tool_inputs = [] }) events
    some (map (with_input c.tool_inputs) c.tools)
