-- ===== src/Proxy/Mitm.antt =====
-- internal/proxy/mitm.go: what is kept of a request and of its response. The store, the callbacks
-- and the client are a list of effects, in their order; an error of the store is only logged, and the
-- callbacks are set. The decoders of encoding/json and the random ids are parameters.
pub mod Stream
pub mod Handle
pub mod Tls
pub mod Forwarded
pub mod Kept
pub mod Ends
pub mod Stuck
pub mod Refused
pub mod Saved
pub mod Recorded
mod Tests
use langley.Prelude.{
  ℕ, suc, ◌+◌, ◌*◌, Bool, true, false, not, ◌&&◌, List, [], ◌∷◌, ◌++◌, Option, none, some, Bytes,
  codes, is_empty, ltb, if◌then◌else◌, length, take, Dict,
}
use langley.Store.{Flow, ToolInvocation}
use langley.Config.{Config}
use langley.Redact.{Redactor, redact_headers, redact_body, should_store_body}
use langley.Task.{Assigner, Assignment, assign}
use langley.Analytics.Cost.{Engine, TokenCounts, calculate_cost}
use langley.Parser.Json.{ℤ, pos, negsuc, Members, no_members, member}
use langley.Parser.Sse.{Event}
use langley.Parser.Claude.{ToolUse}
use langley.Parser.ToolResult.{ToolResult, ResultBlock, extract_tool_results}
use langley.Parser.ToolJson.{ContentBlock, ToolCall, extract_tool_uses_from_json}
use langley.Provider.{Provider}
use langley.Provider.Usage.{Decoders, Usage, parse_usage}
use langley.Proxy.Headers.{Header}

-- what the packages outside the repository give
pub record Packages : Type 0 where
  pub user_id : Bytes → Option Bytes
  pub decode_messages : Bytes → Option (List Bytes)
  pub decode_blocks : Bytes → Option (List ResultBlock)
  pub decode_text : Bytes → Option Bytes
  pub decode_content : Bytes → Option (List ContentBlock)
  pub decode_choices : Bytes → Option (List (List ToolCall))
  pub unmarshal : Bytes → Option (Option Members)
  pub marshal : Members → Option Bytes
  pub usage : Decoders
  pub new_id : ℕ → Bytes
  pub header_text : Header → Bytes
  pub status_text : ℕ → Bytes

pub record MitmProxy : Type 0 where
  pub cfg : Config
  pub redactor : Option Redactor
  pub has_store : Bool
  pub task_assigner : Option Assigner
  pub providers : List Provider
  pub analytics : Option Engine

-- a request, with what io.ReadAll has read of its body
pub record Request : Type 0 where
  pub method : Bytes
  pub host : Bytes
  pub path : Bytes
  pub url : Bytes
  pub header : Header
  pub body : Bytes

pub data Effect : Type 0 where
  save_flow update_flow on_flow on_update : Flow → Effect
  save_event on_event : Event → Effect
  save_tool_invocation : ToolInvocation → Effect
  update_tool_result : Bytes → Bool → Option Bytes → Option Bytes → ℕ → Effect

-- an effect on the store, if there is one
abbrev pub stored : MitmProxy → Effect → List Effect
stored p e = if p.has_store then e ∷ [] else []

-- the body that is stored: none if it is empty
unfoldable pub redacted_text : Option Redactor → Bytes → Option Bytes
redacted_text r [] = none
redacted_text none (c ∷ body) = some (c ∷ body)
redacted_text (some r) (c ∷ body) =
    if should_store_body r then some (redact_body r (c ∷ body)) else none

abbrev pub redacted_header : Option Redactor → Header → Header
redacted_header none h = h
redacted_header (some r) h = redact_headers r h

-- the task of a request, and the assigner after it
unfoldable pub assigned :
    Packages → Option Assigner → ℕ → Bytes → Request → Option Assigner × Option Assignment
assigned pkg none now host r = (none, none)
assigned pkg (some a) now host r =
    let (b, assignment) = assign pkg.user_id a now host r.header r.body in (some b, some assignment)

-- the flow of a request before its response
unfoldable pub new_flow : MitmProxy → Bytes → ℕ → ℕ → Bytes → Request → Option Assignment → Flow
unfolding redacted_text
new_flow p flow_id now mono host r assignment = record {
  id = flow_id;
  task_id = elim assignment [ none ↦ none | some a ↦ some a.task_id ];
  task_source = elim assignment [ none ↦ none | some a ↦ some a.source ];
  host = host;
  method = r.method;
  path = r.path;
  url = r.url;
  timestamp = now;
  timestamp_mono = mono;
  duration_ms = none;
  status_code = none;
  status_text = none;
  is_sse = false;
  flow_integrity = codes "complete";
  events_dropped_count = 0;
  request_body = redacted_text p.redactor (take p.cfg.persistence.body_max_bytes r.body);
  request_body_truncated = ltb p.cfg.persistence.body_max_bytes (length r.body);
  response_body = none;
  response_body_truncated = false;
  request_headers = redacted_header p.redactor r.header;
  response_headers = [];
  request_signature = none;
  input_tokens = none;
  output_tokens = none;
  cache_creation_tokens = none;
  cache_read_tokens = none;
  total_cost = none;
  cost_source = none;
  model = none;
  provider = codes "other";
  expires_at = none;
}

-- the tool results of a request, one update for each
unfoldable pub tool_result_updates : ℕ → List ToolResult → List Effect
tool_result_updates now [] = []
tool_result_updates now (r ∷ rs) =
    update_tool_result r.tool_use_id (not r.is_error) (if r.is_error then r.content else none)
      r.content now
    ∷ tool_result_updates now rs

unfoldable pub correlate_tool_results : Packages → MitmProxy → ℕ → Bytes → List Effect
unfolding tool_result_updates
correlate_tool_results pkg p now [] = []
correlate_tool_results pkg p now (c ∷ body) =
    let results =
      extract_tool_results pkg.decode_messages pkg.decode_blocks pkg.decode_text (c ∷ body) in
    if p.has_store then tool_result_updates now results else []

abbrev pub nanoseconds_per_day : ℕ
nanoseconds_per_day = 24 * 3_600 * 1_000_000_000

-- saveFlow sets the time at which the flow expires; without a store it does nothing
unfoldable pub expiring : MitmProxy → ℕ → Flow → Flow
expiring p now flow =
    if p.has_store
    then record flow {
      expires_at = some (now + p.cfg.retention.flows_ttl_days * nanoseconds_per_day);
    }
    else flow

unfoldable pub save : MitmProxy → ℕ → Flow → List Effect
unfolding expiring
save p now flow = stored p (update_flow (expiring p now flow))

unfoldable pub tool_input_text : Packages → Option Members → Option Bytes
tool_input_text pkg none = none
tool_input_text pkg (some no_members) = none
tool_input_text pkg (some (member k v m)) = pkg.marshal (member k v m)

-- the loop of saveToolInvocations; `n` counts the ids that are given
unfoldable pub tool_invocations :
    Packages → ℕ → ℕ → Bytes → Option Bytes → List ToolUse → List Effect
unfolding tool_input_text
tool_invocations pkg now n flow_id task_id [] = []
tool_invocations pkg now n flow_id task_id (tool ∷ tools) =
    save_tool_invocation (record {
      id = pkg.new_id n;
      flow_id = flow_id;
      task_id = task_id;
      tool_use_id = some tool.id;
      tool_name = tool.name;
      tool_type = none;
      timestamp = now;
      duration_ms = none;
      success = none;
      error_message = none;
      tool_input = tool_input_text pkg tool.input;
      tool_result = none;
      input_tokens = none;
      output_tokens = none;
      cost = none;
      expires_at = none;
    })
    ∷ tool_invocations pkg now (suc n) flow_id task_id tools

unfoldable pub save_tool_invocations :
    Packages → MitmProxy → ℕ → Bytes → Option Bytes → List ToolUse → List Effect
unfolding tool_invocations
save_tool_invocations pkg p now flow_id task_id tools =
    if p.has_store then tool_invocations pkg now 0 flow_id task_id tools else []

-- a count that is stored: it must be positive
unfoldable pub count_above_zero : ℤ → Option ℕ → Option ℕ
count_above_zero (pos (suc n)) old = some (suc n)
count_above_zero n old = old

abbrev pub text_or : Bytes → Option Bytes → Option Bytes
text_or [] old = old
text_or (c ∷ s) old = some (c ∷ s)

unfoldable pub with_usage : Flow → Usage → Flow
unfolding count_above_zero
with_usage flow usage = record flow {
  model = text_or usage.model flow.model;
  input_tokens = count_above_zero usage.input_tokens flow.input_tokens;
  output_tokens = count_above_zero usage.output_tokens flow.output_tokens;
  cache_creation_tokens = count_above_zero usage.cache_creation_tokens flow.cache_creation_tokens;
  cache_read_tokens = count_above_zero usage.cache_read_tokens flow.cache_read_tokens;
}

abbrev pub or_zero : Option ℕ → ℕ
or_zero none = 0
or_zero (some n) = n

abbrev pub token_counts : Flow → TokenCounts
token_counts flow = record {
  input_tokens = or_zero flow.input_tokens;
  output_tokens = or_zero flow.output_tokens;
  cache_creation = or_zero flow.cache_creation_tokens;
  cache_read = or_zero flow.cache_read_tokens;
}

abbrev pub model_or_unknown : Option Bytes → Bytes
model_or_unknown none = codes "unknown"
model_or_unknown (some model) = model

-- a flow that has input tokens gets their cost, if there is a price
unfoldable pub with_cost : Option Engine → Flow → Flow
with_cost none flow = flow
with_cost (some engine) flow = elim flow.input_tokens [
  | none ↦ flow
  | some n ↦
      elim (calculate_cost engine flow.provider (model_or_unknown flow.model) (token_counts flow)) [
        | none ↦ flow
        | some (cost, source) ↦
            if is_empty source
            then flow
            else record flow { total_cost = some cost; cost_source = some source }
      ]
]

unfoldable pub extract_usage_and_cost : Packages → Option Engine → Flow → Provider → Bytes → Flow
unfolding with_usage with_cost
extract_usage_and_cost pkg analytics flow provider [] = flow
extract_usage_and_cost pkg analytics flow provider (c ∷ body) =
    with_cost analytics (elim (parse_usage pkg.usage provider (c ∷ body) flow.is_sse) [
      | none ↦ flow
      | some usage ↦ with_usage flow usage
    ])

-- the calls of a response that is no stream
unfoldable pub save_json_tools : Packages → MitmProxy → ℕ → Flow → Bytes → List Effect
unfolding save_tool_invocations
save_json_tools pkg p now flow [] = []
save_json_tools pkg p now flow (c ∷ body) =
    if flow.is_sse
    then []
    else save_tool_invocations pkg p now flow.id flow.task_id
        (extract_tool_uses_from_json pkg.decode_content pkg.decode_choices pkg.unmarshal (c ∷ body))
