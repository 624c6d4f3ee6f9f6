-- ===== src/Store/Sqlite.antt =====
-- The statements of internal/store/sqlite.go over its tables. `none` is an error, after which the
-- tables are as before; the engine itself does not fail. `now` is the text of datetime('now'), and
-- foreign keys are on, so that a row of flows takes its events and tool invocations along.
pub mod Children
pub mod Stored
pub mod Keys
pub mod Linked
pub mod Calls
pub mod Retention
use langley.Prelude.{
  ℕ, ◌+◌, ◌-◌, Bool, true, false, not, ◌&&◌, ◌||◌, List, [], ◌∷◌, ◌++◌, map, Option, none, some,
  ◌>>=◌, Bytes, codes, beq, ◌==◌, if◌then◌else◌, length,
}
use langley.Task.{Source, explicit, metadata, inferred}
use langley.Store.{Flow, Event, ToolInvocation, DropLogEntry}
use langley.Store.Tables.{
  FlowRow, EventRow, ToolRow, DropRow, Database, Codec, is_in, priorities, flow_checks, has_key,
  find_key, delete_keys, text_lt, before_text,
}

-- a pointer's value through a function: nil is NULL
abbrev pub nullable {ℓ κ} : {A : Type ℓ} {B : Type κ} → (A → B) → Option A → Option B
nullable f none = none
nullable f (some a) = some (f a)

-- task.Source is a text
abbrev pub source_name : Source → Bytes
source_name explicit = codes "explicit"
source_name metadata = codes "metadata"
source_name inferred = codes "inferred"

-- the source of a text, which the CHECK of its column keeps to the three
unfoldable pub source_of : Option Bytes → Option Source
source_of none = none
source_of (some t) =
    if beq t (codes "explicit")
    then some explicit
    else if beq t (codes "metadata")
    then some metadata
    else if beq t (codes "inferred")
    then some inferred
    else none

module _ (c : Codec) where
  -- the row of an INSERT
  unfoldable pub flow_row : Bytes → Flow → FlowRow
  flow_row now f = record {
    id = f.id;
    task_id = f.task_id;
    task_source = nullable source_name f.task_source;
    host = f.host;
    method = f.method;
    path = f.path;
    url = f.url;
    timestamp = c.format_time f.timestamp;
    timestamp_mono = some f.timestamp_mono;
    duration_ms = f.duration_ms;
    status_code = f.status_code;
    status_text = f.status_text;
    is_sse = f.is_sse;
    flow_integrity = f.flow_integrity;
    events_dropped_count = f.events_dropped_count;
    request_body = f.request_body;
    request_body_truncated = f.request_body_truncated;
    response_body = f.response_body;
    response_body_truncated = f.response_body_truncated;
    request_headers = some (c.marshal_headers f.request_headers);
    response_headers = some (c.marshal_headers f.response_headers);
    request_signature = f.request_signature;
    input_tokens = f.input_tokens;
    output_tokens = f.output_tokens;
    cache_creation_tokens = f.cache_creation_tokens;
    cache_read_tokens = f.cache_read_tokens;
    total_cost = f.total_cost;
    cost_source = f.cost_source;
    model = f.model;
    provider = f.provider;
    created_at = now;
    expires_at = nullable c.format_time f.expires_at;
  }

  unfoldable pub save_flow : Bytes → Flow → Database → Option Database
  unfolding flow_row flow_checks
  save_flow now f db =
      if has_key FlowRow.id f.id db.flows || not (flow_checks (flow_row now f))
      then none
      else some (record db { flows = db.flows ++ flow_row now f ∷ [] })

  -- the SET of an UPDATE
  unfoldable pub updated_row : Flow → FlowRow → FlowRow
  updated_row f r = record r {
    task_id = f.task_id;
    task_source = nullable source_name f.task_source;
    duration_ms = f.duration_ms;
    status_code = f.status_code;
    status_text = f.status_text;
    is_sse = f.is_sse;
    flow_integrity = f.flow_integrity;
    events_dropped_count = f.events_dropped_count;
    response_body = f.response_body;
    response_body_truncated = f.response_body_truncated;
    request_headers = some (c.marshal_headers f.request_headers);
    response_headers = some (c.marshal_headers f.response_headers);
    input_tokens = f.input_tokens;
    output_tokens = f.output_tokens;
    cache_creation_tokens = f.cache_creation_tokens;
    cache_read_tokens = f.cache_read_tokens;
    total_cost = f.total_cost;
    cost_source = f.cost_source;
    model = f.model;
  }

  -- the rows after the UPDATE, if each of them meets the constraints
  unfoldable pub update_rows : Flow → List FlowRow → Option (List FlowRow)
  unfolding updated_row flow_checks
  update_rows f [] = some []
  update_rows f (r ∷ rs) = do
    rest ← update_rows f rs
    if not (beq r.id f.id)
        then some (r ∷ rest)
        else if flow_checks (updated_row f r)
        then some (updated_row f r ∷ rest)
        else none

  unfoldable pub update_flow : Flow → Database → Option Database
  unfolding update_rows
  update_flow f db = do rows ← update_rows f db.flows; some (record db { flows = rows })

  -- scanFlow
  unfoldable pub scan_flow : FlowRow → Flow
  unfolding source_of
  scan_flow r = record {
    id = r.id;
    task_id = r.task_id;
    task_source = source_of r.task_source;
    host = r.host;
    method = r.method;
    path = r.path;
    url = r.url;
    timestamp = c.parse_time r.timestamp;
    timestamp_mono = elim r.timestamp_mono [ none ↦ 0 | some n ↦ n ];
    duration_ms = r.duration_ms;
    status_code = r.status_code;
    status_text = r.status_text;
    is_sse = r.is_sse;
    flow_integrity = r.flow_integrity;
    events_dropped_count = r.events_dropped_count;
    request_body = r.request_body;
    request_body_truncated = r.request_body_truncated;
    response_body = r.response_body;
    response_body_truncated = r.response_body_truncated;
    request_headers = elim r.request_headers [ none ↦ [] | some t ↦ c.unmarshal_headers t ];
    response_headers = elim r.response_headers [ none ↦ [] | some t ↦ c.unmarshal_headers t ];
    request_signature = r.request_signature;
    input_tokens = r.input_tokens;
    output_tokens = r.output_tokens;
    cache_creation_tokens = r.cache_creation_tokens;
    cache_read_tokens = r.cache_read_tokens;
    total_cost = r.total_cost;
    cost_source = r.cost_source;
    model = r.model;
    provider = r.provider;
    expires_at = nullable c.parse_time r.expires_at;
  }

  -- scanFlowRows, the same over a row of many
  unfoldable pub scan_flow_rows : FlowRow → Flow
  unfolding scan_flow
  scan_flow_rows = scan_flow

  unfoldable pub get_flow : Bytes → Database → Option Flow
  unfolding scan_flow
  get_flow id db = nullable scan_flow (find_key FlowRow.id id db.flows)

-- some flows are deleted with their events and their tool invocations
abbrev pub cascade : List Bytes → Database → Database
cascade ids db = record db {
  flows = delete_keys FlowRow.id ids db.flows;
  events = delete_keys EventRow.flow_id ids db.events;
  tool_invocations = delete_keys ToolRow.flow_id ids db.tool_invocations;
}

unfoldable pub delete_flow : Bytes → Database → Database
delete_flow id db = if has_key FlowRow.id id db.flows then cascade (id ∷ []) db else db

-- the ids of the rows with expires_at < now
unfoldable pub expired_ids : Bytes → List FlowRow → List Bytes
expired_ids now [] = []
expired_ids now (r ∷ rs) =
    let rest = expired_ids now rs in if before_text r.expires_at now then r.id ∷ rest else rest

unfoldable pub keep_drops : Bytes → List DropRow → List DropRow
keep_drops cutoff [] = []
keep_drops cutoff (r ∷ rs) =
    let rest = keep_drops cutoff rs in if text_lt r.timestamp cutoff then rest else r ∷ rest

-- RunRetention, with the text of datetime('now', '-N days') for the TTL of the drop log: the tables,
-- and the number of rows that are deleted from flows and from the drop log
unfoldable pub run_retention : Bytes → Bytes → Database → Database × ℕ
unfolding expired_ids keep_drops
run_retention now cutoff db =
    let ids = expired_ids now db.flows in
    let drops = keep_drops cutoff db.drop_log in
    (record (cascade ids db) { drop_log = drops }, length ids + (length db.drop_log - length drops))
