-- ===== src/Store/Sqlite/Children.antt =====
-- The events, the tool invocations and the drop log of internal/store/sqlite.go.
use langley.Prelude.{
  ℕ, Bool, false, not, ◌&&◌, ◌||◌, List, [], ◌∷◌, ◌++◌, Option, none, some, ◌>>=◌, Bytes, beq, ◌==◌,
  if◌then◌else◌,
}
use langley.Store.{Event, ToolInvocation, DropLogEntry}
use langley.Store.Tables.{
  FlowRow, EventRow, ToolRow, Database, Codec, is_in, priorities, has_key, find_key,
}
use langley.Store.Sqlite.{nullable}

-- UNIQUE (flow_id, sequence)
unfoldable pub has_sequence : Bytes → ℕ → List EventRow → Bool
has_sequence flow_id n [] = false
has_sequence flow_id n (r ∷ rs) =
    (beq r.flow_id flow_id && r.sequence == n) || has_sequence flow_id n rs

-- SELECT ... WHERE flow_id = ?
module _ {ℓ} {R : Type ℓ} (key : R → Bytes) where
  unfoldable pub with_key : Bytes → List R → List R
  with_key k [] = []
  with_key k (r ∷ rs) = let rest = with_key k rs in if beq (key r) k then r ∷ rest else rest

-- the constraints of an INSERT into events
unfoldable pub event_fits : Event → Database → Bool
unfolding has_key has_sequence is_in
event_fits e db =
    not (has_key EventRow.id e.id db.events)
    && not (has_sequence e.flow_id e.sequence db.events)
    && has_key FlowRow.id e.flow_id db.flows
    && is_in e.priority priorities

abbrev pub is_of_use : Bytes → Option Bytes → Bool
is_of_use tool_use_id none = false
is_of_use tool_use_id (some t) = beq t tool_use_id

module _ (c : Codec) where
  unfoldable pub event_row : Bytes → Event → EventRow
  event_row now e = record {
    id = e.id;
    flow_id = e.flow_id;
    sequence = e.sequence;
    timestamp = c.format_time e.timestamp;
    timestamp_mono = e.timestamp_mono;
    event_type = e.event_type;
    event_data = some (c.marshal_data e.event_data);
    priority = e.priority;
    created_at = now;
    expires_at = nullable c.format_time e.expires_at;
  }

  unfoldable pub save_event : Bytes → Event → Database → Option Database
  unfolding event_row event_fits
  save_event now e db =
      if event_fits e db
      then some (record db { events = db.events ++ event_row now e ∷ [] })
      else none

  -- the loop of SaveEvents, in its transaction
  unfoldable pub insert_events : Bytes → List Event → Database → Option Database
  unfolding save_event
  insert_events now [] db = some db
  insert_events now (e ∷ es) db = save_event now e db >>= insert_events now es

  unfoldable pub save_events : Bytes → List Event → Database → Option Database
  unfolding insert_events
  save_events now [] db = some db
  save_events now (e ∷ es) db = insert_events now (e ∷ es) db

  -- the loop of GetEventsByFlow over a row
  unfoldable pub scan_event : EventRow → Event
  scan_event r = record {
    id = r.id;
    flow_id = r.flow_id;
    sequence = r.sequence;
    timestamp = c.parse_time r.timestamp;
    timestamp_mono = r.timestamp_mono;
    event_type = r.event_type;
    event_data = elim r.event_data [ none ↦ none | some t ↦ c.unmarshal_data t ];
    priority = r.priority;
    expires_at = nullable c.parse_time r.expires_at;
  }

  unfoldable pub tool_row : Bytes → ToolInvocation → ToolRow
  tool_row now i = record {
    id = i.id;
    flow_id = i.flow_id;
    task_id = i.task_id;
    tool_use_id = i.tool_use_id;
    tool_name = i.tool_name;
    tool_type = i.tool_type;
    timestamp = c.format_time i.timestamp;
    duration_ms = i.duration_ms;
    success = i.success;
    error_message = i.error_message;
    tool_input = i.tool_input;
    tool_result = i.tool_result;
    input_tokens = i.input_tokens;
    output_tokens = i.output_tokens;
    cost = i.cost;
    created_at = now;
    expires_at = nullable c.format_time i.expires_at;
  }

  unfoldable pub save_tool_invocation : Bytes → ToolInvocation → Database → Option Database
  unfolding tool_row has_key
  save_tool_invocation now i db =
      if has_key ToolRow.id i.id db.tool_invocations || not (has_key FlowRow.id i.flow_id db.flows)
      then none
      else some (record db { tool_invocations = db.tool_invocations ++ tool_row now i ∷ [] })

  unfoldable pub scan_tool_invocation : ToolRow → ToolInvocation
  scan_tool_invocation r = record {
    id = r.id;
    flow_id = r.flow_id;
    task_id = r.task_id;
    tool_use_id = r.tool_use_id;
    tool_name = r.tool_name;
    tool_type = r.tool_type;
    timestamp = c.parse_time r.timestamp;
    duration_ms = r.duration_ms;
    success = r.success;
    error_message = r.error_message;
    tool_input = r.tool_input;
    tool_result = r.tool_result;
    input_tokens = r.input_tokens;
    output_tokens = r.output_tokens;
    cost = r.cost;
    expires_at = nullable c.parse_time r.expires_at;
  }

  unfoldable pub get_tool_invocation : Bytes → Database → Option ToolInvocation
  unfolding scan_tool_invocation find_key
  get_tool_invocation id db =
      nullable scan_tool_invocation (find_key ToolRow.id id db.tool_invocations)

  -- the SET of UpdateToolResult; julianday reads the two times
  abbrev pub resulted_row : Bool → Option Bytes → Option Bytes → ℕ → ToolRow → ToolRow
  resulted_row success error_msg content result_time r = record r {
    success = some success;
    error_message = error_msg;
    tool_result = content;
    duration_ms = c.elapsed_ms (c.format_time result_time) r.timestamp;
  }

  unfoldable pub result_rows :
      Bytes → Bool → Option Bytes → Option Bytes → ℕ → List ToolRow → List ToolRow
  result_rows tool_use_id success error_msg content result_time [] = []
  result_rows tool_use_id success error_msg content result_time (r ∷ rs) =
      (if is_of_use tool_use_id r.tool_use_id
        then resulted_row success error_msg content result_time r
        else r)
      ∷ result_rows tool_use_id success error_msg content result_time rs

  unfoldable pub update_tool_result :
      Bytes → Bool → Option Bytes → Option Bytes → ℕ → Database → Database
  unfolding result_rows
  update_tool_result tool_use_id success error_msg content result_time db = record db {
    tool_invocations =
        result_rows tool_use_id success error_msg content result_time db.tool_invocations;
  }

unfoldable pub log_drop : Bytes → DropLogEntry → Database → Option Database
unfolding is_in
log_drop now e db =
    if is_in e.priority priorities
    then some (record db {
      drop_log =
          db.drop_log
          ++ record {
            flow_id = e.flow_id;
            event_type = e.event_type;
            priority = e.priority;
            reason = e.reason;
            timestamp = now;
          }
            ∷ [];
    })
    else none
