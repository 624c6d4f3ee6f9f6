-- ===== src/Store/Query.antt =====
-- The queries of internal/store/sqlite.go that are put together from a filter: their texts with the
-- arguments of their placeholders, and their results. Texts are without the layout's white space.
-- SQLite gives the rows of one timestamp in an order of its own, the same for the same rows: `order`.
pub mod Paged
pub mod Bound
use langley.Prelude.{
  ℕ, ◌+◌, Bool, true, false, not, ◌&&◌, ◌||◌, List, [], ◌∷◌, ◌++◌, map, Option, none, some, Bytes,
  codes, beq, ltb, ◌==◌, if◌then◌else◌, length, take, drop,
}
use langley.Store.{Event, Flow, ToolInvocation, FlowFilter}
use langley.Store.Tables.{EventRow, FlowRow, ToolRow, Database, Codec, text_lt}
use langley.Store.Sqlite.{scan_flow_rows}
use langley.Store.Sqlite.Children.{scan_event, scan_tool_invocation, with_key}

-- the tests that a filter puts after WHERE 1=1; a time is its text
pub data Condition : Type 0 where
  host_is task_id_is task_source_is model_is from_time to_time : Bytes → Condition

abbrev pub given {ℓ κ} : {A : Type ℓ} {B : Type κ} → (A → B) → Option A → List B
given f none = []
given f (some a) = f a ∷ []

-- the if statements of ListFlows
unfoldable pub conditions : (ℕ → Bytes) → FlowFilter → List Condition
conditions format_time filter =
    given host_is filter.host
    ++ (given task_id_is filter.task_id
        ++ (given task_source_is filter.task_source
            ++ (given model_is filter.model
                ++ (given (λ t. from_time (format_time t)) filter.start_time
                    ++ given (λ t. to_time (format_time t)) filter.end_time))))

-- the if statements of CountFlows, which are written out a second time
unfoldable pub count_conditions : (ℕ → Bytes) → FlowFilter → List Condition
count_conditions format_time filter =
    given host_is filter.host
    ++ (given task_id_is filter.task_id
        ++ (given task_source_is filter.task_source
            ++ (given model_is filter.model
                ++ (given (λ t. from_time (format_time t)) filter.start_time
                    ++ given (λ t. to_time (format_time t)) filter.end_time))))

abbrev pub clause : Condition → Bytes
clause (host_is x) = codes " AND host = ?"
clause (task_id_is x) = codes " AND task_id = ?"
clause (task_source_is x) = codes " AND task_source = ?"
clause (model_is x) = codes " AND model = ?"
clause (from_time x) = codes " AND timestamp >= ?"
clause (to_time x) = codes " AND timestamp <= ?"

pub data Argument : Type 0 where
  text : Bytes → Argument
  number : ℕ → Argument

abbrev pub argument : Condition → Argument
argument (host_is x) = text x
argument (task_id_is x) = text x
argument (task_source_is x) = text x
argument (model_is x) = text x
argument (from_time x) = text x
argument (to_time x) = text x

-- a query as QueryContext gets it
pub record Query : Type 0 where
  pub sql : Bytes
  pub args : List Argument

-- query.WriteString and append, in one
abbrev pub extended : Query → Bytes → List Argument → Query
extended q more args = record { sql = q.sql ++ more; args = q.args ++ args }

unfoldable pub with_conditions : Query → List Condition → Query
with_conditions q [] = q
with_conditions q (c ∷ cs) = with_conditions (extended q (clause c) (argument c ∷ [])) cs

abbrev pub flow_columns : Bytes
flow_columns =
    codes "SELECT id, task_id, task_source, host, method, path, url, "
    ++ (codes "timestamp, timestamp_mono, duration_ms, status_code, status_text, "
        ++ (codes "is_sse, flow_integrity, events_dropped_count, "
            ++ (codes "request_body, request_body_truncated, response_body, "
                ++ (codes "response_body_truncated, request_headers, response_headers, "
                    ++ (codes "request_signature, input_tokens, output_tokens, "
                        ++ (codes "cache_creation_tokens, cache_read_tokens, total_cost, "
                            ++ codes "cost_source, model, provider, created_at, expires_at "))))))

-- an `if n > 0` for LIMIT or OFFSET
abbrev pub with_number : Bytes → ℕ → Query → Query
with_number word n q = if ltb 0 n then extended q word (number n ∷ []) else q

unfoldable pub list_query : (ℕ → Bytes) → FlowFilter → Query
unfolding conditions with_conditions
list_query format_time filter =
    let start : Query = record { sql = flow_columns ++ codes "FROM flows WHERE 1=1"; args = [] } in
    let filtered = with_conditions start (conditions format_time filter) in
    with_number (codes " OFFSET ?") filter.offset (
      with_number (codes " LIMIT ?") filter.limit
        (extended filtered (codes " ORDER BY timestamp DESC") []))

unfoldable pub count_query : (ℕ → Bytes) → FlowFilter → Query
unfolding count_conditions with_conditions
count_query format_time filter =
    with_conditions (record { sql = codes "SELECT COUNT(*) FROM flows WHERE 1=1"; args = [] })
      (count_conditions format_time filter)

-- a comparison of a column that may be NULL
abbrev pub equals : Option Bytes → Bytes → Bool
equals none x = false
equals (some y) x = beq y x

abbrev pub meets : FlowRow → Condition → Bool
meets r (host_is x) = beq r.host x
meets r (task_id_is x) = equals r.task_id x
meets r (task_source_is x) = equals r.task_source x
meets r (model_is x) = equals r.model x
meets r (from_time x) = not (text_lt r.timestamp x)
meets r (to_time x) = not (text_lt x r.timestamp)

unfoldable pub meets_all : FlowRow → List Condition → Bool
meets_all r [] = true
meets_all r (c ∷ cs) = meets r c && meets_all r cs

unfoldable pub matching : List Condition → List FlowRow → List FlowRow
unfolding meets_all
matching cs [] = []
matching cs (r ∷ rs) = let rest = matching cs rs in if meets_all r cs then r ∷ rest else rest

module _ (c : Codec) where
  module _ (order : List FlowRow → List FlowRow) where
    -- ListFlows. SQLite takes OFFSET only after a LIMIT: without one the query is an error.
    unfoldable pub list_flows : FlowFilter → Database → Option (List Flow)
    list_flows filter db =
        let rows = order (matching (conditions c.format_time filter) db.flows) in
        if ltb 0 filter.limit
        then some (map (scan_flow_rows c) (take filter.limit (drop filter.offset rows)))
        else if ltb 0 filter.offset
        then none
        else some (map (scan_flow_rows c) rows)

  unfoldable pub count_flows : FlowFilter → Database → ℕ
  count_flows filter db = length (matching (count_conditions c.format_time filter) db.flows)

  -- tool_name = ? AND timestamp >= ? AND timestamp <= ?
  abbrev pub is_call_of : Bytes → Bytes → Bytes → ToolRow → Bool
  is_call_of tool_name start end r =
      beq r.tool_name tool_name
      && (not (text_lt r.timestamp start) && not (text_lt end r.timestamp))

  unfoldable pub calls_of : Bytes → Bytes → Bytes → List ToolRow → List ToolRow
  calls_of tool_name start end [] = []
  calls_of tool_name start end (r ∷ rs) =
      let rest = calls_of tool_name start end rs in
      if is_call_of tool_name start end r then r ∷ rest else rest

  -- ListToolInvocations: the page, and the count of all
  unfoldable pub list_tool_invocations :
      (List ToolRow → List ToolRow) → Bytes → ℕ → ℕ → ℕ → ℕ → Database → List ToolInvocation × ℕ
  unfolding calls_of scan_tool_invocation
  list_tool_invocations order tool_name start end limit offset db =
      let rows = calls_of tool_name (c.format_time start) (c.format_time end) db.tool_invocations in
      (map (scan_tool_invocation c) (take limit (drop offset (order rows))), length rows)

  -- GetToolInvocationsByFlow
  unfoldable pub get_tool_invocations_by_flow :
      (List ToolRow → List ToolRow) → Bytes → Database → List ToolInvocation
  unfolding with_key scan_tool_invocation
  get_tool_invocations_by_flow order flow_id db =
      map (scan_tool_invocation c) (order (with_key ToolRow.flow_id flow_id db.tool_invocations))

  -- GetEventsByFlow, in the order of their sequence numbers
  unfoldable pub get_events_by_flow :
      (List EventRow → List EventRow) → Bytes → Database → List Event
  unfolding with_key scan_event
  get_events_by_flow order flow_id db =
      map (scan_event c) (order (with_key EventRow.flow_id flow_id db.events))
