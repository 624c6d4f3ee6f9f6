-- ===== src/Store/Sqlite/Calls.antt =====
-- Sequences of the operations of internal/store/sqlite.go.
use langley.Prelude.{
  ℕ, ◌≡◌, refl, ap, Bool, not, ◌||◌, List, [], ◌∷◌, map, Option, none, some, ◌>>=◌, Bytes,
  Bool-cases, inl, inr, arith,
}
use langley.Store.{Flow, Event, ToolInvocation, DropLogEntry}
use langley.Store.Tables.{FlowRow, EventRow, ToolRow, Database, Codec, has_key, is_in, priorities}
use langley.Store.Sqlite.{save_flow, update_flow, delete_flow, expired_ids, run_retention}
use langley.Store.Sqlite.Children.{
  event_row, event_fits, save_event, insert_events, save_events, tool_row, save_tool_invocation,
  result_rows, update_tool_result, log_drop, is_of_use,
}
use langley.Store.Sqlite.Keys.{Distinct-append, Distinct-map, RefersTo-append, RefersTo-map}
use langley.Store.Sqlite.Linked.{
  IsLinked, or_same, cascade-IsLinked, save_flow-IsLinked, update_flow-IsLinked,
  delete_flow-IsLinked,
}

pub data Call : Type 0 where
  save update : Flow → Call
  delete : Bytes → Call
  save_one : Event → Call
  save_batch : List Event → Call
  save_tool : ToolInvocation → Call
  tool_result : Bytes → Bool → Option Bytes → Option Bytes → ℕ → Call
  drop_logged : DropLogEntry → Call
  retention : Bytes → Call

module _ (c : Codec) where
  save_event-IsLinked :
      (now : Bytes) (e : Event) (db : Database)
      → IsLinked db
      → IsLinked (or_same (save_event c now e db) db)
  unfolding save_event event_row event_fits
  save_event-IsLinked now e db v = elim (Bool-cases (event_fits e db)) [
    | inr refused ↦ rw refused v
    | inl fits ↦ rw fits (record {
      flow_ids = v.flow_ids;
      checked = v.checked;
      event_ids = Distinct-append EventRow.id db.events _ (ground arith) v.event_ids;
      tool_ids = v.tool_ids;
      events_of = RefersTo-append EventRow.flow_id db.flows db.events _ (ground arith) v.events_of;
      tools_of = v.tools_of;
    })
  ]

  -- a batch that fails leaves nothing; one that succeeds is its events, one by one
  insert_events-IsLinked :
      (now : Bytes) (es : List Event) (start db : Database)
      → IsLinked start
      → IsLinked db
      → IsLinked (or_same (insert_events c now es db) start)
  unfolding insert_events
  insert_events-IsLinked now [] start db u v = v
  insert_events-IsLinked now (e ∷ es) start db u v =
      by_first (save_event c now e db) (save_event-IsLinked now e db v)
        (λ next w. insert_events-IsLinked now es start next u w)
    where
      by_first :
          (o : Option Database)
          → IsLinked (or_same o db)
          → ((next : Database)
              → IsLinked next
              → IsLinked (or_same (insert_events c now es next) start))
          → IsLinked (or_same (o >>= insert_events c now es) start)
      by_first none w ih = u
      by_first (some next) w ih = ih next w

  save_events-IsLinked :
      (now : Bytes) (es : List Event) (db : Database)
      → IsLinked db
      → IsLinked (or_same (save_events c now es db) db)
  unfolding save_events
  save_events-IsLinked now [] db v = v
  save_events-IsLinked now (e ∷ es) db v = insert_events-IsLinked now (e ∷ es) db db v v

  save_tool_invocation-IsLinked :
      (now : Bytes) (i : ToolInvocation) (db : Database)
      → IsLinked db
      → IsLinked (or_same (save_tool_invocation c now i db) db)
  unfolding save_tool_invocation tool_row
  save_tool_invocation-IsLinked now i db v =
      elim (Bool-cases (
        has_key ToolRow.id i.id db.tool_invocations
        || not (has_key FlowRow.id i.flow_id db.flows))) [
          | inl refused ↦ rw refused v
          | inr taken ↦ rw taken (record {
            flow_ids = v.flow_ids;
            checked = v.checked;
            event_ids = v.event_ids;
            tool_ids = Distinct-append ToolRow.id db.tool_invocations _ (ground arith) v.tool_ids;
            events_of = v.events_of;
            tools_of =
                RefersTo-append ToolRow.flow_id db.flows db.tool_invocations _ (ground arith)
                  v.tools_of;
          })
        ]

  module _ (use_id : Bytes) (success : Bool) (error_msg content : Option Bytes) (at : ℕ) where
    result_rows-keys :
        (rs : List ToolRow)
        → (map ToolRow.id (result_rows c use_id success error_msg content at rs)
            ≡ map ToolRow.id rs)
          × (map ToolRow.flow_id (result_rows c use_id success error_msg content at rs)
              ≡ map ToolRow.flow_id rs)
    unfolding result_rows
    result_rows-keys [] = (refl, refl)
    result_rows-keys (r ∷ rs) =
        let rest = result_rows-keys rs in
        elim (Bool-cases (is_of_use use_id r.tool_use_id)) [
          | inl e ↦ rw e (ap (◌∷◌ r.id) rest.0, ap (◌∷◌ r.flow_id) rest.1)
          | inr e ↦ rw e (ap (◌∷◌ r.id) rest.0, ap (◌∷◌ r.flow_id) rest.1)
        ]

    update_tool_result-IsLinked :
        (db : Database)
        → IsLinked db
        → IsLinked (update_tool_result c use_id success error_msg content at db)
    unfolding update_tool_result
    update_tool_result-IsLinked db v =
        let (ids, flows) = result_rows-keys db.tool_invocations in
        record {
          flow_ids = v.flow_ids;
          checked = v.checked;
          event_ids = v.event_ids;
          tool_ids = Distinct-map ToolRow.id _ db.tool_invocations ids v.tool_ids;
          events_of = v.events_of;
          tools_of = RefersTo-map ToolRow.flow_id db.flows _ db.tool_invocations flows v.tools_of;
        }

  -- one operation; an error leaves the tables as they were
  unfoldable pub perform : Bytes → Call → Database → Database
  perform now (save f) db = or_same (save_flow c now f db) db
  perform now (update f) db = or_same (update_flow c f db) db
  perform now (delete id) db = delete_flow id db
  perform now (save_one e) db = or_same (save_event c now e db) db
  perform now (save_batch es) db = or_same (save_events c now es db) db
  perform now (save_tool i) db = or_same (save_tool_invocation c now i db) db
  perform now (tool_result use_id success error_msg content at) db =
      update_tool_result c use_id success error_msg content at db
  perform now (drop_logged e) db = or_same (log_drop now e db) db
  perform now (retention cutoff) db = (run_retention now cutoff db).0

  log_drop-IsLinked :
      (now : Bytes) (e : DropLogEntry) (db : Database)
      → IsLinked db
      → IsLinked (or_same (log_drop now e db) db)
  unfolding log_drop
  log_drop-IsLinked now e db v = elim (Bool-cases (is_in e.priority priorities)) [
    | inr refused ↦ rw refused v
    | inl fits ↦ rw fits (record {
      flow_ids = v.flow_ids;
      checked = v.checked;
      event_ids = v.event_ids;
      tool_ids = v.tool_ids;
      events_of = v.events_of;
      tools_of = v.tools_of;
    })
  ]

  perform-IsLinked :
      (now : Bytes) (call : Call) (db : Database) → IsLinked db → IsLinked (perform now call db)
  unfolding perform run_retention
  perform-IsLinked now (save f) db v = save_flow-IsLinked c now f db v
  perform-IsLinked now (update f) db v = update_flow-IsLinked c f db v
  perform-IsLinked now (delete id) db v = delete_flow-IsLinked id db v
  perform-IsLinked now (save_one e) db v = save_event-IsLinked now e db v
  perform-IsLinked now (save_batch es) db v = save_events-IsLinked now es db v
  perform-IsLinked now (save_tool i) db v = save_tool_invocation-IsLinked now i db v
  perform-IsLinked now (tool_result use_id success error_msg content at) db v =
      update_tool_result-IsLinked use_id success error_msg content at db v
  perform-IsLinked now (drop_logged e) db v = log_drop-IsLinked now e db v
  perform-IsLinked now (retention cutoff) db v =
      let w = cascade-IsLinked (expired_ids now db.flows) db v in
      record {
        flow_ids = w.flow_ids;
        checked = w.checked;
        event_ids = w.event_ids;
        tool_ids = w.tool_ids;
        events_of = w.events_of;
        tools_of = w.tools_of;
      }

  unfoldable pub run : List (Bytes × Call) → Database → Database
  unfolding perform
  run [] db = db
  run ((now, call) ∷ calls) db = run calls (perform now call db)

  run-keeps : (calls : List (Bytes × Call)) (db : Database) → IsLinked db → IsLinked (run calls db)
  unfolding run
  run-keeps [] db v = v
  run-keeps ((now, call) ∷ calls) db v =
      run-keeps calls (perform now call db) (perform-IsLinked now call db v)

abbrev pub empty_tables : Database
empty_tables = record { flows = []; events = []; tool_invocations = []; drop_log = [] }

-- After any sequence of the store's operations from empty tables, the ids of flows, events and tool
-- invocations are distinct, every flow meets the constraints of its columns, and every event and tool
-- invocation has its flow.
pub run-IsLinked : (c : Codec) (calls : List (Bytes × Call)) → IsLinked (run c calls empty_tables)
run-IsLinked c calls = run-keeps c calls empty_tables (record {
  flow_ids = tt;
  checked = tt;
  event_ids = tt;
  tool_ids = tt;
  events_of = tt;
  tools_of = tt;
})
