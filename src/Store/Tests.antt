-- ===== src/Store/Tests.antt =====
-- The theorems on internal/store/sqlite.go at small tables.
use mathlib.Core.List.Perm
use mathlib.Core.List.{Memᴰ}
use langley.Prelude.{
  ℕ, ◌*◌, ◌≤◌, ◌≡◌, ◌≢◌, refl, true, false, List, [], ◌∷◌, ◌++◌, map, none, some, Bytes, codes, beq,
  length, arith, Perm,
}
use langley.Store.{Flow, FlowFilter}
use langley.Store.Tables.{
  FlowRow, Database, Codec, is_in, integrities, providers, has_key, text_lt, flow_checks,
  delete_keys,
}
use langley.Store.Sqlite.{
  flow_row, save_flow, update_flow, get_flow, run_retention, keep_drops, expired_ids,
  scan_flow_rows,
}
use langley.Store.Sqlite.Stored.{kept_from, update_flow-get_flow}
use langley.Store.Sqlite.Linked.{IsLinked}
use langley.Store.Sqlite.Retention.{Stays}
use langley.Store.Sqlite.Calls.{save, delete, run, empty_tables, run-IsLinked}
use langley.Store.Query.{
  list_flows, count_flows, list_query, count_query, count_conditions, matching, meets_all,
}
use langley.Store.Query.Paged.{pages, fitting, list_flows-pages}
use langley.Store.Query.Bound.{Filled, list_query_lem}
use langley.Store.TimeText.{
  timestamp_text, fraction, digits, trim_zeros, with_flows, count_flows-misses,
  run_retention-same_day,
}

-- times as one number, no headers
abbrev codec : Codec
codec = record {
  format_time = λ t. t ∷ [];
  parse_time = λ s. elim s [ [] ↦ 0 | t ∷ ts ↦ t ];
  marshal_headers = λ h. codes "null";
  unmarshal_headers = λ s. [];
  marshal_data = λ m. codes "null";
  unmarshal_data = λ s. none;
  elapsed_ms = λ s t. none;
}

abbrev flow : Flow
flow = record {
  id = codes "f1";
  task_id = none;
  task_source = none;
  host = codes "api.anthropic.com";
  method = codes "POST";
  path = codes "/v1/messages";
  url = codes "http://api.anthropic.com/v1/messages";
  timestamp = 7;
  timestamp_mono = 7;
  duration_ms = none;
  status_code = none;
  status_text = none;
  is_sse = false;
  flow_integrity = codes "complete";
  events_dropped_count = 0;
  request_body = none;
  request_body_truncated = false;
  response_body = none;
  response_body_truncated = false;
  request_headers = [];
  response_headers = [];
  request_signature = none;
  input_tokens = none;
  output_tokens = none;
  cache_creation_tokens = none;
  cache_read_tokens = none;
  total_cost = none;
  cost_source = none;
  model = none;
  provider = codes "other";
  expires_at = none;
}

abbrev answered_flow : Flow
answered_flow = record flow {
  status_code = some 200;
  provider = codes "anthropic";
  expires_at = some 90;
}

abbrev created : Bytes
created = codes "2025-01-01 00:00:00"

complete_in : is_in (codes "complete") integrities ≡ true
unfolding is_in beq
complete_in = refl

other_in : is_in (codes "other") providers ≡ true
unfolding is_in beq
other_in = refl

not_there : has_key FlowRow.id (codes "f1") empty_tables.flows ≡ false
unfolding has_key
not_there = refl

update_flow-get_flow_example :
    (first : Database) × (second : Database) × (save_flow codec created flow empty_tables
      ≡ some first)
    × (get_flow codec (codes "f1") first ≡ some flow)
    × (update_flow codec answered_flow first ≡ some second)
    × (get_flow codec (codes "f1") second ≡ some (kept_from flow answered_flow))
    × ((id : Bytes) → id ≢ codes "f1" → get_flow codec id second ≡ get_flow codec id empty_tables)
update_flow-get_flow_example =
    update_flow-get_flow codec created flow answered_flow empty_tables
      (record { time = refl; expiry = refl; request = refl; response = refl })
      (record { time = refl; expiry = refl; request = refl; response = refl })
      (record { integrity = complete_in; cost_source_in = refl }) other_in
      (record { integrity = complete_in; cost_source_in = refl }) refl not_there

-- an update does not set the provider or the expiry
kept_provider : (kept_from flow answered_flow).provider ≡ codes "other"
kept_provider = refl

run-IsLinked_example :
    IsLinked (run codec ((created, save flow) ∷ (created, delete (codes "f1")) ∷ []) empty_tables)
run-IsLinked_example =
    run-IsLinked codec ((created, save flow) ∷ (created, delete (codes "f1")) ∷ [])

abbrev any_flow : FlowFilter
any_flow = record {
  host = some (codes "api.anthropic.com");
  task_id = none;
  task_source = none;
  model = none;
  start_time = some 3;
  end_time = none;
  limit = 20;
  offset = 0;
}

-- a host that would end the text of the SQL if it were put in
abbrev quoted_host : FlowFilter
quoted_host = record any_flow { host = some (codes "x' OR '1'='1"); limit = 5 }

abbrev as_byte : ℕ → Bytes
as_byte t = t ∷ []

list_query_lem_example :
    (Filled (list_query as_byte any_flow) × Filled (count_query as_byte any_flow))
    × ((list_query as_byte any_flow).sql ≡ (list_query as_byte quoted_host).sql)
    × ((count_query as_byte any_flow).sql ≡ (count_query as_byte quoted_host).sql)
list_query_lem_example = list_query_lem as_byte any_flow quoted_host (record {
  host_eq = refl;
  task_id_eq = refl;
  task_source_eq = refl;
  model_eq = refl;
  start_time_eq = refl;
  end_time_eq = refl;
  limit_eq = refl;
  offset_eq = refl;
})

abbrev one_flow : Database
one_flow = record empty_tables { flows = flow_row codec created flow ∷ [] }

abbrev as_stored : List FlowRow → List FlowRow
as_stored rows = rows

one_counted : count_flows codec any_flow one_flow ≤ 1 * 2
unfolding count_flows count_conditions matching meets_all text_lt flow_row beq
one_counted = omega arith

-- SQLite takes an offset only after a limit
offset_alone :
    list_flows codec as_stored (record any_flow { limit = 0; offset = 2 }) one_flow ≡ none
unfolding list_flows
offset_alone = refl

list_flows-pages_example :
    (flows : List Flow) × ((pages codec as_stored any_flow one_flow 2 0 1 ≡ some flows)
      × ((list_flows codec as_stored (record any_flow { limit = 0; offset = 0 }) one_flow
            ≡ some flows)
          × ((length flows ≡ count_flows codec any_flow one_flow)
              × Perm flows (
                  map (scan_flow_rows codec) (fitting codec.format_time any_flow one_flow.flows)))))
list_flows-pages_example =
    list_flows-pages codec as_stored any_flow one_flow 2 1 (λ rows. Perm.refl rows) (omega arith)
      one_counted

-- ten o'clock, and half a second later
abbrev second : Bytes
second = codes "2025-01-01T10:00:00"

abbrev utc : Codec
utc = record codec { format_time = timestamp_text second }

half_second : timestamp_text second 500_000_000 ≡ codes "2025-01-01T10:00:00.5Z"
unfolding timestamp_text fraction digits trim_zeros
half_second = refl

abbrev from_ten : FlowFilter
from_ten = record any_flow { start_time = some 0 }

-- before and after a flow of another second
abbrev earlier : FlowRow
earlier = record (flow_row utc created flow) { timestamp = codes "2025-01-01T09:00:00Z" }

abbrev within : FlowRow
within = record (flow_row utc created flow) { timestamp = timestamp_text second 500_000_000 }

count_flows-misses_example :
    (count_flows utc from_ten (with_flows empty_tables (earlier ∷ within ∷ earlier ∷ []))
      ≡ count_flows utc from_ten (with_flows empty_tables (earlier ∷ earlier ∷ [])))
    × (list_flows utc as_stored from_ten (with_flows empty_tables (earlier ∷ within ∷ earlier ∷ []))
        ≡ list_flows utc as_stored from_ten (with_flows empty_tables (earlier ∷ earlier ∷ [])))
count_flows-misses_example =
    count_flows-misses utc as_stored from_ten empty_tables second 0 500_000_000 (earlier ∷ [])
      (earlier ∷ []) within refl refl (omega arith) refl

-- a flow that has expired the day before, and one in the morning
abbrev expired_before : FlowRow
expired_before = record (flow_row codec created flow) {
  id = codes "f2";
  expires_at = some (codes "2024-12-31T06:00:00Z");
}

abbrev expired_today : FlowRow
expired_today = record (flow_row codec created flow) {
  expires_at = some (codes "2025-01-01T06:00:00Z");
}

abbrev two_expired : Database
two_expired = record empty_tables { flows = expired_before ∷ expired_today ∷ [] }

two_expired-IsLinked : IsLinked two_expired
unfolding has_key flow_checks is_in beq flow_row
two_expired-IsLinked = record {
  flow_ids = (refl, (refl, tt));
  checked = (refl, (refl, tt));
  event_ids = tt;
  tool_ids = tt;
  events_of = tt;
  tools_of = tt;
}

one_deleted :
    (run_retention (codes "2025-01-01 23:59:59") (codes "2024-12-31 23:59:59") two_expired).0.flows
    ≡ expired_today ∷ []
unfolding run_retention expired_ids text_lt delete_keys is_in beq flow_row keep_drops
one_deleted = refl

run_retention-same_day_example :
    Stays expired_today two_expired
      (run_retention
        (codes "2025-01-01" ++ b' ' ∷ codes "23:59:59")
        (codes "2024-12-31 23:59:59")
        two_expired).0
run_retention-same_day_example =
    run_retention-same_day two_expired (codes "2025-01-01") (codes "23:59:59") (codes "06:00:00Z")
      (codes "2024-12-31 23:59:59") expired_today two_expired-IsLinked (Memᴰ.tail (Memᴰ.head refl))
      refl
