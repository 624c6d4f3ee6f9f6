-- ===== src/Analytics/Totals/Tests.antt =====
-- The totals of internal/analytics/analytics.go over three flows: two of one task within a second, and
-- one with neither a task nor a model.
use mathlib.Core.List.Perm
use langley.Prelude.{
  ℕ, zero, suc, ◌+◌, ◌-◌, ◌*◌, ◌≡◌, ◌≤◌, ◌↔◌, refl, true, false, List, [], ◌∷◌, Option, none, some,
  Bytes, codes, length, ◌⊎◌, take, drop, ◌==◌, if◌then◌else◌, beq, ◌/◌,
}
use langley.Go.Strings.{cut}
use langley.Parser.Json.{negsuc}
use langley.Store.Tables.{FlowRow, Database, Codec, text_lt}
use langley.Store.Query.{equals}
use langley.Store.TimeText.{timestamp_text, fraction, digits, trim_zeros}
use langley.Api.Flows.{http_error}
use langley.Api.Totals
use langley.Api.Totals.Unknown.{get_task_summary-unknown_iff}
use langley.Analytics.Totals.{
  CostByPeriod, TaskSummary, where_rows, get_task_summary, list_task_summaries, get_cost_by_day,
  get_cost_by_model, get_overall_stats, scan_periods, flows_within, group_by, add_row, sum_of,
}
use langley.Analytics.Totals.Sums.{AddsUp, IsUnread, costs-AddsUp}
use langley.Analytics.Totals.Tasks.{
  AllTasks, Agrees, only_within, list_task_summaries-get_task_summary,
}
use langley.Analytics.Totals.Negative.{get_task_summary-negative}

abbrev second : Bytes
second = codes "2026-01-01T00:00:10"

-- the tenths of the second, where there are any
abbrev parse_tenths : Bytes → ℕ
parse_tenths s = elim (cut b'.' s) [
  | none ↦ 10_000_000_000
  | some (whole, []) ↦ 10_000_000_000
  | some (whole, d ∷ ds) ↦ 10_000_000_000 + (d - b'0') * 100_000_000
]

abbrev codec : Codec
codec = record {
  format_time =
      λ t. elim t [ zero ↦ codes "2026-01-01T00:00:00Z" | suc n ↦ codes "2026-01-02T00:00:00Z" ];
  parse_time = parse_tenths;
  marshal_headers = λ h. codes "null";
  unmarshal_headers = λ s. [];
  marshal_data = λ m. codes "null";
  unmarshal_data = λ s. none;
  elapsed_ms = λ s t. none;
}

abbrev row : Bytes → Option Bytes → Bytes → Option Bytes → Option ℕ → FlowRow
row id task_id timestamp model tokens = record {
  id = id;
  task_id = task_id;
  task_source = none;
  host = codes "api.openai.com";
  method = codes "POST";
  path = codes "/v1/chat/completions";
  url = codes "https://api.openai.com/v1/chat/completions";
  timestamp = timestamp;
  timestamp_mono = none;
  duration_ms = none;
  status_code = some 200;
  status_text = none;
  is_sse = false;
  flow_integrity = codes "complete";
  events_dropped_count = 0;
  request_body = none;
  request_body_truncated = false;
  response_body = none;
  response_body_truncated = false;
  request_headers = none;
  response_headers = none;
  request_signature = none;
  input_tokens = tokens;
  output_tokens = none;
  cache_creation_tokens = none;
  cache_read_tokens = none;
  total_cost = tokens;
  cost_source = none;
  model = model;
  provider = codes "openai";
  created_at = second;
  expires_at = none;
}

abbrev first : FlowRow
first = row (codes "f1") (some (codes "t")) (timestamp_text second 0) (some (codes "m")) (some 3)

abbrev later : FlowRow
later =
    row (codes "f2") (some (codes "t")) (timestamp_text second 500_000_000) (some (codes "m"))
      (some 4)

abbrev other : FlowRow
other = row (codes "f3") none (timestamp_text second 0) none none

abbrev database : Database
database = record {
  flows = first ∷ later ∷ other ∷ [];
  events = [];
  tool_invocations = [];
  drop_log = [];
}

-- date() of a text with a day and a `T`
abbrev date : Bytes → Option Bytes
date t = elim (drop 10 t) [ b ∷ rest ↦ if b == b'T' then some (take 10 t) else none | [] ↦ none ]

costs-AddsUp_example :
    AddsUp (get_cost_by_model codec (λ ps. ps) 0 1 database) (get_overall_stats codec 0 1 database)
    × (((get_cost_by_day codec date (λ ps. ps) 0 1 database ≡ none)
          × IsUnread (λ r. date (FlowRow.timestamp r)) (flows_within codec 0 1 database))
        ⊎ ((days : List CostByPeriod) × ((get_cost_by_day codec date (λ ps. ps) 0 1 database
                ≡ some days)
              × AddsUp days (get_overall_stats codec 0 1 database))))
costs-AddsUp_example = costs-AddsUp codec date (λ ps. ps) Perm.refl 0 1 database

-- the three flows are on one day
one_day :
    get_cost_by_day codec date (λ ps. ps) 0 1 database
    ≡ some (
        record {
          period = codes "2026-01-01";
          flow_count = 3;
          total_cost = 7;
          total_tokens_in = 7;
          total_tokens_out = 0;
        }
        ∷ [])
unfolding get_cost_by_day where_rows group_by add_row sum_of scan_periods text_lt timestamp_text
    fraction digits trim_zeros beq
one_day = refl

list_task_summaries-get_task_summary_example :
    (ss : List TaskSummary) × ((list_task_summaries codec (λ ss. ss) 0 1 50 database ≡ some ss)
      × ((length ss ≤ 50) × AllTasks (Agrees codec (λ xs. xs) (only_within codec 0 1 database)) ss))
list_task_summaries-get_task_summary_example =
    list_task_summaries-get_task_summary codec (λ xs. xs) (λ ss. ss) (λ P ss h. h) 0 1 50 database

two_rows :
    where_rows (λ r. equals (FlowRow.task_id r) (codes "t")) database.flows ≡ first ∷ later ∷ []
unfolding where_rows beq
two_rows = refl

parsed :
    codec.parse_time (timestamp_text second (1_000_000 + 499_000_000))
    ≡ 10_000_000_000 + (1_000_000 + 499_000_000)
unfolding timestamp_text fraction digits trim_zeros cut
parsed = refl

parsed_start : codec.parse_time (timestamp_text second 0) ≡ 10_000_000_000
unfolding timestamp_text fraction cut
parsed_start = refl

get_task_summary-negative_example :
    (s : TaskSummary) × ((get_task_summary codec (λ xs. xs) (codes "t") database ≡ some s)
      × ((s.first_seen ≡ 10_000_000_000 + (1_000_000 + 499_000_000))
          × ((s.last_seen ≡ 10_000_000_000) × (s.duration_ms ≡ negsuc (499_000_000 / 1_000_000)))))
get_task_summary-negative_example =
    get_task_summary-negative codec (λ xs. xs) (codes "t") second first later database
      10_000_000_000 499_000_000 two_rows refl refl parsed_start parsed

get_task_summary-unknown_iff_example :
    (Totals.get_task_summary
        (λ task. get_task_summary codec (λ xs. xs) task database)
        true
        (codes "t")
      ≡ http_error 500 (codes "Internal error"))
    ↔ (where_rows (λ r. equals (FlowRow.task_id r) (codes "t")) database.flows ≡ [])
get_task_summary-unknown_iff_example =
    get_task_summary-unknown_iff codec (λ xs. xs) database b't' []
