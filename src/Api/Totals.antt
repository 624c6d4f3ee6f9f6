-- ===== src/Api/Totals.antt =====
-- The handlers of internal/api/api.go that answer with totals and anomalies. What the analytics engine
-- gives, or an error, is an argument, as is whether the server has an engine; `now` is time.Now().
pub mod Unknown
use langley.Prelude.{
  ℕ, ◌-◌, ◌*◌, Bool, true, false, List, [], ◌∷◌, map, Option, none, some, Bytes, codes, String,
  if◌then◌else◌,
}
use langley.Parser.Json.{ℤ}
use langley.Analytics.Anomaly.{Anomaly, AnomalyType, Detected}
use langley.Analytics.Totals.{Ratio, TaskSummary, ToolStats, CostByPeriod, OverallStats}
use langley.Api.Flows.{ApiReply, http_error, json, limit_of, parse_time_range, time_or}

pub record OverallStatsResponse : Type 0 where
  pub status : String
  pub timestamp : ℕ
  pub total_flows : ℕ
  pub all_time_flows : ℕ
  pub total_cost : ℕ
  pub total_tokens_in : ℕ
  pub total_tokens_out : ℕ
  pub total_tasks : ℕ
  pub total_tool_calls : ℕ
  pub avg_cost_per_flow : Ratio
  pub avg_tokens_per_flow : Ratio
  pub start_time : ℕ
  pub end_time : ℕ

-- the two answers of getStats
pub data StatsAnswer : Type 0 where
  unavailable : String → ℕ → StatsAnswer
  overall : OverallStatsResponse → StatsAnswer

pub record TaskSummaryResponse : Type 0 where
  pub task_id : Bytes
  pub flow_count : ℕ
  pub total_tokens_in : ℕ
  pub total_tokens_out : ℕ
  pub total_cost : ℕ
  pub first_seen : ℕ
  pub last_seen : ℕ
  pub duration_ms : ℤ
  pub models : List Bytes
  pub tools_used : List Bytes

pub record ToolStatsResponse : Type 0 where
  pub tool_name : Bytes
  pub invocation_count : ℕ
  pub success_count : ℕ
  pub failure_count : ℕ
  pub success_rate : Ratio
  pub total_cost : ℕ
  pub avg_duration_ms : Ratio
  pub total_tokens_in : ℕ
  pub total_tokens_out : ℕ

pub record CostPeriodResponse : Type 0 where
  pub period : Bytes
  pub flow_count : ℕ
  pub total_cost : ℕ
  pub total_tokens_in : ℕ
  pub total_tokens_out : ℕ

pub record AnomalyResponse : Type 0 where
  pub anomaly_type : AnomalyType
  pub flow_id : Bytes
  pub task_id : Option Bytes
  pub timestamp : ℕ
  pub severity : String
  pub description : Bytes
  pub value : ℕ
  pub threshold : ℕ

abbrev pub to_task_response : TaskSummary → TaskSummaryResponse
to_task_response s = record {
  task_id = s.task_id;
  flow_count = s.flow_count;
  total_tokens_in = s.total_tokens_in;
  total_tokens_out = s.total_tokens_out;
  total_cost = s.total_cost;
  first_seen = s.first_seen;
  last_seen = s.last_seen;
  duration_ms = s.duration_ms;
  models = s.models;
  tools_used = s.tools_used;
}

abbrev pub to_tool_response : ToolStats → ToolStatsResponse
to_tool_response s = record {
  tool_name = s.tool_name;
  invocation_count = s.invocation_count;
  success_count = s.success_count;
  failure_count = s.failure_count;
  success_rate = s.success_rate;
  total_cost = s.total_cost;
  avg_duration_ms = s.avg_duration_ms;
  total_tokens_in = s.total_tokens_in;
  total_tokens_out = s.total_tokens_out;
}

abbrev pub to_period_response : CostByPeriod → CostPeriodResponse
to_period_response p = record {
  period = p.period;
  flow_count = p.flow_count;
  total_cost = p.total_cost;
  total_tokens_in = p.total_tokens_in;
  total_tokens_out = p.total_tokens_out;
}

abbrev pub to_anomaly_response : Anomaly → AnomalyResponse
to_anomaly_response a = record {
  anomaly_type = a.anomaly_type;
  flow_id = a.flow_id;
  task_id = a.task_id;
  timestamp = a.timestamp;
  severity = a.severity;
  description = a.description;
  value = a.value;
  threshold = a.threshold;
}

-- the list that a handler answers with, when the engine gives one
abbrev pub listed {ℓ κ} : {A : Type ℓ} {B : Type κ} → (A → B) → Option (List A) → ApiReply (List B)
listed f none = http_error 500 (codes "Internal error")
listed f (some xs) = json (map f xs)

-- the guard of every handler but getStats
abbrev pub if_available {ℓ} : {B : Type ℓ} → Bool → ApiReply B → ApiReply B
if_available available reply =
    if available then reply else http_error 503 (codes "Analytics unavailable")

unfoldable pub get_task_summary :
    (Bytes → Option TaskSummary) → Bool → Bytes → ApiReply TaskSummaryResponse
get_task_summary engine available [] =
    if_available available (http_error 400 (codes "Missing task ID"))
get_task_summary engine available (c ∷ id) = if_available available (elim (engine (c ∷ id)) [
  | none ↦ http_error 500 (codes "Internal error")
  | some summary ↦ json (to_task_response summary)
])

unfoldable pub get_flow_anomalies :
    (Bytes → Detected) → Bool → Bytes → ApiReply (List AnomalyResponse)
get_flow_anomalies engine available [] =
    if_available available (http_error 400 (codes "Missing flow ID"))
get_flow_anomalies engine available (c ∷ id) =
    let detected = engine (c ∷ id) in
    if_available available (
      if detected.failed
      then http_error 500 (codes "Internal error")
      else json (map to_anomaly_response detected.anomalies))

module _ (parse_time : Bytes → Option ℕ) (now : ℕ) (query : Bytes → Bytes) where
  -- getStats: the engine's statistics for a time, and CountFlows without a filter
  unfoldable pub get_stats : (ℕ × ℕ → Option OverallStats) → Option ℕ → Bool → ApiReply StatsAnswer
  unfolding parse_time_range
  get_stats engine count available =
      let times = parse_time_range parse_time now query in
      let answer : ApiReply StatsAnswer = elim (engine times) [
        | none ↦ http_error 500 (codes "Internal error")
        | some s ↦ elim count [
          | none ↦ http_error 500 (codes "Internal error")
          | some all ↦ json (
              overall (record {
                status = "ok";
                timestamp = now;
                total_flows = s.total_flows;
                all_time_flows = all;
                total_cost = s.total_cost;
                total_tokens_in = s.total_tokens_in;
                total_tokens_out = s.total_tokens_out;
                total_tasks = s.total_tasks;
                total_tool_calls = s.total_tool_calls;
                avg_cost_per_flow = s.avg_cost_per_flow;
                avg_tokens_per_flow = s.avg_tokens_per_flow;
                start_time = times.0;
                end_time = times.1;
              }))
        ]
      ] in
      if available then answer else json (unavailable "analytics_unavailable" now)

  unfoldable pub get_task_analytics :
      (ℕ × ℕ → ℕ → Option (List TaskSummary)) → Bool → ApiReply (List TaskSummaryResponse)
  unfolding parse_time_range limit_of
  get_task_analytics engine available =
      let times = parse_time_range parse_time now query in
      if_available available
        (listed to_task_response (engine times (limit_of (query (codes "limit")))))

  unfoldable pub get_tool_analytics :
      (ℕ × ℕ → Option (List ToolStats)) → Bool → ApiReply (List ToolStatsResponse)
  unfolding parse_time_range
  get_tool_analytics engine available =
      if_available available
        (listed to_tool_response (engine (parse_time_range parse_time now query)))

  -- getCostByDay and getCostByModel, which differ in the engine's method alone
  unfoldable pub get_costs :
      (ℕ × ℕ → Option (List CostByPeriod)) → Bool → ApiReply (List CostPeriodResponse)
  unfolding parse_time_range
  get_costs engine available =
      if_available available
        (listed to_period_response (engine (parse_time_range parse_time now query)))

  unfoldable pub get_anomalies :
      (ℕ → Option (List Anomaly)) → Bool → ApiReply (List AnomalyResponse)
  get_anomalies engine available =
      let since = time_or parse_time (query (codes "since")) (now - 3_600 * 1_000_000_000) in
      if_available available (listed to_anomaly_response (engine since))
