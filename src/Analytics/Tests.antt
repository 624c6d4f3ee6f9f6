-- ===== src/Analytics/Tests.antt =====
-- The anomalies of a flow of internal/analytics/anomaly.go.
use langley.Prelude.{◌≡◌, refl, List, [], ◌∷◌, map, Option, none, some, codes}
use langley.Analytics.Anomaly.{
  AnomalyThresholds, FlowRow, Failure, large_context, tool_failure, detect_flow_anomalies,
  flow_anomalies, above, failure_anomalies, failure_text,
}
use langley.Analytics.Anomaly.Exceeded.{AllExceed, detect_flow_anomalies-AllExceed}

abbrev large_flow : FlowRow
large_flow = record {
  task_id = none;
  timestamp = 0;
  duration_ms = some 30000;
  input_tokens = some 100001;
  total_cost = none;
  dropped_count = some 0;
}

abbrev by_default : Option AnomalyThresholds
by_default = none

abbrev one_failure : Option (List Failure)
one_failure = some (record { tool_name = codes "read"; error_msg = some (codes "no file") } ∷ [])

large_flow_kinds :
    map
      (λ a. a.anomaly_type)
      (detect_flow_anomalies (codes "f1") by_default (some large_flow) 20 one_failure).anomalies
    ≡ large_context ∷ tool_failure ∷ []
unfolding detect_flow_anomalies flow_anomalies above failure_anomalies failure_text
large_flow_kinds = refl

detect_flow_anomalies-AllExceed_example :
    AllExceed
      (codes "f1")
      (detect_flow_anomalies (codes "f1") by_default (some large_flow) 20 one_failure).anomalies
detect_flow_anomalies-AllExceed_example =
    detect_flow_anomalies-AllExceed (codes "f1") by_default (some large_flow) 20 one_failure
