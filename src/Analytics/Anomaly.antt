-- ===== src/Analytics/Anomaly.antt =====
-- DetectFlowAnomalies of internal/analytics/anomaly.go. What its queries give is an argument: the
-- row of the flow, or an error; the number of its tool calls, 0 on an error; and the failed calls,
-- or an error. Counts are not negative, and dollars are counted in units of 10^-6.
pub mod Exceeded
use langley.Prelude.{
  ℕ, ◌*◌, Bool, true, false, String, List, [], ◌∷◌, ◌++◌, map, Option, none, some, Bytes, codes,
  ltb, if◌then◌else◌,
}

pub data AnomalyType : Type 0 where
  large_context slow_response rapid_repeats high_cost tool_failure many_tool_calls dropped_events :
      AnomalyType

pub record Anomaly : Type 0 where
  pub anomaly_type : AnomalyType
  pub flow_id : Bytes
  pub task_id : Option Bytes
  pub timestamp : ℕ
  pub severity : String
  pub description : Bytes
  pub value : ℕ
  pub threshold : ℕ

pub record AnomalyThresholds : Type 0 where
  pub large_context_tokens : ℕ
  pub slow_response_ms : ℕ
  pub rapid_repeat_window : ℕ
  pub rapid_repeat_count : ℕ
  pub high_cost_dollars : ℕ
  pub many_tool_calls_count : ℕ

abbrev pub default_thresholds : AnomalyThresholds
default_thresholds = record {
  large_context_tokens = 100000;
  slow_response_ms = 30000;
  rapid_repeat_window = 60 * 1_000_000_000;
  rapid_repeat_count = 5;
  high_cost_dollars = 1_000_000;
  many_tool_calls_count = 20;
}

-- the row of a flow, with its time stamp parsed
pub record FlowRow : Type 0 where
  pub task_id : Option Bytes
  pub timestamp : ℕ
  pub duration_ms : Option ℕ
  pub input_tokens : Option ℕ
  pub total_cost : Option ℕ
  pub dropped_count : Option ℕ

-- a failed tool call
pub record Failure : Type 0 where
  pub tool_name : Bytes
  pub error_msg : Option Bytes

-- the anomalies, and whether an error is returned with them
pub record Detected : Type 0 where
  pub anomalies : List Anomaly
  pub failed : Bool

module _ (flow_id : Bytes) (row : FlowRow) where
  abbrev pub anomaly : AnomalyType → String → Bytes → ℕ → ℕ → Anomaly
  anomaly kind severity description value threshold = record {
    anomaly_type = kind;
    flow_id = flow_id;
    task_id = row.task_id;
    timestamp = row.timestamp;
    severity = severity;
    description = description;
    value = value;
    threshold = threshold;
  }

  -- a column that is set and above its threshold
  unfoldable pub above : AnomalyType → String → Bytes → Option ℕ → ℕ → List Anomaly
  above kind severity description none threshold = []
  above kind severity description (some value) threshold =
      if ltb threshold value then anomaly kind severity description value threshold ∷ [] else []

  unfoldable pub failure_text : Failure → Bytes
  failure_text f = elim f.error_msg [
    | none ↦ codes "Tool invocation failed: " ++ f.tool_name
    | some msg ↦ codes "Tool invocation failed: " ++ (f.tool_name ++ (codes " - " ++ msg))
  ]

  unfoldable pub failure_anomalies : List Failure → List Anomaly
  unfolding failure_text
  failure_anomalies [] = []
  failure_anomalies (f ∷ fs) =
      anomaly tool_failure "warning" (failure_text f) 1 0 ∷ failure_anomalies fs

  -- the anomalies before the query for failed calls
  unfoldable pub flow_anomalies : AnomalyThresholds → ℕ → List Anomaly
  unfolding above
  flow_anomalies t tool_count =
      above large_context "warning" (codes "Input token count exceeds threshold") row.input_tokens
        t.large_context_tokens
      ++ (above slow_response "info" (codes "Response duration exceeds threshold") row.duration_ms
            t.slow_response_ms
          ++ (above high_cost "warning" (codes "Single request cost exceeds threshold")
                row.total_cost t.high_cost_dollars
              ++ (above dropped_events "warning" (codes "Events dropped due to backpressure")
                    row.dropped_count 0
                  ++ above many_tool_calls "info" (codes "High number of tool calls in single flow")
                      (some tool_count) t.many_tool_calls_count)))

-- no thresholds (nil) are the default ones
abbrev pub thresholds_of : Option AnomalyThresholds → AnomalyThresholds
thresholds_of none = default_thresholds
thresholds_of (some t) = t

unfoldable pub detect_flow_anomalies :
    Bytes → Option AnomalyThresholds → Option FlowRow → ℕ → Option (List Failure) → Detected
unfolding flow_anomalies failure_anomalies
detect_flow_anomalies flow_id thresholds none tool_count failures = record {
  anomalies = [];
  failed = true;
}
detect_flow_anomalies flow_id thresholds (some row) tool_count failures =
    let found = flow_anomalies flow_id row (thresholds_of thresholds) tool_count in
    elim failures [
      | none ↦ record { anomalies = found; failed = true }
      | some fs ↦ record { anomalies = found ++ failure_anomalies flow_id row fs; failed = false }
    ]
