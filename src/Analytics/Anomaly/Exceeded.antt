-- ===== src/Analytics/Anomaly/Exceeded.antt =====
-- Every anomaly that DetectFlowAnomalies of internal/analytics/anomaly.go reports is one.
use langley.Prelude.{
  ℕ, ◌<◌, ◌≡◌, refl, String, List, [], ◌∷◌, ◌++◌, Option, none, some, Bytes, ltb, Bool-cases, inl,
  inr, arith,
}
use langley.Analytics.Anomaly.{
  AnomalyType, Anomaly, AnomalyThresholds, FlowRow, Failure, above, failure_anomalies,
  flow_anomalies, detect_flow_anomalies, thresholds_of,
}

-- anomalies of one flow, each with a value above its threshold
abbrev pub AllExceed : Bytes → List Anomaly → Type 0
AllExceed flow [] = Unit {0}
AllExceed flow (a ∷ as_) = ((a.flow_id ≡ flow) × (a.threshold < a.value)) × AllExceed flow as_

AllExceed-append :
    (flow : Bytes) (xs ys : List Anomaly)
    → AllExceed flow xs
    → AllExceed flow ys
    → AllExceed flow (xs ++ ys)
AllExceed-append flow [] ys h k = k
AllExceed-append flow (x ∷ xs) ys h k = (h.0, AllExceed-append flow xs ys h.1 k)

above-AllExceed :
    (flow : Bytes) (row : FlowRow) (kind : AnomalyType) (severity : String) (description : Bytes)
    (column : Option ℕ) (threshold : ℕ)
    → AllExceed flow (above flow row kind severity description column threshold)
unfolding above
above-AllExceed flow row kind severity description none threshold = tt
above-AllExceed flow row kind severity description (some v) threshold =
    elim (Bool-cases (ltb threshold v)) [
      | inl more ↦ rw more ((refl, ground arith), tt)
      | inr no_more ↦ rw no_more tt
    ]

failure_anomalies-AllExceed :
    (flow : Bytes) (row : FlowRow) (fs : List Failure)
    → AllExceed flow (failure_anomalies flow row fs)
unfolding failure_anomalies
failure_anomalies-AllExceed flow row [] = tt
failure_anomalies-AllExceed flow row (f ∷ fs) =
    ((refl, omega arith), failure_anomalies-AllExceed flow row fs)

flow_anomalies-AllExceed :
    (flow : Bytes) (row : FlowRow) (t : AnomalyThresholds) (n : ℕ)
    → AllExceed flow (flow_anomalies flow row t n)
unfolding flow_anomalies
flow_anomalies-AllExceed flow row t n =
    let next = AllExceed-append flow in
    next _ _ (above-AllExceed flow row _ _ _ row.input_tokens _) (
      next _ _ (above-AllExceed flow row _ _ _ row.duration_ms _) (
        next _ _ (above-AllExceed flow row _ _ _ row.total_cost _) (
          next _ _ (above-AllExceed flow row _ _ _ row.dropped_count _)
            (above-AllExceed flow row _ _ _ (some n) _))))

-- Whatever the queries give, each anomaly that DetectFlowAnomalies returns, with an error or
-- without, is of the flow that was asked for and has a value above its threshold.
pub detect_flow_anomalies-AllExceed :
    (flow : Bytes) (thresholds : Option AnomalyThresholds) (row : Option FlowRow) (n : ℕ)
    (failures : Option (List Failure))
    → AllExceed flow (detect_flow_anomalies flow thresholds row n failures).anomalies
unfolding detect_flow_anomalies
detect_flow_anomalies-AllExceed flow thresholds none n failures = tt
detect_flow_anomalies-AllExceed flow thresholds (some row) n none =
    flow_anomalies-AllExceed flow row (thresholds_of thresholds) n
detect_flow_anomalies-AllExceed flow thresholds (some row) n (some fs) =
    AllExceed-append flow _ _ (flow_anomalies-AllExceed flow row (thresholds_of thresholds) n)
      (failure_anomalies-AllExceed flow row fs)
