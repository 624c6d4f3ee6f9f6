-- ===== src/Analytics/Totals.antt =====
-- The totals of internal/analytics/analytics.go over the tables of the store: GetTaskSummary,
-- ListTaskSummaries, GetToolStats, GetCostByDay, GetCostByModel and GetOverallStats. A quotient is its
-- two numbers. What SQLite chooses is a parameter: the order of the rows that it visits or gives, and
-- date(), which is NULL on a text that is not a time.
pub mod Negative
pub mod Sums
pub mod Groups
pub mod Tasks
mod Tests
use langley.Prelude.{
  ℕ, zero, suc, ◌+◌, ◌-◌, ◌*◌, ◌/◌, Bool, true, false, not, ◌&&◌, List, [], ◌∷◌, map, Option, none,
  some, Bytes, codes, beq, is_empty, ltb, leb, if◌then◌else◌, length, take, ◌>>=◌,
}
use langley.Go.Strings.{join, split_on}
use langley.Parser.Json.{ℤ, pos, negsuc}
use langley.Store.Tables.{FlowRow, ToolRow, Database, Codec, text_lt, is_in}
use langley.Store.Query.{equals}

pub record Ratio : Type 0 where
  pub numerator : ℕ
  pub denominator : ℕ

pub record TaskSummary : Type 0 where
  pub task_id : Bytes
  pub flow_count : ℕ
  pub total_tokens_in : ℕ
  pub total_tokens_out : ℕ
  pub total_cost : ℕ
  pub first_seen : ℕ
  pub last_seen : ℕ
  pub duration_ms : ℤ
  pub models : List Bytes
  pub tools_used : List Bytes

pub record ToolStats : Type 0 where
  pub tool_name : Bytes
  pub invocation_count : ℕ
  pub success_count : ℕ
  pub failure_count : ℕ
  pub success_rate : Ratio
  pub total_cost : ℕ
  pub avg_duration_ms : Ratio
  pub total_tokens_in : ℕ
  pub total_tokens_out : ℕ

pub record CostByPeriod : Type 0 where
  pub period : Bytes
  pub flow_count : ℕ
  pub total_cost : ℕ
  pub total_tokens_in : ℕ
  pub total_tokens_out : ℕ

pub record OverallStats : Type 0 where
  pub total_flows : ℕ
  pub total_cost : ℕ
  pub total_tokens_in : ℕ
  pub total_tokens_out : ℕ
  pub total_tasks : ℕ
  pub total_tool_calls : ℕ
  pub avg_cost_per_flow : Ratio
  pub avg_tokens_per_flow : Ratio

-- a column that is NULL in a sum
abbrev pub or_zero : Option ℕ → ℕ
or_zero none = 0
or_zero (some n) = n

abbrev pub is_set : Option ℕ → ℕ
is_set none = 0
is_set (some n) = 1

-- CASE WHEN success = 1, CASE WHEN success = 0
abbrev pub is_success : Option Bool → ℕ
is_success (some true) = 1
is_success (some false) = 0
is_success none = 0

abbrev pub is_failure : Option Bool → ℕ
is_failure (some false) = 1
is_failure (some true) = 0
is_failure none = 0

-- NULLs are one group
abbrev pub same : Option Bytes → Option Bytes → Bool
same none none = true
same none (some y) = false
same (some x) none = false
same (some x) (some y) = beq x y

module _ {ℓ} {R : Type ℓ} where
  -- COALESCE(SUM(...), 0)
  unfoldable pub sum_of : (R → ℕ) → List R → ℕ
  sum_of f [] = 0
  sum_of f (r ∷ rs) = f r + sum_of f rs

  unfoldable pub where_rows : (R → Bool) → List R → List R
  where_rows test [] = []
  where_rows test (r ∷ rs) = let rest = where_rows test rs in if test r then r ∷ rest else rest

  unfoldable pub add_row :
      Option Bytes → R → List (Option Bytes × List R) → List (Option Bytes × List R)
  add_row k r [] = (k, r ∷ []) ∷ []
  add_row k r ((j, rs) ∷ gs) =
      let rest = add_row k r gs in if same j k then (j, r ∷ rs) ∷ gs else (j, rs) ∷ rest

  -- GROUP BY
  unfoldable pub group_by : (R → Option Bytes) → List R → List (Option Bytes × List R)
  unfolding add_row
  group_by key [] = []
  group_by key (r ∷ rs) = add_row (key r) r (group_by key rs)

-- DISTINCT, without NULL
unfoldable pub distinct : List (Option Bytes) → List Bytes
unfolding is_in
distinct [] = []
distinct (none ∷ xs) = distinct xs
distinct (some x ∷ xs) = let rest = distinct xs in if is_in x rest then rest else x ∷ rest

-- MIN and MAX of texts
abbrev pub least : Bytes → Bytes → Bytes
least x y = if text_lt y x then y else x

abbrev pub greatest : Bytes → Bytes → Bytes
greatest x y = if text_lt x y then y else x

unfoldable pub min_text : List Bytes → Option Bytes
min_text [] = none
min_text (x ∷ xs) = elim (min_text xs) [ none ↦ some x | some y ↦ some (least x y) ]

unfoldable pub max_text : List Bytes → Option Bytes
max_text [] = none
max_text (x ∷ xs) = elim (max_text xs) [ none ↦ some x | some y ↦ some (greatest x y) ]

-- last.Sub(first).Milliseconds(), which rounds to 0
unfoldable pub elapsed_ms : ℕ → ℕ → ℤ
elapsed_ms first last =
    if leb first last
    then pos ((last - first) / 1_000_000)
    else elim ((first - last) / 1_000_000) [ zero ↦ pos 0 | suc n ↦ negsuc n ]

abbrev pub within : Bytes → Bytes → Bytes → Bool
within start end t = not (text_lt t start) && not (text_lt end t)

-- the total of an AVG, 0 when every row has NULL
abbrev pub average : ℕ → ℕ → Ratio
average total n =
    if ltb 0 n
    then record { numerator = total; denominator = n }
    else record { numerator = 0; denominator = 1 }

unfoldable pub tool_stats : Option Bytes × List ToolRow → ToolStats
unfolding sum_of
tool_stats (name, rows) =
    let successes = sum_of (λ r. is_success (ToolRow.success r)) rows in
    record {
      tool_name = elim name [ none ↦ [] | some n ↦ n ];
      invocation_count = length rows;
      success_count = successes;
      failure_count = sum_of (λ r. is_failure (ToolRow.success r)) rows;
      success_rate = average (successes * 100) (length rows);
      total_cost = sum_of (λ r. or_zero (ToolRow.cost r)) rows;
      avg_duration_ms =
          average (sum_of (λ r. or_zero (ToolRow.duration_ms r)) rows)
            (sum_of (λ r. is_set (ToolRow.duration_ms r)) rows);
      total_tokens_in = sum_of (λ r. or_zero (ToolRow.input_tokens r)) rows;
      total_tokens_out = sum_of (λ r. or_zero (ToolRow.output_tokens r)) rows;
    }

abbrev pub cost_of : Bytes → List FlowRow → CostByPeriod
cost_of period rows = record {
  period = period;
  flow_count = length rows;
  total_cost = sum_of (λ r. or_zero (FlowRow.total_cost r)) rows;
  total_tokens_in = sum_of (λ r. or_zero (FlowRow.input_tokens r)) rows;
  total_tokens_out = sum_of (λ r. or_zero (FlowRow.output_tokens r)) rows;
}

-- COALESCE(model, 'unknown')
abbrev pub model_name : Option Bytes → Bytes
model_name none = codes "unknown"
model_name (some m) = m

-- a period that is NULL is not put in a string
unfoldable pub scan_periods : List (Option Bytes × List FlowRow) → Option (List CostByPeriod)
scan_periods [] = some []
scan_periods ((none, rows) ∷ gs) = none
scan_periods ((some period, rows) ∷ gs) = do some (cost_of period rows ∷ (← scan_periods gs))

module _ (c : Codec) where
  abbrev pub flows_within : ℕ → ℕ → Database → List FlowRow
  flows_within start end db =
      where_rows (λ r. within (c.format_time start) (c.format_time end) (FlowRow.timestamp r))
        db.flows

  abbrev pub calls_within : ℕ → ℕ → Database → List ToolRow
  calls_within start end db =
      where_rows (λ r. within (c.format_time start) (c.format_time end) (ToolRow.timestamp r))
        db.tool_invocations

  -- the columns that the queries of tasks share
  unfoldable pub summary_of : Bytes → List FlowRow → Bytes → Bytes → TaskSummary
  unfolding sum_of elapsed_ms
  summary_of task_id rows first last = record {
    task_id = task_id;
    flow_count = length rows;
    total_tokens_in = sum_of (λ r. or_zero (FlowRow.input_tokens r)) rows;
    total_tokens_out = sum_of (λ r. or_zero (FlowRow.output_tokens r)) rows;
    total_cost = sum_of (λ r. or_zero (FlowRow.total_cost r)) rows;
    first_seen = c.parse_time first;
    last_seen = c.parse_time last;
    duration_ms = elapsed_ms (c.parse_time first) (c.parse_time last);
    models = [];
    tools_used = [];
  }

  -- MIN and MAX of no row are NULL, which Scan does not put in a string
  unfoldable pub scan_task : Bytes → List FlowRow → Option TaskSummary
  unfolding min_text max_text summary_of
  scan_task task_id rows = do
    let first = (← min_text (map FlowRow.timestamp rows))
    let last = (← max_text (map FlowRow.timestamp rows))
    some (summary_of task_id rows first last)

  -- the models of GROUP_CONCAT, split again
  unfoldable pub split_models : List Bytes → List Bytes
  unfolding join split_on
  split_models names =
      let text = join b',' names in if is_empty text then [] else split_on b',' text

  -- `visit` is the order in which SQLite meets distinct values
  unfoldable pub with_lists :
      (List Bytes → List Bytes) → List FlowRow → List ToolRow → TaskSummary → TaskSummary
  unfolding distinct split_models
  with_lists visit rows calls summary = record summary {
    models = split_models (visit (distinct (map FlowRow.model rows)));
    tools_used = visit (distinct (map (λ r. some (ToolRow.tool_name r)) calls));
  }

  unfoldable pub get_task_summary :
      (List Bytes → List Bytes) → Bytes → Database → Option TaskSummary
  unfolding where_rows scan_task with_lists
  get_task_summary visit task_id db = do
    let rows = where_rows (λ r. equals (FlowRow.task_id r) task_id) db.flows
    let calls = where_rows (λ r. equals (ToolRow.task_id r) task_id) db.tool_invocations
    some (with_lists visit rows calls (← scan_task task_id rows))

  -- the tasks of the groups; the group of NULL is left out by WHERE
  unfoldable pub scan_tasks : List (Option Bytes × List FlowRow) → Option (List TaskSummary)
  unfolding scan_task
  scan_tasks [] = some []
  scan_tasks ((none, rows) ∷ gs) = scan_tasks gs
  scan_tasks ((some task_id, rows) ∷ gs) = do
    let summary = (← scan_task task_id rows)
    some (summary ∷ (← scan_tasks gs))

  unfoldable pub list_task_summaries :
      (List TaskSummary → List TaskSummary) → ℕ → ℕ → ℕ → Database → Option (List TaskSummary)
  unfolding where_rows group_by scan_tasks
  list_task_summaries order start end limit db = do
    some (take limit (order (← scan_tasks (group_by FlowRow.task_id (flows_within start end db)))))

  unfoldable pub get_tool_stats :
      (List ToolStats → List ToolStats) → ℕ → ℕ → Database → List ToolStats
  unfolding where_rows group_by tool_stats
  get_tool_stats order start end db =
      order
        (map tool_stats (group_by (λ r. some (ToolRow.tool_name r)) (calls_within start end db)))

  unfoldable pub get_cost_by_day :
      (Bytes → Option Bytes)
      → (List CostByPeriod → List CostByPeriod)
      → ℕ
      → ℕ
      → Database
      → Option (List CostByPeriod)
  unfolding where_rows group_by scan_periods
  get_cost_by_day date order start end db = do
    let days = group_by (λ r. date (FlowRow.timestamp r)) (flows_within start end db)
    some (order (← scan_periods days))

  unfoldable pub get_cost_by_model :
      (List CostByPeriod → List CostByPeriod) → ℕ → ℕ → Database → List CostByPeriod
  unfolding where_rows group_by
  get_cost_by_model order start end db =
      order (
        map (λ g. cost_of (model_name g.0) g.1)
          (group_by FlowRow.model (flows_within start end db)))

  unfoldable pub get_overall_stats : ℕ → ℕ → Database → OverallStats
  unfolding where_rows sum_of distinct
  get_overall_stats start end db =
      let rows = flows_within start end db in
      let cost = sum_of (λ r. or_zero (FlowRow.total_cost r)) rows in
      let tokens_in = sum_of (λ r. or_zero (FlowRow.input_tokens r)) rows in
      let tokens_out = sum_of (λ r. or_zero (FlowRow.output_tokens r)) rows in
      record {
        total_flows = length rows;
        total_cost = cost;
        total_tokens_in = tokens_in;
        total_tokens_out = tokens_out;
        total_tasks = length (distinct (map FlowRow.task_id rows));
        total_tool_calls = length (calls_within start end db);
        avg_cost_per_flow = average cost (length rows);
        avg_tokens_per_flow = average (tokens_in + tokens_out) (length rows);
      }
