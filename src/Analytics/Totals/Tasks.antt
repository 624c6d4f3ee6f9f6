-- ===== src/Analytics/Totals/Tasks.antt =====
-- The tasks that ListTaskSummaries of internal/analytics/analytics.go gives, beside GetTaskSummary.
use langley.Prelude.{
  ℕ, ◌≡◌, ◌≢◌, ◌≤◌, ◌↔◌, refl, ap, ◌∙◌, if◌then◌else◌, List, [], ◌∷◌, map, Option, none, some,
  Bytes, length, arith, take, zero, suc,
}
use langley.Store.Tables.{FlowRow, ToolRow, Database, Codec, text_lt}
use langley.Store.Query.{equals}
use langley.Analytics.Totals.{
  TaskSummary, summary_of, with_lists, same, where_rows, group_by, min_text, max_text, flows_within,
  scan_task, get_task_summary, scan_tasks, list_task_summaries,
}
use langley.Analytics.Totals.Groups.{AllGroups, group_by-AllGroups, group_by-AllFull}

where_rows-equals :
    (task_id : Bytes) (rows : List FlowRow)
    → where_rows (λ r. equals (FlowRow.task_id r) task_id) rows
      ≡ where_rows (λ r. same (FlowRow.task_id r) (some task_id)) rows
unfolding where_rows
where_rows-equals task_id [] = refl
where_rows-equals task_id (r ∷ rows) =
    rw (equals_same r.task_id, where_rows-equals task_id rows) refl
  where
    equals_same : (t : Option Bytes) → equals t task_id ≡ same t (some task_id)
    equals_same none = refl
    equals_same (some t) = refl

min_text-cons : (x : Bytes) (xs : List Bytes) → (y : Bytes) × (min_text (x ∷ xs) ≡ some y)
unfolding min_text
min_text-cons x xs =
    elim (min_text xs)
      as (λ o.
        (y : Bytes) × (elim o [ none ↦ some x | some z ↦ some (if text_lt z x then z else x) ]
          ≡ some y)) [ none ↦ (x, refl) | some z ↦ (_, refl) ]

max_text-cons : (x : Bytes) (xs : List Bytes) → (y : Bytes) × (max_text (x ∷ xs) ≡ some y)
unfolding max_text
max_text-cons x xs =
    elim (max_text xs)
      as (λ o.
        (y : Bytes) × (elim o [ none ↦ some x | some z ↦ some (if text_lt x z then z else x) ]
          ≡ some y)) [ none ↦ (x, refl) | some z ↦ (_, refl) ]

-- without its lists
abbrev pub counted : TaskSummary → TaskSummary
counted s = record s { models = []; tools_used = [] }

abbrev pub AllTasks : (TaskSummary → Type 0) → List TaskSummary → Type 0
AllTasks P [] = Unit {0}
AllTasks P (s ∷ ss) = P s × AllTasks P ss

AllTasks-take :
    (P : TaskSummary → Type 0) (n : ℕ) (ss : List TaskSummary)
    → AllTasks P ss
    → AllTasks P (take n ss)
AllTasks-take P zero ss h = tt
AllTasks-take P (suc n) [] h = tt
AllTasks-take P (suc n) (s ∷ ss) (p, h) = (p, AllTasks-take P n ss h)

length-take_le : (n : ℕ) (ss : List TaskSummary) → length (take n ss) ≤ n
length-take_le zero ss = omega arith
length-take_le (suc n) [] = omega arith
length-take_le (suc n) (s ∷ ss) = omega (arith, length-take_le n ss)

module _ (c : Codec) where
  scan_task-cons :
      (task_id : Bytes) (r : FlowRow) (rows : List FlowRow)
      → (s : TaskSummary) × ((scan_task c task_id (r ∷ rows) ≡ some s)
          × ((s.task_id ≡ task_id) × (counted s ≡ s)))
  unfolding scan_task summary_of
  scan_task-cons task_id r rows =
      let first = min_text-cons r.timestamp (map FlowRow.timestamp rows) in
      let last = max_text-cons r.timestamp (map FlowRow.timestamp rows) in
      (summary_of c task_id (r ∷ rows) first.0 last.0, (rw (first.1, last.1) refl, (refl, refl)))

  module _ (visit : List Bytes → List Bytes) (db : Database) where
    -- GetTaskSummary has the same numbers for the task
    abbrev pub Agrees : TaskSummary → Type 0
    Agrees s =
        (t : TaskSummary) × ((get_task_summary c visit s.task_id db ≡ some t) × (counted t ≡ s))

    group-Agrees :
        (task_id : Bytes) (rs : List FlowRow)
        → where_rows (λ r. same (FlowRow.task_id r) (some task_id)) db.flows ≡ rs
        → rs ≢ []
        → (s : TaskSummary) × ((scan_task c task_id rs ≡ some s) × Agrees s)
    unfolding get_task_summary with_lists
    group-Agrees task_id [] e h = absurd (h refl)
    group-Agrees task_id (r ∷ rs) e h =
        let scanned = scan_task-cons task_id r rs in
        let calls = where_rows (λ t. equals (ToolRow.task_id t) task_id) db.tool_invocations in
        (
          scanned.0,
          (
            scanned.1.0,
            (
              with_lists c visit (r ∷ rs) calls scanned.0,
              (
                ap (λ i. get_task_summary c visit i db) scanned.1.1.0
                    ∙ rw (where_rows-equals task_id db.flows, e, scanned.1.0) refl,
                scanned.1.1.1,
              ),
            ),
          ),
        )

    scan_tasks-Agrees :
        (gs : List (Option Bytes × List FlowRow))
        → AllGroups (λ k rs. where_rows (λ r. same (FlowRow.task_id r) k) db.flows ≡ rs) gs
        → AllGroups (λ k rs. rs ≢ []) gs
        → (ss : List TaskSummary) × ((scan_tasks c gs ≡ some ss) × AllTasks Agrees ss)
    unfolding scan_tasks
    scan_tasks-Agrees [] e h = ([], (refl, tt))
    scan_tasks-Agrees ((none, rs) ∷ gs) (e, es) (h, hs) = scan_tasks-Agrees gs es hs
    scan_tasks-Agrees ((some task_id, rs) ∷ gs) (e, es) (h, hs) =
        let first = group-Agrees task_id rs e h in
        let rest = scan_tasks-Agrees gs es hs in
        (first.0 ∷ rest.0, (rw (first.1.0, rest.1.0) refl, (first.1.1, rest.1.1)))

  -- the flows of a time alone
  abbrev pub only_within : ℕ → ℕ → Database → Database
  only_within start end db = record db { flows = flows_within c start end db }

  -- If `order` makes no summary up, ListTaskSummaries never fails: it gives at most `limit` tasks, and
  -- each of them has the counts, sums and times that GetTaskSummary would give for it if only the
  -- flows from `start` to `end` were stored. Its lists of models and tools are empty.
  pub list_task_summaries-get_task_summary :
      (visit : List Bytes → List Bytes) (order : List TaskSummary → List TaskSummary)
      → ((P : TaskSummary → Type 0) (ss : List TaskSummary) → AllTasks P ss → AllTasks P (order ss))
      → (start end limit : ℕ) (db : Database)
      → (ss : List TaskSummary) × ((list_task_summaries c order start end limit db ≡ some ss)
          × ((length ss ≤ limit) × AllTasks (Agrees visit (only_within start end db)) ss))
  unfolding list_task_summaries
  list_task_summaries-get_task_summary visit order keeps start end limit db =
      let rows = flows_within c start end db in
      let scanned =
        scan_tasks-Agrees visit (only_within start end db) (group_by FlowRow.task_id rows)
          (group_by-AllGroups FlowRow.task_id rows) (group_by-AllFull FlowRow.task_id rows) in
      (
        take limit (order scanned.0),
        (
          rw scanned.1.0 refl,
          (
            length-take_le limit (order scanned.0),
            AllTasks-take _ limit (order scanned.0) (keeps _ scanned.0 scanned.1.1),
          ),
        ),
      )

  get_task_summary-cons :
      (visit : List Bytes → List Bytes) (task_id : Bytes) (db : Database) (rs : List FlowRow)
      → where_rows (λ r. equals (FlowRow.task_id r) task_id) db.flows ≡ rs
      → get_task_summary c visit task_id db ≡ none
      → rs ≡ []
  unfolding get_task_summary
  get_task_summary-cons visit task_id db [] e h = refl
  get_task_summary-cons visit task_id db (r ∷ rs) e h =
      let scanned = scan_task-cons task_id r rs in
      let calls = where_rows (λ t. equals (ToolRow.task_id t) task_id) db.tool_invocations in
      let found : get_task_summary c visit task_id db
          ≡ some (with_lists c visit (r ∷ rs) calls scanned.0) =
        rw (e, scanned.1.0) refl in
      cc

  -- GetTaskSummary fails exactly for a task that no flow has: it does not tell an unknown task from an
  -- error of the database.
  pub get_task_summary-none_iff :
      (visit : List Bytes → List Bytes) (task_id : Bytes) (db : Database)
      → (get_task_summary c visit task_id db ≡ none)
        ↔ (where_rows (λ r. equals (FlowRow.task_id r) task_id) db.flows ≡ [])
  unfolding get_task_summary
  get_task_summary-none_iff visit task_id db =
      (get_task_summary-cons visit task_id db _ refl, λ e. rw e (unfold scan_task min_text in refl))
