-- ===== src/Api/Totals/Unknown.antt =====
-- getTaskSummary of internal/api/api.go over the tables of the store.
use langley.Prelude.{
  ℕ, ◌≡◌, ◌≢◌, ◌↔◌, refl, ap, Bool, true, false, List, [], ◌∷◌, Bytes, codes, inl, inr,
  Option-cases,
}
use mathlib.Core.Bool.{true≢false}
use langley.Store.Tables.{FlowRow, Database, Codec}
use langley.Store.Query.{equals}
use langley.Analytics.Totals.{where_rows}
use langley.Analytics.Totals
use langley.Analytics.Totals.Tasks.{get_task_summary-none_iff}
use langley.Api.Flows.{ApiReply, http_error, json}
use langley.Api.Totals.{TaskSummaryResponse, get_task_summary}

-- Over the tables of the store, the analytics of a task are answered with the status 500 exactly when no
-- flow has the task: an unknown task looks like a failure of the server, and no other task fails.
pub get_task_summary-unknown_iff :
    (c : Codec) (visit : List Bytes → List Bytes) (db : Database) (b : ℕ) (id : Bytes)
    → (get_task_summary (λ task. Totals.get_task_summary c visit task db) true (b ∷ id)
        ≡ http_error 500 (codes "Internal error"))
      ↔ (where_rows (λ r. equals (FlowRow.task_id r) (b ∷ id)) db.flows ≡ [])
unfolding get_task_summary
get_task_summary-unknown_iff c visit db b id =
    let iff = get_task_summary-none_iff c visit (b ∷ id) db in
    (
      λ h. elim (Option-cases (Totals.get_task_summary c visit (b ∷ id) db)) [
        | inl e ↦ iff.0 e
        | inr (s, e) ↦ absurd (json≢error (rw e at h))
      ],
      λ none_of. rw (iff.1 none_of) refl,
    )
  where
    is_json : ApiReply TaskSummaryResponse → Bool
    is_json (json r) = true
    is_json (http_error status text) = false

    json≢error : {r : TaskSummaryResponse} {n : ℕ} {t : Bytes} → json r ≢ http_error n t
    json≢error e = true≢false (ap is_json e)
