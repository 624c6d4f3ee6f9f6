-- ===== src/Analytics/Totals/Negative.antt =====
-- The duration that internal/analytics/analytics.go gives a task whose flows lie within one second.
use langley.Prelude.{
  ℕ, suc, ◌+◌, ◌-◌, ◌/◌, ◌≡◌, refl, ap, ◌∙◌, true, false, List, [], ◌∷◌, some, Bytes, leb, arith,
}
use langley.Parser.Json.{negsuc}
use langley.Store.Tables.{FlowRow, ToolRow, Database, Codec, text_lt}
use langley.Store.Query.{equals}
use langley.Store.TimeText.{timestamp_text, timestamp_text-lt}
use langley.Analytics.Totals.{
  TaskSummary, elapsed_ms, where_rows, summary_of, get_task_summary, with_lists,
}

elapsed_ms-negative : (t k : ℕ) → elapsed_ms (t + (1_000_000 + k)) t ≡ negsuc (k / 1_000_000)
unfolding elapsed_ms
elapsed_ms-negative t k =
    let later : leb (t + (1_000_000 + k)) t ≡ false = ground arith in
    let ms : (t + (1_000_000 + k) - t) / 1_000_000 ≡ suc (k / 1_000_000) = omega arith in
    rw (later, ms) refl

text_lt-asym : (x y : Bytes) → text_lt y x ≡ true → text_lt x y ≡ false
unfolding text_lt
text_lt-asym [] y h = ground arith
text_lt-asym (a ∷ x) [] h = refl
text_lt-asym (a ∷ x) (b ∷ y) h = ground (arith, text_lt-asym x y)

-- A task has two flows, one at a full second and one a millisecond or more later in that second. Then the
-- later one counts as first seen and the earlier one as last seen, and the duration is negative.
pub get_task_summary-negative :
    (c : Codec) (visit : List Bytes → List Bytes) (task_id second : Bytes) (first later : FlowRow)
    (db : Database) (t k : ℕ)
    → where_rows (λ r. equals (FlowRow.task_id r) task_id) db.flows ≡ first ∷ later ∷ []
    → first.timestamp ≡ timestamp_text second 0
    → later.timestamp ≡ timestamp_text second (1_000_000 + k)
    → c.parse_time (timestamp_text second 0) ≡ t
    → c.parse_time (timestamp_text second (1_000_000 + k)) ≡ t + (1_000_000 + k)
    → (s : TaskSummary) × ((get_task_summary c visit task_id db ≡ some s)
        × ((s.first_seen ≡ t + (1_000_000 + k))
            × ((s.last_seen ≡ t) × (s.duration_ms ≡ negsuc (k / 1_000_000)))))
unfolding get_task_summary summary_of with_lists
get_task_summary-negative c visit task_id second first later db t k rows at_first at_later e d =
    let less : text_lt later.timestamp first.timestamp ≡ true =
      rw (at_first, at_later) (timestamp_text-lt second (1_000_000 + k) (omega arith)) in
    let calls = where_rows (λ r. equals (ToolRow.task_id r) task_id) db.tool_invocations in
    let from_first : c.parse_time first.timestamp ≡ t = ap c.parse_time at_first ∙ e in
    let from_later : c.parse_time later.timestamp ≡ t + (1_000_000 + k) =
      ap c.parse_time at_later ∙ d in
    (
      with_lists c visit (first ∷ later ∷ []) calls
          (summary_of c task_id (first ∷ later ∷ []) later.timestamp first.timestamp),
      (
        rw (rows, less, text_lt-asym first.timestamp later.timestamp less) refl,
        (from_later, (from_first, rw (from_later, from_first) (elapsed_ms-negative t k))),
      ),
    )
