-- ===== src/Store/TimeText.antt =====
-- The texts of times that internal/store/sqlite.go compares in SQL: RFC3339Nano in UTC, which leaves
-- out the zeros at the end of a fraction, and datetime('now') of SQLite. A second is its text up to the
-- fraction, a day its text up to the `T` or the space.
use langley.Prelude.{
  ℕ, zero, suc, ◌+◌, ◌/◌, ◌%◌, ◌<◌, ◌≡◌, refl, ap, ◌∙◌, true, false, ◌&&◌, List, [], length, ◌∷◌,
  ◌++◌, some, Bytes, codes, is_empty, ◌==◌, if◌then◌else◌, arith,
}
use mathlib.Core.List.{append_assoc, Memᴰ}
use langley.Store.{FlowFilter}
use langley.Store.Sqlite.Retention.{Stays, run_retention-Stays}
use langley.Store.Sqlite.Linked.{IsLinked}
use langley.Store.Query.Paged.{meets_all-append, count_conditions-conditions}
use langley.Store.Tables.{Codec, FlowRow, Database, text_lt}
use langley.Store.Sqlite.{run_retention}
use langley.Store.Query.{
  Condition, from_time, to_time, host_is, task_id_is, task_source_is, model_is, given, conditions,
  count_conditions, count_flows, list_flows, matching, meets, meets_all,
}

unfoldable pub digits : ℕ → ℕ → Bytes
digits zero n = []
digits (suc places) n = digits places (n / 10) ++ (b'0' + n % 10) ∷ []

unfoldable pub trim_zeros : Bytes → Bytes
trim_zeros [] = []
trim_zeros (d ∷ ds) =
    let rest = trim_zeros ds in if d == b'0' && is_empty rest then [] else d ∷ rest

-- .999999999 of the layout, of the nanoseconds within a second
unfoldable pub fraction : ℕ → Bytes
unfolding digits trim_zeros
fraction n = if n == 0 then [] else b'.' ∷ trim_zeros (digits 9 n)

unfoldable pub timestamp_text : Bytes → ℕ → Bytes
unfolding fraction
timestamp_text second n = second ++ (fraction n ++ codes "Z")

text_lt-append : (p x y : Bytes) → text_lt (p ++ x) (p ++ y) ≡ text_lt x y
unfolding text_lt
text_lt-append [] x y = refl
text_lt-append (c ∷ p) x y = ground (arith, text_lt-append p x y)

-- a time later in a second has the lesser text
pub timestamp_text-lt :
    (second : Bytes) (n : ℕ)
    → 0 < n
    → text_lt (timestamp_text second n) (timestamp_text second 0) ≡ true
unfolding timestamp_text fraction
timestamp_text-lt second n h =
    let some_left : (n == 0) ≡ false = ground arith in
    rw some_left (text_lt-append second _ _ ∙ unfold text_lt in refl)

-- a condition that fails, among others
meets_all-false :
    (r : FlowRow) (before : List Condition) (c : Condition) (after : List Condition)
    → meets r c ≡ false
    → meets_all r (before ++ c ∷ after) ≡ false
unfolding meets_all
meets_all-false r before c after h = rw (meets_all-append r before (c ∷ after), h) (ground arith)

-- a row within the second, after its start, does not meet a StartTime at the second
matching-misses :
    (second : Bytes) (n : ℕ) (r : FlowRow) (cs : List Condition)
    → 0 < n
    → r.timestamp ≡ timestamp_text second n
    → (others after : List Condition) → cs ≡ others ++ from_time (timestamp_text second 0) ∷ after
    → (before rest : List FlowRow) → matching cs (before ++ r ∷ rest) ≡ matching cs (before ++ rest)
unfolding matching
matching-misses second n r cs h e others after split [] rest =
    let late : meets r (from_time (timestamp_text second 0)) ≡ false =
      rw (e, timestamp_text-lt second n h) refl in
    let missed : meets_all r cs ≡ false =
      rw split (meets_all-false r others (from_time (timestamp_text second 0)) after late) in
    rw missed refl
matching-misses second n r cs h e others after split (x ∷ before) rest =
    rw (matching-misses second n r cs h e others after split before rest) refl

-- the conditions around a StartTime
split_conditions :
    (format_time : ℕ → Bytes) (filter : FlowFilter) (t : ℕ)
    → filter.start_time ≡ some t
    → (before : List Condition) × ((after : List Condition) × (conditions format_time filter
          ≡ before ++ from_time (format_time t) ∷ after))
unfolding conditions
split_conditions format_time filter t e = (
  given host_is filter.host
      ++ (given task_id_is filter.task_id
          ++ (given task_source_is filter.task_source ++ given model_is filter.model)),
  (given (λ t. to_time (format_time t)) filter.end_time, rw e (simp append_assoc)),
)

-- a table without one of its flows
abbrev pub with_flows : Database → List FlowRow → Database
with_flows db rows = record db { flows = rows }

-- CountFlows and ListFlows with a StartTime at a full second, in UTC, miss every flow that was
-- recorded within that second after its start, whatever else the filter says and whatever other flows
-- there are: they give the same as if it were not stored.
pub count_flows-misses :
    (c : Codec) (order : List FlowRow → List FlowRow) (filter : FlowFilter) (db : Database)
    (second : Bytes) (t n : ℕ) (before after : List FlowRow) (r : FlowRow)
    → filter.start_time ≡ some t
    → c.format_time t ≡ timestamp_text second 0
    → 0 < n
    → r.timestamp ≡ timestamp_text second n
    → (count_flows c filter (with_flows db (before ++ r ∷ after))
        ≡ count_flows c filter (with_flows db (before ++ after)))
      × (list_flows c order filter (with_flows db (before ++ r ∷ after))
          ≡ list_flows c order filter (with_flows db (before ++ after)))
unfolding count_flows list_flows
count_flows-misses c order filter db second t n before after r start at_second h within =
    let (others, (more, split)) = split_conditions c.format_time filter t start in
    let same : (cs : List Condition)
        → cs ≡ conditions c.format_time filter
        → matching cs (before ++ r ∷ after) ≡ matching cs (before ++ after) =
      λ cs e.
        matching-misses second n r cs h within others more
          (e ∙ split ∙ ap (λ x. others ++ from_time x ∷ more) at_second) before after in
    (
      ap length (
          same (count_conditions c.format_time filter)
            (count_conditions-conditions c.format_time filter)),
      rw (same (conditions c.format_time filter) refl) refl,
    )

text_lt-same_day : (day at clock : Bytes) → text_lt (day ++ b'T' ∷ at) (day ++ b' ' ∷ clock) ≡ false
unfolding text_lt
text_lt-same_day day at clock = text_lt-append day (b'T' ∷ at) (b' ' ∷ clock)

-- No flow is deleted on the day on which it expires, at no time of the day and even if it has expired
-- hours ago: in linked tables, RunRetention leaves a flow whose expiry is on the day, and its events and
-- tool invocations, whatever other flows have expired.
pub run_retention-same_day :
    (db : Database) (day clock at cutoff : Bytes) (r : FlowRow)
    → IsLinked db
    → Memᴰ r db.flows
    → r.expires_at ≡ some (day ++ b'T' ∷ at)
    → Stays r db (run_retention (day ++ b' ' ∷ clock) cutoff db).0
run_retention-same_day db day clock at cutoff r linked stored e =
    run_retention-Stays (day ++ b' ' ∷ clock) cutoff db r linked.flow_ids stored
      (rw e (text_lt-same_day day at clock))
