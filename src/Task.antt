-- ===== src/Task.antt =====
-- internal/task/assignment.go: the task of a request, by header, by metadata or by host and idle
-- gap. Times are nanoseconds, a host and an id are bytes. `now` is time.Now() under the mutex.
pub mod Counter
pub mod Host
pub mod Fresh
pub mod Sources
mod Tests
use langley.Prelude.{
  ℕ, zero, suc, ◌+◌, ◌-◌, ◌*◌, ◌/◌, ◌%◌, ◌<◌, Bool, true, false, not, ◌||◌, List, [], ◌∷◌, ◌++◌,
  Option, none, some, ltb, leb, ◌==◌, if◌then◌else◌, length, get_or, Bytes, codes, beq, Dict,
  lookup, insert,
}
use langley.Go.Strings.{cut_last}

pub data Source : Type 0 where
  explicit metadata inferred : Source

pub record Assignment : Type 0 where
  pub task_id : Bytes
  pub source : Source

pub record Assigner : Type 0 where
  pub last_activity : Dict ℕ
  pub last_task_id : Dict Bytes
  pub idle_gap : ℕ
  pub task_counter : ℕ

abbrev pub minute : ℕ
minute = 60_000_000_000

-- a configured gap of zero or less means the default; `idle_gap_minutes` is its positive part
pub new_assigner : ℕ → Assigner
new_assigner idle_gap_minutes = record {
  last_activity = [];
  last_task_id = [];
  idle_gap = (if ltb 0 idle_gap_minutes then idle_gap_minutes else 5) * minute;
  task_counter = 0;
}

-- splitDomain: `seg` is host[start:i]
abbrev flush : List Bytes → Bytes → List Bytes
flush parts [] = parts
flush parts (c ∷ seg) = parts ++ (c ∷ seg) ∷ []

unfoldable pub split_loop : List Bytes → Bytes → Bytes → List Bytes
split_loop parts seg [] = flush parts seg
split_loop parts seg (c ∷ host) =
    split_loop (if c == b'.' then flush parts seg else parts)
      (if c == b'.' then [] else seg ++ c ∷ []) host

unfoldable pub split_domain : Bytes → List Bytes
unfolding split_loop
split_domain host = split_loop [] [] host

-- the last but one of two parts or more, the only one, or "unknown"
unfoldable pub pick_part : List Bytes → Bytes
pick_part [] = codes "unknown"
pick_part (p ∷ []) = p
pick_part (p ∷ q ∷ []) = p
pick_part (p ∷ q ∷ r ∷ parts) = pick_part (q ∷ r ∷ parts)

unfoldable pub simplify_host : Bytes → Bytes
unfolding cut_last split_domain pick_part
simplify_host host =
    pick_part (split_domain (if ltb 0 (length host - 1) then cut_last b':' host else host))

abbrev pub digits : Bytes
digits = codes "0123456789abcdefghijklmnopqrstuvwxyz"

-- the loop of formatCounter, with fuel; digits[n%36] is always in range
unfoldable pub digits_loop : ℕ → ℕ → Bytes → Bytes
digits_loop zero n result = result
digits_loop (suc k) n result =
    let more = digits_loop k (n / 36) (get_or digits (n % 36) 0 ∷ result) in
    if ltb 0 n then more else result

unfoldable pub format_counter : ℕ → Bytes
unfolding digits_loop
format_counter n = if n == 0 then codes "0" else digits_loop n n []

unfoldable pub generate_task_id : Bytes → ℕ → Bytes
unfolding simplify_host format_counter
generate_task_id host counter = simplify_host host ++ codes "-" ++ format_counter counter

-- `a.lastTaskID[host]`, which is "" for a host that the map lacks
abbrev pub id_of : Bytes → Dict Bytes → Bytes
id_of host m = elim (lookup host m) [ none ↦ [] | some id ↦ id ]

abbrev pub is_new_task : Assigner → ℕ → Bytes → Bool
is_new_task a now host = elim (lookup host a.last_activity) [
  | none ↦ true
  | some last ↦ ltb (last + a.idle_gap) now
]

unfoldable pub assign_by_heuristic : Assigner → ℕ → Bytes → Assigner × Assignment
assign_by_heuristic a now host =
    let fresh = record a {
      task_counter = a.task_counter + 1;
      last_task_id = insert host (generate_task_id host (a.task_counter + 1)) a.last_task_id;
    } in
    let b = if is_new_task a now host then fresh else a in
    (
      record b { last_activity = insert host now b.last_activity },
      record { task_id = id_of host b.last_task_id; source = inferred },
    )

-- http.Header.Get at a canonical name: the first value, or ""
unfoldable pub header_get : Bytes → Dict (List Bytes) → Bytes
header_get name headers = elim (lookup name headers) [
  | none ↦ []
  | some [] ↦ []
  | some (v ∷ vs) ↦ v
]

abbrev is_empty : Bytes → Bool
is_empty [] = true
is_empty (c ∷ s) = false

-- encoding/json over the request's struct: the user_id, "" if the body has none, or an error
module _ (unmarshal : Bytes → Option Bytes) where
  unfoldable pub extract_metadata_task_id : Bytes → Bytes
  extract_metadata_task_id [] = []
  extract_metadata_task_id (c ∷ body) = elim (unmarshal (c ∷ body)) [ none ↦ [] | some id ↦ id ]

  unfoldable pub assign : Assigner → ℕ → Bytes → Dict (List Bytes) → Bytes → Assigner × Assignment
  unfolding header_get extract_metadata_task_id
  assign a now host headers body =
      let named = header_get (codes "X-Langley-Task") headers in
      let user = extract_metadata_task_id body in
      if not (is_empty named)
      then (a, record { task_id = named; source = explicit })
      else if not (is_empty user)
      then (a, record { task_id = user; source = metadata })
      else assign_by_heuristic a now host

unfoldable pub reset : Assigner → Assigner
reset a = record a { last_activity = []; last_task_id = []; task_counter = 0 }

pub record Stats : Type 0 where
  pub active_hosts : ℕ
  pub total_tasks : ℕ

pub get_stats : Assigner → Stats
get_stats a = record { active_hosts = length a.last_activity; total_tasks = a.task_counter }
