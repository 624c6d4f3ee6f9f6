-- ===== src/Task/Tests.antt =====
-- Runs of the assigner of internal/task/assignment.go, and its theorems at concrete requests.
use mathlib.Core.List.{Mem}
use langley.Prelude.{
  ◌≡◌, ◌≢◌, refl, [], ◌∷◌, none, arith, Bytes, codes, beq, Option, lookup, insert,
}
use langley.Task.{
  Assigner, new_assigner, split_domain, simplify_host, format_counter, generate_task_id,
  assign_by_heuristic, assign,
}
use langley.Task.Fresh.{run, run-new_task}
use langley.Task.Sources.{run-same_task}

program : Unit {0}
unfolding beq split_domain simplify_host format_counter generate_task_id assign_by_heuristic assign
    run new_assigner lookup insert
program = tt

abbrev host : Bytes
host = codes "api.anthropic.com:443"

abbrev other : Bytes
other = codes "api.openai.com"

host_prefix : simplify_host host ≡ codes "anthropic"
unfolding program
host_prefix = refl

counter_text : format_counter 1295 ≡ codes "zz"
unfolding program
counter_text = refl

abbrev start : Assigner
start = new_assigner 5

-- two hosts, then the first again within the gap and after it
ids :
    (run start ((1, host) ∷ (2, other) ∷ (3, host) ∷ (900_000_000_000, host) ∷ [])).1
    ≡ codes "anthropic-1" ∷ codes "openai-2" ∷ codes "anthropic-1" ∷ codes "anthropic-3" ∷ []
unfolding program
ids = refl

run-new_task_example :
    ¬ Mem
      (assign_by_heuristic
        (run (new_assigner 5) ((1, host) ∷ (2, other) ∷ [])).0
        900_000_000_000
        host).1.task_id
      (run (new_assigner 5) ((1, host) ∷ (2, other) ∷ [])).1
unfolding program
run-new_task_example = run-new_task 5 900_000_000_000 host ((1, host) ∷ (2, other) ∷ []) refl

other-ne-host : other ≢ host
other-ne-host = λ e. cc e

run-same_task_example :
    (assign_by_heuristic
      (run (assign_by_heuristic start 1 host).0 ((2, other) ∷ [])).0
      3
      host).1.task_id
    ≡ (assign_by_heuristic start 1 host).1.task_id
unfolding program
run-same_task_example =
    run-same_task start 1 3 host ((2, other) ∷ []) (other-ne-host, tt) (omega arith)

abbrev no_metadata : Bytes → Option Bytes
no_metadata body = none
