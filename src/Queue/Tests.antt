-- ===== src/Queue/Tests.antt =====
-- Runs of the queue of internal/queue/queue.go, and its theorems at concrete queues.
use mathlib.Core.List.{Mem}
use langley.Prelude.{ℕ, ◌≡◌, refl, true, false, List, [], ◌∷◌, Perm, some, arith, String}
use langley.Go.Heap
use langley.Queue.{
  QueueItem, Queue, add_one, new_queue, less, priority_value, push, pop, pop_batch, stats, add_item,
  evict_for_space,
}
use langley.Queue.Order.{IsValid}
use langley.Queue.Bounded.{filled, charged, push_full}
use langley.Queue.Drain.{Batch, pop_batch_ordered}
use langley.Queue.Ledger.{Ledger, Balanced, opened, run, pushes, pops, batches, closes, run-opened}

program : Unit {0}
unfolding add_one push pop pop_batch less add_item evict_for_space new_queue Heap.push Heap.pop
    Heap.up_loop Heap.down_loop Heap.swap Heap.less_at Heap.first_child priority_value
program = tt

abbrev item : ℕ → String → ℕ → QueueItem
item payload priority timestamp = record {
  payload = payload;
  priority = priority;
  flow_id = "flow";
  event_type = "event";
  timestamp = timestamp;
}

abbrev stop : QueueItem
stop = item 1 "high" 5

abbrev delta : QueueItem
delta = item 2 "low" 1

abbrev two : Queue
two = record {
  items = stop ∷ delta ∷ [];
  max_size = 3;
  drops_total = 0;
  drops_low = 0;
  drops_high = 0;
  drops_critical = 0;
  notified = true;
  closed = false;
}

abbrev full : Queue
full = record two { max_size = 2 }

-- a LOW item arrives at a full queue, and the HIGH one goes
full-push :
    push full (item 3 "low" 9)
    ≡ some (
      record full {
        items = delta ∷ item 3 "low" 9 ∷ [];
        drops_total = 1;
        drops_high = 1;
        drops_critical = 1;
      },
      false,
    )
unfolding program
full-push = refl

two-pop : pop two ≡ some (record two { items = delta ∷ [] }, some stop)
unfolding program
two-pop = refl

two-stats : (stats two).high_count ≡ 1
unfolding program stats
two-stats = refl

two-IsValid : IsValid two
unfolding program
two-IsValid = record {
  heap = λ c p q. let e : c ≡ 1 = omega arith in rw e refl;
  bounded = omega arith;
}

full-IsValid : IsValid full
full-IsValid = record { heap = two-IsValid.heap; bounded = omega arith }

push_full_example :
    (dropped : QueueItem) × (rest : List QueueItem) × (items : List QueueItem) × (push full delta
      ≡ some (filled (charged full dropped) items, false))
    × IsValid (filled (charged full dropped) items)
    × (pop full ≡ some (record full { items = rest }, some dropped))
    × Perm (dropped ∷ rest) full.items
    × Perm items (delta ∷ rest)
    × ((y : QueueItem) → Mem y full.items → less y dropped ≡ false)
push_full_example = push_full full delta full-IsValid refl (omega arith) refl

pop_batch_ordered_example :
    (rest : List QueueItem) × (batch : List QueueItem) × (pop_batch two 5
      ≡ some (record two { items = rest }, batch))
    × Batch two 2 rest batch
pop_batch_ordered_example = pop_batch_ordered two 5 two-IsValid

run-opened_example :
    (m : Ledger) × (run (opened 1) (pushes stop ∷ pushes delta ∷ pops ∷ batches 2 ∷ closes ∷ [])
      ≡ some m)
    × Balanced m
run-opened_example = run-opened 1 (pushes stop ∷ pushes delta ∷ pops ∷ batches 2 ∷ closes ∷ [])
