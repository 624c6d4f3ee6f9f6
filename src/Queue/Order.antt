-- ===== src/Queue/Order.antt =====
-- priorityHeap.Less of internal/queue/queue.go as an order, and the invariant of the queue.
use langley.Prelude.{ℕ, ◌≤◌, ◌≡◌, arith, length, false}
use langley.Go.Heap.Order.{IsOrder}
use langley.Go.Heap.Laws.{IsOrdered}
use langley.Queue.{QueueItem, Queue, new_queue, less, priority_value, priority_low}

abbrev pub no_item : QueueItem
no_item = record {
  payload = 0;
  priority = priority_low;
  flow_id = "";
  event_type = "";
  timestamp = 0;
}

pub less-IsOrder : IsOrder less
unfolding less
less-IsOrder = record { asymm = λ x y h. ground arith; not_after_trans = λ x y z h k. ground arith }

-- an item that another does not come before has at least its priority
pub priority-le :
    (x y : QueueItem) → less y x ≡ false → priority_value y.priority ≤ priority_value x.priority
unfolding less
priority-le x y h = ground arith

pub record IsValid (q : Queue) : Type 0 where
  pub heap : IsOrdered less no_item q.items
  pub bounded : length q.items ≤ q.max_size

pub new_queue-IsValid : (n : ℕ) → IsValid (new_queue n)
unfolding new_queue
new_queue-IsValid n = record { heap = λ c p q. absurd (omega arith); bounded = omega arith }
