-- ===== src/Queue/Evict.antt =====
-- What backpressure drops in internal/queue/queue.go, over any run of calls.
use mathlib.Core.List.{Mem}
use langley.Prelude.{◌≤◌, ◌<◌, ◌≡◌, false, List, ◌∷◌, Perm, some, length}
use langley.Queue.{QueueItem, Queue, priority_value, push}
use langley.Queue.Order.{IsValid, priority-le}
use langley.Queue.Bounded.{filled, charged, push_full}

-- An open, full queue of positive size drops an item of at least the priority of every item in
-- it: where a LOW item stands beside a HIGH one, it is a HIGH item that goes.
pub push_full-drops-highest :
    (q : Queue) (item y : QueueItem)
    → IsValid q
    → q.closed ≡ false
    → 0 < q.max_size
    → length q.items ≡ q.max_size
    → Mem y q.items
    → (dropped : QueueItem) × (rest : List QueueItem) × (items : List QueueItem) × (push q item
        ≡ some (filled (charged q dropped) items, false))
      × Perm (dropped ∷ rest) q.items
      × Perm items (item ∷ rest)
      × (priority_value y.priority ≤ priority_value dropped.priority)
push_full-drops-highest q item y v up pos full m =
    let (dropped, rest, items, runs, w, popped, p, r, first) = push_full q item v up pos full in
    (dropped, rest, items, runs, p, r, priority-le dropped y (first y m))
