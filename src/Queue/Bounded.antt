-- ===== src/Queue/Bounded.antt =====
-- Push and Pop of internal/queue/queue.go: what each does on a valid queue, on every branch.
use mathlib.Core.List.{Mem}
use langley.Prelude.{
  ◌≤◌, ◌<◌, ◌≡◌, ◌∙◌, refl, ap, Bool, true, false, List, ◌∷◌, Perm, Option, none, some, arith, ltb,
  leb, ◌==◌, ◌>>=◌, if◌then◌else◌, length, length-perm,
}
use langley.Go.Heap
use langley.Go.Heap.Laws.{IsOrdered, Pushed, push_lem, pop_lem}
use langley.Queue.{
  QueueItem, Queue, less, add_one, priority_value, priority_high, push, pop, add_item,
  evict_for_space, evict_top, fill_below,
}
use langley.Queue.Order.{no_item, less-IsOrder, IsValid}

-- the queue with other items, and a signal for the consumer
abbrev pub filled : Queue → List QueueItem → Queue
filled q items = record q { items = items; notified = true }

-- the queue after the item `dropped` made room
abbrev pub charged : Queue → QueueItem → Queue
charged q dropped =
    let critical = leb (priority_value priority_high) (priority_value dropped.priority) in
    record q {
      drops_high = if critical then add_one q.drops_high else q.drops_high;
      drops_critical = if critical then add_one q.drops_critical else q.drops_critical;
      drops_total = add_one q.drops_total;
    }

add_item_lem :
    (q : Queue) (item : QueueItem)
    → IsOrdered less no_item q.items
    → (items : List QueueItem) × (add_item q item ≡ some (filled q items, false))
      × Pushed less no_item q.items item items
unfolding add_item
add_item_lem q item v =
    let (items, runs, s) = push_lem less no_item less-IsOrder q.items item v in
    (items, rw runs refl, s)

-- A full queue of a positive size is never below 100 percent, so neither LOW branch runs.
evict_for_space-full :
    (q : Queue) (item : QueueItem)
    → q.max_size ≤ length q.items
    → evict_for_space q item ≡ evict_top q
unfolding evict_for_space
evict_for_space-full q item full =
    let low : fill_below q 95 ≡ false = ground arith in
    let pressed : fill_below q 100 ≡ false = ground arith in rw (low, pressed) (ground arith)

push-add_item :
    (q : Queue) (item : QueueItem)
    → q.closed ≡ false
    → length q.items < q.max_size
    → push q item ≡ add_item q item
unfolding push
push-add_item q item up room = ground arith

abbrev after_evict : QueueItem → Option (Queue × Bool) → Option (Queue × Bool)
after_evict item r = r >>= λ (s, dropped). if dropped then some (s, true) else add_item s item

push-evict_top :
    (q : Queue) (item : QueueItem)
    → q.closed ≡ false
    → q.max_size ≤ length q.items
    → push q item ≡ after_evict item (evict_top q)
unfolding push
push-evict_top q item up full = ground (arith, evict_for_space-full q item full)

evict_top-charged :
    (q : Queue) (dropped : QueueItem) (rest : List QueueItem)
    → 0 < length q.items
    → Heap.pop less q.items ≡ some (dropped, rest)
    → evict_top q ≡ some (record (charged q dropped) { items = rest }, false)
unfolding evict_top
evict_top-charged q dropped rest pos popped =
    let some_left : ltb 0 (length q.items) ≡ true = ground arith in rw (some_left, popped) refl

-- Push on an open queue with room adds exactly the item, drops nothing, and signals the consumer.
pub push_room :
    (q : Queue) (item : QueueItem)
    → IsValid q
    → q.closed ≡ false
    → length q.items < q.max_size
    → (items : List QueueItem) × (push q item ≡ some (filled q items, false))
      × IsValid (filled q items)
      × Perm items (item ∷ q.items)
push_room q item v up room =
    let (items, runs, s) = add_item_lem q item v.heap in
    (
      items,
      push-add_item q item up room ∙ runs,
      record { heap = s.heap; bounded = omega (arith, length-perm s.same) },
      s.same,
    )

-- Push on an open, full queue of positive size evicts the item that Pop would return, which no other
-- item comes before, counts it, and adds the new item to those that Pop would leave.
pub push_full :
    (q : Queue) (item : QueueItem)
    → IsValid q
    → q.closed ≡ false
    → 0 < q.max_size
    → length q.items ≡ q.max_size
    → (dropped : QueueItem) × (rest : List QueueItem) × (items : List QueueItem) × (push q item
        ≡ some (filled (charged q dropped) items, false))
      × IsValid (filled (charged q dropped) items)
      × (pop q ≡ some (record q { items = rest }, some dropped))
      × Perm (dropped ∷ rest) q.items
      × Perm items (item ∷ rest)
      × ((y : QueueItem) → Mem y q.items → less y dropped ≡ false)
unfolding pop
push_full q item v up pos full =
    let (dropped, rest, popped, s) =
      pop_lem less no_item less-IsOrder q.items (omega arith) v.heap in
    let left : (length q.items == 0) ≡ false = ground arith in
    let (items, runs, t) = add_item_lem (record (charged q dropped) { items = rest }) item s.heap in
    (
      dropped,
      rest,
      items,
      push-evict_top q item up (omega arith)
          ∙ ap (after_evict item) (evict_top-charged q dropped rest (omega arith) popped)
          ∙ runs,
      record { heap = t.heap; bounded = omega (arith, length-perm t.same, length-perm s.same) },
      rw (left, popped) refl,
      s.same,
      t.same,
      s.first,
    )

-- A closed queue drops each item and stays as it is.
pub push_closed : (q : Queue) (item : QueueItem) → q.closed ≡ true → push q item ≡ some (q, true)
unfolding push
push_closed q item shut = ground arith

-- A queue of size 0 drops each item, and counts none.
pub push_zero :
    (q : Queue) (item : QueueItem) → IsValid q → q.max_size ≡ 0 → push q item ≡ some (q, true)
unfolding push evict_top
push_zero q item v none_fit = ground (arith, evict_for_space-full q item, v.bounded)

pub pop_empty : (q : Queue) → length q.items ≡ 0 → pop q ≡ some (q, none)
unfolding pop
pop_empty q e = ground arith

-- Pop on a queue with items returns one that no other comes before, and keeps the others.
pub pop_first :
    (q : Queue)
    → IsValid q
    → 0 < length q.items
    → (item : QueueItem) × (rest : List QueueItem) × (pop q
        ≡ some (record q { items = rest }, some item))
      × IsValid (record q { items = rest })
      × Perm (item ∷ rest) q.items
      × ((y : QueueItem) → Mem y q.items → less y item ≡ false)
unfolding pop
pop_first q v pos =
    let (item, rest, popped, s) = pop_lem less no_item less-IsOrder q.items pos v.heap in
    let left : (length q.items == 0) ≡ false = ground arith in
    (
      item,
      rest,
      rw (left, popped) refl,
      record { heap = s.heap; bounded = omega (arith, length-perm s.same) },
      s.same,
      s.first,
    )
