-- ===== src/Queue.antt =====
-- internal/queue/queue.go: the bounded priority queue of events, with its drop counters.
-- `none` is a run-time panic. The field `index` of an item, which the heap writes and nothing
-- reads, is left out. A method holds the mutex throughout, so it is one step.
pub mod Order
pub mod Bounded
pub mod Drain
pub mod Evict
pub mod Ledger
mod Tests
use text.Mathlib.Text.{◌==◌ as str_eq}
use langley.Prelude.{
  ℕ, zero, suc, ◌+◌, ◌-◌, ◌*◌, ◌%◌, ◌^◌, Bool, true, false, not, ◌&&◌, ◌||◌, String, List, [], ◌∷◌,
  ◌++◌, Option, none, some, ltb, leb, ◌==◌, ◌>>=◌, if◌then◌else◌, length,
}
use langley.Go.Heap

abbrev pub priority_high : String
priority_high = "high"

abbrev pub priority_medium : String
priority_medium = "medium"

abbrev pub priority_low : String
priority_low = "low"

-- the map priorityValue; an unknown text reads as 0
unfoldable pub priority_value : String → ℕ
priority_value p =
    if str_eq p priority_high
    then 3
    else if str_eq p priority_medium
    then 2
    else if str_eq p priority_low
    then 1
    else 0

-- `payload` stands for the reference in Data, which the queue only carries
pub record QueueItem : Type 0 where
  pub payload : ℕ
  pub priority : String
  pub flow_id : String
  pub event_type : String
  pub timestamp : ℕ

-- `notified` says that the notification channel, which has room for one, holds a signal
pub record Queue : Type 0 where
  pub items : List QueueItem
  pub max_size : ℕ
  pub drops_total : ℕ
  pub drops_low : ℕ
  pub drops_high : ℕ
  pub drops_critical : ℕ
  pub notified : Bool
  pub closed : Bool

pub new_queue : ℕ → Queue
new_queue max_size = record {
  items = [];
  max_size = max_size;
  drops_total = 0;
  drops_low = 0;
  drops_high = 0;
  drops_critical = 0;
  notified = false;
  closed = false;
}

-- priorityHeap.Less: higher priority first, and the older first within a priority
unfoldable pub less : QueueItem → QueueItem → Bool
less a b =
    let pa = priority_value a.priority in
    let pb = priority_value b.priority in
    if pa == pb then ltb a.timestamp b.timestamp else ltb pb pa

-- atomic.AddUint64(_, 1)
unfoldable pub add_one : ℕ → ℕ
add_one n = (n + 1) % 2 ^ 64

-- the state of the scan of evictLowest: lowestIdx, lowestPrio, oldestTime
pub record Lowest : Type 0 where
  pub index : Option ℕ
  pub prio : ℕ
  pub oldest : ℕ

abbrev is_none {ℓ} : {A : Type ℓ} → Option A → Bool
is_none none = true
is_none (some x) = false

scan_lowest : ℕ → ℕ → Lowest → List QueueItem → Lowest
scan_lowest max_prio i best [] = best
scan_lowest max_prio i best (item ∷ items) =
    let p = priority_value item.priority in
    let better =
      ltb p best.prio || p == best.prio && (is_none best.index || ltb item.timestamp best.oldest) in
    let here : Lowest = record { index = some i; prio = p; oldest = item.timestamp } in
    scan_lowest max_prio (suc i) (if leb p max_prio && better then here else best) items

-- the queue after the removal, and whether an item was evicted
evict_lowest : Queue → String → Option (Queue × Bool)
unfolding scan_lowest
evict_lowest q max_priority =
    let start : Lowest = record { index = none; prio = 999; oldest = 0 } in
    let best = scan_lowest (priority_value max_priority) 0 start q.items in
    elim best.index [
      | none ↦ some (q, false)
      | some i ↦ do (_, rest) ← Heap.remove less q.items i; some (record q { items = rest }, true)
    ]

abbrev count_low : Queue → Queue
count_low q = record q { drops_low = add_one q.drops_low; drops_total = add_one q.drops_total }

-- fillPercent < n, in whole numbers: len / maxSize * 100 < n. At maxSize 0 and no items the
-- source has NaN, at which every comparison fails, as it does here.
abbrev fill_below : Queue → ℕ → Bool
fill_below q n = ltb (length q.items * 100) (n * q.max_size)

abbrev fill_at_least : Queue → ℕ → Bool
fill_at_least q n = leb (n * q.max_size) (length q.items * 100)

-- the last resort of evictForSpace
unfoldable pub evict_top : Queue → Option (Queue × Bool)
evict_top q =
    if ltb 0 (length q.items)
    then (do
      (oldest, rest) ← Heap.pop less q.items
      let critical = leb (priority_value priority_high) (priority_value oldest.priority)
      some (
        record q {
          items = rest;
          drops_high = if critical then add_one q.drops_high else q.drops_high;
          drops_critical = if critical then add_one q.drops_critical else q.drops_critical;
          drops_total = add_one q.drops_total;
        },
        false,
      ))
    else some (q, true)

-- evictForSpace between 95 % and 100 %
evict_pressed : Queue → QueueItem → Option (Queue × Bool)
unfolding evict_lowest
evict_pressed q item =
    if fill_at_least q 95 && fill_below q 100
    then (if leb (priority_value item.priority) (priority_value priority_low)
        then some (count_low q, true)
        else (do
          (r, evicted) ← evict_lowest q priority_low
          if evicted then some (count_low r, false) else evict_top r))
    else evict_top q

-- the queue, and whether the new item is dropped
unfoldable pub evict_for_space : Queue → QueueItem → Option (Queue × Bool)
unfolding evict_pressed evict_lowest evict_top
evict_for_space q item =
    if fill_below q 95
    then (do
      (r, evicted) ← evict_lowest q priority_low
      if evicted then some (count_low r, false) else evict_pressed r item)
    else evict_pressed q item

unfoldable pub add_item : Queue → QueueItem → Option (Queue × Bool)
add_item q item = do
  items ← Heap.push less q.items item
  some (record q { items = items; notified = true }, false)

-- the queue, and whether the item was dropped
unfoldable pub push : Queue → QueueItem → Option (Queue × Bool)
push q item =
    if q.closed
    then some (q, true)
    else if leb q.max_size (length q.items)
    then (do
      (r, dropped) ← evict_for_space q item
      if dropped then some (r, true) else add_item r item)
    else add_item q item

-- `none` inside the pair is the nil that an empty queue returns
unfoldable pub pop : Queue → Option (Queue × Option QueueItem)
pop q =
    if length q.items == 0
    then some (q, none)
    else (do (item, rest) ← Heap.pop less q.items; some (record q { items = rest }, some item))

pop_loop : ℕ → Queue → Option (Queue × List QueueItem)
pop_loop zero q = some (q, [])
pop_loop (suc n) q = do
  (item, rest) ← Heap.pop less q.items
  (r, batch) ← pop_loop n (record q { items = rest })
  some (r, item ∷ batch)

-- an n below 1 gives no items; the argument is the n that the source holds when it is positive
unfoldable pub pop_batch : Queue → ℕ → Option (Queue × List QueueItem)
unfolding pop_loop
pop_batch q n =
    if n == 0 || length q.items == 0
    then some (q, [])
    else pop_loop (if ltb (length q.items) n then length q.items else n) q

unfoldable pub close : Queue → Queue
close q = record q { closed = true }

pub record Stats : Type 0 where
  pub size : ℕ
  pub high_count : ℕ
  pub medium_count : ℕ
  pub low_count : ℕ
  pub drops_total : ℕ
  pub drops_low : ℕ
  pub drops_high : ℕ
  pub drops_critical : ℕ

abbrev count_item : Stats → QueueItem → Stats
count_item s item =
    if str_eq item.priority priority_high
    then record s { high_count = s.high_count + 1 }
    else if str_eq item.priority priority_medium
    then record s { medium_count = s.medium_count + 1 }
    else if str_eq item.priority priority_low
    then record s { low_count = s.low_count + 1 }
    else s

count_items : Stats → List QueueItem → Stats
count_items s [] = s
count_items s (item ∷ items) = count_items (count_item s item) items

pub stats : Queue → Stats
unfolding count_items
stats q =
    count_items
      (record {
        size = length q.items;
        high_count = 0;
        medium_count = 0;
        low_count = 0;
        drops_total = q.drops_total;
        drops_low = q.drops_low;
        drops_high = q.drops_high;
        drops_critical = q.drops_critical;
      })
      q.items
