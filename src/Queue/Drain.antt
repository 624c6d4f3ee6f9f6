-- ===== src/Queue/Drain.antt =====
-- PopBatch of internal/queue/queue.go.
use Prim.Native.Nat.{min}
use mathlib.Core.Logic.Or
use mathlib.Core.List.Perm
use mathlib.Core.List.{Mem}
use langley.Prelude.{
  ℕ, zero, suc, ◌≤◌, ◌≡◌, refl, ap, false, List, [], ◌∷◌, ◌++◌, Perm, some, arith, ltb, ◌==◌, ◌||◌,
  if◌then◌else◌, length, length-perm, Bool-cases, inl, inr,
}
use langley.Go.Heap.Laws.{pop_lem}
use langley.Queue.{QueueItem, Queue, less, pop_loop, pop_batch}
use langley.Queue.Order.{no_item, less-IsOrder, IsValid}
use mathlib.Core.List.{mem-cons}

-- each item of the batch is one that no later item, and none that stays, comes before
abbrev pub InOrder : List QueueItem → List QueueItem → Type 0
InOrder [] rest = Unit {0}
InOrder (x ∷ batch) rest =
    ((y : QueueItem) → Mem y (batch ++ rest) → less y x ≡ false) × InOrder batch rest

pub record Batch (q : Queue) (n : ℕ) (rest batch : List QueueItem) : Type 0 where
  pub valid : IsValid (record q { items = rest })
  pub same : Perm (batch ++ rest) q.items
  pub ordered : InOrder batch rest
  pub size : length batch ≡ n

pop_loop_lem :
    (n : ℕ) (q : Queue)
    → IsValid q
    → n ≤ length q.items
    → (rest : List QueueItem) × (batch : List QueueItem) × (pop_loop n q
        ≡ some (record q { items = rest }, batch))
      × Batch q n rest batch
unfolding pop_loop
pop_loop_lem zero q v h =
    (q.items, [], refl, record { valid = v; same = Perm.refl q.items; ordered = tt; size = refl })
pop_loop_lem (suc n) q v h =
    let (x, left, popped, s) = pop_lem less no_item less-IsOrder q.items (omega arith) v.heap in
    let next : IsValid (record q { items = left }) = record {
      heap = s.heap;
      bounded = omega (arith, length-perm s.same, v.bounded);
    } in
    let (rest, batch, runs, t) =
      pop_loop_lem n (record q { items = left }) next (omega (arith, length-perm s.same)) in
    (
      rest,
      x ∷ batch,
      rw (popped, runs) refl,
      record {
        valid = t.valid;
        same = Perm.trans (Perm.cons x t.same) s.same;
        ordered = (
          λ y m.
              s.first y ((Perm.mem_iff s.same).0 (mem-cons.1 (Or.inr ((Perm.mem_iff t.same).0 m)))),
          t.ordered,
        );
        size = ap suc t.size;
      },
    )

-- PopBatch never fails: it returns min(n, size) items in heap order, each no later than what is
-- behind it and what stays, and together with what stays they are the items that were there.
pub pop_batch_ordered :
    (q : Queue) (n : ℕ)
    → IsValid q
    → (rest : List QueueItem) × (batch : List QueueItem) × (pop_batch q n
        ≡ some (record q { items = rest }, batch))
      × Batch q (min n (length q.items)) rest batch
unfolding pop_batch
pop_batch_ordered q n v = elim (Bool-cases (n == 0 || length q.items == 0)) [
  | inl nothing ↦ (
    q.items,
    [],
    rw nothing,
    record { valid = v; same = Perm.refl q.items; ordered = tt; size = ground arith },
  )
  | inr some_left ↦
      let count : (if ltb (length q.items) n then length q.items else n) ≡ min n (length q.items) =
        ground arith in
      rw (some_left, count) (pop_loop_lem (min n (length q.items)) q v (omega arith))
]
