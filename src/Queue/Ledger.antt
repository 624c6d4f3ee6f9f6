-- ===== src/Queue/Ledger.antt =====
-- The books of the queue in internal/queue/queue.go, over any sequence of calls.
use langley.Prelude.{
  ℕ, ◌+◌, ◌%◌, ◌^◌, ◌<◌, ◌≡◌, ◌⊎◌, inl, inr, refl, ap, Bool, List, [], ◌∷◌, Option, none, some,
  arith, ◌==◌, ◌>>=◌, if◌then◌else◌, length, length-append, length-perm, Bool-cases,
}
use langley.Queue.{QueueItem, Queue, add_one, new_queue, push, pop, pop_batch, close}
use langley.Queue.Order.{IsValid, new_queue-IsValid}
use langley.Queue.Bounded.{push_room, push_full, push_zero, push_closed, pop_empty, pop_first}
use langley.Queue.Drain.{pop_batch_ordered}

pub data Call : Type 0 where
  pushes : QueueItem → Call
  pops : Call
  batches : ℕ → Call
  closes : Call

-- the queue, and the numbers of items that it took in and that it handed out
pub record Ledger : Type 0 where
  pub queue : Queue
  pub accepted : ℕ
  pub delivered : ℕ

abbrev handed_out : Option QueueItem → ℕ
handed_out none = 0
handed_out (some item) = 1

-- the ledger after a Push
abbrev accept : Ledger → Option (Queue × Bool) → Option Ledger
accept l r = r >>= λ (q, dropped).
    some (record l { queue = q; accepted = if dropped then l.accepted else l.accepted + 1 })

unfoldable pub step : Ledger → Call → Option Ledger
step l (pushes item) = accept l (push l.queue item)
step l pops = do
  (q, item) ← pop l.queue
  some (record l { queue = q; delivered = l.delivered + handed_out item })
step l (batches n) = do
  (q, batch) ← pop_batch l.queue n
  some (record l { queue = q; delivered = l.delivered + length batch })
step l closes = some (record l { queue = close l.queue })

unfoldable pub run : Ledger → List Call → Option Ledger
run l [] = some l
run l (c ∷ cs) = step l c >>= λ m. run m cs

-- every accepted item is in the queue, was handed out, or was counted as dropped
pub record Balanced (l : Ledger) : Type 0 where
  pub valid : IsValid l.queue
  pub no_low : l.queue.drops_low ≡ 0
  pub critical : l.queue.drops_high ≡ l.queue.drops_critical
  pub conserved :
      l.accepted % 2 ^ 64 ≡ (l.delivered + length l.queue.items + l.queue.drops_total) % 2 ^ 64

abbrev pub Steps : Ledger → Call → Type 0
Steps l c = (m : Ledger) × (step l c ≡ some m) × Balanced m

size_cases :
    (q : Queue)
    → IsValid q
    → (q.max_size ≡ 0)
      ⊎ ((length q.items < q.max_size) ⊎ ((0 < q.max_size) × (length q.items ≡ q.max_size)))
size_cases q v = omega (arith, v.bounded)

add_one-conserved :
    (a e n t : ℕ)
    → a % 2 ^ 64 ≡ (e + n + t) % 2 ^ 64
    → (a + 1) % 2 ^ 64 ≡ (e + n + add_one t) % 2 ^ 64
unfolding add_one
add_one-conserved a e n t h = omega arith

push-Balanced : (l : Ledger) (item : QueueItem) → Balanced l → Steps l (pushes item)
unfolding step
push-Balanced l item b = elim (Bool-cases l.queue.closed) [
  | inl shut ↦ (l, ap (accept l) (push_closed l.queue item shut), b)
  | inr up ↦ elim (size_cases l.queue b.valid) [
    | inl none_fit ↦ (l, ap (accept l) (push_zero l.queue item b.valid none_fit), b)
    | inr (inl room) ↦
        let (items, runs, v, p) = push_room l.queue item b.valid up room in
        (
          _,
          ap (accept l) runs,
          record {
            valid = v;
            no_low = b.no_low;
            critical = b.critical;
            conserved = omega (arith, b.conserved, length-perm p);
          },
        )
    | inr (inr (pos, full)) ↦
        let (dropped, rest, items, runs, v, popped, p, r, first) =
          push_full l.queue item b.valid up pos full in
        let kept : length items ≡ length l.queue.items =
          omega (arith, length-perm p, length-perm r) in
        (
          _,
          ap (accept l) runs,
          record {
            valid = v;
            no_low = b.no_low;
            critical = rw b.critical refl;
            conserved = rw kept (
                add_one-conserved l.accepted l.delivered (length l.queue.items) l.queue.drops_total
                  b.conserved);
          },
        )
  ]
]

pop-Balanced : (l : Ledger) → Balanced l → Steps l pops
unfolding step
pop-Balanced l b = elim (Bool-cases (length l.queue.items == 0)) [
  | inl empty ↦ (l, rw (pop_empty l.queue (ground arith)) (ground arith), b)
  | inr left ↦
      let (item, rest, runs, v, p, first) = pop_first l.queue b.valid (ground arith) in
      (
        record l { queue = record l.queue { items = rest }; delivered = l.delivered + 1 },
        rw runs refl,
        record {
          valid = v;
          no_low = b.no_low;
          critical = b.critical;
          conserved = omega (arith, b.conserved, length-perm p);
        },
      )
]

batch-Balanced : (l : Ledger) (n : ℕ) → Balanced l → Steps l (batches n)
unfolding step
batch-Balanced l n b =
    let (rest, batch, runs, s) = pop_batch_ordered l.queue n b.valid in
    (
      record l { queue = record l.queue { items = rest }; delivered = l.delivered + length batch },
      rw runs refl,
      record {
        valid = s.valid;
        no_low = b.no_low;
        critical = b.critical;
        conserved = omega (arith, b.conserved, length-perm s.same, length-append batch rest);
      },
    )

step-Balanced : (l : Ledger) (c : Call) → Balanced l → Steps l c
unfolding step close
step-Balanced l (pushes item) b = push-Balanced l item b
step-Balanced l pops b = pop-Balanced l b
step-Balanced l (batches n) b = batch-Balanced l n b
step-Balanced l closes b = (
  _,
  refl,
  record {
    valid = record { heap = b.valid.heap; bounded = b.valid.bounded };
    no_low = b.no_low;
    critical = b.critical;
    conserved = b.conserved;
  },
)

run-Balanced :
    (cs : List Call) (l : Ledger) → Balanced l → (m : Ledger) × (run l cs ≡ some m) × Balanced m
unfolding run
run-Balanced [] l b = (l, refl, b)
run-Balanced (c ∷ cs) l b =
    let (m, here, w) = step-Balanced l c b in
    let (k, later, u) = run-Balanced cs m w in (k, rw (here, later) refl, u)

abbrev pub opened : ℕ → Ledger
opened n = record { queue = new_queue n; accepted = 0; delivered = 0 }

-- From a new queue of any size no sequence of Push, Pop, PopBatch and Close fails. After it the
-- queue is a heap within its size; every item that Push took in is in the queue, was handed out,
-- or is counted in dropsTotal, modulo 2 ^ 64; dropsLow is still 0, and dropsHigh equals
-- dropsCritical.
pub run-opened : (n : ℕ) (cs : List Call) → (m : Ledger) × (run (opened n) cs ≡ some m) × Balanced m
unfolding new_queue
run-opened n cs =
    run-Balanced cs (opened n)
      (record { valid = new_queue-IsValid n; no_low = refl; critical = refl; conserved = refl })
