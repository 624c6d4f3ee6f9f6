-- ===== src/Task/Fresh.antt =====
-- The idle-gap heuristic of internal/task/assignment.go over runs of requests.
use mathlib.Core.List.{Mem, not-mem-nil, mem-cons}
use mathlib.Core.HLevel.{⊥_prop}
use mathlib.Core.Logic.Or
use langley.Prelude.{
  ℕ, ◌+◌, ◌≤◌, ◌≡◌, inl, inr, ◌∙◌, refl, true, false, List, [], ◌∷◌, some, arith, Bytes, beq,
  beq_iff, Dict, lookup, insert, lookup-insert, lookup-insert_self, Bool-cases, Option-cases,
}
use langley.Task.{Assigner, generate_task_id, id_of, is_new_task, assign_by_heuristic, new_assigner}
use langley.Task.Counter.{generate_task_id-injective}

-- requests, each with its time and host; the ids handed out, in order
unfoldable pub run : Assigner → List (ℕ × Bytes) → Assigner × List Bytes
run a [] = (a, [])
run a ((now, host) ∷ rs) =
    let (b, x) = assign_by_heuristic a now host in let (c, ids) = run b rs in (c, x.task_id ∷ ids)

abbrev pub Issued : ℕ → Bytes → Type 0
Issued n id = (g : Bytes) × (m : ℕ) × (id ≡ generate_task_id g m) × (m ≤ n)

-- every id on record carries a counter already used, and every host seen has one
pub record IsValid (a : Assigner) : Type 0 where
  pub issued : (h id : Bytes) → lookup h a.last_task_id ≡ some id → Issued a.task_counter id
  pub covered :
      (h : Bytes) (t : ℕ)
      → lookup h a.last_activity ≡ some t
      → (id : Bytes) × (lookup h a.last_task_id ≡ some id)

Issued-later : (n : ℕ) {id : Bytes} → Issued n id → Issued (n + 1) id
Issued-later n (g, m, e, h) = (g, m, e, omega arith)

id_of-insert : (h id : Bytes) (m : Dict Bytes) → id_of h (insert h id m) ≡ id
id_of-insert h id m = ground (arith, lookup-insert_self h id m)

pub assign_new :
    (a : Assigner) (now : ℕ) (host : Bytes)
    → is_new_task a now host ≡ true
    → ((assign_by_heuristic a now host).1.task_id ≡ generate_task_id host (a.task_counter + 1))
      × ((assign_by_heuristic a now host).0 ≡ record a {
        task_counter = a.task_counter + 1;
        last_task_id = insert host (generate_task_id host (a.task_counter + 1)) a.last_task_id;
        last_activity = insert host now a.last_activity;
      })
unfolding assign_by_heuristic
assign_new a now host e = (
  rw e (id_of-insert host (generate_task_id host (a.task_counter + 1)) a.last_task_id),
  rw e refl,
)

pub assign_again :
    (a : Assigner) (now : ℕ) (host : Bytes)
    → is_new_task a now host ≡ false
    → ((assign_by_heuristic a now host).1.task_id ≡ id_of host a.last_task_id)
      × ((assign_by_heuristic a now host).0
          ≡ record a { last_activity = insert host now a.last_activity })
unfolding assign_by_heuristic
assign_again a now host e = (rw e refl, rw e refl)

pub new-IsValid : (gap : ℕ) → IsValid (new_assigner gap)
unfolding new_assigner lookup
new-IsValid gap = record { issued = λ h id e. cc; covered = λ h t e. cc }

fresh-IsValid :
    (a : Assigner) (now : ℕ) (host : Bytes)
    → IsValid a
    → IsValid (record a {
      task_counter = a.task_counter + 1;
      last_task_id = insert host (generate_task_id host (a.task_counter + 1)) a.last_task_id;
      last_activity = insert host now a.last_activity;
    })
fresh-IsValid a now host v =
    let id = generate_task_id host (a.task_counter + 1) in
    record {
      issued = λ h x e. elim (Bool-cases (beq host h)) [
        | inl same ↦ (
          host,
          a.task_counter + 1,
          ground (arith, lookup-insert host h id a.last_task_id),
          omega arith,
        )
        | inr other ↦
            Issued-later a.task_counter
              (v.issued h x (ground (arith, lookup-insert host h id a.last_task_id)))
      ];
      covered = λ h t e. elim (Bool-cases (beq host h)) [
        | inl same ↦ (id, ground (arith, lookup-insert host h id a.last_task_id))
        | inr other ↦
            let (x, found) =
              v.covered h t (ground (arith, lookup-insert host h now a.last_activity)) in
            (x, ground (arith, lookup-insert host h id a.last_task_id))
      ];
    }

seen_before :
    (a : Assigner) (now : ℕ) (host : Bytes)
    → is_new_task a now host ≡ false
    → (t : ℕ) × (lookup host a.last_activity ≡ some t) × (now ≤ t + a.idle_gap)
seen_before a now host e = elim (Option-cases (lookup host a.last_activity)) [
  | inl missing ↦ absurd (ground arith)
  | inr (t, found) ↦ (t, found, ground arith)
]

again-IsValid :
    (a : Assigner) (now t : ℕ) (host : Bytes)
    → IsValid a
    → lookup host a.last_activity ≡ some t
    → IsValid (record a { last_activity = insert host now a.last_activity })
again-IsValid a now t host v found = record {
  issued = v.issued;
  covered = λ h u e. elim (Bool-cases (beq host h)) [
    | inl same ↦ v.covered h t (ground (arith, beq_iff host h))
    | inr other ↦ v.covered h u (ground (arith, lookup-insert host h now a.last_activity))
  ];
}

-- One inferred assignment on a valid assigner: it stays valid, its counter grows by at most one,
-- and the id is one that carries a used counter.
pub record Assigned (a b : Assigner) (id : Bytes) : Type 0 where
  pub valid : IsValid b
  pub gap : b.idle_gap ≡ a.idle_gap
  pub grows : a.task_counter ≤ b.task_counter
  pub issued : Issued b.task_counter id

pub assign-Assigned :
    (a : Assigner) (now : ℕ) (host : Bytes)
    → IsValid a
    → Assigned a (assign_by_heuristic a now host).0 (assign_by_heuristic a now host).1.task_id
assign-Assigned a now host v = elim (Bool-cases (is_new_task a now host)) [
  | inl new ↦
      let (id, state) = assign_new a now host new in
      rw (id, state)
        (record {
          valid = fresh-IsValid a now host v;
          gap = refl;
          grows = omega arith;
          issued = (host, a.task_counter + 1, refl, omega arith);
        })
  | inr old ↦
      let (id, state) = assign_again a now host old in
      let (t, found, near) = seen_before a now host old in
      let (x, known) = v.covered host t found in
      let named : id_of host a.last_task_id ≡ x = ground arith in
      rw (id, state)
        (record {
          valid = again-IsValid a now t host v found;
          gap = refl;
          grows = omega arith;
          issued = rw named (v.issued host x known);
        })
]

abbrev AllIssued : ℕ → List Bytes → Type 0
AllIssued n [] = Unit {0}
AllIssued n (id ∷ ids) = Issued n id × AllIssued n ids

Issued-mono : (m n : ℕ) (id : Bytes) → m ≤ n → Issued m id → Issued n id
Issued-mono m n id h (g, k, e, l) = (g, k, e, omega arith)

record Served (a b : Assigner) (ids : List Bytes) : Type 0 where
  valid : IsValid b
  gap : b.idle_gap ≡ a.idle_gap
  grows : a.task_counter ≤ b.task_counter
  issued : AllIssued b.task_counter ids

run-Served : (rs : List (ℕ × Bytes)) (a : Assigner) → IsValid a → Served a (run a rs).0 (run a rs).1
unfolding run
run-Served [] a v = record { valid = v; gap = refl; grows = omega arith; issued = tt }
run-Served ((now, host) ∷ rs) a v =
    let s = assign-Assigned a now host v in
    let t = run-Served rs (assign_by_heuristic a now host).0 s.valid in
    record {
      valid = t.valid;
      gap = t.gap ∙ s.gap;
      grows = omega (arith, s.grows, t.grows);
      issued = (Issued-mono _ _ _ t.grows s.issued, t.issued);
    }

not_issued :
    (n : ℕ) (host : Bytes) (ids : List Bytes)
    → AllIssued n ids
    → ¬ Mem (generate_task_id host (n + 1)) ids
not_issued n host [] h = not-mem-nil
not_issued n host (id ∷ ids) h = λ m.
    Or.elim ⊥_prop (mem-cons.0 m)
      (λ e.
        let (g, k, made, le) = h.0 in
        let same = generate_task_id-injective host g (n + 1) k (e ∙ made) in absurd (omega arith))
      (not_issued n host ids h.1)

-- After any run of inferred requests from a new assigner, a request of a host that is new or has
-- been idle for longer than the gap gets an id that no request of the run got.
pub run-new_task :
    (gap now : ℕ) (host : Bytes) (rs : List (ℕ × Bytes))
    → is_new_task (run (new_assigner gap) rs).0 now host ≡ true
    → ¬ Mem
        (assign_by_heuristic (run (new_assigner gap) rs).0 now host).1.task_id
        (run (new_assigner gap) rs).1
run-new_task gap now host rs new =
    let s = run-Served rs (new_assigner gap) (new-IsValid gap) in
    rw ((assign_new (run (new_assigner gap) rs).0 now host new).0)
      (not_issued (run (new_assigner gap) rs).0.task_counter host _ s.issued)
