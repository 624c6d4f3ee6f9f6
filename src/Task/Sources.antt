-- ===== src/Task/Sources.antt =====
-- Assign of internal/task/assignment.go: the order of the three sources, and the idle gap.
use langley.Prelude.{
  ℕ, ◌+◌, ◌≤◌, ◌≡◌, ◌≢◌, ◌⊎◌, inl, inr, ◌∙◌, refl, sym, false, List, [], ◌∷◌, ◌++◌, Option, some,
  arith, Bytes, codes, Dict, lookup, lookup-insert_self, lookup-insert_ne, Bool-cases,
}
use langley.Task.{
  Assigner, Assignment, explicit, metadata, generate_task_id, simplify_host, format_counter, id_of,
  is_new_task, assign_by_heuristic, assign, header_get, extract_metadata_task_id,
}
use langley.Task.Fresh.{run, IsValid, assign_new, assign_again, assign-Assigned}

abbrev pub AllOther : Bytes → List (ℕ × Bytes) → Type 0
AllOther host [] = Unit {0}
AllOther host ((now, h) ∷ rs) = (h ≢ host) × AllOther host rs

-- two assigners agree on a host
pub record SameFor (host : Bytes) (a b : Assigner) : Type 0 where
  pub activity : lookup host b.last_activity ≡ lookup host a.last_activity
  pub task : lookup host b.last_task_id ≡ lookup host a.last_task_id
  pub gap : b.idle_gap ≡ a.idle_gap

assign-SameFor :
    (a : Assigner) (now : ℕ) (h host : Bytes)
    → h ≢ host
    → SameFor host a (assign_by_heuristic a now h).0
assign-SameFor a now h host other = elim (Bool-cases (is_new_task a now h)) [
  | inl new ↦ rw ((assign_new a now h new).1) (record {
    activity = lookup-insert_ne h host now a.last_activity other;
    task = lookup-insert_ne h host (generate_task_id h (a.task_counter + 1)) a.last_task_id other;
    gap = refl;
  })
  | inr old ↦ rw ((assign_again a now h old).1) (record {
    activity = lookup-insert_ne h host now a.last_activity other;
    task = refl;
    gap = refl;
  })
]

run-SameFor :
    (rs : List (ℕ × Bytes)) (a : Assigner) (host : Bytes)
    → AllOther host rs
    → SameFor host a (run a rs).0
unfolding run
run-SameFor [] a host h = record { activity = refl; task = refl; gap = refl }
run-SameFor ((now, g) ∷ rs) a host h =
    let s = assign-SameFor a now g host h.0 in
    let t = run-SameFor rs (assign_by_heuristic a now g).0 host h.1 in
    record { activity = t.activity ∙ s.activity; task = t.task ∙ s.task; gap = t.gap ∙ s.gap }

-- what a request of a host leaves behind for the next one
assign-after :
    (a : Assigner) (t : ℕ) (host : Bytes)
    → (lookup host (assign_by_heuristic a t host).0.last_activity ≡ some t)
      × (id_of host (assign_by_heuristic a t host).0.last_task_id
          ≡ (assign_by_heuristic a t host).1.task_id)
      × ((assign_by_heuristic a t host).0.idle_gap ≡ a.idle_gap)
unfolding assign_by_heuristic
assign-after a t host = elim (Bool-cases (is_new_task a t host)) [
  | inl new ↦ rw new (lookup-insert_self host t a.last_activity, refl, refl)
  | inr old ↦ rw old (lookup-insert_self host t a.last_activity, refl, refl)
]

-- A request within the idle gap of the host's last one gets the same id, whatever other hosts
-- asked for in between.
pub run-same_task :
    (a : Assigner) (t now : ℕ) (host : Bytes) (rs : List (ℕ × Bytes))
    → AllOther host rs
    → now ≤ t + a.idle_gap
    → (assign_by_heuristic (run (assign_by_heuristic a t host).0 rs).0 now host).1.task_id
      ≡ (assign_by_heuristic a t host).1.task_id
run-same_task a t now host rs others near =
    let b = (assign_by_heuristic a t host).0 in
    let c = (run b rs).0 in
    let (seen, id, gap) = assign-after a t host in
    let s = run-SameFor rs b host others in
    let known : lookup host c.last_activity ≡ some t = s.activity ∙ seen in
    let kept : c.idle_gap ≡ a.idle_gap = s.gap ∙ gap in
    let old : is_new_task c now host ≡ false = still_open c t now host known (omega arith) in
    (assign_again c now host old).0 ∙ same_id c b host s.task ∙ id
  where
    still_open :
        (c : Assigner) (t now : ℕ) (host : Bytes)
        → lookup host c.last_activity ≡ some t
        → now ≤ t + c.idle_gap
        → is_new_task c now host ≡ false
    still_open c t now host known near = ground arith

    same_id :
        (c b : Assigner) (host : Bytes)
        → lookup host c.last_task_id ≡ lookup host b.last_task_id
        → id_of host c.last_task_id ≡ id_of host b.last_task_id
    same_id c b host e = ground arith

append-ne-empty : (s t : Bytes) (c : ℕ) → (s ++ c ∷ []) ++ t ≢ []
append-ne-empty [] t c = λ e. cc e
append-ne-empty (x ∷ s) t c = λ e. cc e

generate_task_id-ne-empty : (h : Bytes) (n : ℕ) → generate_task_id h n ≢ []
unfolding generate_task_id
generate_task_id-ne-empty h n = append-ne-empty (simplify_host h) (format_counter n) b'-'

List-cases : (s : Bytes) → (s ≡ []) ⊎ ((c : ℕ) × (t : Bytes) × (s ≡ c ∷ t))
List-cases [] = inl refl
List-cases (c ∷ t) = inr (c, t, refl)

module _ (unmarshal : Bytes → Option Bytes) where
  -- the three sources in their order: a task header decides before the body, the body before the
  -- heuristic, and only the heuristic changes the assigner
  abbrev pub Resolved :
      Assigner → ℕ → Bytes → Dict (List Bytes) → Bytes → Assigner × Assignment → Type 0
  Resolved a now host headers body r =
      let named = header_get (codes "X-Langley-Task") headers in
      let user = extract_metadata_task_id unmarshal body in
      ((named ≢ []) × (r ≡ (a, record { task_id = named; source = explicit })))
      ⊎ (((named ≡ []) × (user ≢ []) × (r ≡ (a, record { task_id = user; source = metadata })))
          ⊎ ((named ≡ []) × (user ≡ []) × (r ≡ assign_by_heuristic a now host)))

  pub assign-Resolved :
      (a : Assigner) (now : ℕ) (host : Bytes) (headers : Dict (List Bytes)) (body : Bytes)
      → Resolved a now host headers body (assign unmarshal a now host headers body)
  unfolding assign
  assign-Resolved a now host headers body =
      elim (List-cases (header_get (codes "X-Langley-Task") headers)) [
        | inr (c, s, named) ↦ inl ((λ e. cc (e, named)), rw named refl)
        | inl unnamed ↦ inr (elim (List-cases (extract_metadata_task_id unmarshal body)) [
          | inr (c, s, user) ↦ inl (unnamed, (λ e. cc (e, user)), rw (unnamed, user) refl)
          | inl unknown ↦ inr (unnamed, unknown, rw (unnamed, unknown) refl)
        ])
      ]

  Resolved-total :
      (a : Assigner) (now : ℕ) (host : Bytes) (headers : Dict (List Bytes)) (body : Bytes)
      (r : Assigner × Assignment)
      → IsValid a
      → Resolved a now host headers body r
      → IsValid r.0 × (r.1.task_id ≢ [])
  Resolved-total a now host headers body r v (inl (named, e)) = rw e (v, named)
  Resolved-total a now host headers body r v (inr (inl (unnamed, user, e))) = rw e (v, user)
  Resolved-total a now host headers body r v (inr (inr (unnamed, unknown, e))) =
      let s = assign-Assigned a now host v in
      let (g, k, made, le) = s.issued in
      rw e (s.valid, λ empty. generate_task_id-ne-empty g k (sym made ∙ empty))

  -- Assign on a valid assigner resolves the three sources in their order, keeps the assigner
  -- valid, and never returns an empty task id.
  pub assign_total :
      (a : Assigner) (now : ℕ) (host : Bytes) (headers : Dict (List Bytes)) (body : Bytes)
      → IsValid a
      → Resolved a now host headers body (assign unmarshal a now host headers body)
        × IsValid (assign unmarshal a now host headers body).0
        × ((assign unmarshal a now host headers body).1.task_id ≢ [])
  assign_total a now host headers body v =
      let r = assign-Resolved a now host headers body in
      let (valid, named) = Resolved-total a now host headers body _ v r in (r, valid, named)
