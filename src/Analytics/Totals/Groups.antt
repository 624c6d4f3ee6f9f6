-- ===== src/Analytics/Totals/Groups.antt =====
-- The rows of the groups of a query, for internal/analytics/analytics.go.
use langley.Prelude.{
  ◌≡◌, ◌≢◌, if◌then◌else◌, refl, ap, sym, ◌∙◌, Bool, true, false, ◌||◌, List, [], ◌∷◌, ◌++◌, Option,
  none, some, Bytes, Bool-cases, beq_sound, beq_refl, inl, inr,
}
use mathlib.Core.Bool.{true≢false}
use mathlib.Core.List.{append-nil, cons≢nil}
use langley.Analytics.Totals.{same, where_rows, add_row, group_by}

same_sound : (j k : Option Bytes) → same j k ≡ true → j ≡ k
same_sound none none h = refl
same_sound (some x) (some y) h = ap some (beq_sound x y h)
same_sound none (some y) h = cc
same_sound (some x) none h = cc

same_refl : (k : Option Bytes) → same k k ≡ true
same_refl none = refl
same_refl (some x) = beq_refl x

same_false : (j k : Option Bytes) → same j k ≡ false → same k j ≡ false
same_false j k h = elim (Bool-cases (same k j)) [
  | inl e ↦ let p = same_sound k j e in ap (λ x. same x j) p ∙ ap (λ x. same j x) (sym p) ∙ h
  | inr e ↦ e
]

module _ {ℓ} {R : Type ℓ} where
  abbrev pub AllGroups {κ} :
      (Option Bytes → List R → Type κ) → List (Option Bytes × List R) → Type κ
  AllGroups P [] = Unit
  AllGroups P (g ∷ gs) = P g.0 g.1 × AllGroups P gs

  -- all rows of the groups of a key
  unfoldable rows_of : Option Bytes → List (Option Bytes × List R) → List R
  rows_of k [] = []
  rows_of k ((j, rs) ∷ gs) = let rest = rows_of k gs in if same j k then rs ++ rest else rest

  unfoldable has_group : Option Bytes → List (Option Bytes × List R) → Bool
  has_group k [] = false
  has_group k ((j, rs) ∷ gs) = same j k || has_group k gs

  abbrev AreDistinct : List (Option Bytes × List R) → Type 0
  AreDistinct [] = Unit {0}
  AreDistinct ((j, rs) ∷ gs) = (has_group j gs ≡ false) × AreDistinct gs

  rows_of-add_row_same :
      (k : Option Bytes) (r : R) (gs : List (Option Bytes × List R))
      → rows_of k (add_row k r gs) ≡ r ∷ rows_of k gs
  unfolding rows_of add_row
  rows_of-add_row_same k r [] = rw (same_refl k, rows_of) refl
  rows_of-add_row_same k r ((j, rs) ∷ gs) = elim (Bool-cases (same j k)) [
    | inl e ↦ rw (e, rows_of) (rw e refl)
    | inr e ↦ rw (e, rows_of) (rw e (rows_of-add_row_same k r gs))
  ]

  rows_of-add_row_other :
      (k i : Option Bytes) (r : R) (gs : List (Option Bytes × List R))
      → same k i ≡ false
      → rows_of i (add_row k r gs) ≡ rows_of i gs
  unfolding rows_of add_row
  rows_of-add_row_other k i r [] h = rw (h, rows_of) refl
  rows_of-add_row_other k i r ((j, rs) ∷ gs) h = elim (Bool-cases (same j k)) [
    | inl e ↦
        let other : same j i ≡ false = ap (λ x. same x i) (same_sound j k e) ∙ h in
        rw (e, other, rows_of) refl
    | inr e ↦ rw e (elim (Bool-cases (same j i)) [
      | inl d ↦ rw (d, rows_of) (ap (λ xs. rs ++ xs) (rows_of-add_row_other k i r gs h))
      | inr d ↦ rw (d, rows_of) (rows_of-add_row_other k i r gs h)
    ])
  ]

  rows_of-group_by :
      (key : R → Option Bytes) (k : Option Bytes) (rows : List R)
      → rows_of k (group_by key rows) ≡ where_rows (λ r. same (key r) k) rows
  unfolding rows_of group_by where_rows
  rows_of-group_by key k [] = refl
  rows_of-group_by key k (r ∷ rows) = elim (Bool-cases (same (key r) k)) [
    | inl e ↦ rw e (
        ap (λ x. rows_of x (add_row (key r) r (group_by key rows))) (sym (same_sound _ k e))
        ∙ rows_of-add_row_same (key r) r (group_by key rows)
        ∙ ap (◌∷◌ r) (
            ap (λ x. rows_of x (group_by key rows)) (same_sound _ k e)
            ∙ rows_of-group_by key k rows))
    | inr e ↦
        rw e (rows_of-add_row_other (key r) k r (group_by key rows) e ∙ rows_of-group_by key k rows)
  ]

  has_group-add_row :
      (k i : Option Bytes) (r : R) (gs : List (Option Bytes × List R))
      → same k i ≡ false
      → has_group i gs ≡ false
      → has_group i (add_row k r gs) ≡ false
  unfolding has_group add_row
  has_group-add_row k i r [] h g = rw h refl
  has_group-add_row k i r ((j, rs) ∷ gs) h g = elim (Bool-cases (same j k)) [
    | inl e ↦ rw e g
    | inr e ↦ rw e (elim (Bool-cases (same j i)) [
      | inl d ↦ absurd (true≢false (rw d at g))
      | inr d ↦ rw d (has_group-add_row k i r gs h (rw d at g))
    ])
  ]

  AreDistinct-add_row :
      (k : Option Bytes) (r : R) (gs : List (Option Bytes × List R))
      → AreDistinct gs
      → AreDistinct (add_row k r gs)
  unfolding has_group add_row
  AreDistinct-add_row k r [] h = (refl, tt)
  AreDistinct-add_row k r ((j, rs) ∷ gs) (h, hs) = elim (Bool-cases (same j k)) [
    | inl e ↦ rw e (h, hs)
    | inr e ↦ rw e (has_group-add_row k j r gs (same_false j k e) h, AreDistinct-add_row k r gs hs)
  ]

  AreDistinct-group_by : (key : R → Option Bytes) (rows : List R) → AreDistinct (group_by key rows)
  unfolding group_by
  AreDistinct-group_by key [] = tt
  AreDistinct-group_by key (r ∷ rows) =
      AreDistinct-add_row (key r) r (group_by key rows) (AreDistinct-group_by key rows)

  rows_of-none :
      (k : Option Bytes) (gs : List (Option Bytes × List R))
      → has_group k gs ≡ false
      → rows_of k gs ≡ []
  unfolding rows_of has_group
  rows_of-none k [] h = refl
  rows_of-none k ((j, rs) ∷ gs) h = elim (Bool-cases (same j k)) [
    | inl e ↦ absurd (true≢false (rw e at h))
    | inr e ↦ rw (e, rows_of) (rows_of-none k gs (rw e at h))
  ]

  AllGroups-map :
      (P Q : Option Bytes → List R → Type ℓ) (gs : List (Option Bytes × List R))
      → ((k : Option Bytes) (rs : List R) → P k rs → Q k rs)
      → AllGroups P gs
      → AllGroups Q gs
  AllGroups-map P Q [] h a = tt
  AllGroups-map P Q (g ∷ gs) h (p, a) = (h g.0 g.1 p, AllGroups-map P Q gs h a)

  AllGroups-other :
      (j : Option Bytes) (rs : List R) (whole gs : List (Option Bytes × List R))
      → has_group j gs ≡ false
      → AllGroups (λ k xs. rows_of k whole ≡ xs) gs
      → AllGroups (λ k xs. rows_of k ((j, rs) ∷ whole) ≡ xs) gs
  unfolding rows_of has_group
  AllGroups-other j rs whole [] h a = tt
  AllGroups-other j rs whole ((i, xs) ∷ gs) h (p, a) = elim (Bool-cases (same i j)) [
    | inl e ↦ absurd (true≢false (rw e at h))
    | inr e ↦ (rw (same_false i j e, rows_of) p, AllGroups-other j rs whole gs (rw e at h) a)
  ]

  AllGroups-rows_of :
      (gs : List (Option Bytes × List R))
      → AreDistinct gs
      → AllGroups (λ k xs. rows_of k gs ≡ xs) gs
  unfolding rows_of
  AllGroups-rows_of [] d = tt
  AllGroups-rows_of ((j, rs) ∷ gs) (u, d) = (
    rw (same_refl j, rows_of) (ap (λ xs. rs ++ xs) (rows_of-none j gs u) ∙ append-nil rs),
    AllGroups-other j rs gs gs u (AllGroups-rows_of gs d),
  )

  -- the rows of a group are those with its key
  pub group_by-AllGroups :
      (key : R → Option Bytes) (rows : List R)
      → AllGroups (λ k rs. where_rows (λ r. same (key r) k) rows ≡ rs) (group_by key rows)
  group_by-AllGroups key rows =
      AllGroups-map (λ k rs. rows_of k (group_by key rows) ≡ rs) _ (group_by key rows)
        (λ k rs e. sym (rows_of-group_by key k rows) ∙ e)
        (AllGroups-rows_of (group_by key rows) (AreDistinct-group_by key rows))

  AllFull-add_row :
      (k : Option Bytes) (r : R) (gs : List (Option Bytes × List R))
      → AllGroups (λ j rs. rs ≢ []) gs
      → AllGroups (λ j rs. rs ≢ []) (add_row k r gs)
  unfolding add_row
  AllFull-add_row k r [] h = (cons≢nil, tt)
  AllFull-add_row k r ((j, rs) ∷ gs) (h, hs) = elim (Bool-cases (same j k)) [
    | inl e ↦ rw e (cons≢nil, hs)
    | inr e ↦ rw e (h, AllFull-add_row k r gs hs)
  ]

  -- no group is empty
  pub group_by-AllFull :
      (key : R → Option Bytes) (rows : List R) → AllGroups (λ j rs. rs ≢ []) (group_by key rows)
  unfolding group_by
  group_by-AllFull key [] = tt
  group_by-AllFull key (r ∷ rows) =
      AllFull-add_row (key r) r (group_by key rows) (group_by-AllFull key rows)
