-- ===== src/Analytics/Totals/Sums.antt =====
-- What the groups of a query add up to, and what CostByModel and CostByDay of
-- internal/analytics/analytics.go add up to.
use langley.Prelude.{
  ℕ, ◌+◌, ◌≡◌, ◌≢◌, refl, ap, sym, ◌∙◌, List, [], ◌∷◌, map, Option, none, some, Bytes, length, Perm,
  arith, Bool-cases, Option-cases, ◌⊎◌, inl, inr,
}
use mathlib.Core.List.{Permᴰ, Memᴰ}
use mathlib.Core.Logic.{∥∥₁_elim}
use native.Mathlib.Nat.{ℕ_set}
use langley.Store.Tables.{FlowRow, Database, Codec}
use langley.Analytics.Totals.{
  CostByPeriod, OverallStats, or_zero, same, sum_of, add_row, group_by, flows_within, cost_of,
  model_name, scan_periods, get_cost_by_day, get_cost_by_model, get_overall_stats,
}

module _ {ℓ} {R : Type ℓ} where
  sum_of-Permᴰ : (f : R → ℕ) {xs ys : List R} → Permᴰ xs ys → sum_of f xs ≡ sum_of f ys
  unfolding sum_of
  sum_of-Permᴰ f (Permᴰ.trans p q) = sum_of-Permᴰ f p ∙ sum_of-Permᴰ f q
  sum_of-Permᴰ f (Permᴰ.swap e d) = omega (arith, ap f e, ap f d)
  sum_of-Permᴰ f (Permᴰ.cons e p) = omega (arith, ap f e, sum_of-Permᴰ f p)
  sum_of-Permᴰ f Permᴰ.nil = refl

  pub sum_of-perm : (f : R → ℕ) {xs ys : List R} → Perm xs ys → sum_of f xs ≡ sum_of f ys
  sum_of-perm f p = ∥∥₁_elim p (ℕ_set _ _) (sum_of-Permᴰ f)

  sum_of-length : (xs : List R) → sum_of (λ r. 1) xs ≡ length xs
  unfolding sum_of
  sum_of-length [] = refl
  sum_of-length (x ∷ xs) = omega (arith, sum_of-length xs)

  -- the sum over the groups of what their rows sum to
  abbrev pub group_sum : (R → ℕ) → List (Option Bytes × List R) → ℕ
  group_sum f gs = sum_of (λ g. sum_of f g.1) gs

  group_sum-add_row :
      (f : R → ℕ) (k : Option Bytes) (r : R) (gs : List (Option Bytes × List R))
      → group_sum f (add_row k r gs) ≡ f r + group_sum f gs
  unfolding sum_of add_row
  group_sum-add_row f k r [] = omega arith
  group_sum-add_row f k r ((j, rs) ∷ gs) = elim (Bool-cases (same j k)) [
    | inl e ↦ rw e (omega arith)
    | inr e ↦ rw e (omega (arith, group_sum-add_row f k r gs))
  ]

  pub group_sum-group_by :
      (f : R → ℕ) (key : R → Option Bytes) (rs : List R)
      → group_sum f (group_by key rs) ≡ sum_of f rs
  unfolding sum_of group_by
  group_sum-group_by f key [] = refl
  group_sum-group_by f key (r ∷ rs) =
      group_sum-add_row f (key r) r (group_by key rs)
      ∙ ap (λ n. f r + n) (group_sum-group_by f key rs)

-- a breakdown adds up to the overall statistics
pub record AddsUp (periods : List CostByPeriod) (stats : OverallStats) : Type 0 where
  pub flows : sum_of CostByPeriod.flow_count periods ≡ stats.total_flows
  pub cost : sum_of CostByPeriod.total_cost periods ≡ stats.total_cost
  pub tokens_in : sum_of CostByPeriod.total_tokens_in periods ≡ stats.total_tokens_in
  pub tokens_out : sum_of CostByPeriod.total_tokens_out periods ≡ stats.total_tokens_out

-- the breakdown of groups by the names of their keys
unfoldable costs_of :
    (Option Bytes → Bytes) → List (Option Bytes × List FlowRow) → List CostByPeriod
costs_of name gs = map (λ g. cost_of (name g.0) g.1) gs

module _ (name : Option Bytes → Bytes) where
  -- a column of the breakdown that is a sum over the rows of its group
  sum_of-costs_of :
      (column : CostByPeriod → ℕ) (f : FlowRow → ℕ)
      → ((period : Bytes) (rows : List FlowRow) → column (cost_of period rows) ≡ sum_of f rows)
      → (gs : List (Option Bytes × List FlowRow))
      → sum_of column (costs_of name gs) ≡ group_sum f gs
  unfolding sum_of costs_of
  sum_of-costs_of column f h [] = refl
  sum_of-costs_of column f h (g ∷ gs) =
      omega (arith, h (name g.0) g.1, sum_of-costs_of column f h gs)

  module _ (order : List CostByPeriod → List CostByPeriod) (key : FlowRow → Option Bytes)
      (perm : (periods : List CostByPeriod) → Perm (order periods) periods) where
    sum_of-ordered :
        (column : CostByPeriod → ℕ) (f : FlowRow → ℕ)
        → ((period : Bytes) (rows : List FlowRow) → column (cost_of period rows) ≡ sum_of f rows)
        → (rows : List FlowRow)
        → sum_of column (order (costs_of name (group_by key rows))) ≡ sum_of f rows
    sum_of-ordered column f h rows =
        sum_of-perm column (perm (costs_of name (group_by key rows)))
        ∙ sum_of-costs_of column f h (group_by key rows)
        ∙ group_sum-group_by f key rows

    costs_of-AddsUp :
        (c : Codec) (start end : ℕ) (db : Database)
        → AddsUp
            (order (costs_of name (group_by key (flows_within c start end db))))
            (get_overall_stats c start end db)
    unfolding get_overall_stats
    costs_of-AddsUp c start end db =
        let rows = flows_within c start end db in
        record {
          flows =
              sum_of-ordered CostByPeriod.flow_count (λ r. 1) (λ p rs. sym (sum_of-length rs)) rows
              ∙ sum_of-length rows;
          cost =
              sum_of-ordered CostByPeriod.total_cost (λ r. or_zero (FlowRow.total_cost r))
                (λ p rs. refl) rows;
          tokens_in =
              sum_of-ordered CostByPeriod.total_tokens_in (λ r. or_zero (FlowRow.input_tokens r))
                (λ p rs. refl) rows;
          tokens_out =
              sum_of-ordered CostByPeriod.total_tokens_out (λ r. or_zero (FlowRow.output_tokens r))
                (λ p rs. refl) rows;
        }

-- every row of the groups has a day
abbrev AllNamed : List (Option Bytes × List FlowRow) → Type 0
AllNamed [] = Unit {0}
AllNamed (g ∷ gs) = (g.0 ≢ none) × AllNamed gs

AllNamed-add_row :
    (k : Option Bytes) (r : FlowRow) (gs : List (Option Bytes × List FlowRow))
    → k ≢ none
    → AllNamed gs
    → AllNamed (add_row k r gs)
unfolding add_row
AllNamed-add_row k r [] h hs = (h, tt)
AllNamed-add_row k r ((j, rs) ∷ gs) h (g, hs) = elim (Bool-cases (same j k)) [
  | inl e ↦ rw e (g, hs)
  | inr e ↦ rw e (g, AllNamed-add_row k r gs h hs)
]

-- a group is of rows that have no day
abbrev HasNone : List (Option Bytes × List FlowRow) → Type 0
HasNone [] = ⊥
HasNone (g ∷ gs) = (g.0 ≡ none) ⊎ HasNone gs

HasNone-add_none :
    (r : FlowRow) (gs : List (Option Bytes × List FlowRow)) → HasNone (add_row none r gs)
unfolding add_row
HasNone-add_none r [] = inl refl
HasNone-add_none r ((none, rs) ∷ gs) = inl refl
HasNone-add_none r ((some x, rs) ∷ gs) = inr (HasNone-add_none r gs)

HasNone-add_row :
    (k : Option Bytes) (r : FlowRow) (gs : List (Option Bytes × List FlowRow))
    → HasNone gs
    → HasNone (add_row k r gs)
unfolding add_row
HasNone-add_row k r [] h = elim h [ ]
HasNone-add_row k r ((j, rs) ∷ gs) h = elim (Bool-cases (same j k)) [
  | inl e ↦ rw e h
  | inr e ↦ rw e (elim h [ inl none_here ↦ inl none_here | inr g ↦ inr (HasNone-add_row k r gs g) ])
]

-- a row whose key is NULL
abbrev pub IsUnread : (FlowRow → Option Bytes) → List FlowRow → Type 0
IsUnread key rs = (r : FlowRow) × (Memᴰ r rs × (key r ≡ none))

group_by-cases :
    (key : FlowRow → Option Bytes) (rs : List FlowRow)
    → AllNamed (group_by key rs) ⊎ (IsUnread key rs × HasNone (group_by key rs))
unfolding group_by
group_by-cases key [] = inl tt
group_by-cases key (r ∷ rs) = elim (Option-cases (key r)) [
  | inl e ↦ inr ((r, (Memᴰ.head refl, e)), rw e (HasNone-add_none r (group_by key rs)))
  | inr (p, e) ↦ elim (group_by-cases key rs) [
    | inl named ↦ inl (AllNamed-add_row (key r) r (group_by key rs) (λ n. cc (e, n)) named)
    | inr (unread, has) ↦ inr (
      (unread.0, (Memᴰ.tail unread.1.0, unread.1.1)),
      HasNone-add_row (key r) r (group_by key rs) has,
    )
  ]
]

scan_periods-HasNone :
    (gs : List (Option Bytes × List FlowRow)) → HasNone gs → scan_periods gs ≡ none
unfolding scan_periods
scan_periods-HasNone [] h = elim h [ ]
scan_periods-HasNone ((none, rs) ∷ gs) h = refl
scan_periods-HasNone ((some p, rs) ∷ gs) (inl e) = cc e
scan_periods-HasNone ((some p, rs) ∷ gs) (inr h) = rw (scan_periods-HasNone gs h) refl

scan_periods-AllNamed :
    (gs : List (Option Bytes × List FlowRow))
    → AllNamed gs
    → scan_periods gs ≡ some (costs_of model_name gs)
unfolding scan_periods costs_of
scan_periods-AllNamed [] h = refl
scan_periods-AllNamed ((some p, rs) ∷ gs) (g, h) = rw (scan_periods-AllNamed gs h) refl
scan_periods-AllNamed ((none, rs) ∷ gs) (g, h) = absurd (g refl)

-- If the result is only put in an order: the models of GetCostByModel add up to what GetOverallStats
-- gives for the same time, in flows, cost, and tokens in both directions, so that no flow is lost or
-- counted twice, not even one without a model. And either GetCostByDay fails, and a flow of that time has
-- a timestamp that date() does not read, or its days add up to the same.
pub costs-AddsUp :
    (c : Codec) (date : Bytes → Option Bytes) (order : List CostByPeriod → List CostByPeriod)
    → ((periods : List CostByPeriod) → Perm (order periods) periods)
    → (start end : ℕ) (db : Database)
    → AddsUp (get_cost_by_model c order start end db) (get_overall_stats c start end db)
      × (((get_cost_by_day c date order start end db ≡ none)
            × IsUnread (λ r. date (FlowRow.timestamp r)) (flows_within c start end db))
          ⊎ ((days : List CostByPeriod) × ((get_cost_by_day c date order start end db ≡ some days)
                × AddsUp days (get_overall_stats c start end db))))
unfolding get_cost_by_day get_cost_by_model costs_of
costs-AddsUp c date order perm start end db =
    let rows = flows_within c start end db in
    let day : FlowRow → Option Bytes = λ r. date (FlowRow.timestamp r) in
    (
      costs_of-AddsUp model_name order FlowRow.model perm c start end db,
      elim (group_by-cases day rows) [
        | inr (unread, has) ↦ inl (rw (scan_periods-HasNone (group_by day rows) has) refl, unread)
        | inl named ↦ inr (
          order (costs_of model_name (group_by day rows)),
          (
            rw (scan_periods-AllNamed (group_by day rows) named) refl,
            costs_of-AddsUp model_name order day perm c start end db,
          ),
        )
      ],
    )
