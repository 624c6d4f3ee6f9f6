-- ===== src/Store/Query/Bound.antt =====
-- The placeholders of the queries of internal/store/sqlite.go.
use mathlib.Core.List.{map-append}
use langley.Prelude.{
  map, ℕ, ◌+◌, ◌≡◌, refl, ap, ◌∙◌, sym, Bool, true, false, List, [], ◌∷◌, ◌++◌, Option, none, some,
  Bytes, codes, ltb, ◌==◌, if◌then◌else◌, length, length-append, Bool-cases, inl, inr, arith,
}
use langley.Store.{FlowFilter}
use langley.Store.Query.{
  Condition, host_is, task_id_is, task_source_is, model_is, from_time, to_time, Argument, Query,
  clause, argument, extended, with_conditions, conditions, count_conditions, list_query,
  count_query, with_number, given,
}

-- the placeholders of a text
unfoldable pub placeholders : Bytes → ℕ
placeholders [] = 0
placeholders (x ∷ s) = (if x == b'?' then 1 else 0) + placeholders s

placeholders-append : (s t : Bytes) → placeholders (s ++ t) ≡ placeholders s + placeholders t
unfolding placeholders
placeholders-append [] t = omega arith
placeholders-append (x ∷ s) t = omega (arith, placeholders-append s t)

-- every placeholder has its argument
abbrev pub Filled : Query → Type 0
Filled q = placeholders q.sql ≡ length q.args

extended-Filled :
    (q : Query) (more : Bytes) (args : List Argument)
    → placeholders more ≡ length args
    → Filled q
    → Filled (extended q more args)
extended-Filled q more args h k =
    omega (arith, h, k, placeholders-append q.sql more, length-append q.args args)

clause-placeholders : (c : Condition) → placeholders (clause c) ≡ 1
unfolding placeholders
clause-placeholders (host_is x) = refl
clause-placeholders (task_id_is x) = refl
clause-placeholders (task_source_is x) = refl
clause-placeholders (model_is x) = refl
clause-placeholders (from_time x) = refl
clause-placeholders (to_time x) = refl

with_conditions-Filled :
    (q : Query) (cs : List Condition) → Filled q → Filled (with_conditions q cs)
unfolding with_conditions
with_conditions-Filled q [] h = h
with_conditions-Filled q (c ∷ cs) h =
    with_conditions-Filled (extended q (clause c) (argument c ∷ [])) cs
      (extended-Filled q (clause c) (argument c ∷ []) (clause-placeholders c) h)

with_number-Filled :
    (word : Bytes) (n : ℕ) (q : Query)
    → placeholders word ≡ 1
    → Filled q
    → Filled (with_number word n q)
with_number-Filled word n q one h = elim (Bool-cases (ltb 0 n)) [
  | inl e ↦ rw e (extended-Filled q word _ one h)
  | inr e ↦ rw e h
]

list_query-Filled : (format_time : ℕ → Bytes) (f : FlowFilter) → Filled (list_query format_time f)
unfolding list_query placeholders
list_query-Filled format_time f = with_number-Filled (codes " OFFSET ?") f.offset _ refl (
    with_number-Filled (codes " LIMIT ?") f.limit _ refl (
      extended-Filled _ (codes " ORDER BY timestamp DESC") [] refl
        (with_conditions-Filled _ (conditions format_time f) refl)))

count_query-Filled : (format_time : ℕ → Bytes) (f : FlowFilter) → Filled (count_query format_time f)
unfolding count_query placeholders
count_query-Filled format_time f = with_conditions-Filled _ (count_conditions format_time f) refl

abbrev is_set {ℓ} : {A : Type ℓ} → Option A → Bool
is_set none = false
is_set (some a) = true

-- the same fields of two filters are set
pub record SameFields (f g : FlowFilter) : Type 0 where
  pub host_eq : is_set f.host ≡ is_set g.host
  pub task_id_eq : is_set f.task_id ≡ is_set g.task_id
  pub task_source_eq : is_set f.task_source ≡ is_set g.task_source
  pub model_eq : is_set f.model ≡ is_set g.model
  pub start_time_eq : is_set f.start_time ≡ is_set g.start_time
  pub end_time_eq : is_set f.end_time ≡ is_set g.end_time
  pub limit_eq : ltb 0 f.limit ≡ ltb 0 g.limit
  pub offset_eq : ltb 0 f.offset ≡ ltb 0 g.offset

-- the texts of an optional test are the same, whatever its values
clauses-given {ℓ} :
    {A : Type ℓ} (test other : A → Condition) (o p : Option A)
    → ((a b : A) → clause (test a) ≡ clause (other b))
    → is_set o ≡ is_set p
    → map clause (given test o) ≡ map clause (given other p)
clauses-given test other none none h e = refl
clauses-given test other (some a) (some b) h e = ap (λ x. x ∷ []) (h a b)
clauses-given test other none (some b) h e = cc e
clauses-given test other (some a) none h e = cc e

append_eq {ℓ} : {A : Type ℓ} (a b x y : List A) → a ≡ b → x ≡ y → a ++ x ≡ b ++ y
append_eq a b x y e h = rw (e, h) refl

clauses-append :
    (xs bs cs ds : List Condition)
    → map clause xs ≡ map clause bs
    → map clause cs ≡ map clause ds
    → map clause (xs ++ cs) ≡ map clause (bs ++ ds)
clauses-append xs bs cs ds e h =
    map-append clause xs cs ∙ append_eq _ _ _ _ e h ∙ sym (map-append clause bs ds)

clauses-conditions :
    (format_time : ℕ → Bytes) (f g : FlowFilter)
    → SameFields f g
    → map clause (conditions format_time f) ≡ map clause (conditions format_time g)
unfolding conditions
clauses-conditions format_time f g s =
    clauses-append (given host_is f.host) (given host_is g.host) _ _
      (clauses-given host_is host_is f.host g.host (λ a b. refl) s.host_eq)
      (clauses-append (given task_id_is f.task_id) (given task_id_is g.task_id) _ _
        (clauses-given task_id_is task_id_is f.task_id g.task_id (λ a b. refl) s.task_id_eq)
        (clauses-append (given task_source_is f.task_source) (given task_source_is g.task_source) _
          _
          (clauses-given task_source_is task_source_is f.task_source g.task_source (λ a b. refl)
            s.task_source_eq)
          (clauses-append (given model_is f.model) (given model_is g.model) _ _
            (clauses-given model_is model_is f.model g.model (λ a b. refl) s.model_eq)
            (clauses-append (given (λ t. from_time (format_time t)) f.start_time)
              (given (λ t. from_time (format_time t)) g.start_time) _ _
              (clauses-given (λ t. from_time (format_time t)) (λ t. from_time (format_time t))
                f.start_time g.start_time (λ a b. refl) s.start_time_eq)
              (clauses-given (λ t. to_time (format_time t)) (λ t. to_time (format_time t))
                f.end_time g.end_time (λ a b. refl) s.end_time_eq)))))

with_conditions-sql :
    (q r : Query) (cs ds : List Condition)
    → q.sql ≡ r.sql
    → map clause cs ≡ map clause ds
    → (with_conditions q cs).sql ≡ (with_conditions r ds).sql
unfolding with_conditions
with_conditions-sql q r [] [] e h = e
with_conditions-sql q r (c ∷ cs) (d ∷ ds) e h =
    with_conditions-sql (extended q (clause c) (argument c ∷ []))
      (extended r (clause d) (argument d ∷ [])) cs ds (append_eq q.sql r.sql _ _ e (head_eq h))
      (tail_eq h)
  where
    head_eq : map clause (c ∷ cs) ≡ map clause (d ∷ ds) → clause c ≡ clause d
    head_eq k = cc k

    tail_eq : map clause (c ∷ cs) ≡ map clause (d ∷ ds) → map clause cs ≡ map clause ds
    tail_eq k = cc k
with_conditions-sql q r [] (d ∷ ds) e h = cc h
with_conditions-sql q r (c ∷ cs) [] e h = cc h

with_number-sql :
    (word : Bytes) (m n : ℕ) (q r : Query)
    → q.sql ≡ r.sql
    → ltb 0 m ≡ ltb 0 n
    → (with_number word m q).sql ≡ (with_number word n r).sql
with_number-sql word m n q r e h = elim (Bool-cases (ltb 0 n)) [
  | inl k ↦ rw (h ∙ k, k) (append_eq q.sql r.sql _ _ e refl)
  | inr k ↦ rw (h ∙ k, k) e
]

-- The text of the query of ListFlows has a placeholder for each argument, and depends only on which
-- fields of the filter are set, not on their values; so does that of CountFlows.
pub list_query_lem :
    (format_time : ℕ → Bytes) (f g : FlowFilter)
    → SameFields f g
    → (Filled (list_query format_time f) × Filled (count_query format_time f))
      × ((list_query format_time f).sql ≡ (list_query format_time g).sql)
      × ((count_query format_time f).sql ≡ (count_query format_time g).sql)
unfolding list_query count_query conditions count_conditions
list_query_lem format_time f g s =
    let clauses = clauses-conditions format_time f g s in
    (
      (list_query-Filled format_time f, count_query-Filled format_time f),
      with_number-sql (codes " OFFSET ?") f.offset g.offset _ _
          (with_number-sql (codes " LIMIT ?") f.limit g.limit _ _
            (append_eq _ _ _ _ (with_conditions-sql _ _ _ _ refl clauses) refl) s.limit_eq)
          s.offset_eq,
      with_conditions-sql _ _ _ _ refl clauses,
    )
