-- ===== src/Store/Query/Paged.antt =====
-- The pages that ListFlows of internal/store/sqlite.go gives, and CountFlows.
use langley.Prelude.{
  ℕ, zero, suc, ◌+◌, ◌*◌, ◌≤◌, ◌<◌, ◌≡◌, refl, ap, sym, ◌∙◌, Bool, true, not, ◌&&◌, List, [], ◌∷◌,
  ◌++◌, map, Option, none, some, Bytes, beq, ◌>>=◌, if◌then◌else◌, lt→ltb, length, take, drop, Perm,
  length-perm, arith,
}
use mathlib.Core.Path.{subst}
use mathlib.Core.List.Perm
use native.Mathlib.Nat.{suc-mul}
use native.Mathlib.Numerals.{unary_clauses}
use langley.Store.{Flow, FlowFilter}
use langley.Store.Tables.{FlowRow, Database, Codec, text_lt}
use langley.Store.Sqlite.{scan_flow_rows}
use langley.Store.Query.{
  Condition, host_is, task_id_is, task_source_is, model_is, from_time, to_time, given, conditions,
  count_conditions, equals, meets, meets_all, matching, list_flows, count_flows,
}

module _ {ℓ κ} {A : Type ℓ} {B : Type κ} (f : A → B) where
  pub map-take : (n : ℕ) (xs : List A) → map f (take n xs) ≡ take n (map f xs)
  map-take zero xs = refl
  map-take (suc n) [] = refl
  map-take (suc n) (x ∷ xs) = ap (◌∷◌ (f x)) (map-take n xs)

  pub map-drop : (n : ℕ) (xs : List A) → map f (drop n xs) ≡ drop n (map f xs)
  map-drop zero xs = refl
  map-drop (suc n) [] = refl
  map-drop (suc n) (x ∷ xs) = map-drop n xs

  length-map : (xs : List A) → length (map f xs) ≡ length xs
  length-map [] = refl
  length-map (x ∷ xs) = ap suc (length-map xs)

module _ {ℓ} {A : Type ℓ} where
  take-all : (n : ℕ) (xs : List A) → length xs ≤ n → take n xs ≡ xs
  take-all zero [] h = refl
  take-all zero (x ∷ xs) h = absurd (omega arith)
  take-all (suc n) [] h = refl
  take-all (suc n) (x ∷ xs) h = ap (◌∷◌ x) (take-all n xs (omega arith))

  -- two pages in a row
  take-append : (n m : ℕ) (xs : List A) → take n xs ++ take m (drop n xs) ≡ take (n + m) xs
  take-append zero m xs = let e : m ≡ 0 + m = omega arith in ap (λ k. take k xs) e
  take-append (suc n) zero [] = simp unary_clauses refl
  take-append (suc n) (suc m) [] = simp unary_clauses refl
  take-append (suc n) m (x ∷ xs) =
      let e : suc (n + m) ≡ suc n + m = omega arith in
      ap (◌∷◌ x) (take-append n m xs) ∙ ap (λ k. take k (x ∷ xs)) e

  drop-drop : (n m : ℕ) (xs : List A) → drop n (drop m xs) ≡ drop (m + n) xs
  drop-drop n zero xs = let e : n ≡ 0 + n = omega arith in ap (λ k. drop k xs) e
  drop-drop zero (suc m) [] = simp unary_clauses refl
  drop-drop (suc n) (suc m) [] = simp unary_clauses refl
  drop-drop n (suc m) (x ∷ xs) =
      let e : suc (m + n) ≡ suc m + n = omega arith in
      drop-drop n m xs ∙ ap (λ k. drop k (x ∷ xs)) e

-- a field of a filter that is not set asks for nothing
abbrev pub asked {ℓ} : {A : Type ℓ} → Option A → (A → Bool) → Bool
asked none test = true
asked (some a) test = test a

-- a row has what each field of a filter asks for
unfoldable pub fits : (ℕ → Bytes) → FlowFilter → FlowRow → Bool
fits format_time filter r =
    asked filter.host (λ x. beq r.host x)
    && (asked filter.task_id (λ x. equals r.task_id x)
        && (asked filter.task_source (λ x. equals r.task_source x)
            && (asked filter.model (λ x. equals r.model x)
                && (asked filter.start_time (λ t. not (text_lt r.timestamp (format_time t)))
                    && asked filter.end_time (λ t. not (text_lt (format_time t) r.timestamp))))))

unfoldable pub fitting : (ℕ → Bytes) → FlowFilter → List FlowRow → List FlowRow
unfolding fits
fitting format_time filter [] = []
fitting format_time filter (r ∷ rs) =
    let rest = fitting format_time filter rs in if fits format_time filter r then r ∷ rest else rest

pub meets_all-append :
    (r : FlowRow) (cs ds : List Condition)
    → meets_all r (cs ++ ds) ≡ (meets_all r cs && meets_all r ds)
unfolding meets_all
meets_all-append r [] ds = refl
meets_all-append r (c ∷ cs) ds = ground (arith, meets_all-append r cs ds)

-- the test of one field, before the others
meets_all-given {ℓ} :
    {A : Type ℓ} (r : FlowRow) (test : A → Condition) (o : Option A) (cs : List Condition)
    → meets_all r (given test o ++ cs) ≡ (asked o (λ x. meets r (test x)) && meets_all r cs)
unfolding meets_all
meets_all-given r test none cs = refl
meets_all-given r test (some x) cs = refl

meets_all-last {ℓ} :
    {A : Type ℓ} (r : FlowRow) (test : A → Condition) (o : Option A)
    → meets_all r (given test o) ≡ asked o (λ x. meets r (test x))
unfolding meets_all
meets_all-last r test none = refl
meets_all-last r test (some x) = ground arith

meets_all-conditions :
    (format_time : ℕ → Bytes) (filter : FlowFilter) (r : FlowRow)
    → meets_all r (conditions format_time filter) ≡ fits format_time filter r
unfolding conditions fits
meets_all-conditions format_time filter r =
    rw
      (
        meets_all-given r host_is filter.host,
        meets_all-given r task_id_is filter.task_id,
        meets_all-given r task_source_is filter.task_source,
        meets_all-given r model_is filter.model,
        meets_all-given r (λ t. from_time (format_time t)) filter.start_time,
        meets_all-last r (λ t. to_time (format_time t)) filter.end_time,
      )
      refl

matching-fitting :
    (format_time : ℕ → Bytes) (filter : FlowFilter) (rs : List FlowRow)
    → matching (conditions format_time filter) rs ≡ fitting format_time filter rs
unfolding matching fitting
matching-fitting format_time filter [] = refl
matching-fitting format_time filter (r ∷ rs) =
    rw (meets_all-conditions format_time filter r, matching-fitting format_time filter rs) refl

-- CountFlows asks for the same as ListFlows
pub count_conditions-conditions :
    (format_time : ℕ → Bytes) (filter : FlowFilter)
    → count_conditions format_time filter ≡ conditions format_time filter
unfolding count_conditions conditions
count_conditions-conditions format_time filter = refl

module _ (c : Codec) (order : List FlowRow → List FlowRow) (filter : FlowFilter)
    (db : Database) where
  -- all the flows of a filter
  abbrev pub listed : List Flow
  listed = map (scan_flow_rows c) (order (matching (conditions c.format_time filter) db.flows))

  pub list_flows-page :
      (offset : ℕ)
      → 0 < filter.limit
      → list_flows c order (record filter { offset = offset }) db
        ≡ some (take filter.limit (drop offset listed))
  unfolding list_flows conditions
  list_flows-page offset h = rw (lt→ltb 0 filter.limit h) (
      ap some (
        map-take (scan_flow_rows c) filter.limit _
        ∙ ap (take filter.limit) (map-drop (scan_flow_rows c) offset _)))

  pub length-listed :
      ((rows : List FlowRow) → Perm (order rows) rows) → length listed ≡ count_flows c filter db
  unfolding count_flows
  length-listed perm =
      length-map (scan_flow_rows c) _
      ∙ length-perm (perm (matching (conditions c.format_time filter) db.flows))
      ∙ ap (λ cs. length (matching cs db.flows))
          (sym (count_conditions-conditions c.format_time filter))

  listed-fitting :
      ((rows : List FlowRow) → Perm (order rows) rows)
      → Perm listed (map (scan_flow_rows c) (fitting c.format_time filter db.flows))
  listed-fitting perm =
      subst (λ rows. Perm listed (map (scan_flow_rows c) rows))
        (matching-fitting c.format_time filter db.flows)
        (Perm.map (scan_flow_rows c) (perm (matching (conditions c.format_time filter) db.flows)))

  -- pages of ListFlows, one after another
  unfoldable pub pages : ℕ → ℕ → ℕ → Option (List Flow)
  unfolding list_flows
  pages limit offset zero = some []
  pages limit offset (suc n) = do
    page ← list_flows c order (record filter { limit = limit; offset = offset }) db
    rest ← pages limit (offset + limit) n
    some (page ++ rest)

module _ (c : Codec) (order : List FlowRow → List FlowRow) (filter : FlowFilter)
    (db : Database) where
  pages-take :
      (limit offset n : ℕ)
      → 0 < limit
      → pages c order filter db limit offset n
        ≡ some (take (n * limit) (drop offset (listed c order filter db)))
  unfolding pages conditions
  pages-take limit offset zero h =
      let e : 0 ≡ 0 * limit = omega arith in
      ap (λ k. some (take k (drop offset (listed c order filter db)))) e
  pages-take limit offset (suc n) h =
      let all = listed c order filter db in
      let page = list_flows-page c order (record filter { limit = limit }) db offset h in
      let joined : take limit (drop offset all) ++ take (n * limit) (drop (offset + limit) all)
          ≡ take (suc n * limit) (drop offset all) =
        ap (λ xs. take limit (drop offset all) ++ take (n * limit) xs)
          (sym (drop-drop limit offset all))
        ∙ take-append limit (n * limit) (drop offset all)
        ∙ ap (λ m. take m (drop offset all)) (omega (arith, suc-mul n limit)) in
      rw (page, pages-take limit (offset + limit) n h) (ap some joined)

  -- With an order that keeps the rows, and over tables that do not change: the pages of ListFlows with a
  -- limit, from the first row on and as many as CountFlows calls for, are together what ListFlows gives
  -- without limit and offset. These are as many flows as CountFlows counts, and each stored flow that has
  -- what every field of the filter asks for, once.
  pub list_flows-pages :
      (limit n : ℕ)
      → ((rows : List FlowRow) → Perm (order rows) rows)
      → 0 < limit
      → count_flows c filter db ≤ n * limit
      → (flows : List Flow) × ((pages c order filter db limit 0 n ≡ some flows)
          × ((list_flows c order (record filter { limit = 0; offset = 0 }) db ≡ some flows)
              × ((length flows ≡ count_flows c filter db)
                  × Perm flows (map (scan_flow_rows c) (fitting c.format_time filter db.flows)))))
  unfolding list_flows conditions
  list_flows-pages limit n perm h enough =
      let all = listed c order filter db in
      let size = length-listed c order filter db perm in
      (
        all,
        (
          pages-take limit 0 n h ∙ ap some (take-all (n * limit) all (omega (arith, size, enough))),
          (refl, (size, listed-fitting c order filter db perm)),
        ),
      )
