-- ===== src/Api/Flows/Limits.antt =====
-- How many rows internal/api/api.go asks the store for.
use langley.Prelude.{
  ℕ, ◌≤◌, ◌≡◌, refl, Bool, true, false, not, ◌&&◌, List, Option, none, some, Bytes, codes, ltb, leb,
  if◌then◌else◌, arith,
}
use langley.Go.Strings.{atoi}
use langley.Store.{Flow, FlowFilter}
use langley.Api.Flows.{limit_of, offset_of, list_flows, filter_of}

-- whatever the query says, a list asks for at least one row and at most 100
limit_of-bounded : (v : Bytes) → (1 ≤ limit_of v) × (limit_of v ≤ 100)
unfolding limit_of
limit_of-bounded v = by_number (atoi v)
  where
    by_number :
        (o : Option (Bool × ℕ))
        → (1 ≤ elim o [
          | none ↦ 50
          | some (negative, n) ↦ if not negative && ltb 0 n && leb n 100 then n else 50
        ])
          × (elim o [
            | none ↦ 50
            | some (negative, n) ↦ if not negative && ltb 0 n && leb n 100 then n else 50
          ]
              ≤ 100)
    by_number none = (omega arith, omega arith)
    by_number (some (true, n)) = (omega arith, omega arith)
    by_number (some (false, n)) = (ground arith, ground arith)

-- two stores that answer alike to the filters of a page of 1 to 100 rows
abbrev pub AgreeOnPages :
    (FlowFilter → Option (List Flow)) → (FlowFilter → Option (List Flow)) → Type 0
AgreeOnPages store other =
    (filter : FlowFilter) → 1 ≤ filter.limit → filter.limit ≤ 100 → store filter ≡ other filter

-- The list of flows depends on no answer of the store but that to a page of 1 to 100 rows, whatever
-- limit the query asks for: two stores that agree on these pages give the same list.
pub list_flows-bounded :
    (parse_time : Bytes → Option ℕ) (store other : FlowFilter → Option (List Flow))
    (query : Bytes → Bytes)
    → AgreeOnPages store other
    → list_flows parse_time store query ≡ list_flows parse_time other query
unfolding list_flows filter_of
list_flows-bounded parse_time store other query h =
    let bounds = limit_of-bounded (query (codes "limit")) in
    rw
      (
        list_flows,
        h
            (filter_of parse_time query (limit_of (query (codes "limit")))
              (offset_of (query (codes "offset"))))
            bounds.0 bounds.1,
      )
      refl
