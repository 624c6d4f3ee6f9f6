-- ===== src/Store/Sqlite/Linked.antt =====
-- What the operations of internal/store/sqlite.go keep of the tables.
use langley.Prelude.{
  ◌≡◌, refl, ap, ◌∙◌, true, not, ◌||◌, List, [], ◌∷◌, ◌++◌, map, Option, none, some, ◌>>=◌, Bytes,
  beq, if◌then◌else◌, Bool-cases, inl, inr, arith,
}
use langley.Store.{Flow}
use langley.Store.Tables.{
  FlowRow, EventRow, ToolRow, Database, Codec, flow_checks, has_key, delete_keys, is_in,
}
use langley.Store.Sqlite.{
  flow_row, save_flow, updated_row, update_rows, update_flow, cascade, delete_flow,
}
use langley.Store.Sqlite.Keys.{
  Distinct, has_key-append, Distinct-append, Distinct-delete_keys, has_key-map, Distinct-map,
  RefersTo, RefersTo-mono, RefersTo-delete_keys,
}

abbrev pub Checked : List FlowRow → Type 0
Checked [] = Unit {0}
Checked (r ∷ rs) = (flow_checks r ≡ true) × Checked rs

-- the keys are distinct, every flow meets its constraints, and every event and tool invocation has
-- its flow
pub record IsLinked (db : Database) : Type 0 where
  pub flow_ids : Distinct FlowRow.id db.flows
  pub checked : Checked db.flows
  pub event_ids : Distinct EventRow.id db.events
  pub tool_ids : Distinct ToolRow.id db.tool_invocations
  pub events_of : RefersTo EventRow.flow_id db.flows db.events
  pub tools_of : RefersTo ToolRow.flow_id db.flows db.tool_invocations

abbrev pub or_same : Option Database → Database → Database
or_same none db = db
or_same (some new) db = new

Checked-append :
    (rs : List FlowRow) (r : FlowRow) → flow_checks r ≡ true → Checked rs → Checked (rs ++ r ∷ [])
Checked-append [] r h v = (h, tt)
Checked-append (x ∷ rs) r h (e, v) = (e, Checked-append rs r h v)

Checked-delete_keys :
    (ks : List Bytes) (rs : List FlowRow) → Checked rs → Checked (delete_keys FlowRow.id ks rs)
unfolding delete_keys
Checked-delete_keys ks [] v = tt
Checked-delete_keys ks (r ∷ rs) (e, v) = elim (Bool-cases (is_in r.id ks)) [
  | inl gone ↦ rw gone (Checked-delete_keys ks rs v)
  | inr stays ↦ rw stays (e, Checked-delete_keys ks rs v)
]

pub cascade-IsLinked : (ids : List Bytes) (db : Database) → IsLinked db → IsLinked (cascade ids db)
cascade-IsLinked ids db v = record {
  flow_ids = Distinct-delete_keys FlowRow.id FlowRow.id ids db.flows v.flow_ids;
  checked = Checked-delete_keys ids db.flows v.checked;
  event_ids = Distinct-delete_keys EventRow.id EventRow.flow_id ids db.events v.event_ids;
  tool_ids = Distinct-delete_keys ToolRow.id ToolRow.flow_id ids db.tool_invocations v.tool_ids;
  events_of = RefersTo-delete_keys EventRow.flow_id ids db.flows db.events v.events_of;
  tools_of = RefersTo-delete_keys ToolRow.flow_id ids db.flows db.tool_invocations v.tools_of;
}

pub delete_flow-IsLinked : (id : Bytes) (db : Database) → IsLinked db → IsLinked (delete_flow id db)
unfolding delete_flow
delete_flow-IsLinked id db v = elim (Bool-cases (has_key FlowRow.id id db.flows)) [
  | inl e ↦ rw e (cascade-IsLinked (id ∷ []) db v)
  | inr e ↦ rw e v
]

module _ (c : Codec) where
  pub save_flow-IsLinked :
      (now : Bytes) (f : Flow) (db : Database)
      → IsLinked db
      → IsLinked (or_same (save_flow c now f db) db)
  unfolding save_flow flow_row
  save_flow-IsLinked now f db v =
      elim (Bool-cases (has_key FlowRow.id f.id db.flows || not (flow_checks (flow_row c now f)))) [
        | inl refused ↦ rw refused v
        | inr taken ↦
            let more : (k : Bytes)
                → has_key FlowRow.id k db.flows ≡ true
                → has_key FlowRow.id k (db.flows ++ flow_row c now f ∷ []) ≡ true =
              λ k h. has_key-append FlowRow.id k db.flows (flow_row c now f) ∙ ground arith in
            rw taken (record {
              flow_ids = Distinct-append FlowRow.id db.flows _ (ground arith) v.flow_ids;
              checked = Checked-append db.flows _ (ground arith) v.checked;
              event_ids = v.event_ids;
              tool_ids = v.tool_ids;
              events_of = RefersTo-mono EventRow.flow_id db.flows _ db.events more v.events_of;
              tools_of =
                  RefersTo-mono ToolRow.flow_id db.flows _ db.tool_invocations more v.tools_of;
            })
      ]

  -- what an UPDATE that succeeds leaves
  abbrev pub Updated : List FlowRow → Option (List FlowRow) → Type 0
  Updated rs none = Unit {0}
  Updated rs (some ss) = (map FlowRow.id ss ≡ map FlowRow.id rs) × (Checked rs → Checked ss)

  pub update_rows-Updated : (f : Flow) (rs : List FlowRow) → Updated rs (update_rows c f rs)
  unfolding update_rows updated_row
  update_rows-Updated f [] = (refl, λ v. v)
  update_rows-Updated f (r ∷ rs) = by_rest (update_rows c f rs) (update_rows-Updated f rs)
    where
      by_rest :
          (o : Option (List FlowRow))
          → Updated rs o
          → Updated (r ∷ rs) (
              o >>= λ rest.
              if not (beq r.id f.id)
              then some (r ∷ rest)
              else if flow_checks (updated_row c f r)
              then some (updated_row c f r ∷ rest)
              else none)
      by_rest none h = tt
      by_rest (some rest) (e, k) = elim (Bool-cases (beq r.id f.id)) [
        | inr other ↦ rw other (ap (◌∷◌ r.id) e, λ v. (v.0, k v.1))
        | inl same ↦ elim (Bool-cases (flow_checks (updated_row c f r))) [
          | inl fits ↦ rw (same, fits) (ap (◌∷◌ r.id) e, λ v. (fits, k v.1))
          | inr fails ↦ rw (same, fails) tt
        ]
      ]

  pub update_flow-IsLinked :
      (f : Flow) (db : Database) → IsLinked db → IsLinked (or_same (update_flow c f db) db)
  unfolding update_flow
  update_flow-IsLinked f db v = by_rows (update_rows c f db.flows) (update_rows-Updated f db.flows)
    where
      by_rows :
          (o : Option (List FlowRow))
          → Updated db.flows o
          → IsLinked (or_same (o >>= λ rows. some (record db { flows = rows })) db)
      by_rows none h = v
      by_rows (some rows) (e, k) =
          let same : (k : Bytes)
              → has_key FlowRow.id k db.flows ≡ true
              → has_key FlowRow.id k rows ≡ true =
            λ k h. has_key-map FlowRow.id k rows db.flows e ∙ h in
          record {
            flow_ids = Distinct-map FlowRow.id rows db.flows e v.flow_ids;
            checked = k v.checked;
            event_ids = v.event_ids;
            tool_ids = v.tool_ids;
            events_of = RefersTo-mono EventRow.flow_id db.flows rows db.events same v.events_of;
            tools_of =
                RefersTo-mono ToolRow.flow_id db.flows rows db.tool_invocations same v.tools_of;
          }
