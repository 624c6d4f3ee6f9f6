-- ===== src/Store/Sqlite/Stored.antt =====
-- What GetFlow of internal/store/sqlite.go gives after SaveFlow and UpdateFlow.
use langley.Prelude.{
  ◌≡◌, refl, ap, ◌∙◌, sym, true, false, List, [], ◌∷◌, ◌++◌, Option, none, some, Bytes, beq,
  beq_refl, beq_ne, ◌≢◌, if◌then◌else◌, Bool-cases, inl, inr, arith,
}
use langley.Task.{Source, explicit, metadata, inferred}
use langley.Store.{Flow}
use langley.Store.Tables.{
  FlowRow, Database, Codec, flow_checks, is_in, is_in_or_null, task_sources, integrities,
  cost_sources, providers, has_key, find_key,
}
use langley.Store.Sqlite.{
  nullable, source_name, source_of, flow_row, save_flow, updated_row, update_rows, update_flow,
  scan_flow, get_flow,
}

source_of-source_name : (s : Option Source) → source_of (nullable source_name s) ≡ s
unfolding source_of beq
source_of-source_name none = refl
source_of-source_name (some explicit) = refl
source_of-source_name (some metadata) = refl
source_of-source_name (some inferred) = refl

source_name-is_in : (s : Option Source) → is_in_or_null (nullable source_name s) task_sources ≡ true
unfolding is_in beq
source_name-is_in none = refl
source_name-is_in (some explicit) = refl
source_name-is_in (some metadata) = refl
source_name-is_in (some inferred) = refl

-- the constraints that an update may fail; an insert also fails for an unknown provider
pub record Allowed (f : Flow) : Type 0 where
  pub integrity : is_in f.flow_integrity integrities ≡ true
  pub cost_source_in : is_in_or_null f.cost_source cost_sources ≡ true

-- the formats lose nothing of the times and the headers of a flow
pub record Faithful (c : Codec) (f : Flow) : Type 0 where
  pub time : c.parse_time (c.format_time f.timestamp) ≡ f.timestamp
  pub expiry : nullable c.parse_time (nullable c.format_time f.expires_at) ≡ f.expires_at
  pub request : c.unmarshal_headers (c.marshal_headers f.request_headers) ≡ f.request_headers
  pub response : c.unmarshal_headers (c.marshal_headers f.response_headers) ≡ f.response_headers

-- a flow after an update: what UPDATE leaves out is as it was saved
abbrev pub kept_from : Flow → Flow → Flow
kept_from saved f = record f {
  host = saved.host;
  method = saved.method;
  path = saved.path;
  url = saved.url;
  timestamp = saved.timestamp;
  timestamp_mono = saved.timestamp_mono;
  request_body = saved.request_body;
  request_body_truncated = saved.request_body_truncated;
  request_signature = saved.request_signature;
  provider = saved.provider;
  expires_at = saved.expires_at;
}

find_key-append {ℓ} :
    {R : Type ℓ} (key : R → Bytes) (k : Bytes) (rs : List R) (r : R)
    → has_key key k rs ≡ false
    → key r ≡ k
    → find_key key k (rs ++ r ∷ []) ≡ some r
unfolding find_key has_key
find_key-append key k [] r h e = rw (e, beq_refl k) refl
find_key-append key k (x ∷ rs) r h e = ground (arith, find_key-append key k rs r)

find_key-append_ne {ℓ} :
    {R : Type ℓ} (key : R → Bytes) (k : Bytes) (rs : List R) (r : R)
    → key r ≢ k
    → find_key key k (rs ++ r ∷ []) ≡ find_key key k rs
unfolding find_key
find_key-append_ne key k [] r h = rw (beq_ne (key r) k h) refl
find_key-append_ne key k (x ∷ rs) r h =
    ap (λ o. if beq (key x) k then some x else o) (find_key-append_ne key k rs r h)

module _ (c : Codec) (now : Bytes) where
  pub flow_checks-flow_row :
      (f : Flow)
      → Allowed f
      → is_in f.provider providers ≡ true
      → flow_checks (flow_row c now f) ≡ true
  unfolding flow_checks flow_row
  flow_checks-flow_row f a p =
      rw (source_name-is_in f.task_source, a.integrity, a.cost_source_in, p) refl

  flow_checks-updated_row :
      (f : Flow) (r : FlowRow)
      → Allowed f
      → is_in r.provider providers ≡ true
      → flow_checks (updated_row c f r) ≡ true
  unfolding flow_checks updated_row
  flow_checks-updated_row f r a p =
      rw (source_name-is_in f.task_source, a.integrity, a.cost_source_in, p) refl

  -- an UPDATE of the last row
  update_rows-append :
      (f : Flow) (rs : List FlowRow) (r : FlowRow)
      → has_key FlowRow.id f.id rs ≡ false
      → r.id ≡ f.id
      → flow_checks (updated_row c f r) ≡ true
      → update_rows c f (rs ++ r ∷ []) ≡ some (rs ++ updated_row c f r ∷ [])
  unfolding update_rows has_key
  update_rows-append f [] r h e ok = rw (e, beq_refl f.id, ok) refl
  update_rows-append f (x ∷ rs) r h e ok = elim (Bool-cases (beq x.id f.id)) [
    | inl same ↦ let absurd_key : true ≡ false = rw same at h in cc absurd_key
    | inr other ↦
        let later : has_key FlowRow.id f.id rs ≡ false = rw other at h in
        rw (update_rows-append f rs r later e ok, other) refl
  ]

  -- the row that an INSERT and an UPDATE leave
  scan_flow-updated_row :
      (saved f : Flow)
      → Faithful c saved
      → Faithful c f
      → saved.id ≡ f.id
      → scan_flow c (updated_row c f (flow_row c now saved)) ≡ kept_from saved f
  unfolding scan_flow updated_row flow_row
  scan_flow-updated_row saved f h k e =
      rw (source_of-source_name f.task_source, h.time, h.expiry, k.request, k.response, e) refl

  scan_flow-flow_row : (f : Flow) → Faithful c f → scan_flow c (flow_row c now f) ≡ f
  unfolding scan_flow flow_row
  scan_flow-flow_row f h =
      rw (source_of-source_name f.task_source, h.time, h.expiry, h.request, h.response) refl

  pub save_flow-stored :
      (saved : Flow) (db : Database)
      → Allowed saved
      → is_in saved.provider providers ≡ true
      → has_key FlowRow.id saved.id db.flows ≡ false
      → save_flow c now saved db
        ≡ some (record db { flows = db.flows ++ flow_row c now saved ∷ [] })
  unfolding save_flow
  save_flow-stored saved db a p h = rw (h, flow_checks-flow_row saved a p) refl

  pub update_flow-stored :
      (saved f : Flow) (db : Database) (rows : List FlowRow)
      → Allowed f
      → is_in saved.provider providers ≡ true
      → saved.id ≡ f.id
      → has_key FlowRow.id saved.id rows ≡ false
      → update_flow c f (record db { flows = rows ++ flow_row c now saved ∷ [] })
        ≡ some (record db { flows = rows ++ updated_row c f (flow_row c now saved) ∷ [] })
  unfolding update_flow flow_row
  update_flow-stored saved f db rows a p e h =
      rw
        (update_rows-append f rows (flow_row c now saved)
          (ap (λ k. has_key FlowRow.id k rows) (sym e) ∙ h) e
          (flow_checks-updated_row f (flow_row c now saved) a p))
        refl

  -- A flow with a new id that meets the constraints is saved and can be read back as it was, if the
  -- formats of its times and headers lose nothing. An update of it succeeds too; then it is read back
  -- with what UpdateFlow sets, and as it was saved in its host, method, path, URL, times, request
  -- body, signature, provider and expiry. Every other flow is read as before.
  pub update_flow-get_flow :
      (saved f : Flow) (db : Database)
      → Faithful c saved
      → Faithful c f
      → Allowed saved
      → is_in saved.provider providers ≡ true
      → Allowed f
      → saved.id ≡ f.id
      → has_key FlowRow.id saved.id db.flows ≡ false
      → (first : Database) × (second : Database) × (save_flow c now saved db ≡ some first)
        × (get_flow c saved.id first ≡ some saved)
        × (update_flow c f first ≡ some second)
        × (get_flow c saved.id second ≡ some (kept_from saved f))
        × ((id : Bytes) → id ≢ saved.id → get_flow c id second ≡ get_flow c id db)
  unfolding get_flow flow_row updated_row
  update_flow-get_flow saved f db faith again a p b e h = (
    record db { flows = db.flows ++ flow_row c now saved ∷ [] },
    record db { flows = db.flows ++ updated_row c f (flow_row c now saved) ∷ [] },
    save_flow-stored saved db a p h,
    rw (find_key-append FlowRow.id saved.id db.flows (flow_row c now saved) h refl)
        (ap some (scan_flow-flow_row saved faith)),
    update_flow-stored saved f db db.flows b p e h,
    rw
        (find_key-append FlowRow.id saved.id db.flows (updated_row c f (flow_row c now saved)) h
          refl)
        (ap some (scan_flow-updated_row saved f faith again e)),
    λ id other. ap (nullable (scan_flow c)) (
        find_key-append_ne FlowRow.id id db.flows (updated_row c f (flow_row c now saved))
          (λ same. other (sym same))),
  )
