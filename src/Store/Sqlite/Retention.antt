-- ===== src/Store/Sqlite/Retention.antt =====
-- RunRetention of internal/store/sqlite.go: where no flow has expired, and what stays of the others.
use langley.Prelude.{
  ◌≡◌, refl, ap, sym, ◌∙◌, true, false, List, [], ◌∷◌, Bytes, beq, beq_iff, beq_sound, Bool-cases,
  inl, inr, arith,
}
use mathlib.Core.Bool.{true≢false}
use mathlib.Core.List.{Memᴰ}
use langley.Store.Tables.{
  FlowRow, EventRow, ToolRow, Database, before_text, has_key, is_in, delete_keys,
}
use langley.Store.Sqlite.{expired_ids, run_retention, keep_drops}
use langley.Store.Sqlite.Keys.{Distinct}

delete_keys-none {ℓ} : {R : Type ℓ} (key : R → Bytes) (rs : List R) → delete_keys key [] rs ≡ rs
unfolding delete_keys
delete_keys-none key [] = refl
delete_keys-none key (r ∷ rs) = ap (◌∷◌ r) (delete_keys-none key rs)

pub run_retention-none :
    (now cutoff : Bytes) (db : Database)
    → expired_ids now db.flows ≡ []
    → (run_retention now cutoff db).0 ≡ record db { drop_log = keep_drops cutoff db.drop_log }
unfolding run_retention
run_retention-none now cutoff db e =
    rw
      (
        e,
        delete_keys-none FlowRow.id db.flows,
        delete_keys-none EventRow.flow_id db.events,
        delete_keys-none ToolRow.flow_id db.tool_invocations,
      )
      refl

-- a row with a key that is not deleted stays
delete_keys-Memᴰ {ℓ} :
    {R : Type ℓ} (key : R → Bytes) (ids : List Bytes) (r : R) (rows : List R)
    → is_in (key r) ids ≡ false
    → Memᴰ r rows
    → Memᴰ r (delete_keys key ids rows)
unfolding delete_keys
delete_keys-Memᴰ key ids r [] h m = elim m [ ]
delete_keys-Memᴰ key ids r (x ∷ rows) h (Memᴰ.head e) =
    let stays : is_in (key x) ids ≡ false = ap (λ y. is_in (key y) ids) (sym e) ∙ h in
    rw stays (Memᴰ.head e)
delete_keys-Memᴰ key ids r (x ∷ rows) h (Memᴰ.tail m) = elim (Bool-cases (is_in (key x) ids)) [
  | inl gone ↦ rw gone (delete_keys-Memᴰ key ids r rows h m)
  | inr stays ↦ rw stays (Memᴰ.tail (delete_keys-Memᴰ key ids r rows h m))
]

-- expired ids are ids of rows
expired_ids-has_key :
    (now k : Bytes) (rows : List FlowRow)
    → has_key FlowRow.id k rows ≡ false
    → is_in k (expired_ids now rows) ≡ false
unfolding expired_ids has_key is_in
expired_ids-has_key now k [] h = refl
expired_ids-has_key now k (x ∷ rows) h = elim (Bool-cases (before_text x.expires_at now)) [
  | inl e ↦ rw e (ground (arith, expired_ids-has_key now k rows, beq_iff x.id k, beq_iff k x.id))
  | inr e ↦ rw e (expired_ids-has_key now k rows (ground arith))
]

has_key-Memᴰ :
    (r : FlowRow) (rows : List FlowRow) → Memᴰ r rows → has_key FlowRow.id r.id rows ≡ true
unfolding has_key
has_key-Memᴰ r [] m = elim m [ ]
has_key-Memᴰ r (x ∷ rows) (Memᴰ.head e) =
    let here : beq x.id r.id ≡ true = (beq_iff x.id r.id).1 (ap FlowRow.id (sym e)) in rw here refl
has_key-Memᴰ r (x ∷ rows) (Memᴰ.tail m) = ground (arith, has_key-Memᴰ r rows m)

-- the id of a row that has not expired is not expired by another row
expired_ids-not :
    (now : Bytes) (r : FlowRow) (rows : List FlowRow)
    → Distinct FlowRow.id rows
    → Memᴰ r rows
    → before_text r.expires_at now ≡ false
    → is_in r.id (expired_ids now rows) ≡ false
unfolding expired_ids is_in
expired_ids-not now r [] d m h = elim m [ ]
expired_ids-not now r (x ∷ rows) (fresh, d) (Memᴰ.head e) h =
    let up : before_text x.expires_at now ≡ false =
      ap (λ y. before_text (FlowRow.expires_at y) now) (sym e) ∙ h in
    rw up (
      expired_ids-has_key now r.id rows
        (ap (λ y. has_key FlowRow.id (FlowRow.id y) rows) e ∙ fresh))
expired_ids-not now r (x ∷ rows) (fresh, d) (Memᴰ.tail m) h =
    let rest = expired_ids-not now r rows d m h in
    elim (Bool-cases (before_text x.expires_at now)) [
      | inl e ↦
          let other : beq r.id x.id ≡ false = elim (Bool-cases (beq r.id x.id)) [
            | inl same ↦ absurd (
                true≢false (
                  sym (has_key-Memᴰ r rows m)
                  ∙ ap (λ k. has_key FlowRow.id k rows) (beq_sound r.id x.id same)
                  ∙ fresh))
            | inr o ↦ o
          ] in
          rw (e, other) rest
      | inr e ↦ rw e rest
    ]

-- a flow is kept, with its events and its tool invocations
pub record Stays (r : FlowRow) (db after : Database) : Type 0 where
  pub flow : Memᴰ r after.flows
  pub events : (e : EventRow) → Memᴰ e db.events → e.flow_id ≡ r.id → Memᴰ e after.events
  pub tools :
      (t : ToolRow) → Memᴰ t db.tool_invocations → t.flow_id ≡ r.id → Memᴰ t after.tool_invocations

pub run_retention-Stays :
    (now cutoff : Bytes) (db : Database) (r : FlowRow)
    → Distinct FlowRow.id db.flows
    → Memᴰ r db.flows
    → before_text r.expires_at now ≡ false
    → Stays r db (run_retention now cutoff db).0
unfolding run_retention
run_retention-Stays now cutoff db r distinct stored up =
    let ids = expired_ids now db.flows in
    let kept = expired_ids-not now r db.flows distinct stored up in
    record {
      flow = delete_keys-Memᴰ FlowRow.id ids r db.flows kept stored;
      events = λ e m of_flow.
          delete_keys-Memᴰ EventRow.flow_id ids e db.events (ap (λ k. is_in k ids) of_flow ∙ kept)
            m;
      tools = λ t m of_flow.
          delete_keys-Memᴰ ToolRow.flow_id ids t db.tool_invocations
            (ap (λ k. is_in k ids) of_flow ∙ kept) m;
    }
