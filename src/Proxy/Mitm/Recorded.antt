-- ===== src/Proxy/Mitm/Recorded.antt =====
-- What the requests that internal/proxy/mitm.go handles leave in the tables of
-- internal/store/sqlite.go.
pub mod Unexpired
pub mod Provided
use mathlib.Core.Path.{subst}
use langley.Prelude.{
  ℕ, ◌≡◌, refl, ap, Bool, true, false, not, ◌||◌, List, [], ◌∷◌, ◌++◌, Option, none, some, ◌>>=◌,
  Bytes, beq, if◌then◌else◌, Bool-cases, inl, inr, arith,
}
use langley.Store
use langley.Store.{Flow, ToolInvocation}
use langley.Store.Tables.{FlowRow, ToolRow, Database, Codec, flow_checks, has_key}
use langley.Store.Sqlite
use langley.Store.Sqlite.{flow_row, updated_row, update_rows, run_retention}
use langley.Store.Sqlite.Children
use langley.Store.Sqlite.Children.{event_fits}
use langley.Store.Sqlite.Linked.{or_same}
use langley.Store.Sqlite.Calls.{
  save, update, save_one, save_tool, tool_result, perform, empty_tables,
}
use langley.Parser.Sse.{Event}
use langley.Proxy.Mitm.{
  Packages, MitmProxy, Request, Effect, save_flow, update_flow, on_flow, on_update, save_event,
  on_event, save_tool_invocation, update_tool_result,
}
use langley.Proxy.Mitm.Handle.{Upstream, Handled, Clock, handle_http}
use langley.Proxy.Mitm.Tls.{handle_tls_request}
use langley.Proxy.Mitm.Saved.{SaveIs, EachSave}

-- the rows of flows have a property
abbrev pub EachRow : (FlowRow → Type 0) → List FlowRow → Type 0
EachRow Q [] = Unit {0}
EachRow Q (r ∷ rs) = Q r × EachRow Q rs

EachRow-append :
    (Q : FlowRow → Type 0) (rs : List FlowRow) (r : FlowRow)
    → Q r
    → EachRow Q rs
    → EachRow Q (rs ++ r ∷ [])
EachRow-append Q [] r h v = (h, tt)
EachRow-append Q (x ∷ rs) r h (e, v) = (e, EachRow-append Q rs r h v)

-- an event or a tool invocation leaves the flows as they are
pub save_event-flows :
    (c : Codec) (now : Bytes) (e : Store.Event) (db : Database)
    → db.flows ≡ (or_same (Children.save_event c now e db) db).flows
unfolding Children.save_event
save_event-flows c now e db = elim (Bool-cases (event_fits e db)) [
  | inl fits ↦ rw fits refl
  | inr refused ↦ rw refused refl
]

pub save_tool_invocation-flows :
    (c : Codec) (now : Bytes) (i : ToolInvocation) (db : Database)
    → db.flows ≡ (or_same (Children.save_tool_invocation c now i db) db).flows
unfolding Children.save_tool_invocation
save_tool_invocation-flows c now i db =
    elim (Bool-cases (
      has_key ToolRow.id i.id db.tool_invocations || not (has_key FlowRow.id i.flow_id db.flows))) [
        | inl refused ↦ rw refused refl
        | inr taken ↦ rw taken refl
      ]

-- the store's part of an effect; `completed` adds the id and the times of an event
module _ (c : Codec) (completed : Event → Store.Event) where
  unfoldable pub perform_effect : Bytes → Effect → Database → Database
  unfolding perform
  perform_effect now (save_flow f) db = perform c now (save f) db
  perform_effect now (update_flow f) db = perform c now (update f) db
  perform_effect now (on_flow f) db = db
  perform_effect now (on_update f) db = db
  perform_effect now (save_event e) db = perform c now (save_one (completed e)) db
  perform_effect now (on_event e) db = db
  perform_effect now (save_tool_invocation i) db = perform c now (save_tool i) db
  perform_effect now (update_tool_result tool success error_msg content at) db =
      perform c now (tool_result tool success error_msg content at) db

  unfoldable pub perform_effects : Bytes → List Effect → Database → Database
  unfolding perform_effect
  perform_effects now [] db = db
  perform_effects now (e ∷ es) db = perform_effects now es (perform_effect now e db)

  -- the tables after requests and rounds of retention, from empty ones
  pub data Recorded : Database → Type 0 where
    start : Recorded empty_tables
    http :
        {db : Database} (now : Bytes) (pkg : Packages) (p : MitmProxy) (clock : Clock)
        (flow_id : Bytes) (r : Request) (u : Upstream) (h : Handled)
        → Recorded db
        → handle_http pkg p clock flow_id r u ≡ some h
        → Recorded (perform_effects now h.effects db)
    tls :
        {db : Database} (now : Bytes) (pkg : Packages) (p : MitmProxy) (clock : Clock)
        (flow_id : Bytes) (r : Request) (host : Bytes) (u : Upstream) (refuses : Bool) (h : Handled)
        → Recorded db
        → handle_tls_request pkg p clock flow_id r host u refuses ≡ some h
        → Recorded (perform_effects now h.effects db)
    retention :
        {db : Database} (now cutoff : Bytes)
        → Recorded db
        → Recorded (run_retention now cutoff db).0

  -- a property of what is saved that no update changes
  module _ (P : Flow → Type 0) (Q : FlowRow → Type 0)
      (saved : (now : Bytes) (f : Flow) → P f → Q (flow_row c now f))
      (kept : (f : Flow) (r : FlowRow) → Q r → Q (updated_row c f r)) where
    abbrev pub EachOf : Option (List FlowRow) → Type 0
    EachOf none = Unit {0}
    EachOf (some rs) = EachRow Q rs

    update_rows-EachRow :
        (f : Flow) (rs : List FlowRow) → EachRow Q rs → EachOf (update_rows c f rs)
    unfolding update_rows
    update_rows-EachRow f [] v = tt
    update_rows-EachRow f (r ∷ rs) (h, v) =
        by_rest (update_rows c f rs) (update_rows-EachRow f rs v)
      where
        by_rest :
            (o : Option (List FlowRow))
            → EachOf o
            → EachOf (
                o >>= λ rest.
                if not (beq r.id f.id)
                then some (r ∷ rest)
                else if flow_checks (updated_row c f r)
                then some (updated_row c f r ∷ rest)
                else none)
        by_rest none w = tt
        by_rest (some rest) w = elim (Bool-cases (beq r.id f.id)) [
          | inr other ↦ rw other (h, w)
          | inl same ↦ elim (Bool-cases (flow_checks (updated_row c f r))) [
            | inl fits ↦ rw (same, fits) (kept f r h, w)
            | inr fails ↦ rw (same, fails) tt
          ]
        ]

    save_flow-EachRow :
        (now : Bytes) (f : Flow) (db : Database)
        → P f
        → EachRow Q db.flows
        → EachRow Q (or_same (Sqlite.save_flow c now f db) db).flows
    unfolding Sqlite.save_flow
    save_flow-EachRow now f db h v =
        elim (Bool-cases
          (has_key FlowRow.id f.id db.flows || not (flow_checks (flow_row c now f)))) [
            | inl refused ↦ rw refused v
            | inr taken ↦ rw taken (EachRow-append Q db.flows (flow_row c now f) (saved now f h) v)
          ]

    update_flow-EachRow :
        (f : Flow) (db : Database)
        → EachRow Q db.flows
        → EachRow Q (or_same (Sqlite.update_flow c f db) db).flows
    unfolding Sqlite.update_flow
    update_flow-EachRow f db v =
        by_rows (update_rows c f db.flows) (update_rows-EachRow f db.flows v)
      where
        by_rows :
            (o : Option (List FlowRow))
            → EachOf o
            → EachRow Q (or_same (o >>= λ rows. some (record db { flows = rows })) db).flows
        by_rows none h = v
        by_rows (some rows) h = h

    perform_effect-EachRow :
        (now : Bytes) (e : Effect) (db : Database)
        → SaveIs P e
        → EachRow Q db.flows
        → EachRow Q (perform_effect now e db).flows
    unfolding perform_effect perform Children.update_tool_result
    perform_effect-EachRow now (save_flow f) db h v = save_flow-EachRow now f db h v
    perform_effect-EachRow now (update_flow f) db h v = update_flow-EachRow f db v
    perform_effect-EachRow now (on_flow f) db h v = v
    perform_effect-EachRow now (on_update f) db h v = v
    perform_effect-EachRow now (on_event e) db h v = v
    perform_effect-EachRow now (save_event e) db h v =
        subst (EachRow Q) (save_event-flows c now (completed e) db) v
    perform_effect-EachRow now (save_tool_invocation i) db h v =
        subst (EachRow Q) (save_tool_invocation-flows c now i db) v
    perform_effect-EachRow now (update_tool_result tool success error_msg content at) db h v = v

    pub perform_effects-EachRow :
        (now : Bytes) (es : List Effect) (db : Database)
        → EachSave P es
        → EachRow Q db.flows
        → EachRow Q (perform_effects now es db).flows
    unfolding perform_effects
    perform_effects-EachRow now [] db h v = v
    perform_effects-EachRow now (e ∷ es) db (h, hs) v =
        perform_effects-EachRow now es (perform_effect now e db) hs
          (perform_effect-EachRow now e db h v)
