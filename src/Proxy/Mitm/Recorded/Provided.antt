-- ===== src/Proxy/Mitm/Recorded/Provided.antt =====
-- The row that handleHTTP of internal/proxy/mitm.go leaves of its request.
use mathlib.Core.Path.{subst}
use langley.Prelude.{
  ℕ, ◌≡◌, refl, ap, ◌∙◌, true, false, not, ◌||◌, List, [], ◌∷◌, ◌++◌, Option, none, some, ◌>>=◌,
  Bytes, codes, beq, beq_refl, Bool-cases, inl, inr, arith,
}
use langley.Store
use langley.Store.{Flow}
use langley.Store.Tables.{FlowRow, Database, Codec, has_key, find_key, flow_checks, is_in}
use langley.Store.Sqlite
use langley.Store.Sqlite.{flow_row, updated_row, update_rows, scan_flow, get_flow, nullable}
use langley.Store.Sqlite.Children
use langley.Store.Sqlite.Stored.{save_flow-stored}
use langley.Store.Sqlite.Keys.{has_key-append, has_key-map}
use langley.Store.Sqlite.Linked.{or_same, Updated, update_rows-Updated}
use langley.Store.Sqlite.Calls.{perform}
use langley.Parser.Sse.{Event}
use langley.Task.{Assignment}
use langley.Proxy.Mitm.{
  new_flow, MitmProxy, Packages, Request, Effect, save_flow, update_flow, on_flow, on_update,
  save_event, on_event, save_tool_invocation, update_tool_result,
}
use langley.Proxy.Mitm.Handle.{
  Handled, Clock, handle_http, answer_http, Upstream, no_request, no_response, answers,
  before_effects, finish_http,
}
use langley.Proxy.Mitm.Refused.{before_effects-first, before_later}
use langley.Proxy.Mitm.Ends.{Every, >>=-Every}
use langley.Proxy.Mitm.Saved.{EachSave, handle_http-EachSave, http_flow}
use langley.Proxy.Mitm.Recorded.{
  EachRow, perform_effect, perform_effects, perform_effects-EachRow, save_event-flows,
  save_tool_invocation-flows,
}

-- a row of an id belongs to no provider, and does not expire
abbrev Plain : Bytes → FlowRow → Type 0
Plain id r = beq r.id id ≡ true → (r.provider ≡ codes "other") × (r.expires_at ≡ none)

abbrev PlainFlow : Flow → Type 0
PlainFlow f = (f.provider ≡ codes "other") × (f.expires_at ≡ none)

Plain-absent :
    (id : Bytes) (rs : List FlowRow) → has_key FlowRow.id id rs ≡ false → EachRow (Plain id) rs
unfolding has_key
Plain-absent id [] h = tt
Plain-absent id (r ∷ rs) h = (λ e. absurd (ground (arith, e)), Plain-absent id rs (ground arith))

-- the row of an id that there is
find_key-Plain :
    (id : Bytes) (rs : List FlowRow)
    → has_key FlowRow.id id rs ≡ true
    → EachRow (Plain id) rs
    → (r : FlowRow) × ((find_key FlowRow.id id rs ≡ some r)
        × ((r.provider ≡ codes "other") × (r.expires_at ≡ none)))
unfolding has_key find_key
find_key-Plain id [] h v = cc h
find_key-Plain id (r ∷ rs) h (p, v) = elim (Bool-cases (beq r.id id)) [
  | inl e ↦ (r, (rw e refl, p e))
  | inr e ↦ let (s, found) = find_key-Plain id rs (ground arith) v in (s, (rw e found.0, found.1))
]

-- the effects of a request begin with its flow
abbrev StartsWith : Flow → List Effect → Type 0
StartsWith f es = (later : List Effect) × (es ≡ save_flow f ∷ later)

StartsWith-append : (f : Flow) (es ds : List Effect) → StartsWith f es → StartsWith f (es ++ ds)
StartsWith-append f es ds (later, e) = (later ++ ds, ap (λ l. l ++ ds) e)

before_effects-StartsWith :
    (pkg : Packages) (p : MitmProxy) (clock : Clock) (r : Request) (flow : Flow)
    → p.has_store ≡ true
    → StartsWith flow (before_effects pkg p clock r flow)
before_effects-StartsWith pkg p clock r flow e =
    (before_later pkg p clock r flow, before_effects-first pkg p clock r flow e)

handle_http-StartsWith :
    (pkg : Packages) (p : MitmProxy) (clock : Clock) (flow_id : Bytes) (r : Request) (u : Upstream)
    → p.has_store ≡ true
    → Every
        (λ (h : Handled). StartsWith (http_flow pkg p clock flow_id r) h.effects)
        (handle_http pkg p clock flow_id r u)
unfolding handle_http answer_http
handle_http-StartsWith pkg p clock flow_id r no_request e =
    before_effects-StartsWith pkg p clock r (http_flow pkg p clock flow_id r) e
handle_http-StartsWith pkg p clock flow_id r no_response e =
    StartsWith-append _ _ _
      (before_effects-StartsWith pkg p clock r (http_flow pkg p clock flow_id r) e)
handle_http-StartsWith pkg p clock flow_id r (answers resp) e =
    >>=-Every (λ (h : Handled). StartsWith (http_flow pkg p clock flow_id r) h.effects)
      (finish_http pkg p clock r (http_flow pkg p clock flow_id r) resp) _
      (λ s.
        StartsWith-append _ _ _
          (before_effects-StartsWith pkg p clock r (http_flow pkg p clock flow_id r) e))

Every-both {ℓ} :
    {B : Type ℓ} (P Q R : B → Type 0) (o : Option B)
    → Every P o
    → Every Q o
    → ((b : B) → P b → Q b → R b)
    → Every R o
Every-both P Q R none h k f = tt
Every-both P Q R (some b) h k f = f b h k

module _ (c : Codec) (completed : Event → Store.Event) (now : Bytes) where
  -- no effect removes a flow
  module _ (id : Bytes) where
    save_flow-has_key :
        (f : Flow) (db : Database)
        → has_key FlowRow.id id db.flows ≡ true
        → has_key FlowRow.id id (or_same (Sqlite.save_flow c now f db) db).flows ≡ true
    unfolding Sqlite.save_flow
    save_flow-has_key f db h =
        elim (Bool-cases
          (has_key FlowRow.id f.id db.flows || not (flow_checks (flow_row c now f)))) [
            | inl refused ↦ rw refused h
            | inr taken ↦
                rw taken (has_key-append FlowRow.id id db.flows (flow_row c now f) ∙ ground arith)
          ]

    update_flow-has_key :
        (f : Flow) (db : Database)
        → has_key FlowRow.id id db.flows ≡ true
        → has_key FlowRow.id id (or_same (Sqlite.update_flow c f db) db).flows ≡ true
    unfolding Sqlite.update_flow
    update_flow-has_key f db h =
        by_rows (update_rows c f db.flows) (update_rows-Updated c f db.flows)
      where
        by_rows :
            (o : Option (List FlowRow))
            → Updated c db.flows o
            → has_key FlowRow.id id
                (or_same (o >>= λ rows. some (record db { flows = rows })) db).flows
              ≡ true
        by_rows none e = h
        by_rows (some rows) e = has_key-map FlowRow.id id rows db.flows e.0 ∙ h

    perform_effect-has_key :
        (e : Effect) (db : Database)
        → has_key FlowRow.id id db.flows ≡ true
        → has_key FlowRow.id id (perform_effect c completed now e db).flows ≡ true
    unfolding perform_effect perform Children.update_tool_result
    perform_effect-has_key (save_flow f) db h = save_flow-has_key f db h
    perform_effect-has_key (update_flow f) db h = update_flow-has_key f db h
    perform_effect-has_key (on_flow f) db h = h
    perform_effect-has_key (on_update f) db h = h
    perform_effect-has_key (on_event e) db h = h
    perform_effect-has_key (save_event e) db h =
        subst (λ rs. has_key FlowRow.id id rs ≡ true) (save_event-flows c now (completed e) db) h
    perform_effect-has_key (save_tool_invocation i) db h =
        subst (λ rs. has_key FlowRow.id id rs ≡ true) (save_tool_invocation-flows c now i db) h
    perform_effect-has_key (update_tool_result tool success error_msg content at) db h = h

    perform_effects-has_key :
        (es : List Effect) (db : Database)
        → has_key FlowRow.id id db.flows ≡ true
        → has_key FlowRow.id id (perform_effects c completed now es db).flows ≡ true
    unfolding perform_effects
    perform_effects-has_key [] db h = h
    perform_effects-has_key (e ∷ es) db h =
        perform_effects-has_key es (perform_effect c completed now e db)
          (perform_effect-has_key e db h)

  saved-Plain : (id at : Bytes) (f : Flow) → PlainFlow f → Plain id (flow_row c at f)
  unfolding flow_row
  saved-Plain id at f (p, e) same = (p, rw e refl)

  kept-Plain : (id : Bytes) (f : Flow) (r : FlowRow) → Plain id r → Plain id (updated_row c f r)
  unfolding updated_row
  kept-Plain id f r h = h

  -- the insert of a new flow succeeds
  new_flow-saved :
      (p : MitmProxy) (id : Bytes) (t mono : ℕ) (host : Bytes) (r : Request) (a : Option Assignment)
      (db : Database)
      → has_key FlowRow.id id db.flows ≡ false
      → Sqlite.save_flow c now (new_flow p id t mono host r a) db
        ≡ some
            (record db { flows = db.flows ++ flow_row c now (new_flow p id t mono host r a) ∷ [] })
  unfolding new_flow is_in beq
  new_flow-saved p id t mono host r a db h =
      save_flow-stored c now _ db (record { integrity = refl; cost_source_in = refl }) refl h

  new_flow-has_key :
      (p : MitmProxy) (id : Bytes) (t mono : ℕ) (host : Bytes) (r : Request) (a : Option Assignment)
      (db : Database)
      → has_key FlowRow.id id db.flows ≡ false
      → has_key FlowRow.id id
          (perform_effect c completed now (save_flow (new_flow p id t mono host r a)) db).flows
        ≡ true
  unfolding perform_effect perform
  new_flow-has_key p id t mono host r a db h = rw (new_flow-saved p id t mono host r a db h) (
      has_key-append FlowRow.id id db.flows (flow_row c now (new_flow p id t mono host r a))
      ∙ unfold new_flow flow_row in rw (beq_refl id) (ground arith))

  recorded-Plain :
      (pkg : Packages) (p : MitmProxy) (clock : Clock) (flow_id : Bytes) (r : Request)
      (db : Database) (es : List Effect)
      → has_key FlowRow.id flow_id db.flows ≡ false
      → EachSave PlainFlow es
      → StartsWith (http_flow pkg p clock flow_id r) es
      → (f : Flow) × ((get_flow c flow_id (perform_effects c completed now es db) ≡ some f)
          × ((f.provider ≡ codes "other") × (f.expires_at ≡ none)))
  unfolding get_flow scan_flow
  recorded-Plain pkg p clock flow_id r db es h saves (later, e) =
      let there : has_key FlowRow.id flow_id (perform_effects c completed now es db).flows ≡ true =
        rw e (
          unfold perform_effects in
          perform_effects-has_key flow_id later _
            (new_flow-has_key p flow_id clock.started clock.mono r.host r _ db h)) in
      let (row, (found, (p, x))) = find_key-Plain flow_id _ there (
        perform_effects-EachRow c completed PlainFlow (Plain flow_id) (saved-Plain flow_id)
          (kept-Plain flow_id) now es db saves (Plain-absent flow_id db.flows h)) in
      (scan_flow c row, (rw found refl, (p, rw x refl)))

  -- With a store that does not know the flow's id yet: after handleHTTP, unless it panics, GetFlow
  -- finds the flow of the request, its provider is "other" and it has no expiry, whatever the
  -- provider of the host is and whatever upstream does.
  pub handle_http-Unattributed :
      (pkg : Packages) (p : MitmProxy) (clock : Clock) (flow_id : Bytes) (r : Request)
      (u : Upstream) (db : Database)
      → p.has_store ≡ true
      → has_key FlowRow.id flow_id db.flows ≡ false
      → Every
          (λ (d : Handled).
            (f : Flow) × ((get_flow c flow_id (perform_effects c completed now d.effects db)
                ≡ some f)
              × ((f.provider ≡ codes "other") × (f.expires_at ≡ none))))
          (handle_http pkg p clock flow_id r u)
  handle_http-Unattributed pkg p clock flow_id r u db e h =
      Every-both _ _ _ (handle_http pkg p clock flow_id r u)
        (handle_http-EachSave PlainFlow pkg p clock flow_id r u (unfold new_flow in (refl, refl)))
        (handle_http-StartsWith pkg p clock flow_id r u e)
        (λ d saves starts. recorded-Plain pkg p clock flow_id r db d.effects h saves starts)
