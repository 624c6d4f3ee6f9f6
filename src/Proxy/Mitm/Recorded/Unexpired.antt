-- ===== src/Proxy/Mitm/Recorded/Unexpired.antt =====
-- RunRetention of internal/store/sqlite.go on the flows that internal/proxy/mitm.go records.
use langley.Prelude.{◌≡◌, refl, sym, List, [], ◌∷◌, Option, none, some, Bytes}
use mathlib.Core.Path.{subst}
use langley.Store
use langley.Store.{Flow}
use langley.Store.Tables.{FlowRow, Database, Codec}
use langley.Store.Sqlite.{flow_row, updated_row, expired_ids, run_retention, keep_drops}
use langley.Store.Sqlite.Retention.{run_retention-none}
use langley.Parser.Sse.{Event}
use langley.Provider.{Provider, detect, name}
use langley.Proxy.Mitm.{new_flow, assigned}
use langley.Proxy.Mitm.Handle.{Handled}
use langley.Proxy.Mitm.Tls.{with_provider}
use langley.Proxy.Mitm.Ends.{Every}
use langley.Proxy.Mitm.Saved.{EachSave, handle_http-EachSave, handle_tls_request-EachSave}
use langley.Proxy.Mitm.Recorded.{
  EachRow, Recorded, start, http, tls, retention, perform_effects-EachRow,
}

abbrev Unending : Flow → Type 0
Unending f = f.expires_at ≡ none

abbrev Endless : FlowRow → Type 0
Endless r = r.expires_at ≡ none

-- a property of a result that there is
of_some {ℓ} : {B : Type ℓ} (P : B → Type 0) (o : Option B) (b : B) → Every P o → o ≡ some b → P b
of_some P (some a) b h e = let same : a ≡ b = cc e in rw (sym same) h
of_some P none b h e = cc e

expired_ids-none : (now : Bytes) (rs : List FlowRow) → EachRow Endless rs → expired_ids now rs ≡ []
unfolding expired_ids
expired_ids-none now [] v = refl
expired_ids-none now (r ∷ rs) (e, v) = rw (e, expired_ids-none now rs v) refl

retention-Endless :
    (now cutoff : Bytes) (db : Database)
    → EachRow Endless db.flows
    → (run_retention now cutoff db).0 ≡ record db { drop_log = keep_drops cutoff db.drop_log }
retention-Endless now cutoff db v =
    run_retention-none now cutoff db (expired_ids-none now db.flows v)

with_provider-Unending :
    (ps : List Provider) (host : Bytes) (f : Flow)
    → f.expires_at ≡ none
    → (with_provider ps host f).expires_at ≡ none
with_provider-Unending ps host f e = by_provider (detect ps host)
  where
    by_provider :
        (o : Option Provider)
        → Unending (elim o [ none ↦ f | some provider ↦ record f { provider = name provider } ])
    by_provider none = e
    by_provider (some provider) = e

module _ (c : Codec) (completed : Event → Store.Event) where
  saved-Endless : (now : Bytes) (f : Flow) → f.expires_at ≡ none → Endless (flow_row c now f)
  unfolding flow_row
  saved-Endless now f e = rw e refl

  kept-Endless : (f : Flow) (r : FlowRow) → Endless r → Endless (updated_row c f r)
  unfolding updated_row
  kept-Endless f r e = e

  Recorded-Endless : {db : Database} → Recorded c completed db → EachRow Endless db.flows
  Recorded-Endless start = tt
  Recorded-Endless (http now pkg p clock flow_id r u h before e) =
      perform_effects-EachRow c completed Unending Endless saved-Endless kept-Endless now h.effects
        _
        (of_some (λ (d : Handled). EachSave Unending d.effects) _ h
          (handle_http-EachSave Unending pkg p clock flow_id r u (unfold new_flow in refl)) e)
        (Recorded-Endless before)
  Recorded-Endless (tls now pkg p clock flow_id r host u refuses h before e) =
      perform_effects-EachRow c completed Unending Endless saved-Endless kept-Endless now h.effects
        _
        (of_some (λ (d : Handled). EachSave Unending d.effects) _ h
          (handle_tls_request-EachSave Unending pkg p clock flow_id r host u refuses (
            with_provider-Unending p.providers host
              (new_flow p flow_id clock.started clock.mono host r
                (assigned pkg p.task_assigner clock.started host r).1)
              (unfold new_flow in refl)))
          e)
        (Recorded-Endless before)
  Recorded-Endless (retention {db} now cutoff before) =
      let v = Recorded-Endless before in
      subst (λ (d : Database). EachRow Endless d.flows) (sym (retention-Endless now cutoff db v)) v

  -- After any requests that handleHTTP and handleTLSRequest have handled, with rounds of retention
  -- between them, and whatever the time is, RunRetention deletes no flow, event or tool invocation:
  -- it only shortens the drop log.
  pub Recorded-kept :
      (db : Database) (now cutoff : Bytes)
      → Recorded c completed db
      → (run_retention now cutoff db).0 ≡ record db { drop_log = keep_drops cutoff db.drop_log }
  Recorded-kept db now cutoff r = retention-Endless now cutoff db (Recorded-Endless r)
