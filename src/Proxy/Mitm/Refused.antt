-- ===== src/Proxy/Mitm/Refused.antt =====
-- handleTLSRequest of internal/proxy/mitm.go, when the client refuses the header of the response.
use langley.Prelude.{
  ◌≡◌, refl, Bool, true, List, [], ◌∷◌, ◌++◌, Option, none, some, Bytes, codes, if◌then◌else◌, ◌∙◌,
  false,
}
use mathlib.Core.List.{append-nil}
use langley.Store.{Flow}
use langley.Provider.{Provider, detect, name}
use langley.Proxy.Mitm.{
  Packages, MitmProxy, Request, Effect, save_flow, on_flow, new_flow, assigned,
  correlate_tool_results,
}
use langley.Proxy.Mitm.Handle.{Response, answers, Handled, Clock, before_effects}
use langley.Proxy.Mitm.Tls.{finish_tls, handle_tls_request, with_provider}
use langley.Proxy.Mitm.Kept.{updates, updates-skip, updates-before_effects}
use langley.Proxy.Mitm.Ends.{Every, AgreesWith}

-- the flow is saved first, as complete and without a status, and is not updated
abbrev pub LeftComplete : Bytes → List Effect → Type 0
LeftComplete flow_id es =
    (f : Flow) × ((later : List Effect) × ((es ≡ save_flow f ∷ later)
        × ((updates es ≡ [])
            × ((f.id ≡ flow_id)
                × ((f.flow_integrity ≡ codes "complete") × (f.status_code ≡ none))))))

-- what is done after the flow is saved and before the request is forwarded
abbrev pub before_later : Packages → MitmProxy → Clock → Request → Flow → List Effect
before_later pkg p clock r flow =
    correlate_tool_results pkg p clock.correlated r.body ++ on_flow flow ∷ []

pub before_effects-first :
    (pkg : Packages) (p : MitmProxy) (clock : Clock) (r : Request) (flow : Flow)
    → p.has_store ≡ true
    → before_effects pkg p clock r flow ≡ save_flow flow ∷ before_later pkg p clock r flow
unfolding before_effects
before_effects-first pkg p clock r flow e = by_store p.has_store e
  where
    by_store :
        (b : Bool)
        → b ≡ true
        → (if b then save_flow flow ∷ [] else []) ++ before_later pkg p clock r flow
          ≡ save_flow flow ∷ before_later pkg p clock r flow
    by_store true e = refl
    by_store false e = cc e

before_effects-LeftComplete :
    (pkg : Packages) (p : MitmProxy) (clock : Clock) (r : Request) (flow : Flow) (flow_id : Bytes)
    → p.has_store ≡ true
    → flow.id ≡ flow_id
    → flow.flow_integrity ≡ codes "complete"
    → flow.status_code ≡ none
    → LeftComplete flow_id (before_effects pkg p clock r flow ++ [])
before_effects-LeftComplete pkg p clock r flow flow_id e d i s = (
  flow,
  (
    before_later pkg p clock r flow,
    (
      append-nil (before_effects pkg p clock r flow) ∙ before_effects-first pkg p clock r flow e,
      (
        updates-skip (before_effects pkg p clock r flow) []
              (updates-before_effects pkg p clock r flow)
            ∙ nothing,
        (d, (i, s)),
      ),
    ),
  ),
)
  where
    nothing : updates [] ≡ []
    nothing = unfold updates in refl

with_provider-AgreesWith :
    (ps : List Provider) (host : Bytes) (flow : Flow) → AgreesWith flow (with_provider ps host flow)
with_provider-AgreesWith ps host flow = by_provider (detect ps host)
  where
    by_provider :
        (o : Option Provider)
        → AgreesWith flow
            (elim o [ none ↦ flow | some provider ↦ record flow { provider = name provider } ])
    by_provider none = (refl, (refl, refl))
    by_provider (some provider) = (refl, (refl, refl))

-- With a store, if upstream answers and the client refuses the header of the response, then
-- handleTLSRequest has saved the flow as "complete" and without a status, and does not update it.
pub handle_tls_request-LeftComplete :
    (pkg : Packages) (p : MitmProxy) (clock : Clock) (flow_id : Bytes) (r : Request) (host : Bytes)
    (resp : Response)
    → p.has_store ≡ true
    → Every
        (λ (h : Handled). LeftComplete flow_id h.effects)
        (handle_tls_request pkg p clock flow_id r host (answers resp) true)
unfolding handle_tls_request finish_tls new_flow
handle_tls_request-LeftComplete pkg p clock flow_id r host resp e =
    let fresh =
      new_flow p flow_id clock.started clock.mono host r
        (assigned pkg p.task_assigner clock.started host r).1 in
    let agrees = with_provider-AgreesWith p.providers host fresh in
    before_effects-LeftComplete pkg p clock r (with_provider p.providers host fresh) flow_id e
      agrees.0 agrees.1.1 agrees.1.0
