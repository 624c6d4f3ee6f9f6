-- ===== src/Proxy/Mitm/Kept.antt =====
-- What handleHTTP and handleTLSRequest of internal/proxy/mitm.go leave of a flow in the store.
use langley.Prelude.{
  ℕ, suc, ◌≡◌, refl, ap, ◌∙◌, true, List, [], ◌∷◌, ◌++◌, Option, Bytes, Bool-cases, inl, inr,
}
use langley.Store.{Flow}
use langley.Parser.Sse.{Event}
use langley.Parser.Claude.{ToolUse}
use langley.Parser.ToolResult.{ToolResult}
use langley.Proxy.Mitm.{
  Packages, MitmProxy, Request, Effect, save_flow, update_flow, on_flow, on_update, save_event,
  on_event, save_tool_invocation, update_tool_result, stored, tool_result_updates,
  correlate_tool_results, tool_invocations, save_tool_invocations, save_json_tools, save, expiring,
}
use langley.Proxy.Mitm.Stream.{event_effects}
use langley.Proxy.Mitm.Handle.{Clock, before_effects, after_effects}

-- the flows that are updated in the store, in order
unfoldable pub updates : List Effect → List Flow
updates [] = []
updates (update_flow f ∷ es) = f ∷ updates es
updates (save_flow f ∷ es) = updates es
updates (on_flow f ∷ es) = updates es
updates (on_update f ∷ es) = updates es
updates (save_event e ∷ es) = updates es
updates (on_event e ∷ es) = updates es
updates (save_tool_invocation i ∷ es) = updates es
updates (update_tool_result i b x y n ∷ es) = updates es

pub updates-append : (xs ys : List Effect) → updates (xs ++ ys) ≡ updates xs ++ updates ys
unfolding updates
updates-append [] ys = refl
updates-append (update_flow f ∷ es) ys = ap (◌∷◌ f) (updates-append es ys)
updates-append (save_flow f ∷ es) ys = updates-append es ys
updates-append (on_flow f ∷ es) ys = updates-append es ys
updates-append (on_update f ∷ es) ys = updates-append es ys
updates-append (save_event e ∷ es) ys = updates-append es ys
updates-append (on_event e ∷ es) ys = updates-append es ys
updates-append (save_tool_invocation i ∷ es) ys = updates-append es ys
updates-append (update_tool_result i b x y n ∷ es) ys = updates-append es ys

-- effects without an update go before others unseen
pub updates-skip : (xs ys : List Effect) → updates xs ≡ [] → updates (xs ++ ys) ≡ updates ys
updates-skip xs ys e = rw (updates-append xs ys, e) refl

updates-tool_result_updates :
    (now : ℕ) (rs : List ToolResult) → updates (tool_result_updates now rs) ≡ []
unfolding updates tool_result_updates
updates-tool_result_updates now [] = refl
updates-tool_result_updates now (r ∷ rs) = updates-tool_result_updates now rs

updates-correlate_tool_results :
    (pkg : Packages) (p : MitmProxy) (now : ℕ) (body : Bytes)
    → updates (correlate_tool_results pkg p now body) ≡ []
unfolding correlate_tool_results
updates-correlate_tool_results pkg p now [] = unfold updates in refl
updates-correlate_tool_results pkg p now (c ∷ body) = elim (Bool-cases p.has_store) [
  | inl e ↦ rw e (updates-tool_result_updates now _)
  | inr e ↦ rw e (unfold updates in refl)
]

updates-tool_invocations :
    (pkg : Packages) (now n : ℕ) (flow_id : Bytes) (task_id : Option Bytes) (tools : List ToolUse)
    → updates (tool_invocations pkg now n flow_id task_id tools) ≡ []
unfolding updates tool_invocations
updates-tool_invocations pkg now n flow_id task_id [] = refl
updates-tool_invocations pkg now n flow_id task_id (t ∷ ts) =
    updates-tool_invocations pkg now (suc n) flow_id task_id ts

pub updates-save_tool_invocations :
    (pkg : Packages) (p : MitmProxy) (now : ℕ) (flow_id : Bytes) (task_id : Option Bytes)
    (tools : List ToolUse)
    → updates (save_tool_invocations pkg p now flow_id task_id tools) ≡ []
unfolding save_tool_invocations
updates-save_tool_invocations pkg p now flow_id task_id tools = elim (Bool-cases p.has_store) [
  | inl e ↦ rw e (updates-tool_invocations pkg now 0 flow_id task_id tools)
  | inr e ↦ rw e (unfold updates in refl)
]

pub updates-event_effects : (p : MitmProxy) (es : List Event) → updates (event_effects p es) ≡ []
unfolding updates event_effects
updates-event_effects p [] = refl
updates-event_effects p (e ∷ es) = elim (Bool-cases p.has_store) [
  | inl h ↦ rw h (updates-event_effects p es)
  | inr h ↦ rw h (updates-event_effects p es)
]

updates-save_json_tools :
    (pkg : Packages) (p : MitmProxy) (now : ℕ) (flow : Flow) (body : Bytes)
    → updates (save_json_tools pkg p now flow body) ≡ []
unfolding save_json_tools
updates-save_json_tools pkg p now flow [] = unfold updates in refl
updates-save_json_tools pkg p now flow (c ∷ body) = elim (Bool-cases flow.is_sse) [
  | inl e ↦ rw e (unfold updates in refl)
  | inr e ↦ rw e (updates-save_tool_invocations pkg p now flow.id flow.task_id _)
]

-- nothing that is done before the request is forwarded updates a flow
pub updates-before_effects :
    (pkg : Packages) (p : MitmProxy) (clock : Clock) (r : Request) (flow : Flow)
    → updates (before_effects pkg p clock r flow) ≡ []
unfolding before_effects
updates-before_effects pkg p clock r flow =
    updates-skip (stored p (save_flow flow)) _ saved
    ∙ updates-skip (correlate_tool_results pkg p clock.correlated r.body) (on_flow flow ∷ [])
        (updates-correlate_tool_results pkg p clock.correlated r.body)
    ∙ told
  where
    saved : updates (stored p (save_flow flow)) ≡ []
    saved = elim (Bool-cases p.has_store) [
      | inl e ↦ rw e (unfold updates in refl)
      | inr e ↦ rw e (unfold updates in refl)
    ]

    told : updates (on_flow flow ∷ []) ≡ []
    told = unfold updates in refl

pub updates-save :
    (p : MitmProxy) (now : ℕ) (flow : Flow) (es : List Effect)
    → p.has_store ≡ true
    → updates (save p now flow ++ es) ≡ expiring p now flow ∷ updates es
unfolding save updates
updates-save p now flow es e = rw (save, e) refl

pub updates-after_effects :
    (pkg : Packages) (p : MitmProxy) (clock : Clock) (flow : Flow) (body : Bytes)
    → p.has_store ≡ true
    → updates (after_effects pkg p clock flow body) ≡ expiring p clock.finished flow ∷ []
unfolding after_effects
updates-after_effects pkg p clock flow body e =
    updates-skip (save_json_tools pkg p clock.finished flow body) _
      (updates-save_json_tools pkg p clock.finished flow body)
    ∙ updates-save p clock.finished flow (on_update (expiring p clock.finished flow) ∷ []) e
    ∙ unfold updates in refl

pub updates-save_last :
    (p : MitmProxy) (now : ℕ) (flow : Flow)
    → p.has_store ≡ true
    → updates (save p now flow) ≡ expiring p now flow ∷ []
unfolding save updates
updates-save_last p now flow e = rw (save, e) refl
