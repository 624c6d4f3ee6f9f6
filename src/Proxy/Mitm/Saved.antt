-- ===== src/Proxy/Mitm/Saved.antt =====
-- What handleHTTP and handleTLSRequest of internal/proxy/mitm.go hand to SaveFlow.
use langley.Prelude.{
  ℕ, suc, Bool, true, false, List, [], ◌∷◌, ◌++◌, Option, some, Bytes, if◌then◌else◌, Bool-cases,
  inl, inr,
}
use langley.Store.{Flow}
use langley.Parser.Sse.{Event, parse}
use langley.Parser.Claude.{ToolUse, extract_tool_uses}
use langley.Parser.ToolResult.{ToolResult}
use langley.Proxy.Capture.{LimitedBuffer, new_buffer}
use langley.Proxy.Mitm.{
  Packages, MitmProxy, Request, Effect, save_flow, update_flow, save_event, stored,
  tool_result_updates, correlate_tool_results, tool_invocations, save_tool_invocations,
  save_json_tools, save, expiring, new_flow, assigned,
}
use langley.Proxy.Mitm.Stream.{Stream, stream_chunks, stream_sse_with_parser, event_effects}
use langley.Proxy.Mitm.Handle.{
  Response, Upstream, no_request, no_response, answers, Handled, Clock, Served, before_effects,
  after_effects, serve_stream, serve_copy, serve_body, finish_http, answer_http, handle_http,
  with_response,
}
use langley.Proxy.Mitm.Tls.{finish_tls, handle_tls_request, with_provider}
use langley.Proxy.Mitm.Ends.{Every, >>=-Every, Every->>=}

-- the flow that a request is saved with
abbrev pub http_flow : Packages → MitmProxy → Clock → Bytes → Request → Flow
http_flow pkg p clock flow_id r =
    new_flow p flow_id clock.started clock.mono r.host r
      (assigned pkg p.task_assigner clock.started r.host r).1

abbrev pub tls_flow : Packages → MitmProxy → Clock → Bytes → Request → Bytes → Flow
tls_flow pkg p clock flow_id r host = with_provider p.providers host (
    new_flow p flow_id clock.started clock.mono host r
      (assigned pkg p.task_assigner clock.started host r).1)

module _ (P : Flow → Type 0) where
  -- a flow that an effect saves has the property
  abbrev pub SaveIs : Effect → Type 0
  SaveIs (save_flow f) = P f
  SaveIs other = Unit {0}

  abbrev pub EachSave : List Effect → Type 0
  EachSave [] = Unit {0}
  EachSave (e ∷ es) = SaveIs e × EachSave es

  EachSave-append : (xs ys : List Effect) → EachSave xs → EachSave ys → EachSave (xs ++ ys)
  EachSave-append [] ys h k = k
  EachSave-append (x ∷ xs) ys (e, h) k = (e, EachSave-append xs ys h k)

  EachSave-stored : (p : MitmProxy) (e : Effect) → SaveIs e → EachSave (stored p e)
  EachSave-stored p e h = elim (Bool-cases p.has_store) [ inl b ↦ rw b (h, tt) | inr b ↦ rw b tt ]

  EachSave-if : (b : Bool) (es : List Effect) → EachSave es → EachSave (if b then es else [])
  EachSave-if true es h = h
  EachSave-if false es h = tt

  EachSave-unless : (b : Bool) (es : List Effect) → EachSave es → EachSave (if b then [] else es)
  EachSave-unless true es h = tt
  EachSave-unless false es h = h

  EachSave-tool_result_updates :
      (now : ℕ) (rs : List ToolResult) → EachSave (tool_result_updates now rs)
  unfolding tool_result_updates
  EachSave-tool_result_updates now [] = tt
  EachSave-tool_result_updates now (r ∷ rs) = (tt, EachSave-tool_result_updates now rs)

  EachSave-correlate_tool_results :
      (pkg : Packages) (p : MitmProxy) (now : ℕ) (body : Bytes)
      → EachSave (correlate_tool_results pkg p now body)
  unfolding correlate_tool_results
  EachSave-correlate_tool_results pkg p now [] = tt
  EachSave-correlate_tool_results pkg p now (c ∷ body) =
      EachSave-if p.has_store _ (EachSave-tool_result_updates now _)

  EachSave-tool_invocations :
      (pkg : Packages) (now n : ℕ) (flow_id : Bytes) (task_id : Option Bytes) (ts : List ToolUse)
      → EachSave (tool_invocations pkg now n flow_id task_id ts)
  unfolding tool_invocations
  EachSave-tool_invocations pkg now n flow_id task_id [] = tt
  EachSave-tool_invocations pkg now n flow_id task_id (t ∷ ts) =
      (tt, EachSave-tool_invocations pkg now (suc n) flow_id task_id ts)

  EachSave-save_tool_invocations :
      (pkg : Packages) (p : MitmProxy) (now : ℕ) (flow_id : Bytes) (task_id : Option Bytes)
      (ts : List ToolUse)
      → EachSave (save_tool_invocations pkg p now flow_id task_id ts)
  unfolding save_tool_invocations
  EachSave-save_tool_invocations pkg p now flow_id task_id ts =
      EachSave-if p.has_store _ (EachSave-tool_invocations pkg now 0 flow_id task_id ts)

  EachSave-event_effects : (p : MitmProxy) (es : List Event) → EachSave (event_effects p es)
  unfolding event_effects
  EachSave-event_effects p [] = tt
  EachSave-event_effects p (e ∷ es) =
      EachSave-append (stored p (save_event e)) _ (EachSave-stored p (save_event e) tt)
        (tt, EachSave-event_effects p es)

  EachSave-save_json_tools :
      (pkg : Packages) (p : MitmProxy) (now : ℕ) (flow : Flow) (body : Bytes)
      → EachSave (save_json_tools pkg p now flow body)
  unfolding save_json_tools
  EachSave-save_json_tools pkg p now flow [] = tt
  EachSave-save_json_tools pkg p now flow (c ∷ body) =
      EachSave-unless flow.is_sse _
        (EachSave-save_tool_invocations pkg p now flow.id flow.task_id _)

  EachSave-save : (p : MitmProxy) (now : ℕ) (flow : Flow) → EachSave (save p now flow)
  unfolding save
  EachSave-save p now flow = EachSave-stored p (update_flow (expiring p now flow)) tt

  EachSave-before_effects :
      (pkg : Packages) (p : MitmProxy) (clock : Clock) (r : Request) (flow : Flow)
      → P flow
      → EachSave (before_effects pkg p clock r flow)
  unfolding before_effects
  EachSave-before_effects pkg p clock r flow h =
      EachSave-append (stored p (save_flow flow)) _ (EachSave-stored p (save_flow flow) h) (
        EachSave-append (correlate_tool_results pkg p clock.correlated r.body) _
          (EachSave-correlate_tool_results pkg p clock.correlated r.body) (tt, tt))

  EachSave-after_effects :
      (pkg : Packages) (p : MitmProxy) (clock : Clock) (flow : Flow) (body : Bytes)
      → EachSave (after_effects pkg p clock flow body)
  unfolding after_effects
  EachSave-after_effects pkg p clock flow body =
      EachSave-append (save_json_tools pkg p clock.finished flow body) _
        (EachSave-save_json_tools pkg p clock.finished flow body)
        (EachSave-append (save p clock.finished flow) _ (EachSave-save p clock.finished flow)
          (tt, tt))

  stream_sse_with_parser-EachSave :
      (pkg : Packages) (p : MitmProxy) (now : ℕ) (flow_id : Bytes) (task_id : Option Bytes)
      (l : LimitedBuffer) (chunks : List Bytes)
      → Every
          (λ (r : Stream × List Effect). EachSave r.1)
          (stream_sse_with_parser pkg p now flow_id task_id l chunks)
  unfolding stream_sse_with_parser
  stream_sse_with_parser-EachSave pkg p now flow_id task_id l chunks =
      >>=-Every _ (stream_chunks _ [] [] l chunks) _ (λ s.
        >>=-Every _ (parse pkg.unmarshal _ _ _) _ (λ r.
          >>=-Every _ (extract_tool_uses pkg.unmarshal r.0) _ (λ tools.
            EachSave-append (event_effects p r.0) _ (EachSave-event_effects p r.0) (
              EachSave-unless s.blocked _
                (EachSave-save_tool_invocations pkg p now flow_id task_id tools)))))

  serve_body-EachSave :
      (pkg : Packages) (p : MitmProxy) (clock : Clock) (flow : Flow) (resp : Response)
      → Every (λ (s : Served). EachSave s.effects) (serve_body pkg p clock flow resp)
  unfolding serve_body serve_stream serve_copy
  serve_body-EachSave pkg p clock flow resp = by_kind flow.is_sse
    where
      by_kind :
          (b : Bool)
          → Every
              (λ (s : Served). EachSave s.effects)
              (if b then serve_stream pkg p clock flow resp else some (serve_copy p resp))
      by_kind true =
          Every->>= (λ (r : Stream × List Effect). EachSave r.1)
            (λ (s : Served). EachSave s.effects) _ _
            (stream_sse_with_parser-EachSave pkg p clock.finished flow.id flow.task_id
              (new_buffer p.cfg.persistence.body_max_bytes) resp.chunks)
            (λ r e. e)
      by_kind false = tt

  finish_http-EachSave :
      (pkg : Packages) (p : MitmProxy) (clock : Clock) (r : Request) (flow : Flow) (resp : Response)
      → Every (λ (s : Served × List Effect). EachSave s.1) (finish_http pkg p clock r flow resp)
  unfolding finish_http
  finish_http-EachSave pkg p clock r flow resp =
      Every->>= (λ (s : Served). EachSave s.effects) (λ (s : Served × List Effect). EachSave s.1) _
        _ (serve_body-EachSave pkg p clock (with_response clock resp flow) resp)
        (λ s h.
          EachSave-append s.effects _ h
            (EachSave-unless s.blocked _ (EachSave-after_effects pkg p clock _ s.capture.buf)))

  -- every flow that handleHTTP saves is the one of its request
  pub handle_http-EachSave :
      (pkg : Packages) (p : MitmProxy) (clock : Clock) (flow_id : Bytes) (r : Request)
      (u : Upstream)
      → P (http_flow pkg p clock flow_id r)
      → Every (λ (h : Handled). EachSave h.effects) (handle_http pkg p clock flow_id r u)
  unfolding handle_http answer_http
  handle_http-EachSave pkg p clock flow_id r no_request h =
      EachSave-before_effects pkg p clock r (http_flow pkg p clock flow_id r) h
  handle_http-EachSave pkg p clock flow_id r no_response h =
      EachSave-append _ _
        (EachSave-before_effects pkg p clock r (http_flow pkg p clock flow_id r) h)
        (EachSave-save p clock.finished _)
  handle_http-EachSave pkg p clock flow_id r (answers resp) h =
      Every->>= (λ (s : Served × List Effect). EachSave s.1) (λ (d : Handled). EachSave d.effects) _
        _ (finish_http-EachSave pkg p clock r (http_flow pkg p clock flow_id r) resp)
        (λ s e.
          EachSave-append _ s.1
            (EachSave-before_effects pkg p clock r (http_flow pkg p clock flow_id r) h) e)

  finish_tls-EachSave :
      (pkg : Packages) (p : MitmProxy) (clock : Clock) (flow : Flow) (resp : Response)
      (refuses : Bool)
      → Every
          (λ (s : Bytes × (List Effect × Bool)). EachSave s.1.0)
          (finish_tls pkg p clock flow resp refuses)
  unfolding finish_tls
  finish_tls-EachSave pkg p clock flow resp true = tt
  finish_tls-EachSave pkg p clock flow resp false =
      Every->>= (λ (s : Served). EachSave s.effects)
        (λ (s : Bytes × (List Effect × Bool)). EachSave s.1.0) _ _
        (serve_body-EachSave pkg p clock (with_response clock resp flow) resp)
        (λ s h.
          EachSave-append s.effects _ h
            (EachSave-unless s.blocked _ (EachSave-after_effects pkg p clock _ s.capture.buf)))

  -- every flow that handleTLSRequest saves is the one of its request, with its provider
  pub handle_tls_request-EachSave :
      (pkg : Packages) (p : MitmProxy) (clock : Clock) (flow_id : Bytes) (r : Request)
      (host : Bytes) (u : Upstream) (refuses : Bool)
      → P (tls_flow pkg p clock flow_id r host)
      → Every
          (λ (h : Handled). EachSave h.effects)
          (handle_tls_request pkg p clock flow_id r host u refuses)
  unfolding handle_tls_request
  handle_tls_request-EachSave pkg p clock flow_id r host no_request refuses h =
      EachSave-before_effects pkg p clock r (tls_flow pkg p clock flow_id r host) h
  handle_tls_request-EachSave pkg p clock flow_id r host no_response refuses h =
      EachSave-append _ _
        (EachSave-before_effects pkg p clock r (tls_flow pkg p clock flow_id r host) h)
        (EachSave-save p clock.finished _)
  handle_tls_request-EachSave pkg p clock flow_id r host (answers resp) refuses h =
      Every->>= (λ (s : Bytes × (List Effect × Bool)). EachSave s.1.0)
        (λ (d : Handled). EachSave d.effects) _ _
        (finish_tls-EachSave pkg p clock (tls_flow pkg p clock flow_id r host) resp refuses)
        (λ s e.
          EachSave-append _ s.1.0
            (EachSave-before_effects pkg p clock r (tls_flow pkg p clock flow_id r host) h) e)
