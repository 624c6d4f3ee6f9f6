-- ===== src/Proxy/Mitm/Ends.antt =====
-- How handleHTTP of internal/proxy/mitm.go ends a flow.
use langley.Prelude.{
  ℕ, ◌+◌, ◌*◌, ◌≡◌, refl, ◌∙◌, Bool, true, false, List, [], ◌∷◌, ◌++◌, Option, none, some, ◌>>=◌,
  Bytes, codes, if◌then◌else◌, Bool-cases, Option-cases, inl, inr, ◌⊎◌, is_empty,
}
use langley.Store.{Flow}
use langley.Task.{Assigner}
use langley.Analytics.Cost.{Engine, calculate_cost}
use langley.Parser.Sse.{parse}
use langley.Parser.Claude.{ToolUse, extract_tool_uses}
use langley.Proxy.Capture.{LimitedBuffer, new_buffer}
use langley.Provider.{Provider, detect, name}
use langley.Provider.Usage.{Usage, parse_usage}
use langley.Proxy.Mitm.{
  Packages, MitmProxy, Request, Effect, save, expiring, new_flow, with_usage, with_cost,
  extract_usage_and_cost, token_counts, model_or_unknown, save_tool_invocations,
  nanoseconds_per_day,
}
use langley.Proxy.Mitm.Stream.{Stream, stream_chunks, stream_sse_with_parser, event_effects}
use langley.Proxy.Mitm.Handle.{
  Response, Upstream, no_request, no_response, answers, http_error, Handled, Clock, Served,
  before_effects, after_effects, serve_stream, serve_copy, serve_body, finish_http, answer_http,
  handle_http, interrupted, with_response, with_capture, detect_usage,
}
use langley.Proxy.Mitm.Kept.{
  updates, updates-skip, updates-before_effects, updates-after_effects, updates-event_effects,
  updates-save_tool_invocations, updates-save_last,
}

-- the id, the status and the integrity of a flow are those of another
abbrev pub AgreesWith : Flow → Flow → Type 0
AgreesWith g f =
    (f.id ≡ g.id) × ((f.status_code ≡ g.status_code) × (f.flow_integrity ≡ g.flow_integrity))

with_cost-AgreesWith : (e : Option Engine) (f : Flow) → AgreesWith f (with_cost e f)
unfolding with_cost
with_cost-AgreesWith none f = (refl, (refl, refl))
with_cost-AgreesWith (some engine) f = elim (Option-cases f.input_tokens) [
  | inl e ↦ rw (with_cost, e) (refl, (refl, refl))
  | inr (n, e) ↦
      by_cost n e (calculate_cost engine f.provider (model_or_unknown f.model) (token_counts f))
        refl
]
  where
    by_cost :
        (n : ℕ)
        → f.input_tokens ≡ some n
        → (o : Option (ℕ × Bytes))
        → calculate_cost engine f.provider (model_or_unknown f.model) (token_counts f) ≡ o
        → AgreesWith f (with_cost (some engine) f)
    by_cost n e none h = rw (with_cost, e, h) (refl, (refl, refl))
    by_cost n e (some (cost, source)) h = elim (Bool-cases (is_empty source)) [
      | inl b ↦ rw (with_cost, e, h, b) (refl, (refl, refl))
      | inr b ↦ rw (with_cost, e, h, b) (refl, (refl, refl))
    ]

extract_usage_and_cost-AgreesWith :
    (pkg : Packages) (e : Option Engine) (f : Flow) (p : Provider) (body : Bytes)
    → AgreesWith f (extract_usage_and_cost pkg e f p body)
unfolding extract_usage_and_cost
extract_usage_and_cost-AgreesWith pkg e f p [] = (refl, (refl, refl))
extract_usage_and_cost-AgreesWith pkg e f p (c ∷ body) =
    by_usage (parse_usage pkg.usage p (c ∷ body) f.is_sse)
  where
    by_usage :
        (o : Option Usage)
        → AgreesWith f (with_cost e (elim o [ none ↦ f | some usage ↦ with_usage f usage ]))
    by_usage none = with_cost-AgreesWith e f
    by_usage (some usage) = unfold with_usage in with_cost-AgreesWith e (with_usage f usage)

detect_usage-AgreesWith :
    (pkg : Packages) (p : MitmProxy) (host body : Bytes) (f : Flow)
    → AgreesWith f (detect_usage pkg p host body f)
unfolding detect_usage
detect_usage-AgreesWith pkg p host body f = by_provider (detect p.providers host)
  where
    by_provider :
        (o : Option Provider)
        → AgreesWith f (elim o [
          | none ↦ f
          | some provider ↦
              extract_usage_and_cost pkg p.analytics
                (record f { provider = name provider })
                provider
                body
        ])
    by_provider none = (refl, (refl, refl))
    by_provider (some provider) =
        extract_usage_and_cost-AgreesWith pkg p.analytics (record f { provider = name provider })
          provider body

AgreesWith-trans : (f g h : Flow) → AgreesWith f g → AgreesWith g h → AgreesWith f h
AgreesWith-trans f g h (a, (b, c)) (x, (y, z)) = (x ∙ a, (y ∙ b, z ∙ c))

expiring-AgreesWith : (p : MitmProxy) (now : ℕ) (f : Flow) → AgreesWith f (expiring p now f)
unfolding expiring
expiring-AgreesWith p now f = by_store p.has_store
  where
    by_store :
        (b : Bool)
        → AgreesWith f (
            if b
            then record f {
              expires_at = some (now + p.cfg.retention.flows_ttl_days * nanoseconds_per_day);
            }
            else f)
    by_store true = (refl, (refl, refl))
    by_store false = (refl, (refl, refl))

-- a result that is not a panic has the property
abbrev pub Every {ℓ} : {B : Type ℓ} → (B → Type 0) → Option B → Type 0
Every P none = Unit {0}
Every P (some b) = P b

pub >>=-Every {ℓ κ} :
    {A : Type ℓ} {B : Type κ} (P : B → Type 0) (o : Option A) (k : A → Option B)
    → ((a : A) → Every P (k a))
    → Every P (o >>= k)
>>=-Every P none k h = tt
>>=-Every P (some a) k h = h a

pub Every->>= {ℓ κ} :
    {A : Type ℓ} {B : Type κ} (Q : A → Type 0) (P : B → Type 0) (o : Option A) (k : A → Option B)
    → Every Q o
    → ((a : A) → Q a → Every P (k a))
    → Every P (o >>= k)
Every->>= Q P none k q h = tt
Every->>= Q P (some a) k q h = h a q

stream_sse_with_parser-updates :
    (pkg : Packages) (p : MitmProxy) (now : ℕ) (flow_id : Bytes) (task_id : Option Bytes)
    (l : LimitedBuffer) (chunks : List Bytes)
    → Every
        (λ (r : Stream × List Effect). updates r.1 ≡ [])
        (stream_sse_with_parser pkg p now flow_id task_id l chunks)
unfolding stream_sse_with_parser
stream_sse_with_parser-updates pkg p now flow_id task_id l chunks =
    >>=-Every _ (stream_chunks _ [] [] l chunks) _ (λ s.
      >>=-Every _ (parse pkg.unmarshal _ _ _) _ (λ r.
        >>=-Every _ (extract_tool_uses pkg.unmarshal r.0) _ (λ tools.
          updates-skip (event_effects p r.0) _ (updates-event_effects p r.0)
          ∙ by_end s.blocked tools)))
  where
    by_end :
        (b : Bool) (tools : List ToolUse)
        → updates (if b then [] else save_tool_invocations pkg p now flow_id task_id tools) ≡ []
    by_end true tools = unfold updates in refl
    by_end false tools = updates-save_tool_invocations pkg p now flow_id task_id tools

serve_body-updates :
    (pkg : Packages) (p : MitmProxy) (clock : Clock) (flow : Flow) (resp : Response)
    → Every (λ (s : Served). updates s.effects ≡ []) (serve_body pkg p clock flow resp)
unfolding serve_body serve_stream serve_copy
serve_body-updates pkg p clock flow resp = by_kind flow.is_sse
  where
    by_kind :
        (b : Bool)
        → Every
            (λ (s : Served). updates s.effects ≡ [])
            (if b then serve_stream pkg p clock flow resp else some (serve_copy p resp))
    by_kind true =
        Every->>= (λ (r : Stream × List Effect). updates r.1 ≡ [])
          (λ (s : Served). updates s.effects ≡ []) _ _
          (stream_sse_with_parser-updates pkg p clock.finished flow.id flow.task_id
            (new_buffer p.cfg.persistence.body_max_bytes) resp.chunks)
          (λ r e. e)
    by_kind false = unfold updates in refl

-- how the effects after the answer end: waiting, or with one update of the flow
abbrev pub Finished : MitmProxy → Flow → Bool → List Effect → Type 0
Finished p flow blocked es =
    ((blocked ≡ true) × (updates es ≡ []))
    ⊎ ((blocked ≡ false) × ((f : Flow) × ((updates es ≡ f ∷ []) × AgreesWith flow f)))

finish_http-Finished :
    (pkg : Packages) (p : MitmProxy) (clock : Clock) (r : Request) (flow : Flow) (resp : Response)
    → p.has_store ≡ true
    → Every
        (λ (s : Served × List Effect). Finished p (with_response clock resp flow) s.0.blocked s.1)
        (finish_http pkg p clock r flow resp)
unfolding finish_http
finish_http-Finished pkg p clock r flow resp e =
    Every->>= _ _ _ _ (serve_body-updates pkg p clock (with_response clock resp flow) resp)
      (λ s h. by_end s h s.blocked refl)
  where
    final : Served → Flow
    final s =
        detect_usage pkg p r.host s.capture.buf
          (with_capture p resp s.capture (with_response clock resp flow))

    captured :
        (s : Served)
        → AgreesWith
            (with_response clock resp flow)
            (with_capture p resp s.capture (with_response clock resp flow))
    captured s = unfold with_capture in (refl, (refl, refl))

    agrees :
        (s : Served)
        → AgreesWith (with_response clock resp flow) (expiring p clock.finished (final s))
    agrees s =
        AgreesWith-trans (with_response clock resp flow) (final s)
          (expiring p clock.finished (final s))
          (AgreesWith-trans (with_response clock resp flow)
            (with_capture p resp s.capture (with_response clock resp flow)) (final s) (captured s)
            (detect_usage-AgreesWith pkg p r.host s.capture.buf
              (with_capture p resp s.capture (with_response clock resp flow))))
          (expiring-AgreesWith p clock.finished (final s))

    by_end :
        (s : Served)
        → updates s.effects ≡ []
        → (b : Bool) → s.blocked ≡ b
        → Finished p (with_response clock resp flow) s.blocked (
            s.effects
            ++ (if s.blocked then [] else after_effects pkg p clock (final s) s.capture.buf))
    by_end s h true b = rw b (inl (refl, updates-skip s.effects [] h ∙ unfold updates in refl))
    by_end s h false b = rw b (
        inr (
          refl,
          (
            expiring p clock.finished (final s),
            (
              updates-skip s.effects _ h
                  ∙ updates-after_effects pkg p clock (final s) s.capture.buf e,
              agrees s,
            ),
          ),
        ))

-- a flow that is interrupted is updated once
pub updates-interrupted :
    (pkg : Packages) (p : MitmProxy) (clock : Clock) (r : Request) (flow : Flow)
    → p.has_store ≡ true
    → (f : Flow) × ((updates
            (before_effects pkg p clock r flow ++ save p clock.finished (interrupted flow))
          ≡ f ∷ [])
        × ((f.id ≡ flow.id) × (f.flow_integrity ≡ codes "interrupted")))
updates-interrupted pkg p clock r flow e =
    let agrees = expiring-AgreesWith p clock.finished (interrupted flow) in
    (
      expiring p clock.finished (interrupted flow),
      (
        updates-skip (before_effects pkg p clock r flow) _
              (updates-before_effects pkg p clock r flow)
            ∙ updates-save_last p clock.finished (interrupted flow) e,
        (agrees.0, agrees.1.1),
      ),
    )

-- effects that end a flow, after those before the request is forwarded
pub before_effects-Finished :
    (pkg : Packages) (p : MitmProxy) (clock : Clock) (r : Request) (flow : Flow) (resp : Response)
    (blocked : Bool) (es : List Effect)
    → Finished p (with_response clock resp flow) blocked es
    → Finished p (with_response clock resp flow) blocked (before_effects pkg p clock r flow ++ es)
before_effects-Finished pkg p clock r flow resp blocked es (inl (b, u)) =
    inl (b, updates-skip _ es (updates-before_effects pkg p clock r flow) ∙ u)
before_effects-Finished pkg p clock r flow resp blocked es (inr (b, (f, (u, a)))) =
    inr (b, (f, (updates-skip _ es (updates-before_effects pkg p clock r flow) ∙ u, a)))

-- an answered flow that is ended has the status of the answer
abbrev pub Answered : Bytes → Response → Bool → List Effect → Type 0
Answered flow_id resp blocked es =
    ((blocked ≡ true) × (updates es ≡ []))
    ⊎ ((blocked ≡ false)
        × ((f : Flow) × ((updates es ≡ f ∷ [])
              × ((f.id ≡ flow_id)
                  × ((f.status_code ≡ some resp.status_code)
                      × (f.flow_integrity ≡ codes "complete"))))))

Finished-Answered :
    (p : MitmProxy) (clock : Clock) (flow : Flow) (resp : Response) (blocked : Bool)
    (es : List Effect)
    → flow.flow_integrity ≡ codes "complete"
    → Finished p (with_response clock resp flow) blocked es
    → Answered flow.id resp blocked es
Finished-Answered p clock flow resp blocked es i (inl h) = inl h
Finished-Answered p clock flow resp blocked es i (inr (b, (f, (u, (d, (s, c)))))) =
    inr (b, (f, (u, (d, (s, c ∙ i)))))

pub answer_http-Answered :
    (pkg : Packages) (p : MitmProxy) (clock : Clock) (r : Request) (flow : Flow)
    (assigner : Option Assigner) (resp : Response)
    → flow.flow_integrity ≡ codes "complete"
    → p.has_store ≡ true
    → Every
        (λ (h : Handled). Answered flow.id resp h.blocked h.effects)
        (answer_http pkg p clock r flow assigner resp)
unfolding answer_http
answer_http-Answered pkg p clock r flow assigner resp i e =
    Every->>=
      (λ (s : Served × List Effect). Finished p (with_response clock resp flow) s.0.blocked s.1)
      (λ (h : Handled). Answered flow.id resp h.blocked h.effects) _ _
      (finish_http-Finished pkg p clock r flow resp e)
      (λ s h.
        Finished-Answered p clock flow resp s.0.blocked (before_effects pkg p clock r flow ++ s.1) i
          (before_effects-Finished pkg p clock r flow resp s.0.blocked s.1 h))

-- how handleHTTP ends, by what upstream does
abbrev pub EndsFor : MitmProxy → Bytes → Upstream → Handled → Type 0
EndsFor p flow_id no_request h =
    (h.reply ≡ http_error 400 (codes "Bad request")) × (updates h.effects ≡ [])
EndsFor p flow_id no_response h =
    (h.reply ≡ http_error 502 (codes "Bad gateway"))
    × ((f : Flow) × ((updates h.effects ≡ f ∷ [])
          × ((f.id ≡ flow_id) × (f.flow_integrity ≡ codes "interrupted"))))
EndsFor p flow_id (answers resp) h = Answered flow_id resp h.blocked h.effects

-- With a store, handleHTTP, unless it panics, ends a flow as follows. If no request can be made, the
-- client gets 400 and the flow is not updated. If upstream does not answer, the client gets 502 and
-- the flow is updated once, as "interrupted". If it answers, either the copy to the client waits for
-- ever and the flow is not updated, or the flow is updated once, with the status code of the answer.
pub handle_http-EndsFor :
    (pkg : Packages) (p : MitmProxy) (clock : Clock) (flow_id : Bytes) (r : Request) (u : Upstream)
    → p.has_store ≡ true
    → Every (EndsFor p flow_id u) (handle_http pkg p clock flow_id r u)
unfolding handle_http new_flow
handle_http-EndsFor pkg p clock flow_id r no_request e =
    (refl, updates-before_effects pkg p clock r _)
handle_http-EndsFor pkg p clock flow_id r no_response e =
    (refl, updates-interrupted pkg p clock r _ e)
handle_http-EndsFor pkg p clock flow_id r (answers resp) e =
    answer_http-Answered pkg p clock r _ _ resp refl e
