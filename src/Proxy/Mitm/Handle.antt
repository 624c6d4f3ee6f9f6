-- ===== src/Proxy/Mitm/Handle.antt =====
-- handleHTTP and handleTLSRequest of internal/proxy/mitm.go. What upstream does is an argument; the
-- client accepts what is written, but for the header of a TLS response, which it may refuse.
use langley.Prelude.{
  ℕ, ◌-◌, ◌/◌, Bool, false, List, [], ◌∷◌, ◌++◌, Option, none, some, ◌>>=◌, Bytes, codes,
  if◌then◌else◌,
}
use langley.Go.Strings.{contains}
use langley.Store.{Flow}
use langley.Task.{Assigner}
use langley.Provider.{detect, name}
use langley.Proxy.Headers.{Header, canonical, get, delete, copy_headers, remove_hop_by_hop_headers}
use langley.Proxy.Capture.{LimitedBuffer, Copy, new_buffer, copy_body}
use langley.Proxy.Mitm.{
  Packages, MitmProxy, Request, Effect, save_flow, on_flow, on_update, stored, redacted_text,
  redacted_header, assigned, new_flow, correlate_tool_results, expiring, save,
  extract_usage_and_cost, save_json_tools,
}
use langley.Proxy.Mitm.Stream.{stream_sse_with_parser}

-- a response: the chunks are what its body's reader gives before its end or its error
pub record Response : Type 0 where
  pub status_code : ℕ
  pub status : Bytes
  pub header : Header
  pub chunks : List Bytes

-- the request that goes upstream
pub record Outgoing : Type 0 where
  pub method : Bytes
  pub url : Bytes
  pub header : Header
  pub body : Bytes

-- http.NewRequest fails, the exchange with upstream fails, or there is a response
pub data Upstream : Type 0 where
  no_request no_response : Upstream
  answers : Response → Upstream

-- what the client gets: an error, a response by its header and writes, or bytes on the connection
pub data Reply : Type 0 where
  http_error : ℕ → Bytes → Reply
  responded : ℕ → Header → List Bytes → Reply
  raw : Bytes → Reply

pub record Handled : Type 0 where
  pub effects : List Effect
  pub outgoing : Option Outgoing
  pub reply : Reply
  pub task_assigner : Option Assigner
  pub blocked : Bool

-- the times at which the handler asks for the time
pub record Clock : Type 0 where
  pub started : ℕ
  pub mono : ℕ
  pub correlated : ℕ
  pub answered : ℕ
  pub finished : ℕ

unfoldable pub forwarded : Request → Outgoing
forwarded r = record {
  method = r.method;
  url = r.url;
  header =
      delete (canonical (codes "Accept-Encoding"))
        (remove_hop_by_hop_headers (copy_headers [] r.header));
  body = r.body;
}

abbrev pub interrupted : Flow → Flow
interrupted flow = record flow { flow_integrity = codes "interrupted" }

abbrev pub is_event_stream : Response → Bool
is_event_stream resp = contains (get resp.header (codes "Content-Type")) (codes "text/event-stream")

abbrev pub with_response : Clock → Response → Flow → Flow
with_response clock resp flow = record flow {
  duration_ms = some ((clock.answered - clock.started) / 1_000_000);
  status_code = some resp.status_code;
  status_text = some resp.status;
  is_sse = is_event_stream resp;
}

-- the response as it is stored: its captured body, and its header
unfoldable pub with_capture : MitmProxy → Response → LimitedBuffer → Flow → Flow
with_capture p resp capture flow = record flow {
  response_headers = redacted_header p.redactor resp.header;
  response_body = redacted_text p.redactor capture.buf;
  response_body_truncated = capture.truncated;
}

-- the effects before the request is forwarded
unfoldable pub before_effects : Packages → MitmProxy → Clock → Request → Flow → List Effect
before_effects pkg p clock r flow =
    stored p (save_flow flow)
    ++ (correlate_tool_results pkg p clock.correlated r.body ++ on_flow flow ∷ [])

-- the effects after the response: the calls of a body that is no stream, and the flow
unfoldable pub after_effects : Packages → MitmProxy → Clock → Flow → Bytes → List Effect
after_effects pkg p clock flow body =
    save_json_tools pkg p clock.finished flow body
    ++ (save p clock.finished flow ++ on_update (expiring p clock.finished flow) ∷ [])

-- the capture of a response, the writes to the client, the effects, and whether the copy waits for
-- ever; `none` is a panic
pub record Served : Type 0 where
  pub writes : List Bytes
  pub capture : LimitedBuffer
  pub effects : List Effect
  pub blocked : Bool

unfoldable pub serve_stream : Packages → MitmProxy → Clock → Flow → Response → Option Served
serve_stream pkg p clock flow resp = do
  (s, effects) ←
      stream_sse_with_parser pkg p clock.finished flow.id flow.task_id
        (new_buffer p.cfg.persistence.body_max_bytes) resp.chunks
  some (record { writes = s.writes; capture = s.capture; effects = effects; blocked = s.blocked })

unfoldable pub serve_copy : MitmProxy → Response → Served
serve_copy p resp =
    let copied : Copy = copy_body p.cfg.persistence.body_max_bytes resp.chunks in
    record { writes = copied.client ∷ []; capture = copied.capture; effects = []; blocked = false }

unfoldable pub serve_body : Packages → MitmProxy → Clock → Flow → Response → Option Served
unfolding serve_stream serve_copy
serve_body pkg p clock flow resp =
    if flow.is_sse then serve_stream pkg p clock flow resp else some (serve_copy p resp)

-- the provider and the usage of a plain request, from its host
unfoldable pub detect_usage : Packages → MitmProxy → Bytes → Bytes → Flow → Flow
detect_usage pkg p host body flow = elim (detect p.providers host) [
  | none ↦ flow
  | some provider ↦
      extract_usage_and_cost pkg p.analytics (record flow { provider = name provider }) provider
        body
]

-- a plain request once upstream has answered
unfoldable pub finish_http :
    Packages → MitmProxy → Clock → Request → Flow → Response → Option (Served × List Effect)
finish_http pkg p clock r flow resp = do
  served ← serve_body pkg p clock (with_response clock resp flow) resp
  let final =
      detect_usage pkg p r.host served.capture.buf
        (with_capture p resp served.capture (with_response clock resp flow))
  some (
    served,
    served.effects
        ++ (if served.blocked then [] else after_effects pkg p clock final served.capture.buf),
  )

unfoldable pub answer_http :
    Packages → MitmProxy → Clock → Request → Flow → Option Assigner → Response → Option Handled
unfolding forwarded before_effects finish_http
answer_http pkg p clock r flow assigner resp = do
  (served, after) ← finish_http pkg p clock r flow resp
  some (record {
    effects = before_effects pkg p clock r flow ++ after;
    outgoing = some (forwarded r);
    reply =
        responded resp.status_code (remove_hop_by_hop_headers (copy_headers [] resp.header))
          served.writes;
    task_assigner = assigner;
    blocked = served.blocked;
  })

-- handleHTTP; `none` is a panic
unfoldable pub handle_http :
    Packages → MitmProxy → Clock → Bytes → Request → Upstream → Option Handled
unfolding forwarded before_effects answer_http
handle_http pkg p clock flow_id r upstream =
    let (assigner, assignment) = assigned pkg p.task_assigner clock.started r.host r in
    let flow = new_flow p flow_id clock.started clock.mono r.host r assignment in
    let before = before_effects pkg p clock r flow in
    elim upstream [
      | no_request ↦ some (record {
        effects = before;
        outgoing = none;
        reply = http_error 400 (codes "Bad request");
        task_assigner = assigner;
        blocked = false;
      })
      | no_response ↦ some (record {
        effects = before ++ save p clock.finished (interrupted flow);
        outgoing = some (forwarded r);
        reply = http_error 502 (codes "Bad gateway");
        task_assigner = assigner;
        blocked = false;
      })
      | answers resp ↦ answer_http pkg p clock r flow assigner resp
    ]
