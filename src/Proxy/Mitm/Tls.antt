-- ===== src/Proxy/Mitm/Tls.antt =====
-- handleTLSRequest of internal/proxy/mitm.go: a request that came through an intercepted tunnel.
use langley.Prelude.{
  ℕ, Bool, true, false, List, [], ◌∷◌, ◌++◌, Option, none, some, ◌>>=◌, Bytes, codes, if◌then◌else◌,
  length, insert,
}
use langley.Go.Strings.{decimal}
use langley.Store.{Flow}
use langley.Provider.{Provider, detect, name}
use langley.Provider as Provider
use langley.Proxy.Headers.{Header, remove_hop_by_hop_headers}
use langley.Proxy.Chunked.{crlf, write_chunk, close_chunks}
use langley.Proxy.Mitm.{
  Packages, MitmProxy, Request, Effect, assigned, new_flow, save, extract_usage_and_cost,
}
use langley.Proxy.Mitm.Handle.{
  Response, Upstream, no_request, no_response, answers, raw, Handled, Clock, Served, forwarded,
  interrupted, with_response, with_capture, before_effects, after_effects, serve_body,
}

-- sendError: the bytes of an error response
unfoldable pub send_error : Packages → ℕ → Bytes → Bytes
send_error pkg status message =
    codes "HTTP/1.1 "
    ++ (decimal status
        ++ (32 ∷ pkg.status_text status
            ++ (crlf
                ++ (codes "Content-Type: text/plain"
                    ++ (crlf
                        ++ (codes "Content-Length: "
                            ++ (decimal (length message) ++ (crlf ++ (crlf ++ message)))))))))

-- the status line and the header of a response
unfoldable pub response_head : Packages → Bytes → Header → Bytes
response_head pkg status header =
    codes "HTTP/1.1 " ++ (status ++ (crlf ++ (pkg.header_text header ++ crlf)))

-- chunks on the connection; the last one is missing while the copy waits
unfoldable pub chunked : Bool → List Bytes → Bytes
chunked true [] = []
chunked false [] = close_chunks
chunked blocked (w ∷ ws) = write_chunk w ++ chunked blocked ws

abbrev pub joined : List Bytes → Bytes
joined [] = []
joined (w ∷ ws) = w ++ joined ws

-- the header and the body
unfoldable pub tls_response : Packages → Bool → Response → Served → Bytes × Bytes
unfolding response_head chunked
tls_response pkg true resp served = (
  response_head pkg resp.status (
      insert (codes "Transfer-Encoding") (codes "chunked" ∷ [])
        (remove_hop_by_hop_headers resp.header)),
  chunked served.blocked served.writes,
)
tls_response pkg false resp served = (
  response_head pkg resp.status (
      insert (codes "Content-Length") (decimal (length (joined served.writes)) ∷ [])
        (remove_hop_by_hop_headers resp.header)),
  joined served.writes,
)

-- the provider that was detected from the host, by its name
unfoldable pub get_usage : Packages → MitmProxy → Bytes → Flow → Flow
get_usage pkg p body flow = elim (Provider.get p.providers flow.provider) [
  | none ↦ flow
  | some provider ↦ extract_usage_and_cost pkg p.analytics flow provider body
]

abbrev pub with_provider : List Provider → Bytes → Flow → Flow
with_provider ps host flow = elim (detect ps host) [
  | none ↦ flow
  | some provider ↦ record flow { provider = name provider }
]

-- the request's flow once upstream has answered; the client may refuse the header of the response,
-- which for a stream comes before the body
unfoldable pub finish_tls :
    Packages → MitmProxy → Clock → Flow → Response → Bool → Option (Bytes × (List Effect × Bool))
unfolding tls_response get_usage
finish_tls pkg p clock flow resp refuses =
    let answered = with_response clock resp flow in
    if refuses
    then some ([], ([], false))
    else serve_body pkg p clock answered resp >>= λ served.
        let final =
          get_usage pkg p served.capture.buf (with_capture p resp served.capture answered) in
        let (head, body) = tls_response pkg answered.is_sse resp served in
        some (
          head ++ body,
          (
            served.effects
                ++ (if served.blocked
                    then []
                    else after_effects pkg p clock final served.capture.buf),
            served.blocked,
          ),
        )

-- handleTLSRequest; `none` is a panic
unfoldable pub handle_tls_request :
    Packages → MitmProxy → Clock → Bytes → Request → Bytes → Upstream → Bool → Option Handled
unfolding send_error finish_tls
handle_tls_request pkg p clock flow_id r host upstream refuses =
    let (assigner, assignment) = assigned pkg p.task_assigner clock.started host r in
    let flow =
      with_provider p.providers host
        (new_flow p flow_id clock.started clock.mono host r assignment) in
    let before = before_effects pkg p clock r flow in
    elim upstream [
      | no_request ↦ some (record {
        effects = before;
        outgoing = none;
        reply = raw (send_error pkg 400 (codes "Bad request"));
        task_assigner = assigner;
        blocked = false;
      })
      | no_response ↦ some (record {
        effects = before ++ save p clock.finished (interrupted flow);
        outgoing = some (forwarded r);
        reply = raw (send_error pkg 502 (codes "Bad gateway"));
        task_assigner = assigner;
        blocked = false;
      })
      | answers resp ↦ do
        (bytes, after) ← finish_tls pkg p clock flow resp refuses
        some (record {
          effects = before ++ after.0;
          outgoing = some (forwarded r);
          reply = raw bytes;
          task_assigner = assigner;
          blocked = after.1;
        })
    ]
