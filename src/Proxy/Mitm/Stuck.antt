-- ===== src/Proxy/Mitm/Stuck.antt =====
-- streamSSEWithParser of internal/proxy/mitm.go, once the SSE parser has returned before the end of
-- the stream.
use langley.Prelude.{
  ℕ, ◌+◌, ◌≤◌, ◌≡◌, refl, sym, ap, ◌∙◌, Bool, true, false, List, [], ◌∷◌, ◌++◌, Option, none, some,
  Bytes, ◌==◌, length, length-append, inl, inr, arith,
}
use mathlib.Core.List.{append_assoc, append-nil}
use langley.Proxy.Capture.{LimitedBuffer, new_buffer}
use langley.Proxy.Mitm.Stream.{
  Stream, has_stopped, stream_chunks, unless_stopped, stream_sse_with_parser,
}
use langley.Proxy.Capture.Copied.{concat, write_fits}
use langley.Proxy.Mitm.Ends.{Every, Every->>=, >>=-Every, EndsFor, handle_http-EndsFor}
use langley.Proxy.Mitm.Kept.{updates}
use langley.Proxy.Mitm.{Packages, MitmProxy, Request, Effect, new_flow, assigned}
use langley.Proxy.Mitm.Handle.{
  Response, answers, Handled, Clock, Served, is_event_stream, with_response, serve_stream,
  serve_body, finish_http, answer_http, handle_http,
}
use langley.Store.{Flow}
use langley.Task.{Assigner}
use langley.Parser.Sse.{parse}
use langley.Parser.Claude.{extract_tool_uses}

-- a chunk that fits in the capture, by the state of the parser before it
stream_chunks-step :
    (stops : Bytes → Option Bool) (c : ℕ) (p : Bytes) (rest writes : List Bytes) (piped b : Bytes)
    (max : ℕ)
    → length b + length (c ∷ p) ≤ max
    → stream_chunks stops writes piped
        (record { buf = b; max = max; truncated = false })
        ((c ∷ p) ∷ rest)
      ≡ unless_stopped
          (stops piped)
          (record {
            writes = writes ++ (c ∷ p) ∷ [];
            piped = piped;
            capture = record { buf = b ++ c ∷ p; max = max; truncated = false };
            failed = false;
            blocked = true;
          })
          (stream_chunks stops
            (writes ++ (c ∷ p) ∷ [])
            (piped ++ c ∷ p)
            (record { buf = b ++ c ∷ p; max = max; truncated = false })
            rest)
unfolding stream_chunks
stream_chunks-step stops c p rest writes piped b max fits =
    let whole : (length (c ∷ p) == length (c ∷ p)) ≡ true = ground arith in
    rw (write_fits max b (c ∷ p) (omega arith) fits, whole) refl

stream_chunks-empty :
    (stops : Bytes → Option Bool) (rest writes : List Bytes) (piped : Bytes) (l : LimitedBuffer)
    → stream_chunks stops writes piped l ([] ∷ rest) ≡ stream_chunks stops writes piped l rest
unfolding stream_chunks
stream_chunks-empty stops rest writes piped l = refl

unless_stopped-blocked :
    (s : Stream) (o : Option Stream) (b : Option Bool)
    → s.blocked ≡ true
    → Every (λ (t : Stream). t.blocked ≡ true) o
    → Every (λ (t : Stream). t.blocked ≡ true) (unless_stopped b s o)
unless_stopped-blocked s o none h k = tt
unless_stopped-blocked s o (some true) h k = h
unless_stopped-blocked s o (some false) h k = k

-- the parser has stopped after some chunks: the write of the next one waits
pub stream_chunks-blocked :
    (stops : Bytes → Option Bool) (before : List Bytes) (c : ℕ) (p : Bytes)
    (rest writes : List Bytes) (piped b : Bytes) (max : ℕ)
    → stops (piped ++ concat before) ≡ some true
    → length b + (length (concat before) + length (c ∷ p)) ≤ max
    → Every
        (λ (s : Stream). s.blocked ≡ true)
        (stream_chunks stops writes piped
          (record { buf = b; max = max; truncated = false })
          (before ++ (c ∷ p) ∷ rest))
stream_chunks-blocked stops [] c p rest writes piped b max h fits =
    rw
      (
        stream_chunks-step stops c p rest writes piped b max (omega (arith, fits)),
        ap stops (sym (append-nil piped)) ∙ h,
      )
      refl
stream_chunks-blocked stops ([] ∷ before) c p rest writes piped b max h fits =
    rw
      (stream_chunks-empty stops (before ++ (c ∷ p) ∷ rest) writes piped
        (record { buf = b; max = max; truncated = false }))
      (stream_chunks-blocked stops before c p rest writes piped b max h fits)
stream_chunks-blocked stops ((d ∷ q) ∷ before) c p rest writes piped b max h fits =
    let size = length-append (d ∷ q) (concat before) in
    let next =
      stream_chunks-blocked stops before c p rest (writes ++ (d ∷ q) ∷ []) (piped ++ d ∷ q)
        (b ++ d ∷ q) max (ap stops (append_assoc piped (d ∷ q) (concat before)) ∙ h)
        (omega (arith, fits, size, length-append b (d ∷ q))) in
    rw
      (stream_chunks-step stops d q (before ++ (c ∷ p) ∷ rest) writes piped b max
        (omega (arith, fits, size)))
      (unless_stopped-blocked _ _ (stops piped) refl next)

-- the stream of a response whose parser stops after some chunks that fit in the capture
stream_sse_with_parser-blocked :
    (pkg : Packages) (p : MitmProxy) (now : ℕ) (flow_id : Bytes) (task_id : Option Bytes) (max : ℕ)
    (before : List Bytes) (c : ℕ) (q : Bytes) (rest : List Bytes)
    → has_stopped pkg.unmarshal flow_id (concat before) ≡ some true
    → length (concat before) + length (c ∷ q) ≤ max
    → Every
        (λ (s : Stream × List Effect). s.0.blocked ≡ true)
        (stream_sse_with_parser pkg p now flow_id task_id
          (new_buffer max)
          (before ++ (c ∷ q) ∷ rest))
unfolding stream_sse_with_parser
stream_sse_with_parser-blocked pkg p now flow_id task_id max before c q rest h fits =
    Every->>= (λ (s : Stream). s.blocked ≡ true) (λ (s : Stream × List Effect). s.0.blocked ≡ true)
      _ _
      (stream_chunks-blocked (has_stopped pkg.unmarshal flow_id) before c q rest [] [] [] max h
        (omega (arith, fits)))
      (λ s b.
        >>=-Every _ (parse pkg.unmarshal _ _ _) _
          (λ events. >>=-Every _ (extract_tool_uses pkg.unmarshal events.0) _ (λ tools. b)))

serve_body-blocked :
    (pkg : Packages) (p : MitmProxy) (clock : Clock) (flow : Flow) (resp : Response)
    (before : List Bytes) (c : ℕ) (q : Bytes) (rest : List Bytes)
    → flow.is_sse ≡ true
    → resp.chunks ≡ before ++ (c ∷ q) ∷ rest
    → has_stopped pkg.unmarshal flow.id (concat before) ≡ some true
    → length (concat before) + length (c ∷ q) ≤ p.cfg.persistence.body_max_bytes
    → Every (λ (s : Served). s.blocked ≡ true) (serve_body pkg p clock flow resp)
unfolding serve_body serve_stream
serve_body-blocked pkg p clock flow resp before c q rest sse chunks h fits =
    rw (sse, chunks)
      (Every->>= (λ (s : Stream × List Effect). s.0.blocked ≡ true)
        (λ (s : Served). s.blocked ≡ true) _ _
        (stream_sse_with_parser-blocked pkg p clock.finished flow.id flow.task_id
          p.cfg.persistence.body_max_bytes before c q rest h fits)
        (λ s b. b))

answer_http-blocked :
    (pkg : Packages) (p : MitmProxy) (clock : Clock) (r : Request) (flow : Flow)
    (assigner : Option Assigner) (resp : Response) (before : List Bytes) (c : ℕ) (q : Bytes)
    (rest : List Bytes)
    → is_event_stream resp ≡ true
    → resp.chunks ≡ before ++ (c ∷ q) ∷ rest
    → has_stopped pkg.unmarshal flow.id (concat before) ≡ some true
    → length (concat before) + length (c ∷ q) ≤ p.cfg.persistence.body_max_bytes
    → Every (λ (h : Handled). h.blocked ≡ true) (answer_http pkg p clock r flow assigner resp)
unfolding answer_http finish_http
answer_http-blocked pkg p clock r flow assigner resp before c q rest sse chunks h fits =
    Every->>= (λ (s : Served × List Effect). s.0.blocked ≡ true) (λ (h : Handled). h.blocked ≡ true)
      _ _
      (Every->>= (λ (s : Served). s.blocked ≡ true)
        (λ (s : Served × List Effect). s.0.blocked ≡ true) _ _
        (serve_body-blocked pkg p clock (with_response clock resp flow) resp before c q rest sse
          chunks h fits)
        (λ s b. b))
      (λ s b. b)

-- A stream whose parser has returned after some chunks, at its limit of events or at a line of a
-- megabyte, and which then goes on within the limit of the capture: with a store, handleHTTP, unless
-- it panics, waits for ever in the copy to the client, and never updates the flow.
pub handle_http-stuck :
    (pkg : Packages) (p : MitmProxy) (clock : Clock) (flow_id : Bytes) (r : Request)
    (resp : Response) (before : List Bytes) (c : ℕ) (q : Bytes) (rest : List Bytes)
    → is_event_stream resp ≡ true
    → resp.chunks ≡ before ++ (c ∷ q) ∷ rest
    → has_stopped pkg.unmarshal flow_id (concat before) ≡ some true
    → length (concat before) + length (c ∷ q) ≤ p.cfg.persistence.body_max_bytes
    → p.has_store ≡ true
    → Every
        (λ (h : Handled). (h.blocked ≡ true) × (updates h.effects ≡ []))
        (handle_http pkg p clock flow_id r (answers resp))
handle_http-stuck pkg p clock flow_id r resp before c q rest sse chunks h fits e =
    both (handle_http pkg p clock flow_id r (answers resp))
      (unfold handle_http new_flow in
        answer_http-blocked pkg p clock r
          (new_flow p flow_id clock.started clock.mono r.host r
            (assigned pkg p.task_assigner clock.started r.host r).1)
          (assigned pkg p.task_assigner clock.started r.host r).0 resp before c q rest sse chunks h
          fits)
      (handle_http-EndsFor pkg p clock flow_id r (answers resp) e)
  where
    both :
        (o : Option Handled)
        → Every (λ (h : Handled). h.blocked ≡ true) o
        → Every (EndsFor p flow_id (answers resp)) o
        → Every (λ (h : Handled). (h.blocked ≡ true) × (updates h.effects ≡ [])) o
    both none b k = tt
    both (some h) b (inl (w, u)) = (b, u)
    both (some h) b (inr (w, f)) = cc (b, w)
