-- ===== src/Proxy/Mitm/Tests.antt =====
-- Requests through the handlers of internal/proxy/mitm.go.
use langley.Prelude.{
  ℕ, zero, suc, ◌+◌, ◌*◌, ◌≤◌, ◌≡◌, refl, ap, ◌∙◌, length-append, true, false, Option, [], ◌∷◌,
  none, some, Bytes, codes, beq, lookup, length, leb, le→leb, arith,
}
use mathlib.Core.List.{append-nil}
use langley.Store
use langley.Store.{Flow}
use langley.Store.Tables.{FlowRow, Codec, Database, has_key}
use langley.Store.Sqlite.{get_flow, run_retention, keep_drops}
use langley.Store.Sqlite.Calls.{empty_tables}
use langley.Parser.Sse.{Event}
use langley.Proxy.Mitm.Recorded.{start, http, perform_effects}
use langley.Proxy.Mitm.Recorded.Unexpired.{Recorded-kept}
use langley.Proxy.Mitm.Recorded.Provided.{handle_http-Unattributed}
use langley.Go.Strings.{split_on, index, index_from, has_prefix, is_one_of}
use langley.Go.Scanner.{scan_lines, scan_parts}
use langley.Config.{default_config}
use langley.Parser.Sse.{parse_lines, end_event}
use langley.Provider.Usage.{Decoders}
use langley.Proxy.Capture.Copied.{concat}
use langley.Proxy.Headers.{canonical, is_token, recase, get}
use langley.Proxy.Mitm.{Packages, MitmProxy, Request}
use langley.Proxy.Mitm.Stream.{has_stopped, max_line_size}
use langley.Proxy.Mitm.Handle.{
  Response, answers, no_response, http_error, Clock, Handled, is_event_stream, handle_http,
}
use langley.Proxy.Mitm.Tls.{handle_tls_request}
use langley.Proxy.Mitm.Kept.{updates}
use langley.Proxy.Mitm.Ends.{Every, EndsFor, handle_http-EndsFor}
use langley.Proxy.Mitm.Stuck.{handle_http-stuck}
use langley.Proxy.Mitm.Refused.{LeftComplete, handle_tls_request-LeftComplete}

-- decoders that fail
abbrev no_usage : Decoders
no_usage = record {
  anthropic_body = λ s. none;
  message_start = λ s. none;
  message_delta = λ s. none;
  openai_body = λ s. none;
  openai_chunk = λ s. none;
  gemini_body = λ s. none;
  gemini_chunk = λ s. none;
  bedrock_body = λ s. none;
  claude_body = λ s. none;
  bedrock_event = λ s. none;
}

abbrev packages : Packages
packages = record {
  user_id = λ s. none;
  decode_messages = λ s. none;
  decode_blocks = λ s. none;
  decode_text = λ s. none;
  decode_content = λ s. none;
  decode_choices = λ s. none;
  unmarshal = λ s. none;
  marshal = λ m. none;
  usage = no_usage;
  new_id = λ n. n ∷ [];
  header_text = λ h. [];
  status_text = λ n. codes "Bad Gateway";
}

abbrev proxy : MitmProxy
proxy = record {
  cfg = record default_config {
    persistence = record default_config.persistence { body_max_bytes = 2 * max_line_size };
  };
  redactor = none;
  has_store = true;
  task_assigner = none;
  providers = [];
  analytics = none;
}

abbrev clock : Clock
clock = record { started = 1; mono = 1; correlated = 2; answered = 3; finished = 4 }

abbrev request : Request
request = record {
  method = codes "POST";
  host = codes "llm.local";
  path = codes "/v1";
  url = codes "http://llm.local/v1";
  header = (codes "Te", codes "gzip" ∷ []) ∷ (codes "Accept", codes "*/*" ∷ []) ∷ [];
  body = codes "{}";
}

-- a text of one byte, `n` times
repeat : ℕ → Bytes
repeat zero = []
repeat (suc n) = 65 ∷ repeat n

length-repeat : (n : ℕ) → length (repeat n) ≡ n
unfolding repeat
length-repeat zero = refl
length-repeat (suc n) = let e = length-repeat n in omega (arith, e)

split_on-repeat : (n : ℕ) → split_on 10 (repeat n) ≡ repeat n ∷ []
unfolding split_on repeat
split_on-repeat zero = refl
split_on-repeat (suc n) = rw (split_on-repeat n) refl

-- the parser stops at a line of a megabyte
has_stopped-long_line :
    (flow_id : Bytes) (n : ℕ)
    → max_line_size ≤ n
    → has_stopped packages.unmarshal flow_id (repeat n) ≡ some true
unfolding has_stopped scan_lines scan_parts parse_lines end_event
has_stopped-long_line flow_id n h =
    let long : leb max_line_size (length (repeat n)) ≡ true =
      rw (length-repeat n) (le→leb max_line_size n h) in
    rw (split_on-repeat n, long) refl

-- the response's first chunk is such a line
abbrev long_response : Response
long_response = record {
  status_code = 200;
  status = codes "200 OK";
  header = (codes "Content-Type", codes "text/event-stream" ∷ []) ∷ [];
  chunks = repeat max_line_size ∷ (66 ∷ []) ∷ [];
}

-- the line and the byte after it fit in the capture
long_line_fits :
    length (concat (repeat max_line_size ∷ [])) + length {A = ℕ} (66 ∷ [])
    ≤ proxy.cfg.persistence.body_max_bytes
long_line_fits =
    let e = length-repeat max_line_size in
    let f = length-append (repeat max_line_size) [] in omega (arith, e, f)

long_response-is_event_stream : is_event_stream long_response ≡ true
unfolding index index_from has_prefix get canonical is_token recase is_one_of lookup beq
long_response-is_event_stream = refl

long_line_stops :
    has_stopped packages.unmarshal (codes "f1") (concat (repeat max_line_size ∷ [])) ≡ some true
long_line_stops =
    ap (has_stopped packages.unmarshal (codes "f1")) (append-nil (repeat max_line_size))
    ∙ has_stopped-long_line (codes "f1") max_line_size (omega arith)

handle_http-stuck_example :
    Every
      (λ (h : Handled). (h.blocked ≡ true) × (updates h.effects ≡ []))
      (handle_http packages proxy clock (codes "f1") request (answers long_response))
handle_http-stuck_example =
    handle_http-stuck packages proxy clock (codes "f1") request long_response
      (repeat max_line_size ∷ []) 66 [] [] long_response-is_event_stream refl long_line_stops
      long_line_fits refl

handle_http-EndsFor_example :
    Every
      (EndsFor proxy (codes "f1") no_response)
      (handle_http packages proxy clock (codes "f1") request no_response)
handle_http-EndsFor_example =
    handle_http-EndsFor packages proxy clock (codes "f1") request no_response refl

handle_tls_request-LeftComplete_example :
    Every
      (λ (h : Handled). LeftComplete (codes "f1") h.effects)
      (handle_tls_request packages proxy clock
        (codes "f1")
        request
        (codes "llm.local")
        (answers long_response)
        true)
handle_tls_request-LeftComplete_example =
    handle_tls_request-LeftComplete packages proxy clock (codes "f1") request (codes "llm.local")
      long_response refl

-- times as one number, no headers
abbrev codec : Codec
codec = record {
  format_time = λ t. t ∷ [];
  parse_time = λ s. 0;
  marshal_headers = λ h. codes "null";
  unmarshal_headers = λ s. [];
  marshal_data = λ m. codes "null";
  unmarshal_data = λ s. none;
  elapsed_ms = λ s t. none;
}

abbrev completed : Event → Store.Event
completed e = record {
  id = e.sequence ∷ [];
  flow_id = e.flow_id;
  sequence = e.sequence;
  timestamp = 4;
  timestamp_mono = 4;
  event_type = e.event_type;
  event_data = e.event_data;
  priority = codes "low";
  expires_at = none;
}

-- a request that upstream does not answer, and its handling
abbrev refused : Option Handled
refused = handle_http packages proxy clock (codes "f1") request no_response

abbrev handled_or : Handled → Option Handled → Handled
handled_or d none = d
handled_or d (some h) = h

abbrev nothing_handled : Handled
nothing_handled = record {
  effects = [];
  outgoing = none;
  reply = http_error 400 [];
  task_assigner = none;
  blocked = false;
}

refused_handled : refused ≡ some (handled_or nothing_handled refused)
unfolding handle_http
refused_handled = refl

abbrev after_refusal : Database
after_refusal =
    perform_effects codec completed (codes "2025-01-01 00:00:00")
      (handled_or nothing_handled refused).effects empty_tables

-- RunRetention a century later
Recorded-kept_example :
    (run_retention (codes "2125-01-01 00:00:00") (codes "2124-12-01 00:00:00") after_refusal).0
    ≡ record after_refusal {
      drop_log = keep_drops (codes "2124-12-01 00:00:00") after_refusal.drop_log;
    }
Recorded-kept_example =
    Recorded-kept codec completed after_refusal (codes "2125-01-01 00:00:00")
      (codes "2124-12-01 00:00:00")
      (http (codes "2025-01-01 00:00:00") packages proxy clock (codes "f1") request no_response
        (handled_or nothing_handled refused) start refused_handled)

absent : has_key FlowRow.id (codes "f1") empty_tables.flows ≡ false
unfolding has_key
absent = refl

handle_http-Unattributed_example :
    Every
      (λ (d : Handled).
        (f : Flow) × ((get_flow codec
              (codes "f1")
              (perform_effects codec completed (codes "2025-01-01 00:00:00") d.effects empty_tables)
            ≡ some f)
          × ((f.provider ≡ codes "other") × (f.expires_at ≡ none))))
      (handle_http packages proxy clock (codes "f1") request (answers long_response))
handle_http-Unattributed_example =
    handle_http-Unattributed codec completed (codes "2025-01-01 00:00:00") packages proxy clock
      (codes "f1") request (answers long_response) empty_tables refl absent
