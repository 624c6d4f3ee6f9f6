-- ===== src/Lib.antt =====
-- Langley, the recording proxy for LLM APIs, in antt.
--
-- A request comes to the proxy (internal/proxy). The interception gate asks the provider registry
-- (internal/provider) and the configured hosts; for an intercepted host the TLS side serves a
-- certificate from the LRU cache (internal/tls). The task assigner (internal/task) names the task
-- of the request. The response is copied to the client and, up to a limit, to a buffer that is
-- stored; a streamed one is framed in chunks. Events wait in a bounded priority queue
-- (internal/queue). The parsers (internal/parser, internal/provider) read events, token counts,
-- tool calls and tool results out of the bodies, a rate limiter guards the API (internal/api), and
-- a hub sends news of the flows to the connected browsers (internal/ws).
--
-- Files: Queue and its children model internal/queue/queue.go (NewQueue, Push, evictForSpace,
-- evictLowest, Pop, PopBatch, Close, Stats) over Go/Heap, which is container/heap as the queue
-- calls it. Task models internal/task/assignment.go (Assign, assignByHeuristic, simplifyHost,
-- splitDomain, formatCounter, Reset, GetStats). Tls/CertCache models internal/tls/certcache.go
-- (GetCertificate, moveToEnd, evictOldest, Size, Clear). Provider models MatchDomainSuffix,
-- DetectHost, Detect, Get, ShouldIntercept of internal/provider, and matchConfigHosts and
-- shouldIntercept of internal/proxy/mitm.go. Proxy/Capture models limitedBuffer with the copy of a
-- response body, Proxy/Chunked chunkedWriter, both of internal/proxy/mitm.go; Proxy/Headers models
-- copyHeaders and removeHopByHopHeaders of internal/proxy/proxy.go. Go/Strings is what is used of
-- Go's package strings. Provider/Usage models the ParseUsage methods of internal/provider.
-- Parser/Sse models SSEParser of internal/parser/sse.go, Parser/Claude ExtractUsage, ExtractModel
-- and ExtractToolUses of the same file over the decoded values of Parser/Json, Parser/ToolJson and
-- Parser/ToolResult internal/parser/tool_use_json.go and tool_result.go. Api/RateLimit models
-- internal/api/ratelimit.go, Ws the hub of internal/ws/websocket.go: the cases of Run, Broadcast
-- and a client's reading are steps that come in any order. Analytics/Anomaly models
-- DetectFlowAnomalies of internal/analytics/anomaly.go over what its queries give.
--
-- Proxy/Mitm puts these parts together: handleHTTP and handleTLSRequest of internal/proxy/mitm.go,
-- from a request to the flow in the store, with extractUsageAndCost, correlateToolResults,
-- saveToolInvocations, saveFlow, sendError and streamSSEWithParser, over the records of Store
-- (internal/store/store.go). What the store, the callbacks and the client are given are lists, in
-- order; what upstream does is an argument. Config models internal/config/config.go (Load, the
-- environment, ListenAddr, HeaderShouldRedact), Redact internal/redact/redact.go, Pricing
-- internal/pricing/litellm.go, Analytics/Cost GetPricing and CalculateCost of
-- internal/analytics/analytics.go. Of internal/api/api.go and export.go, Api/Access models the
-- middleware (with the authentication of internal/ws/websocket.go), Api/Flows the queries of flows
-- and tool calls, Api/Export the exports, Api/Admin reloading, settings, health and checkpoints, and
-- Api/Views the records of the answers. Command models the run subcommand of cmd/langley (run.go, and
-- Read of state.go). Go/Scanner is bufio.Scanner over lines.
--
-- Store/Tables, Store/Sqlite and Store/Query model internal/store/sqlite.go: a table is the list of
-- its rows, a statement a function on the tables, with the CHECKs, keys and the cascade of the
-- schema, and what is read back (scanFlow, scanToolInvocation). Store/Sqlite/Children has the
-- statements on events, tool invocations and the drop log, Store/Sqlite/Calls the sequences of calls.
-- Store/Query has the texts of the queries with their arguments beside the rows that they give,
-- Store/TimeText the texts of times that they compare, Store/Migrate the migrations and the starts
-- that fail between two statements. Proxy/Mitm/Recorded runs the calls that the proxy makes for a
-- request on these tables, Api/Export/Stored the export over them. Analytics/Totals models the sums,
-- groups and lists of internal/analytics/analytics.go over the same tables, Api/Totals the handlers of
-- internal/api/api.go that answer with them.
--
-- A method that holds its mutex throughout is one step, from the old state to the new one and the
-- result; time.Now is an argument. Text that the code walks is a list of bytes and taken as ASCII;
-- text that it only compares is a String. Times are nanoseconds, and `now.Sub(t) > gap` is `t +
-- gap < now`. Counters of type uint64 wrap at 2 ^ 64; lengths, indices and the task counter are
-- taken to stay below 2 ^ 63. A Go map is an association list with one entry for a key.
--
-- Fuel: up_loop gets one round more than its index and down_loop one more than its bound, which
-- the index passes at most once each round; digits_loop and hex_loop get the number that they
-- halve or more each round. That this is enough is part of the theorems: they say that a result is
-- returned, and the round trips say that it is the right one. The export of flows takes one round
-- for each page and one for the empty page, so that more rounds than flows are enough.
--
-- Tokens of the rate limiter are counted in units of 10^-9, in which the refill of a whole rate is
-- exact; the float64 of the code is taken as exact. A JSON number is its integer part. A price is in
-- a unit in which the price of one token is a whole number, a cost in thousandths of it.
--
-- Parameters: the decoding of JSON (encoding/json), one function for each type, the making of a
-- certificate (crypto/rsa, crypto/x509), which may fail, the matches of regular expressions
-- (regexp), YAML, strings.ToUpper for the names of variables, the environment, files and random
-- bytes, and the parsing and printing of times. Where a part uses the store through its interface
-- (handlers, anomalies), what the store gives is an argument. Of SQLite, the order of rows with
-- equal timestamps, the texts of datetime('now') and julianday are parameters, as are its date()
-- and the order of its groups. A client takes what is written to it, but for the header of a TLS
-- response, which it may refuse. In streamSSEWithParser the parser takes each write to its pipe
-- whole.
--
-- Not modelled: the start and the stop of the servers, tunnels and TLS handshakes (network I/O),
-- the opening of the database with its pragmas and file permissions, the anomalies that are looked
-- for in many flows at once (DetectRapidRepeats, ListRecentAnomalies), the rest of the command
-- line (cmd/langley/main.go, errors.go, envvars.go), the certificate authority
-- (internal/tls/ca.go), the web front end, and logging.
pub mod Prelude
pub mod Go
pub mod Queue
pub mod Task
pub mod Proxy
pub mod Provider
pub mod Tls
pub mod Parser
pub mod Api
pub mod Ws
pub mod Analytics
pub mod Config
pub mod Redact
pub mod Pricing
pub mod Store
pub mod Command
