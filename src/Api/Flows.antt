-- ===== src/Api/Flows.antt =====
-- The handlers of internal/api/api.go that read flows, events and tool calls. The store's queries
-- and time.Parse are parameters; a query parameter that is absent is empty.
pub mod Limits
use langley.Prelude.{
  ℕ, ◌-◌, ◌*◌, Bool, true, false, not, ◌&&◌, List, [], ◌∷◌, map, Option, none, some, Bytes, codes,
  is_empty, ltb, leb, if◌then◌else◌,
}
use langley.Go.Strings.{atoi}
use langley.Parser.Sse.{Event}
use langley.Store.{Flow, ToolInvocation, FlowFilter}
use langley.Api.Views.{
  FlowSummary, FlowDetail, EventResponse, ToolInvocationResponse, ToolInvocationListResponse,
  to_flow_summary, to_flow_detail, to_event_response, to_tool_invocation_response,
}

-- an error of http.Error, or a value as JSON
pub data ApiReply {ℓ} (B : Type ℓ) : Type ℓ where
  http_error : ℕ → Bytes → ApiReply B
  json : B → ApiReply B

-- the number of rows that a list asks for
unfoldable pub limit_of : Bytes → ℕ
unfolding atoi
limit_of v = elim (atoi v) [
  | none ↦ 50
  | some (negative, n) ↦ if not negative && ltb 0 n && leb n 100 then n else 50
]

unfoldable pub offset_of : Bytes → ℕ
unfolding atoi
offset_of v = elim (atoi v) [ none ↦ 0 | some (negative, n) ↦ if negative then 0 else n ]

abbrev pub given : Bytes → Option Bytes
given [] = none
given (c ∷ v) = some (c ∷ v)

module _ (parse_time : Bytes → Option ℕ) where
  -- a time that cannot be parsed is ignored
  abbrev pub given_time : Bytes → Option ℕ
  given_time [] = none
  given_time (c ∷ v) = parse_time (c ∷ v)

  unfoldable pub filter_of : (Bytes → Bytes) → ℕ → ℕ → FlowFilter
  filter_of query limit offset = record {
    host = given (query (codes "host"));
    task_id = given (query (codes "task_id"));
    task_source = none;
    model = given (query (codes "model"));
    start_time = given_time (query (codes "start_time"));
    end_time = given_time (query (codes "end_time"));
    limit = limit;
    offset = offset;
  }

  unfoldable pub list_flows :
      (FlowFilter → Option (List Flow)) → (Bytes → Bytes) → ApiReply (List FlowSummary)
  unfolding filter_of limit_of offset_of
  list_flows store query =
      let filter =
        filter_of query (limit_of (query (codes "limit"))) (offset_of (query (codes "offset"))) in
      elim (store filter) [
        | none ↦ http_error 500 (codes "Internal error")
        | some flows ↦ json (map to_flow_summary flows)
      ]

  unfoldable pub count_flows : (FlowFilter → Option ℕ) → (Bytes → Bytes) → ApiReply ℕ
  unfolding filter_of
  count_flows store query = elim (store (filter_of query 0 0)) [
    | none ↦ http_error 500 (codes "Internal error")
    | some count ↦ json count
  ]

  abbrev pub time_or : Bytes → ℕ → ℕ
  time_or v default = elim (given_time v) [ none ↦ default | some t ↦ t ]

  -- parseTimeRange: the last day, where the query names no times
  unfoldable pub parse_time_range : ℕ → (Bytes → Bytes) → ℕ × ℕ
  parse_time_range now query = (
    time_or (query (codes "start")) (now - 24 * 3_600 * 1_000_000_000),
    time_or (query (codes "end")) now,
  )

  -- the store's query for the calls of a tool: their page, and how many there are
  unfoldable pub list_tool_invocations :
      (Bytes → ℕ × ℕ → ℕ → ℕ → Option (List ToolInvocation × ℕ))
      → ℕ
      → Bytes
      → (Bytes → Bytes)
      → ApiReply ToolInvocationListResponse
  unfolding parse_time_range limit_of offset_of
  list_tool_invocations store now [] query = http_error 400 (codes "Missing tool name")
  list_tool_invocations store now (c ∷ tool) query =
      elim (store (c ∷ tool) (parse_time_range now query) (limit_of (query (codes "limit")))
        (offset_of (query (codes "offset")))) [
          | none ↦ http_error 500 (codes "Internal error")
          | some (invocations, total) ↦
              json (record { items = map to_tool_invocation_response invocations; total = total })
        ]

unfoldable pub get_flow : (Bytes → Option Flow) → Bytes → ApiReply FlowDetail
get_flow store [] = http_error 400 (codes "Missing flow ID")
get_flow store (c ∷ id) = elim (store (c ∷ id)) [
  | none ↦ http_error 404 (codes "Not found")
  | some flow ↦ json (to_flow_detail flow)
]

unfoldable pub get_flow_events :
    (Bytes → Option (List Event)) → Bytes → ApiReply (List EventResponse)
get_flow_events store [] = http_error 400 (codes "Missing flow ID")
get_flow_events store (c ∷ id) = elim (store (c ∷ id)) [
  | none ↦ http_error 500 (codes "Internal error")
  | some events ↦ json (map to_event_response events)
]

unfoldable pub get_tool_invocation :
    (Bytes → Option ToolInvocation) → Bytes → ApiReply ToolInvocationResponse
get_tool_invocation store [] = http_error 400 (codes "Missing invocation ID")
get_tool_invocation store (c ∷ id) = elim (store (c ∷ id)) [
  | none ↦ http_error 404 (codes "Not found")
  | some inv ↦ json (to_tool_invocation_response inv)
]
