-- ===== src/Api/Views.antt =====
-- The answers of internal/api/api.go, and their making from the records of the store. Costs are in
-- the unit of Store; time.Time.Format is a parameter; the ids and times of events are left out.
use langley.Prelude.{ℕ, Bool, List, Option, Bytes, String, Dict}
use langley.Parser.Json.{Members}
use langley.Parser.Sse.{Event}
use langley.Task.{Source}
use langley.Store.{Flow, ToolInvocation}

pub record FlowSummary : Type 0 where
  pub id : Bytes
  pub host : Bytes
  pub method : Bytes
  pub path : Bytes
  pub status_code : Option ℕ
  pub is_sse : Bool
  pub timestamp : ℕ
  pub duration_ms : Option ℕ
  pub task_id : Option Bytes
  pub task_source : Option Source
  pub model : Option Bytes
  pub input_tokens : Option ℕ
  pub output_tokens : Option ℕ
  pub total_cost : Option ℕ

pub record FlowDetail : Type 0 where
  pub summary : FlowSummary
  pub url : Bytes
  pub status_text : Option Bytes
  pub provider : Bytes
  pub flow_integrity : Bytes
  pub events_dropped_count : ℕ
  pub request_body : Option Bytes
  pub request_body_truncated : Bool
  pub response_body : Option Bytes
  pub response_body_truncated : Bool
  pub request_headers : Dict (List Bytes)
  pub response_headers : Dict (List Bytes)
  pub cache_creation_tokens : Option ℕ
  pub cache_read_tokens : Option ℕ
  pub cost_source : Option Bytes

pub record ExportFlowSummary : Type 0 where
  pub id : Bytes
  pub timestamp : Bytes
  pub host : Bytes
  pub method : Bytes
  pub path : Bytes
  pub status_code : Option ℕ
  pub duration_ms : Option ℕ
  pub is_sse : Bool
  pub task_id : Option Bytes
  pub task_source : Option Source
  pub model : Option Bytes
  pub provider : Bytes
  pub input_tokens : Option ℕ
  pub output_tokens : Option ℕ
  pub total_cost : Option ℕ
  pub flow_integrity : Bytes

pub record EventResponse : Type 0 where
  pub sequence : ℕ
  pub event_type : Bytes
  pub event_data : Option Members
  pub priority : String

pub record ToolInvocationResponse : Type 0 where
  pub id : Bytes
  pub flow_id : Bytes
  pub task_id : Option Bytes
  pub tool_use_id : Option Bytes
  pub tool_name : Bytes
  pub timestamp : ℕ
  pub duration_ms : Option ℕ
  pub success : Option Bool
  pub error_message : Option Bytes
  pub tool_input : Option Bytes
  pub tool_result : Option Bytes

pub record ToolInvocationListResponse : Type 0 where
  pub items : List ToolInvocationResponse
  pub total : ℕ

pub record SettingsResponse : Type 0 where
  pub idle_gap_minutes : ℕ

unfoldable pub to_flow_summary : Flow → FlowSummary
to_flow_summary f = record {
  id = f.id;
  host = f.host;
  method = f.method;
  path = f.path;
  status_code = f.status_code;
  is_sse = f.is_sse;
  timestamp = f.timestamp;
  duration_ms = f.duration_ms;
  task_id = f.task_id;
  task_source = f.task_source;
  model = f.model;
  input_tokens = f.input_tokens;
  output_tokens = f.output_tokens;
  total_cost = f.total_cost;
}

unfoldable pub to_flow_detail : Flow → FlowDetail
unfolding to_flow_summary
to_flow_detail f = record {
  summary = to_flow_summary f;
  url = f.url;
  status_text = f.status_text;
  provider = f.provider;
  flow_integrity = f.flow_integrity;
  events_dropped_count = f.events_dropped_count;
  request_body = f.request_body;
  request_body_truncated = f.request_body_truncated;
  response_body = f.response_body;
  response_body_truncated = f.response_body_truncated;
  request_headers = f.request_headers;
  response_headers = f.response_headers;
  cache_creation_tokens = f.cache_creation_tokens;
  cache_read_tokens = f.cache_read_tokens;
  cost_source = f.cost_source;
}

unfoldable pub to_export_flow_summary : (ℕ → Bytes) → Flow → ExportFlowSummary
to_export_flow_summary format_time f = record {
  id = f.id;
  timestamp = format_time f.timestamp;
  host = f.host;
  method = f.method;
  path = f.path;
  status_code = f.status_code;
  duration_ms = f.duration_ms;
  is_sse = f.is_sse;
  task_id = f.task_id;
  task_source = f.task_source;
  model = f.model;
  provider = f.provider;
  input_tokens = f.input_tokens;
  output_tokens = f.output_tokens;
  total_cost = f.total_cost;
  flow_integrity = f.flow_integrity;
}

unfoldable pub to_tool_invocation_response : ToolInvocation → ToolInvocationResponse
to_tool_invocation_response inv = record {
  id = inv.id;
  flow_id = inv.flow_id;
  task_id = inv.task_id;
  tool_use_id = inv.tool_use_id;
  tool_name = inv.tool_name;
  timestamp = inv.timestamp;
  duration_ms = inv.duration_ms;
  success = inv.success;
  error_message = inv.error_message;
  tool_input = inv.tool_input;
  tool_result = inv.tool_result;
}

unfoldable pub to_event_response : Event → EventResponse
to_event_response e = record {
  sequence = e.sequence;
  event_type = e.event_type;
  event_data = e.event_data;
  priority = e.priority;
}
