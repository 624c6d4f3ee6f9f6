-- ===== src/Store.antt =====
-- The records of internal/store/store.go. Times are nanoseconds, costs thousandths of the unit of
-- Analytics.Cost; a count of tokens that is stored is not negative. CreatedAt is left to the
-- database.
pub mod Tables
pub mod Sqlite
pub mod Query
pub mod TimeText
pub mod Migrate
mod Tests
use langley.Prelude.{ℕ, Bool, List, Option, Bytes, Dict}
use langley.Parser.Json.{Members}
use langley.Task.{Source}

pub record Flow : Type 0 where
  pub id : Bytes
  pub task_id : Option Bytes
  pub task_source : Option Source
  pub host : Bytes
  pub method : Bytes
  pub path : Bytes
  pub url : Bytes
  pub timestamp : ℕ
  pub timestamp_mono : ℕ
  pub duration_ms : Option ℕ
  pub status_code : Option ℕ
  pub status_text : Option Bytes
  pub is_sse : Bool
  pub flow_integrity : Bytes
  pub events_dropped_count : ℕ
  pub request_body : Option Bytes
  pub request_body_truncated : Bool
  pub response_body : Option Bytes
  pub response_body_truncated : Bool
  pub request_headers : Dict (List Bytes)
  pub response_headers : Dict (List Bytes)
  pub request_signature : Option Bytes
  pub input_tokens : Option ℕ
  pub output_tokens : Option ℕ
  pub cache_creation_tokens : Option ℕ
  pub cache_read_tokens : Option ℕ
  pub total_cost : Option ℕ
  pub cost_source : Option Bytes
  pub model : Option Bytes
  pub provider : Bytes
  pub expires_at : Option ℕ

-- Parser.Sse.Event is what the parser fills of it.
pub record Event : Type 0 where
  pub id : Bytes
  pub flow_id : Bytes
  pub sequence : ℕ
  pub timestamp : ℕ
  pub timestamp_mono : ℕ
  pub event_type : Bytes
  pub event_data : Option Members
  pub priority : Bytes
  pub expires_at : Option ℕ

pub record ToolInvocation : Type 0 where
  pub id : Bytes
  pub flow_id : Bytes
  pub task_id : Option Bytes
  pub tool_use_id : Option Bytes
  pub tool_name : Bytes
  pub tool_type : Option Bytes
  pub timestamp : ℕ
  pub duration_ms : Option ℕ
  pub success : Option Bool
  pub error_message : Option Bytes
  pub tool_input : Option Bytes
  pub tool_result : Option Bytes
  pub input_tokens : Option ℕ
  pub output_tokens : Option ℕ
  pub cost : Option ℕ
  pub expires_at : Option ℕ

pub record FlowFilter : Type 0 where
  pub host : Option Bytes
  pub task_id : Option Bytes
  pub task_source : Option Bytes
  pub model : Option Bytes
  pub start_time : Option ℕ
  pub end_time : Option ℕ
  pub limit : ℕ
  pub offset : ℕ

pub record DropLogEntry : Type 0 where
  pub flow_id : Option Bytes
  pub event_type : Option Bytes
  pub priority : Bytes
  pub reason : Bytes
