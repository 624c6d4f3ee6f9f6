-- ===== src/Store/Tables.antt =====
-- The tables of internal/store/sqlite.go: the columns of the schema that the code writes or reads, with
-- the constraints of its CREATE TABLE statements. A column that may be NULL is an Option; a table is
-- the list of its rows in the order of their insertion. A cost is as in Store.
use langley.Prelude.{
  ℕ, Bool, true, false, ◌&&◌, ◌||◌, List, [], ◌∷◌, Option, none, some, Bytes, codes, beq, ltb,
  if◌then◌else◌, Dict,
}
use langley.Parser.Json.{Members}

pub record FlowRow : Type 0 where
  pub id : Bytes
  pub task_id : Option Bytes
  pub task_source : Option Bytes
  pub host : Bytes
  pub method : Bytes
  pub path : Bytes
  pub url : Bytes
  pub timestamp : Bytes
  pub timestamp_mono : Option ℕ
  pub duration_ms : Option ℕ
  pub status_code : Option ℕ
  pub status_text : Option Bytes
  pub is_sse : Bool
  pub flow_integrity : Bytes
  pub events_dropped_count : ℕ
  pub request_body : Option Bytes
  pub request_body_truncated : Bool
  pub response_body : Option Bytes
  pub response_body_truncated : Bool
  pub request_headers : Option Bytes
  pub response_headers : Option Bytes
  pub request_signature : Option Bytes
  pub input_tokens : Option ℕ
  pub output_tokens : Option ℕ
  pub cache_creation_tokens : Option ℕ
  pub cache_read_tokens : Option ℕ
  pub total_cost : Option ℕ
  pub cost_source : Option Bytes
  pub model : Option Bytes
  pub provider : Bytes
  pub created_at : Bytes
  pub expires_at : Option Bytes

pub record EventRow : Type 0 where
  pub id : Bytes
  pub flow_id : Bytes
  pub sequence : ℕ
  pub timestamp : Bytes
  pub timestamp_mono : ℕ
  pub event_type : Bytes
  pub event_data : Option Bytes
  pub priority : Bytes
  pub created_at : Bytes
  pub expires_at : Option Bytes

pub record ToolRow : Type 0 where
  pub id : Bytes
  pub flow_id : Bytes
  pub task_id : Option Bytes
  pub tool_use_id : Option Bytes
  pub tool_name : Bytes
  pub tool_type : Option Bytes
  pub timestamp : Bytes
  pub duration_ms : Option ℕ
  pub success : Option Bool
  pub error_message : Option Bytes
  pub tool_input : Option Bytes
  pub tool_result : Option Bytes
  pub input_tokens : Option ℕ
  pub output_tokens : Option ℕ
  pub cost : Option ℕ
  pub created_at : Bytes
  pub expires_at : Option Bytes

pub record DropRow : Type 0 where
  pub flow_id : Option Bytes
  pub event_type : Option Bytes
  pub priority : Bytes
  pub reason : Bytes
  pub timestamp : Bytes

pub record Database : Type 0 where
  pub flows : List FlowRow
  pub events : List EventRow
  pub tool_invocations : List ToolRow
  pub drop_log : List DropRow

-- what encoding/json, the package time and SQLite's julianday give. An error of Unmarshal or Parse is
-- ignored by the code, so these are total.
pub record Codec : Type 0 where
  pub format_time : ℕ → Bytes
  pub parse_time : Bytes → ℕ
  pub marshal_headers : Dict (List Bytes) → Bytes
  pub unmarshal_headers : Bytes → Dict (List Bytes)
  pub marshal_data : Option Members → Bytes
  pub unmarshal_data : Bytes → Option Members
  pub elapsed_ms : Bytes → Bytes → Option ℕ

-- a list of texts of an IN
unfoldable pub is_in : Bytes → List Bytes → Bool
is_in x [] = false
is_in x (y ∷ ys) = beq x y || is_in x ys

abbrev pub is_in_or_null : Option Bytes → List Bytes → Bool
is_in_or_null none ys = true
is_in_or_null (some x) ys = is_in x ys

abbrev pub task_sources : List Bytes
task_sources = codes "explicit" ∷ codes "metadata" ∷ codes "inferred" ∷ []

abbrev pub integrities : List Bytes
integrities = codes "complete" ∷ codes "partial" ∷ codes "corrupted" ∷ codes "interrupted" ∷ []

abbrev pub cost_sources : List Bytes
cost_sources = codes "exact" ∷ codes "estimated" ∷ []

abbrev pub providers : List Bytes
providers =
    codes "anthropic" ∷ codes "openai" ∷ codes "bedrock" ∷ codes "gemini" ∷ codes "other" ∷ []

abbrev pub priorities : List Bytes
priorities = codes "high" ∷ codes "medium" ∷ codes "low" ∷ []

-- the CHECK constraints of flows
unfoldable pub flow_checks : FlowRow → Bool
unfolding is_in
flow_checks r =
    is_in_or_null r.task_source task_sources
    && is_in r.flow_integrity integrities
    && is_in_or_null r.cost_source cost_sources
    && is_in r.provider providers

-- the columns that are keys
module _ {ℓ} {R : Type ℓ} (key : R → Bytes) where
  unfoldable pub has_key : Bytes → List R → Bool
  has_key k [] = false
  has_key k (r ∷ rs) = beq (key r) k || has_key k rs

  -- the row of a key, for a SELECT of one row
  unfoldable pub find_key : Bytes → List R → Option R
  find_key k [] = none
  find_key k (r ∷ rs) = if beq (key r) k then some r else find_key k rs

  -- the rows that stay when those of some keys are deleted
  unfoldable pub delete_keys : List Bytes → List R → List R
  unfolding is_in
  delete_keys ks [] = []
  delete_keys ks (r ∷ rs) =
      let rest = delete_keys ks rs in if is_in (key r) ks then rest else r ∷ rest

-- SQLite's order of texts, by bytes
unfoldable pub text_lt : Bytes → Bytes → Bool
text_lt xs [] = false
text_lt [] (y ∷ ys) = true
text_lt (x ∷ xs) (y ∷ ys) = if ltb x y then true else if ltb y x then false else text_lt xs ys

-- x < y in a WHERE, which NULL does not meet
abbrev pub before_text : Option Bytes → Bytes → Bool
before_text none y = false
before_text (some x) y = text_lt x y
