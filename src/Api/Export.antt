-- ===== src/Api/Export.antt =====
-- internal/api/export.go and exportFlows of internal/api/api.go. The store's pages, the times and
-- the printing of a cost are parameters; what is encoded as JSON or CSV is kept as rows.
pub mod Rows
pub mod Pages
pub mod Stored
use langley.Prelude.{
  ℕ, zero, suc, ◌+◌, ◌*◌, Bool, true, false, not, ◌&&◌, ◌||◌, List, [], ◌∷◌, ◌++◌, Option, none,
  some, Bytes, codes, beq, Dict, ltb, leb, if◌then◌else◌, length,
}
use langley.Go.Strings.{atoi, decimal}
use langley.Task.{Source, explicit, metadata, inferred}
use langley.Store.{Flow, FlowFilter}
use langley.Api.Views.{ExportFlowSummary, to_export_flow_summary}

pub data ExportFormat : Type 0 where
  ndjson json csv : ExportFormat

abbrev pub max_csv_rows : ℕ
max_csv_rows = 10000

abbrev pub max_json_rows : ℕ
max_json_rows = 10000

pub record ExportFlowFull : Type 0 where
  pub summary : ExportFlowSummary
  pub request_body : Option Bytes
  pub request_body_truncated : Bool
  pub response_body : Option Bytes
  pub response_body_truncated : Bool
  pub request_headers : Dict (List Bytes)
  pub response_headers : Dict (List Bytes)

pub record ExportConfig : Type 0 where
  pub format : ExportFormat
  pub include_bodies : Bool
  pub max_rows : ℕ

-- the format that is asked for, with its limit on rows; 0 is no limit
abbrev pub format_config : Bytes → ExportConfig
format_config v =
    if beq v (codes "json")
    then record { format = json; include_bodies = false; max_rows = max_json_rows }
    else if beq v (codes "csv")
    then record { format = csv; include_bodies = false; max_rows = max_csv_rows }
    else record { format = ndjson; include_bodies = false; max_rows = 0 }

-- a positive number replaces the limit
abbrev pub max_rows_or : Bytes → ℕ → ℕ
max_rows_or v default = elim (atoi v) [
  | none ↦ default
  | some (negative, n) ↦ if not negative && ltb 0 n then n else default
]

unfoldable pub parse_export_config : (Bytes → Bytes) → ExportConfig
unfolding atoi
parse_export_config query =
    let cfg : ExportConfig = format_config (query (codes "format")) in
    record cfg {
      include_bodies = beq (query (codes "include_bodies")) (codes "true");
      max_rows = max_rows_or (query (codes "max_rows")) cfg.max_rows;
    }

-- ContentType and FileExtension of the exporters
unfoldable pub content_type : ExportFormat → Bytes
content_type ndjson = codes "application/x-ndjson"
content_type json = codes "application/json"
content_type csv = codes "text/csv"

unfoldable pub file_extension : ExportFormat → Bytes
file_extension ndjson = codes "ndjson"
file_extension json = codes "json"
file_extension csv = codes "csv"

abbrev pub csv_columns : List Bytes
csv_columns =
    codes "id"
    ∷ codes "timestamp"
    ∷ codes "host"
    ∷ codes "method"
    ∷ codes "path"
    ∷ codes "status_code"
    ∷ codes "duration_ms"
    ∷ codes "is_sse"
    ∷ codes "task_id"
    ∷ codes "task_source"
    ∷ codes "model"
    ∷ codes "provider"
    ∷ codes "input_tokens"
    ∷ codes "output_tokens"
    ∷ codes "total_cost"
    ∷ codes "flow_integrity"
    ∷ []

unfoldable pub ptr_to_str : Option ℕ → Bytes
ptr_to_str none = []
ptr_to_str (some n) = decimal n

unfoldable pub ptr_str : Option Bytes → Bytes
ptr_str none = []
ptr_str (some s) = s

abbrev pub format_bool : Bool → Bytes
format_bool true = codes "true"
format_bool false = codes "false"

-- the text of a task's source
abbrev pub source_text : Option Source → Option Bytes
source_text none = none
source_text (some explicit) = some (codes "explicit")
source_text (some metadata) = some (codes "metadata")
source_text (some inferred) = some (codes "inferred")

-- what is written for a flow
pub data Row : Type 0 where
  summary : ExportFlowSummary → Row
  full : ExportFlowFull → Row
  fields : List Bytes → Row

module _ (format_time : ℕ → Bytes) (format_cost : ℕ → Bytes) where
  unfoldable pub to_export_flow_full : Flow → ExportFlowFull
  to_export_flow_full f = record {
    summary = to_export_flow_summary format_time f;
    request_body = f.request_body;
    request_body_truncated = f.request_body_truncated;
    response_body = f.response_body;
    response_body_truncated = f.response_body_truncated;
    request_headers = f.request_headers;
    response_headers = f.response_headers;
  }

  abbrev pub ptr_cost_to_str : Option ℕ → Bytes
  ptr_cost_to_str none = []
  ptr_cost_to_str (some cost) = format_cost cost

  unfoldable pub csv_record : Flow → List Bytes
  unfolding ptr_to_str ptr_str
  csv_record f =
      f.id
      ∷ format_time f.timestamp
      ∷ f.host
      ∷ f.method
      ∷ f.path
      ∷ ptr_to_str f.status_code
      ∷ ptr_to_str f.duration_ms
      ∷ format_bool f.is_sse
      ∷ ptr_str f.task_id
      ∷ ptr_str (source_text f.task_source)
      ∷ ptr_str f.model
      ∷ f.provider
      ∷ ptr_to_str f.input_tokens
      ∷ ptr_to_str f.output_tokens
      ∷ ptr_cost_to_str f.total_cost
      ∷ f.flow_integrity
      ∷ []

  -- WriteFlow of the exporters; CSV has no bodies
  unfoldable pub row_of : ExportConfig → Flow → Row
  unfolding to_export_flow_full csv_record
  row_of cfg f = elim cfg.format [
    | csv ↦ fields (csv_record f)
    | other ↦
        if cfg.include_bodies
        then full (to_export_flow_full f)
        else summary (to_export_flow_summary format_time f)
  ]
