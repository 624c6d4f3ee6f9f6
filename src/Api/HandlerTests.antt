-- ===== src/Api/HandlerTests.antt =====
-- Requests to the handlers of internal/api.
use langley.Prelude.{
  ℕ, ◌≡◌, ◌≢◌, ◌↔◌, refl, Bool, true, false, List, [], ◌∷◌, ◌++◌, map, Option, none, some, Bytes,
  codes, lookup, beq, beq_ne, take, drop, arith,
}
use mathlib.Core.List.Perm
use langley.Store.Tables.{FlowRow, Codec, Database}
use langley.Store.Sqlite.{flow_row}
use langley.Store.Sqlite.Calls.{empty_tables}
use langley.Store.Query.{list_flows, count_flows, count_conditions, matching, meets_all}
use langley.Store.Query.Paged.{listed}
use langley.Api.Export.Stored.{export_flows-listed}
use langley.Go.Strings.{is_one_of}
use langley.Config.{Machine, missing, default_config}
use langley.Store.{Flow, FlowFilter}
use langley.Proxy.Headers.{get, canonical, is_token, recase}
use langley.Api.Access.{WebRequest, serves, auth_middleware}
use langley.Api.Access.Served.{IsServed, MayEnter, auth_middleware_iff, auth_middleware-gives_token}
use langley.Api.Flows.{filter_of}
use langley.Api.Export.{ExportConfig, json, Row, row_of, parse_export_config}
use langley.Api.Export.Rows.{Exported, export_flows}
use langley.Api.Export.Pages.{within}
use langley.Api.Admin.{Server, admin_reload}
use langley.Api.Admin.Kept.{admin_reload-HasToken}

-- a page of another site whose origin begins like a local one
abbrev foreign_request : WebRequest
foreign_request = record {
  method = codes "GET";
  query = λ key. [];
  cookie = none;
  header = (codes "Origin", codes "http://localhost.example.com" ∷ []) ∷ [];
  remote_addr = codes "127.0.0.1:5000";
}

abbrev token : Bytes
token = codes "langley_00ff"

foreign_origin :
    get foreign_request.header (codes "Origin") ≡ codes "http://localhost" ++ codes ".example.com"
unfolding get canonical is_token recase is_one_of lookup beq
foreign_origin = refl

no_authorization : get foreign_request.header (codes "Authorization") ≡ []
unfolding get canonical is_token recase is_one_of lookup beq
no_authorization = refl

no_bearer : get foreign_request.header (codes "Authorization") ≢ codes "Bearer " ++ token
no_bearer = λ e. cc (e, no_authorization)

auth_middleware_iff_example :
    IsServed (auth_middleware token foreign_request) ↔ MayEnter token foreign_request
auth_middleware_iff_example = auth_middleware_iff token foreign_request

auth_middleware-gives_token_example : auth_middleware token foreign_request ≡ serves (some token)
auth_middleware-gives_token_example =
    auth_middleware-gives_token token foreign_request (codes ".example.com") refl refl
      (beq_ne _ _ no_bearer) foreign_origin

-- a flow, and a store of two of it
abbrev one_flow : Flow
one_flow = record {
  id = codes "f1";
  task_id = none;
  task_source = none;
  host = codes "api.openai.com";
  method = codes "POST";
  path = codes "/v1";
  url = codes "https://api.openai.com/v1";
  timestamp = 7;
  timestamp_mono = 7;
  duration_ms = none;
  status_code = some 200;
  status_text = none;
  is_sse = false;
  flow_integrity = codes "complete";
  events_dropped_count = 0;
  request_body = none;
  request_body_truncated = false;
  response_body = none;
  response_body_truncated = false;
  request_headers = [];
  response_headers = [];
  request_signature = none;
  input_tokens = none;
  output_tokens = none;
  cache_creation_tokens = none;
  cache_read_tokens = none;
  total_cost = none;
  cost_source = none;
  model = none;
  provider = codes "openai";
  expires_at = none;
}

abbrev two_flows : List Flow
two_flows = one_flow ∷ one_flow ∷ []

abbrev two_flows_store : FlowFilter → Option (List Flow)
two_flows_store filter = some (take filter.limit (drop filter.offset two_flows))

-- JSON, of one row
abbrev one_row : ExportConfig
one_row = record { format = json; include_bodies = true; max_rows = 1 }

abbrev every_flow : FlowFilter
every_flow = record {
  host = none;
  task_id = none;
  task_source = none;
  model = none;
  start_time = none;
  end_time = none;
  limit = 100;
  offset = 0;
}

abbrev as_text : ℕ → Bytes
as_text n = n ∷ []

abbrev never : Row → Bool
never row = false

abbrev server : Server
server = record {
  cfg = record default_config { auth_token = token };
  cfg_path = codes "/etc/langley.yaml";
}

abbrev machine : Machine
machine = record {
  env = λ variable. [];
  default_db_path = some (codes "/data/langley.db");
  default_config_path = some (codes "/etc/langley.yaml");
  read_file = λ path. missing;
  parse_yaml = λ text cfg. some cfg;
  random = some (171 ∷ []);
  saves = λ path cfg. true;
}

admin_reload-HasToken_example :
    (admin_reload machine server (codes "127.0.0.1:5000")).0.cfg.auth_token ≢ []
admin_reload-HasToken_example =
    admin_reload-HasToken machine server (codes "127.0.0.1:5000") (λ e. cc e)

-- times as one number, no headers
abbrev codec : Codec
codec = record {
  format_time = λ t. t ∷ [];
  parse_time = λ s. 0;
  marshal_headers = λ h. codes "null";
  unmarshal_headers = λ s. [];
  marshal_data = λ m. codes "null";
  unmarshal_data = λ s. none;
  elapsed_ms = λ s t. none;
}

abbrev stored_flows : Database
stored_flows = record empty_tables { flows = map (flow_row codec (codes "now")) two_flows }

abbrev as_stored : List FlowRow → List FlowRow
as_stored rows = rows

abbrev no_time : Bytes → Option ℕ
no_time s = none

abbrev plain_query : Bytes → Bytes
plain_query key = []

two_stored : count_flows codec (filter_of no_time plain_query 100 0) stored_flows ≡ 2
unfolding count_flows count_conditions matching meets_all filter_of
two_stored = refl

export_flows-listed_example :
    (e : Exported) × ((export_flows no_time as_text as_text never 3
          (λ filter. list_flows codec as_stored filter stored_flows)
          plain_query
        ≡ some e)
      × (e.rows
          ≡ map (row_of as_text as_text (parse_export_config plain_query)) (
              within
                (parse_export_config plain_query).max_rows
                0
                (listed codec as_stored (filter_of no_time plain_query 100 0) stored_flows))))
export_flows-listed_example =
    export_flows-listed codec as_stored stored_flows no_time as_text as_text never 3 plain_query
      (λ rows. Perm.refl rows) (λ row. refl) (rw two_stored (omega arith))
