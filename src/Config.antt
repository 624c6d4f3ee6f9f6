-- ===== src/Config.antt =====
-- internal/config/config.go. Reading and writing files, the environment, YAML and random bytes are
-- parameters. Numbers of a configuration are not negative.
pub mod Token
mod Tests
use langley.Prelude.{
  ℕ, ◌*◌, ◌/◌, ◌%◌, ◌+◌, Bool, true, false, ◌&&◌, List, [], ◌∷◌, ◌++◌, Option, none, some, ◌>>=◌,
  Bytes, codes, beq, is_empty, ltb, ◌==◌, if◌then◌else◌, length, get_or,
}
use langley.Go.Strings.{
  hex_digits, to_lower, trim, trim_space, split_on, has_prefix, has_suffix, trim_suffix, join,
  decimal,
}

pub record ProxyConfig : Type 0 where
  pub listen : Bytes
  pub host : Bytes
  pub port : ℕ
  pub intercept_hosts : List Bytes

pub record MemoryConfig : Type 0 where
  pub max_flows : ℕ
  pub max_events_per_flow : ℕ

pub record PersistenceConfig : Type 0 where
  pub db_path : Bytes
  pub body_max_bytes : ℕ
  pub event_batch_size : ℕ
  pub event_batch_timeout_ms : ℕ
  pub queue_max_size : ℕ

pub record AnalyticsConfig : Type 0 where
  pub anomaly_context_tokens : ℕ
  pub anomaly_tool_delay_ms : ℕ
  pub anomaly_rapid_calls_window_s : ℕ
  pub anomaly_rapid_calls_threshold : ℕ

pub record RetentionConfig : Type 0 where
  pub flows_ttl_days : ℕ
  pub events_ttl_days : ℕ
  pub bodies_ttl_days : ℕ
  pub drop_log_ttl_days : ℕ

pub record RedactionConfig : Type 0 where
  pub always_redact_headers : List Bytes
  pub pattern_redact_headers : List Bytes
  pub redact_api_keys : Bool
  pub redact_base64_images : Bool
  pub disable_body_storage : Bool

-- the configuration; auth.token and task.idle_gap_minutes are the only fields of their structs
pub record Config : Type 0 where
  pub proxy : ProxyConfig
  pub memory : MemoryConfig
  pub persistence : PersistenceConfig
  pub analytics : AnalyticsConfig
  pub retention : RetentionConfig
  pub redaction : RedactionConfig
  pub auth_token : Bytes
  pub idle_gap_minutes : ℕ

abbrev pub default_config : Config
default_config = record {
  proxy = record { listen = codes "localhost:9090"; host = []; port = 0; intercept_hosts = [] };
  memory = record { max_flows = 1000; max_events_per_flow = 500 };
  persistence = record {
    db_path = [];
    body_max_bytes = 1048576;
    event_batch_size = 50;
    event_batch_timeout_ms = 1000;
    queue_max_size = 10000;
  };
  analytics = record {
    anomaly_context_tokens = 100000;
    anomaly_tool_delay_ms = 30000;
    anomaly_rapid_calls_window_s = 10;
    anomaly_rapid_calls_threshold = 5;
  };
  retention = record {
    flows_ttl_days = 30;
    events_ttl_days = 7;
    bodies_ttl_days = 3;
    drop_log_ttl_days = 7;
  };
  redaction = record {
    always_redact_headers =
        codes "authorization"
        ∷ codes "x-api-key"
        ∷ codes "api-key"
        ∷ codes "x-amz-security-token"
        ∷ codes "cookie"
        ∷ codes "set-cookie"
        ∷ [];
    pattern_redact_headers = codes "^x-.*-token$" ∷ codes "^x-.*-key$" ∷ [];
    redact_api_keys = true;
    redact_base64_images = true;
    disable_body_storage = false;
  };
  auth_token = [];
  idle_gap_minutes = 5;
}

-- ListenAddr
unfoldable pub listen_addr : ProxyConfig → Bytes
listen_addr c = elim c.listen [
  | b ∷ listen ↦ b ∷ listen
  | [] ↦
      (if is_empty c.host then codes "localhost" else c.host)
      ++ b':' ∷ decimal (if c.port == 0 then 9090 else c.port)
]

-- a header name is one of the names, but for its case
unfoldable pub is_listed : Bytes → List Bytes → Bool
is_listed name_lower [] = false
is_listed name_lower (h ∷ hs) =
    if beq (to_lower h) name_lower then true else is_listed name_lower hs

-- a pattern x-…-token or x-…-key, taken as a prefix and a suffix
unfoldable pub matches_simple : Bytes → Bytes → Bytes → Bool
matches_simple name_lower pattern suffix =
    has_prefix pattern (codes "x-")
    && has_suffix pattern suffix
    && (has_prefix name_lower (trim_suffix pattern suffix) && has_suffix name_lower suffix)

unfoldable pub matches_any : Bytes → List Bytes → Bool
unfolding matches_simple
matches_any name_lower [] = false
matches_any name_lower (p ∷ ps) =
    let pattern = trim (codes "^$") (to_lower p) in
    if matches_simple name_lower pattern (codes "-token")
    then true
    else if matches_simple name_lower pattern (codes "-key")
    then true
    else matches_any name_lower ps

unfoldable pub header_should_redact : RedactionConfig → Bytes → Bool
header_should_redact c name =
    if is_listed (to_lower name) c.always_redact_headers
    then true
    else matches_any (to_lower name) c.pattern_redact_headers

-- a list of hosts, separated by commas
unfoldable pub host_list : List Bytes → List Bytes
host_list [] = []
host_list (h ∷ hs) =
    let rest = host_list hs in if is_empty (trim_space h) then rest else trim_space h ∷ rest

-- os.Getenv is a function; an unset variable is empty
unfoldable pub override_text : Bytes → Bytes → Bytes
override_text [] old = old
override_text (c ∷ v) old = c ∷ v

unfoldable pub override_hosts : Bytes → List Bytes → List Bytes
unfolding host_list
override_hosts [] old = old
override_hosts (c ∷ v) old = elim (host_list (split_on b',' (c ∷ v))) [ [] ↦ old | h ∷ hs ↦ h ∷ hs ]

unfoldable pub apply_env_overrides : (Bytes → Bytes) → Config → Config
unfolding override_text override_hosts
apply_env_overrides env c = record c {
  proxy = record c.proxy {
    listen = override_text (env (codes "LANGLEY_LISTEN")) c.proxy.listen;
    intercept_hosts =
        override_hosts (env (codes "LANGLEY_INTERCEPT_HOSTS")) c.proxy.intercept_hosts;
  };
  persistence = record c.persistence {
    db_path = override_text (env (codes "LANGLEY_DB_PATH")) c.persistence.db_path;
  };
  auth_token = override_text (env (codes "LANGLEY_AUTH_TOKEN")) c.auth_token;
}

-- hex.EncodeToString
unfoldable pub encode_hex : Bytes → Bytes
encode_hex [] = []
encode_hex (b ∷ bs) = get_or hex_digits (b / 16) 0 ∷ get_or hex_digits (b % 16) 0 ∷ encode_hex bs

-- GenerateToken, from what rand.Read gives
unfoldable pub generate_token : Option Bytes → Option Bytes
generate_token none = none
generate_token (some bytes) = some (codes "langley_" ++ encode_hex bytes)

-- what os.ReadFile gives
pub data FileRead : Type 0 where
  missing failed : FileRead
  contents : Bytes → FileRead

-- the machine: os.Getenv, the default paths (an error is `none`), the files, yaml.Unmarshal over a
-- configuration, rand.Read, and whether Save succeeds
pub record Machine : Type 0 where
  pub env : Bytes → Bytes
  pub default_db_path : Option Bytes
  pub default_config_path : Option Bytes
  pub read_file : Bytes → FileRead
  pub parse_yaml : Bytes → Config → Option Config
  pub random : Option Bytes
  pub saves : Bytes → Config → Bool

-- a configuration, and the path and the contents of the file that was saved
abbrev pub Loaded : Type 0
Loaded = Config × Option (Bytes × Config)

-- the configuration with a token, saved
unfoldable pub save_token : Machine → Bytes → Config → Bytes → Option Loaded
save_token m path cfg token =
    let with_token : Config = record cfg { auth_token = token } in
    if m.saves path with_token then some (with_token, some (path, with_token)) else none

-- a token is generated and saved if there is none
unfoldable pub ensure_token : Machine → Bytes → Config → Option Loaded
unfolding save_token
ensure_token m path cfg = elim cfg.auth_token [
  | c ∷ token ↦ some (cfg, none)
  | [] ↦ generate_token m.random >>= save_token m path cfg
]

unfoldable pub load_file : Machine → Bytes → Config → Option Loaded
unfolding ensure_token
load_file m path cfg = elim (m.read_file path) [
  | missing ↦ ensure_token m path cfg
  | failed ↦ none
  | contents text ↦ do
    parsed ← m.parse_yaml text cfg
    ensure_token m path (apply_env_overrides m.env parsed)
]

unfoldable pub config_path : Machine → Bytes → Option Bytes
config_path m [] = m.default_config_path
config_path m (c ∷ path) = some (c ∷ path)

-- the default configuration, with the platform's database path
abbrev pub with_db_path : Bytes → Config
with_db_path db_path = record default_config {
  persistence = record default_config.persistence { db_path = db_path };
}

-- Load; `none` is an error
unfoldable pub load : Machine → Bytes → Option Loaded
unfolding load_file config_path
load m path = do
  db_path ← m.default_db_path
  used ← config_path m path
  load_file m used (with_db_path db_path)
