-- ===== src/Api/Admin.antt =====
-- The handlers of internal/api/api.go for settings, reloading, health and checkpoints. What Save
-- does and what the database's pragmas and counts give are parameters.
pub mod Kept
use langley.Prelude.{
  ℕ, ◌-◌, ◌*◌, ◌+◌, Bool, true, false, not, ◌&&◌, ◌||◌, List, [], ◌∷◌, Option, none, some, Bytes,
  codes, beq, ltb, leb, ◌==◌, if◌then◌else◌, length, take, drop,
}
use langley.Go.Strings.{has_prefix, has_suffix, index, contains, last_index}
use langley.Config.{Config, Machine, load}
use langley.Api.Flows.{ApiReply, http_error, json}

-- the part of Server that the handlers read and write
pub record Server : Type 0 where
  pub cfg : Config
  pub cfg_path : Bytes

-- isLocalhost of a remote address: its host, without brackets and port
unfoldable pub remote_host : Bytes → Bytes
remote_host remote =
    if has_prefix remote (codes "[")
    then elim (index remote (codes "]:")) [
      | some i ↦ drop 1 (take i remote)
      | none ↦
          if has_suffix remote (codes "]") then drop 1 (take (length remote - 1) remote) else remote
    ]
    else if contains remote (codes ":") && not (contains remote (codes "::"))
    then elim (last_index b':' remote) [ some i ↦ take i remote | none ↦ remote ]
    else remote

unfoldable pub is_localhost : Bytes → Bool
unfolding remote_host
is_localhost remote =
    let host = remote_host remote in
    beq host (codes "127.0.0.1") || beq host (codes "localhost") || beq host (codes "::1")

abbrev pub with_token : Server → Bytes → Server
with_token s token = record s { cfg = record s.cfg { auth_token = token } }

-- adminReload: the server, and whether the token has changed
unfoldable pub admin_reload : Machine → Server → Bytes → Server × ApiReply Bool
admin_reload m s remote =
    if not (is_localhost remote)
    then (s, http_error 403 (codes "Admin endpoints are localhost-only"))
    else elim s.cfg_path [
      | [] ↦ (s, http_error 503 (codes "Config path not set - reload not supported"))
      | c ∷ path ↦ elim (load m (c ∷ path)) [
        | none ↦ (s, http_error 500 (codes "Failed to reload config"))
        | some (cfg, saved) ↦
            (with_token s cfg.auth_token, json (not (beq s.cfg.auth_token cfg.auth_token)))
      ]
    ]

-- getSettings and its answer
abbrev pub get_settings : Server → ApiReply ℕ
get_settings s = json s.cfg.idle_gap_minutes

abbrev pub with_idle_gap : Server → ℕ → Server
with_idle_gap s n = record s { cfg = record s.cfg { idle_gap_minutes = n } }

-- Save after the change
unfoldable pub save_settings : (Bytes → Config → Bool) → Server → Server × ApiReply ℕ
save_settings saves s =
    if saves s.cfg_path s.cfg
    then (s, json s.cfg.idle_gap_minutes)
    else (s, http_error 500 (codes "Failed to save config"))

-- updateSettings; the request is what the decoder gives of the body, an error or the field
unfoldable pub update_settings :
    (Bytes → Config → Bool) → Server → Option (Option ℕ) → Server × ApiReply ℕ
update_settings saves s request = elim s.cfg_path [
  | [] ↦ (s, http_error 503 (codes "Config path not set - settings update not supported"))
  | c ∷ path ↦ elim request [
    | none ↦ (s, http_error 400 (codes "Invalid JSON"))
    | some none ↦ save_settings saves s
    | some (some n) ↦
        if ltb n 1 || ltb 60 n
        then (s, http_error 400 (codes "idle_gap_minutes must be between 1 and 60"))
        else save_settings saves (with_idle_gap s n)
  ]
]

-- what the database tells: the pages of the log, `none` if the pragma fails, and the counts
pub record DatabaseMetrics : Type 0 where
  pub wal : Option (ℕ × ℕ)
  pub drop_count : ℕ
  pub active_flows : ℕ
  pub total_flows : ℕ
  pub page_count : ℕ
  pub page_size : ℕ

pub record HealthResponse : Type 0 where
  pub status : Bytes
  pub wal_size_bytes : ℕ
  pub wal_checkpointed : ℕ
  pub drops_last24h : ℕ
  pub active_flows : ℕ
  pub total_flows : ℕ
  pub db_size_bytes : ℕ
  pub warning : Bytes

abbrev pub healthy : HealthResponse
healthy = record {
  status = codes "ok";
  wal_size_bytes = 0;
  wal_checkpointed = 0;
  drops_last24h = 0;
  active_flows = 0;
  total_flows = 0;
  db_size_bytes = 0;
  warning = [];
}

abbrev pub measured : Option DatabaseMetrics → HealthResponse
measured none = healthy
measured (some d) = record healthy {
  wal_size_bytes = elim d.wal [ none ↦ 0 | some (pages, checkpointed) ↦ pages * 4096 ];
  wal_checkpointed = elim d.wal [ none ↦ 0 | some (pages, checkpointed) ↦ checkpointed * 4096 ];
  drops_last24h = d.drop_count;
  active_flows = d.active_flows;
  total_flows = d.total_flows;
  db_size_bytes = d.page_count * d.page_size;
}

abbrev pub degraded : Bytes → HealthResponse → HealthResponse
degraded warning h = record h { status = codes "degraded"; warning = warning }

-- healthCheck, without its times; no database gives no metrics
unfoldable pub health_check : Option DatabaseMetrics → HealthResponse
health_check d =
    let health = measured d in
    let dropping =
      if ltb 100 health.drops_last24h
      then degraded (codes "High drop rate in last 24h") health
      else health in
    if ltb (100 * 1024 * 1024) dropping.wal_size_bytes
    then degraded (codes "Large WAL file - consider checkpoint") dropping
    else dropping

pub record CheckpointResponse : Type 0 where
  pub success : Bool
  pub message : Bytes
  pub wal_size_before : ℕ
  pub wal_size_after : ℕ
  pub pages_log : ℕ
  pub pages_checkpointed : ℕ
  pub blocked : Bool

-- what the pragma TRUNCATE gives: whether it was blocked, and its pages
pub record Truncated : Type 0 where
  pub blocked : ℕ
  pub pages_log : ℕ
  pub pages_checkpointed : ℕ

-- checkpoint; the log's pages before and after are 0 where their pragma fails
unfoldable pub checkpoint : Bool → ℕ → Option Truncated → ℕ → ApiReply CheckpointResponse
checkpoint has_db before truncated after =
    if not has_db then http_error 503 (codes "Database unavailable") else elim truncated [
      | none ↦ http_error 500 (codes "Checkpoint failed")
      | some t ↦ json (record {
        success = t.blocked == 0;
        message =
            if t.blocked == 1
            then codes "Checkpoint was blocked by active readers"
            else codes "Checkpoint completed successfully";
        wal_size_before = before * 4096;
        wal_size_after = after * 4096;
        pages_log = t.pages_log;
        pages_checkpointed = t.pages_checkpointed;
        blocked = t.blocked == 1;
      })
    ]
