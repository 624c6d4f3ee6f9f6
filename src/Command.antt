-- ===== src/Command.antt =====
-- cmd/langley/run.go and state.go: a command that is run with the environment of the proxy. The
-- state file, the health check, the files, the parent's environment and strings.ToUpper are parameters;
-- what is printed is left out. The walk over a map is in the order of its list.
pub mod Environment
mod Tests
use langley.Prelude.{
  ℕ, Bool, true, false, not, ◌||◌, List, [], ◌∷◌, ◌++◌, Option, none, some, Bytes, codes, beq,
  is_empty, Dict, if◌then◌else◌,
}
use langley.Go.Strings.{cut}
use langley.Config.{FileRead, missing, failed, contents}

pub record ServerState : Type 0 where
  pub proxy_addr : Bytes
  pub api_addr : Bytes
  pub ca_path : Bytes
  pub pid : ℕ
  pub started_at : ℕ

-- the result of FileStateStore.Read: any error but ErrServerNotRunning is unreadable
pub data StateRead : Type 0 where
  not_running unreadable : StateRead
  running : ServerState → StateRead

-- a state without its addresses is an error too
abbrev pub checked_state : ServerState → StateRead
checked_state s = if is_empty s.proxy_addr || is_empty s.api_addr then unreadable else running s

unfoldable pub read_state : (Bytes → Option ServerState) → FileRead → StateRead
read_state unmarshal missing = not_running
read_state unmarshal failed = unreadable
read_state unmarshal (contents text) = elim (unmarshal text) [
  | none ↦ unreadable
  | some s ↦ checked_state s
]

-- the variables that the environment gets
abbrev pub overrides : Bytes → Bytes → Dict Bytes
overrides proxy_addr ca_path =
    (codes "HTTPS_PROXY", codes "http://" ++ proxy_addr)
    ∷ (codes "https_proxy", codes "http://" ++ proxy_addr)
    ∷ (codes "HTTP_PROXY", codes "http://" ++ proxy_addr)
    ∷ (codes "http_proxy", codes "http://" ++ proxy_addr)
    ∷ (codes "NODE_EXTRA_CA_CERTS", ca_path)
    ∷ (codes "SSL_CERT_FILE", ca_path)
    ∷ (codes "REQUESTS_CA_BUNDLE", ca_path)
    ∷ []

-- the key of an entry: the text before its first `=`
unfoldable pub key_of : Bytes → Bytes
key_of entry = elim (cut b'=' entry) [ none ↦ entry | some p ↦ p.0 ]

-- the loop over the overrides
unfoldable pub override_entries : Dict Bytes → List Bytes
override_entries [] = []
override_entries ((k, v) ∷ vars) = (k ++ b'=' ∷ v) ∷ override_entries vars

-- what RunCommand.Execute asks of its machine
pub record RunCommand : Type 0 where
  pub state : StateRead
  pub healthy : Bytes → Bool
  pub exists : Bytes → Bool
  pub environ : List Bytes
  pub run_process : Bytes → List Bytes → List Bytes → ℕ

module _ (to_upper : Bytes → Bytes) where
  -- a name is one of the keys, but for its case
  unfoldable pub is_key : Bytes → Dict Bytes → Bool
  is_key name [] = false
  is_key name ((k, v) ∷ vars) = if beq (to_upper k) (to_upper name) then true else is_key name vars

  unfoldable pub is_override : Bytes → Bytes → Bytes → Bool
  unfolding key_of is_key
  is_override proxy_addr ca_path entry = is_key (key_of entry) (overrides proxy_addr ca_path)

  -- the loop over the parent's entries
  unfoldable pub keep_others : Bytes → Bytes → List Bytes → List Bytes
  keep_others proxy_addr ca_path [] = []
  keep_others proxy_addr ca_path (entry ∷ entries) =
      let rest = keep_others proxy_addr ca_path entries in
      if not (is_override proxy_addr ca_path entry) then entry ∷ rest else rest

  -- ProxyEnvBuilder.Build, of the parent's environment
  unfoldable pub build : List Bytes → Bytes → Bytes → List Bytes
  build environ proxy_addr ca_path =
      keep_others proxy_addr ca_path environ ++ override_entries (overrides proxy_addr ca_path)

  -- Execute: the exit code, and the environment of the command if it is run
  unfoldable pub execute : RunCommand → List Bytes → ℕ × Option (List Bytes)
  unfolding build
  execute r [] = (1, none)
  execute r (command ∷ args) = elim r.state [
    | not_running ↦ (1, none)
    | unreadable ↦ (1, none)
    | running s ↦
        if not (r.healthy s.api_addr)
        then (1, none)
        else if not (r.exists s.ca_path)
        then (1, none)
        else (
          r.run_process command args (build r.environ s.proxy_addr s.ca_path),
          some (build r.environ s.proxy_addr s.ca_path),
        )
  ]
