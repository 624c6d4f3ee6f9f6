-- ===== src/Config/Tests.antt =====
-- Configurations of internal/config/config.go.
use langley.Prelude.{◌≡◌, refl, [], ◌∷◌, some, codes, true}
use langley.Config.{Machine, missing, load, config_path, listen_addr, default_config}
use langley.Config.Token.{HasToken, load-HasToken}

-- a first run: no file, and LANGLEY_LISTEN set
abbrev first_run : Machine
first_run = record {
  env = λ variable. codes "localhost:7777";
  default_db_path = some (codes "/data/langley.db");
  default_config_path = some (codes "/etc/langley.yaml");
  read_file = λ path. missing;
  parse_yaml = λ text cfg. some cfg;
  random = some (171 ∷ 5 ∷ []);
  saves = λ path cfg. true;
}

-- the default address
default_listen_addr : listen_addr default_config.proxy ≡ codes "localhost:9090"
unfolding listen_addr
default_listen_addr = refl

load-HasToken_example : HasToken (load first_run [])
load-HasToken_example = load-HasToken first_run []

first_run_path : config_path first_run [] ≡ some (codes "/etc/langley.yaml")
unfolding config_path
first_run_path = refl
