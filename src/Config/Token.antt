-- ===== src/Config/Token.antt =====
-- What internal/config/config.go makes of the token and of the environment.
use langley.Prelude.{
  ◌≡◌, ◌≢◌, refl, sym, ◌∙◌, [], ◌∷◌, Option, none, some, ◌>>=◌, Bytes, Bool-cases, inl, inr,
}
use langley.Config.{
  Config, Machine, FileRead, missing, failed, contents, Loaded, generate_token, ensure_token,
  save_token, load_file, load, config_path, apply_env_overrides, with_db_path,
}

-- a token that can be used: not the empty text
abbrev pub HasToken : Option Loaded → Type 0
HasToken none = Unit {0}
HasToken (some l) = l.0.auth_token ≢ []

save_token-HasToken :
    (m : Machine) (path : Bytes) (cfg : Config) (token : Bytes)
    → token ≢ []
    → HasToken (save_token m path cfg token)
unfolding save_token
save_token-HasToken m path cfg token h =
    elim (Bool-cases (m.saves path (record cfg { auth_token = token }))) [
      | inl saved ↦ rw saved h
      | inr unsaved ↦ rw unsaved tt
    ]

generated-HasToken :
    (m : Machine) (path : Bytes) (cfg : Config) (r : Option Bytes)
    → HasToken (generate_token r >>= save_token m path cfg)
unfolding generate_token
generated-HasToken m path cfg none = tt
generated-HasToken m path cfg (some bytes) = save_token-HasToken m path cfg _ (λ e. cc e)

ensure_token-HasToken :
    (m : Machine) (path : Bytes) (cfg : Config) → HasToken (ensure_token m path cfg)
unfolding ensure_token
ensure_token-HasToken m path cfg = by_token cfg.auth_token refl
  where
    by_token : (t : Bytes) → cfg.auth_token ≡ t → HasToken (ensure_token m path cfg)
    by_token (c ∷ token) e = rw (ensure_token, e) (λ p. cc (e, p))
    by_token [] e = rw (ensure_token, e) (generated-HasToken m path cfg m.random)

>>=-HasToken {ℓ} :
    {A : Type ℓ} (o : Option A) (k : A → Option Loaded)
    → ((a : A) → HasToken (k a))
    → HasToken (o >>= k)
>>=-HasToken none k h = tt
>>=-HasToken (some a) k h = h a

load_file-HasToken : (m : Machine) (path : Bytes) (cfg : Config) → HasToken (load_file m path cfg)
unfolding load_file
load_file-HasToken m path cfg = by_read (m.read_file path)
  where
    by_read :
        (r : FileRead)
        → HasToken (elim r [
          | missing ↦ ensure_token m path cfg
          | failed ↦ none
          | contents text ↦ m.parse_yaml text cfg >>= λ parsed.
              ensure_token m path (apply_env_overrides m.env parsed)
        ])
    by_read missing = ensure_token-HasToken m path cfg
    by_read failed = tt
    by_read (contents text) =
        >>=-HasToken (m.parse_yaml text cfg) _ (λ parsed. ensure_token-HasToken m path _)

-- A configuration that Load returns has a token that is not empty, whatever the file, the
-- environment and the random bytes are.
pub load-HasToken : (m : Machine) (path : Bytes) → HasToken (load m path)
unfolding load
load-HasToken m path = >>=-HasToken m.default_db_path _ (λ db_path.
    >>=-HasToken (config_path m path) _ (λ used. load_file-HasToken m used (with_db_path db_path)))

config_path-env :
    (m : Machine) (env : Bytes → Bytes) (path : Bytes)
    → config_path (record m { env = env }) path ≡ config_path m path
unfolding config_path
config_path-env m env [] = refl
config_path-env m env (c ∷ path) = refl

load_file-missing :
    (m : Machine) (path : Bytes) (cfg : Config)
    → m.read_file path ≡ missing
    → load_file m path cfg ≡ ensure_token m path cfg
unfolding load_file
load_file-missing m path cfg f = rw (load_file, f) refl

ensure_token-env :
    (m : Machine) (env : Bytes → Bytes) (path : Bytes) (cfg : Config)
    → ensure_token (record m { env = env }) path cfg ≡ ensure_token m path cfg
unfolding ensure_token save_token
ensure_token-env m env path cfg = refl

-- Without a configuration file the environment is not read: Load gives the same configuration
-- whatever LANGLEY_LISTEN and the other variables say.
pub load-missing_file :
    (m : Machine) (env : Bytes → Bytes) (path used : Bytes)
    → config_path m path ≡ some used
    → m.read_file used ≡ missing
    → load (record m { env = env }) path ≡ load m path
unfolding load
load-missing_file m env path used e f = by_db_path m.default_db_path
  where
    by_db_path :
        (d : Option Bytes)
        → (d >>= λ db_path. config_path (record m { env = env }) path >>= λ u.
            load_file (record m { env = env }) u (with_db_path db_path))
          ≡ (d >>= λ db_path. config_path m path >>= λ u. load_file m u (with_db_path db_path))
    by_db_path none = refl
    by_db_path (some db_path) =
        rw (config_path-env m env path, e)
          (load_file-missing (record m { env = env }) used (with_db_path db_path) f
            ∙ ensure_token-env m env used (with_db_path db_path)
            ∙ sym (load_file-missing m used (with_db_path db_path) f))
