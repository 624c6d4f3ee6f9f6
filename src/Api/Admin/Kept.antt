-- ===== src/Api/Admin/Kept.antt =====
-- What the settings and the token of internal/api/api.go keep.
use langley.Prelude.{
  ℕ, ◌≤◌, ◌≡◌, ◌≢◌, refl, Bool, false, not, ◌||◌, [], ◌∷◌, Option, none, some, Bytes, codes, beq,
  ltb, if◌then◌else◌, Bool-cases, inl, inr, arith,
}
use langley.Config.{Config, Machine, Loaded, load}
use langley.Config.Token.{load-HasToken, HasToken}
use langley.Api.Flows.{ApiReply, http_error, json}
use langley.Api.Admin.{
  Server, is_localhost, with_token, admin_reload, with_idle_gap, save_settings, update_settings,
}

-- Reloading the configuration, whatever the request and the file are, leaves the server with a token
-- if it had one, so that no request is let in by an empty token.
pub admin_reload-HasToken :
    (m : Machine) (s : Server) (remote : Bytes)
    → s.cfg.auth_token ≢ []
    → (admin_reload m s remote).0.cfg.auth_token ≢ []
unfolding admin_reload
admin_reload-HasToken m s remote h = elim (Bool-cases (is_localhost remote)) [
  | inl e ↦ rw (admin_reload, e) (by_path s.cfg_path)
  | inr e ↦ rw (admin_reload, e) h
]
  where
    by_loaded :
        (o : Option Loaded)
        → HasToken o
        → (elim o as (λ x. Server × ApiReply Bool) [
          | none ↦ (s, http_error 500 (codes "Failed to reload config"))
          | some (cfg, saved) ↦
              (with_token s cfg.auth_token, json (not (beq s.cfg.auth_token cfg.auth_token)))
        ]).0.cfg.auth_token
          ≢ []
    by_loaded none t = h
    by_loaded (some (cfg, saved)) t = t

    by_path :
        (path : Bytes)
        → (elim path as (λ x. Server × ApiReply Bool) [
          | [] ↦ (s, http_error 503 (codes "Config path not set - reload not supported"))
          | c ∷ path ↦ elim (load m (c ∷ path)) [
            | none ↦ (s, http_error 500 (codes "Failed to reload config"))
            | some (cfg, saved) ↦
                (with_token s cfg.auth_token, json (not (beq s.cfg.auth_token cfg.auth_token)))
          ]
        ]).0.cfg.auth_token
          ≢ []
    by_path [] = h
    by_path (c ∷ path) = by_loaded (load m (c ∷ path)) (load-HasToken m (c ∷ path))

save_settings-unsaved :
    (saves : Bytes → Config → Bool) (s : Server)
    → saves s.cfg_path s.cfg ≡ false
    → save_settings saves s ≡ (s, http_error 500 (codes "Failed to save config"))
unfolding save_settings
save_settings-unsaved saves s u = rw (save_settings, u) refl

-- A setting within 1 to 60 is taken over even if the configuration cannot be saved: the answer is an
-- error, and the server goes on with the new value.
pub update_settings-unsaved :
    (saves : Bytes → Config → Bool) (s : Server) (c : ℕ) (path : Bytes) (n : ℕ)
    → s.cfg_path ≡ c ∷ path
    → 1 ≤ n
    → n ≤ 60
    → saves s.cfg_path (with_idle_gap s n).cfg ≡ false
    → update_settings saves s (some (some n))
      ≡ (with_idle_gap s n, http_error 500 (codes "Failed to save config"))
unfolding update_settings
update_settings-unsaved saves s c path n p low high unsaved =
    let inside : (ltb n 1 || ltb 60 n) ≡ false = ground arith in
    by_path s.cfg_path p inside (save_settings-unsaved saves (with_idle_gap s n) unsaved)
  where
    by_path :
        (q : Bytes)
        → q ≡ c ∷ path
        → (ltb n 1 || ltb 60 n) ≡ false
        → save_settings saves (with_idle_gap s n)
          ≡ (with_idle_gap s n, http_error 500 (codes "Failed to save config"))
        → (elim q as (λ x. Server × ApiReply ℕ) [
          | [] ↦ (s, http_error 503 (codes "Config path not set - settings update not supported"))
          | d ∷ r ↦
              if ltb n 1 || ltb 60 n
              then (s, http_error 400 (codes "idle_gap_minutes must be between 1 and 60"))
              else save_settings saves (with_idle_gap s n)
        ])
          ≡ (with_idle_gap s n, http_error 500 (codes "Failed to save config"))
    by_path [] p inside u = cc p
    by_path (d ∷ r) p inside u = rw (inside, u) refl
