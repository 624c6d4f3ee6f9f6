-- ===== src/Command/Environment.antt =====
-- The environment that cmd/langley/run.go gives to a command.
use langley.Prelude.{
  ◌≡◌, refl, ap, ◌∙◌, sym, true, ◌↔◌, List, [], ◌∷◌, ◌++◌, Bytes, codes, beq, beq_iff, Option, none,
  some, if◌then◌else◌, Bool-cases, inl, inr, ◌⊎◌, Dict,
}
use mathlib.Core.Bool.{true≢false}
use mathlib.Core.List.{Memᴰ}
use langley.Go.Strings.{cut}
use langley.Go.Cut.{Without, IsCut, cut-IsCut}
use langley.Command.{overrides, key_of, is_key, is_override, keep_others, override_entries, build}

-- the name of an entry is its text before the first `=`
abbrev pub IsName : Bytes → Bytes → Type 0
IsName entry name =
    Without b'=' name × ((entry ≡ name) ⊎ ((value : Bytes) × (entry ≡ name ++ b'=' ∷ value)))

-- the variables of the proxy
abbrev pub variables : List Bytes
variables =
    codes "HTTPS_PROXY"
    ∷ codes "https_proxy"
    ∷ codes "HTTP_PROXY"
    ∷ codes "http_proxy"
    ∷ codes "NODE_EXTRA_CA_CERTS"
    ∷ codes "SSL_CERT_FILE"
    ∷ codes "REQUESTS_CA_BUNDLE"
    ∷ []

-- what the proxy sets them to
abbrev pub settings : Bytes → Bytes → List Bytes
settings proxy_addr ca_path =
    (codes "HTTPS_PROXY=http://" ++ proxy_addr)
    ∷ (codes "https_proxy=http://" ++ proxy_addr)
    ∷ (codes "HTTP_PROXY=http://" ++ proxy_addr)
    ∷ (codes "http_proxy=http://" ++ proxy_addr)
    ∷ (codes "NODE_EXTRA_CA_CERTS=" ++ ca_path)
    ∷ (codes "SSL_CERT_FILE=" ++ ca_path)
    ∷ (codes "REQUESTS_CA_BUNDLE=" ++ ca_path)
    ∷ []

key_of-IsName : (entry : Bytes) → IsName entry (key_of entry)
unfolding key_of
key_of-IsName entry = named (cut b'=' entry) (cut-IsCut b'=' entry)
  where
    named :
        (o : Option (Bytes × Bytes))
        → IsCut b'=' entry o
        → IsName entry (elim o [ none ↦ entry | some p ↦ p.0 ])
    named none h = (h, inl refl)
    named (some p) h = (h.1, inr (p.1, h.0))

module _ (to_upper : Bytes → Bytes) where
  -- a name is one of some variables, but for the case
  abbrev pub IsOneOf : Bytes → List Bytes → Type 0
  IsOneOf name names = (v : Bytes) × (Memᴰ v names × (to_upper v ≡ to_upper name))

  -- the entries that stay, in their order: those whose name is not one of the variables
  pub data Keeps : List Bytes → List Bytes → Type 0 where
    nothing : Keeps [] []
    stays :
        {entry : Bytes} {entries kept : List Bytes} (name : Bytes)
        → IsName entry name
        → ¬ IsOneOf name variables
        → Keeps entries kept
        → Keeps (entry ∷ entries) (entry ∷ kept)
    goes :
        {entry : Bytes} {entries kept : List Bytes} (name : Bytes)
        → IsName entry name
        → IsOneOf name variables
        → Keeps entries kept
        → Keeps (entry ∷ entries) kept

  keys : Dict Bytes → List Bytes
  keys [] = []
  keys ((k, v) ∷ vars) = k ∷ keys vars

  is_key_iff :
      (name : Bytes) (vars : Dict Bytes)
      → (is_key to_upper name vars ≡ true) ↔ IsOneOf name (keys vars)
  unfolding is_key keys
  is_key_iff name [] = (λ h. cc h, λ l. elim l.1.0 [ ])
  is_key_iff name ((k, v) ∷ vars) =
      let rest = is_key_iff name vars in
      (
        λ h. elim (Bool-cases (beq (to_upper k) (to_upper name))) [
          | inl e ↦ (k, (Memᴰ.head refl, (beq_iff (to_upper k) (to_upper name)).0 e))
          | inr n ↦ let later = rest.0 (rw n at h) in (later.0, (Memᴰ.tail later.1.0, later.1.1))
        ],
        λ l. found l.0 l.1.0 l.1.1 rest.1,
      )
    where
      found :
          (x : Bytes)
          → Memᴰ x (k ∷ keys vars)
          → to_upper x ≡ to_upper name
          → (IsOneOf name (keys vars) → is_key to_upper name vars ≡ true)
          → (if beq (to_upper k) (to_upper name) then true else is_key to_upper name vars) ≡ true
      found x (Memᴰ.head same) e rest =
          let here : beq (to_upper k) (to_upper name) ≡ true =
            (beq_iff (to_upper k) (to_upper name)).1 (ap to_upper (sym same) ∙ e) in
          rw here refl
      found x (Memᴰ.tail m) e rest = elim (Bool-cases (beq (to_upper k) (to_upper name))) [
        | inl h ↦ rw h refl
        | inr h ↦ rw h (rest (x, (m, e)))
      ]

  module _ (proxy_addr ca_path : Bytes) where
    is_override_iff :
        (entry : Bytes)
        → (is_override to_upper proxy_addr ca_path entry ≡ true) ↔ IsOneOf (key_of entry) variables
    unfolding is_override keys
    is_override_iff entry = is_key_iff (key_of entry) (overrides proxy_addr ca_path)

    keep_others-Keeps :
        (environ : List Bytes) → Keeps environ (keep_others to_upper proxy_addr ca_path environ)
    unfolding keep_others
    keep_others-Keeps [] = nothing
    keep_others-Keeps (entry ∷ environ) =
        let rest = keep_others-Keeps environ in
        let iff = is_override_iff entry in
        elim (Bool-cases (is_override to_upper proxy_addr ca_path entry)) [
          | inl e ↦ rw e (goes (key_of entry) (key_of-IsName entry) (iff.0 e) rest)
          | inr e ↦ rw e (
              stays (key_of entry) (key_of-IsName entry) (λ o. true≢false (sym (iff.1 o) ∙ e)) rest)
        ]

    -- The environment of a command is the parent's entries, each of them and in their order, but for
    -- those whose name, up to the first `=`, is one of the proxy's variables when both are in upper
    -- case; and then the seven settings of the proxy.
    pub build_lem :
        (environ : List Bytes)
        → (kept : List Bytes) × (Keeps environ kept
            × (build to_upper environ proxy_addr ca_path ≡ kept ++ settings proxy_addr ca_path))
    unfolding build override_entries
    build_lem environ =
        (keep_others to_upper proxy_addr ca_path environ, (keep_others-Keeps environ, refl))
