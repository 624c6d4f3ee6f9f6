-- ===== src/Provider/Detect.antt =====
-- Registry.Detect and the interception gate of internal/provider/registry.go and
-- internal/proxy/mitm.go.
use langley.Prelude.{
  ◌≡◌, ◌↔◌, ◌⊎◌, inl, inr, refl, true, false, List, [], ◌∷◌, none, some, Bytes, beq, arith,
  Bool-cases,
}
use langley.Provider.{
  Provider, anthropic, openai, bedrock, gemini, name, detect_host, registry, detect, get,
  should_intercept, match_domain_suffix, match_config_hosts, proxy_should_intercept,
}

-- `p` is the first of the list that recognises the host
pub data FirstOf (host : Bytes) : List Provider → Provider → Type 0 where
  here : {p : Provider} {ps : List Provider} → detect_host p host ≡ true → FirstOf host (p ∷ ps) p
  later :
      {p q : Provider} {ps : List Provider}
      → detect_host q host ≡ false
      → FirstOf host ps p
      → FirstOf host (q ∷ ps) p

abbrev pub NoneOf : Bytes → List Provider → Type 0
NoneOf host [] = Unit {0}
NoneOf host (p ∷ ps) = (detect_host p host ≡ false) × NoneOf host ps

-- Detect returns the first provider of the registry that recognises the host, or nil when none
-- does; the gate ShouldIntercept is open in the first case alone.
pub detect_cases :
    (ps : List Provider) (host : Bytes)
    → ((p : Provider) × (detect ps host ≡ some p)
        × FirstOf host ps p
        × (should_intercept ps host ≡ true))
      ⊎ ((detect ps host ≡ none) × NoneOf host ps × (should_intercept ps host ≡ false))
unfolding detect should_intercept
detect_cases [] host = inr (refl, tt, refl)
detect_cases (p ∷ ps) host = elim (Bool-cases (detect_host p host)) [
  | inl e ↦ inl (p, rw e refl, here e, ground arith)
  | inr e ↦ elim (detect_cases ps host) [
    | inl (q, found, first, open') ↦ inl (q, rw e found, later e first, ground arith)
    | inr (missing, all, shut) ↦ inr (rw e missing, (e, all), ground arith)
  ]
]

-- Get finds every provider of the registry by its own name.
pub get-name : (p : Provider) → get registry (name p) ≡ some p
unfolding get name beq
get-name anthropic = refl
get-name openai = refl
get-name bedrock = refl
get-name gemini = refl

abbrev pub AnyMatches : Bytes → List Bytes → Type 0
AnyMatches host [] = ⊥
AnyMatches host (h ∷ hs) = (match_domain_suffix host h ≡ true) ⊎ AnyMatches host hs

match_config_hosts_iff :
    (host : Bytes) (hs : List Bytes) → (match_config_hosts host hs ≡ true) ↔ AnyMatches host hs
unfolding match_config_hosts
match_config_hosts_iff host [] = (λ e. cc e, λ e. absurd e)
match_config_hosts_iff host (h ∷ hs) =
    let ih = match_config_hosts_iff host hs in
    (
      λ e. elim (Bool-cases (match_domain_suffix host h)) [
        | inl m ↦ inl m
        | inr m ↦ inr (ih.0 (ground arith))
      ],
      elim [ inl m ↦ rw m refl | inr m ↦ let rest = ih.1 m in ground arith ],
    )

-- A CONNECT request is intercepted exactly if a provider of the registry recognises its host or
-- an entry of intercept_hosts matches it.
pub proxy_should_intercept_iff :
    (ps : List Provider) (intercept_hosts : List Bytes) (host : Bytes)
    → (proxy_should_intercept ps intercept_hosts host ≡ true)
      ↔ (((p : Provider) × FirstOf host ps p) ⊎ AnyMatches host intercept_hosts)
unfolding proxy_should_intercept
proxy_should_intercept_iff ps hosts host = elim (detect_cases ps host) [
  | inl (p, found, first, gate) ↦ (λ e. inl (p, first), λ m. rw gate refl)
  | inr (missing, all, shut) ↦ (
    λ e. inr ((match_config_hosts_iff host hosts).0 (rw shut at e)),
    elim [
      | inl (p, first) ↦ absurd (not_first all first)
      | inr m ↦ rw shut ((match_config_hosts_iff host hosts).1 m)
    ],
  )
]
  where
    not_first : {ps : List Provider} {p : Provider} → NoneOf host ps → FirstOf host ps p → ⊥
    not_first all (here e) = cc (e, all.0)
    not_first all (later e first) = not_first all.1 first
