-- ===== src/Provider.antt =====
-- internal/provider: which provider answers for a host, provider.go, match.go, registry.go and the
-- DetectHost methods. Hosts are ASCII bytes.
pub mod Suffix
pub mod Detect
pub mod Usage
mod Tests
use langley.Prelude.{
  ℕ, Bool, true, false, ◌&&◌, ◌||◌, List, [], ◌∷◌, ◌++◌, Option, none, some, Bytes, codes, beq,
  if◌then◌else◌,
}
use langley.Go.Strings.{has_prefix, has_suffix, to_lower, cut_last}

unfoldable pub match_domain_suffix : Bytes → Bytes → Bool
match_domain_suffix host suffix =
    let h = to_lower (cut_last b':' host) in
    let s = to_lower suffix in if beq h s then true else has_suffix h (b'.' ∷ s)

-- the implementations of the interface Provider
pub data Provider : Type 0 where
  anthropic openai bedrock gemini : Provider

unfoldable pub name : Provider → Bytes
name anthropic = codes "anthropic"
name openai = codes "openai"
name bedrock = codes "bedrock"
name gemini = codes "gemini"

-- the DetectHost methods
unfoldable pub detect_host : Provider → Bytes → Bool
detect_host anthropic host =
    match_domain_suffix host (codes "anthropic.com") || match_domain_suffix host (codes "claude.ai")
detect_host openai host = match_domain_suffix host (codes "openai.com")
detect_host bedrock host =
    has_prefix (to_lower (cut_last b':' host)) (codes "bedrock-runtime.")
    && match_domain_suffix host (codes "amazonaws.com")
detect_host gemini host = match_domain_suffix host (codes "generativelanguage.googleapis.com")

-- NewRegistry
abbrev pub registry : List Provider
registry = anthropic ∷ openai ∷ bedrock ∷ gemini ∷ []

unfoldable pub detect : List Provider → Bytes → Option Provider
detect [] host = none
detect (p ∷ ps) host = if detect_host p host then some p else detect ps host

-- Registry.Get
unfoldable pub get : List Provider → Bytes → Option Provider
get [] n = none
get (p ∷ ps) n = if beq (name p) n then some p else get ps n

unfoldable pub should_intercept : List Provider → Bytes → Bool
should_intercept ps host = elim (detect ps host) [ none ↦ false | some p ↦ true ]

-- matchConfigHosts of internal/proxy/mitm.go
unfoldable pub match_config_hosts : Bytes → List Bytes → Bool
match_config_hosts host [] = false
match_config_hosts host (h ∷ hs) =
    if match_domain_suffix host h then true else match_config_hosts host hs

-- MITMProxy.shouldIntercept of internal/proxy/mitm.go
unfoldable pub proxy_should_intercept : List Provider → List Bytes → Bytes → Bool
proxy_should_intercept ps intercept_hosts host =
    if should_intercept ps host then true else match_config_hosts host intercept_hosts
