-- ===== src/Redact.antt =====
-- internal/redact/redact.go. The regular expressions (package regexp) are parameters: a header
-- pattern is its MatchString, and a body pattern its ReplaceAllStringFunc. A text is ASCII.
pub mod Hidden
pub mod Keys
mod Tests
use langley.Prelude.{
  ℕ, suc, zero, ◌+◌, ◌*◌, Bool, true, false, not, ◌&&◌, List, [], ◌∷◌, ◌++◌, Option, none, some,
  Bytes, codes, Dict, ltb, if◌then◌else◌, length, take,
}
use langley.Go.Strings.{to_lower, has_prefix, cut, index}
use langley.Config.{RedactionConfig, is_listed, header_should_redact}

abbrev pub redacted_value : Bytes
redacted_value = codes "[REDACTED]"

abbrev pub redacted_image_value : Bytes
redacted_image_value = codes "[IMAGE base64 redacted]"

abbrev pub max_redaction_input_size : ℕ
max_redaction_input_size = 1024 * 1024

-- the compiled patterns
pub record Redactor : Type 0 where
  pub cfg : RedactionConfig
  pub header_patterns : List (Bytes → Bool)
  pub replace_api_keys : (Bytes → Bytes) → Bytes → Bytes
  pub replace_base64 : (Bytes → Bytes) → Bytes → Bytes
  pub replace_credentials : (Bytes → Bytes) → Bytes → Bytes

abbrev pub Header : Type 0
Header = Dict (List Bytes)

unfoldable pub any_matches : List (Bytes → Bool) → Bytes → Bool
any_matches [] name = false
any_matches (p ∷ ps) name = if p name then true else any_matches ps name

unfoldable pub should_redact_header : Redactor → Bytes → Bool
unfolding any_matches
should_redact_header r name =
    if is_listed (to_lower name) r.cfg.always_redact_headers
    then true
    else if any_matches r.header_patterns name
    then true
    else header_should_redact r.cfg name

unfoldable pub redact_headers : Redactor → Header → Header
redact_headers r [] = []
redact_headers r ((name, values) ∷ h) =
    (name, if should_redact_header r name then redacted_value ∷ [] else values) ∷ redact_headers r h

-- a match of the pattern of API keys, by its prefix or its structure
unfoldable pub redact_api_key : Bytes → Bytes
redact_api_key found =
    if has_prefix (to_lower found) (codes "sk-ant-")
    then codes "sk-ant-" ++ redacted_value
    else if has_prefix (to_lower found) (codes "sk-")
    then codes "sk-" ++ redacted_value
    else if has_prefix found (codes "AKIA")
    then codes "AKIA" ++ redacted_value
    else if has_prefix found (codes "AIza")
    then codes "AIza" ++ redacted_value
    else if has_prefix (to_lower found) (codes "key-")
    then codes "key-" ++ redacted_value
    else elim (cut b'=' found) [
      | some p ↦ p.0 ++ b'=' ∷ redacted_value
      | none ↦ elim (cut b':' found) [
        | some p ↦ p.0 ++ b':' ∷ redacted_value
        | none ↦ redacted_value
      ]
    ]

-- a match of the pattern of images: a data URL keeps its text up to the comma
unfoldable pub redact_image : Bytes → Bytes
redact_image found =
    if has_prefix (to_lower found) (codes "data:image")
    then elim (index found (codes ",")) [
      | none ↦ redacted_image_value
      | some i ↦
          if ltb 0 i then take (i + 1) found ++ redacted_image_value else redacted_image_value
    ]
    else redacted_image_value

-- a match of the pattern of credentials: it keeps its text up to the first colon
unfoldable pub redact_credential : Bytes → Bytes
redact_credential found = elim (index found (codes ":")) [
  | none ↦ found
  | some i ↦
      if ltb 0 i
      then take (i + 1) found ++ (codes " \"" ++ (redacted_value ++ codes "\""))
      else found
]

unfoldable pub redact_body : Redactor → Bytes → Bytes
unfolding redact_api_key redact_image redact_credential
redact_body r body =
    let without_keys =
      if r.cfg.redact_api_keys then r.replace_api_keys redact_api_key body else body in
    let without_images =
      if r.cfg.redact_base64_images
      then r.replace_base64 redact_image without_keys
      else without_keys in
    let without_credentials =
      if r.cfg.redact_api_keys
      then r.replace_credentials redact_credential without_images
      else without_images in
    if ltb max_redaction_input_size (length body) then body else without_credentials

abbrev pub should_store_body : Redactor → Bool
should_store_body r = not r.cfg.disable_body_storage
