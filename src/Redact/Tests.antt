-- ===== src/Redact/Tests.antt =====
-- Headers and keys that internal/redact/redact.go has redacted.
use langley.Prelude.{◌≡◌, refl, [], ◌∷◌, codes, beq}
use langley.Go.Strings.{has_prefix, to_lower, to_lower_byte, index}
use langley.Config.{default_config, is_listed}
use langley.Redact.{
  Redactor, Header, redacted_value, should_redact_header, redact_headers, redact_image,
}
use langley.Redact.Hidden.{Redacts, redact_headers_lem}

-- the default configuration, with patterns that match nothing
abbrev default_redactor : Redactor
default_redactor = record {
  cfg = default_config.redaction;
  header_patterns = [];
  replace_api_keys = λ f body. body;
  replace_base64 = λ f body. body;
  replace_credentials = λ f body. body;
}

abbrev two_headers : Header
two_headers =
    (codes "Cookie", codes "session=1" ∷ codes "theme=dark" ∷ [])
    ∷ (codes "Accept", codes "*/*" ∷ [])
    ∷ []

data_url_kept :
    redact_image (codes "data:image/png;base64,QUJD")
    ≡ codes "data:image/png;base64,[IMAGE base64 redacted]"
unfolding redact_image has_prefix to_lower index
data_url_kept = refl

redact_headers_lem_example :
    Redacts default_redactor two_headers (redact_headers default_redactor two_headers)
redact_headers_lem_example = redact_headers_lem default_redactor two_headers

-- a name of the list in another casing
cookie_redacted :
    redact_headers default_redactor ((codes "COOKIE", codes "a=1" ∷ []) ∷ [])
    ≡ (codes "COOKIE", redacted_value ∷ []) ∷ []
unfolding redact_headers should_redact_header is_listed to_lower to_lower_byte beq
cookie_redacted = refl
