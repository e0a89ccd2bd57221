-- ===== src/Auth/Redaction.antt =====
-- crates/core/ras-auth-core/src/transport/redaction.rs.
pub mod Hidden
use rust_api_stack.Base.{Option, none, some, List, [], ◌∷◌, if◌then◌else◌}
use rust_api_stack.Base.Text.{Text, codes}
use rust_api_stack.Auth.Http.{Http}
use rust_api_stack.Auth.Csrf.{default_csrf_header}
use rust_api_stack.Auth.Transport.{AuthTransportConfig}

abbrev pub sensitive_headers : List Text
sensitive_headers =
    codes "authorization"
    ∷ codes "cookie"
    ∷ codes "set-cookie"
    ∷ codes "proxy-authorization"
    ∷ codes "x-auth-token"
    ∷ codes "x-api-key"
    ∷ codes "x-csrf-token"
    ∷ codes "x-xsrf-token"
    ∷ default_csrf_header
    ∷ codes "sec-websocket-protocol"
    ∷ []

module _ {HM HV : Type 0} (http : Http HM HV) where
  unfoldable pub redact_header : HM → Text → HM
  redact_header headers name =
      if http.contains_key name headers
      then http.insert name (http.from_static (codes "[REDACTED]")) (http.remove name headers)
      else headers

  -- One `redact_header` after the other.
  unfoldable pub redact_all : HM → List Text → HM
  redact_all headers [] = headers
  redact_all headers (name ∷ names) = redact_all (redact_header headers name) names

  unfoldable pub redact_sensitive_headers : HM → HM
  redact_sensitive_headers headers = redact_all headers sensitive_headers

  unfoldable pub redact_sensitive_headers_for_auth_transport : HM → AuthTransportConfig → HM
  redact_sensitive_headers_for_auth_transport headers config = elim config.csrf [
    | none ↦ redact_sensitive_headers headers
    | some csrf ↦ redact_header (redact_sensitive_headers headers) csrf.header_name
  ]
