-- ===== src/Auth/Transport.antt =====
-- crates/core/ras-auth-core/src/transport/mod.rs and credential.rs, less the warnings in the log,
-- and `validate_csrf_for_credential` of csrf.rs.
pub mod Builders
pub mod Extraction
use rust_api_stack.Base.{
  Bool, true, false, not, ◌&&◌, ◌||◌, Option, none, some, if◌then◌else◌, is_empty, is_some, Result,
  ok, err, ok_or, reject_if, ◌>>=◌, ◌>>◌,
}
use rust_api_stack.Base.Text.{Text, codes, trim, split_once, eq_ignore_ascii_case}
use rust_api_stack.Auth.Http.{Http}
use rust_api_stack.Auth.Cookie
use rust_api_stack.Auth.Cookie.{
  AuthCookieConfig, AuthTransportError, missing_credentials, invalid_authorization_header,
  invalid_auth_transport_config, extract_cookie,
}
use rust_api_stack.Auth.Csrf
use rust_api_stack.Auth.Csrf.{CsrfConfig, validate_headers, is_unsafe_method}

pub record AuthTransportConfig : Type 0 where
  pub bearer : Bool
  pub cookie : Option AuthCookieConfig
  pub csrf : Option CsrfConfig

abbrev pub default : AuthTransportConfig
default = record { bearer = true; cookie = none; csrf = none }

unfoldable pub with_cookie : AuthCookieConfig → AuthTransportConfig → AuthTransportConfig
with_cookie cookie config = elim config.csrf [
  | none ↦ record config { cookie = some cookie; csrf = some Csrf.default }
  | some csrf ↦ record config { cookie = some cookie }
]

unfoldable pub with_csrf : CsrfConfig → AuthTransportConfig → AuthTransportConfig
with_csrf csrf config = record config { csrf = some csrf }

unfoldable pub without_bearer : AuthTransportConfig → AuthTransportConfig
without_bearer config = record config { bearer = false }

-- `if let Some(part) = … { part.validate()? }`.
abbrev pub validate_some {ℓ} :
    {A : Type ℓ}
    → (A → Result AuthTransportError (Unit {0}))
    → Option A
    → Result AuthTransportError (Unit {0})
validate_some validate none = ok tt
validate_some validate (some part) = validate part

unfoldable pub validate : AuthTransportConfig → Result AuthTransportError (Unit {0})
validate config = do
  reject_if (not config.bearer && not (is_some config.cookie))
      (invalid_auth_transport_config "at least one auth transport must be enabled")
  reject_if (is_some config.cookie && not (is_some config.csrf)) (
      invalid_auth_transport_config
        "cookie auth requires a CSRF configuration; use with_cookie (which sets a default double-submit CsrfConfig) or with_csrf")
  validate_some Cookie.validate config.cookie
  validate_some Csrf.validate config.csrf

pub data AuthTokenSource : Type 0 where
  from_bearer from_cookie : AuthTokenSource

pub record AuthCredential : Type 0 where
  pub token : Text
  pub source : AuthTokenSource

abbrev pub is_from_cookie : AuthTokenSource → Bool
is_from_cookie from_bearer = false
is_from_cookie from_cookie = true

-- The credential of an `Authorization` header that `to_str` has read.
unfoldable pub bearer_credential : Text → Result AuthTransportError AuthCredential
bearer_credential header = do
  (scheme, token) ← ok_or (split_once b' ' header) invalid_authorization_header
  reject_if (not (eq_ignore_ascii_case scheme (codes "Bearer")) || is_empty (trim token))
      invalid_authorization_header
  ok (record { token = trim token; source = from_bearer })

module _ {HM HV : Type 0} (http : Http HM HV) where
  unfoldable pub cookie_credential :
      HM → Option AuthCookieConfig → Result AuthTransportError AuthCredential
  cookie_credential headers none = err missing_credentials
  cookie_credential headers (some config) = do
    found ← extract_cookie http headers config.name
    token ← ok_or found missing_credentials
    ok (record { token = token; source = from_cookie })

  -- The `Authorization` header, read only when bearer tokens are accepted.
  abbrev pub authorization : HM → AuthTransportConfig → Option HV
  authorization headers config =
      if config.bearer then http.get (codes "authorization") headers else none

  unfoldable pub extract_auth_credential :
      HM → AuthTransportConfig → Result AuthTransportError AuthCredential
  extract_auth_credential headers config = do
    validate config
    elim (authorization headers config) [
      | none ↦ cookie_credential headers config.cookie
      | some value ↦ ok_or (http.to_str value) invalid_authorization_header >>= bearer_credential
    ]

  unfoldable pub validate_csrf_for_credential :
      Text → HM → AuthCredential → AuthTransportConfig → Result AuthTransportError (Unit {0})
  validate_csrf_for_credential method headers credential config = do
    validate config
    let exempt = not (is_from_cookie credential.source) || not (is_unsafe_method method)
    if exempt then ok tt else validate_some (λ csrf. validate_headers http csrf headers) config.csrf
