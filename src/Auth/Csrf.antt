-- ===== src/Auth/Csrf.antt =====
-- crates/core/ras-auth-core/src/transport/csrf.rs, less the warnings in the log.
pub mod DoubleSubmit
use rust_api_stack.Base.{
  String, Bool, true, false, not, ◌&&◌, ◌||◌, Option, none, some, List, [], ◌∷◌, if◌then◌else◌, any,
  is_empty, is_some, Result, ok, err, ok_or, reject_if, ◌>>=◌, ◌>>◌,
}
use rust_api_stack.Base.Text.{
  Text, codes, text_eq, trim, bytes, eq_ignore_ascii_case, to_ascii_uppercase, Message, say, about,
}
use rust_api_stack.Auth.Http.{Http}
use rust_api_stack.Auth.Cookie
use rust_api_stack.Auth.Cookie.{
  AuthCookieConfig, AuthTransportError, invalid_csrf_config, csrf_validation_failed,
  session_cookie_header_value, clear_cookie_header_value, extract_cookie,
}

abbrev pub default_csrf_cookie_name : Text
default_csrf_cookie_name = codes "__Host-ras-csrf"

abbrev pub default_csrf_header : Text
default_csrf_header = codes "x-ras-csrf"

abbrev pub csrf_unsafe_header_names : List Text
csrf_unsafe_header_names =
    codes "accept"
    ∷ codes "accept-language"
    ∷ codes "content-language"
    ∷ codes "content-type"
    ∷ codes "cookie"
    ∷ codes "origin"
    ∷ codes "referer"
    ∷ codes "host"
    ∷ codes "user-agent"
    ∷ codes "content-length"
    ∷ codes "connection"
    ∷ codes "accept-encoding"
    ∷ codes "date"
    ∷ []

pub record CsrfConfig : Type 0 where
  pub header_name : Text
  pub expected_value : Option Text
  pub cookie_name : Option Text

abbrev pub default : CsrfConfig
default = record {
  header_name = default_csrf_header;
  expected_value = none;
  cookie_name = some default_csrf_cookie_name;
}

abbrev pub new : Text → CsrfConfig
new header_name = record default { header_name = header_name }

-- Also under its former name `with_expected_value`.
abbrev pub dangerous_static_value : CsrfConfig → Text → CsrfConfig
dangerous_static_value csrf expected_value = record csrf {
  expected_value = some expected_value;
  cookie_name = none;
}

abbrev pub with_cookie_name : CsrfConfig → Text → CsrfConfig
with_cookie_name csrf cookie_name = record csrf {
  cookie_name = some cookie_name;
  expected_value = none;
}

-- Also under its former name `header_presence_only`.
abbrev pub dangerous_header_presence_only : Text → CsrfConfig
dangerous_header_presence_only header_name = record {
  header_name = header_name;
  expected_value = none;
  cookie_name = none;
}

unfoldable pub dangerous_mode : CsrfConfig → Option String
dangerous_mode csrf = elim csrf.expected_value [
  | some expected ↦ some "static_value"
  | none ↦ elim csrf.cookie_name [ none ↦ some "header_presence_only" | some cookie_name ↦ none ]
]

-- The cookie under which the CSRF token is kept: scripts may read it.
unfoldable pub csrf_cookie : Text → AuthCookieConfig
csrf_cookie cookie_name = record Cookie.default { name = cookie_name; http_only = false }

abbrev pub is_blank : Option Text → Bool
is_blank none = false
is_blank (some expected) = is_empty (trim expected)

unfoldable pub validate : CsrfConfig → Result AuthTransportError (Unit {0})
validate csrf = do
  reject_if (any (λ name. eq_ignore_ascii_case csrf.header_name name) csrf_unsafe_header_names) (
      invalid_csrf_config (
        about
          "CSRF header `{header}` is CORS-safelisted or browser-controlled and provides no protection; use a custom header name (e.g. `x-csrf-token`)"
          csrf.header_name))
  reject_if (is_blank csrf.expected_value)
      (invalid_csrf_config (say "expected CSRF value must not be empty"))
  elim csrf.cookie_name [
    | none ↦ ok tt
    | some cookie_name ↦ Cookie.validate (csrf_cookie cookie_name)
  ]

unfoldable pub csrf_cookie_config : CsrfConfig → Result AuthTransportError AuthCookieConfig
csrf_cookie_config csrf = do
  let missing = invalid_csrf_config (say "CSRF cookie helper requires cookie validation mode")
  cookie_name ← ok_or csrf.cookie_name missing
  Cookie.validate (csrf_cookie cookie_name)
  ok (csrf_cookie cookie_name)

-- Equality of the bytes; the time that it takes is not modelled.
unfoldable pub ct_eq_str : Text → Text → Bool
ct_eq_str a b = text_eq (bytes a) (bytes b)

unfoldable pub is_unsafe_method : Text → Bool
is_unsafe_method method =
    let upper = to_ascii_uppercase method in
    text_eq upper (codes "POST")
    || text_eq upper (codes "PUT")
    || text_eq upper (codes "PATCH")
    || text_eq upper (codes "DELETE")

module _ {HM HV : Type 0} (http : Http HM HV) where
  unfoldable pub csrf_cookie_header_value : CsrfConfig → Text → Result AuthTransportError HV
  csrf_cookie_header_value csrf token = do
    config ← csrf_cookie_config csrf
    session_cookie_header_value http config token

  unfoldable pub clear_csrf_cookie_header_value : CsrfConfig → Result AuthTransportError HV
  clear_csrf_cookie_header_value csrf = do
    config ← csrf_cookie_config csrf
    clear_cookie_header_value http config

  -- The value of the header against the cookie of that name.
  unfoldable pub matches_cookie : HM → Text → Text → Result AuthTransportError (Unit {0})
  matches_cookie headers cookie_name value = do
    found ← extract_cookie http headers cookie_name
    cookie_value ← ok_or found csrf_validation_failed
    reject_if (is_empty (trim cookie_value) || not (ct_eq_str cookie_value value))
        csrf_validation_failed

  unfoldable pub validate_headers : CsrfConfig → HM → Result AuthTransportError (Unit {0})
  validate_headers csrf headers = do
    validate csrf
    header ← ok_or (http.get csrf.header_name headers) csrf_validation_failed
    value ← ok_or (http.to_str header) csrf_validation_failed
    reject_if (is_empty (trim value)) csrf_validation_failed
    elim csrf.expected_value [
      | some expected ↦ reject_if (not (ct_eq_str value expected)) csrf_validation_failed
      | none ↦ elim csrf.cookie_name [
        | none ↦ ok tt
        | some cookie_name ↦ matches_cookie headers cookie_name value
      ]
    ]
