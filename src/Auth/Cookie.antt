-- ===== src/Auth/Cookie.antt =====
-- crates/core/ras-auth-core/src/transport/cookie.rs, and the errors of transport/mod.rs.
pub mod Prefix
pub mod Extract
use rust_api_stack.Base.{
  String, Bool, true, false, not, ◌&&◌, ◌||◌, Option, none, some, List, [], ◌∷◌, ◌++◌, ltb, leb,
  eqb, ℕ, if◌then◌else◌, any, is_empty, is_some, contains, nat_eq, Result, ok, err, map_err,
  reject_if, ◌>>=◌, ◌>>◌,
}
use rust_api_stack.Base.Text.{
  Text, codes, text_eq, trim, strip_prefix, starts_with, bytes, Message, say, about,
}
use rust_api_stack.Base.Int.{ℤ, pos}
use rust_api_stack.Auth.Http.{
  Http, SetCookie, SameSite, same_site_lax, same_site_strict, same_site_none,
}

pub data AuthTransportError : Type 0 where
  missing_credentials : AuthTransportError
  invalid_authorization_header : AuthTransportError
  csrf_validation_failed : AuthTransportError
  invalid_cookie_config : String → AuthTransportError
  invalid_cookie_header : Message → AuthTransportError
  invalid_csrf_config : Message → AuthTransportError
  invalid_auth_transport_config : String → AuthTransportError
  invalid_set_cookie_header : Text → AuthTransportError

abbrev pub several : Text → AuthTransportError
several cookie_name =
    invalid_cookie_header (about "multiple {cookie_name} cookies were present" cookie_name)

pub data CookieSameSite : Type 0 where
  site_lax site_strict site_none : CookieSameSite

unfoldable pub as_cookie_same_site : CookieSameSite → SameSite
as_cookie_same_site site_lax = same_site_lax
as_cookie_same_site site_strict = same_site_strict
as_cookie_same_site site_none = same_site_none

abbrev pub is_site_none : CookieSameSite → Bool
is_site_none site_none = true
is_site_none _ = false

pub record AuthCookieConfig : Type 0 where
  pub name : Text
  pub path : Text
  pub domain : Option Text
  pub secure : Bool
  pub http_only : Bool
  pub same_site : CookieSameSite
  pub max_age_seconds : Option ℤ

abbrev pub default_cookie_name : Text
default_cookie_name = codes "__Host-ras-session"

abbrev pub host_prefix : Text
host_prefix = codes "__Host-"

abbrev pub default : AuthCookieConfig
default = record {
  name = default_cookie_name;
  path = codes "/";
  domain = none;
  secure = true;
  http_only = true;
  same_site = site_lax;
  max_age_seconds = none;
}

abbrev pub new : Text → AuthCookieConfig
new name = record default { name = name }

unfoldable pub host_prefixed : Text → AuthCookieConfig
host_prefixed name = elim (strip_prefix host_prefix name) [
  | some suffix ↦ record default { name = host_prefix ++ suffix }
  | none ↦ record default { name = host_prefix ++ name }
]

unfoldable pub insecure_for_local_development : AuthCookieConfig → AuthCookieConfig
insecure_for_local_development config = elim (strip_prefix host_prefix config.name) [
  | some name ↦ record config { secure = false; name = name }
  | none ↦ record config { secure = false }
]

-- The separators of the match on a byte.
abbrev pub cookie_separators : List ℕ
cookie_separators = codes "()<>@,;:\\\"/[]?={}"

unfoldable pub invalid_cookie_byte : ℕ → Bool
invalid_cookie_byte byte = leb byte 0x20 || leb 0x7f byte || contains cookie_separators byte

unfoldable pub validate_cookie_name : Text → Result AuthTransportError (Unit {0})
validate_cookie_name name = do
  reject_if (is_empty (trim name)) (invalid_cookie_config "cookie name must not be empty")
  reject_if (not (text_eq (trim name) name))
      (invalid_cookie_config "cookie name must not contain leading or trailing whitespace")
  reject_if (any invalid_cookie_byte (bytes name))
      (invalid_cookie_config "cookie name must be a valid RFC6265 token")
  ok tt

-- The guards on a cookie whose name has the prefix `__Host-`.
unfoldable pub validate_host : AuthCookieConfig → Result AuthTransportError (Unit {0})
validate_host config = do
  reject_if (not config.secure) (invalid_cookie_config "__Host- cookies must be Secure")
  reject_if (is_some config.domain) (invalid_cookie_config "__Host- cookies must not set Domain")
  reject_if (not (text_eq config.path (codes "/")))
      (invalid_cookie_config "__Host- cookies must use Path=/")
  ok tt

abbrev pub is_blank : Option Text → Bool
is_blank none = false
is_blank (some domain) = is_empty (trim domain)

unfoldable pub validate : AuthCookieConfig → Result AuthTransportError (Unit {0})
validate config = do
  validate_cookie_name config.name
  reject_if (is_empty (trim config.path)) (invalid_cookie_config "cookie path must not be empty")
  reject_if (not (starts_with (codes "/") config.path))
      (invalid_cookie_config "cookie path must start with '/'")
  reject_if (starts_with (codes "__Secure-") config.name && not config.secure)
      (invalid_cookie_config "__Secure- cookies must be Secure")
  if starts_with host_prefix config.name then validate_host config else ok tt
  reject_if (is_site_none config.same_site && not config.secure)
      (invalid_cookie_config "SameSite=None cookies must be Secure")
  reject_if (is_blank config.domain) (invalid_cookie_config "cookie domain must not be empty")
  ok tt

-- The cookie that the builder makes for a new token.
unfoldable pub session_cookie : AuthCookieConfig → Text → SetCookie
session_cookie config token = record {
  name = config.name;
  value = token;
  path = config.path;
  secure = config.secure;
  http_only = config.http_only;
  same_site = as_cookie_same_site config.same_site;
  domain = config.domain;
  max_age = config.max_age_seconds;
  expires = none;
}

-- The cookie that clears the session.
unfoldable pub clear_cookie : AuthCookieConfig → SetCookie
clear_cookie config = record (session_cookie config []) {
  max_age = some (pos 0);
  expires = some (pos 0);
}

module _ {HM HV : Type 0} (http : Http HM HV) where
  unfoldable pub set_cookie_value : Text → Result AuthTransportError HV
  set_cookie_value value = map_err invalid_set_cookie_header (http.from_str value)

  unfoldable pub session_cookie_header_value :
      AuthCookieConfig → Text → Result AuthTransportError HV
  session_cookie_header_value config token = do
    validate config
    set_cookie_value (http.cookie_to_string (session_cookie config token))

  unfoldable pub clear_cookie_header_value : AuthCookieConfig → Result AuthTransportError HV
  clear_cookie_header_value config = do
    validate config
    set_cookie_value (http.cookie_to_string (clear_cookie config))

  -- The loop over the cookies of one header, with what was found so far.
  unfoldable pub find_cookie :
      Text → List (Option (Text × Text)) → Option Text → Result AuthTransportError (Option Text)
  find_cookie cookie_name [] found = ok found
  find_cookie cookie_name (none ∷ cookies) found = find_cookie cookie_name cookies found
  find_cookie cookie_name (some (name, value) ∷ cookies) found =
      let rest = find_cookie cookie_name cookies in
      if text_eq name cookie_name
      then (if is_some found then err (several cookie_name) else rest (some value))
      else rest found

  -- The loop over the `Cookie` headers.
  unfoldable pub find_in_headers :
      Text → List HV → Option Text → Result AuthTransportError (Option Text)
  find_in_headers cookie_name [] found = ok found
  find_in_headers cookie_name (value ∷ values) found =
      let rest = find_in_headers cookie_name values in
      elim (http.to_str value) [
        | none ↦ rest found
        | some raw ↦ find_cookie cookie_name (http.split_parse raw) found >>= rest
      ]

  unfoldable pub extract_cookie : HM → Text → Result AuthTransportError (Option Text)
  extract_cookie headers cookie_name =
      find_in_headers cookie_name (http.get_all (codes "cookie") headers) none
