-- ===== src/Auth/Examples.antt =====
-- Concrete requests for ras-auth-core, with header maps as functions.
use rust_api_stack.Base.{
  ◌⊎◌, ℕ, ◌≡◌, refl, inl, true, false, not, Option, none, some, List, [], ◌∷◌, ◌++◌, arith,
  if◌then◌else◌, is_empty, is_ok, ok, err,
}
use rust_api_stack.Base.Text.{
  Text, Text-eq, codes, text_eq, text_eq_iff, split_once, trim, trim_start, is_whitespace, bytes,
  utf8, strip_prefix, eq_ignore_ascii_case, to_ascii_lowercase, to_ascii_uppercase,
}
use rust_api_stack.Auth.{
  insufficient_permissions, AuthenticatedUser, AuthProvider, from_option, default_check_permissions,
  invalid_token,
}
use rust_api_stack.Auth.Http.{Http}
use rust_api_stack.Auth.Cookie
use rust_api_stack.Auth.Cookie.{
  AuthCookieConfig, host_prefixed, host_prefix, insecure_for_local_development,
  validate_cookie_name, invalid_cookie_byte, validate_host, find_cookie, find_in_headers,
  extract_cookie,
}
use rust_api_stack.Auth.Cookie.Prefix.{insecure-host_prefixed}
use rust_api_stack.Auth.Cookie.Extract.{cookie_values, at_most_one, extract_cookie_lem}
use rust_api_stack.Auth.Csrf
use rust_api_stack.Auth.Csrf.{
  CsrfConfig, csrf_cookie, matches_cookie, validate_headers, ct_eq_str, is_unsafe_method,
}
use rust_api_stack.Auth.Csrf.DoubleSubmit.{HasHeader, HasCookie}
use rust_api_stack.Auth.Transport
use rust_api_stack.Auth.Transport.{
  AuthTransportConfig, AuthCredential, from_bearer, from_cookie, with_cookie, with_csrf,
  without_bearer, bearer_credential, cookie_credential, authorization, extract_auth_credential,
  validate_csrf_for_credential,
}
use rust_api_stack.Auth.Transport.Builders.{
  IsGuarded, built_default, built_cookie, built_without_bearer, built-IsGuarded,
}
use rust_api_stack.Auth.Permissions.{
  first_nonempty, check_permission_groups, user_satisfies_permission_groups,
}
use rust_api_stack.Auth.Permissions.Groups.{check_permission_groups-user_satisfies}
use rust_api_stack.Auth.Authorize.{authorize_request, resolve_caller}
use rust_api_stack.Auth.Authorize.Pipeline.{
  authorize_request-double_submit, to_option, resolve_caller_lem,
}
use rust_api_stack.Auth.Authorize.Entitled.{AsksNothing, HasGroup, authorize_request-IsEntitled}
use rust_api_stack.Auth.Transport.{authorization}
use rust_api_stack.Auth.Transport.Extraction.{IsBearer, IsCookieOf}
use rust_api_stack.Auth.Redaction.{redact_sensitive_headers_for_auth_transport}
use rust_api_stack.Auth.Redaction.Hidden.{
  IsHeaderMap, IsHidden, redact_for_transport-IsHidden, redact_for_transport-other,
}

abbrev pub Headers : Type 0
Headers = Text → List Text

-- "name=value"
abbrev split_cookies : Text → List (Option (Text × Text))
split_cookies raw = split_once b'=' raw ∷ []

abbrev first : List Text → Option Text
first [] = none
first (v ∷ vs) = some v

abbrev pub put : Text → List Text → Headers → Headers
put name vs m = λ other. if text_eq name other then vs else m other

abbrev pub lib : Http Headers Text
lib = record {
  get = λ name m. first (m name);
  get_all = λ name m. m name;
  contains_key = λ name m. not (is_empty (m name));
  remove = λ name m. put name [] m;
  insert = λ name v m. put name (v ∷ []) m;
  to_str = λ v. some v;
  from_str = λ t. ok t;
  from_static = λ t. t;
  split_parse = split_cookies;
  cookie_to_string = λ c. c.name ++ b'=' ∷ c.value;
}

absent_lem : (vs : List Text) → not (is_empty vs) ≡ false → vs ≡ []
absent_lem [] h = refl
absent_lem (v ∷ vs) h = cc

lib-IsHeaderMap : IsHeaderMap lib
lib-IsHeaderMap = record {
  absent = λ name m h. absent_lem (m name) h;
  inserted = λ name v m. ground (arith, text_eq_iff name name);
  insert_other = λ name other v m h. rw h refl;
  remove_other = λ name other m h. rw h refl;
}

abbrev pub alice : AuthenticatedUser ℕ
alice = record {
  user_id = codes "alice";
  permissions = codes "read" ∷ codes "write" ∷ [];
  metadata = none;
}

abbrev pub provider : AuthProvider ℕ
provider = record {
  authenticate = λ token. if text_eq token (codes "tok") then ok alice else err invalid_token;
  check_permissions = default_check_permissions;
}

abbrev cookies : AuthTransportConfig
cookies = record {
  bearer = true;
  cookie = some (Cookie.new (codes "sid"));
  csrf = some (record Csrf.default { cookie_name = some (codes "csrf") });
}

abbrev csrf : CsrfConfig
csrf = record Csrf.default { cookie_name = some (codes "csrf") }

-- A browser's request, with both cookies and the header.
abbrev request : Headers
request =
    put (codes "cookie") (codes "sid=tok" ∷ codes "csrf=abc" ∷ [])
      (put (codes "x-ras-csrf") (codes "abc" ∷ []) λ name. [])

abbrev groups : List (List Text)
groups = (codes "admin" ∷ []) ∷ [] ∷ (codes "read" ∷ []) ∷ []

abbrev session_credential : AuthCredential
session_credential = record { token = codes "tok"; source = from_cookie }

extracted : extract_auth_credential lib request cookies ≡ ok session_credential
unfolding extract_auth_credential Transport.validate Cookie.validate validate_cookie_name
    invalid_cookie_byte validate_host Csrf.validate csrf_cookie cookie_credential extract_cookie
    find_in_headers find_cookie text_eq split_once trim trim_start is_whitespace bytes utf8
    strip_prefix eq_ignore_ascii_case to_ascii_lowercase
extracted = refl

authorized : authorize_request lib (codes "POST") request cookies (some provider) groups ≡ ok alice
unfolding authorize_request validate_csrf_for_credential validate_headers matches_cookie ct_eq_str
    is_unsafe_method check_permission_groups default_check_permissions extract_auth_credential
    Transport.validate Cookie.validate validate_cookie_name invalid_cookie_byte validate_host
    Csrf.validate csrf_cookie cookie_credential extract_cookie find_in_headers find_cookie text_eq
    split_once trim trim_start is_whitespace bytes utf8 strip_prefix eq_ignore_ascii_case
    to_ascii_lowercase to_ascii_uppercase
authorized = refl

authorize_request-IsEntitled_example :
    (credential : AuthCredential) × (((value : Text) × (header : Text) × (authorization lib request
            cookies
          ≡ some value)
        × (lib.to_str value ≡ some header)
        × IsBearer header credential)
      ⊎ ((authorization lib request cookies ≡ none) × IsCookieOf lib request cookies credential))
    × (provider.authenticate credential.token ≡ ok alice)
    × (AsksNothing groups ⊎ HasGroup alice.permissions groups)
authorize_request-IsEntitled_example =
    authorize_request-IsEntitled lib (codes "POST") request cookies provider groups alice
      (λ who required. refl) authorized

unsafe_post : is_unsafe_method (codes "POST") ≡ true
unfolding is_unsafe_method text_eq to_ascii_uppercase
unsafe_post = refl

authorize_request-double_submit_example :
    (value : Text) × HasHeader lib csrf request value × HasCookie lib request (codes "csrf") value
authorize_request-double_submit_example =
    authorize_request-double_submit lib (codes "POST") request cookies (some provider) groups alice
      session_credential csrf (codes "csrf") authorized extracted refl unsafe_post refl refl refl

resolve_caller_lem_example :
    resolve_caller lib (codes "GET") request cookies (some provider)
    ≡ from_option
        (to_option (authorize_request lib (codes "GET") request cookies (some provider) []))
resolve_caller_lem_example = resolve_caller_lem lib (codes "GET") request cookies (some provider)

check_permission_groups-user_satisfies_example :
    is_ok (check_permission_groups provider alice groups)
    ≡ user_satisfies_permission_groups alice groups
check_permission_groups-user_satisfies_example =
    check_permission_groups-user_satisfies provider alice groups λ required. refl

denied :
    check_permission_groups provider alice ([] ∷ (codes "admin" ∷ []) ∷ [])
    ≡ err (insufficient_permissions (codes "admin" ∷ []) alice.permissions)
unfolding check_permission_groups default_check_permissions first_nonempty text_eq
denied = refl

built-IsGuarded_example :
    IsGuarded (without_bearer (with_cookie (Cookie.new (codes "sid")) Transport.default))
built-IsGuarded_example =
    built-IsGuarded (without_bearer (with_cookie (Cookie.new (codes "sid")) Transport.default))
      (built_without_bearer (built_cookie (Cookie.new (codes "sid")) built_default))

extract_cookie_lem_example :
    extract_cookie lib request (codes "sid")
    ≡ at_most_one
        (codes "sid")
        none
        (cookie_values lib (codes "sid") (codes "sid=tok" ∷ codes "csrf=abc" ∷ []))
unfolding text_eq
extract_cookie_lem_example = extract_cookie_lem lib request (codes "sid")

not_prefixed : strip_prefix host_prefix (codes "sid") ≡ none
unfolding strip_prefix
not_prefixed = refl

insecure-host_prefixed_example :
    insecure_for_local_development (host_prefixed (codes "sid"))
    ≡ record Cookie.default { name = codes "sid"; secure = false }
insecure-host_prefixed_example = insecure-host_prefixed (codes "sid") not_prefixed

redact_for_transport-IsHidden_example :
    IsHidden lib lib-IsHeaderMap
      (codes "cookie")
      (redact_sensitive_headers_for_auth_transport lib request cookies)
unfolding text_eq
redact_for_transport-IsHidden_example =
    redact_for_transport-IsHidden lib lib-IsHeaderMap request cookies (codes "cookie") (inl refl)

redact_for_transport-other_example :
    lib.get_all (codes "accept") (redact_sensitive_headers_for_auth_transport lib request cookies)
    ≡ lib.get_all (codes "accept") request
unfolding text_eq
redact_for_transport-other_example =
    redact_for_transport-other lib lib-IsHeaderMap request cookies csrf (codes "accept") refl refl
      refl
