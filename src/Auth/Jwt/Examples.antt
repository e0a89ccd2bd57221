-- ===== src/Auth/Jwt/Examples.antt =====
-- A request with the bearer token of a session.
use rust_api_stack.Base.{ℕ, ◌≡◌, refl, some, [], ◌∷◌, ◌++◌, ok}
use rust_api_stack.Base.Text.{
  Text-eq, codes, text_eq, split_once, trim, trim_start, is_whitespace, eq_ignore_ascii_case,
  to_ascii_lowercase, bytes, utf8, split,
}
use rust_api_stack.Base.HashMap.{get}
use rust_api_stack.Base.Int.{timestamp, ◌+ℤ◌}
use rust_api_stack.Identity.Session.{JwtClaims}
use rust_api_stack.Identity.Session.Jwt.{decode_jwt, decode_parts, verify_jwt_signature}
use rust_api_stack.Identity.Session.Service.{
  verify_session, check_claims, maybe_lazy_cleanup, cleanup_expired_sessions,
}
use rust_api_stack.Identity.Session.Service.Examples.{opened}
use rust_api_stack.Identity.Session.Service.Fixtures.{lib, claims, later, token}
use rust_api_stack.Auth.Examples.{Headers, put}
use rust_api_stack.Auth.Examples
use rust_api_stack.Auth.Transport
use rust_api_stack.Auth.Transport.{
  AuthCredential, bearer_credential, extract_auth_credential, validate_csrf_for_credential,
}
use rust_api_stack.Auth.Permissions.{check_permission_groups}
use rust_api_stack.Auth.Authorize.{authorize_request}
use rust_api_stack.Auth.Jwt.{authenticate, jwt_auth_provider}
use rust_api_stack.Auth.Jwt.Sessions.{user_of, authorize_request-session}

abbrev request : Headers
request = put (codes "authorization") ((codes "bearer " ++ token) ∷ []) λ name. []

authorized :
    authorize_request Examples.lib
      (codes "GET")
      request
      Transport.default
      (some (jwt_auth_provider lib later opened))
      []
    ≡ ok (user_of claims)
unfolding authorize_request extract_auth_credential Transport.validate bearer_credential
    validate_csrf_for_credential jwt_auth_provider authenticate check_permission_groups text_eq
    split_once trim trim_start is_whitespace eq_ignore_ascii_case to_ascii_lowercase verify_session
    check_claims maybe_lazy_cleanup cleanup_expired_sessions decode_jwt decode_parts
    verify_jwt_signature bytes utf8 split get timestamp ◌+ℤ◌
authorized = refl

authorize_request-session_example :
    (credential : AuthCredential) × (found : JwtClaims ℕ) × (extract_auth_credential Examples.lib
        request Transport.default
      ≡ ok credential)
    × ((verify_session lib later credential.token opened).1 ≡ ok found)
    × (user_of claims ≡ user_of found)
authorize_request-session_example =
    authorize_request-session lib Examples.lib later opened (codes "GET") request Transport.default
      [] (user_of claims) authorized
