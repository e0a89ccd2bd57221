-- ===== src/Auth/Jwt.antt =====
-- The provider of sessions to services: crates/identity/ras-identity-session/src/auth.rs.
pub mod Sessions
mod Examples
use rust_api_stack.Base.{ℕ, Result, ok, err, map_err, ◌>>=◌}
use rust_api_stack.Base.Text.{Text}
use rust_api_stack.Identity.Session.{SessionError, JwtClaims}
use rust_api_stack.Identity.Session.Jwt.{JwtLibrary}
use rust_api_stack.Identity.Session.Service.{SessionService, Reading, verify_session}
use rust_api_stack.Auth.{AuthError, AuthenticatedUser, AuthProvider, default_check_permissions}

unfoldable pub auth_error : SessionError → AuthError
auth_error SessionError.token_expired = AuthError.token_expired
auth_error _ = AuthError.invalid_token

module _ {J : Type 0} (lib : JwtLibrary J) where
  unfoldable pub authenticate :
      Reading → Text → SessionService J → SessionService J × Result AuthError (AuthenticatedUser J)
  authenticate r token s =
      let (swept, verified) = verify_session lib r token s in
      (
        swept,
        (do
          claims ← map_err auth_error verified
          ok (record {
            user_id = claims.sub;
            permissions = claims.permissions;
            metadata = claims.metadata;
          })),
      )

  -- As the services see it at one moment.
  unfoldable pub jwt_auth_provider : Reading → SessionService J → AuthProvider J
  jwt_auth_provider r s = record {
    authenticate = λ token. (authenticate r token s).1;
    check_permissions = default_check_permissions;
  }
