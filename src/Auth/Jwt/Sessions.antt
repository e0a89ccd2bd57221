-- ===== src/Auth/Jwt/Sessions.antt =====
-- Requests that carry the token of a session, through the provider of sessions.
use rust_api_stack.Base.{◌≡◌, subst, some, List, ok, map_err, >>=-eq-ok, map_err-eq-ok}
use rust_api_stack.Base.Text.{Text, Text-eq}
use rust_api_stack.Identity.Session.{JwtClaims}
use rust_api_stack.Identity.Session.Jwt.{JwtLibrary}
use rust_api_stack.Identity.Session.Service.{SessionService, Reading, verify_session}
use rust_api_stack.Auth.{AuthenticatedUser}
use rust_api_stack.Auth.Http.{Http}
use rust_api_stack.Auth.Transport.{AuthTransportConfig, AuthCredential, extract_auth_credential}
use rust_api_stack.Auth.Authorize.{authorize_request}
use rust_api_stack.Auth.Authorize.Pipeline.{IsAuthorized, authorize_request-eq-ok_iff}
use rust_api_stack.Auth.Jwt.{auth_error, authenticate, jwt_auth_provider}

-- The claims of a user.
abbrev pub user_of : {J : Type 0} → JwtClaims J → AuthenticatedUser J
user_of claims = record {
  user_id = claims.sub;
  permissions = claims.permissions;
  metadata = claims.metadata;
}

module _ {J : Type 0} (lib : JwtLibrary J) where
  authenticate-eq-ok :
      (r : Reading) (token : Text) (s : SessionService J) (user : AuthenticatedUser J)
      → (authenticate lib r token s).1 ≡ ok user
      → (claims : JwtClaims J) × ((verify_session lib r token s).1 ≡ ok claims)
        × (user ≡ user_of claims)
  unfolding authenticate
  authenticate-eq-ok r token s user h =
      let (claims, v, made) = >>=-eq-ok (map_err auth_error (verify_session lib r token s).1) _ h in
      (claims, map_err-eq-ok auth_error (verify_session lib r token s).1 v, cc)

  -- The user whom a service lets in through the provider of sessions is the subject of a session
  -- that `verify_session` accepts for the request's credential, with the permissions of its claims.
  pub authorize_request-session :
      {HM HV : Type 0} (http : Http HM HV) (r : Reading) (s : SessionService J) (method : Text)
      (headers : HM) (config : AuthTransportConfig) (groups : List (List Text))
      (user : AuthenticatedUser J)
      → authorize_request http method headers config (some (jwt_auth_provider lib r s)) groups
        ≡ ok user
      → (credential : AuthCredential) × (claims : JwtClaims J) × (extract_auth_credential http
            headers config
          ≡ ok credential)
        × ((verify_session lib r credential.token s).1 ≡ ok claims)
        × (user ≡ user_of claims)
  unfolding IsAuthorized jwt_auth_provider
  authorize_request-session http r s method headers config groups user h =
      let (credential, provider, extracted, checked, there, verified, granted) =
        (authorize_request-eq-ok_iff http method headers config (some (jwt_auth_provider lib r s))
            groups user).0
          h in
      let own : provider ≡ jwt_auth_provider lib r s = cc in
      let verified' : (authenticate lib r credential.token s).1 ≡ ok user =
        subst (λ p. p.authenticate credential.token ≡ ok user) own verified in
      let (claims, accepted, made) = authenticate-eq-ok r credential.token s user verified' in
      (credential, claims, extracted, accepted, made)
