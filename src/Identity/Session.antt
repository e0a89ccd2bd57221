-- ===== src/Identity/Session.antt =====
-- crates/identity/ras-identity-session: the claims of a session, its errors, and the traits of
-- crates/core/ras-identity-core that it calls. `J` is serde_json's value type.
pub mod Config
pub mod Jwt
pub mod Service
use rust_api_stack.Base.{Option, List, [], Result, ok}
use rust_api_stack.Base.{◌++◌, ◌∷◌}
use rust_api_stack.Base.Text.{Text, Message}
use rust_api_stack.Base.Int.{ℤ}

pub record VerifiedIdentity (J : Type 0) : Type 0 where
  pub provider_id : Text
  pub subject : Text
  pub email : Option Text
  pub display_name : Option Text
  pub metadata : Option J

pub data IdentityError : Type 0 where
  invalid_credentials : IdentityError
  provider_not_found : Text → IdentityError
  provider_error : Message → IdentityError
  unsupported_method : IdentityError
  invalid_payload : IdentityError
  session_error : Message → IdentityError
  serialization_error : Message → IdentityError

abbrev pub IdentityResult : Type 0 → Type 0
IdentityResult A = Result IdentityError A

-- An implementation of the trait, at the moment of the call.
pub record IdentityProvider (J : Type 0) : Type 0 where
  pub provider_id : Text
  pub verify : J → IdentityResult (VerifiedIdentity J)

-- The trait `UserPermissions`, and its two implementations.
abbrev pub UserPermissions : Type 0 → Type 0
UserPermissions J = VerifiedIdentity J → IdentityResult (List Text)

pub noop_permissions : {J : Type 0} → UserPermissions J
noop_permissions identity = ok []

pub static_permissions : {J : Type 0} → List Text → UserPermissions J
static_permissions permissions identity = ok permissions

pub record JwtClaims (J : Type 0) : Type 0 where
  pub sub : Text
  pub exp : ℤ
  pub iat : ℤ
  pub nbf : Option ℤ
  pub jti : Text
  pub provider_id : Text
  pub email : Option Text
  pub display_name : Option Text
  pub permissions : List Text
  pub metadata : Option J
  pub iss : Option Text
  pub aud : Option Text

pub data SessionError : Type 0 where
  jwt_error : Message → SessionError
  token_expired : SessionError
  identity_error : IdentityError → SessionError
  session_not_found : SessionError
  invalid_session : SessionError
  invalid_config : Message → SessionError

-- "<provider_id>:<subject>"
unfoldable pub user_id : {J : Type 0} → VerifiedIdentity J → Text
user_id identity = identity.provider_id ++ b':' ∷ identity.subject
