-- ===== src/Auth.antt =====
-- crates/core/ras-auth-core/src/lib.rs: users, errors, the trait of providers and the caller. `J`
-- is serde_json's value type. A set of permissions is a list of which only membership is read.
pub mod Log
pub mod Http
pub mod Cookie
pub mod Csrf
pub mod Transport
pub mod Permissions
pub mod Authorize
pub mod Redaction
pub mod Jwt
pub mod Examples
use rust_api_stack.Base.{
  Bool, true, false, not, Option, none, some, List, filter, contains, is_empty, if◌then◌else◌,
  Result, ok, err,
}
use rust_api_stack.Base.Text.{Text, Text-eq, Message}

pub data AuthError : Type 0 where
  invalid_token : AuthError
  token_expired : AuthError
  insufficient_permissions : (required has : List Text) → AuthError
  authentication_required : AuthError
  internal : Text → AuthError

pub record AuthenticatedUser (J : Type 0) : Type 0 where
  pub user_id : Text
  pub permissions : List Text
  pub metadata : Option J

pub data Caller (J : Type 0) : Type 0 where
  anonymous : Caller J
  authenticated : AuthenticatedUser J → Caller J

-- An implementation of the trait, at the moment of the call.
pub record AuthProvider (J : Type 0) : Type 0 where
  pub authenticate : Text → Result AuthError (AuthenticatedUser J)
  pub check_permissions : AuthenticatedUser J → List Text → Result AuthError (Unit {0})

module _ {J : Type 0} where
  -- `From<Option<AuthenticatedUser>>`.
  unfoldable pub from_option : Option (AuthenticatedUser J) → Caller J
  from_option (some user) = authenticated user
  from_option none = anonymous

  -- `authenticated` and `into_authenticated`.
  unfoldable pub into_authenticated : Caller J → Option (AuthenticatedUser J)
  into_authenticated (authenticated user) = some user
  into_authenticated anonymous = none

  unfoldable pub is_authenticated : Caller J → Bool
  is_authenticated (authenticated user) = true
  is_authenticated anonymous = false

  -- The body that the trait gives `check_permissions`.
  unfoldable pub default_check_permissions :
      AuthenticatedUser J → List Text → Result AuthError (Unit {0})
  default_check_permissions user required =
      let missing = filter (λ perm. not (contains user.permissions perm)) required in
      if is_empty missing then ok tt else err (insufficient_permissions required user.permissions)
