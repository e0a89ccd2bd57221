-- ===== src/Auth/Authorize.antt =====
-- crates/core/ras-auth-core/src/authorize.rs: the steps from a request to its user.
pub mod Pipeline
pub mod Entitled
use rust_api_stack.Base.{Option, none, some, List, Result, ok, err, ok_or, map_err, ◌>>=◌, ◌>>◌}
use rust_api_stack.Base.Text.{Text}
use rust_api_stack.Auth.{
  AuthError, AuthenticatedUser, AuthProvider, Caller, anonymous, authenticated,
}
use rust_api_stack.Auth.Http.{Http}
use rust_api_stack.Auth.Transport.{
  AuthTransportConfig, extract_auth_credential, validate_csrf_for_credential,
}
use rust_api_stack.Auth.Permissions.{check_permission_groups}

pub data AuthorizeError : Type 0 where
  missing_credential : AuthorizeError
  csrf_failed : AuthorizeError
  authentication_failed : AuthError → AuthorizeError
  no_auth_provider : AuthorizeError
  permissions_missing : AuthError → AuthorizeError

module _ {HM HV J : Type 0} (http : Http HM HV) where
  unfoldable pub authorize_request :
      Text
      → HM
      → AuthTransportConfig
      → Option (AuthProvider J)
      → List (List Text)
      → Result AuthorizeError (AuthenticatedUser J)
  authorize_request method headers config auth_provider groups = do
    credential ← map_err (λ e. missing_credential) (extract_auth_credential http headers config)
    map_err (λ e. csrf_failed) (validate_csrf_for_credential http method headers credential config)
    provider ← ok_or auth_provider no_auth_provider
    user ← map_err authentication_failed (provider.authenticate credential.token)
    map_err permissions_missing (check_permission_groups provider user groups)
    ok user

  unfoldable pub resolve_caller :
      Text → HM → AuthTransportConfig → Option (AuthProvider J) → Caller J
  resolve_caller method headers config auth_provider =
      elim (extract_auth_credential http headers config) [
        | err e ↦ anonymous
        | ok credential ↦
            elim (validate_csrf_for_credential http method headers credential config) [
              | err e ↦ anonymous
              | ok done ↦ elim auth_provider [
                | none ↦ anonymous
                | some provider ↦ elim (provider.authenticate credential.token) [
                  | err e ↦ anonymous
                  | ok user ↦ authenticated user
                ]
              ]
            ]
      ]
