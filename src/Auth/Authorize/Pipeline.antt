-- ===== src/Auth/Authorize/Pipeline.antt =====
-- The steps of `authorize_request`, and `resolve_caller` beside it.
use rust_api_stack.Base.{
  ◌≡◌, refl, subst, ◌↔◌, true, Option, none, some, List, [], arith, Result, ok, err, ok_or, map_err,
  >>=-eq-ok, ok_or-eq-ok, map_err-eq-ok,
}
use rust_api_stack.Base.Text.{Text}
use rust_api_stack.Auth.{AuthenticatedUser, AuthProvider, from_option}
use rust_api_stack.Auth.Http.{Http}
use rust_api_stack.Auth.Csrf.{CsrfConfig, validate_headers, is_unsafe_method}
use rust_api_stack.Auth.Csrf.DoubleSubmit.{HasHeader, HasCookie, validate_headers-double_submit}
use rust_api_stack.Auth.Transport.{
  AuthTransportConfig, AuthCredential, is_from_cookie, validate_some, extract_auth_credential,
  validate_csrf_for_credential,
}
use rust_api_stack.Auth.Permissions.{check_permission_groups}
use rust_api_stack.Auth.Authorize.{
  missing_credential, csrf_failed, authentication_failed, no_auth_provider, permissions_missing,
  authorize_request, resolve_caller,
}

abbrev pub to_option : {E A : Type 0} → Result E A → Option A
to_option (ok a) = some a
to_option (err e) = none

module _ {HM HV : Type 0} (http : Http HM HV) where
  validate_csrf-forced :
      (method : Text) (headers : HM) (credential : AuthCredential) (config : AuthTransportConfig)
      → validate_csrf_for_credential http method headers credential config ≡ ok tt
      → is_from_cookie credential.source ≡ true
      → is_unsafe_method method ≡ true
      → validate_some (λ csrf. validate_headers http csrf headers) config.csrf ≡ ok tt
  unfolding validate_csrf_for_credential
  validate_csrf-forced method headers credential config h cookie unsafe = ground arith

module _ {HM HV J : Type 0} (http : Http HM HV) where
  -- The chain of evidence for a user.
  unfoldable pub IsAuthorized :
      Text
      → HM
      → AuthTransportConfig
      → Option (AuthProvider J)
      → List (List Text)
      → AuthenticatedUser J
      → Type 0
  IsAuthorized method headers config auth_provider groups user =
      (credential : AuthCredential) × (provider : AuthProvider J) × (extract_auth_credential http
          headers config
        ≡ ok credential)
      × (validate_csrf_for_credential http method headers credential config ≡ ok tt)
      × (auth_provider ≡ some provider)
      × (provider.authenticate credential.token ≡ ok user)
      × (check_permission_groups provider user groups ≡ ok tt)

  -- The steps succeed together, for one user.
  pub authorize_request-eq-ok_iff :
      (method : Text) (headers : HM) (config : AuthTransportConfig)
      (auth_provider : Option (AuthProvider J)) (groups : List (List Text))
      (user : AuthenticatedUser J)
      → (authorize_request http method headers config auth_provider groups ≡ ok user)
        ↔ IsAuthorized method headers config auth_provider groups user
  unfolding authorize_request IsAuthorized
  authorize_request-eq-ok_iff method headers config auth_provider groups user = (
    λ h.
        let (credential, h1, h) =
          >>=-eq-ok
            (map_err (λ e. missing_credential) (extract_auth_credential http headers config)) _ h in
        let (checked, h2, h) =
          >>=-eq-ok
            (map_err (λ e. csrf_failed)
              (validate_csrf_for_credential http method headers credential config))
            _ h in
        let (provider, h3, h) = >>=-eq-ok (ok_or auth_provider no_auth_provider) _ h in
        let (found, h4, h) =
          >>=-eq-ok (map_err authentication_failed (provider.authenticate credential.token)) _ h in
        let (done, h5, h) =
          >>=-eq-ok (map_err permissions_missing (check_permission_groups provider found groups)) _
            h in
        let same : found ≡ user = cc in
        (
          credential,
          provider,
          map_err-eq-ok _ _ h1,
          map_err-eq-ok _ _ h2,
          ok_or-eq-ok auth_provider no_auth_provider h3,
          rw (map_err-eq-ok authentication_failed (provider.authenticate credential.token) h4, same)
              refl,
          subst (λ u. check_permission_groups provider u groups ≡ ok tt) same
              (map_err-eq-ok permissions_missing (check_permission_groups provider found groups)
                h5),
        ),
    λ (credential, provider, extracted, checked, there, verified, granted).
        rw (extracted, checked, there, verified, granted) refl,
  )

  -- A request with an unsafe method that is let in on a cookie has shown a header that carries the
  -- bytes of its CSRF cookie, where the configuration is in the double-submit mode.
  pub authorize_request-double_submit :
      (method : Text) (headers : HM) (config : AuthTransportConfig)
      (auth_provider : Option (AuthProvider J)) (groups : List (List Text))
      (user : AuthenticatedUser J) (credential : AuthCredential) (csrf : CsrfConfig)
      (cookie_name : Text)
      → authorize_request http method headers config auth_provider groups ≡ ok user
      → extract_auth_credential http headers config ≡ ok credential
      → is_from_cookie credential.source ≡ true
      → is_unsafe_method method ≡ true
      → config.csrf ≡ some csrf
      → csrf.expected_value ≡ none
      → csrf.cookie_name ≡ some cookie_name
      → (value : Text) × HasHeader http csrf headers value
        × HasCookie http headers cookie_name value
  unfolding IsAuthorized
  authorize_request-double_submit method headers config auth_provider groups user credential csrf
        cookie_name h extracted cookie unsafe configured static double =
      let (own, provider, extracted', checked, there, verified, granted) =
        (authorize_request-eq-ok_iff method headers config auth_provider groups user).0 h in
      let same : own ≡ credential = cc in
      let checked' : validate_csrf_for_credential http method headers credential config ≡ ok tt =
        rw (← same) checked in
      let forced =
        validate_csrf-forced http method headers credential config checked' cookie unsafe in
      let passed : validate_headers http csrf headers ≡ ok tt = rw configured at forced in
      ((validate_headers-double_submit http csrf cookie_name headers static double).0 passed).1

  -- An optional caller is whoever the same request would authorize for any authenticated user, and
  -- anonymous whenever that request would be refused.
  pub resolve_caller_lem :
      (method : Text) (headers : HM) (config : AuthTransportConfig)
      (auth_provider : Option (AuthProvider J))
      → resolve_caller http method headers config auth_provider
        ≡ from_option (to_option (authorize_request http method headers config auth_provider []))
  unfolding resolve_caller authorize_request from_option check_permission_groups
  resolve_caller_lem method headers config auth_provider = ground arith
