-- ===== src/Auth/Transport/Extraction.antt =====
-- Which credential a request has: the bearer token goes before the cookie.
use rust_api_stack.Base.{
  ◌≡◌, refl, ◌⊎◌, inl, inr, true, false, not, ◌||◌, Option, none, some, arith, is_empty, ok, ok_or,
  reject_if, ◌>>=◌, ◌>>◌, Option-cases, >>=-eq-ok, ok_or-eq-ok,
}
use rust_api_stack.Base.Text.{Text, codes, trim, split_once, eq_ignore_ascii_case}
use rust_api_stack.Auth.Http.{Http}
use rust_api_stack.Auth.Cookie.{
  AuthCookieConfig, missing_credentials, invalid_authorization_header, extract_cookie,
}
use rust_api_stack.Auth.Transport.{
  AuthTransportConfig, AuthCredential, from_bearer, from_cookie, bearer_credential,
  cookie_credential, authorization, validate, extract_auth_credential,
}

-- The header is the scheme, in any case, one space, and text around whose token there may be more.
pub IsBearer : Text → AuthCredential → Type 0
IsBearer header credential =
    (scheme : Text) × (token : Text) × (split_once b' ' header ≡ some (scheme, token))
    × (eq_ignore_ascii_case scheme (codes "Bearer") ≡ true)
    × (is_empty (trim token) ≡ false)
    × (credential ≡ record { token = trim token; source = from_bearer })

bearer_credential-IsBearer :
    (header : Text) (credential : AuthCredential)
    → bearer_credential header ≡ ok credential
    → IsBearer header credential
unfolding bearer_credential IsBearer
bearer_credential-IsBearer header credential h = go (split_once b' ' header) refl h
  where
    go :
        (o : Option (Text × Text))
        → split_once b' ' header ≡ o
        → bearer_credential header ≡ ok credential
        → IsBearer header credential
    go none e h = cc (rw e at h)
    go (some (scheme, token)) e h =
        let body : (do
          reject_if (not (eq_ignore_ascii_case scheme (codes "Bearer")) || is_empty (trim token))
              invalid_authorization_header
          ok (record { token = trim token; source = from_bearer }))
            ≡ ok credential =
          rw e at h in
        (scheme, token, e, ground arith, ground arith, ground arith)

module _ {HM HV : Type 0} (http : Http HM HV) where
  pub IsCookieOf : HM → AuthTransportConfig → AuthCredential → Type 0
  IsCookieOf headers config credential =
      (cookie : AuthCookieConfig) × (token : Text) × (config.cookie ≡ some cookie)
      × (extract_cookie http headers cookie.name ≡ ok (some token))
      × (credential ≡ record { token = token; source = from_cookie })

  cookie_credential-eq-ok :
      (headers : HM) (config : AuthTransportConfig) (credential : AuthCredential)
      → cookie_credential http headers config.cookie ≡ ok credential
      → IsCookieOf headers config credential
  unfolding cookie_credential IsCookieOf
  cookie_credential-eq-ok headers config credential h = go config.cookie refl h
    where
      go :
          (o : Option AuthCookieConfig)
          → config.cookie ≡ o
          → cookie_credential http headers config.cookie ≡ ok credential
          → IsCookieOf headers config credential
      go none e h = cc (rw e at h)
      go (some cookie) e h =
          let h' : cookie_credential http headers (some cookie) ≡ ok credential = rw e at h in
          let (found, read, h'') = >>=-eq-ok (extract_cookie http headers cookie.name) _ h' in
          let (token, there, made) = >>=-eq-ok (ok_or found missing_credentials) _ h'' in
          let is_there = ok_or-eq-ok found missing_credentials there in (cookie, token, e, cc, cc)

  -- Where bearer tokens are accepted and the request has an `Authorization` header, the credential
  -- is that header's token; in all other cases it is the configured cookie's one value.
  pub extract_auth_credential-eq-ok :
      (headers : HM) (config : AuthTransportConfig) (credential : AuthCredential)
      → extract_auth_credential http headers config ≡ ok credential
      → ((value : HV) × (header : Text) × (authorization http headers config ≡ some value)
          × (http.to_str value ≡ some header)
          × IsBearer header credential)
        ⊎ ((authorization http headers config ≡ none) × IsCookieOf headers config credential)
  unfolding extract_auth_credential
  extract_auth_credential-eq-ok headers config credential h =
      let (done, valid, h) = >>=-eq-ok (validate config) _ h in
      elim (Option-cases (authorization http headers config)) [
        | inl e ↦ inr (e, cookie_credential-eq-ok headers config credential (rw e at h))
        | inr (value, e) ↦
            let h' : (ok_or (http.to_str value) invalid_authorization_header >>= bearer_credential)
                ≡ ok credential =
              rw e at h in
            let (header, read, made) =
              >>=-eq-ok (ok_or (http.to_str value) invalid_authorization_header) _ h' in
            inl (
              value,
              header,
              e,
              ok_or-eq-ok (http.to_str value) invalid_authorization_header read,
              bearer_credential-IsBearer header credential made,
            )
      ]
