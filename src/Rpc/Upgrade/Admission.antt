-- ===== src/Rpc/Upgrade/Admission.antt =====
-- Which credential opens a WebSocket, and for whom.
use rust_api_stack.Base.{
  ◌≡◌, refl, inl, inr, Bool, true, false, Option, none, some, arith, is_empty, Result, ok, err,
  Bool-cases, Option-cases, Result-cases,
}
use rust_api_stack.Base.Text.{Text, codes, trim, split_once, eq_ignore_ascii_case}
use rust_api_stack.Auth.{AuthProvider, AuthenticatedUser}
use rust_api_stack.Auth.Http.{Http}
use rust_api_stack.Auth.Cookie.{AuthTransportError}
use rust_api_stack.Auth.Transport
use rust_api_stack.Auth.Transport.{
  AuthTransportConfig, AuthCredential, bearer_credential, extract_auth_credential,
}
use rust_api_stack.Rpc.Upgrade.{
  bearer_token, extract_auth_token_from_headers, authenticate_headers, on_upgrade_with_auth,
}

-- The token of a credential, if there is one.
abbrev pub token_of : Result AuthTransportError AuthCredential → Option Text
token_of (ok credential) = some credential.token
token_of (err e) = none

bearer-same : (header : Text) → bearer_token header ≡ token_of (bearer_credential header)
unfolding bearer_token bearer_credential
bearer-same header = elim (Option-cases (split_once b' ' header)) [
  | inl e ↦ rw (bearer_token, bearer_credential, e) refl
  | inr ((scheme, token), e) ↦ elim (Bool-cases (eq_ignore_ascii_case scheme (codes "Bearer"))) [
    | inl s ↦ elim (Bool-cases (is_empty (trim token))) [
      | inl t ↦ rw (bearer_token, bearer_credential, e, s, t) refl
      | inr t ↦ rw (bearer_token, bearer_credential, e, s, t) refl
    ]
    | inr s ↦ rw (bearer_token, bearer_credential, e, s) refl
  ]
]

module _ {HM HV : Type 0} (http : Http HM HV) where
  -- With an `Authorization` header, a WebSocket takes the token that the HTTP transport takes from
  -- it under any valid configuration that accepts bearer tokens, and none where that refuses the
  -- header: a malformed one is not made up for by a weaker place for a token.
  pub extract_auth_token-http :
      (headers : HM) (config : AuthTransportConfig) (value : HV)
      → http.get (codes "authorization") headers ≡ some value
      → config.bearer ≡ true
      → Transport.validate config ≡ ok tt
      → extract_auth_token_from_headers http headers
        ≡ token_of (extract_auth_credential http headers config)
  unfolding extract_auth_token_from_headers extract_auth_credential
  extract_auth_token-http headers config value present bearer valid =
      elim (Option-cases (http.to_str value)) [
        | inl e ↦
            rw (extract_auth_token_from_headers, extract_auth_credential, valid, bearer, present, e)
              refl
        | inr (text, e) ↦
            rw (extract_auth_token_from_headers, extract_auth_credential, valid, bearer, present, e)
              (bearer-same text)
      ]

  module _ {J : Type 0} (provider : AuthProvider J) (require_auth : Bool) (headers : HM) where
    -- A user comes from the provider's answer to the token of the headers; a socket without a user is
    -- opened only where none is required.
    unfoldable pub IsAdmitted : Option (AuthenticatedUser J) → Type 0
    IsAdmitted none = require_auth ≡ false
    IsAdmitted (some user) =
        (token : Text) × (extract_auth_token_from_headers http headers ≡ some token)
        × (provider.authenticate token ≡ ok user)

    -- A WebSocket is opened for a user only on a token of its headers that the provider accepts as
    -- that user's, and without a user only where the service does not require one.
    pub on_upgrade-IsAdmitted :
        (user : Option (AuthenticatedUser J))
        → on_upgrade_with_auth http provider require_auth headers ≡ ok user
        → IsAdmitted user
    unfolding on_upgrade_with_auth authenticate_headers IsAdmitted
    on_upgrade-IsAdmitted none opened = elim (Bool-cases require_auth) [
      | inr e ↦ e
      | inl e ↦ elim (Option-cases (extract_auth_token_from_headers http headers)) [
        | inl t ↦ ground (arith, opened, e, t)
        | inr (token, t) ↦ elim (Result-cases (provider.authenticate token)) [
          | inl (known, a) ↦ ground (arith, opened, e, t, a)
          | inr (bad, a) ↦ ground (arith, opened, e, t, a)
        ]
      ]
    ]
    on_upgrade-IsAdmitted (some user) opened =
        elim (Option-cases (extract_auth_token_from_headers http headers)) [
          | inl t ↦ ground (arith, opened, t)
          | inr (token, t) ↦ elim (Result-cases (provider.authenticate token)) [
            | inl (known, a) ↦
                let same : on_upgrade_with_auth http provider require_auth headers
                    ≡ ok (some known) =
                  rw (on_upgrade_with_auth, authenticate_headers, t, a) refl in
                (token, t, cc)
            | inr (bad, a) ↦ ground (arith, opened, t, a)
          ]
        ]
