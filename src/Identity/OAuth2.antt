-- ===== src/Identity/OAuth2.antt =====
-- crates/identity/ras-identity-oauth2/src: the callback of a login with OAuth2. client/mod.rs checks
-- the callback and exchanges its code, client/id_token.rs checks an ID token, config.rs is the
-- configuration of a provider. Requests to the provider are the record `OAuth2HttpTransport`.
pub mod IdToken
pub mod Callback
pub mod Provider
pub mod Examples
use rust_api_stack.Base.{
  String, ℕ, Bool, true, false, not, ◌&&◌, ◌||◌, Option, none, some, List, [], ◌∷◌, ltb,
  if◌then◌else◌, length, take, any, all, is_empty, Result, ok, err, reject_if, ok_or, ◌>>=◌, ◌>>◌,
}
use rust_api_stack.Base.Text.{
  Text, Text-eq, codes, text_eq, bytes, trim, split, contains_char, eq_ignore_ascii_case, say,
  about,
}
use rust_api_stack.Base.HashMap.{HashMap, insert}
use rust_api_stack.Base.Int.{ℤ, ltb_ℤ}
use rust_api_stack.Identity.StateStore.{
  OAuth2Error, OAuth2State, InMemoryStateStore, retrieve, config_error, invalid_state,
  invalid_id_token, provider_denied, invalid_callback,
}

-- The fields that these checks and the token request read.
pub record OAuth2ProviderConfig : Type 0 where
  pub provider_id : Text
  pub client_id : Text
  pub client_secret : Text
  pub authorization_endpoint : Text
  pub token_endpoint : Text
  pub userinfo_endpoint : Option Text
  pub issuer : Option Text
  pub redirect_uri : Text
  pub allow_insecure_endpoints : Bool

pub record AuthorizationResponse : Type 0 where
  pub code : Option Text
  pub state : Text
  pub error : Option Text
  pub error_description : Option Text
  pub binding : Option Text

pub record TokenResponse : Type 0 where
  pub access_token : Text
  pub token_type : Text
  pub expires_in : Option ℕ
  pub refresh_token : Option Text
  pub scope : Option Text
  pub id_token : Option Text

-- What the code reads of the JSON value `aud`; an entry of an array that is no string is `none`.
pub data Audience : Type 0 where
  one_audience : Text → Audience
  audiences : List (Option Text) → Audience
  other_audience : Audience

pub record IdTokenClaims : Type 0 where
  pub iss : Option Text
  pub sub : Option Text
  pub aud : Option Audience
  pub azp : Option Text
  pub exp : Option ℤ
  pub nonce : Option Text

-- The crates base64 and serde_json.
pub record IdTokenLibrary : Type 0 where
  pub decode : Text → Option (List ℕ)
  pub claims_from_slice : List ℕ → Option IdTokenClaims

-- `J` is serde_json's value type.
pub record UserInfoResponse (J : Type 0) : Type 0 where
  pub sub : Text
  pub email : Option Text
  pub email_verified : Option Bool
  pub name : Option Text
  pub given_name : Option Text
  pub family_name : Option Text
  pub picture : Option Text
  pub locale : Option Text
  pub additional_claims : HashMap Text J

pub record OAuth2HttpTransport (J : Type 0) : Type 0 where
  pub get_user_info : Text → Text → Result OAuth2Error (UserInfoResponse J)
  pub exchange_code : Text → HashMap Text Text → Result OAuth2Error TokenResponse

-- `get(..8)`, of which only ASCII can agree with the scheme.
unfoldable pub is_https : Text → Bool
is_https url = eq_ignore_ascii_case (take 8 url) (codes "https://")

-- The first endpoint with another scheme is refused, with its message.
unfoldable pub check_endpoints : Text → List (String × Option Text) → Result OAuth2Error (Unit {0})
check_endpoints provider_id [] = ok tt
check_endpoints provider_id ((message, none) ∷ rest) = check_endpoints provider_id rest
check_endpoints provider_id ((message, some url) ∷ rest) =
    let later = check_endpoints provider_id rest in
    if is_https url then later else err (config_error (about message provider_id))

unfoldable pub validate : OAuth2ProviderConfig → Result OAuth2Error (Unit {0})
validate config = do
  reject_if (is_empty config.provider_id || contains_char b':' config.provider_id) (
      config_error
        (about "provider_id must be non-empty and must not contain ':'" config.provider_id))
  if config.allow_insecure_endpoints
      then ok tt
      else check_endpoints config.provider_id (
          ("authorization_endpoint must use https://", some config.authorization_endpoint)
          ∷ ("token_endpoint must use https://", some config.token_endpoint)
          ∷ ("userinfo_endpoint must use https://", config.userinfo_endpoint)
          ∷ [])

-- `o.as_deref() == Some(text)`.
unfoldable pub is_text : Option Text → Text → Bool
is_text none expected = false
is_text (some found) expected = text_eq found expected

unfoldable pub audience_matches : (azp : Option Text) → Text → Option Audience → Bool
audience_matches azp client_id none = false
audience_matches azp client_id (some (one_audience name)) = text_eq name client_id
audience_matches azp client_id (some (audiences names)) =
    if any (λ name. is_text name client_id) names
    then (if ltb 1 (length names) then is_text azp client_id else true)
    else false
audience_matches azp client_id (some other_audience) = false

unfoldable pub is_unexpired : Option ℤ → ℤ → Bool
is_unexpired none now = false
is_unexpired (some exp) now = ltb_ℤ now exp

unfoldable pub nonce_matches : Option Text → Option Text → Bool
nonce_matches none found = true
nonce_matches (some expected) found = is_text found expected

unfoldable pub has_subject : Option Text → Bool
has_subject none = false
has_subject (some sub) = not (is_empty (trim sub))

-- `split('.').nth(1)`.
unfoldable pub second_part : List Text → Option Text
second_part [] = none
second_part (first ∷ []) = none
second_part (first ∷ (second ∷ rest)) = some second

module _ (lib : IdTokenLibrary) where
  unfoldable pub decode_id_token_claims : Text → Result OAuth2Error IdTokenClaims
  decode_id_token_claims id_token = do
    payload ← ok_or (second_part (split b'.' id_token)) (invalid_id_token (say "malformed JWT"))
    data_bytes ← ok_or (lib.decode payload) (invalid_id_token (say "invalid base64 payload"))
    ok_or (lib.claims_from_slice data_bytes) (invalid_id_token (say "invalid JSON payload"))

  -- `now` is in seconds.
  unfoldable pub validate_id_token_claims :
      OAuth2ProviderConfig → ℤ → Text → Option Text → Result OAuth2Error (Unit {0})
  validate_id_token_claims config now id_token expected_nonce = do
    claims ← decode_id_token_claims id_token
    issuer ←
        ok_or config.issuer
          (invalid_id_token (say "provider `issuer` must be configured to accept id_tokens"))
    reject_if (not (is_text claims.iss issuer)) (invalid_id_token (about "issuer mismatch" issuer))
    reject_if (not (audience_matches claims.azp config.client_id claims.aud)) (
        invalid_id_token
          (say "audience does not include this client (or azp mismatch for multi-audience token)"))
    reject_if (not (is_unexpired claims.exp now))
        (invalid_id_token (say "token expired or missing exp"))
    reject_if (not (nonce_matches expected_nonce claims.nonce))
        (invalid_id_token (say "nonce mismatch"))
    reject_if (not (has_subject claims.sub))
        (invalid_id_token (say "id_token is missing the required `sub` claim"))
    ok tt

-- A flow without a binding takes any callback.
unfoldable pub binding_matches : Option Text → Option Text → Bool
binding_matches none presented = true
binding_matches (some expected) none = false
binding_matches (some expected) (some presented) = text_eq (bytes expected) (bytes presented)

unfoldable pub reject_denied : Option Text → Result OAuth2Error (Unit {0})
reject_denied none = ok tt
reject_denied (some error) = err (provider_denied error)

-- The parameters of the token request.
unfoldable pub token_params : OAuth2ProviderConfig → Text → Option Text → HashMap Text Text
token_params config code code_verifier =
    let params = insert (codes "redirect_uri") config.redirect_uri (
      insert (codes "client_secret") config.client_secret (
        insert (codes "client_id") config.client_id (
          insert (codes "code") code
            (insert (codes "grant_type") (codes "authorization_code") [])))) in
    elim code_verifier [
      | none ↦ params
      | some verifier ↦ insert (codes "code_verifier") verifier params
    ]

module _ (lib : IdTokenLibrary) where
  unfoldable pub validate_if_some :
      OAuth2ProviderConfig → ℤ → Option Text → Option Text → Result OAuth2Error (Unit {0})
  validate_if_some config now none expected = ok tt
  validate_if_some config now (some id_token) expected =
      validate_id_token_claims lib config now id_token expected

module _ {J : Type 0} (lib : IdTokenLibrary) (transport : OAuth2HttpTransport J) where
  -- From the retrieved flow on.
  unfoldable pub check_callback :
      OAuth2ProviderConfig
      → AuthorizationResponse
      → ℤ
      → OAuth2State J
      → Result OAuth2Error TokenResponse
  check_callback config response now flow = do
    reject_if (not (text_eq flow.provider_id config.provider_id)) invalid_state
    reject_if (not (binding_matches flow.binding response.binding)) invalid_state
    reject_denied response.error
    code ← ok_or response.code invalid_callback
    tokens ←
        transport.exchange_code config.token_endpoint (token_params config code flow.code_verifier)
    validate_if_some lib config now tokens.id_token flow.nonce
    ok tokens

  -- `now` is the clock of the store, and `seconds` the later one of the ID token.
  unfoldable pub handle_callback :
      OAuth2ProviderConfig
      → AuthorizationResponse
      → (now seconds : ℤ) → InMemoryStateStore J
      → InMemoryStateStore J × Result OAuth2Error TokenResponse
  handle_callback config response now seconds s = elim (validate config) [
    | err e ↦ (s, err e)
    | ok valid ↦
        let (left, found) = retrieve now response.state s in
        (left, found >>= check_callback config response seconds)
  ]
