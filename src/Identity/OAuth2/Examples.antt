-- ===== src/Identity/OAuth2/Examples.antt =====
-- A provider whose payloads are already decoded, and a callback for its one pending flow.
use rust_api_stack.Base.{◌≡◌, refl, none, some, [], ◌∷◌, true, false, ok}
use rust_api_stack.Base.Text.{
  Text, Text-eq, codes, trim, trim_start, is_whitespace, split, text_eq, bytes, utf8, contains_char,
  eq_ignore_ascii_case, to_ascii_lowercase,
}
use rust_api_stack.Base.HashMap.{get}
use rust_api_stack.Base.Int.{pos, ◌≤ℤ◌}
use rust_api_stack.Identity.StateStore.{OAuth2State, InMemoryStateStore, retrieve}
use rust_api_stack.Identity.OAuth2.{
  OAuth2ProviderConfig, AuthorizationResponse, TokenResponse, audiences, IdTokenClaims,
  IdTokenLibrary, OAuth2HttpTransport, UserInfoResponse, decode_id_token_claims,
  validate_id_token_claims, handle_callback, is_text, audience_matches, is_unexpired, nonce_matches,
  has_subject, second_part, validate, check_endpoints, is_https, check_callback, binding_matches,
  reject_denied, validate_if_some,
}
use rust_api_stack.Identity.OAuth2.IdToken.{IsAccepted, validate_id_token_claims-IsAccepted}
use rust_api_stack.Identity.OAuth2.Provider.{
  id_token_subject, check_subject, user_info_of, checked_user_info, callback_user_info,
}
use rust_api_stack.Identity.OAuth2.Provider.Subject.{IsSubject, callback_user_info-IsSubject}
use rust_api_stack.Identity.OAuth2.Callback.{IsCompleted, handle_callback-IsCompleted}

abbrev config : OAuth2ProviderConfig
config = record {
  provider_id = codes "google";
  client_id = codes "app";
  client_secret = codes "s3cret";
  authorization_endpoint = codes "https://id.test/auth";
  token_endpoint = codes "HTTPS://id.test/token";
  userinfo_endpoint = some (codes "https://id.test/me");
  issuer = some (codes "https://id.test");
  redirect_uri = codes "https://app.test/cb";
  allow_insecure_endpoints = false;
}

abbrev claims : IdTokenClaims
claims = record {
  iss = some (codes "https://id.test");
  sub = some (codes "42");
  aud = some (audiences (some (codes "app") ∷ none ∷ []));
  azp = some (codes "app");
  exp = some (pos 50);
  nonce = some (codes "n1");
}

abbrev library : IdTokenLibrary
library = record { decode = some; claims_from_slice = λ bytes. some claims }

abbrev tokens : TokenResponse
tokens = record {
  access_token = codes "at";
  token_type = codes "Bearer";
  expires_in = none;
  refresh_token = none;
  scope = none;
  id_token = some (codes "h.p.s");
}

abbrev user_info : UserInfoResponse Text
user_info = record {
  sub = codes "42";
  email = none;
  email_verified = none;
  name = none;
  given_name = none;
  family_name = none;
  picture = none;
  locale = none;
  additional_claims = [];
}

abbrev transport : OAuth2HttpTransport Text
transport = record {
  get_user_info = λ url token. ok user_info;
  exchange_code = λ url params. ok tokens;
}

abbrev flow : OAuth2State Text
flow = record {
  state = codes "a";
  provider_id = codes "google";
  redirect_uri = codes "https://app.test/cb";
  code_verifier = some (codes "verifier");
  nonce = some (codes "n1");
  binding = some (codes "browser");
  created_at = pos 1;
  expires_at = pos 100;
  metadata = none;
}

abbrev pending : InMemoryStateStore Text
pending = record { states = (codes "a", flow) ∷ []; last_prune = 0; max_states = 8 }

abbrev response : AuthorizationResponse
response = record {
  code = some (codes "c1");
  state = codes "a";
  error = none;
  error_description = none;
  binding = some (codes "browser");
}

accepted :
    validate_id_token_claims library config (pos 9) (codes "h.p.s") (some (codes "n1")) ≡ ok tt
unfolding is_text audience_matches is_unexpired nonce_matches has_subject second_part
    decode_id_token_claims validate_id_token_claims split trim trim_start is_whitespace text_eq
accepted = refl

completed :
    (handle_callback library transport config response (pos 9) (pos 9) pending).1 ≡ ok tokens
unfolding is_text audience_matches is_unexpired nonce_matches has_subject second_part
    decode_id_token_claims validate_id_token_claims split trim trim_start is_whitespace text_eq
    handle_callback validate check_endpoints is_https retrieve get check_callback binding_matches
    reject_denied validate_if_some contains_char eq_ignore_ascii_case to_ascii_lowercase bytes utf8
completed = refl

validate_id_token_claims-IsAccepted_example :
    (found : IdTokenClaims) × (decode_id_token_claims library (codes "h.p.s") ≡ ok found)
    × IsAccepted library config (pos 9) (some (codes "n1")) found
validate_id_token_claims-IsAccepted_example =
    validate_id_token_claims-IsAccepted library config (pos 9) (codes "h.p.s") (some (codes "n1"))
      accepted

handle_callback-IsCompleted_example :
    ((found : OAuth2State Text) × (get response.state pending.states ≡ some found)
      × (pos 9 ≤ℤ found.expires_at)
      × IsCompleted library transport config response (pos 9) found tokens)
    × ((config.allow_insecure_endpoints ≡ false) → is_https config.token_endpoint ≡ true)
    × (get response.state
          (handle_callback library transport config response (pos 9) (pos 9) pending).0.states
        ≡ none)
handle_callback-IsCompleted_example =
    handle_callback-IsCompleted library transport config response (pos 9) (pos 9) pending tokens
      completed

known :
    (callback_user_info library transport
      ((codes "google", config) ∷ [])
      (codes "google")
      response
      (pos 9)
      (pos 9)
      pending).1
    ≡ ok user_info
unfolding is_text audience_matches is_unexpired nonce_matches has_subject second_part
    decode_id_token_claims validate_id_token_claims split trim trim_start is_whitespace text_eq
    handle_callback validate check_endpoints is_https retrieve get check_callback binding_matches
    reject_denied validate_if_some contains_char eq_ignore_ascii_case to_ascii_lowercase bytes utf8
    callback_user_info checked_user_info user_info_of check_subject id_token_subject
known = refl

callback_user_info-IsSubject_example :
    (found : OAuth2ProviderConfig) × (got : TokenResponse) × (taken : OAuth2State Text)
    × (endpoint : Text) × (get (codes "google") ((codes "google", config) ∷ []) ≡ some found)
    × ((handle_callback library transport found response (pos 9) (pos 9) pending).1 ≡ ok got)
    × (get response.state pending.states ≡ some taken)
    × (found.userinfo_endpoint ≡ some endpoint)
    × (transport.get_user_info endpoint got.access_token ≡ ok user_info)
    × IsSubject library found (pos 9) taken.nonce got.id_token user_info.sub
callback_user_info-IsSubject_example =
    callback_user_info-IsSubject library transport ((codes "google", config) ∷ []) (codes "google")
      response (pos 9) (pos 9) pending user_info known
