-- ===== src/Identity/OAuth2/Provider.antt =====
-- provider.rs: the callback of a login up to the user information that the identity is made of.
pub mod Subject
use rust_api_stack.Base.{Option, none, some, not, Result, ok, err, ok_or, reject_if, ◌>>=◌, ◌>>◌}
use rust_api_stack.Base.Text.{Text, Text-eq, text_eq, say, about}
use rust_api_stack.Base.HashMap.{HashMap, get}
use rust_api_stack.Base.Int.{ℤ}
use rust_api_stack.Identity.StateStore.{
  OAuth2Error, InMemoryStateStore, config_error, invalid_id_token,
}
use rust_api_stack.Identity.OAuth2.{
  OAuth2ProviderConfig, AuthorizationResponse, TokenResponse, UserInfoResponse, IdTokenLibrary,
  OAuth2HttpTransport, validate, decode_id_token_claims, handle_callback,
}

module _ (lib : IdTokenLibrary) where
  unfoldable pub id_token_subject : Text → Result OAuth2Error (Option Text)
  id_token_subject id_token = do claims ← decode_id_token_claims lib id_token; ok claims.sub

  -- The subject of the ID token, where there is one, is that of the user information.
  unfoldable pub check_subject : Option Text → Text → Result OAuth2Error (Unit {0})
  check_subject none sub = ok tt
  check_subject (some id_token) sub = do
    subject ← id_token_subject id_token
    id_sub ← ok_or subject (invalid_id_token (say "id_token is missing the required `sub` claim"))
    reject_if (not (text_eq id_sub sub))
        (invalid_id_token (say "userinfo subject does not match id_token subject"))

module _ {J : Type 0} (lib : IdTokenLibrary) (transport : OAuth2HttpTransport J) where
  unfoldable pub user_info_of :
      OAuth2ProviderConfig → Text → Result OAuth2Error (UserInfoResponse J)
  user_info_of config access_token = do
    validate config
    userinfo_endpoint ←
        ok_or config.userinfo_endpoint (config_error (say "User info endpoint not configured"))
    transport.get_user_info userinfo_endpoint access_token

  -- From the tokens on.
  unfoldable pub checked_user_info :
      OAuth2ProviderConfig → TokenResponse → Result OAuth2Error (UserInfoResponse J)
  checked_user_info config tokens = do
    user_info ← user_info_of config tokens.access_token
    check_subject lib tokens.id_token user_info.sub
    ok user_info

  -- `handle_callback` of the provider, before it maps the user information to an identity.
  unfoldable pub callback_user_info :
      HashMap Text OAuth2ProviderConfig
      → Text
      → AuthorizationResponse
      → (now seconds : ℤ) → InMemoryStateStore J
      → InMemoryStateStore J × Result OAuth2Error (UserInfoResponse J)
  callback_user_info provider_configs provider_id response now seconds s =
      elim (get provider_id provider_configs) [
        | none ↦ (s, err (config_error (about "Provider not configured" provider_id)))
        | some config ↦
            let (left, tokens) = handle_callback lib transport config response now seconds s in
            (left, tokens >>= checked_user_info config)
      ]
