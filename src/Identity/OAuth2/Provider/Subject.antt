-- ===== src/Identity/OAuth2/Provider/Subject.antt =====
-- provider.rs: the user information of a callback is that of the subject of its ID token.
use rust_api_stack.Base.{
  ◌≡◌, Option, none, some, Option-cases, inl, inr, ok, ok_or, >>=-eq-ok, ok_or-eq-ok, subst, arith,
}
use rust_api_stack.Base.Text.{Text, Text-eq, text_eq_iff}
use rust_api_stack.Base.HashMap.{HashMap, get}
use rust_api_stack.Base.Int.{ℤ}
use rust_api_stack.Identity.StateStore.{OAuth2State, InMemoryStateStore}
use rust_api_stack.Identity.OAuth2.{
  OAuth2ProviderConfig, AuthorizationResponse, TokenResponse, UserInfoResponse, IdTokenClaims,
  IdTokenLibrary, OAuth2HttpTransport, decode_id_token_claims, handle_callback, validate,
  validate_if_some,
}
use rust_api_stack.Identity.OAuth2.IdToken.{passed, IsAccepted, validate_id_token_claims-IsAccepted}
use rust_api_stack.Identity.OAuth2.Callback.{handle_callback-IsCompleted}
use rust_api_stack.Identity.OAuth2.Provider.{
  id_token_subject, check_subject, user_info_of, checked_user_info, callback_user_info,
}

module _ (lib : IdTokenLibrary) where
  -- The ID token was accepted for the flow, and names this subject.
  abbrev pub IsSubject : OAuth2ProviderConfig → ℤ → Option Text → Option Text → Text → Type 0
  IsSubject config seconds expected none sub = Unit
  IsSubject config seconds expected (some id_token) sub =
      (claims : IdTokenClaims) × (decode_id_token_claims lib id_token ≡ ok claims)
      × IsAccepted lib config seconds expected claims
      × (claims.sub ≡ some sub)

  check_subject-IsSubject :
      (config : OAuth2ProviderConfig) (seconds : ℤ) (expected id_token : Option Text) (sub : Text)
      → validate_if_some lib config seconds id_token expected ≡ ok tt
      → check_subject lib id_token sub ≡ ok tt
      → IsSubject config seconds expected id_token sub
  unfolding validate_if_some check_subject id_token_subject
  check_subject-IsSubject config seconds expected none sub v h = tt
  check_subject-IsSubject config seconds expected (some id_token) sub v h =
      let (claims, decoded, accepted) =
        validate_id_token_claims-IsAccepted lib config seconds id_token expected v in
      let (subject, got, h) = >>=-eq-ok (id_token_subject lib id_token) _ h in
      let (id_sub, named, h) = >>=-eq-ok (ok_or subject _) _ h in
      let same : id_sub ≡ sub = (text_eq_iff id_sub sub).0 (passed _ h) in
      let is : subject ≡ some id_sub = ok_or-eq-ok _ _ named in
      let (again, decoded', read) = >>=-eq-ok (decode_id_token_claims lib id_token) _ got in
      let one : again ≡ claims = cc in
      let it : claims.sub ≡ subject = subst (λ x. x.sub ≡ subject) one (ground (arith, read)) in
      (claims, decoded, accepted, cc)

module _ {J : Type 0} (lib : IdTokenLibrary) (transport : OAuth2HttpTransport J) where
  -- User information that a callback yields is what the userinfo endpoint of a configured provider
  -- answers to the access token of that callback, for a flow that was pending under the state
  -- parameter. Where the tokens have an ID token, it was accepted for that flow, and its subject is
  -- the one of the user information.
  pub callback_user_info-IsSubject :
      (provider_configs : HashMap Text OAuth2ProviderConfig) (provider_id : Text)
      (response : AuthorizationResponse) (now seconds : ℤ) (s : InMemoryStateStore J)
      (info : UserInfoResponse J)
      → (callback_user_info lib transport provider_configs provider_id response now seconds s).1
        ≡ ok info
      → (config : OAuth2ProviderConfig) × (tokens : TokenResponse) × (flow : OAuth2State J)
        × (endpoint : Text) × (get provider_id provider_configs ≡ some config)
        × ((handle_callback lib transport config response now seconds s).1 ≡ ok tokens)
        × (get response.state s.states ≡ some flow)
        × (config.userinfo_endpoint ≡ some endpoint)
        × (transport.get_user_info endpoint tokens.access_token ≡ ok info)
        × IsSubject lib config seconds flow.nonce tokens.id_token info.sub
  unfolding callback_user_info checked_user_info user_info_of
  callback_user_info-IsSubject provider_configs provider_id response now seconds s info h =
      elim (Option-cases (get provider_id provider_configs)) [
        | inl absent ↦ (let no = rw (callback_user_info, absent) at h in cc)
        | inr (config, present) ↦
            let (tokens, done, checked) =
              >>=-eq-ok (handle_callback lib transport config response now seconds s).1 _
                (rw (callback_user_info, present) at h) in
            let ((flow, there, unexpired, completed), secure, gone) =
              handle_callback-IsCompleted lib transport config response now seconds s tokens done in
            let (found, fetched, checked) =
              >>=-eq-ok (user_info_of lib transport config tokens.access_token) _ checked in
            let (u, about_it, same) =
              >>=-eq-ok (check_subject lib tokens.id_token found.sub) _ checked in
            let it : found ≡ info = cc in
            let (v, valid, fetched) = >>=-eq-ok (validate config) _ fetched in
            let (endpoint, has_endpoint, fetched) =
              >>=-eq-ok (ok_or config.userinfo_endpoint _) _ fetched in
            (
              config,
              tokens,
              flow,
              endpoint,
              present,
              done,
              there,
              ok_or-eq-ok _ _ has_endpoint,
              subst (λ x. transport.get_user_info endpoint tokens.access_token ≡ ok x) it fetched,
              subst (λ x. IsSubject lib config seconds flow.nonce tokens.id_token x.sub) it
                  (check_subject-IsSubject lib config seconds flow.nonce tokens.id_token found.sub
                    completed.4 about_it),
            )
      ]
