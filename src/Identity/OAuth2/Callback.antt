-- ===== src/Identity/OAuth2/Callback.antt =====
-- client/mod.rs: what a successful callback has shown.
use rust_api_stack.Base.{
  ◌≡◌, true, false, not, Option, none, some, ok, arith, refl, >>=-eq-ok, ok_or-eq-ok, reject_if,
  ok_or, subst, Result-cases, inl, inr,
}
use rust_api_stack.Base.Text.{Text, Text-eq, text_eq, text_eq_iff, bytes}
use rust_api_stack.Base.HashMap.{get}
use rust_api_stack.Base.Int.{ℤ, ◌≤ℤ◌}
use rust_api_stack.Identity.StateStore.{OAuth2State, InMemoryStateStore, retrieve}
use rust_api_stack.Identity.StateStore.Flows.{retrieve-eq-ok_iff, get-retrieve-none}
use rust_api_stack.Identity.OAuth2.IdToken.{passed}
use rust_api_stack.Identity.OAuth2.{
  OAuth2ProviderConfig, AuthorizationResponse, TokenResponse, IdTokenLibrary, OAuth2HttpTransport,
  is_https, check_endpoints, validate, binding_matches, reject_denied, token_params,
  validate_if_some, check_callback, handle_callback,
}

-- A flow with a binding is completed only by a callback that presents the same bytes.
abbrev pub IsBound : Option Text → Option Text → Type 0
IsBound none presented = Unit
IsBound (some expected) presented =
    (found : Text) × (presented ≡ some found) × (bytes expected ≡ bytes found)

binding_matches-IsBound :
    (expected presented : Option Text)
    → binding_matches expected presented ≡ true
    → IsBound expected presented
unfolding binding_matches
binding_matches-IsBound none presented h = tt
binding_matches-IsBound (some expected) none h = cc
binding_matches-IsBound (some expected) (some found) h =
    (found, refl, (text_eq_iff (bytes expected) (bytes found)).0 h)

reject_denied-none : (error : Option Text) → reject_denied error ≡ ok tt → error ≡ none
unfolding reject_denied
reject_denied-none none h = refl
reject_denied-none (some error) h = cc

validate-is_https :
    (config : OAuth2ProviderConfig)
    → validate config ≡ ok tt
    → config.allow_insecure_endpoints ≡ false
    → is_https config.token_endpoint ≡ true
unfolding validate check_endpoints
validate-is_https config h secure = ground (arith, h, secure)

module _ {J : Type 0} (lib : IdTokenLibrary) (transport : OAuth2HttpTransport J) where
  -- What a completed callback had: a flow of this provider, bound to the caller, no error of the
  -- provider, a code that was exchanged for these tokens with the secrets of the flow, and an ID
  -- token, where there is one, that passed its checks.
  abbrev pub IsCompleted :
      OAuth2ProviderConfig → AuthorizationResponse → ℤ → OAuth2State J → TokenResponse → Type 0
  IsCompleted config response seconds flow tokens =
      (flow.provider_id ≡ config.provider_id)
      × IsBound flow.binding response.binding
      × (response.error ≡ none)
      × ((code : Text) × (response.code ≡ some code)
          × (transport.exchange_code config.token_endpoint
                (token_params config code flow.code_verifier)
              ≡ ok tokens))
      × (validate_if_some lib config seconds tokens.id_token flow.nonce ≡ ok tt)

  check_callback-IsCompleted :
      (config : OAuth2ProviderConfig) (response : AuthorizationResponse) (seconds : ℤ)
      (flow : OAuth2State J) (tokens : TokenResponse)
      → check_callback lib transport config response seconds flow ≡ ok tokens
      → IsCompleted config response seconds flow tokens
  unfolding check_callback
  check_callback-IsCompleted config response seconds flow tokens h =
      let (a, same_provider, h) =
        >>=-eq-ok (reject_if (not (text_eq flow.provider_id config.provider_id)) _) _ h in
      let (b, bound, h) =
        >>=-eq-ok (reject_if (not (binding_matches flow.binding response.binding)) _) _ h in
      let (c, allowed, h) = >>=-eq-ok (reject_denied response.error) _ h in
      let (code, has_code, h) = >>=-eq-ok (ok_or response.code _) _ h in
      let (found, exchanged, h) =
        >>=-eq-ok
          (transport.exchange_code config.token_endpoint
            (token_params config code flow.code_verifier))
          _ h in
      let (d, valid, same) =
        >>=-eq-ok (validate_if_some lib config seconds found.id_token flow.nonce) _ h in
      let it : found ≡ tokens = cc in
      (
        (text_eq_iff flow.provider_id config.provider_id).0 (passed _ same_provider),
        binding_matches-IsBound flow.binding response.binding (passed _ bound),
        reject_denied-none response.error allowed,
        (
          code,
          ok_or-eq-ok _ _ has_code,
          subst
              (λ x.
                transport.exchange_code config.token_endpoint
                  (token_params config code flow.code_verifier)
                ≡ ok x)
              it exchanged,
        ),
        subst (λ x. validate_if_some lib config seconds x.id_token flow.nonce ≡ ok tt) it valid,
      )

  -- A callback that succeeds has consumed a flow that was pending under its state parameter and had
  -- not expired: the flow is of this provider, and is bound to the caller where it has a binding; the
  -- callback reported no error, and its code was exchanged for the tokens, over HTTPS unless the
  -- configuration of the provider allows insecure endpoints; an ID token among them passed its
  -- checks. Afterwards no flow is stored under that state parameter.
  pub handle_callback-IsCompleted :
      (config : OAuth2ProviderConfig) (response : AuthorizationResponse) (now seconds : ℤ)
      (s : InMemoryStateStore J) (tokens : TokenResponse)
      → (handle_callback lib transport config response now seconds s).1 ≡ ok tokens
      → ((flow : OAuth2State J) × (get response.state s.states ≡ some flow)
          × (now ≤ℤ flow.expires_at)
          × IsCompleted config response seconds flow tokens)
        × ((config.allow_insecure_endpoints ≡ false) → is_https config.token_endpoint ≡ true)
        × (get response.state (handle_callback lib transport config response now seconds s).0.states
            ≡ none)
  unfolding handle_callback
  handle_callback-IsCompleted config response now seconds s tokens h =
      elim (Result-cases (validate config)) [
        | inl (u, valid) ↦
            let (flow, found, checked) =
              >>=-eq-ok (retrieve now response.state s).1 _ (rw (handle_callback, valid) at h) in
            let (there, unexpired) = (retrieve-eq-ok_iff now response.state s flow).0 found in
            (
              (
                flow,
                there,
                unexpired,
                check_callback-IsCompleted config response seconds flow tokens checked,
              ),
              validate-is_https config valid,
              rw (handle_callback, valid) (get-retrieve-none now response.state s),
            )
        | inr (e, invalid) ↦ (let no = rw (handle_callback, invalid) at h in cc)
      ]
