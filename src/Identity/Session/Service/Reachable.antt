-- ===== src/Identity/Session/Service/Reachable.antt =====
-- session.rs, `register_provider`: the provider IDs of a service after any calls.
use rust_api_stack.Base.{
  ◌≡◌, ◌≢◌, refl, ◌∙◌, inl, inr, false, Option, none, some, List, [], ◌∷◌, arith, ok, Result-cases,
}
use rust_api_stack.Base.Text.{Text, Text-eq, contains_char, text_eq_iff}
use rust_api_stack.Base.HashMap.{get, get-insert}
use rust_api_stack.Identity.Session.{JwtClaims, IdentityProvider}
use rust_api_stack.Identity.Session.Config.{SessionConfig}
use rust_api_stack.Identity.Session.Jwt.{JwtLibrary}
use rust_api_stack.Identity.Session.Service.{
  SessionService, Reading, new, cleanup_expired_sessions, maybe_lazy_cleanup, register_provider,
  track, issue, begin_session, verify_session, end_session,
}
use rust_api_stack.Identity.Session.Service.Calls.{
  Call, registers, grants, begins, verifies, ends, cleans, step, run,
}
use rust_api_stack.Identity.Session.Service.Issue.{issue-IsIssued}
use rust_api_stack.Identity.Session.Service.Namespace.{issue-sub_distinct}

module _ {J : Type 0} where
  -- No provider is registered under an ID with a colon.
  IsPlain : SessionService J → Type 0
  IsPlain s =
      (p : Text) (provider : IdentityProvider J)
      → get p s.providers ≡ some provider
      → contains_char b':' p ≡ false

  providers-maybe_lazy_cleanup :
      (r : Reading) (s : SessionService J) → (maybe_lazy_cleanup r s).providers ≡ s.providers
  unfolding maybe_lazy_cleanup cleanup_expired_sessions
  providers-maybe_lazy_cleanup r s = ground arith

  providers-track : (c : JwtClaims J) (s : SessionService J) → (track c s).providers ≡ s.providers
  unfolding track
  providers-track c s = ground arith

  register_provider-IsPlain :
      (provider : IdentityProvider J) (s s' : SessionService J)
      → register_provider provider s ≡ some s'
      → IsPlain s
      → IsPlain s'
  unfolding register_provider IsPlain
  register_provider-IsPlain provider s s' h plain p found e = ground (
    arith,
    get-insert provider.provider_id p provider s.providers,
    text_eq_iff provider.provider_id p,
    plain p found,
  )

module _ {J : Type 0} (lib : JwtLibrary J) where
  providers-begin_session :
      (r : Reading) (id : Text) (payload : J) (s : SessionService J)
      → (begin_session lib r id payload s).0.providers ≡ s.providers
  unfolding begin_session
  providers-begin_session r id payload s =
      elim (Result-cases (issue r id payload (maybe_lazy_cleanup r s))) [
        | inl (claims, e) ↦
            rw (begin_session, e)
              (providers-track claims (maybe_lazy_cleanup r s) ∙ providers-maybe_lazy_cleanup r s)
        | inr (f, e) ↦ rw (begin_session, e) (providers-maybe_lazy_cleanup r s)
      ]

  step-IsPlain : (s : SessionService J) (c : Call J) → IsPlain s → IsPlain (step lib s c)
  unfolding step IsPlain verify_session end_session cleanup_expired_sessions
  step-IsPlain s (registers provider) plain = go (register_provider provider s) refl
    where
      go :
          (o : Option (SessionService J))
          → register_provider provider s ≡ o
          → IsPlain (step lib s (registers provider))
      go none e = rw (step, e) plain
      go (some s') e = rw (step, e) (register_provider-IsPlain provider s s' e plain)
  step-IsPlain s (grants provider) plain = plain
  step-IsPlain s (begins r id payload) plain = rw (providers-begin_session r id payload s) plain
  step-IsPlain s (verifies r token) plain = rw (providers-maybe_lazy_cleanup r s) plain
  step-IsPlain s (ends jti) plain = plain
  step-IsPlain s (cleans now) plain = plain

  run-IsPlain : (s : SessionService J) (cs : List (Call J)) → IsPlain s → IsPlain (run lib s cs)
  unfolding run
  run-IsPlain s [] plain = plain
  run-IsPlain s (c ∷ cs) plain = run-IsPlain (step lib s c) cs (step-IsPlain s c plain)

  new-IsPlain : (config : SessionConfig) (s : SessionService J) → new config ≡ ok s → IsPlain s
  unfolding new IsPlain get
  new-IsPlain config s h p provider e =
      let bare : s.providers ≡ [] = ground arith in cc (rw bare at e)

  -- Whatever calls two services have served since they were made, sessions begun with two different
  -- providers never get one user ID.
  pub reached-sub_distinct :
      (config config' : SessionConfig) (s s' : SessionService J) (cs cs' : List (Call J))
      (r r' : Reading) (p q : Text) (payload payload' : J) (c d : JwtClaims J)
      → new config ≡ ok s
      → new config' ≡ ok s'
      → p ≢ q
      → issue r p payload (run lib s cs) ≡ ok c
      → issue r' q payload' (run lib s' cs') ≡ ok d
      → c.sub ≢ d.sub
  unfolding IsPlain
  reached-sub_distinct config config' s s' cs cs' r r' p q payload payload' c d made made' other h
        k =
      let v = issue-IsIssued r p payload (run lib s cs) c h in
      let w = issue-IsIssued r' q payload' (run lib s' cs') d k in
      issue-sub_distinct r r' p q payload payload' (run lib s cs) (run lib s' cs') c d
        (run-IsPlain s cs (new-IsPlain config s made) p v.provider v.registered)
        (run-IsPlain s' cs' (new-IsPlain config' s' made') q w.provider w.registered) other h k
