-- ===== src/Identity/Session/Service/Lifetime.antt =====
-- session.rs, one token: when `verify_session` accepts it, and when it no longer does.
use rust_api_stack.Base.{
  ◌≡◌, refl, sym, ap, subst, ◌↔◌, ◌∙◌, true, false, Option, none, some, arith, is_some,
  Result-cases, inl, inr, ok, ◌>>=◌,
}
use rust_api_stack.Base.Text.{Text, Text-eq, text_eq_iff}
use rust_api_stack.Base.HashMap.{IsMap, get, contains_key, get-insert_self}
use rust_api_stack.Base.Int.{ℤ, ◌+ℤ◌, ◌≤ℤ◌, ◌<ℤ◌, timestamp, +ℤ_parts}
use rust_api_stack.Identity.Session.{JwtClaims}
use rust_api_stack.Identity.Session.Config.{SessionConfig}
use rust_api_stack.Identity.Session.Jwt.{JwtLibrary, IsFaithful, encode_jwt, decode_jwt}
use rust_api_stack.Identity.Session.Jwt.RoundTrip.{decode_jwt-encode_jwt}
use rust_api_stack.Identity.Session.Service.{
  SessionService, Reading, clock_skew_leeway_secs, unexpected, premature, maybe_lazy_cleanup, issue,
  evict_surplus, track, check_claims, begin_session, verify_session,
}
use rust_api_stack.Identity.Session.Service.Sweep.{
  config-maybe_lazy_cleanup, get-maybe_lazy_cleanup,
}
use rust_api_stack.Identity.Session.Service.Issue.{issue-IsIssued}

-- What the claims of a token must satisfy at the second `now`.
pub record IsCurrent (J : Type 0) (config : SessionConfig) (now : ℤ) (claims : JwtClaims J)
    : Type 0 where
  pub unexpired : now <ℤ claims.exp
  pub issued : claims.iat ≤ℤ now +ℤ clock_skew_leeway_secs
  pub begun : (nbf : ℤ) → claims.nbf ≡ some nbf → nbf ≤ℤ now +ℤ clock_skew_leeway_secs
  pub issuer : (iss : Text) → config.iss ≡ some iss → claims.iss ≡ some iss
  pub audience : (aud : Text) → config.aud ≡ some aud → claims.aud ≡ some aud

unexpected_iff :
    (expected actual : Option Text)
    → (unexpected expected actual ≡ false) ↔ ((e : Text) → expected ≡ some e → actual ≡ some e)
unexpected_iff none actual = (λ h e q. cc, λ h. refl)
unexpected_iff (some e) none = (λ h f q. cc, λ h. cc (h e refl))
unexpected_iff (some e) (some a) =
    (λ h f q. ground (arith, text_eq_iff a e), λ h. ground (arith, text_eq_iff a e, h e refl))

premature_iff :
    (nbf : Option ℤ) (now : ℤ)
    → (premature nbf now ≡ false) ↔ ((n : ℤ) → nbf ≡ some n → n ≤ℤ now +ℤ clock_skew_leeway_secs)
premature_iff none now = (λ h n q. cc, λ h. refl)
premature_iff (some n) now = (λ h m q. ground arith, λ h. ground (arith, h n refl))

module _ {J : Type 0} where
  abbrev pub IsTracked : SessionService J → JwtClaims J → Type 0
  IsTracked s claims =
      s.config.enforce_active_sessions ≡ true → contains_key claims.jti s.active_sessions ≡ true

  pub check_claims-eq-ok_iff :
      (now : ℤ) (claims : JwtClaims J) (s : SessionService J)
      → (check_claims now claims s ≡ ok claims)
        ↔ (IsCurrent J s.config now claims × IsTracked s claims)
  unfolding check_claims
  check_claims-eq-ok_iff now claims s = (
    λ h. (
      record {
        unexpired = ground arith;
        issued = ground arith;
        begun = (premature_iff claims.nbf now).0 (ground arith);
        issuer = (unexpected_iff s.config.iss claims.iss).0 (ground arith);
        audience = (unexpected_iff s.config.aud claims.aud).0 (ground arith);
      },
      λ enforced. ground arith,
    ),
    λ (c, tracked). ground (
      arith,
      c.unexpired,
      c.issued,
      (premature_iff claims.nbf now).1 c.begun,
      (unexpected_iff s.config.iss claims.iss).1 c.issuer,
      (unexpected_iff s.config.aud claims.aud).1 c.audience,
      tracked,
    ),
  )

  check_claims_same :
      (now : ℤ) (claims found : JwtClaims J) (s : SessionService J)
      → check_claims now claims s ≡ ok found
      → claims ≡ found
  unfolding check_claims
  check_claims_same now claims found s h = ground arith

  pub config-track :
      (claims : JwtClaims J) (s : SessionService J) → (track claims s).config ≡ s.config
  unfolding track
  config-track claims s = ground arith

module _ {J : Type 0} (lib : JwtLibrary J) where
  decode_check-eq-ok_iff :
      (now : ℤ) (token : Text) (s : SessionService J) (c : JwtClaims J)
      → ((decode_jwt lib token s.config.jwt_secret s.config.algorithm >>= λ claims.
            check_claims now claims s)
          ≡ ok c)
        ↔ ((decode_jwt lib token s.config.jwt_secret s.config.algorithm ≡ ok c)
            × IsCurrent J s.config now c
            × IsTracked s c)
  decode_check-eq-ok_iff now token s c = (
    λ h. elim (Result-cases (decode_jwt lib token s.config.jwt_secret s.config.algorithm)) [
      | inr (e, bad) ↦ cc (rw bad at h)
      | inl (d, good) ↦
          let checked : check_claims now d s ≡ ok c = rw good at h in
          let e : d ≡ c = check_claims_same now d c s checked in
          let (current, tracked) =
            (check_claims-eq-ok_iff now c s).0
              (subst (λ x. check_claims now x s ≡ ok c) e checked) in
          (good ∙ ap ok e, current, tracked)
    ],
    λ (good, current, tracked). rw good ((check_claims-eq-ok_iff now c s).1 (current, tracked)),
  )

  -- A token is accepted, with the claims `c`, exactly if it decodes to them under the secret and the
  -- algorithm of the configuration, they are current by the clock, the issuer and the audience, and,
  -- where active sessions are enforced, the session is still there after the sweep of this call.
  pub verify_session-eq-ok_iff :
      (r : Reading) (token : Text) (s : SessionService J) (c : JwtClaims J)
      → ((verify_session lib r token s).1 ≡ ok c) ↔ (
          (decode_jwt lib token s.config.jwt_secret s.config.algorithm ≡ ok c)
          × IsCurrent J s.config (timestamp r.now) c
          × IsTracked (maybe_lazy_cleanup r s) c)
  unfolding verify_session
  verify_session-eq-ok_iff r token s c =
      subst
        (λ k. ((verify_session lib r token s).1 ≡ ok c) ↔ (
          (decode_jwt lib token k.jwt_secret k.algorithm ≡ ok c)
          × IsCurrent J k (timestamp r.now) c
          × IsTracked (maybe_lazy_cleanup r s) c))
        (config-maybe_lazy_cleanup r s)
        (decode_check-eq-ok_iff (timestamp r.now) token (maybe_lazy_cleanup r s) c)

  begin_session_opened :
      (r : Reading) (provider_id token : Text) (payload : J) (s s' : SessionService J)
      (claims : JwtClaims J)
      → issue r provider_id payload (maybe_lazy_cleanup r s) ≡ ok claims
      → begin_session lib r provider_id payload s ≡ (s', ok token)
      → (s' ≡ track claims (maybe_lazy_cleanup r s))
        × (encode_jwt lib claims
              (maybe_lazy_cleanup r s).config.jwt_secret
              (maybe_lazy_cleanup r s).config.algorithm
            ≡ ok token)
  unfolding begin_session
  begin_session_opened r provider_id token payload s s' claims i b = ground arith

  get-track :
      (claims : JwtClaims J) (s : SessionService J)
      → s.config.enforce_active_sessions ≡ true
      → get claims.jti (track claims s).active_sessions ≡ some claims
  unfolding track
  get-track claims s e = ground (
    arith,
    get-insert_self claims.jti claims
        (evict_surplus s.config.max_sessions_per_user claims.sub s.active_sessions),
  )

  -- A session that `begin_session` opened is accepted by `verify_session` on the service that it left,
  -- with the claims that it was issued for, from its second of issue until its expiry.
  pub verify_session-begin_session :
      (r later : Reading) (provider_id token : Text) (payload : J) (s s' : SessionService J)
      (claims : JwtClaims J)
      → issue r provider_id payload (maybe_lazy_cleanup r s) ≡ ok claims
      → begin_session lib r provider_id payload s ≡ (s', ok token)
      → IsFaithful lib claims
      → IsMap s'.active_sessions
      → timestamp r.now ≤ℤ timestamp later.now
      → timestamp later.now <ℤ claims.exp
      → later.sweep_now <ℤ claims.exp
      → (verify_session lib later token s').1 ≡ ok claims
  verify_session-begin_session r later provider_id token payload s s' claims i b f m p q u =
      let swept = maybe_lazy_cleanup r s in
      let v = issue-IsIssued r provider_id payload swept claims i in
      let (left, encoded) = begin_session_opened r provider_id token payload s s' claims i b in
      let same : s'.config ≡ swept.config = ap (λ x. x.config) left ∙ config-track claims swept in
      let later_config = config-maybe_lazy_cleanup later s' in
      (verify_session-eq-ok_iff later token s' claims).1 (
        subst (λ k. decode_jwt lib token k.jwt_secret k.algorithm ≡ ok claims) (sym same)
            (decode_jwt-encode_jwt lib claims swept.config.jwt_secret swept.config.algorithm token f
              encoded),
        record {
          unexpired = q;
          issued = ground (arith, v.iat, +ℤ_parts (timestamp later.now) clock_skew_leeway_secs);
          begun = λ nbf e. cc (v.nbf, e);
          issuer = λ iss e. cc (v.iss, ap (λ k. k.iss) same, e);
          audience = λ aud e. cc (v.aud, ap (λ k. k.aud) same, e);
        },
        λ enforced.
            let on : swept.config.enforce_active_sessions ≡ true = cc (
              enforced,
              ap (λ k. k.enforce_active_sessions) later_config,
              ap (λ k. k.enforce_active_sessions) same,
            ) in
            let there : get claims.jti s'.active_sessions ≡ some claims =
              ap (λ x. get claims.jti x.active_sessions) left ∙ get-track claims swept on in
            ap is_some (get-maybe_lazy_cleanup later s' claims.jti claims m there (ground arith)),
      )
