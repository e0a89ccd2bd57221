-- ===== src/Identity/Session/Service/Revoke.antt =====
-- session.rs: `end_session` takes effect at once and for good.
use rust_api_stack.Base.{
  ◌≡◌, ◌≢◌, true, none, List, [], ◌∷◌, arith, Result-cases, inl, inr, ok, All, length, take, ◌+◌,
  ◌-◌,
}
use rust_api_stack.Base.Text.{Text, Text-eq, text_eq_iff}
use rust_api_stack.Base.HashMap.{
  HashMap, remove, get, get-insert, get-remove, get-remove_self, get-filter-none,
}
use rust_api_stack.Base.Sort.{sort}
use rust_api_stack.Base.Int.{ℤ}
use rust_api_stack.Identity.Session.{JwtClaims}
use rust_api_stack.Identity.Session.Jwt.{JwtLibrary}
use rust_api_stack.Identity.Session.Service.{
  SessionService, Reading, unexpired, cleanup_expired_sessions, maybe_lazy_cleanup,
  register_provider, issue, owned, owned_le, remove_all, evict_surplus, track, begin_session,
  verify_session, end_session,
}
use rust_api_stack.Identity.Session.Service.Sweep.{
  config-maybe_lazy_cleanup, get-maybe_lazy_cleanup-none,
}
use rust_api_stack.Identity.Session.Service.Issue.{issue-IsIssued}
use rust_api_stack.Identity.Session.Service.Calls.{
  Call, registers, grants, begins, verifies, ends, cleans, step, run,
}
use rust_api_stack.Identity.Session.Service.Lifetime.{config-track, verify_session-eq-ok_iff}

-- The calls that open no session with this `jti`.
abbrev pub Leaves : {J : Type 0} → Text → Call J → Type 0
Leaves jti (registers provider) = Unit
Leaves jti (grants provider) = Unit
Leaves jti (begins r provider_id payload) = r.uuid ≢ jti
Leaves jti (verifies r token) = Unit
Leaves jti (ends other) = Unit
Leaves jti (cleans now) = Unit

-- The session is gone, and the service enforces active sessions.
abbrev pub IsGone : {J : Type 0} → Text → SessionService J → Type 0
IsGone jti s = (s.config.enforce_active_sessions ≡ true) × (get jti s.active_sessions ≡ none)

module _ {J : Type 0} where
  get-remove_all-none :
      (old : List (ℤ × Text)) (jti : Text) (m : HashMap Text (JwtClaims J))
      → get jti m ≡ none
      → get jti (remove_all old m) ≡ none
  unfolding remove_all
  get-remove_all-none [] jti m h = h
  get-remove_all-none ((a, i) ∷ old) jti m h =
      get-remove_all-none old jti (remove i m) (ground (arith, get-remove i jti m))

  get-track-none :
      (jti : Text) (claims : JwtClaims J) (s : SessionService J)
      → claims.jti ≢ jti
      → get jti s.active_sessions ≡ none
      → get jti (track claims s).active_sessions ≡ none
  unfolding track evict_surplus
  get-track-none jti claims s other h =
      let max = s.config.max_sessions_per_user in
      let own = owned claims.sub s.active_sessions in
      let old = take (length own + 1 - max) (sort owned_le own) in
      ground (
        arith,
        get-insert claims.jti jti claims (evict_surplus max claims.sub s.active_sessions),
        get-remove_all-none old jti s.active_sessions h,
        text_eq_iff claims.jti jti,
      )

  module _ (lib : JwtLibrary J) (jti : Text) where
    begin_session-IsGone :
        (r : Reading) (provider_id : Text) (payload : J) (s : SessionService J)
        → r.uuid ≢ jti
        → IsGone jti s
        → IsGone jti (begin_session lib r provider_id payload s).0
    unfolding begin_session
    begin_session-IsGone r provider_id payload s other (on, h) =
        let swept = maybe_lazy_cleanup r s in
        let absent = get-maybe_lazy_cleanup-none r s jti h in
        let same = config-maybe_lazy_cleanup r s in
        elim (Result-cases (issue r provider_id payload swept)) [
          | inr (e, failed) ↦ rw (failed, begin_session) (ground arith, absent)
          | inl (claims, opened) ↦
              let v = issue-IsIssued r provider_id payload swept claims opened in
              rw (opened, begin_session)
                (
                  ground (arith, config-track claims swept),
                  get-track-none jti claims swept (λ e. other (cc (v.jti, e))) absent,
                )
        ]

    step-IsGone :
        (s : SessionService J) (c : Call J)
        → Leaves jti c
        → IsGone jti s
        → IsGone jti (step lib s c)
    unfolding step register_provider verify_session end_session cleanup_expired_sessions
    step-IsGone s (registers provider) l h = ground arith
    step-IsGone s (grants provider) l h = h
    step-IsGone s (begins r provider_id payload) l h =
        begin_session-IsGone r provider_id payload s l h
    step-IsGone s (verifies r token) l (on, h) =
        (ground (arith, config-maybe_lazy_cleanup r s), get-maybe_lazy_cleanup-none r s jti h)
    step-IsGone s (ends other) l (on, h) =
        (on, ground (arith, get-remove other jti s.active_sessions))
    step-IsGone s (cleans now) l (on, h) =
        (on, get-filter-none (unexpired now) jti s.active_sessions h)

    run-IsGone :
        (s : SessionService J) (cs : List (Call J))
        → All (Leaves jti) cs
        → IsGone jti s
        → IsGone jti (run lib s cs)
    unfolding run
    run-IsGone s [] l h = h
    run-IsGone s (c ∷ cs) l h = run-IsGone (step lib s c) cs l.1 (step-IsGone s c l.0 h)

  -- Where active sessions are enforced, no token of an ended session is accepted again, whatever calls
  -- come in between, unless a new session gets the same `jti`.
  pub end_session_final :
      (lib : JwtLibrary J) (r : Reading) (token jti : Text) (s : SessionService J)
      (cs : List (Call J)) (c : JwtClaims J)
      → s.config.enforce_active_sessions ≡ true
      → All (Leaves jti) cs
      → c.jti ≡ jti
      → (verify_session lib r token (run lib (end_session jti s).0 cs)).1 ≢ ok c
  unfolding end_session
  end_session_final lib r token jti s cs c on l same accepted =
      let t = run lib (end_session jti s).0 cs in
      let (still_on, gone) =
        run-IsGone lib jti (end_session jti s).0 cs l (on, get-remove_self jti s.active_sessions) in
      let (_, _, tracked) = (verify_session-eq-ok_iff lib r token t c).0 accepted in
      ground (
        arith,
        tracked (ground (arith, config-maybe_lazy_cleanup r t)),
        get-maybe_lazy_cleanup-none r t jti gone,
      )
