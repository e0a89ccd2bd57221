-- ===== src/Identity/Session/Service/Calls.antt =====
-- session.rs under any sequence of calls: the cap on the sessions of a user is an invariant.
use rust_api_stack.Base.{
  ℕ, ◌≤◌, ◌≡◌, Option, none, some, List, [], ◌∷◌, arith, Result-cases, inl, inr, ok, length, take,
  ◌+◌, ◌-◌,
}
use rust_api_stack.Base.Text.{Text, Text-eq, text_eq_iff}
use rust_api_stack.Base.HashMap.{HashMap, IsMap, remove, insert-IsMap, remove-IsMap, retain-IsMap}
use rust_api_stack.Base.Sort.{sort}
use rust_api_stack.Base.Int.{ℤ}
use rust_api_stack.Identity.Session.{JwtClaims, IdentityProvider, UserPermissions}
use rust_api_stack.Identity.Session.Config.{SessionConfig, validate}
use rust_api_stack.Identity.Session.Config.Secret.{validate-eq-ok_iff}
use rust_api_stack.Identity.Session.Jwt.{JwtLibrary}
use rust_api_stack.Identity.Session.Service.{
  SessionService, Reading, new, unexpired, cleanup_expired_sessions, maybe_lazy_cleanup,
  with_permissions, register_provider, issue, owned, owned_le, remove_all, evict_surplus, track,
  begin_session, verify_session, end_session,
}
use rust_api_stack.Identity.Session.Service.Sweep.{maybe_lazy_cleanup-IsMap}
use rust_api_stack.Identity.Session.Service.Cap.{
  held, held-evict_surplus, held-evict_surplus-le, held-insert-le, held-filter-le, held-remove-le,
}

pub data Call (J : Type 0) : Type 0 where
  registers : IdentityProvider J → Call J
  grants : UserPermissions J → Call J
  begins : Reading → Text → J → Call J
  verifies : Reading → Text → Call J
  ends : Text → Call J
  cleans : ℤ → Call J

-- A registration that panics leaves the service as it was.
abbrev or_else : {A : Type 0} → Option A → A → A
or_else none a = a
or_else (some b) a = b

module _ {J : Type 0} (lib : JwtLibrary J) where
  unfoldable pub step : SessionService J → Call J → SessionService J
  step s (registers provider) = or_else (register_provider provider s) s
  step s (grants provider) = with_permissions provider s
  step s (begins r provider_id payload) = (begin_session lib r provider_id payload s).0
  step s (verifies r token) = (verify_session lib r token s).0
  step s (ends jti) = (end_session jti s).0
  step s (cleans now) = (cleanup_expired_sessions now s).0

  unfoldable pub run : SessionService J → List (Call J) → SessionService J
  run s [] = s
  run s (c ∷ cs) = run (step s c) cs

module _ {J : Type 0} where
  remove_all-IsMap :
      (old : List (ℤ × Text)) (m : HashMap Text (JwtClaims J)) → IsMap m → IsMap (remove_all old m)
  unfolding remove_all
  remove_all-IsMap [] m h = h
  remove_all-IsMap ((a, i) ∷ old) m h = remove_all-IsMap old (remove i m) (remove-IsMap i m h)

  pub evict_surplus-IsMap :
      (max : ℕ) (sub : Text) (m : HashMap Text (JwtClaims J))
      → IsMap m
      → IsMap (evict_surplus max sub m)
  unfolding evict_surplus
  evict_surplus-IsMap max sub m h =
      let own = owned sub m in
      let old = take (length own + 1 - max) (sort owned_le own) in
      ground (arith, remove_all-IsMap old m h)

  -- The sessions are a map, and no user holds more of them than the configuration allows.
  pub record IsCapped (config : SessionConfig) (s : SessionService J) : Type 0 where
    pub same : s.config ≡ config
    pub keyed : IsMap s.active_sessions
    pub capped : (sub : Text) → held sub s.active_sessions ≤ config.max_sessions_per_user

  module _ (config : SessionConfig) (positive : 1 ≤ config.max_sessions_per_user) where
    maybe_lazy_cleanup-IsCapped :
        (r : Reading) (s : SessionService J)
        → IsCapped config s
        → IsCapped config (maybe_lazy_cleanup r s)
    unfolding maybe_lazy_cleanup cleanup_expired_sessions
    maybe_lazy_cleanup-IsCapped r s v = record {
      same = ground arith;
      keyed = maybe_lazy_cleanup-IsMap r s v.keyed;
      capped = λ sub.
          ground
            (arith, v.capped sub, held-filter-le (unexpired r.sweep_now) sub s.active_sessions);
    }

    track-IsCapped :
        (claims : JwtClaims J) (s : SessionService J)
        → IsCapped config s
        → IsCapped config (track claims s)
    unfolding track
    track-IsCapped claims s v =
        let max = s.config.max_sessions_per_user in
        let room = evict_surplus max claims.sub s.active_sessions in
        record {
          same = ground arith;
          keyed = ground (
            arith,
            insert-IsMap claims.jti claims room (evict_surplus-IsMap max claims.sub _ v.keyed),
          );
          capped = λ sub. ground (
            arith,
            held-insert-le sub claims.jti claims room,
            held-evict_surplus max claims.sub s.active_sessions,
            held-evict_surplus-le max claims.sub sub s.active_sessions,
            v.capped sub,
            text_eq_iff claims.sub sub,
          );
        }

    begin_session-IsCapped :
        (lib : JwtLibrary J) (r : Reading) (provider_id : Text) (payload : J) (s : SessionService J)
        → IsCapped config s
        → IsCapped config (begin_session lib r provider_id payload s).0
    unfolding begin_session
    begin_session-IsCapped lib r provider_id payload s v =
        let swept = maybe_lazy_cleanup r s in
        let w : IsCapped config swept = maybe_lazy_cleanup-IsCapped r s v in
        elim (Result-cases (issue r provider_id payload swept)) [
          | inl (claims, e) ↦ rw (e, begin_session) (track-IsCapped claims swept w)
          | inr (e, failed) ↦ rw (failed, begin_session) w
        ]

    step-IsCapped :
        (lib : JwtLibrary J) (s : SessionService J) (c : Call J)
        → IsCapped config s
        → IsCapped config (step lib s c)
    unfolding step register_provider verify_session end_session cleanup_expired_sessions
    step-IsCapped lib s (registers provider) v = record {
      same = ground arith;
      keyed = ground (arith, v.keyed);
      capped = λ sub. ground (arith, v.capped sub);
    }
    step-IsCapped lib s (grants provider) v = record {
      same = v.same;
      keyed = v.keyed;
      capped = v.capped;
    }
    step-IsCapped lib s (begins r provider_id payload) v =
        begin_session-IsCapped lib r provider_id payload s v
    step-IsCapped lib s (verifies r token) v = maybe_lazy_cleanup-IsCapped r s v
    step-IsCapped lib s (ends jti) v = record {
      same = v.same;
      keyed = remove-IsMap jti s.active_sessions v.keyed;
      capped = λ sub. ground (arith, v.capped sub, held-remove-le jti sub s.active_sessions);
    }
    step-IsCapped lib s (cleans now) v = record {
      same = v.same;
      keyed = retain-IsMap (unexpired now) s.active_sessions v.keyed;
      capped =
          λ sub. ground (arith, v.capped sub, held-filter-le (unexpired now) sub s.active_sessions);
    }

    run-IsCapped :
        (lib : JwtLibrary J) (s : SessionService J) (cs : List (Call J))
        → IsCapped config s
        → IsCapped config (run lib s cs)
    unfolding run
    run-IsCapped lib s [] v = v
    run-IsCapped lib s (c ∷ cs) v = run-IsCapped lib (step lib s c) cs (step-IsCapped lib s c v)

new-IsCapped :
    {J : Type 0} (config : SessionConfig) (s : SessionService J)
    → new config ≡ ok s
    → IsCapped config s
unfolding new
new-IsCapped config s h = record {
  same = ground arith;
  keyed = ground arith;
  capped = λ sub. ground arith;
}

new-validate :
    {J : Type 0} (config : SessionConfig) (s : SessionService J)
    → new config ≡ ok s
    → validate config ≡ ok tt
unfolding new
new-validate config s h = ground arith

-- Whatever calls are made on a new service, no user ever holds more sessions than
-- `max_sessions_per_user`, and no two sessions have one `jti`.
pub run_capped :
    {J : Type 0} (lib : JwtLibrary J) (config : SessionConfig) (s : SessionService J)
    (cs : List (Call J)) (sub : Text)
    → new config ≡ ok s
    → (held sub (run lib s cs).active_sessions ≤ config.max_sessions_per_user)
      × IsMap (run lib s cs).active_sessions
run_capped lib config s cs sub h =
    let sound = (validate-eq-ok_iff config).0 (new-validate config s h) in
    let v = run-IsCapped config sound.tracked lib s cs (new-IsCapped config s h) in
    (v.capped sub, v.keyed)
