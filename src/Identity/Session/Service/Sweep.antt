-- ===== src/Identity/Session/Service/Sweep.antt =====
-- session.rs, the sweeps: `cleanup_expired_sessions` and `maybe_lazy_cleanup` take expired sessions
-- only, and leave the rest of the service alone.
use rust_api_stack.Base.{◌≡◌, true, none, some, arith}
use rust_api_stack.Base.Text.{Text, Text-eq}
use rust_api_stack.Base.HashMap.{IsMap, get, get-retain, get-filter-none, retain-IsMap}
use rust_api_stack.Base.Int.{ltb_ℤ}
use rust_api_stack.Identity.Session.{JwtClaims}
use rust_api_stack.Identity.Session.Service.{
  SessionService, Reading, unexpired, cleanup_expired_sessions, maybe_lazy_cleanup,
}

module _ {J : Type 0} (r : Reading) (s : SessionService J) where
  pub config-maybe_lazy_cleanup : (maybe_lazy_cleanup r s).config ≡ s.config
  unfolding maybe_lazy_cleanup cleanup_expired_sessions
  config-maybe_lazy_cleanup = ground arith

  pub providers-maybe_lazy_cleanup : (maybe_lazy_cleanup r s).providers ≡ s.providers
  unfolding maybe_lazy_cleanup cleanup_expired_sessions
  providers-maybe_lazy_cleanup = ground arith

  pub maybe_lazy_cleanup-IsMap :
      IsMap s.active_sessions → IsMap (maybe_lazy_cleanup r s).active_sessions
  unfolding maybe_lazy_cleanup cleanup_expired_sessions
  maybe_lazy_cleanup-IsMap h =
      ground (arith, retain-IsMap (unexpired r.sweep_now) s.active_sessions h)

  pub get-maybe_lazy_cleanup :
      (jti : Text) (c : JwtClaims J)
      → IsMap s.active_sessions
      → get jti s.active_sessions ≡ some c
      → ltb_ℤ r.sweep_now c.exp ≡ true
      → get jti (maybe_lazy_cleanup r s).active_sessions ≡ some c
  unfolding maybe_lazy_cleanup cleanup_expired_sessions
  get-maybe_lazy_cleanup jti c h g live =
      ground (arith, get-retain (unexpired r.sweep_now) jti s.active_sessions h)

  pub get-maybe_lazy_cleanup-none :
      (jti : Text)
      → get jti s.active_sessions ≡ none
      → get jti (maybe_lazy_cleanup r s).active_sessions ≡ none
  unfolding maybe_lazy_cleanup cleanup_expired_sessions
  get-maybe_lazy_cleanup-none jti g =
      ground (arith, get-filter-none (unexpired r.sweep_now) jti s.active_sessions g)
