-- ===== src/Identity/Session/Service/Examples.antt =====
-- A session from its start to its end, with a toy serializer and a toy tag.
use rust_api_stack.Base.{to_set, ℕ, ◌≤◌, ◌≡◌, ◌≢◌, ◌↔◌, refl, false, none, [], ◌∷◌, arith, ok}
use rust_api_stack.Base.Text.{
  Text-eq, codes, text_eq, text_eq_iff, bytes, utf8, trim, trim_start, is_whitespace,
  to_ascii_lowercase, contains_str, strip_prefix, split, contains_char,
}
use rust_api_stack.Base.HashMap.{IsMap, get, insert}
use rust_api_stack.Base.Sort.{sort}
use rust_api_stack.Base.Int.{pos, timestamp, ◌+ℤ◌}
use rust_api_stack.Identity.Session.{JwtClaims, user_id, noop_permissions, static_permissions}
use rust_api_stack.Identity.Session.Config.{
  hs256, validate, validate_jwt_secret, runs_within, next_run, insecure_secret_substrings,
}
use rust_api_stack.Identity.Session.Config.Secret.{HasLongRun, runs_within_iff}
use rust_api_stack.Identity.Session.Jwt.{
  sign_jwt, verify_jwt_signature, encode_jwt, decode_parts, decode_jwt,
}
use rust_api_stack.Identity.Session.Jwt.RoundTrip.{
  IsSigned, decode_jwt-encode_jwt, decode_jwt-IsSigned,
}
use rust_api_stack.Base.Text.{contains_char}
use rust_api_stack.Identity.Session.Service.{register_provider}
use rust_api_stack.Identity.Session.Service.{
  SessionService, new, issue, track, evict_surplus, maybe_lazy_cleanup, begin_session,
  verify_session, end_session, cleanup_expired_sessions, in_namespace, remove_all,
}
use rust_api_stack.Identity.Session.Service.Calls.{
  registers, begins, verifies, cleans, run, step, run_capped,
}
use rust_api_stack.Identity.Session.Service.Cap.{held}
use rust_api_stack.Identity.Session.Service.Lifetime.{
  IsCurrent, IsTracked, verify_session-eq-ok_iff, verify_session-begin_session,
}
use rust_api_stack.Identity.Session.Service.Reachable.{reached-sub_distinct}
use rust_api_stack.Identity.Session.Service.Revoke.{end_session_final}
use rust_api_stack.Identity.Session.Service.Fixtures.{
  secret, config, bob, claims, lib, provider, service, reading, later, token, lib-IsFaithful,
}

encoded : encode_jwt lib claims secret hs256 ≡ ok token
unfolding encode_jwt sign_jwt bytes utf8
encoded = refl

decode_jwt-encode_jwt_example : decode_jwt lib token secret hs256 ≡ ok claims
decode_jwt-encode_jwt_example =
    decode_jwt-encode_jwt lib claims secret hs256 token lib-IsFaithful encoded

decoded : decode_jwt lib token secret hs256 ≡ ok claims
unfolding decode_jwt decode_parts verify_jwt_signature bytes utf8 split text_eq
decoded = refl

decode_jwt-IsSigned_example : IsSigned lib secret hs256 token
decode_jwt-IsSigned_example = decode_jwt-IsSigned lib token secret hs256 claims decoded

runs_within_iff_example :
    (runs_within 0 none (1 ∷ 1 ∷ 2 ∷ []) ≡ false) ↔ HasLongRun (1 ∷ 1 ∷ 2 ∷ [])
runs_within_iff_example = runs_within_iff (1 ∷ 1 ∷ 2 ∷ [])

abbrev fresh : SessionService ℕ
fresh = record service { providers = [] }

made : new config ≡ ok fresh
unfolding new validate validate_jwt_secret runs_within next_run insecure_secret_substrings trim
    trim_start is_whitespace bytes utf8 to_ascii_lowercase contains_str strip_prefix to_set
made = refl

run_capped_example :
    (held
        (codes "local:bob")
        (run lib fresh (
          registers (provider (codes "local"))
          ∷ begins reading (codes "local") 0
          ∷ begins later (codes "local") 0
          ∷ [])).active_sessions
      ≤ config.max_sessions_per_user)
    × IsMap
        (run lib fresh (
          registers (provider (codes "local"))
          ∷ begins reading (codes "local") 0
          ∷ begins later (codes "local") 0
          ∷ [])).active_sessions
run_capped_example =
    run_capped lib config fresh
      (registers (provider (codes "local"))
        ∷ begins reading (codes "local") 0
        ∷ begins later (codes "local") 0
        ∷ [])
      (codes "local:bob") made

issued : issue reading (codes "local") 0 service ≡ ok claims
unfolding issue in_namespace get text_eq strip_prefix user_id timestamp ◌+ℤ◌ to_set
issued = refl

abbrev other_claims : JwtClaims ℕ
other_claims = record claims { sub = codes "oauth:bob"; provider_id = codes "oauth" }

different : codes "local" ≢ codes "oauth"
unfolding text_eq
different e = cc ((text_eq_iff (codes "local") (codes "oauth")).1 e)

reached_local :
    issue reading (codes "local") 0 (run lib fresh (registers (provider (codes "local")) ∷ []))
    ≡ ok claims
unfolding run step register_provider insert contains_char issue in_namespace get text_eq
    strip_prefix user_id timestamp ◌+ℤ◌ to_set
reached_local = refl

reached_oauth :
    issue reading (codes "oauth") 0 (run lib fresh (registers (provider (codes "oauth")) ∷ []))
    ≡ ok other_claims
unfolding run step register_provider insert contains_char issue in_namespace get text_eq
    strip_prefix user_id timestamp ◌+ℤ◌ to_set
reached_oauth = refl

reached-sub_distinct_example : claims.sub ≢ other_claims.sub
reached-sub_distinct_example =
    reached-sub_distinct lib config config fresh fresh (registers (provider (codes "local")) ∷ [])
      (registers (provider (codes "oauth")) ∷ []) reading reading (codes "local") (codes "oauth") 0
      0 claims other_claims made made different reached_local reached_oauth

verify_session-eq-ok_iff_example : ((verify_session lib later token service).1 ≡ ok claims) ↔ (
    (decode_jwt lib token secret hs256 ≡ ok claims)
    × IsCurrent ℕ config (timestamp later.now) claims
    × IsTracked (maybe_lazy_cleanup later service) claims)
verify_session-eq-ok_iff_example = verify_session-eq-ok_iff lib later token service claims

swept_issue : issue reading (codes "local") 0 (maybe_lazy_cleanup reading service) ≡ ok claims
unfolding maybe_lazy_cleanup cleanup_expired_sessions issue in_namespace get text_eq strip_prefix
    user_id timestamp ◌+ℤ◌ to_set
swept_issue = refl

abbrev pub opened : SessionService ℕ
opened = record service { active_sessions = (codes "u1", claims) ∷ []; next_lazy_cleanup = 61 }

begun : begin_session lib reading (codes "local") 0 service ≡ (opened, ok token)
unfolding begin_session track evict_surplus remove_all maybe_lazy_cleanup cleanup_expired_sessions
    issue in_namespace get insert text_eq strip_prefix user_id timestamp ◌+ℤ◌ to_set encode_jwt
    sign_jwt bytes utf8 sort
begun = refl

opened-IsMap : IsMap opened.active_sessions
unfolding get
opened-IsMap = (refl, tt)

verify_session-begin_session_example : (verify_session lib later token opened).1 ≡ ok claims
unfolding timestamp
verify_session-begin_session_example =
    verify_session-begin_session lib reading later (codes "local") token 0 service opened claims
      swept_issue begun lib-IsFaithful opened-IsMap (omega arith) (omega arith) (omega arith)

end_session_final_example :
    (verify_session lib later token
      (run lib (end_session (codes "u1") opened).0 (verifies later token ∷ cleans (pos 9) ∷ []))).1
    ≢ ok claims
end_session_final_example =
    end_session_final lib later token (codes "u1") opened
      (verifies later token ∷ cleans (pos 9) ∷ []) claims refl (tt, (tt, tt)) refl

-- The two implementations of `UserPermissions`.
granted_none : noop_permissions bob ≡ ok []
unfolding noop_permissions
granted_none = refl

granted_static : static_permissions (codes "read" ∷ []) bob ≡ ok (codes "read" ∷ [])
unfolding static_permissions
granted_static = refl
