-- ===== src/Identity/Session/Service.antt =====
-- crates/identity/ras-identity-session/src/session.rs and auth.rs. A call runs under the locks that
-- it takes as one step; what it reads of clocks and randomness is an argument.
pub mod Sweep
pub mod Cap
pub mod Calls
pub mod Issue
pub mod Lifetime
pub mod Namespace
pub mod Reachable
pub mod Revoke
pub mod Fixtures
pub mod Examples
use rust_api_stack.Base.{
  ℕ, suc, ◌+◌, ◌-◌, Bool, true, false, not, ◌&&◌, ◌||◌, Option, none, some, List, [], ◌∷◌, ◌++◌,
  map, arith, ltb, leb, if◌then◌else◌, eqb, length, filter, take, is_empty, to_set, is_some, Result,
  ok, err, ok_or, map_err, reject_if, ◌>>=◌, ◌>>◌,
}
use rust_api_stack.Base.Text.{Text, Text-eq, text_eq, text_le, contains_char, strip_prefix, about2}
use rust_api_stack.Base.HashMap.{HashMap, get, insert, remove, contains_key, retain}
use rust_api_stack.Base.Sort.{sort}
use rust_api_stack.Base.Int.{ℤ, pos, ◌+ℤ◌, leb_ℤ, ltb_ℤ, eqb_ℤ, timestamp}
use rust_api_stack.Identity.Session.{
  VerifiedIdentity, IdentityError, provider_not_found, provider_error, IdentityProvider,
  UserPermissions, JwtClaims, SessionError, token_expired, identity_error, session_not_found,
  invalid_session, user_id,
}
use rust_api_stack.Identity.Session.Config.{SessionConfig, validate}
use rust_api_stack.Identity.Session.Jwt.{JwtLibrary, encode_jwt, decode_jwt}

abbrev pub lazy_cleanup_interval_secs : ℕ
lazy_cleanup_interval_secs = 60

abbrev pub clock_skew_leeway_secs : ℤ
clock_skew_leeway_secs = pos 60

pub record SessionService (J : Type 0) : Type 0 where
  pub config : SessionConfig
  pub providers : HashMap Text (IdentityProvider J)
  pub active_sessions : HashMap Text (JwtClaims J)
  pub permissions_provider : Option (UserPermissions J)
  pub next_lazy_cleanup : ℕ

-- What one call reads: the seconds since the service was made, `Utc::now` in the sweep (in seconds)
-- and later in the call (in nanoseconds), and a new UUID.
pub record Reading : Type 0 where
  pub elapsed : ℕ
  pub sweep_now : ℤ
  pub now : ℤ
  pub uuid : Text

-- `identity_id` is the provider's own ID or one under it.
pub in_namespace : Text → Text → Bool
in_namespace provider_id identity_id = elim (strip_prefix provider_id identity_id) [
  | none ↦ false
  | some [] ↦ true
  | some (c ∷ rest) ↦ eqb c b':'
]

-- The order of the pairs (iat, jti).
pub owned_le : ℤ × Text → ℤ × Text → Bool
owned_le (a, i) (b, j) = ltb_ℤ a b || (eqb_ℤ a b && text_le i j)

-- A claim that is expected must be there and equal.
abbrev pub unexpected : Option Text → Option Text → Bool
unexpected none actual = false
unexpected (some expected) none = true
unexpected (some expected) (some actual) = not (text_eq actual expected)

abbrev pub premature : Option ℤ → ℤ → Bool
premature none now = false
premature (some nbf) now = ltb_ℤ (now +ℤ clock_skew_leeway_secs) nbf

module _ {J : Type 0} where
  pub new : SessionConfig → Result SessionError (SessionService J)
  new config = do
    validate config
    ok (record {
      config = config;
      providers = [];
      active_sessions = [];
      permissions_provider = none;
      next_lazy_cleanup = 0;
    })

  abbrev pub unexpired : ℤ → Text × JwtClaims J → Bool
  unexpired now (jti, claims) = ltb_ℤ now claims.exp

  -- `now` is `Utc::now().timestamp()`.
  unfoldable pub cleanup_expired_sessions : ℤ → SessionService J → SessionService J × ℕ
  cleanup_expired_sessions now s =
      let kept = retain (unexpired now) s.active_sessions in
      (record s { active_sessions = kept }, length s.active_sessions - length kept)

  unfoldable pub maybe_lazy_cleanup : Reading → SessionService J → SessionService J
  maybe_lazy_cleanup r s =
      if not s.config.enforce_active_sessions
      then s
      else if leb s.next_lazy_cleanup r.elapsed
      then (cleanup_expired_sessions r.sweep_now
          (record s { next_lazy_cleanup = r.elapsed + lazy_cleanup_interval_secs })).0
      else s

  -- The builder `with_permissions`, and `set_permissions_provider`.
  abbrev pub with_permissions : UserPermissions J → SessionService J → SessionService J
  with_permissions provider s = record s { permissions_provider = some provider }

  -- `none` is the panic on an invalid provider ID.
  pub register_provider : IdentityProvider J → SessionService J → Option (SessionService J)
  register_provider provider s =
      if not (is_empty provider.provider_id) && not (contains_char b':' provider.provider_id)
      then some (record s { providers = insert provider.provider_id provider s.providers })
      else none

  abbrev pub permissions_of :
      SessionService J → VerifiedIdentity J → Result SessionError (List Text)
  permissions_of s identity = elim s.permissions_provider [
    | none ↦ ok []
    | some provider ↦ map_err identity_error (provider identity)
  ]

  -- `begin_session` up to the claims.
  pub issue : Reading → Text → J → SessionService J → Result SessionError (JwtClaims J)
  issue r provider_id auth_payload s = do
    provider ← ok_or (get provider_id s.providers) (identity_error (provider_not_found provider_id))
    identity ← map_err identity_error (provider.verify auth_payload)
    reject_if (not (in_namespace provider_id identity.provider_id)) (
        identity_error (
          provider_error (
            about2 "provider '{}' returned an identity for provider '{}'" provider_id
              identity.provider_id)))
    permissions ← permissions_of s identity
    ok (record {
      sub = user_id identity;
      exp = timestamp (r.now +ℤ s.config.jwt_ttl);
      iat = timestamp r.now;
      nbf = none;
      jti = r.uuid;
      provider_id = identity.provider_id;
      email = identity.email;
      display_name = identity.display_name;
      permissions = to_set permissions;
      metadata = identity.metadata;
      iss = s.config.iss;
      aud = s.config.aud;
    })

  abbrev pub owns : Text → Text × JwtClaims J → Bool
  owns sub (jti, claims) = text_eq claims.sub sub

  abbrev pub stamp : Text × JwtClaims J → ℤ × Text
  stamp (jti, claims) = (claims.iat, jti)

  abbrev pub owned : Text → HashMap Text (JwtClaims J) → List (ℤ × Text)
  owned sub sessions = map stamp (filter (owns sub) sessions)

  -- The loop that removes the oldest sessions.
  pub remove_all : List (ℤ × Text) → HashMap Text (JwtClaims J) → HashMap Text (JwtClaims J)
  remove_all [] sessions = sessions
  remove_all ((iat, jti) ∷ old) sessions = remove_all old (remove jti sessions)

  pub evict_surplus : ℕ → Text → HashMap Text (JwtClaims J) → HashMap Text (JwtClaims J)
  evict_surplus max sub sessions =
      let own = owned sub sessions in
      if leb max (length own)
      then remove_all (take (length own + 1 - max) (sort owned_le own)) sessions
      else sessions

  -- The block under `enforce_active_sessions`.
  pub track : JwtClaims J → SessionService J → SessionService J
  track claims s =
      if s.config.enforce_active_sessions
      then record s {
        active_sessions =
            insert claims.jti claims
              (evict_surplus s.config.max_sessions_per_user claims.sub s.active_sessions);
      }
      else s

  -- The checks of `verify_session`; `now` is in seconds.
  unfoldable pub check_claims :
      ℤ → JwtClaims J → SessionService J → Result SessionError (JwtClaims J)
  check_claims now claims s = do
    reject_if (leb_ℤ claims.exp now) token_expired
    reject_if (ltb_ℤ (now +ℤ clock_skew_leeway_secs) claims.iat) invalid_session
    reject_if (premature claims.nbf now) invalid_session
    reject_if (unexpected s.config.iss claims.iss) invalid_session
    reject_if (unexpected s.config.aud claims.aud) invalid_session
    reject_if (s.config.enforce_active_sessions && not (contains_key claims.jti s.active_sessions))
        session_not_found
    ok claims

  pub end_session : Text → SessionService J → SessionService J × Option (JwtClaims J)
  end_session jti s =
      (record s { active_sessions = remove jti s.active_sessions }, get jti s.active_sessions)

module _ {J : Type 0} (lib : JwtLibrary J) where
  pub begin_session :
      Reading → Text → J → SessionService J → SessionService J × Result SessionError Text
  begin_session r provider_id auth_payload s =
      let swept = maybe_lazy_cleanup r s in
      elim (issue r provider_id auth_payload swept) [
        | err e ↦ (swept, err e)
        | ok claims ↦ (
          track claims swept,
          encode_jwt lib claims swept.config.jwt_secret swept.config.algorithm,
        )
      ]

  unfoldable pub verify_session :
      Reading → Text → SessionService J → SessionService J × Result SessionError (JwtClaims J)
  verify_session r token s =
      let swept = maybe_lazy_cleanup r s in
      (
        swept,
        (do
          claims ← decode_jwt lib token swept.config.jwt_secret swept.config.algorithm
          check_claims (timestamp r.now) claims swept),
      )
