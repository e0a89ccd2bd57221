-- ===== src/Identity/Session/Config.antt =====
-- crates/identity/ras-identity-session/src/config.rs. Durations are nanoseconds.
pub mod Secret
use rust_api_stack.Base.{
  ℕ, zero, suc, ◌+◌, ◌*◌, Bool, true, false, not, ◌&&◌, ◌||◌, Option, none, some, List, [], ◌∷◌,
  arith, ltb, leb, eqb, if◌then◌else◌, length, any, contains, is_some, is_ok, Result, ok, err,
  reject_if, ◌>>=◌, ◌>>◌, nat_eq, to_set,
}
use rust_api_stack.Base.Text.{
  Text, codes, bytes, trim, to_ascii_lowercase, contains_str, Message, say,
}
use rust_api_stack.Base.Int.{ℤ, pos, leb_ℤ}
use rust_api_stack.Identity.Session.{SessionError, invalid_config}

pub data JwtAlgorithm : Type 0 where
  hs256 hs384 hs512 : JwtAlgorithm

pub record SessionConfig : Type 0 where
  pub jwt_secret : Text
  pub jwt_ttl : ℤ
  pub enforce_active_sessions : Bool
  pub algorithm : JwtAlgorithm
  pub iss : Option Text
  pub aud : Option Text
  pub require_iss_aud : Bool
  pub max_sessions_per_user : ℕ

abbrev pub default_max_sessions_per_user : ℕ
default_max_sessions_per_user = 32

abbrev pub min_distinct_secret_bytes : ℕ
min_distinct_secret_bytes = 10

abbrev pub max_repeated_secret_bytes : ℕ
max_repeated_secret_bytes = 7

unfoldable pub insecure_secret_substrings : List Text
insecure_secret_substrings =
    codes "change-me"
    ∷ codes "changeme"
    ∷ codes "secret"
    ∷ codes "password"
    ∷ codes "example"
    ∷ codes "placeholder"
    ∷ codes "test-secret"
    ∷ codes "dev-secret"
    ∷ codes "insecure"
    ∷ codes "12345678"
    ∷ codes "abcdefgh"
    ∷ codes "your-secret"
    ∷ []

-- The length of the run that a byte ends, from the run that its predecessor ended.
unfoldable pub next_run : ℕ → Option ℕ → ℕ → ℕ
next_run run none byte = 1
next_run run (some prev) byte = if eqb prev byte then run + 1 else 1

-- The loop over the bytes, with its `run` and `prev`: whether it comes to the end.
unfoldable pub runs_within : ℕ → Option ℕ → List ℕ → Bool
unfolding next_run
runs_within run prev [] = true
runs_within run prev (byte ∷ bytes) =
    let run' = next_run run prev byte in
    let rest = runs_within run' (some byte) bytes in
    if ltb max_repeated_secret_bytes run' then false else rest

unfoldable pub validate_jwt_secret : Text → Result SessionError (Unit {0})
validate_jwt_secret secret = do
  let trimmed = trim secret
  reject_if (ltb (length (bytes trimmed)) 32)
      (invalid_config (say "jwt_secret must be at least 32 bytes"))
  let lowered = to_ascii_lowercase trimmed
  reject_if (any (λ placeholder. contains_str placeholder lowered) insecure_secret_substrings)
      (invalid_config (say "jwt_secret must not contain a placeholder value"))
  reject_if (ltb (length (to_set (bytes trimmed))) min_distinct_secret_bytes)
      (invalid_config (say "jwt_secret must contain at least 10 distinct byte values"))
  reject_if (not (runs_within 0 none (bytes trimmed)))
      (invalid_config (say "jwt_secret must not repeat one byte more than 7 times in a row"))
  ok tt

unfoldable pub validate : SessionConfig → Result SessionError (Unit {0})
validate config = do
  validate_jwt_secret config.jwt_secret
  reject_if (leb_ℤ config.jwt_ttl (pos 0)) (invalid_config (say "jwt_ttl must be positive"))
  reject_if (config.require_iss_aud && (not (is_some config.iss) || not (is_some config.aud))) (
      invalid_config (
        say
          "iss and aud must be set (use with_issuer/with_audience), or opt out explicitly with allow_unscoped_tokens() for single-service deployments"))
  reject_if (eqb config.max_sessions_per_user 0)
      (invalid_config (say "max_sessions_per_user must be at least 1"))
  ok tt

-- 24 hours.
abbrev pub default_jwt_ttl : ℤ
default_jwt_ttl = pos (24 * 3600 * 1000000000)

validated : SessionConfig → Result SessionError SessionConfig
validated config = validate config >> ok config

unfoldable pub new : Text → Text → Text → Result SessionError SessionConfig
unfolding validated
new jwt_secret issuer audience = validated (record {
  jwt_secret = jwt_secret;
  jwt_ttl = default_jwt_ttl;
  enforce_active_sessions = true;
  algorithm = hs256;
  iss = some issuer;
  aud = some audience;
  require_iss_aud = true;
  max_sessions_per_user = default_max_sessions_per_user;
})

unfoldable pub new_unscoped : Text → Result SessionError SessionConfig
unfolding validated
new_unscoped jwt_secret = validated (record {
  jwt_secret = jwt_secret;
  jwt_ttl = default_jwt_ttl;
  enforce_active_sessions = true;
  algorithm = hs256;
  iss = none;
  aud = none;
  require_iss_aud = false;
  max_sessions_per_user = default_max_sessions_per_user;
})

abbrev pub allow_unscoped_tokens : SessionConfig → SessionConfig
allow_unscoped_tokens config = record config { require_iss_aud = false }

abbrev pub with_max_sessions_per_user : SessionConfig → ℕ → SessionConfig
with_max_sessions_per_user config max = record config { max_sessions_per_user = max }

abbrev pub with_issuer : SessionConfig → Text → SessionConfig
with_issuer config issuer = record config { iss = some issuer }

abbrev pub with_audience : SessionConfig → Text → SessionConfig
with_audience config audience = record config { aud = some audience }
