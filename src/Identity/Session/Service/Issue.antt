-- ===== src/Identity/Session/Service/Issue.antt =====
-- session.rs, the claims that `begin_session` issues.
use rust_api_stack.Base.{◌≡◌, inl, inr, true, none, some, arith, ok, Option-cases, Result-cases}
use rust_api_stack.Base.Text.{Text, Text-eq}
use rust_api_stack.Base.HashMap.{get}
use rust_api_stack.Base.Int.{◌+ℤ◌, timestamp}
use rust_api_stack.Identity.Session.{JwtClaims, VerifiedIdentity, IdentityProvider, user_id}
use rust_api_stack.Identity.Session.Service.{SessionService, Reading, in_namespace, issue}

-- The claims that are issued for an identity.
pub record IsIssued (J : Type 0) (r : Reading) (s : SessionService J) (provider_id : Text)
    (payload : J) (claims : JwtClaims J) : Type 0 where
  pub provider : IdentityProvider J
  pub identity : VerifiedIdentity J
  pub registered : get provider_id s.providers ≡ some provider
  pub verified : provider.verify payload ≡ ok identity
  pub scoped : in_namespace provider_id identity.provider_id ≡ true
  pub sub : claims.sub ≡ user_id identity
  pub iat : claims.iat ≡ timestamp r.now
  pub exp : claims.exp ≡ timestamp (r.now +ℤ s.config.jwt_ttl)
  pub nbf : claims.nbf ≡ none
  pub jti : claims.jti ≡ r.uuid
  pub issuer_id : claims.provider_id ≡ identity.provider_id
  pub iss : claims.iss ≡ s.config.iss
  pub aud : claims.aud ≡ s.config.aud

module _ {J : Type 0} where
  -- Claims are issued only for an identity that a registered provider verified, in its namespace; they
  -- carry its user ID, the time, the lifetime of the configuration and the new UUID as `jti`.
  pub issue-IsIssued :
      (r : Reading) (provider_id : Text) (payload : J) (s : SessionService J) (claims : JwtClaims J)
      → issue r provider_id payload s ≡ ok claims
      → IsIssued J r s provider_id payload claims
  unfolding issue
  issue-IsIssued r provider_id payload s claims h =
      elim (Option-cases (get provider_id s.providers)) [
        | inl missing ↦ cc (rw missing at h)
        | inr (provider, registered) ↦ elim (Result-cases (provider.verify payload)) [
          | inr (e, refused) ↦ cc (rw (registered, refused) at h)
          | inl (identity, verified) ↦ record {
            provider = provider;
            identity = identity;
            registered = registered;
            verified = verified;
            scoped = ground arith;
            sub = ground arith;
            iat = ground arith;
            exp = ground arith;
            nbf = ground arith;
            jti = ground arith;
            issuer_id = ground arith;
            iss = ground arith;
            aud = ground arith;
          }
        ]
      ]
