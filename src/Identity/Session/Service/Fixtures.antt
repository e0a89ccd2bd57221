-- ===== src/Identity/Session/Service/Fixtures.antt =====
-- A service with a toy serializer and a toy tag, for the examples.
use rust_api_stack.Base.{
  ℕ, zero, suc, ◌+◌, ◌-◌, ◌≡◌, refl, true, false, none, List, [], ◌∷◌, ◌++◌, arith, Result, ok, err,
}
use rust_api_stack.Base.Text.{Text, Text-eq, codes, text_eq, text_eq_iff, bytes, contains_char}
use rust_api_stack.Base.Int.{pos}
use rust_api_stack.Identity.Session.{
  JwtClaims, VerifiedIdentity, IdentityProvider, user_id, noop_permissions, static_permissions,
}
use rust_api_stack.Identity.Session.Config.{
  SessionConfig, JwtAlgorithm, hs256, hs384, hs512, default_jwt_ttl,
}
use rust_api_stack.Identity.Session.Jwt.{
  JwtLibrary, JwtHeader, Hmac, IsFaithful, dotted, sign_jwt, verify_jwt_signature, encode_jwt,
  decode_parts, decode_jwt,
}
use rust_api_stack.Identity.Session.Service.{SessionService, Reading}

abbrev pub secret : Text
secret = codes "k3Yq9ZpLw8Xv2Nc7Rt5Hb1Md6Fs4Gj0Qa"

abbrev pub config : SessionConfig
config = record {
  jwt_secret = secret;
  jwt_ttl = default_jwt_ttl;
  enforce_active_sessions = true;
  algorithm = hs256;
  iss = none;
  aud = none;
  require_iss_aud = false;
  max_sessions_per_user = 2;
}

abbrev pub number : JwtAlgorithm → ℕ
number hs256 = 0
number hs384 = 1
number hs512 = 2

abbrev pub algorithm_of : List ℕ → Result Text JwtAlgorithm
algorithm_of (zero ∷ []) = ok hs256
algorithm_of (suc zero ∷ []) = ok hs384
algorithm_of (suc (suc zero) ∷ []) = ok hs512
algorithm_of _ = err []

abbrev pub tag : Hmac
tag = record {
  finalize = λ secret input. ok (secret ++ input);
  verify_slice = λ secret input tag. ok (text_eq (secret ++ input) tag);
}

abbrev pub bob : VerifiedIdentity ℕ
bob = record {
  provider_id = codes "local";
  subject = codes "bob";
  email = none;
  display_name = none;
  metadata = none;
}

abbrev pub claims : JwtClaims ℕ
claims = record {
  sub = codes "local:bob";
  exp = pos 86405;
  iat = pos 5;
  nbf = none;
  jti = codes "u1";
  provider_id = codes "local";
  email = none;
  display_name = none;
  permissions = [];
  metadata = none;
  iss = none;
  aud = none;
}

abbrev pub up : List ℕ → Text
up [] = []
up (b ∷ bs) = (b + 100) ∷ up bs

abbrev pub down : Text → List ℕ
down [] = []
down (c ∷ s) = (c - 100) ∷ down s

abbrev pub lib : JwtLibrary ℕ
lib = record {
  encode = up;
  decode = λ t. ok (down t);
  header_to_vec = λ h. ok (number h.alg ∷ []);
  header_from_slice = algorithm_of;
  claims_to_vec = λ c. ok (77 ∷ []);
  claims_from_slice = λ b. ok claims;
  sha256 = tag;
  sha384 = tag;
  sha512 = tag;
}

down-up : (b : List ℕ) → down (up b) ≡ b
down-up [] = refl
down-up (b ∷ bs) = ground (arith, down-up bs)

plain_up : (b : List ℕ) → contains_char b'.' (up b) ≡ false
unfolding contains_char
plain_up [] = refl
plain_up (b ∷ bs) = ground (arith, plain_up bs)

header_reads_lem : (a : JwtAlgorithm) (b : List ℕ) → number a ∷ [] ≡ b → algorithm_of b ≡ ok a
header_reads_lem hs256 b h = rw (← h) refl
header_reads_lem hs384 b h = rw (← h) refl
header_reads_lem hs512 b h = rw (← h) refl

tag_verifies_lem :
    (secret input t : List ℕ)
    → tag.finalize secret input ≡ ok t
    → tag.verify_slice secret input t ≡ ok true
tag_verifies_lem secret input t h = ground (arith, text_eq_iff (secret ++ input) t)

pub lib-IsFaithful : IsFaithful lib claims
lib-IsFaithful = record {
  decode-encode = λ b. rw (down-up b) refl;
  encode_plain = plain_up;
  header_reads = λ h b e. header_reads_lem h.alg b (ground arith);
  claims_read = λ b h. refl;
  tag_verifies = λ a secret input t h. tag_cases a secret input t h;
}
  where
    tag_cases :
        (a : JwtAlgorithm) (secret input t : List ℕ)
        → (rust_api_stack.Identity.Session.Jwt.hmac lib a).finalize secret input ≡ ok t
        → (rust_api_stack.Identity.Session.Jwt.hmac lib a).verify_slice secret input t ≡ ok true
    tag_cases hs256 secret input t h = tag_verifies_lem secret input t h
    tag_cases hs384 secret input t h = tag_verifies_lem secret input t h
    tag_cases hs512 secret input t h = tag_verifies_lem secret input t h

abbrev pub provider : Text → IdentityProvider ℕ
provider id = record { provider_id = id; verify = λ payload. ok (record bob { provider_id = id }) }

abbrev pub service : SessionService ℕ
service = record {
  config = config;
  providers =
      (codes "local", provider (codes "local")) ∷ (codes "oauth", provider (codes "oauth")) ∷ [];
  active_sessions = [];
  permissions_provider = none;
  next_lazy_cleanup = 0;
}

abbrev pub reading : Reading
reading = record { elapsed = 1; sweep_now = pos 5; now = pos 5000000000; uuid = codes "u1" }

abbrev pub later : Reading
later = record { elapsed = 2; sweep_now = pos 6; now = pos 6000000000; uuid = codes "u2" }

abbrev pub signing_input : Text
signing_input = dotted (up (0 ∷ [])) (up (77 ∷ []))

abbrev pub token : Text
token = dotted signing_input (up (bytes secret ++ bytes signing_input))
