-- ===== src/Identity/Session/Jwt.antt =====
-- crates/identity/ras-identity-session/src/jwt.rs. Base64, serde_json and HMAC are other crates:
-- their functions are the fields of `JwtLibrary`, and what the code relies on is `IsFaithful`.
pub mod RoundTrip
use rust_api_stack.Base.{
  ℕ, String, ◌≡◌, Bool, true, false, not, Option, none, some, List, [], ◌∷◌, ◌++◌, arith,
  if◌then◌else◌, Result, ok, err, map_err, reject_if, ◌>>=◌, ◌>>◌,
}
use rust_api_stack.Base.Text.{
  Text, codes, text_eq, bytes, split, contains_char, Message, say, about,
}
use rust_api_stack.Identity.Session.{JwtClaims, SessionError, jwt_error}
use rust_api_stack.Identity.Session.Config.{JwtAlgorithm, hs256, hs384, hs512}

-- `Hmac<Sha…>`: `new_from_slice` then `update` and `finalize`, or then `update` and `verify_slice`.
-- The errors are what the crates display.
pub record Hmac : Type 0 where
  pub finalize : (secret input : List ℕ) → Result Text (List ℕ)
  pub verify_slice : (secret input tag : List ℕ) → Result Text Bool

pub record JwtHeader : Type 0 where
  pub typ : Text
  pub alg : JwtAlgorithm

pub record JwtLibrary (J : Type 0) : Type 0 where
  pub encode : List ℕ → Text
  pub decode : Text → Result Text (List ℕ)
  pub header_to_vec : JwtHeader → Result Text (List ℕ)
  pub header_from_slice : List ℕ → Result Text JwtAlgorithm
  pub claims_to_vec : JwtClaims J → Result Text (List ℕ)
  pub claims_from_slice : List ℕ → Result Text (JwtClaims J)
  pub sha256 : Hmac
  pub sha384 : Hmac
  pub sha512 : Hmac

unfoldable pub from_name : Text → Option JwtAlgorithm
from_name name =
    if text_eq name (codes "HS256")
    then some hs256
    else if text_eq name (codes "HS384")
    then some hs384
    else if text_eq name (codes "HS512")
    then some hs512
    else none

abbrev pub alg_eq : JwtAlgorithm → JwtAlgorithm → Bool
alg_eq hs256 hs256 = true
alg_eq hs384 hs384 = true
alg_eq hs512 hs512 = true
alg_eq _ _ = false

-- `fail what` wraps the error of another crate.
abbrev pub fail {ℓ} : {A : Type ℓ} → String → Result Text A → Result SessionError A
fail what = map_err λ e. jwt_error (about what e)

-- "{a}.{b}"
abbrev pub dotted : Text → Text → Text
dotted a b = a ++ b'.' ∷ b

module _ {J : Type 0} (lib : JwtLibrary J) where
  -- The match on the algorithm, whose three branches differ in the digest.
  abbrev pub hmac : JwtAlgorithm → Hmac
  hmac hs256 = lib.sha256
  hmac hs384 = lib.sha384
  hmac hs512 = lib.sha512

  unfoldable pub sign_jwt : Text → List ℕ → JwtAlgorithm → Result SessionError (List ℕ)
  sign_jwt signing_input secret algorithm =
      fail "invalid JWT secret: " ((hmac algorithm).finalize secret (bytes signing_input))

  unfoldable pub verify_jwt_signature :
      Text → List ℕ → JwtAlgorithm → List ℕ → Result SessionError (Unit {0})
  verify_jwt_signature signing_input secret algorithm signature = do
    matches ←
        fail "invalid JWT secret: "
          ((hmac algorithm).verify_slice secret (bytes signing_input) signature)
    reject_if (not matches) (jwt_error (say "invalid JWT signature"))

  unfoldable pub encode_jwt : JwtClaims J → Text → JwtAlgorithm → Result SessionError Text
  unfolding sign_jwt
  encode_jwt claims secret algorithm = do
    header ←
        fail "failed to encode JWT header: "
          (lib.header_to_vec (record { typ = codes "JWT"; alg = algorithm }))
    claims ← fail "failed to encode JWT claims: " (lib.claims_to_vec claims)
    let signing_input = dotted (lib.encode header) (lib.encode claims)
    signature ← sign_jwt signing_input (bytes secret) algorithm
    ok (dotted signing_input (lib.encode signature))

  -- The three parts of a token.
  abbrev pub parts : List Text → Result SessionError (Text × Text × Text)
  parts [] = err (jwt_error (say "missing JWT header"))
  parts (header ∷ []) = err (jwt_error (say "missing JWT claims"))
  parts (header ∷ claims ∷ []) = err (jwt_error (say "missing JWT signature"))
  parts (header ∷ claims ∷ signature ∷ []) = ok (header, claims, signature)
  parts (header ∷ claims ∷ signature ∷ _ ∷ _) = err (jwt_error (say "JWT has too many segments"))

  -- The checks on the parts, in the order of the code.
  unfoldable pub decode_parts :
      Text × Text × Text → Text → JwtAlgorithm → Result SessionError (JwtClaims J)
  unfolding verify_jwt_signature
  decode_parts (encoded_header, encoded_claims, encoded_signature) secret expected = do
    header ← fail "invalid JWT header encoding: " (lib.decode encoded_header)
    alg ← fail "invalid JWT header: " (lib.header_from_slice header)
    reject_if (not (alg_eq alg expected)) (jwt_error (say "unexpected JWT algorithm"))
    signature ← fail "invalid JWT signature encoding: " (lib.decode encoded_signature)
    let signing_input = dotted encoded_header encoded_claims
    verify_jwt_signature signing_input (bytes secret) expected signature
    claims ← fail "invalid JWT claims encoding: " (lib.decode encoded_claims)
    fail "invalid JWT claims: " (lib.claims_from_slice claims)

  unfoldable pub decode_jwt : Text → Text → JwtAlgorithm → Result SessionError (JwtClaims J)
  unfolding decode_parts
  decode_jwt token secret expected = do
    found ← parts (split b'.' token)
    decode_parts found secret expected

  -- What the code relies on, for one set of claims: base64 round-trips and writes no dot, serde_json
  -- reads back what it wrote, and a tag verifies exactly if it is the one that HMAC computes.
  pub record IsFaithful (claims : JwtClaims J) : Type 0 where
    pub decode-encode : (b : List ℕ) → lib.decode (lib.encode b) ≡ ok b
    pub encode_plain : (b : List ℕ) → contains_char b'.' (lib.encode b) ≡ false
    pub header_reads :
        (h : JwtHeader) (b : List ℕ)
        → lib.header_to_vec h ≡ ok b
        → lib.header_from_slice b ≡ ok h.alg
    pub claims_read :
        (b : List ℕ) → lib.claims_to_vec claims ≡ ok b → lib.claims_from_slice b ≡ ok claims
    pub tag_verifies :
        (a : JwtAlgorithm) (secret input tag : List ℕ)
        → (hmac a).finalize secret input ≡ ok tag
        → (hmac a).verify_slice secret input tag ≡ ok true
