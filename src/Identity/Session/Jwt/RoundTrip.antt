-- ===== src/Identity/Session/Jwt/RoundTrip.antt =====
-- jwt.rs: a token that the service issued decodes to its claims, and what decodes was signed.
use mathlib.Core.List.{append_assoc}
use rust_api_stack.Base.{
  ℕ, ◌≡◌, refl, subst, true, false, List, [], ◌∷◌, ◌++◌, arith, ok, ◌>>=◌, Result-cases, inl, inr,
}
use rust_api_stack.Base.Text.{Text, codes, bytes, split, contains_char}
use rust_api_stack.Base.TextLaws.{split-append, split_plain}
use rust_api_stack.Identity.Session.{JwtClaims}
use rust_api_stack.Identity.Session.Config.{JwtAlgorithm, hs256, hs384, hs512}
use rust_api_stack.Identity.Session.Jwt.{
  JwtLibrary, IsFaithful, alg_eq, dotted, parts, hmac, encode_jwt, decode_parts, decode_jwt,
}

alg_eq_refl : (a : JwtAlgorithm) → alg_eq a a ≡ true
alg_eq_refl hs256 = refl
alg_eq_refl hs384 = refl
alg_eq_refl hs512 = refl

split_token :
    (h c s : Text)
    → contains_char b'.' h ≡ false
    → contains_char b'.' c ≡ false
    → contains_char b'.' s ≡ false
    → split b'.' (dotted (dotted h c) s) ≡ h ∷ c ∷ s ∷ []
split_token h c s p q r = rw (append_assoc h (b'.' ∷ c) (b'.' ∷ s)) (
    ground
      (arith, split-append b'.' h (c ++ b'.' ∷ s) p, split-append b'.' c s q, split_plain b'.' s r))

module _ {J : Type 0} (lib : JwtLibrary J) where
  abbrev signing_input : List ℕ → List ℕ → Text
  signing_input header claims = dotted (lib.encode header) (lib.encode claims)

  module _ (claims : JwtClaims J) (secret : Text) (algorithm : JwtAlgorithm) {hb cb tag : List ℕ}
      (header : lib.header_to_vec (record { typ = codes "JWT"; alg = algorithm }) ≡ ok hb)
      (body : lib.claims_to_vec claims ≡ ok cb)
      (signed : (hmac lib algorithm).finalize (bytes secret) (bytes (signing_input hb cb))
        ≡ ok tag) where
    encode_jwt_built :
        encode_jwt lib claims secret algorithm ≡ ok (dotted (signing_input hb cb) (lib.encode tag))
    unfolding encode_jwt
    encode_jwt_built = simp (header, body, signed)

    decode_jwt_built :
        IsFaithful lib claims
        → decode_jwt lib (dotted (signing_input hb cb) (lib.encode tag)) secret algorithm
          ≡ ok claims
    unfolding decode_jwt
    decode_jwt_built f =
        rw
          (split_token (lib.encode hb) (lib.encode cb) (lib.encode tag) (f.encode_plain hb)
            (f.encode_plain cb) (f.encode_plain tag))
          (simp (
            f.decode-encode,
            f.header_reads _ hb header,
            alg_eq_refl,
            f.tag_verifies algorithm _ _ tag signed,
            f.claims_read cb body,
          ))

  -- A token that `encode_jwt` returned decodes, under the same secret and algorithm, to the claims
  -- that it was made from.
  pub decode_jwt-encode_jwt :
      (claims : JwtClaims J) (secret : Text) (algorithm : JwtAlgorithm) (token : Text)
      → IsFaithful lib claims
      → encode_jwt lib claims secret algorithm ≡ ok token
      → decode_jwt lib token secret algorithm ≡ ok claims
  unfolding encode_jwt
  decode_jwt-encode_jwt claims secret algorithm token f h =
      elim (Result-cases (lib.header_to_vec (record { typ = codes "JWT"; alg = algorithm }))) [
        | inr (e, no_header) ↦ cc (rw no_header at h)
        | inl (hb, header) ↦ elim (Result-cases (lib.claims_to_vec claims)) [
          | inr (e, no_claims) ↦ cc (rw (header, no_claims) at h)
          | inl (cb, body) ↦
              elim (Result-cases
                ((hmac lib algorithm).finalize (bytes secret) (bytes (signing_input hb cb)))) [
                  | inr (e, unsigned) ↦ cc (simp (header, body, unsigned) at h)
                  | inl (tag, signed) ↦
                      subst (λ t. decode_jwt lib t secret algorithm ≡ ok claims)
                        (cc (encode_jwt_built claims secret algorithm header body signed))
                        (decode_jwt_built claims secret algorithm header body signed f)
                ]
        ]
      ]

  -- What a token holds whose parts were signed with this secret and algorithm.
  pub record IsSigned (secret : Text) (algorithm : JwtAlgorithm) (token : Text) : Type 0 where
    pub header : Text
    pub body : Text
    pub seal : Text
    pub three_parts : split b'.' token ≡ header ∷ body ∷ seal ∷ []
    pub header_bytes : List ℕ
    pub header_decoded : lib.decode header ≡ ok header_bytes
    pub same_algorithm : lib.header_from_slice header_bytes ≡ ok algorithm
    pub tag : List ℕ
    pub tag_decoded : lib.decode seal ≡ ok tag
    pub verified :
        (hmac lib algorithm).verify_slice (bytes secret) (bytes (dotted header body)) tag ≡ ok true

  alg_eq-eq : (a b : JwtAlgorithm) → alg_eq a b ≡ true → a ≡ b
  alg_eq-eq a b h = ground arith

  decode_parts_inv :
      (h c s secret : Text) (algorithm : JwtAlgorithm) (claims : JwtClaims J)
      → decode_parts lib (h, c, s) secret algorithm ≡ ok claims
      → (hb : List ℕ) × (tag : List ℕ) × (lib.decode h ≡ ok hb)
        × (lib.header_from_slice hb ≡ ok algorithm)
        × (lib.decode s ≡ ok tag)
        × ((hmac lib algorithm).verify_slice (bytes secret) (bytes (dotted h c)) tag ≡ ok true)
  unfolding decode_parts
  decode_parts_inv h c s secret algorithm claims e = elim (Result-cases (lib.decode h)) [
    | inr (_, bad) ↦ cc (rw bad at e)
    | inl (hb, decoded) ↦ elim (Result-cases (lib.decode s)) [
      | inr (_, bad) ↦ ground arith
      | inl (tag, sealed) ↦ (hb, tag, decoded, ground arith, sealed, ground arith)
    ]
  ]

  decode_parts-IsSigned :
      (token secret : Text) (algorithm : JwtAlgorithm) (claims : JwtClaims J) (ps : List Text)
      → split b'.' token ≡ ps
      → (parts lib ps >>= λ found. decode_parts lib found secret algorithm) ≡ ok claims
      → IsSigned secret algorithm token
  unfolding decode_parts
  decode_parts-IsSigned token secret algorithm claims (h ∷ c ∷ s ∷ []) p e =
      let (hb, tag, decoded, same, sealed, good) =
        decode_parts_inv h c s secret algorithm claims e in
      record {
        header = h;
        body = c;
        seal = s;
        three_parts = p;
        header_bytes = hb;
        header_decoded = decoded;
        same_algorithm = same;
        tag = tag;
        tag_decoded = sealed;
        verified = good;
      }
  decode_parts-IsSigned token secret algorithm claims _ p e = cc

  -- Claims decode only from a token of three parts whose header names the expected algorithm and
  -- whose tag verifies for the text before it, under the secret.
  pub decode_jwt-IsSigned :
      (token secret : Text) (algorithm : JwtAlgorithm) (claims : JwtClaims J)
      → decode_jwt lib token secret algorithm ≡ ok claims
      → IsSigned secret algorithm token
  unfolding decode_jwt
  decode_jwt-IsSigned token secret algorithm claims e =
      decode_parts-IsSigned token secret algorithm claims (split b'.' token) refl e
