-- ===== src/Identity/OAuth2/IdToken.antt =====
-- client/id_token.rs: what an accepted ID token says.
use rust_api_stack.Base.{
  ◌≡◌, ◌<◌, Bool, true, false, not, Option, none, some, arith, length, any, is_empty, ap, ok, refl,
  >>=-eq-ok, ok_or-eq-ok, reject_if, ok_or,
}
use rust_api_stack.Base.Text.{Text, text_eq_iff, trim}
use rust_api_stack.Base.Int.{ℤ, ltb_ℤ}
use rust_api_stack.Identity.OAuth2.{
  OAuth2ProviderConfig, Audience, one_audience, audiences, other_audience, IdTokenClaims,
  IdTokenLibrary, is_text, audience_matches, is_unexpired, nonce_matches, has_subject,
  decode_id_token_claims, validate_id_token_claims,
}

-- A condition whose negation was not rejected.
pub passed {ℓ} :
    {E : Type ℓ} {b : Bool} (e : E) {u : Unit {0}} → reject_if (not b) e ≡ ok u → b ≡ true
passed {b = true} e h = refl
passed {b = false} e h = cc

pub is_text-eq : (found : Option Text) (t : Text) → is_text found t ≡ true → found ≡ some t
unfolding is_text
is_text-eq none t h = cc
is_text-eq (some s) t h = ap some ((text_eq_iff s t).0 h)

-- The audience is the client, or a list that names it, and then with no other name unless the
-- authorized party is the client.
abbrev pub IsFor : Text → Option Text → Audience → Type 0
IsFor client_id azp (one_audience name) = name ≡ client_id
IsFor client_id azp (audiences names) =
    (any (λ name. is_text name client_id) names ≡ true)
    × ((1 < length names) → azp ≡ some client_id)
IsFor client_id azp other_audience = ⊥

audience_matches-IsFor :
    (azp : Option Text) (client_id : Text) (found : Option Audience)
    → audience_matches azp client_id found ≡ true
    → (aud : Audience) × (found ≡ some aud) × IsFor client_id azp aud
unfolding audience_matches
audience_matches-IsFor azp client_id none h = cc
audience_matches-IsFor azp client_id (some (one_audience name)) h =
    (one_audience name, refl, (text_eq_iff name client_id).0 h)
audience_matches-IsFor azp client_id (some (audiences names)) h =
    (audiences names, refl, (ground arith, λ several. is_text-eq azp client_id (ground arith)))
audience_matches-IsFor azp client_id (some other_audience) h = cc

is_unexpired-exp :
    (exp : Option ℤ) (now : ℤ)
    → is_unexpired exp now ≡ true
    → (until : ℤ) × (exp ≡ some until) × (ltb_ℤ now until ≡ true)
unfolding is_unexpired
is_unexpired-exp none now h = cc
is_unexpired-exp (some until) now h = (until, refl, h)

-- What an accepted nonce is.
abbrev pub HasNonce : Option Text → Option Text → Type 0
HasNonce none found = Unit
HasNonce (some expected) found = found ≡ some expected

nonce_matches-HasNonce :
    (expected found : Option Text) → nonce_matches expected found ≡ true → HasNonce expected found
unfolding nonce_matches
nonce_matches-HasNonce none found h = tt
nonce_matches-HasNonce (some expected) found h = is_text-eq found expected h

has_subject-sub :
    (sub : Option Text)
    → has_subject sub ≡ true
    → (name : Text) × (sub ≡ some name) × (is_empty (trim name) ≡ false)
unfolding has_subject
has_subject-sub none h = cc
has_subject-sub (some name) h = (name, refl, ground arith)

module _ (lib : IdTokenLibrary) where
  -- The claims are those of the provider for this client and this flow, and have not expired.
  abbrev pub IsAccepted : OAuth2ProviderConfig → ℤ → Option Text → IdTokenClaims → Type 0
  IsAccepted config now expected claims =
      ((issuer : Text) × (config.issuer ≡ some issuer) × (claims.iss ≡ some issuer))
      × ((aud : Audience) × (claims.aud ≡ some aud) × IsFor config.client_id claims.azp aud)
      × ((until : ℤ) × (claims.exp ≡ some until) × (ltb_ℤ now until ≡ true))
      × HasNonce expected claims.nonce
      × ((name : Text) × (claims.sub ≡ some name) × (is_empty (trim name) ≡ false))

  -- An ID token that passes decodes to claims of the configured issuer, for this client (alone, or
  -- as the authorized party), that have not expired, have the nonce of the flow where it has one,
  -- and name a subject that is not blank.
  pub validate_id_token_claims-IsAccepted :
      (config : OAuth2ProviderConfig) (now : ℤ) (id_token : Text) (expected : Option Text)
      → validate_id_token_claims lib config now id_token expected ≡ ok tt
      → (claims : IdTokenClaims) × (decode_id_token_claims lib id_token ≡ ok claims)
        × IsAccepted config now expected claims
  unfolding validate_id_token_claims
  validate_id_token_claims-IsAccepted config now id_token expected h =
      let (claims, decoded, h) = >>=-eq-ok (decode_id_token_claims lib id_token) _ h in
      let (issuer, has_issuer, h) = >>=-eq-ok (ok_or config.issuer _) _ h in
      let (a, same_issuer, h) = >>=-eq-ok (reject_if (not (is_text claims.iss issuer)) _) _ h in
      let (b, same_audience, h) =
        >>=-eq-ok (reject_if (not (audience_matches claims.azp config.client_id claims.aud)) _) _
          h in
      let (c, unexpired, h) = >>=-eq-ok (reject_if (not (is_unexpired claims.exp now)) _) _ h in
      let (d, same_nonce, h) =
        >>=-eq-ok (reject_if (not (nonce_matches expected claims.nonce)) _) _ h in
      let (e, subject, h) = >>=-eq-ok (reject_if (not (has_subject claims.sub)) _) _ h in
      (
        claims,
        decoded,
        (
          (issuer, ok_or-eq-ok _ _ has_issuer, is_text-eq claims.iss issuer (passed _ same_issuer)),
          audience_matches-IsFor claims.azp config.client_id claims.aud (passed _ same_audience),
          is_unexpired-exp claims.exp now (passed _ unexpired),
          nonce_matches-HasNonce expected claims.nonce (passed _ same_nonce),
          has_subject-sub claims.sub (passed _ subject),
        ),
      )
