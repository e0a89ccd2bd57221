-- ===== src/Identity/Session/Service/Namespace.antt =====
-- session.rs and lib.rs: the user ID of a session names the provider that verified the login.
use rust_api_stack.Base.{
  ◌≡◌, refl, ap, ◌∙◌, ◌≢◌, ◌⊎◌, inl, inr, true, false, Option, none, some, [], ◌∷◌, ◌++◌, arith, ok,
}
use mathlib.Core.List.{append_assoc, append-nil}
use rust_api_stack.Base.Text.{Text, Text-eq, strip_prefix, split_once, contains_char}
use rust_api_stack.Base.TextLaws.{strip_prefix-eq_some, split_once-append}
use rust_api_stack.Identity.Session.{JwtClaims, VerifiedIdentity, user_id}
use rust_api_stack.Identity.Session.Service.{SessionService, Reading, in_namespace, issue}
use rust_api_stack.Identity.Session.Service.Issue.{issue-IsIssued}

-- An identity in the namespace of a provider has the provider's ID, alone or up to a colon.
in_namespace_inv :
    (p q : Text) → in_namespace p q ≡ true → (q ≡ p) ⊎ ((rest : Text) × (q ≡ p ++ b':' ∷ rest))
unfolding in_namespace
in_namespace_inv p q h = inv (strip_prefix p q) refl
  where
    inv :
        (o : Option Text)
        → strip_prefix p q ≡ o
        → (q ≡ p) ⊎ ((rest : Text) × (q ≡ p ++ b':' ∷ rest))
    inv none e = cc (rw (e, in_namespace) at h)
    inv (some []) e = inl (strip_prefix-eq_some p q [] e ∙ append-nil p)
    inv (some (c ∷ rest)) e =
        inr (rest, strip_prefix-eq_some p q (c ∷ rest) e ∙ ap (λ x. p ++ x ∷ rest) (ground arith))

module _ {J : Type 0} where
  split_once-user_id :
      (p : Text) (identity : VerifiedIdentity J)
      → contains_char b':' p ≡ false
      → in_namespace p identity.provider_id ≡ true
      → (rest : Text) × (split_once b':' (user_id identity) ≡ some (p, rest))
  unfolding user_id
  split_once-user_id p identity plain scoped =
      elim (in_namespace_inv p identity.provider_id scoped) [
        | inl same ↦ (identity.subject, rw same (split_once-append b':' p identity.subject plain))
        | inr (rest, under) ↦ (
          rest ++ b':' ∷ identity.subject,
          rw (under, append_assoc p (b':' ∷ rest) (b':' ∷ identity.subject))
              (split_once-append b':' p (rest ++ b':' ∷ identity.subject) plain),
        )
      ]

  -- The text before the first colon of the user ID is the ID of the provider that was asked.
  pub issue-names_provider :
      (r : Reading) (provider_id : Text) (payload : J) (s : SessionService J) (claims : JwtClaims J)
      → contains_char b':' provider_id ≡ false
      → issue r provider_id payload s ≡ ok claims
      → (rest : Text) × (split_once b':' claims.sub ≡ some (provider_id, rest))
  issue-names_provider r provider_id payload s claims plain h =
      let v = issue-IsIssued r provider_id payload s claims h in
      let (rest, e) = split_once-user_id provider_id v.identity plain v.scoped in
      (rest, ap (split_once b':') v.sub ∙ e)

  -- Sessions begun with two providers, neither of whose IDs holds a colon, never get one user ID.
  pub issue-sub_distinct :
      (r r' : Reading) (p q : Text) (payload payload' : J) (s s' : SessionService J)
      (c d : JwtClaims J)
      → contains_char b':' p ≡ false
      → contains_char b':' q ≡ false
      → p ≢ q
      → issue r p payload s ≡ ok c
      → issue r' q payload' s' ≡ ok d
      → c.sub ≢ d.sub
  issue-sub_distinct r r' p q payload payload' s s' c d plain plain' other h k same =
      let (rest, e) = issue-names_provider r p payload s c plain h in
      let (rest', e') = issue-names_provider r' q payload' s' d plain' k in other (cc (e, e', same))
