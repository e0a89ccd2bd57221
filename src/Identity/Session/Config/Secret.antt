-- ===== src/Identity/Session/Config/Secret.antt =====
-- config.rs, `validate`: what a configuration that passes has.
use mathlib.Core.List.{append_assoc}
use rust_api_stack.Base.{
  ℕ, zero, suc, ◌+◌, ◌≤◌, ◌≡◌, refl, ap, sym, subst, ◌∙◌, ◌≢◌, ◌↔◌, ◌⊎◌, inl, inr, true, false,
  Option, none, some, List, [], ◌∷◌, ◌++◌, arith, ltb, eqb, length, any, replicate, ok, Bool-cases,
  to_set, eqb_iff, nat_eq,
}
use rust_api_stack.Base.Text.{bytes, trim, to_ascii_lowercase, contains_str}
use rust_api_stack.Base.Int.{pos, ◌<ℤ◌}
use rust_api_stack.Identity.Session.Config.{
  SessionConfig, next_run, runs_within, insecure_secret_substrings, validate_jwt_secret, validate,
}

-- Eight equal bytes in a row.
abbrev pub HasLongRun : List ℕ → Type 0
HasLongRun bs = (pre : List ℕ) × (b : ℕ) × (post : List ℕ) × (bs ≡ pre ++ (replicate 8 b ++ post))

run_bounded :
    (run k b : ℕ) (post : List ℕ)
    → runs_within run (some b) (replicate k b ++ post) ≡ true
    → run ≤ 7
    → run + k ≤ 7
unfolding runs_within
run_bounded run zero b post h r = omega arith
run_bounded run (suc k) b post h r = ground (arith, run_bounded (run + 1) k b post)

no_long_run :
    (run : ℕ) (prev : Option ℕ) (pre : List ℕ) (b : ℕ) (post : List ℕ)
    → runs_within run prev (pre ++ (replicate 8 b ++ post)) ≡ true
    → ⊥
unfolding runs_within
no_long_run run prev [] b post h = ground (arith, run_bounded (next_run run prev b) 7 b post)
no_long_run run prev (x ∷ pre) b post h =
    ground (arith, no_long_run (next_run run prev x) (some x) pre b post)

replicate_snoc : (r p : ℕ) (bs : List ℕ) → replicate (suc r) p ++ bs ≡ replicate r p ++ p ∷ bs
replicate_snoc zero p bs = refl
replicate_snoc (suc r) p bs = ap (◌∷◌ p) (replicate_snoc r p bs)

long_run :
    (r p : ℕ) (bs : List ℕ)
    → r ≤ 7
    → runs_within r (some p) bs ≡ false
    → HasLongRun (replicate r p ++ bs)
unfolding runs_within
long_run r p [] h e = cc
long_run r p (x ∷ bs) h e = elim (Bool-cases (eqb p x)) [
  | inl same ↦ elim (Bool-cases (ltb 7 (r + 1))) [
    | inl over ↦
        let full : r ≡ 7 = ground arith in
        let eq : p ≡ x = (eqb_iff p x).0 same in ([], p, bs, rw (full, ← eq) refl)
    | inr within ↦
        subst HasLongRun
          (replicate_snoc r p bs ∙ ap (λ y. replicate r p ++ y ∷ bs) ((eqb_iff p x).0 same))
          (long_run (suc r) p bs (ground arith) (ground (arith, (eqb_iff p x).0 same)))
  ]
  | inr other ↦
      let (pre, b, post, q) = long_run 1 x bs (omega arith) (ground arith) in
      (
        replicate r p ++ pre,
        b,
        post,
        ap (λ t. replicate r p ++ t) q
            ∙ sym (append_assoc (replicate r p) pre (replicate 8 b ++ post)),
      )
]

-- The loop over the bytes of a secret refuses it exactly when some byte occurs eight times in a row.
pub runs_within_iff : (bs : List ℕ) → (runs_within 0 none bs ≡ false) ↔ HasLongRun bs
unfolding runs_within
runs_within_iff bs = (found bs, λ (pre, b, post, q). refused pre b post q)
  where
    found : (xs : List ℕ) → runs_within 0 none xs ≡ false → HasLongRun xs
    found [] e = cc
    found (x ∷ xs) e = long_run 1 x xs (omega arith) e

    refused :
        (pre : List ℕ) (b : ℕ) (post : List ℕ)
        → bs ≡ pre ++ (replicate 8 b ++ post)
        → runs_within 0 none bs ≡ false
    refused pre b post q = elim (Bool-cases (runs_within 0 none bs)) [
      | inl kept ↦ absurd (no_long_run 0 none pre b post (rw (← q) kept))
      | inr lost ↦ lost
    ]

-- What `validate` demands of a configuration.
pub record IsSound (config : SessionConfig) : Type 0 where
  pub long_enough : 32 ≤ length (bytes (trim config.jwt_secret))
  pub no_placeholder :
      any
        (λ p. contains_str p (to_ascii_lowercase (trim config.jwt_secret)))
        insecure_secret_substrings
      ≡ false
  pub varied : 10 ≤ length (to_set (bytes (trim config.jwt_secret)))
  pub no_run : ¬ HasLongRun (bytes (trim config.jwt_secret))
  pub lives : pos 0 <ℤ config.jwt_ttl
  pub scoped : (config.require_iss_aud ≡ false) ⊎ ((config.iss ≢ none) × (config.aud ≢ none))
  pub tracked : 1 ≤ config.max_sessions_per_user

-- A configuration passes `validate` exactly if its trimmed secret has at least 32 bytes, at least
-- 10 distinct ones, no placeholder and no byte eight times in a row, its tokens live for a positive
-- time, it has an issuer and an audience where these are required, and allows one session.
pub validate-eq-ok_iff : (config : SessionConfig) → (validate config ≡ ok tt) ↔ IsSound config
unfolding validate validate_jwt_secret
validate-eq-ok_iff config = (
  λ h. record {
    long_enough = ground arith;
    no_placeholder = ground arith;
    varied = ground arith;
    no_run = λ run. ground (arith, (runs_within_iff bs).1 run);
    lives = ground arith;
    scoped = ground arith;
    tracked = ground arith;
  },
  λ v. elim (Bool-cases (runs_within 0 none bs)) [
    | inl kept ↦ ground arith
    | inr lost ↦ absurd (v.no_run ((runs_within_iff bs).0 lost))
  ],
)
  where
    bs : List ℕ
    bs = bytes (trim config.jwt_secret)
