-- ===== src/Identity/Session/Service/Cap.antt =====
-- session.rs, the per-user cap of `begin_session`.
use rust_api_stack.Base.{
  ℕ, suc, ◌+◌, ◌-◌, ◌≤◌, ◌≡◌, refl, sym, ap, ◌∙◌, Bool, true, not, List, [], ◌∷◌, ◌++◌, arith,
  length, filter, take, drop, any, if◌then◌else◌, length-drop, take-append-drop, length-filter-le,
  All,
}
use rust_api_stack.Base.Text.{Text, Text-eq, text_eq, text_eq_iff}
use rust_api_stack.Base.HashMap.{HashMap, insert, remove}
use rust_api_stack.Base.Sort.{sort, length-sort, length-filter-sort}
use rust_api_stack.Base.Int.{ℤ}
use rust_api_stack.Identity.Session.{JwtClaims}
use rust_api_stack.Identity.Session.Service.{owned_le, owns, owned, remove_all, evict_surplus}

-- The sessions that a user holds.
abbrev pub held : {J : Type 0} → Text → HashMap Text (JwtClaims J) → ℕ
held sub sessions = length (filter (owns sub) sessions)

-- Whether a session is none of the old ones.
abbrev named : ℤ × Text → ℤ × Text → Bool
named (a, i) (b, j) = text_eq j i

abbrev survives : List (ℤ × Text) → ℤ × Text → Bool
survives old o = not (any (named o) old)

All-any-cons :
    (x : ℤ × Text) (ys zs : List (ℤ × Text))
    → All (λ y. any (named y) ys ≡ true) zs
    → All (λ y. any (named y) (x ∷ ys) ≡ true) zs
All-any-cons x ys [] h = tt
All-any-cons x ys ((b, j) ∷ zs) (p, h) = (ground arith, All-any-cons x ys zs h)

any_self : (ys : List (ℤ × Text)) → All (λ y. any (named y) ys ≡ true) ys
any_self [] = tt
any_self ((a, i) ∷ ys) = (ground (arith, text_eq_iff i i), All-any-cons (a, i) ys ys (any_self ys))

length-filter-append_le :
    (old ys zs : List (ℤ × Text))
    → All (λ y. any (named y) old ≡ true) ys
    → length (filter (survives old) (ys ++ zs)) ≤ length zs
length-filter-append_le old [] zs h = length-filter-le (survives old) zs
length-filter-append_le old ((a, i) ∷ ys) zs (p, h) =
    ground (arith, length-filter-append_le old ys zs h)

-- Of a list of which `n` are old, at most the others survive.
length-filter-take_le :
    (n : ℕ) (xs : List (ℤ × Text)) → length (filter (survives (take n xs)) xs) ≤ length xs - n
length-filter-take_le n xs = omega (
  arith,
  ap (λ l. length (filter (survives (take n xs)) l)) (take-append-drop n xs),
  length-filter-append_le (take n xs) (take n xs) (drop n xs) (any_self (take n xs)),
  length-drop n xs,
)

length-filter-true : (xs : List (ℤ × Text)) → length (filter (survives []) xs) ≡ length xs
length-filter-true [] = refl
length-filter-true ((a, i) ∷ xs) = ground (arith, length-filter-true xs)

module _ {J : Type 0} where
  length-filter-remove :
      (old : List (ℤ × Text)) (a : ℤ) (i sub : Text) (m : HashMap Text (JwtClaims J))
      → length (filter (survives old) (owned sub (remove i m)))
        ≡ length (filter (survives ((a, i) ∷ old)) (owned sub m))
  unfolding remove
  length-filter-remove old a i sub [] = refl
  length-filter-remove old a i sub ((j, c) ∷ m) =
      ground (arith, length-filter-remove old a i sub m, text_eq_iff i j, text_eq_iff j i)

  length-owned : (sub : Text) (m : HashMap Text (JwtClaims J)) → length (owned sub m) ≡ held sub m
  length-owned sub [] = refl
  length-owned sub ((j, c) ∷ m) = ground (arith, length-owned sub m)

  held-remove_all :
      (old : List (ℤ × Text)) (sub : Text) (m : HashMap Text (JwtClaims J))
      → held sub (remove_all old m) ≡ length (filter (survives old) (owned sub m))
  unfolding remove_all
  held-remove_all [] sub m = sym (length-filter-true (owned sub m) ∙ length-owned sub m)
  held-remove_all ((a, i) ∷ old) sub m =
      held-remove_all old sub (remove i m) ∙ length-filter-remove old a i sub m

  held-remove_all-le :
      (old : List (ℤ × Text)) (sub : Text) (m : HashMap Text (JwtClaims J))
      → held sub (remove_all old m) ≤ held sub m
  held-remove_all-le old sub m = omega (
    arith,
    held-remove_all old sub m,
    length-filter-le (survives old) (owned sub m),
    length-owned sub m,
  )

  -- The eviction leaves room for one more session of the user.
  pub held-evict_surplus :
      (max : ℕ) (sub : Text) (m : HashMap Text (JwtClaims J))
      → 1 ≤ max
      → suc (held sub (evict_surplus max sub m)) ≤ max
  unfolding evict_surplus
  held-evict_surplus max sub m h =
      let own = owned sub m in
      let old = take (length own + 1 - max) (sort owned_le own) in
      ground (
        arith,
        held-remove_all old sub m,
        length-filter-sort owned_le (survives old) own,
        length-filter-take_le (length own + 1 - max) (sort owned_le own),
        length-sort owned_le own,
        length-owned sub m,
      )

  pub held-evict_surplus-le :
      (max : ℕ) (sub other : Text) (m : HashMap Text (JwtClaims J))
      → held other (evict_surplus max sub m) ≤ held other m
  unfolding evict_surplus
  held-evict_surplus-le max sub other m =
      let own = owned sub m in
      let old = take (length own + 1 - max) (sort owned_le own) in
      ground (arith, held-remove_all-le old other m)

  pub held-insert-le :
      (sub jti : Text) (c : JwtClaims J) (m : HashMap Text (JwtClaims J))
      → held sub (insert jti c m) ≤ (if owns sub (jti, c) then suc (held sub m) else held sub m)
  unfolding insert
  held-insert-le sub jti c [] = ground arith
  held-insert-le sub jti c ((j, d) ∷ m) = ground (arith, held-insert-le sub jti c m)

  pub held-filter-le :
      (p : Text × JwtClaims J → Bool) (sub : Text) (m : HashMap Text (JwtClaims J))
      → held sub (filter p m) ≤ held sub m
  held-filter-le p sub [] = omega arith
  held-filter-le p sub ((j, d) ∷ m) = ground (arith, held-filter-le p sub m)

  pub held-remove-le :
      (jti sub : Text) (m : HashMap Text (JwtClaims J)) → held sub (remove jti m) ≤ held sub m
  unfolding remove
  held-remove-le jti sub [] = omega arith
  held-remove-le jti sub ((j, d) ∷ m) = ground (arith, held-remove-le jti sub m)
