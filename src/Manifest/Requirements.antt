-- ===== src/Manifest/Requirements.antt =====
-- What a requirement asks, in all its forms.
use rust_api_stack.Base.{
  ◌≡◌, ◌↔◌, refl, sym, ap, ◌∙◌, inl, inr, Bool, true, not, ◌&&◌, ◌||◌, List, [], ◌∷◌, arith, all,
  any, contains, is_empty, Bool-cases,
}
use rust_api_stack.Base.Text.{Text, Text-eq, text_eq, text_eq_iff, text_le}
use rust_api_stack.Base.Sort.{sort, sort_insert}
use rust_api_stack.Auth.{AuthenticatedUser}
use rust_api_stack.Auth.Permissions.{user_satisfies_permission_groups, held}
use rust_api_stack.Manifest.{
  keep_one, dedup, group_le, group_eq, AuthRequirementInfo, open_to_all, optional,
  authenticated_only, permissions, normalized, from_permission_groups, is_authenticated_only,
  non_empty_groups, is_satisfied_by, first_group_permissions, PermissionSet, insert, extend,
  extend_first_group,
}

group_eq_iff : (xs ys : List Text) → (group_eq xs ys ≡ true) ↔ (xs ≡ ys)
unfolding group_eq
group_eq_iff [] [] = ground arith
group_eq_iff [] (y ∷ ys) = ground arith
group_eq_iff (x ∷ xs) [] = ground arith
group_eq_iff (x ∷ xs) (y ∷ ys) = ground (arith, text_eq_iff x y, group_eq_iff xs ys)

-- A test on all or on any of the members does not see the order, nor how often one is there.
module _ {A : Type 0} (le same : A → A → Bool) (same_iff : (a b : A) → (same a b ≡ true) ↔ (a ≡ b))
    (p : A → Bool) where
  any-sort_insert : (x : A) (xs : List A) → any p (sort_insert le x xs) ≡ (p x || any p xs)
  unfolding sort_insert
  any-sort_insert x [] = refl
  any-sort_insert x (y ∷ ys) = ground (arith, any-sort_insert x ys)

  any-sort : (xs : List A) → any p (sort le xs) ≡ any p xs
  unfolding sort
  any-sort [] = refl
  any-sort (x ∷ xs) = ground (arith, any-sort_insert x (sort le xs), any-sort xs)

  any-keep_one : (x : A) (xs : List A) → any p (keep_one same x xs) ≡ (p x || any p xs)
  unfolding keep_one
  any-keep_one x [] = refl
  any-keep_one x (y ∷ ys) = elim (Bool-cases (same x y)) [
    | inl e ↦ rw (e, (same_iff x y).0 e) (ground arith)
    | inr e ↦ rw e refl
  ]

  any-dedup : (xs : List A) → any p (dedup same xs) ≡ any p xs
  unfolding dedup
  any-dedup [] = refl
  any-dedup (x ∷ xs) = any-keep_one x (dedup same xs) ∙ rw (any-dedup xs) refl

  any-dedup-sort : (xs : List A) → any p (dedup same (sort le xs)) ≡ any p xs
  any-dedup-sort xs = any-dedup (sort le xs) ∙ any-sort xs

all-not-any : (p : Text → Bool) (xs : List Text) → all p xs ≡ not (any (λ x. not (p x)) xs)
all-not-any p [] = refl
all-not-any p (x ∷ xs) = ground (arith, all-not-any p xs)

all-dedup-sort :
    (p : Text → Bool) (xs : List Text) → all p (dedup text_eq (sort text_le xs)) ≡ all p xs
all-dedup-sort p xs =
    rw
      (
        all-not-any p (dedup text_eq (sort text_le xs)),
        all-not-any p xs,
        any-dedup-sort text_le text_eq text_eq_iff (λ x. not (p x)) xs,
      )
      refl

is_empty_lem : (xs : List Text) → is_empty xs ≡ not (any (λ x. true) xs)
is_empty_lem [] = refl
is_empty_lem (x ∷ xs) = refl

is_empty-dedup-sort : (xs : List Text) → is_empty (dedup text_eq (sort text_le xs)) ≡ is_empty xs
is_empty-dedup-sort xs =
    is_empty_lem (dedup text_eq (sort text_le xs))
    ∙ ap not (any-dedup-sort text_le text_eq text_eq_iff (λ x. true) xs)
    ∙ sym (is_empty_lem xs)

-- What a requirement asks of an authenticated caller.
pub permits : AuthRequirementInfo → List Text → Bool
permits open_to_all held = true
permits optional held = true
permits authenticated_only held = true
permits (permissions any_of) held = any (all (contains held)) any_of

any-normalized :
    (held : List Text) (groups : List (List Text))
    → any (all (contains held)) (normalized groups)
      ≡ any (all (contains held)) (non_empty_groups groups)
unfolding normalized non_empty_groups
any-normalized held [] = refl
any-normalized held (group ∷ groups) = elim (Bool-cases (is_empty group)) [
  | inl e ↦ rw (is_empty-dedup-sort group, e) (any-normalized held groups)
  | inr e ↦
      rw
        (
          is_empty-dedup-sort group,
          e,
          all-dedup-sort (contains held) group,
          any-normalized held groups,
        )
        refl
]

is_empty-normalized :
    (groups : List (List Text)) → is_empty (normalized groups) ≡ is_authenticated_only groups
unfolding normalized is_authenticated_only
is_empty-normalized [] = refl
is_empty-normalized (group ∷ groups) = elim (Bool-cases (is_empty group)) [
  | inl e ↦ rw (is_empty-dedup-sort group, e) (is_empty-normalized groups)
  | inr e ↦ rw (is_empty-dedup-sort group, e) refl
]

-- The requirement that the manifest lists for groups asks what the generated constant with the same
-- groups asks: sorting, dropping duplicates and dropping empty groups change nothing.
pub permits-from_permission_groups :
    (groups : List (List Text)) (held : List Text)
    → permits (from_permission_groups groups) held ≡ is_satisfied_by groups held
unfolding from_permission_groups is_satisfied_by permits
permits-from_permission_groups groups held = elim (Bool-cases (is_authenticated_only groups)) [
  | inl e ↦ rw (is_empty-normalized groups, e) refl
  | inr e ↦
      rw
        (
          is_empty-normalized groups,
          e,
          any-dedup-sort group_le group_eq group_eq_iff (all (contains held)) (normalized groups),
          any-normalized held groups,
        )
        refl
]

is_authenticated_only_lem :
    (groups : List (List Text)) → is_authenticated_only groups ≡ all is_empty groups
unfolding is_authenticated_only
is_authenticated_only_lem [] = refl
is_authenticated_only_lem (group ∷ groups) = ground (arith, is_authenticated_only_lem groups)

any-non_empty :
    (p : List Text → Bool) (groups : List (List Text))
    → any p (non_empty_groups groups) ≡ any (λ group. not (is_empty group) && p group) groups
unfolding non_empty_groups
any-non_empty p [] = refl
any-non_empty p (group ∷ groups) = ground (arith, any-non_empty p groups)

-- The manifest's answer is the one that the services give for a user with these permissions.
pub is_satisfied_by-user_satisfies :
    {J : Type 0} (user : AuthenticatedUser J) (groups : List (List Text))
    → is_satisfied_by groups user.permissions ≡ user_satisfies_permission_groups user groups
unfolding is_satisfied_by user_satisfies_permission_groups
is_satisfied_by-user_satisfies user groups = ground (
  arith,
  is_authenticated_only_lem groups,
  any-non_empty (all (contains user.permissions)) groups,
)

only_empty :
    (groups : List (List Text)) → non_empty_groups groups ≡ [] → is_authenticated_only groups ≡ true
unfolding non_empty_groups is_authenticated_only
only_empty [] e = refl
only_empty ([] ∷ groups) e = only_empty groups e
only_empty ((x ∷ xs) ∷ groups) e = cc

contains-insert :
    (set : PermissionSet) (permission other : Text)
    → contains (insert set permission) other ≡ (contains set other || text_eq permission other)
unfolding insert
contains-insert set permission other = ground (arith, text_eq_iff permission other)

contains-extend :
    (set : PermissionSet) (permissions : List Text) (other : Text)
    → contains set other ≡ true
    → contains (extend set permissions) other ≡ true
unfolding extend
contains-extend set [] other h = h
contains-extend set (x ∷ xs) other h =
    contains-extend (insert set x) xs other (ground (arith, contains-insert set x other))

all-extend : (set : PermissionSet) (xs : List Text) → all (contains (extend set xs)) xs ≡ true
unfolding extend
all-extend set [] = refl
all-extend set (x ∷ xs) = ground (
  arith,
  all-extend (insert set x) xs,
  contains-extend (insert set x) xs x,
  contains-insert set x x,
  text_eq_iff x x,
)

-- A set that was extended by the first group of a requirement satisfies it, whatever it held before.
pub extend_first_group-satisfies :
    (set : PermissionSet) (groups : List (List Text))
    → is_satisfied_by groups (extend_first_group set groups) ≡ true
unfolding is_satisfied_by extend_first_group first_group_permissions
extend_first_group-satisfies set groups = go (non_empty_groups groups) refl
  where
    go :
        (gs : List (List Text))
        → non_empty_groups groups ≡ gs
        → is_satisfied_by groups (extend_first_group set groups) ≡ true
    go [] e = ground (arith, only_empty groups e)
    go (group ∷ gs) e = rw e (ground (arith, all-extend set group))
