-- ===== src/Auth/Permissions/Groups.antt =====
-- What the groups ask: all of one group.
use rust_api_stack.Base.{
  ◌≡◌, refl, Bool, false, not, List, [], ◌∷◌, arith, all, any, contains, filter, is_empty, is_ok,
  err,
}
use rust_api_stack.Base.Text.{Text, Text-eq}
use rust_api_stack.Auth.{
  AuthError, insufficient_permissions, AuthenticatedUser, AuthProvider, default_check_permissions,
}
use rust_api_stack.Auth.Permissions.{
  first_nonempty, granted, held, check_permission_groups, user_satisfies_permission_groups,
}

is_empty-filter-not :
    (p : Text → Bool) (xs : List Text) → is_empty (filter (λ x. not (p x)) xs) ≡ all p xs
is_empty-filter-not p [] = refl
is_empty-filter-not p (x ∷ xs) = ground (arith, is_empty-filter-not p xs)

any_congr :
    {A : Type 0} (p q : A → Bool) → ((a : A) → p a ≡ q a) → (xs : List A) → any p xs ≡ any q xs
any_congr p q h [] = refl
any_congr p q h (x ∷ xs) = rw (h x, any_congr p q h xs) refl

first_nonempty-nonempty :
    (groups : List (List Text))
    → all is_empty groups ≡ false
    → is_empty (first_nonempty groups) ≡ false
unfolding first_nonempty
first_nonempty-nonempty [] h = cc
first_nonempty-nonempty ([] ∷ groups) h = first_nonempty-nonempty groups h
first_nonempty-nonempty ((p ∷ ps) ∷ groups) h = refl

module _ {J : Type 0} where
  default_check-ok :
      (user : AuthenticatedUser J) (required : List Text)
      → is_ok (default_check_permissions user required) ≡ all (contains user.permissions) required
  unfolding default_check_permissions
  default_check-ok user required =
      ground (arith, is_empty-filter-not (contains user.permissions) required)

  -- For a provider that keeps the default check, the groups hold for a user exactly when some group
  -- that is not empty is among the user's permissions, or all the groups are empty.
  pub check_permission_groups-user_satisfies :
      (provider : AuthProvider J) (user : AuthenticatedUser J) (groups : List (List Text))
      → ((required : List Text)
          → provider.check_permissions user required ≡ default_check_permissions user required)
      → is_ok (check_permission_groups provider user groups)
        ≡ user_satisfies_permission_groups user groups
  unfolding check_permission_groups user_satisfies_permission_groups
  check_permission_groups-user_satisfies provider user groups same =
      ground (arith, any_congr (granted provider user) (held user) agree groups)
    where
      agree : (group : List Text) → granted provider user group ≡ held user group
      agree group = rw (same group, default_check-ok user group) refl

  -- An empty group beside others changes nothing: it grants nobody access.
  pub satisfies-empty_group :
      (user : AuthenticatedUser J) (group : List Text) (groups : List (List Text))
      → user_satisfies_permission_groups user ([] ∷ group ∷ groups)
        ≡ user_satisfies_permission_groups user (group ∷ groups)
  unfolding user_satisfies_permission_groups
  satisfies-empty_group user group groups = ground arith

  -- A refusal names the first group that is not empty, and no such group is granted.
  pub check_permission_groups-eq-err :
      (provider : AuthProvider J) (user : AuthenticatedUser J) (groups : List (List Text))
      (e : AuthError)
      → check_permission_groups provider user groups ≡ err e
      → (e ≡ insufficient_permissions (first_nonempty groups) user.permissions)
        × (is_empty (first_nonempty groups) ≡ false)
        × (any (granted provider user) groups ≡ false)
  unfolding check_permission_groups
  check_permission_groups-eq-err provider user groups e h =
      ground (arith, first_nonempty-nonempty groups)
