-- ===== src/Auth/Permissions.antt =====
-- The permission groups: crates/core/ras-auth-core/src/authorize.rs, and the requirement that
-- crates/specs/ras-permission-manifest/src/lib.rs keeps of them.
pub mod Groups
use rust_api_stack.Base.{
  Bool, true, false, not, ◌&&◌, ◌||◌, Option, none, some, List, [], ◌∷◌, if◌then◌else◌, all, any,
  contains, filter, is_empty, is_ok, Result, ok, err,
}
use rust_api_stack.Base.Text.{Text, Text-eq}
use rust_api_stack.Auth.{AuthError, insufficient_permissions, AuthenticatedUser, AuthProvider}

-- The first group that is not empty, or an empty one.
unfoldable pub first_nonempty : List (List Text) → List Text
first_nonempty [] = []
first_nonempty ([] ∷ groups) = first_nonempty groups
first_nonempty ((permission ∷ group) ∷ groups) = permission ∷ group

module _ {J : Type 0} where
  -- What the loop asks of a group, and what the variant without a provider asks.
  abbrev pub granted : AuthProvider J → AuthenticatedUser J → List Text → Bool
  granted provider user group =
      not (is_empty group) && is_ok (provider.check_permissions user group)

  abbrev pub held : AuthenticatedUser J → List Text → Bool
  held user group = not (is_empty group) && all (contains user.permissions) group

  unfoldable pub check_permission_groups :
      AuthProvider J → AuthenticatedUser J → List (List Text) → Result AuthError (Unit {0})
  check_permission_groups provider user groups =
      if all is_empty groups
      then ok tt
      else if any (granted provider user) groups
      then ok tt
      else err (insufficient_permissions (first_nonempty groups) user.permissions)

  unfoldable pub user_satisfies_permission_groups : AuthenticatedUser J → List (List Text) → Bool
  user_satisfies_permission_groups user groups =
      if all is_empty groups then true else any (held user) groups
