-- ===== src/Manifest/Examples.antt =====
-- Requirements of an operation with an empty group beside others.
use rust_api_stack.Base.{ℕ, ◌≡◌, none, List, [], ◌∷◌}
use rust_api_stack.Base.Text.{Text, codes}
use rust_api_stack.Auth.{AuthenticatedUser}
use rust_api_stack.Manifest.{from_permission_groups, is_satisfied_by}
use rust_api_stack.Manifest.Requirements.{permits, permits-from_permission_groups}

abbrev groups : List (List Text)
groups = (codes "write" ∷ codes "read" ∷ codes "read" ∷ []) ∷ [] ∷ (codes "admin" ∷ []) ∷ []

abbrev carol : AuthenticatedUser ℕ
carol = record { user_id = codes "carol"; permissions = codes "admin" ∷ []; metadata = none }

permits-from_permission_groups_example :
    permits (from_permission_groups groups) (codes "admin" ∷ [])
    ≡ is_satisfied_by groups (codes "admin" ∷ [])
permits-from_permission_groups_example = permits-from_permission_groups groups (codes "admin" ∷ [])
