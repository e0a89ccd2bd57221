-- ===== src/Manifest.antt =====
-- crates/specs/ras-permission-manifest/src/lib.rs: the requirements of operations, and the sets that
-- token issuers collect. A `BTreeSet` is a list of which only membership is read.
pub mod Requirements
pub mod Examples
use rust_api_stack.Base.{
  ℕ, Bool, true, false, not, ◌&&◌, ◌||◌, Option, none, some, List, [], ◌∷◌, ◌++◌, if◌then◌else◌,
  all, any, contains, filter, is_empty,
}
use rust_api_stack.Base.Text.{Text, Text-eq, text_eq, text_le}
use rust_api_stack.Base.Sort.{sort}

-- `dedup`: of equal neighbours one stays.
unfoldable pub keep_one : {A : Type 0} → (A → A → Bool) → A → List A → List A
keep_one same x [] = x ∷ []
keep_one same x (y ∷ ys) = if same x y then x ∷ ys else x ∷ y ∷ ys

unfoldable pub dedup : {A : Type 0} → (A → A → Bool) → List A → List A
dedup same [] = []
dedup same (x ∷ xs) = keep_one same x (dedup same xs)

-- `cmp` of vectors of texts is lexicographic.
unfoldable pub group_le : List Text → List Text → Bool
group_le [] ys = true
group_le (x ∷ xs) [] = false
group_le (x ∷ xs) (y ∷ ys) = let rest = group_le xs ys in if text_eq x y then rest else text_le x y

unfoldable pub group_eq : List Text → List Text → Bool
group_eq [] [] = true
group_eq [] (y ∷ ys) = false
group_eq (x ∷ xs) [] = false
group_eq (x ∷ xs) (y ∷ ys) = text_eq x y && group_eq xs ys

pub data AuthRequirementInfo : Type 0 where
  open_to_all : AuthRequirementInfo
  optional : AuthRequirementInfo
  authenticated_only : AuthRequirementInfo
  permissions : (any_of : List (List Text)) → AuthRequirementInfo

-- The loop over the groups.
unfoldable pub normalized : List (List Text) → List (List Text)
normalized [] = []
normalized (group ∷ groups) =
    let all_of = dedup text_eq (sort text_le group) in
    let rest = normalized groups in if is_empty all_of then rest else all_of ∷ rest

unfoldable pub from_permission_groups : List (List Text) → AuthRequirementInfo
from_permission_groups groups =
    let any_of = normalized groups in
    if is_empty any_of
    then authenticated_only
    else permissions (dedup group_eq (sort group_le any_of))

-- `StaticPermissionRequirement` is its groups.
abbrev pub StaticPermissionRequirement : Type 0
StaticPermissionRequirement = List (List Text)

-- The loop over the index.
unfoldable pub is_authenticated_only : StaticPermissionRequirement → Bool
is_authenticated_only [] = true
is_authenticated_only (group ∷ any_of) =
    let rest = is_authenticated_only any_of in if not (is_empty group) then false else rest

unfoldable pub non_empty_groups : StaticPermissionRequirement → List (List Text)
non_empty_groups any_of = filter (λ group. not (is_empty group)) any_of

unfoldable pub is_satisfied_by : StaticPermissionRequirement → List Text → Bool
is_satisfied_by any_of held =
    is_authenticated_only any_of
    || any (λ group. all (contains held) group) (non_empty_groups any_of)

unfoldable pub first_group_permissions : StaticPermissionRequirement → List Text
first_group_permissions any_of = elim (non_empty_groups any_of) [ [] ↦ [] | group ∷ groups ↦ group ]

abbrev pub PermissionSet : Type 0
PermissionSet = List Text

-- `insert`, and `with`.
unfoldable pub insert : PermissionSet → Text → PermissionSet
insert set permission = if contains set permission then set else permission ∷ set

unfoldable pub extend : PermissionSet → List Text → PermissionSet
extend set [] = set
extend set (permission ∷ others) = extend (insert set permission) others

unfoldable pub extend_first_group : PermissionSet → StaticPermissionRequirement → PermissionSet
extend_first_group set requirement = extend set (first_group_permissions requirement)
