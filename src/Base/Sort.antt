-- ===== src/Base/Sort.antt =====
-- The standard library's `sort`, with the order as a Boolean test.
use Prim.Native.Nat.{suc}
use mathlib.Core.Path.{◌≡◌, refl}
use mathlib.Core.Bool.{Bool, true}
use mathlib.Core.List.{List, [], ◌∷◌}
use native.Mathlib.Omega.{arith}
use rust_api_stack.Base.Tests.{if◌then◌else◌}
use rust_api_stack.Base.Lists.{length, filter, All}

module _ {ℓ} {A : Type ℓ} (le : A → A → Bool) where
  unfoldable pub sort_insert : A → List A → List A
  sort_insert x [] = x ∷ []
  sort_insert x (y ∷ ys) = if le x y then x ∷ y ∷ ys else y ∷ sort_insert x ys

  unfoldable pub sort : List A → List A
  sort [] = []
  sort (x ∷ xs) = sort_insert x (sort xs)

  abbrev pub IsSorted : List A → Type 0
  IsSorted [] = Unit
  IsSorted (x ∷ xs) = All (λ y. le x y ≡ true) xs × IsSorted xs

  length-filter-sort_insert :
      (p : A → Bool) (x : A) (xs : List A)
      → length (filter p (sort_insert x xs)) ≡ length (filter p (x ∷ xs))
  unfolding sort_insert
  length-filter-sort_insert p x [] = refl
  length-filter-sort_insert p x (y ∷ ys) = ground (arith, length-filter-sort_insert p x ys)

  -- Sorting keeps how many entries pass a test.
  pub length-filter-sort :
      (p : A → Bool) (xs : List A) → length (filter p (sort xs)) ≡ length (filter p xs)
  unfolding sort
  length-filter-sort p [] = refl
  length-filter-sort p (x ∷ xs) =
      ground (arith, length-filter-sort_insert p x (sort xs), length-filter-sort p xs)

  length-sort_insert : (x : A) (xs : List A) → length (sort_insert x xs) ≡ suc (length xs)
  unfolding sort_insert
  length-sort_insert x [] = refl
  length-sort_insert x (y ∷ ys) = ground (arith, length-sort_insert x ys)

  pub length-sort : (xs : List A) → length (sort xs) ≡ length xs
  unfolding sort
  length-sort [] = refl
  length-sort (x ∷ xs) = omega (arith, length-sort_insert x (sort xs), length-sort xs)

  module _ {κ} (P : A → Type κ) where
    pub All-sort_insert : (x : A) (xs : List A) → P x → All P xs → All P (sort_insert x xs)
    unfolding sort_insert
    All-sort_insert x [] p h = (p, tt)
    All-sort_insert x (y ∷ ys) p h = ground (arith, All-sort_insert x ys p h.1)

    pub All-sort : (xs : List A) → All P xs → All P (sort xs)
    unfolding sort
    All-sort [] h = tt
    All-sort (x ∷ xs) h = All-sort_insert x (sort xs) h.0 (All-sort xs h.1)
