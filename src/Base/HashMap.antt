-- ===== src/Base/HashMap.antt =====
-- Rust's `HashMap`: the entries in the order of iteration, which the source never relies on.
use Prim.Native.Nat.{suc, ◌≤◌}
use mathlib.Core.Path.{◌≡◌, refl}
use mathlib.Core.Bool.{Bool, true}
use mathlib.Core.Option.{Option, none, some}
use mathlib.Core.List.{List, [], ◌∷◌}
use native.Mathlib.Omega.{arith}
use rust_api_stack.Base.Tests.{if◌then◌else◌, Eq, ◌==◌, is_some}
use rust_api_stack.Base.Lists.{length, filter}

abbrev pub HashMap {ℓ κ} : Type ℓ → Type κ → Type (ℓ ⊔ κ)
HashMap K V = List (K × V)

module _ {ℓ κ} {K : Type ℓ} {V : Type κ} ⦃e : Eq K⦄ where
  unfoldable pub get : K → HashMap K V → Option V
  get k [] = none
  get k ((j, v) ∷ m) = if j == k then some v else get k m

  unfoldable pub insert : K → V → HashMap K V → HashMap K V
  insert key value [] = (key, value) ∷ []
  insert key value ((j, old) ∷ m) =
      if j == key then (key, value) ∷ m else (j, old) ∷ insert key value m

  unfoldable pub remove : K → HashMap K V → HashMap K V
  remove k [] = []
  remove k ((j, w) ∷ m) = if j == k then remove k m else (j, w) ∷ remove k m

  abbrev pub contains_key : K → HashMap K V → Bool
  contains_key k m = is_some (get k m)

  -- `retain`, with the predicate on the pair.
  abbrev pub retain : (K × V → Bool) → HashMap K V → HashMap K V
  retain p m = filter p m

  -- No key twice.
  abbrev pub IsMap : HashMap K V → Type κ
  IsMap [] = Unit
  IsMap ((k, v) ∷ m) = (get k m ≡ none) × IsMap m

  pub get-insert :
      (k j : K) (v : V) (m : HashMap K V)
      → get j (insert k v m) ≡ (if k == j then some v else get j m)
  unfolding get insert
  get-insert k j v [] = refl
  get-insert k j v ((i, w) ∷ m) =
      ground (arith, e.beq_iff k j, e.beq_iff i k, e.beq_iff i j, get-insert k j v m)

  pub get-remove :
      (k j : K) (m : HashMap K V) → get j (remove k m) ≡ (if k == j then none else get j m)
  unfolding get remove
  get-remove k j [] = ground arith
  get-remove k j ((i, w) ∷ m) =
      ground (arith, e.beq_iff k j, e.beq_iff i k, e.beq_iff i j, get-remove k j m)

  pub get-insert_self : (k : K) (v : V) (m : HashMap K V) → get k (insert k v m) ≡ some v
  get-insert_self k v m = ground (arith, get-insert k k v m, e.beq_iff k k)

  pub get-remove_self : (k : K) (m : HashMap K V) → get k (remove k m) ≡ none
  get-remove_self k m = ground (arith, get-remove k k m, e.beq_iff k k)

  pub get-filter-none :
      (p : K × V → Bool) (k : K) (m : HashMap K V) → get k m ≡ none → get k (filter p m) ≡ none
  unfolding get
  get-filter-none p k [] h = refl
  get-filter-none p k ((j, v) ∷ m) h = ground (arith, get-filter-none p k m)

  pub get-retain :
      (p : K × V → Bool) (k : K) (m : HashMap K V)
      → IsMap m
      → get k (retain p m)
        ≡ elim (get k m) [ none ↦ none | some v ↦ (if p (k, v) then some v else none) ]
  unfolding get
  get-retain p k [] h = refl
  get-retain p k ((j, v) ∷ m) h =
      ground (arith, e.beq_iff j k, get-retain p k m h.1, get-filter-none p k m)

  pub insert-IsMap : (k : K) (v : V) (m : HashMap K V) → IsMap m → IsMap (insert k v m)
  unfolding insert get
  insert-IsMap k v [] h = (refl, tt)
  insert-IsMap k v ((j, w) ∷ m) h =
      ground (arith, e.beq_iff j k, e.beq_iff k j, get-insert k j v m, insert-IsMap k v m h.1)

  pub remove-IsMap : (k : K) (m : HashMap K V) → IsMap m → IsMap (remove k m)
  unfolding remove
  remove-IsMap k [] h = tt
  remove-IsMap k ((j, w) ∷ m) h = ground (arith, get-remove k j m, remove-IsMap k m h.1)

  pub retain-IsMap : (p : K × V → Bool) (m : HashMap K V) → IsMap m → IsMap (retain p m)
  retain-IsMap p [] h = tt
  retain-IsMap p ((j, w) ∷ m) h = ground (arith, get-filter-none p j m, retain-IsMap p m h.1)

  pub length-insert :
      (k : K) (v : V) (m : HashMap K V)
      → length (insert k v m) ≡ (if contains_key k m then length m else suc (length m))
  unfolding insert get
  length-insert k v [] = refl
  length-insert k v ((j, w) ∷ m) = ground (arith, length-insert k v m)

  pub length-remove-le : (k : K) (m : HashMap K V) → length (remove k m) ≤ length m
  unfolding remove
  length-remove-le k [] = omega arith
  length-remove-le k ((j, w) ∷ m) = ground (arith, length-remove-le k m)

  pub length-remove_lt :
      (k : K) (m : HashMap K V) → contains_key k m ≡ true → suc (length (remove k m)) ≤ length m
  unfolding remove get
  length-remove_lt k [] h = cc
  length-remove_lt k ((j, w) ∷ m) h = ground (arith, length-remove-le k m, length-remove_lt k m)

  pub remove_absent : (k : K) (m : HashMap K V) → get k m ≡ none → remove k m ≡ m
  unfolding remove get
  remove_absent k [] h = refl
  remove_absent k ((j, w) ∷ m) h = ground (arith, remove_absent k m)
