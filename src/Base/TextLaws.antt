-- ===== src/Base/TextLaws.antt =====
-- Laws of the text functions: splitting at a character, and the order.
use rust_api_stack.Base.Tests.{eqb, Bool-cases}
use rust_api_stack.Base.Text.{Text, strip_prefix, split_once, split, contains_char, text_le}
use Prim.Native.Nat.{ℕ}
use mathlib.Core.Path.{◌≡◌, refl}
use mathlib.Core.Logic.{inl, inr}
use mathlib.Core.Bool.{true, false}
use mathlib.Core.Option.{some}
use mathlib.Core.List.{List, [], ◌∷◌, ◌++◌}
use native.Mathlib.Omega.{arith}

-- The first separator is where a text without one ends.
pub split_once-append :
    (d : ℕ) (p r : Text) → contains_char d p ≡ false → split_once d (p ++ d ∷ r) ≡ some (p, r)
unfolding split_once contains_char
split_once-append d [] r h = ground arith
split_once-append d (c ∷ p) r h = ground (arith, split_once-append d p r)

split_nonempty :
    (d : ℕ) (s : Text) → (part : Text) × (parts : List Text) × (split d s ≡ part ∷ parts)
unfolding split
split_nonempty d [] = ([], [], refl)
split_nonempty d (c ∷ s) =
    let (part, parts, e) = split_nonempty d s in
    elim (Bool-cases (eqb c d)) [
      | inl at_separator ↦ ([], part ∷ parts, ground arith)
      | inr inside ↦ (c ∷ part, parts, ground arith)
    ]

pub split_plain : (d : ℕ) (s : Text) → contains_char d s ≡ false → split d s ≡ s ∷ []
unfolding split contains_char
split_plain d [] h = refl
split_plain d (c ∷ s) h = ground (arith, split_plain d s)

pub split-append :
    (d : ℕ) (p r : Text) → contains_char d p ≡ false → split d (p ++ d ∷ r) ≡ p ∷ split d r
unfolding split contains_char
split-append d [] r h = let (part, parts, e) = split_nonempty d r in ground arith
split-append d (c ∷ p) r h = ground (arith, split-append d p r)

pub strip_prefix-eq_some : (p s r : Text) → strip_prefix p s ≡ some r → s ≡ p ++ r
unfolding strip_prefix
strip_prefix-eq_some [] s r h = ground arith
strip_prefix-eq_some (c ∷ p) [] r h = cc
strip_prefix-eq_some (c ∷ p) (d ∷ s) r h = ground (arith, strip_prefix-eq_some p s r)

pub strip_prefix-append : (p r : Text) → strip_prefix p (p ++ r) ≡ some r
unfolding strip_prefix
strip_prefix-append [] r = refl
strip_prefix-append (c ∷ p) r = ground (arith, strip_prefix-append p r)

pub text_le_total : (s t : Text) → text_le s t ≡ false → text_le t s ≡ true
unfolding text_le
text_le_total [] t h = cc
text_le_total (c ∷ s) [] h = refl
text_le_total (c ∷ s) (d ∷ t) h = ground (arith, text_le_total s t)

pub text_le_trans : (s t u : Text) → text_le s t ≡ true → text_le t u ≡ true → text_le s u ≡ true
unfolding text_le
text_le_trans [] t u h k = refl
text_le_trans (c ∷ s) [] u h k = cc
text_le_trans (c ∷ s) (d ∷ t) [] h k = cc
text_le_trans (c ∷ s) (d ∷ t) (e ∷ u) h k = ground (arith, text_le_trans s t u)

pub text_le_antisymm : (s t : Text) → text_le s t ≡ true → text_le t s ≡ true → s ≡ t
unfolding text_le
text_le_antisymm [] [] h k = refl
text_le_antisymm [] (d ∷ t) h k = cc
text_le_antisymm (c ∷ s) [] h k = cc
text_le_antisymm (c ∷ s) (d ∷ t) h k = ground (arith, text_le_antisymm s t)
