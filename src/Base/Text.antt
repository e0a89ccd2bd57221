-- ===== src/Base/Text.antt =====
-- Rust's `str` as the list of its code points, with the standard library's functions on it.
use Prim.Native.Nat.{ℕ, ◌+◌, ◌-◌, ◌/◌, ◌%◌}
use Prim.Native.Char.{code}
use Prim.Native.String.{String}
use mathlib.Core.Path.{◌≡◌}
use mathlib.Core.Logic.{◌↔◌}
use mathlib.Core.Bool.{Bool, true, false, ◌&&◌, ◌||◌}
use mathlib.Core.Option.{Option, none, some}
use mathlib.Core.List.{List, [], ◌∷◌, ◌++◌, map, reverse}
use native.Mathlib.Omega.{arith}
use rust_api_stack.Base.Tests.{ltb, leb, eqb, if◌then◌else◌, Eq, is_some}

abbrev pub Text : Type 0
Text = List ℕ

abbrev pub codes : String → Text
codes String.[] = []
codes (String.◌∷◌ c s) = code c ∷ codes s

unfoldable pub text_eq : Text → Text → Bool
text_eq [] [] = true
text_eq [] (d ∷ t) = false
text_eq (c ∷ s) [] = false
text_eq (c ∷ s) (d ∷ t) = eqb c d && text_eq s t

pub text_eq_iff : (s t : Text) → (text_eq s t ≡ true) ↔ (s ≡ t)
unfolding text_eq
text_eq_iff [] [] = ground arith
text_eq_iff [] (d ∷ t) = ground arith
text_eq_iff (c ∷ s) [] = ground arith
text_eq_iff (c ∷ s) (d ∷ t) = ground (arith, text_eq_iff s t)

instance abbrev pub Text-eq : Eq Text
Text-eq = record { beq = text_eq; beq_iff = text_eq_iff }

unfoldable pub utf8 : ℕ → List ℕ
utf8 c =
    if ltb c 0x80
    then c ∷ []
    else if ltb c 0x800
    then (0xc0 + c / 64) ∷ (0x80 + c % 64) ∷ []
    else if ltb c 0x10000
    then (0xe0 + c / 4096) ∷ (0x80 + (c / 64) % 64) ∷ (0x80 + c % 64) ∷ []
    else (0xf0 + c / 262144)
      ∷ (0x80 + (c / 4096) % 64)
      ∷ (0x80 + (c / 64) % 64)
      ∷ (0x80 + c % 64)
      ∷ []

unfoldable pub bytes : Text → List ℕ
bytes [] = []
bytes (c ∷ s) = utf8 c ++ bytes s

unfoldable pub is_whitespace : ℕ → Bool
is_whitespace c =
    (leb 9 c && leb c 13)
    || eqb c 32
    || eqb c 0x85
    || eqb c 0xa0
    || eqb c 0x1680
    || (leb 0x2000 c && leb c 0x200a)
    || eqb c 0x2028
    || eqb c 0x2029
    || eqb c 0x202f
    || eqb c 0x205f
    || eqb c 0x3000

unfoldable pub trim_start : Text → Text
trim_start [] = []
trim_start (c ∷ s) = if is_whitespace c then trim_start s else c ∷ s

unfoldable pub trim : Text → Text
trim s = reverse (trim_start (reverse (trim_start s)))

unfoldable pub strip_prefix : Text → Text → Option Text
strip_prefix [] s = some s
strip_prefix (c ∷ p) [] = none
strip_prefix (c ∷ p) (d ∷ s) = if eqb c d then strip_prefix p s else none

abbrev pub starts_with : Text → Text → Bool
starts_with p s = is_some (strip_prefix p s)

unfoldable pub split_once : ℕ → Text → Option (Text × Text)
split_once d [] = none
split_once d (c ∷ s) =
    if eqb c d
    then some ([], s)
    else elim (split_once d s) [ none ↦ none | some (a, b) ↦ some (c ∷ a, b) ]

unfoldable pub contains_char : ℕ → Text → Bool
contains_char d [] = false
contains_char d (c ∷ s) = eqb c d || contains_char d s

abbrev pub to_ascii_upper : ℕ → ℕ
to_ascii_upper c = if leb b'a' c && leb c b'z' then c - 32 else c

abbrev pub to_ascii_lower : ℕ → ℕ
to_ascii_lower c = if leb b'A' c && leb c b'Z' then c + 32 else c

unfoldable pub to_ascii_uppercase : Text → Text
to_ascii_uppercase = map to_ascii_upper

unfoldable pub to_ascii_lowercase : Text → Text
to_ascii_lowercase = map to_ascii_lower

unfoldable pub eq_ignore_ascii_case : Text → Text → Bool
eq_ignore_ascii_case s t = text_eq (to_ascii_lowercase s) (to_ascii_lowercase t)

pub data Message : Type 0 where
  say : String → Message
  about : String → Text → Message
  about2 : String → Text → Text → Message

-- `split`: the parts between the occurrences of a character, at least one.
unfoldable pub split : ℕ → Text → List Text
split d [] = [] ∷ []
split d (c ∷ s) = elim (split d s) [
  | [] ↦ []
  | part ∷ parts ↦ (if eqb c d then [] ∷ part ∷ parts else (c ∷ part) ∷ parts)
]

-- The order of `str`: by code points, as by bytes.
unfoldable pub text_le : Text → Text → Bool
text_le [] t = true
text_le (c ∷ s) [] = false
text_le (c ∷ s) (d ∷ t) = ltb c d || (eqb c d && text_le s t)

-- Whether a text occurs within another: `contains` with a `str`.
unfoldable pub contains_str : Text → Text → Bool
contains_str p [] = is_some (strip_prefix p [])
contains_str p (c ∷ s) = is_some (strip_prefix p (c ∷ s)) || contains_str p s
