-- ===== src/Files/Filename.antt =====
-- `sanitize_filename` of crates/rest/ras-file-core/src/lib.rs.
use rust_api_stack.Base.{
  ℕ, ◌≤◌, ◌≡◌, refl, ◌∙◌, inl, inr, Bool, false, not, ◌||◌, [], ◌∷◌, arith, ltb, eqb, if◌then◌else◌,
  length, filter, any, all, is_empty, Bool-cases,
}
use mathlib.Core.List.{reverse, reverse-cons}
use rust_api_stack.Base.Text.{Text, codes, utf8, bytes, trim, trim_start}
use rust_api_stack.Auth.Log.{is_control, lower_cut, truncate}
use rust_api_stack.Auth.Log.Bound.{any-append, any-truncate, truncate_bounded, lower_cut-le}

abbrev pub max_filename_bytes : ℕ
max_filename_bytes = 255

-- `rsplit(p).next()`: what follows the last character with `p`, or everything.
unfoldable pub rsplit_next : (ℕ → Bool) → Text → Text
rsplit_next p [] = []
rsplit_next p (c ∷ s) =
    let rest = rsplit_next p s in if any p s then rest else if p c then s else c ∷ s

unfoldable pub is_separator : ℕ → Bool
is_separator c = eqb c b'/' || eqb c b'\\'

unfoldable pub is_dot : ℕ → Bool
is_dot c = eqb c b'.'

-- The part from the check of the length on.
unfoldable pub truncate_filename : Text → Text
truncate_filename name =
    let kept = truncate name (lower_cut name max_filename_bytes) in
    if ltb max_filename_bytes (length (bytes name))
    then (if is_empty kept || all is_dot kept then codes "upload" else kept)
    else name

unfoldable pub sanitize_filename : Text → Text
sanitize_filename raw =
    let name = filter (λ c. not (is_control c)) (rsplit_next is_separator raw) in
    let trimmed = trim name in
    if is_empty trimmed || all is_dot trimmed
    then codes "upload"
    else truncate_filename
        (if eqb (length (bytes trimmed)) (length (bytes name)) then name else trimmed)

-- A usable file name that is one component of a path.
unfoldable pub IsComponent : Text → Type 0
IsComponent s =
    (is_empty s ≡ false)
    × (all is_dot s ≡ false)
    × (any is_separator s ≡ false)
    × (any is_control s ≡ false)
    × (length (bytes s) ≤ max_filename_bytes)

any-rsplit_next : (p : ℕ → Bool) (s : Text) → any p (rsplit_next p s) ≡ false
unfolding rsplit_next
any-rsplit_next p [] = refl
any-rsplit_next p (c ∷ s) = ground (arith, any-rsplit_next p s)

any-filter : (p q : ℕ → Bool) (s : Text) → any p s ≡ false → any p (filter q s) ≡ false
any-filter p q [] h = refl
any-filter p q (c ∷ s) h = ground (arith, any-filter p q s)

any-filter-not : (p : ℕ → Bool) (s : Text) → any p (filter (λ c. not (p c)) s) ≡ false
any-filter-not p [] = refl
any-filter-not p (c ∷ s) = ground (arith, any-filter-not p s)

module _ (p : ℕ → Bool) where
  any-reverse : (s : Text) → any p (reverse s) ≡ any p s
  any-reverse [] = refl
  any-reverse (c ∷ s) =
      ground (arith, reverse-cons c s, any-append p (reverse s) (c ∷ []), any-reverse s)

  any-trim_start : (s : Text) → any p s ≡ false → any p (trim_start s) ≡ false
  unfolding trim_start
  any-trim_start [] h = refl
  any-trim_start (c ∷ s) h = ground (arith, any-trim_start s)

  any-trim : (s : Text) → any p s ≡ false → any p (trim s) ≡ false
  unfolding trim
  any-trim s h =
      let start = trim_start s in
      let back = trim_start (reverse start) in
      any-reverse back ∙ any-trim_start (reverse start) (any-reverse start ∙ any-trim_start s h)

all-any : (p : ℕ → Bool) (s : Text) → all p s ≡ not (any (λ c. not (p c)) s)
all-any p [] = refl
all-any p (c ∷ s) = ground (arith, all-any p s)

-- A name with a character other than a dot after it is trimmed had one before.
trim-dots : (s : Text) → all is_dot (trim s) ≡ false → all is_dot s ≡ false
trim-dots s h =
    ground (arith, all-any is_dot s, all-any is_dot (trim s), any-trim (λ c. not (is_dot c)) s)

truncate_filename-IsComponent :
    (s : Text)
    → all is_dot s ≡ false
    → any is_separator s ≡ false
    → any is_control s ≡ false
    → IsComponent (truncate_filename s)
unfolding truncate_filename IsComponent is_dot is_separator is_control bytes utf8
truncate_filename-IsComponent s h1 h2 h3 =
    let kept = truncate s (lower_cut s 255) in
    ground (
      arith,
      truncate_bounded s (lower_cut s 255),
      lower_cut-le s 255,
      any-truncate is_separator s (lower_cut s 255) h2,
      any-truncate is_control s (lower_cut s 255) h3,
    )

upload-IsComponent : IsComponent (codes "upload")
unfolding IsComponent is_dot is_separator is_control bytes utf8
upload-IsComponent = (refl, refl, refl, refl, omega arith)

-- Whatever name an upload claims to have, the sanitised name is one usable component of a path: it
-- is neither empty nor made of dots alone, has no separator and no control character, and takes at
-- most 255 bytes.
pub sanitize_filename-IsComponent : (raw : Text) → IsComponent (sanitize_filename raw)
unfolding sanitize_filename
sanitize_filename-IsComponent raw =
    let part = rsplit_next is_separator raw in
    let name = filter (λ c. not (is_control c)) part in
    let plain =
      any-filter is_separator (λ c. not (is_control c)) part (any-rsplit_next is_separator raw) in
    let clean = any-filter-not is_control part in
    elim (Bool-cases (is_empty (trim name) || all is_dot (trim name))) [
      | inl e ↦ rw (sanitize_filename, e) upload-IsComponent
      | inr e ↦
          let dots : all is_dot (trim name) ≡ false = ground arith in
          elim (Bool-cases (eqb (length (bytes (trim name))) (length (bytes name)))) [
            | inl same ↦
                rw (sanitize_filename, e, same)
                  (truncate_filename-IsComponent name (trim-dots name dots) plain clean)
            | inr less ↦
                rw (sanitize_filename, e, less)
                  (truncate_filename-IsComponent (trim name) dots (any-trim is_separator name plain)
                    (any-trim is_control name clean))
          ]
    ]

filter_all : (p : ℕ → Bool) (s : Text) → any p s ≡ false → filter (λ c. not (p c)) s ≡ s
filter_all p [] h = refl
filter_all p (c ∷ s) h = ground (arith, filter_all p s)

rsplit_next_whole : (p : ℕ → Bool) (s : Text) → any p s ≡ false → rsplit_next p s ≡ s
unfolding rsplit_next
rsplit_next_whole p [] h = refl
rsplit_next_whole p (c ∷ s) h = ground (arith, rsplit_next_whole p s)

-- A name that is such a component already, and has no white space at its ends, is kept as it is.
pub sanitize_filename_keeps : (s : Text) → IsComponent s → trim s ≡ s → sanitize_filename s ≡ s
unfolding sanitize_filename truncate_filename IsComponent
sanitize_filename_keeps s (some_left, dots, plain, clean, short) trimmed =
    let whole = rsplit_next_whole is_separator s plain in
    let kept = filter_all is_control s clean in
    rw (sanitize_filename, whole, kept, trimmed, some_left, dots) (ground arith)
