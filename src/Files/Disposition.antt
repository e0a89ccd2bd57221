-- ===== src/Files/Disposition.antt =====
-- The file name in `Content-Disposition`: `quote_disposition_filename` and `rfc5987_encode` of
-- crates/rest/ras-file-core/src/lib.rs, with readers of the two forms to state what they carry.
use rust_api_stack.Base.{
  ℕ, ◌+◌, ◌-◌, ◌*◌, ◌/◌, ◌%◌, ◌<◌, ◌≡◌, refl, inl, inr, Bool, true, false, not, ◌&&◌, ◌||◌, Option,
  none, some, List, [], ◌∷◌, ◌++◌, map, arith, ltb, leb, eqb, if◌then◌else◌, all, contains, nat_eq,
  Bool-cases,
}
use rust_api_stack.Base.Text.{Text, codes, utf8, bytes}

-- `char::is_ascii_control`.
unfoldable pub is_ascii_control : ℕ → Bool
is_ascii_control c = ltb c 0x20 || eqb c 0x7f

unfoldable pub quote_disposition_filename : Text → Text
quote_disposition_filename [] = []
quote_disposition_filename (c ∷ name) =
    let rest = quote_disposition_filename name in
    if eqb c b'"' || eqb c b'\\'
    then b'\\' ∷ c ∷ rest
    else if ltb c 0x80 && not (is_ascii_control c)
    then c ∷ rest
    else b'_' ∷ rest

unfoldable pub is_attr_char : ℕ → Bool
is_attr_char byte =
    (leb b'a' byte && leb byte b'z')
    || (leb b'A' byte && leb byte b'Z')
    || (leb b'0' byte && leb byte b'9')
    || contains (codes "!#$&+-.^_`|~") byte

-- The table `HEX`.
unfoldable pub hex : ℕ → ℕ
hex n = if ltb n 10 then b'0' + n else b'A' + (n - 10)

unfoldable pub encode_bytes : List ℕ → Text
encode_bytes [] = []
encode_bytes (byte ∷ rest) =
    if is_attr_char byte
    then byte ∷ encode_bytes rest
    else b'%' ∷ hex (byte / 16) ∷ hex (byte % 16) ∷ encode_bytes rest

unfoldable pub rfc5987_encode : Text → Text
rfc5987_encode name = encode_bytes (bytes name)

-- What a legacy agent gets: the name with `_` for whatever is not printable ASCII.
unfoldable pub legacy : ℕ → ℕ
legacy c = if ltb c 0x80 && not (is_ascii_control c) then c else b'_'

abbrev pub push_char : ℕ → Option (Text × Text) → Option (Text × Text)
push_char c none = none
push_char c (some (value, after)) = some (c ∷ value, after)

-- A reader of the quoted string of RFC 9110, from behind its opening quote: its value, and what
-- follows. The flag is set behind a backslash.
unfoldable pub read_quoted : Bool → Text → Option (Text × Text)
read_quoted escaped [] = none
read_quoted escaped (c ∷ s) =
    let rest = read_quoted (not escaped && eqb c b'\\') s in
    if escaped
    then push_char c rest
    else if eqb c b'"'
    then some ([], s)
    else if eqb c b'\\'
    then rest
    else push_char c rest

pub data Escape : Type 0 where
  plain percent : Escape
  high : ℕ → Escape

unfoldable pub unhex : ℕ → ℕ
unhex c = if leb c b'9' then c - b'0' else c - b'A' + 10

-- A reader of the percent encoding.
unfoldable pub percent_decode : Escape → Text → List ℕ
percent_decode state [] = []
percent_decode plain (c ∷ s) =
    let rest = percent_decode (if eqb c b'%' then percent else plain) s in
    if eqb c b'%' then rest else c ∷ rest
percent_decode percent (c ∷ s) = percent_decode (high (unhex c)) s
percent_decode (high n) (c ∷ s) = (n * 16 + unhex c) ∷ percent_decode plain s

-- Whatever the file name, a reader of the quoted string gets all of it with `_` for what is not
-- printable ASCII, and stops at the closing quote of the header: the name cannot break out.
pub read_quoted-quote :
    (name rest : Text)
    → read_quoted false (quote_disposition_filename name ++ b'"' ∷ rest)
      ≡ some (map legacy name, rest)
unfolding read_quoted quote_disposition_filename legacy is_ascii_control
read_quoted-quote [] rest = refl
read_quoted-quote (c ∷ name) rest = ground (arith, read_quoted-quote name rest)

unfoldable pub is_byte : ℕ → Bool
is_byte b = ltb b 256

attr_char-plain : (b : ℕ) → is_attr_char b ≡ true → eqb b b'%' ≡ false
unfolding is_attr_char
attr_char-plain b h = ground arith

unhex-hex : (n : ℕ) → n < 16 → unhex (hex n) ≡ n
unfolding unhex hex
unhex-hex n h = ground arith

split_byte : (b : ℕ) → is_byte b ≡ true → (b / 16 < 16) × (b % 16 < 16)
unfolding is_byte
split_byte b h = ground arith

percent_decode-encode_bytes :
    (bs : List ℕ) → all is_byte bs ≡ true → percent_decode plain (encode_bytes bs) ≡ bs
unfolding percent_decode encode_bytes
percent_decode-encode_bytes [] h = refl
percent_decode-encode_bytes (b ∷ bs) h =
    let small : is_byte b ≡ true = ground arith in
    let (first, second) = split_byte b small in
    let both = percent_decode-encode_bytes bs (ground arith) in
    elim (Bool-cases (is_attr_char b)) [
      | inl e ↦ rw (encode_bytes, e, percent_decode, attr_char-plain b e, both) refl
      | inr e ↦
          rw (encode_bytes, e, unhex-hex (b / 16) first, unhex-hex (b % 16) second, both)
            (ground arith)
    ]

all-append : (p : ℕ → Bool) (s t : List ℕ) → all p (s ++ t) ≡ (all p s && all p t)
all-append p [] t = refl
all-append p (c ∷ s) t = ground (arith, all-append p s t)

unfoldable pub is_char : ℕ → Bool
is_char c = leb c 0x10ffff

bytes_small : (s : Text) → all is_char s ≡ true → all is_byte (bytes s) ≡ true
unfolding bytes utf8 is_char is_byte
bytes_small [] h = refl
bytes_small (c ∷ s) h = ground (arith, all-append is_byte (utf8 c) (bytes s), bytes_small s)

-- Decoding the extended form of a file name gives back the bytes of the name, whatever characters
-- of Unicode it has.
pub percent_decode-rfc5987_encode :
    (name : Text)
    → all is_char name ≡ true
    → percent_decode plain (rfc5987_encode name) ≡ bytes name
unfolding rfc5987_encode
percent_decode-rfc5987_encode name h = percent_decode-encode_bytes (bytes name) (bytes_small name h)

-- `HeaderValue` takes what is visible, and the space.
unfoldable pub is_visible : ℕ → Bool
is_visible c = leb 0x20 c && leb c 0x7e

pub all_visible-append :
    (s t : Text)
    → all is_visible s ≡ true
    → all is_visible t ≡ true
    → all is_visible (s ++ t) ≡ true
all_visible-append s t hs ht = ground (arith, all-append is_visible s t)

pub quote-visible : (name : Text) → all is_visible (quote_disposition_filename name) ≡ true
unfolding quote_disposition_filename is_visible is_ascii_control
quote-visible [] = refl
quote-visible (c ∷ name) = ground (arith, quote-visible name)

attr_char-visible : (b : ℕ) → is_attr_char b ≡ true → is_visible b ≡ true
unfolding is_attr_char is_visible
attr_char-visible b h = ground arith

hex-visible : (n : ℕ) → n < 16 → is_visible (hex n) ≡ true
unfolding hex is_visible
hex-visible n h = ground arith

percent_visible : is_visible b'%' ≡ true
unfolding is_visible
percent_visible = refl

encode_bytes-visible :
    (bs : List ℕ) → all is_byte bs ≡ true → all is_visible (encode_bytes bs) ≡ true
unfolding encode_bytes
encode_bytes-visible [] h = refl
encode_bytes-visible (b ∷ bs) h =
    let small : is_byte b ≡ true = ground arith in
    let (first, second) = split_byte b small in
    let rest = encode_bytes-visible bs (ground arith) in
    elim (Bool-cases (is_attr_char b)) [
      | inl e ↦ rw (encode_bytes, e, attr_char-visible b e, rest) refl
      | inr e ↦
          rw
            (
              encode_bytes,
              e,
              percent_visible,
              hex-visible (b / 16) first,
              hex-visible (b % 16) second,
              rest,
            )
            refl
    ]

pub rfc5987_encode-visible :
    (name : Text) → all is_char name ≡ true → all is_visible (rfc5987_encode name) ≡ true
unfolding rfc5987_encode
rfc5987_encode-visible name h = encode_bytes-visible (bytes name) (bytes_small name h)
