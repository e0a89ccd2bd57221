-- ===== src/Auth/Log.antt =====
-- `sanitize_log_detail` of crates/core/ras-auth-core/src/lib.rs. Offsets count bytes.
pub mod Bound
use rust_api_stack.Base.{
  ℕ, zero, suc, ◌+◌, ◌-◌, Bool, true, false, ◌&&◌, ◌||◌, List, [], ◌∷◌, ◌++◌, map, ltb, leb, eqb,
  if◌then◌else◌, length,
}
use rust_api_stack.Base.Text.{Text, utf8, bytes}

abbrev pub max_log_detail_bytes : ℕ
max_log_detail_bytes = 256

-- `char::is_control`.
unfoldable pub is_control : ℕ → Bool
is_control c = ltb c 0x20 || (leb 0x7f c && leb c 0x9f)

abbrev pub marker : ℕ
marker = 0x2026

unfoldable pub is_char_boundary : Text → ℕ → Bool
is_char_boundary [] n = eqb n 0
is_char_boundary (c ∷ s) zero = true
is_char_boundary (c ∷ s) (suc n) =
    let rest = is_char_boundary s (suc n - length (utf8 c)) in
    if ltb (suc n) (length (utf8 c)) then false else rest

-- The loop that lowers the offset to a boundary; at 0 there is one.
unfoldable pub lower_cut : Text → ℕ → ℕ
lower_cut out zero = zero
lower_cut out (suc cut) =
    let lower = lower_cut out cut in if is_char_boundary out (suc cut) then suc cut else lower

-- `truncate`, at a boundary: the code points before it.
unfoldable pub truncate : Text → ℕ → Text
truncate [] n = []
truncate (c ∷ s) n =
    let rest = truncate s (n - length (utf8 c)) in if ltb n (length (utf8 c)) then [] else c ∷ rest

unfoldable pub sanitize_log_detail : Text → Text
sanitize_log_detail raw =
    let out = map (λ c. if is_control c then b'?' else c) raw in
    let cut = lower_cut out (max_log_detail_bytes - length (utf8 marker)) in
    if ltb max_log_detail_bytes (length (bytes out)) then truncate out cut ++ marker ∷ [] else out
