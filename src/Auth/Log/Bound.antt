-- ===== src/Auth/Log/Bound.antt =====
-- The text that reaches the log: its length and its characters.
use rust_api_stack.Base.{
  ℕ, zero, suc, ◌+◌, ◌-◌, ◌≤◌, ◌≡◌, refl, inl, inr, Bool, true, false, ◌||◌, [], ◌∷◌, ◌++◌, map,
  arith, if◌then◌else◌, length, any, length-append, Bool-cases,
}
use rust_api_stack.Base.Text.{Text, utf8, bytes}
use rust_api_stack.Auth.Log.{
  is_control, marker, lower_cut, truncate, is_char_boundary, sanitize_log_detail,
}

bytes-append : (s t : Text) → length (bytes (s ++ t)) ≡ length (bytes s) + length (bytes t)
unfolding bytes
bytes-append [] t = omega arith
bytes-append (c ∷ s) t = omega (
  arith,
  bytes-append s t,
  length-append (utf8 c) (bytes (s ++ t)),
  length-append (utf8 c) (bytes s),
)

pub truncate_bounded : (s : Text) (n : ℕ) → length (bytes (truncate s n)) ≤ n
unfolding truncate bytes
truncate_bounded [] n = omega arith
truncate_bounded (c ∷ s) n =
    let rest = truncate s (n - length (utf8 c)) in
    ground (arith, truncate_bounded s (n - length (utf8 c)), length-append (utf8 c) (bytes rest))

pub lower_cut-le : (s : Text) (n : ℕ) → lower_cut s n ≤ n
unfolding lower_cut
lower_cut-le s zero = omega arith
lower_cut-le s (suc n) = ground (arith, lower_cut-le s n)

-- The loop stops at a boundary of characters, so that `truncate` does not panic.
pub lower_cut-boundary : (s : Text) (n : ℕ) → is_char_boundary s (lower_cut s n) ≡ true
unfolding lower_cut is_char_boundary
lower_cut-boundary [] zero = refl
lower_cut-boundary (c ∷ s) zero = refl
lower_cut-boundary s (suc n) = elim (Bool-cases (is_char_boundary s (suc n))) [
  | inl e ↦ rw (lower_cut, e) e
  | inr e ↦ rw (lower_cut, e) (lower_cut-boundary s n)
]

pub any-append : (p : ℕ → Bool) (s t : Text) → any p (s ++ t) ≡ (any p s || any p t)
any-append p [] t = refl
any-append p (c ∷ s) t = ground (arith, any-append p s t)

pub any-truncate :
    (p : ℕ → Bool) (s : Text) (n : ℕ) → any p s ≡ false → any p (truncate s n) ≡ false
unfolding truncate
any-truncate p [] n h = refl
any-truncate p (c ∷ s) n h = ground (arith, any-truncate p s (n - length (utf8 c)))

masked : (raw : Text) → any is_control (map (λ c. if is_control c then b'?' else c) raw) ≡ false
unfolding is_control
masked [] = refl
masked (c ∷ raw) = ground (arith, masked raw)

-- Whatever text is given, at most 256 bytes come out, the marker of a cut included.
pub sanitize_log_detail_bounded : (raw : Text) → length (bytes (sanitize_log_detail raw)) ≤ 256
unfolding sanitize_log_detail bytes utf8
sanitize_log_detail_bounded raw =
    let out = map (λ c. if is_control c then b'?' else c) raw in
    ground (
      arith,
      truncate_bounded out (lower_cut out 253),
      lower_cut-le out 253,
      bytes-append (truncate out (lower_cut out 253)) (marker ∷ []),
    )

-- No control character comes out, whatever text is given.
pub sanitize_log_detail-printable : (raw : Text) → any is_control (sanitize_log_detail raw) ≡ false
unfolding sanitize_log_detail utf8 is_control
sanitize_log_detail-printable raw =
    let out = map (λ c. if is_control c then b'?' else c) raw in
    let clean = masked raw in
    ground (
      arith,
      masked raw,
      any-truncate is_control out (lower_cut out 253),
      any-append is_control (truncate out (lower_cut out 253)) (marker ∷ []),
    )
