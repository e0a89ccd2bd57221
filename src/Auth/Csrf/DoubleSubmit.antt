-- ===== src/Auth/Csrf/DoubleSubmit.antt =====
-- What a request has shown when its CSRF validation succeeds.
use rust_api_stack.Base.{
  ◌≡◌, refl, ◌↔◌, true, false, Option, none, some, arith, is_empty, Result, ok, err, ok_or,
  reject_if, >>=-eq-ok, ok_or-eq-ok, reject_if-eq-ok,
}
use rust_api_stack.Base.Text.{Text, text_eq_iff, trim, bytes}
use rust_api_stack.Auth.Http.{Http}
use rust_api_stack.Auth.Cookie.{AuthTransportError, csrf_validation_failed, extract_cookie}
use rust_api_stack.Auth.Csrf.{CsrfConfig, validate, ct_eq_str, matches_cookie, validate_headers}

ct_eq_str_iff : (a b : Text) → (ct_eq_str a b ≡ true) ↔ (bytes a ≡ bytes b)
unfolding ct_eq_str
ct_eq_str_iff a b = text_eq_iff (bytes a) (bytes b)

module _ {HM HV : Type 0} (http : Http HM HV) where
  -- The value of the header that the configuration names, not blank.
  pub HasHeader : CsrfConfig → HM → Text → Type 0
  HasHeader csrf headers value =
      (header : HV) × (http.get csrf.header_name headers ≡ some header)
      × (http.to_str header ≡ some value)
      × (is_empty (trim value) ≡ false)

  -- The one cookie of that name carries the same bytes.
  pub HasCookie : HM → Text → Text → Type 0
  HasCookie headers cookie_name value =
      (cookie_value : Text) × (extract_cookie http headers cookie_name ≡ ok (some cookie_value))
      × (is_empty (trim cookie_value) ≡ false)
      × (bytes cookie_value ≡ bytes value)

  matches_cookie-eq-ok_iff :
      (headers : HM) (cookie_name value : Text)
      → (matches_cookie http headers cookie_name value ≡ ok tt)
        ↔ HasCookie headers cookie_name value
  unfolding matches_cookie HasCookie
  matches_cookie-eq-ok_iff headers cookie_name value = (
    λ h. shown (extract_cookie http headers cookie_name) refl h,
    λ (cookie_value, e, filled, same). rw e (ground (arith, ct_eq_str_iff cookie_value value)),
  )
    where
      shown :
          (r : Result AuthTransportError (Option Text))
          → extract_cookie http headers cookie_name ≡ r
          → matches_cookie http headers cookie_name value ≡ ok tt
          → HasCookie headers cookie_name value
      shown (err e) q h = cc (rw q at h)
      shown (ok none) q h = cc (rw q at h)
      shown (ok (some cookie_value)) q h = (
        cookie_value,
        q,
        ground (arith, ct_eq_str_iff cookie_value value),
        ground (arith, ct_eq_str_iff cookie_value value),
      )

  -- In the double-submit mode a request passes exactly when the configuration is valid and the
  -- header and the one cookie of the configured names carry the same bytes, neither blank.
  pub validate_headers-double_submit :
      (csrf : CsrfConfig) (cookie_name : Text) (headers : HM)
      → csrf.expected_value ≡ none
      → csrf.cookie_name ≡ some cookie_name
      → (validate_headers http csrf headers ≡ ok tt) ↔ (
          (validate csrf ≡ ok tt)
          × ((value : Text) × HasHeader csrf headers value × HasCookie headers cookie_name value))
  unfolding validate_headers HasHeader
  validate_headers-double_submit csrf cookie_name headers static double = (
    λ h.
        let (done, valid, h) = >>=-eq-ok (validate csrf) _ h in
        let (header, got, h) =
          >>=-eq-ok (ok_or (http.get csrf.header_name headers) csrf_validation_failed) _ h in
        let (value, read, h) = >>=-eq-ok (ok_or (http.to_str header) csrf_validation_failed) _ h in
        let (checked, filled, h) =
          >>=-eq-ok (reject_if (is_empty (trim value)) csrf_validation_failed) _ h in
        let header_shown : HasHeader csrf headers value = (
          header,
          ok_or-eq-ok (http.get csrf.header_name headers) csrf_validation_failed got,
          ok_or-eq-ok (http.to_str header) csrf_validation_failed read,
          reject_if-eq-ok (is_empty (trim value)) csrf_validation_failed filled,
        ) in
        let compared : matches_cookie http headers cookie_name value ≡ ok tt =
          rw (static, double) at h in
        (
          valid,
          (value, header_shown, (matches_cookie-eq-ok_iff headers cookie_name value).0 compared),
        ),
    λ (valid, (value, (header, got, read, filled), same)).
        rw (valid, got, read, filled, static, double)
          ((matches_cookie-eq-ok_iff headers cookie_name value).1 same),
  )
