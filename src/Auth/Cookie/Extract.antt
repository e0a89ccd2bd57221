-- ===== src/Auth/Cookie/Extract.antt =====
-- `extract_cookie` against the list of the values that a request has under a name.
use rust_api_stack.Base.{
  ◌≡◌, refl, Option, none, some, List, [], ◌∷◌, ◌++◌, if◌then◌else◌, Result, ok, err, ◌>>=◌,
  Option-cases, Bool-cases, inl, inr,
}
use rust_api_stack.Base.Text.{Text, codes, text_eq}
use rust_api_stack.Auth.Http.{Http}
use rust_api_stack.Auth.Cookie.{
  AuthTransportError, several, find_cookie, find_in_headers, extract_cookie,
}

-- The values of the cookies of that name, in one header.
pub values_in : Text → List (Option (Text × Text)) → List Text
values_in name [] = []
values_in name (none ∷ cookies) = values_in name cookies
values_in name (some (n, value) ∷ cookies) =
    if text_eq n name then value ∷ values_in name cookies else values_in name cookies

-- At most one value is let through, the one found before included.
abbrev pub at_most_one : Text → Option Text → List Text → Result AuthTransportError (Option Text)
at_most_one name found [] = ok found
at_most_one name none (value ∷ []) = ok (some value)
at_most_one name none (value ∷ other ∷ values) = err (several name)
at_most_one name (some found) (value ∷ values) = err (several name)

at_most_one-append :
    (name : Text) (found : Option Text) (xs ys : List Text)
    → at_most_one name found (xs ++ ys)
      ≡ (at_most_one name found xs >>= λ next. at_most_one name next ys)
at_most_one-append name found [] ys = refl
at_most_one-append name (some found) (x ∷ xs) ys = refl
at_most_one-append name none (x ∷ []) [] = refl
at_most_one-append name none (x ∷ []) (y ∷ ys) = refl
at_most_one-append name none (x ∷ y ∷ xs) ys = refl

bind_ext :
    {f g : Option Text → Result AuthTransportError (Option Text)}
    → ((o : Option Text) → f o ≡ g o)
    → (m : Result AuthTransportError (Option Text)) → (m >>= f) ≡ (m >>= g)
bind_ext h (ok next) = h next
bind_ext h (err e) = refl

module _ {HM HV : Type 0} (http : Http HM HV) where
  find_cookie_lem :
      (name : Text) (cookies : List (Option (Text × Text))) (found : Option Text)
      → find_cookie http name cookies found ≡ at_most_one name found (values_in name cookies)
  unfolding find_cookie values_in
  find_cookie_lem name [] found = refl
  find_cookie_lem name (none ∷ cookies) found = find_cookie_lem name cookies found
  find_cookie_lem name (some (n, value) ∷ cookies) none = elim (Bool-cases (text_eq n name)) [
    | inl e ↦ rw (e, find_cookie_lem name cookies (some value)) (shift (values_in name cookies))
    | inr e ↦ rw (e, find_cookie_lem name cookies none) refl
  ]
    where
      shift :
          (values : List Text)
          → at_most_one name (some value) values ≡ at_most_one name none (value ∷ values)
      shift [] = refl
      shift (v ∷ values) = refl
  find_cookie_lem name (some (n, value) ∷ cookies) (some found) =
      elim (Bool-cases (text_eq n name)) [
        | inl e ↦ rw e refl
        | inr e ↦ rw (e, find_cookie_lem name cookies (some found)) refl
      ]

  -- The values in all the headers that are text.
  pub cookie_values : Text → List HV → List Text
  cookie_values name [] = []
  cookie_values name (value ∷ values) = elim (http.to_str value) [
    | none ↦ cookie_values name values
    | some raw ↦ values_in name (http.split_parse raw) ++ cookie_values name values
  ]

  find_in_headers_lem :
      (name : Text) (values : List HV) (found : Option Text)
      → find_in_headers http name values found ≡ at_most_one name found (cookie_values name values)
  unfolding find_in_headers cookie_values
  find_in_headers_lem name [] found = refl
  find_in_headers_lem name (value ∷ values) found = elim (Option-cases (http.to_str value)) [
    | inl e ↦ rw (find_in_headers, cookie_values, e) (find_in_headers_lem name values found)
    | inr (raw, e) ↦
        rw
          (
            find_in_headers,
            cookie_values,
            e,
            find_cookie_lem name (http.split_parse raw) found,
            at_most_one-append name found (values_in name (http.split_parse raw))
                (cookie_values name values),
          )
          (bind_ext (λ next. find_in_headers_lem name values next)
            (at_most_one name found (values_in name (http.split_parse raw))))
  ]

  -- A cookie is read exactly when all the headers of the request hold one value of that name; with
  -- none there is no cookie, and with several, in one header or in many, the request is refused.
  pub extract_cookie_lem :
      (headers : HM) (name : Text)
      → extract_cookie http headers name
        ≡ at_most_one name none (cookie_values name (http.get_all (codes "cookie") headers))
  unfolding extract_cookie
  extract_cookie_lem headers name =
      find_in_headers_lem name (http.get_all (codes "cookie") headers) none
