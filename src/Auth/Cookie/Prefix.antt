-- ===== src/Auth/Cookie/Prefix.antt =====
-- What the validation of a cookie configuration promises, and the prefix `__Host-`.
use rust_api_stack.Base.{
  ◌≡◌, ◌↔◌, inl, inr, refl, sym, ap, subst, true, false, none, ◌++◌, arith, any, is_empty, nat_eq,
  Result, ok, err, ◌>>=◌, Option-cases,
}
use rust_api_stack.Base.Text.{
  Text, codes, text_eq, text_eq_iff, trim, trim_start, is_whitespace, strip_prefix, starts_with,
  bytes,
}
use rust_api_stack.Auth.Cookie.{
  AuthTransportError, AuthCookieConfig, is_site_none, default, host_prefix, host_prefixed,
  insecure_for_local_development, validate_cookie_name, validate_host, invalid_cookie_byte,
  is_blank, validate,
}

-- A name that is a token without white space around it.
pub IsToken : Text → Type 0
IsToken name =
    (is_empty (trim name) ≡ false)
    × (trim name ≡ name)
    × (any invalid_cookie_byte (bytes name) ≡ false)

validate_cookie_name-eq-ok_iff : (name : Text) → (validate_cookie_name name ≡ ok tt) ↔ IsToken name
unfolding validate_cookie_name IsToken
validate_cookie_name-eq-ok_iff name = ground (arith, text_eq_iff (trim name) name)

pub IsHostBound : AuthCookieConfig → Type 0
IsHostBound config = (config.secure ≡ true) × (config.domain ≡ none) × (config.path ≡ codes "/")

validate_host-eq-ok_iff :
    (config : AuthCookieConfig) → (validate_host config ≡ ok tt) ↔ IsHostBound config
unfolding validate_host IsHostBound
validate_host-eq-ok_iff config = elim (Option-cases config.domain) [
  | inl e ↦ rw e (ground (arith, text_eq_iff config.path (codes "/")))
  | inr (domain, e) ↦ rw e (ground (arith, text_eq_iff config.path (codes "/")))
]

-- What browsers enforce of the two prefixes and of SameSite=None.
pub IsEnforceable : AuthCookieConfig → Type 0
IsEnforceable config =
    (starts_with (codes "__Secure-") config.name ≡ true → config.secure ≡ true)
    × (starts_with host_prefix config.name ≡ true → IsHostBound config)
    × (is_site_none config.same_site ≡ true → config.secure ≡ true)

pub IsWellFormed : AuthCookieConfig → Type 0
IsWellFormed config =
    IsToken config.name
    × (is_empty (trim config.path) ≡ false)
    × (starts_with (codes "/") config.path ≡ true)
    × (is_blank config.domain ≡ false)

-- A configuration passes validation exactly when its name is a token, its path and its domain are
-- well formed, and a browser would accept what its prefix and its SameSite ask for.
pub cookie_validate-eq-ok_iff :
    (config : AuthCookieConfig)
    → (validate config ≡ ok tt) ↔ (IsWellFormed config × IsEnforceable config)
unfolding validate IsWellFormed IsEnforceable
cookie_validate-eq-ok_iff config =
    ground (arith, validate_cookie_name-eq-ok_iff config.name, validate_host-eq-ok_iff config)

host_prefixed-plain :
    (name : Text)
    → strip_prefix host_prefix name ≡ none
    → host_prefixed name ≡ record default { name = host_prefix ++ name }
unfolding host_prefixed strip_prefix
host_prefixed-plain name e = rw e refl

host_prefixed-shape :
    (name : Text)
    → (suffix : Text) × (host_prefixed name ≡ record default { name = host_prefix ++ suffix })
unfolding host_prefixed strip_prefix
host_prefixed-shape name = elim (Option-cases (strip_prefix host_prefix name)) [
  | inl e ↦ (name, host_prefixed-plain name e)
  | inr (suffix, e) ↦ (suffix, rw e refl)
]

>>=-done :
    (m : Result AuthTransportError (Unit {0})) (k : Unit {0} → Result AuthTransportError (Unit {0}))
    → k tt ≡ ok tt
    → (m >>= k) ≡ m
>>=-done (ok tt) k h = h
>>=-done (err e) k h = refl

-- Whatever the name given to `host_prefixed`, only the characters of the name can be refused.
pub host_prefixed-validate :
    (name : Text) → validate (host_prefixed name) ≡ validate_cookie_name (host_prefixed name).name
unfolding validate validate_host strip_prefix trim trim_start is_whitespace text_eq
host_prefixed-validate name =
    let (suffix, e) = host_prefixed-shape name in
    subst (λ c. validate c ≡ validate_cookie_name c.name) (sym e)
      (>>=-done (validate_cookie_name (host_prefix ++ suffix)) _ refl)

-- Adding the prefix twice is adding it once.
pub host_prefixed_idempotent :
    (name : Text) → host_prefixed (host_prefixed name).name ≡ host_prefixed name
unfolding host_prefixed strip_prefix
host_prefixed_idempotent name =
    let (suffix, e) = host_prefixed-shape name in subst (λ c. host_prefixed c.name ≡ c) (sym e) refl

-- For local development the prefix goes, and with it the demand that the cookie is Secure.
pub insecure-host_prefixed :
    (name : Text)
    → strip_prefix host_prefix name ≡ none
    → insecure_for_local_development (host_prefixed name)
      ≡ record default { name = name; secure = false }
unfolding insecure_for_local_development strip_prefix
insecure-host_prefixed name e = ap insecure_for_local_development (host_prefixed-plain name e)
