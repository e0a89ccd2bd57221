-- ===== src/Auth/Transport/Builders.antt =====
-- The builders of `AuthTransportConfig`, in any order, and the validation.
use rust_api_stack.Base.{◌≡◌, refl, ◌↔◌, true, ◌||◌, arith, is_some, ok}
use rust_api_stack.Auth.Cookie
use rust_api_stack.Auth.Cookie.{AuthCookieConfig, AuthTransportError, invalid_auth_transport_config}
use rust_api_stack.Auth.Csrf
use rust_api_stack.Auth.Csrf.{CsrfConfig}
use rust_api_stack.Auth.Transport.{
  AuthTransportConfig, default, with_cookie, with_csrf, without_bearer, validate_some, validate,
}

-- The configurations that the builders reach.
pub data IsBuilt : AuthTransportConfig → Type 0 where
  built_default : IsBuilt default
  built_cookie :
      {config : AuthTransportConfig} (cookie : AuthCookieConfig)
      → IsBuilt config
      → IsBuilt (with_cookie cookie config)
  built_csrf :
      {config : AuthTransportConfig} (csrf : CsrfConfig)
      → IsBuilt config
      → IsBuilt (with_csrf csrf config)
  built_without_bearer :
      {config : AuthTransportConfig} → IsBuilt config → IsBuilt (without_bearer config)

abbrev pub IsGuarded : AuthTransportConfig → Type 0
IsGuarded config = is_some config.cookie ≡ true → is_some config.csrf ≡ true

with_cookie-IsGuarded :
    (cookie : AuthCookieConfig) (config : AuthTransportConfig)
    → IsGuarded (with_cookie cookie config)
unfolding with_cookie
with_cookie-IsGuarded cookie config h = ground arith

-- No order of the builders reaches cookies without a CSRF configuration.
pub built-IsGuarded : (config : AuthTransportConfig) → IsBuilt config → IsGuarded config
unfolding with_csrf without_bearer
built-IsGuarded _ built_default = λ h. cc
built-IsGuarded _ (built_cookie {config} cookie built) = with_cookie-IsGuarded cookie config
built-IsGuarded _ (built_csrf csrf built) = λ h. refl
built-IsGuarded _ (built_without_bearer {config} built) = built-IsGuarded config built

-- A configuration passes exactly when some transport is on, cookies come with CSRF protection, and
-- the parts pass.
pub validate-eq-ok_iff :
    (config : AuthTransportConfig)
    → (validate config ≡ ok tt) ↔ (
        (config.bearer || is_some config.cookie ≡ true)
        × IsGuarded config
        × (validate_some Cookie.validate config.cookie ≡ ok tt)
        × (validate_some Csrf.validate config.csrf ≡ ok tt))
unfolding validate
validate-eq-ok_iff config = ground arith
