-- ===== src/Rpc/Upgrade/Examples.antt =====
-- Upgrade requests with the header map and the provider of the examples of ras-auth-core.
use rust_api_stack.Base.{◌≡◌, refl, true, some, [], ◌∷◌}
use rust_api_stack.Base.Text.{codes, text_eq, split, trim, trim_start, is_whitespace, strip_prefix}
use rust_api_stack.Auth.Examples.{Headers, put, lib, alice, provider}
use rust_api_stack.Auth.Transport
use rust_api_stack.Auth.Transport.{extract_auth_credential}
use rust_api_stack.Rpc.Upgrade.{
  find_token, trimmed_token, get_header_value, protocol_token, extract_auth_token_from_headers,
  authenticate_headers, on_upgrade_with_auth,
}
use rust_api_stack.Rpc.Upgrade.Admission.{
  token_of, extract_auth_token-http, IsAdmitted, on_upgrade-IsAdmitted,
}

-- A `Basic` credential beside a token in another place.
abbrev basic : Headers
basic =
    put (codes "authorization") (codes "Basic tok" ∷ [])
      (put (codes "x-auth-token") (codes "tok" ∷ []) (λ name. []))

extract_auth_token-http_example :
    extract_auth_token_from_headers lib basic
    ≡ token_of (extract_auth_credential lib basic Transport.default)
unfolding text_eq Transport.validate
extract_auth_token-http_example =
    extract_auth_token-http lib basic Transport.default (codes "Basic tok") refl refl refl

-- The token of a browser.
abbrev browser : Headers
browser = put (codes "sec-websocket-protocol") (codes "ras-jsonrpc, token.tok" ∷ []) (λ name. [])

on_upgrade-IsAdmitted_example : IsAdmitted lib provider true browser (some alice)
unfolding on_upgrade_with_auth authenticate_headers extract_auth_token_from_headers protocol_token
    get_header_value find_token trimmed_token text_eq split trim trim_start is_whitespace
    strip_prefix
on_upgrade-IsAdmitted_example = on_upgrade-IsAdmitted lib provider true browser (some alice) refl
