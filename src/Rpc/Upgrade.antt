-- ===== src/Rpc/Upgrade.antt =====
-- crates/rpc/bidirectional/ras-jsonrpc-bidirectional-server/src/upgrade.rs: who a WebSocket is opened
-- for. The upgrade itself is axum's.
pub mod Admission
pub mod Examples
use rust_api_stack.Base.{
  ℕ, Bool, true, false, not, ◌&&◌, Option, none, some, List, [], ◌∷◌, if◌then◌else◌, is_empty,
  Result, ok, err,
}
use rust_api_stack.Base.Text.{
  Text, codes, trim, split, split_once, strip_prefix, eq_ignore_ascii_case,
}
use rust_api_stack.Auth.{AuthProvider, AuthenticatedUser}
use rust_api_stack.Auth.Http.{Http}
use rust_api_stack.Rpc.Server.{
  ServerError, ServerResult, authentication_failed, client_message, to_status_code,
}

abbrev pub ws_subprotocol : Text
ws_subprotocol = codes "ras-jsonrpc"

abbrev pub ws_token_subprotocol_prefix : Text
ws_token_subprotocol_prefix = codes "token."

-- A token without the white space around it, if anything is left.
unfoldable pub trimmed_token : Text → Option Text
trimmed_token token = if is_empty (trim token) then none else some (trim token)

unfoldable pub bearer_token : Text → Option Text
bearer_token header = elim (split_once b' ' header) [
  | none ↦ none
  | some (scheme, token) ↦
      if eq_ignore_ascii_case scheme (codes "Bearer") && not (is_empty (trim token))
      then some (trim token)
      else none
]

-- `find_map` over the subprotocols.
unfoldable pub find_token : List Text → Option Text
find_token [] = none
find_token (protocol ∷ protocols) =
    elim (strip_prefix ws_token_subprotocol_prefix (trim protocol)) [
      | some token ↦ some token
      | none ↦ find_token protocols
    ]

abbrev pub and_some : {A B : Type 0} → Option A → (A → Option B) → Option B
and_some none k = none
and_some (some a) k = k a

module _ {HM HV : Type 0} (http : Http HM HV) where
  unfoldable pub get_header_value : HM → Text → Option Text
  get_header_value headers name = and_some (http.get name headers) http.to_str

  unfoldable pub protocol_token : HM → Option Text
  protocol_token headers =
      and_some (get_header_value headers (codes "sec-websocket-protocol"))
        (λ protocols. and_some (find_token (split b',' protocols)) trimmed_token)

  unfoldable pub extract_auth_token_from_headers : HM → Option Text
  extract_auth_token_from_headers headers = elim (http.get (codes "authorization") headers) [
    | some value ↦ and_some (http.to_str value) bearer_token
    | none ↦ elim (protocol_token headers) [
      | some token ↦ some token
      | none ↦ and_some (get_header_value headers (codes "x-auth-token")) trimmed_token
    ]
  ]

  unfoldable pub authenticate_headers :
      {J : Type 0} → AuthProvider J → HM → ServerResult J (Option (AuthenticatedUser J))
  authenticate_headers provider headers = elim (extract_auth_token_from_headers headers) [
    | none ↦ ok none
    | some token ↦ elim (provider.authenticate token) [
      | ok user ↦ ok (some user)
      | err e ↦ err (authentication_failed e)
    ]
  ]

  -- The user that the socket is opened for, or the status and the body of the refusal.
  unfoldable pub on_upgrade_with_auth :
      {J : Type 0}
      → AuthProvider J
      → (require_auth : Bool) → HM
      → Result (ℕ × Text) (Option (AuthenticatedUser J))
  on_upgrade_with_auth provider require_auth headers =
      elim (authenticate_headers provider headers) [
        | ok user ↦ elim user [
          | none ↦ (if require_auth then err (401, codes "Authentication required") else ok none)
          | some known ↦ ok (some known)
        ]
        | err e ↦ (if require_auth then err (to_status_code e, client_message e) else ok none)
      ]

  -- The first part of a value that is not blank.
  unfoldable pub first_claim : HM → List Text → Option Text
  first_claim headers [] = none
  first_claim headers (name ∷ names) =
      let rest = first_claim headers names in
      elim (get_header_value headers name) [
        | none ↦ rest
        | some value ↦ elim (split b',' value) [
          | [] ↦ rest
          | part ∷ parts ↦ (if is_empty (trim part) then rest else some (trim part))
        ]
      ]

  unfoldable pub extract_client_ip_from_headers : HM → Option Text
  extract_client_ip_from_headers headers = first_claim headers (
      codes "x-forwarded-for"
      ∷ codes "x-real-ip"
      ∷ codes "cf-connecting-ip"
      ∷ codes "x-client-ip"
      ∷ codes "x-forwarded"
      ∷ codes "forwarded-for"
      ∷ codes "forwarded"
      ∷ [])
