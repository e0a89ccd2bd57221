-- ===== src/Rpc/Server.antt =====
-- `ServerError` of crates/rpc/bidirectional/ras-jsonrpc-bidirectional-server/src/error.rs, and
-- `jsonrpc_error_from_server_error` of handler/mod.rs. An error of serde_json is its text.
use rust_api_stack.Base.{ℕ, ◌≡◌, true, Option, none, some, List, [], ◌∷◌, contains, Result}
use rust_api_stack.Base.Text.{Text, Text-eq, codes}
use rust_api_stack.Base.Int.{ℤ}
use rust_api_stack.Auth.{AuthError}
use rust_api_stack.Rpc.Manager.{BidirectionalError}
use rust_api_stack.Rpc.Types.{
  JsonRpcError, new_error, handler_code_allowed, from_wire, into_error,
  authentication_required_code, insufficient_permissions_code, invalid_request_code,
  invalid_params_code, method_not_found_code, internal_error_code,
}

pub data ServerError (J : Type 0) : Type 0 where
  upgrade_failed : Text → ServerError J
  authentication_failed : AuthError → ServerError J
  connection_not_found : Text → ServerError J
  routing_failed : Text → ServerError J
  serialization_error : Text → ServerError J
  websocket_error : Text → ServerError J
  connection_error : BidirectionalError → ServerError J
  internal : Text → ServerError J
  invalid_request : Text → ServerError J
  invalid_params : Text → ServerError J
  handler_not_found : Text → ServerError J
  permission_denied : Text → ServerError J
  rpc : JsonRpcError J → ServerError J

-- The messages that do not depend on what went wrong inside.
unfoldable pub generic_messages : List Text
generic_messages =
    codes "Authentication failed"
    ∷ codes "Insufficient permissions"
    ∷ codes "Connection not found"
    ∷ codes "Invalid request"
    ∷ codes "Invalid params"
    ∷ codes "Method not found"
    ∷ codes "Invalid parameters"
    ∷ codes "Internal error"
    ∷ []

module _ {J : Type 0} where
  unfoldable pub client_message : ServerError J → Text
  client_message (authentication_failed e) = codes "Authentication failed"
  client_message (permission_denied e) = codes "Insufficient permissions"
  client_message (connection_not_found e) = codes "Connection not found"
  client_message (invalid_request e) = codes "Invalid request"
  client_message (invalid_params e) = codes "Invalid params"
  client_message (handler_not_found e) = codes "Method not found"
  client_message (serialization_error e) = codes "Invalid parameters"
  client_message (upgrade_failed e) = codes "Internal error"
  client_message (routing_failed e) = codes "Internal error"
  client_message (websocket_error e) = codes "Internal error"
  client_message (connection_error e) = codes "Internal error"
  client_message (internal e) = codes "Internal error"
  client_message (rpc e) = codes "Internal error"

  unfoldable pub to_status_code : ServerError J → ℕ
  to_status_code (authentication_failed e) = 401
  to_status_code (permission_denied e) = 403
  to_status_code (connection_not_found e) = 404
  to_status_code (invalid_request e) = 400
  to_status_code (invalid_params e) = 400
  to_status_code (handler_not_found e) = 501
  to_status_code (upgrade_failed e) = 500
  to_status_code (routing_failed e) = 500
  to_status_code (serialization_error e) = 500
  to_status_code (websocket_error e) = 500
  to_status_code (connection_error e) = 500
  to_status_code (internal e) = 500
  to_status_code (rpc e) = 500

  unfoldable pub public_rpc_error : ServerError J → Option (JsonRpcError J)
  public_rpc_error (rpc error) = some (into_error (from_wire error))
  public_rpc_error (upgrade_failed e) = none
  public_rpc_error (authentication_failed e) = none
  public_rpc_error (connection_not_found e) = none
  public_rpc_error (routing_failed e) = none
  public_rpc_error (serialization_error e) = none
  public_rpc_error (websocket_error e) = none
  public_rpc_error (connection_error e) = none
  public_rpc_error (internal e) = none
  public_rpc_error (invalid_request e) = none
  public_rpc_error (invalid_params e) = none
  public_rpc_error (handler_not_found e) = none
  public_rpc_error (permission_denied e) = none

  -- The code of an error that is not public.
  unfoldable pub error_code : ServerError J → ℤ
  error_code (authentication_failed e) = authentication_required_code
  error_code (permission_denied e) = insufficient_permissions_code
  error_code (invalid_request e) = invalid_request_code
  error_code (invalid_params e) = invalid_params_code
  error_code (handler_not_found e) = method_not_found_code
  error_code (serialization_error e) = invalid_params_code
  error_code (upgrade_failed e) = internal_error_code
  error_code (connection_not_found e) = internal_error_code
  error_code (routing_failed e) = internal_error_code
  error_code (websocket_error e) = internal_error_code
  error_code (connection_error e) = internal_error_code
  error_code (internal e) = internal_error_code
  error_code (rpc e) = internal_error_code

  unfoldable pub jsonrpc_error_from_server_error : ServerError J → JsonRpcError J
  jsonrpc_error_from_server_error error = elim (public_rpc_error error) [
    | some public ↦ public
    | none ↦ new_error (error_code error) (client_message error) none
  ]

  -- The error is generic, and the code for missing authentication says what happened.
  unfoldable pub IsGeneric : ServerError J → JsonRpcError J → Type 0
  IsGeneric error sent =
      (sent.details ≡ none)
      × (contains generic_messages sent.message ≡ true)
      × (sent.code ≡ authentication_required_code
          → (e : AuthError) × (error ≡ authentication_failed e))

  -- The handler chose the error, and its code is one that a handler may send.
  unfoldable pub IsChosen : ServerError J → JsonRpcError J → Type 0
  IsChosen error sent = (error ≡ rpc sent) × (handler_code_allowed sent.code ≡ true)

abbrev pub ServerResult : Type 0 → Type 0 → Type 0
ServerResult J A = Result (ServerError J) A
