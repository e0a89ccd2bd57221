-- ===== src/Rpc/Types.antt =====
-- crates/rpc/ras-jsonrpc-types/src/lib.rs and handler_error.rs. `J` is serde_json's value type.
-- An error's `data` is its `details`.
use rust_api_stack.Base.{Bool, ◌||◌, Option, none, some, if◌then◌else◌, is_some, not}
use rust_api_stack.Base.Text.{Text, codes}
use rust_api_stack.Base.Int.{ℤ, negsuc, eqb_ℤ, ltb_ℤ}

pub record JsonRpcRequest (J : Type 0) : Type 0 where
  pub jsonrpc : Text
  pub method : Text
  pub params : Option J
  pub id : Option J

pub record JsonRpcError (J : Type 0) : Type 0 where
  pub code : ℤ
  pub message : Text
  pub details : Option J

pub record JsonRpcResponse (J : Type 0) : Type 0 where
  pub jsonrpc : Text
  pub result : Option J
  pub error : Option (JsonRpcError J)
  pub id : Option J

module _ {J : Type 0} where
  unfoldable pub is_notification : JsonRpcRequest J → Bool
  is_notification request = not (is_some request.id)

  abbrev pub success : J → Option J → JsonRpcResponse J
  success result id = record { jsonrpc = codes "2.0"; result = some result; error = none; id = id }

  abbrev pub error_response : JsonRpcError J → Option J → JsonRpcResponse J
  error_response error id = record {
    jsonrpc = codes "2.0";
    result = none;
    error = some error;
    id = id;
  }

-- The codes: `negsuc n` is -(n + 1).
abbrev pub parse_error_code : ℤ
parse_error_code = negsuc 32699

abbrev pub invalid_request_code : ℤ
invalid_request_code = negsuc 32599

abbrev pub method_not_found_code : ℤ
method_not_found_code = negsuc 32600

abbrev pub invalid_params_code : ℤ
invalid_params_code = negsuc 32601

abbrev pub internal_error_code : ℤ
internal_error_code = negsuc 32602

abbrev pub authentication_required_code : ℤ
authentication_required_code = negsuc 32000

abbrev pub insufficient_permissions_code : ℤ
insufficient_permissions_code = negsuc 32001

unfoldable pub handler_code_allowed : ℤ → Bool
handler_code_allowed code =
    eqb_ℤ code invalid_params_code || ltb_ℤ code (negsuc 32767) || ltb_ℤ (negsuc 31999) code

pub data HandlerErrorOutcome (J : Type 0) : Type 0 where
  public_error : JsonRpcError J → HandlerErrorOutcome J
  reserved_code : ℤ → HandlerErrorOutcome J
  hidden : HandlerErrorOutcome J

module _ {J : Type 0} where
  abbrev pub new_error : ℤ → Text → Option J → JsonRpcError J
  new_error code message details = record { code = code; message = message; details = details }

  abbrev pub parse_error : JsonRpcError J
  parse_error = new_error parse_error_code (codes "Parse error") none

  -- The details are discarded.
  abbrev pub invalid_params : Text → JsonRpcError J
  invalid_params details = new_error invalid_params_code (codes "Invalid params") none

  abbrev pub internal_error : Text → JsonRpcError J
  internal_error details = new_error internal_error_code (codes "Internal error") none

  unfoldable pub from_wire : JsonRpcError J → HandlerErrorOutcome J
  from_wire error =
      if handler_code_allowed error.code then public_error error else reserved_code error.code

  unfoldable pub into_error : HandlerErrorOutcome J → JsonRpcError J
  into_error (public_error error) = error
  into_error (reserved_code code) = internal_error (codes "")
  into_error hidden = internal_error (codes "")
