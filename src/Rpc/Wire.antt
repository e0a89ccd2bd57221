-- ===== src/Rpc/Wire.antt =====
-- The messages of a connection: crates/rpc/bidirectional/ras-jsonrpc-bidirectional-types/src/wire.rs,
-- with `OutboundMessage` of ras-jsonrpc-bidirectional-server/src/connection.rs and the frames of
-- handler/io.rs there.
use rust_api_stack.Base.{ℕ, Option, List, Result, map_err, ◌>>=◌, ok}
use rust_api_stack.Base.Text.{Text}
use rust_api_stack.Rpc.Manager.{ConnectionId}
use rust_api_stack.Rpc.Types.{JsonRpcRequest, JsonRpcResponse}
use rust_api_stack.Rpc.Server.{ServerResult, serialization_error}

pub record ServerNotification (J : Type 0) : Type 0 where
  pub method : Text
  pub params : J
  pub metadata : Option J

pub record BroadcastMessage (J : Type 0) : Type 0 where
  pub topic : Text
  pub method : Text
  pub params : J
  pub metadata : Option J

pub data BidirectionalMessage (J : Type 0) : Type 0 where
  request : JsonRpcRequest J → BidirectionalMessage J
  response : JsonRpcResponse J → BidirectionalMessage J
  server_notification : ServerNotification J → BidirectionalMessage J
  broadcast : BroadcastMessage J → BidirectionalMessage J
  subscribe : (topics : List Text) → BidirectionalMessage J
  unsubscribe : (topics : List Text) → BidirectionalMessage J
  connection_established : ConnectionId → BidirectionalMessage J
  connection_closed : ConnectionId → (reason : Option Text) → BidirectionalMessage J
  ping : BidirectionalMessage J
  pong : BidirectionalMessage J

pub record OutboundMessage (J : Type 0) : Type 0 where
  pub message : BidirectionalMessage J
  pub topic : Option Text

pub data Frame : Type 0 where
  text : Text → Frame
  binary : List ℕ → Frame
  ping : List ℕ → Frame
  pong : List ℕ → Frame
  close : (reason : Option Text) → Frame

-- What the handler uses of serde_json and of the standard library's UTF-8 decoder.
pub record Codec (J : Type 0) : Type 0 where
  pub to_string : BidirectionalMessage J → Result Text Text
  pub message_from_str : Text → Option (BidirectionalMessage J)
  pub request_from_str : Text → Option (JsonRpcRequest J)
  pub from_utf8 : List ℕ → Option Text

unfoldable pub text_message : {J : Type 0} → Codec J → BidirectionalMessage J → ServerResult J Frame
text_message codec message = do
  json ← map_err serialization_error (codec.to_string message)
  ok (Frame.text json)
