-- ===== src/Rpc/Handler.antt =====
-- crates/rpc/bidirectional/ras-jsonrpc-bidirectional-server/src/handler/mod.rs and contract.rs: what
-- is done with one frame. A handler's callback takes the connection, which is the context and the
-- service's own state `H`, and gives back what it leaves of them and its result.
pub mod Revalidation
pub mod Authorized
pub mod Teardown
pub mod Lifecycle
pub mod Loop
pub mod Run
pub mod Kept
pub mod Accounts
pub mod Returned
pub mod Ends
pub mod Examples
use rust_api_stack.Base.{
  ℕ, ◌+◌, Bool, true, false, not, ◌&&◌, ◌||◌, Option, none, some, List, [], ◌∷◌, ltb, any, filter,
  if◌then◌else◌, length, contains, is_empty, Result, ok, err, reject_if, ◌>>=◌, ◌>>◌,
}
use rust_api_stack.Base.Text.{Text, Text-eq, codes, bytes}
use rust_api_stack.Rpc.Manager.{SubscriptionLimits}
use rust_api_stack.Rpc.Types.{
  JsonRpcRequest, JsonRpcResponse, JsonRpcError, is_notification, error_response, parse_error,
  invalid_params,
}
use rust_api_stack.Rpc.Server.{
  ServerError, ServerResult, websocket_error, invalid_request, jsonrpc_error_from_server_error,
}
use rust_api_stack.Rpc.Wire.{BidirectionalMessage, Frame, Codec, text_message}
use rust_api_stack.Rpc.Context
use rust_api_stack.Rpc.Context.{ConnectionContext, ConnectionManager}

pub record Connection (J M H : Type 0) : Type 0 where
  pub context : ConnectionContext J M
  pub service : H

-- What a callback or a handler of frames is.
abbrev pub Callback : Type 0 → Type 0 → Type 0 → Type 0 → Type 0
Callback J M H A = Connection J M H → Connection J M H × ServerResult J A

pub record MessageHandler (J M H : Type 0) : Type 0 where
  pub handle_request : JsonRpcRequest J → Callback J M H (Option (JsonRpcResponse J))
  pub authorize_subscribe : Text → Callback J M H Bool
  pub handle_subscribe : List Text → Callback J M H (Unit {0})
  pub handle_unsubscribe : List Text → Callback J M H (Unit {0})
  pub on_connect : Callback J M H (Unit {0})
  pub on_disconnect : Option Text → Callback J M H (Unit {0})
  pub on_ping : Callback J M H (Unit {0})
  pub on_pong : Callback J M H (Unit {0})

-- `?` behind an `await`: the state stays what the call left.
abbrev pub and_then {ℓ} :
    {W : Type 0} {E : Type 0} {A : Type 0} {B : Type ℓ}
    → W × Result E A
    → (A → W → W × Result E B)
    → W × Result E B
and_then (w, ok a) k = k a w
and_then (w, err e) k = (w, err e)

unfoldable pub check_subscription_limits : SubscriptionLimits → List Text → Result Text (Unit {0})
check_subscription_limits limits topics = do
  reject_if (ltb limits.max_topics_per_message (length topics))
      (codes "too many topics in one message")
  reject_if
      (any (λ topic. ltb limits.max_topic_length (length (bytes topic)) || is_empty topic) topics)
      (codes "topic name length out of range")
  ok tt

module _ {J M : Type 0} where
  -- The topics that the connection does not hold yet are counted as often as they are named.
  unfoldable pub subscribe_limits : List Text → ConnectionContext J M → Result Text (Unit {0})
  subscribe_limits topics context = do
    let before = context.info.subscriptions
    let new = length (filter (λ topic. not (contains before topic)) topics)
    check_subscription_limits context.limits topics
    reject_if (ltb context.limits.max_topics_per_connection (length before + new))
        (codes "subscription limit for this connection reached")
    reject_if
        (ltb 0 context.limits.max_total_subscriptions
          && ltb context.limits.max_total_subscriptions (context.accounting + new))
        (codes "global subscription limit reached")
    ok tt

module _ {J M H : Type 0} where
  abbrev pub with_context : ConnectionContext J M → Connection J M H → Connection J M H
  with_context context connection = record connection { context = context }

module _ {J M H : Type 0} (codec : Codec J) (handler : MessageHandler J M H)
    (max_message_size : ℕ) where
  unfoldable pub reply : JsonRpcResponse J → Callback J M H (Option Frame)
  reply response connection = (
    connection,
    (do frame ← text_message codec (BidirectionalMessage.response response); ok (some frame)),
  )

  unfoldable pub handle_jsonrpc_request : JsonRpcRequest J → Callback J M H (Option Frame)
  handle_jsonrpc_request request connection =
      let (after, result) = handler.handle_request request connection in
      if is_notification request then (after, ok none) else elim result [
        | ok answer ↦ elim answer [ some response ↦ reply response after | none ↦ (after, ok none) ]
        | err e ↦ reply (error_response (jsonrpc_error_from_server_error e) request.id) after
      ]

  unfoldable pub handle_bidirectional_message :
      BidirectionalMessage J → Callback J M H (Option Frame)
  handle_bidirectional_message (BidirectionalMessage.request request) connection =
      handle_jsonrpc_request request connection
  handle_bidirectional_message (BidirectionalMessage.subscribe topics) connection =
      elim (subscribe_limits topics connection.context) [
        | err reason ↦ reply (error_response (invalid_params reason) none) connection
        | ok fine ↦
            and_then (handler.handle_subscribe topics connection) (λ done after. (after, ok none))
      ]
  handle_bidirectional_message (BidirectionalMessage.unsubscribe topics) connection =
      elim (check_subscription_limits connection.context.limits topics) [
        | err reason ↦ (connection, ok none)
        | ok fine ↦
            and_then (handler.handle_unsubscribe topics connection) (λ done after. (after, ok none))
      ]
  handle_bidirectional_message BidirectionalMessage.ping connection =
      and_then (handler.on_ping connection) (λ done after. (after, ok none))
  handle_bidirectional_message BidirectionalMessage.pong connection =
      and_then (handler.on_pong connection) (λ done after. (after, ok none))
  handle_bidirectional_message (BidirectionalMessage.response r) connection = (connection, ok none)
  handle_bidirectional_message (BidirectionalMessage.server_notification n) connection =
      (connection, ok none)
  handle_bidirectional_message (BidirectionalMessage.broadcast b) connection = (connection, ok none)
  handle_bidirectional_message (BidirectionalMessage.connection_established id) connection =
      (connection, ok none)
  handle_bidirectional_message (BidirectionalMessage.connection_closed id reason) connection =
      (connection, ok none)

  unfoldable pub handle_text_message : Text → Callback J M H (Option Frame)
  handle_text_message text connection = elim (codec.message_from_str text) [
    | some message ↦ handle_bidirectional_message message connection
    | none ↦ elim (codec.request_from_str text) [
      | some request ↦ handle_jsonrpc_request request connection
      | none ↦ reply (error_response parse_error none) connection
    ]
  ]

  unfoldable pub handle_websocket_message : Frame → Callback J M H (Option Frame)
  handle_websocket_message (Frame.text text) connection =
      if ltb max_message_size (length (bytes text))
      then (connection, err (invalid_request (codes "Message exceeds maximum size")))
      else handle_text_message text connection
  handle_websocket_message (Frame.binary bytes) connection =
      if ltb max_message_size (length bytes)
      then (connection, err (invalid_request (codes "Message exceeds maximum size")))
      else elim (codec.from_utf8 bytes) [
        | some text ↦ handle_text_message text connection
        | none ↦ (connection, ok none)
      ]
  handle_websocket_message (Frame.ping bytes) connection =
      and_then (handler.on_ping connection) (λ done after. (after, ok (some (Frame.pong bytes))))
  handle_websocket_message (Frame.pong bytes) connection =
      and_then (handler.on_pong connection) (λ done after. (after, ok none))
  handle_websocket_message (Frame.close reason) connection =
      (connection, err (websocket_error (codes "Connection closed")))

module _ {J M H : Type 0} (ops : ConnectionManager J M) (handler : MessageHandler J M H) where
  -- The provided `handle_subscribe`: a refusal by either side skips the topic.
  unfoldable pub default_handle_subscribe : List Text → Callback J M H (Unit {0})
  default_handle_subscribe [] connection = (connection, ok tt)
  default_handle_subscribe (topic ∷ topics) connection =
      and_then (handler.authorize_subscribe topic connection) (λ allowed asked.
        default_handle_subscribe topics (
          if allowed
          then with_context (Context.subscribe ops topic asked.context).0 asked
          else asked))

  unfoldable pub default_handle_unsubscribe : List Text → Callback J M H (Unit {0})
  default_handle_unsubscribe topics connection =
      (with_context (Context.unsubscribe_all ops topics connection.context) connection, ok tt)
