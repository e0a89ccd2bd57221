-- ===== src/Rpc/Handler/Kept.antt =====
-- What every callback of a service and every access from outside keeps, the handler loop keeps.
pub mod Rounds
use rust_api_stack.Base.{
  ℕ, ◌≡◌, refl, inl, inr, Bool, true, false, ◌&&◌, Option, none, some, List, [], ◌∷◌, arith,
  if◌then◌else◌, length, ltb, Result, ok, err, Bool-cases, Option-cases, Result-cases,
}
use rust_api_stack.Base.Text.{Text, Text-eq, bytes}
use rust_api_stack.Auth.{AuthError, AuthenticatedUser}
use rust_api_stack.Rpc.Server.{ServerError, ServerResult, jsonrpc_error_from_server_error}
use rust_api_stack.Rpc.Types.{
  JsonRpcRequest, JsonRpcResponse, is_notification, error_response, parse_error, invalid_params,
}
use rust_api_stack.Rpc.Wire.{BidirectionalMessage, OutboundMessage, Frame, Codec, text_message}
use rust_api_stack.Rpc.Context
use rust_api_stack.Rpc.Context.{ConnectionContext, ConnectionManager}
use rust_api_stack.Rpc.Handler.{
  Connection, Callback, MessageHandler, and_then, with_context, reply, handle_jsonrpc_request,
  handle_bidirectional_message, handle_text_message, handle_websocket_message, subscribe_limits,
  check_subscription_limits,
}
use rust_api_stack.Rpc.Handler.Revalidation.{
  PermissionChangePolicy, refresh_user, reauthorize, revalidate_credentials, permissions_changed,
  is_close,
}
use rust_api_stack.Rpc.Handler.Lifecycle.{Stop, Interrupt, Action, Wake, revalidate, next_interrupt}
use rust_api_stack.Rpc.Handler.Loop.{
  WebSocketHandler, Running, Round, Event, Outcome, going, stopped, returned, act, act_all,
  passes_egress_gate, with_connection, woken, revalidated, interrupted, checked, supervise,
  send_frame, write, write_out, on_connection, touched, on_frame, on_inbound, on_outbound, on_event,
  step, rounds, inbound, outbound,
}
use rust_api_stack.Rpc.Handler.Run.{Schedule, serve}

module _ {J M H : Type 0} (P : Connection J M H → Type 0) where
  -- A callback keeps it.
  abbrev pub Keeps : {A : Type 0} → Callback J M H A → Type 0
  Keeps f = (connection : Connection J M H) → P connection → P (f connection).0

  -- Every callback of the handler keeps it but `on_disconnect`.
  pub record IsKeptByCallbacks (handler : MessageHandler J M H) : Type 0 where
    pub requests : (request : JsonRpcRequest J) → Keeps (handler.handle_request request)
    pub authorizes : (topic : Text) → Keeps (handler.authorize_subscribe topic)
    pub subscribes : (topics : List Text) → Keeps (handler.handle_subscribe topics)
    pub unsubscribes : (topics : List Text) → Keeps (handler.handle_unsubscribe topics)
    pub connects : Keeps handler.on_connect
    pub pings : Keeps handler.on_ping
    pub pongs : Keeps handler.on_pong

  -- And so does every use of the context.
  pub record IsKept (ops : ConnectionManager J M) (handler : MessageHandler J M H) : Type 0 where
    pub acts :
        (action : Action J) (connection : Connection J M H)
        → P connection
        → P (with_context (act ops action connection.context) connection)
    pub refreshes :
        (user : AuthenticatedUser J) (connection : Connection J M H)
        → P connection
        → P (with_context (refresh_user ops user connection.context) connection)
    pub callbacks : IsKeptByCallbacks handler

  pub and_then-kept :
      {A B : Type 0} (step : Connection J M H × ServerResult J A) (k : A → Callback J M H B)
      → P step.0
      → ((a : A) → Keeps (k a))
      → P (and_then step k).0
  and_then-kept (connection, ok a) k kept keeps = keeps a connection kept
  and_then-kept (connection, err e) k kept keeps = kept

module _ {J M H : Type 0} (P : Connection J M H → Type 0) (codec : Codec J)
    {ops : ConnectionManager J M} (handler : MessageHandler J M H) (max : ℕ)
    (keeps : IsKept P ops handler) where
  handle_jsonrpc_request-kept :
      (request : JsonRpcRequest J) → Keeps P (handle_jsonrpc_request codec handler max request)
  unfolding handle_jsonrpc_request reply
  handle_jsonrpc_request-kept request connection kept =
      let after = keeps.callbacks.requests request connection kept in
      elim (Bool-cases (is_notification request)) [
        | inl silent ↦ rw silent after
        | inr asked ↦ elim (Result-cases (handler.handle_request request connection).1) [
          | inr (e, bad) ↦ rw (asked, bad) after
          | inl (answer, good) ↦ elim (Option-cases answer) [
            | inl nothing ↦ rw (asked, good, nothing) after
            | inr (response, something) ↦ rw (asked, good, something) after
          ]
        ]
      ]

  handle_bidirectional_message-kept :
      (message : BidirectionalMessage J)
      → Keeps P (handle_bidirectional_message codec handler max message)
  unfolding handle_bidirectional_message reply
  handle_bidirectional_message-kept (BidirectionalMessage.request request) connection kept =
      handle_jsonrpc_request-kept request connection kept
  handle_bidirectional_message-kept (BidirectionalMessage.subscribe topics) connection kept =
      elim (Result-cases (subscribe_limits topics connection.context)) [
        | inr (reason, refused) ↦ rw (handle_bidirectional_message, refused) kept
        | inl (fine, within) ↦
            rw (handle_bidirectional_message, within)
              (and_then-kept P (handler.handle_subscribe topics connection)
                (λ done after. (after, ok none)) (keeps.callbacks.subscribes topics connection kept)
                (λ done after left. left))
      ]
  handle_bidirectional_message-kept (BidirectionalMessage.unsubscribe topics) connection kept =
      elim (Result-cases (check_subscription_limits connection.context.limits topics)) [
        | inr (reason, refused) ↦ rw (handle_bidirectional_message, refused) kept
        | inl (fine, within) ↦
            rw (handle_bidirectional_message, within)
              (and_then-kept P (handler.handle_unsubscribe topics connection)
                (λ done after. (after, ok none))
                (keeps.callbacks.unsubscribes topics connection kept) (λ done after left. left))
      ]
  handle_bidirectional_message-kept BidirectionalMessage.ping connection kept =
      and_then-kept P (handler.on_ping connection) (λ done after. (after, ok none))
        (keeps.callbacks.pings connection kept) (λ done after left. left)
  handle_bidirectional_message-kept BidirectionalMessage.pong connection kept =
      and_then-kept P (handler.on_pong connection) (λ done after. (after, ok none))
        (keeps.callbacks.pongs connection kept) (λ done after left. left)
  handle_bidirectional_message-kept (BidirectionalMessage.response r) connection kept = kept
  handle_bidirectional_message-kept (BidirectionalMessage.server_notification n) connection kept =
      kept
  handle_bidirectional_message-kept (BidirectionalMessage.broadcast b) connection kept = kept
  handle_bidirectional_message-kept (BidirectionalMessage.connection_established i) connection
        kept =
      kept
  handle_bidirectional_message-kept (BidirectionalMessage.connection_closed i r) connection kept =
      kept

  handle_text_message-kept : (text : Text) → Keeps P (handle_text_message codec handler max text)
  unfolding handle_text_message reply
  handle_text_message-kept text connection kept =
      elim (Option-cases (codec.message_from_str text)) [
        | inr (message, e) ↦
            rw (handle_text_message, e) (handle_bidirectional_message-kept message connection kept)
        | inl e ↦ elim (Option-cases (codec.request_from_str text)) [
          | inr (request, r) ↦
              rw (handle_text_message, e, r) (handle_jsonrpc_request-kept request connection kept)
          | inl r ↦ rw (handle_text_message, e, r) kept
        ]
      ]

  pub handle_websocket_message-kept :
      (frame : Frame) → Keeps P (handle_websocket_message codec handler max frame)
  unfolding handle_websocket_message
  handle_websocket_message-kept (Frame.text text) connection kept =
      elim (Bool-cases (ltb max (length (bytes text)))) [
        | inl large ↦ rw large kept
        | inr fits ↦ rw fits (handle_text_message-kept text connection kept)
      ]
  handle_websocket_message-kept (Frame.binary data_bytes) connection kept =
      elim (Bool-cases (ltb max (length data_bytes))) [
        | inl large ↦ rw large kept
        | inr fits ↦ elim (Option-cases (codec.from_utf8 data_bytes)) [
          | inl e ↦ rw (fits, e) kept
          | inr (text, e) ↦ rw (fits, e) (handle_text_message-kept text connection kept)
        ]
      ]
  handle_websocket_message-kept (Frame.ping b) connection kept =
      and_then-kept P (handler.on_ping connection) (λ done after. (after, ok (some (Frame.pong b))))
        (keeps.callbacks.pings connection kept) (λ done after left. left)
  handle_websocket_message-kept (Frame.pong b) connection kept =
      and_then-kept P (handler.on_pong connection) (λ done after. (after, ok none))
        (keeps.callbacks.pongs connection kept) (λ done after left. left)
  handle_websocket_message-kept (Frame.close reason) connection kept = kept

module _ {J M H : Type 0} (P : Connection J M H → Type 0) {ops : ConnectionManager J M}
    {handler : MessageHandler J M H} (keeps : IsKept P ops handler) where
  reauthorize-kept : (topics : List Text) → Keeps P (reauthorize ops handler topics)
  unfolding reauthorize act
  reauthorize-kept [] connection kept = kept
  reauthorize-kept (topic ∷ topics) connection kept =
      and_then-kept P (handler.authorize_subscribe topic connection)
        (λ allowed asked. reauthorize ops handler topics (
          if allowed
          then asked
          else with_context (Context.unsubscribe ops topic asked.context) asked))
        (keeps.callbacks.authorizes topic connection kept)
        (λ allowed asked left.
          reauthorize-kept topics
            (if allowed
              then asked
              else with_context (Context.unsubscribe ops topic asked.context) asked)
            (elim (Bool-cases allowed) [
              | inl e ↦ rw e left
              | inr e ↦ rw e (keeps.acts (Action.unsubscribe topic) asked left)
            ]))

  pub revalidate_credentials-kept :
      (policy : PermissionChangePolicy) (answer : Result AuthError (AuthenticatedUser J))
      → Keeps P (revalidate_credentials ops handler policy answer)
  unfolding revalidate_credentials
  revalidate_credentials-kept policy (err e) connection kept = kept
  revalidate_credentials-kept policy (ok user) connection kept =
      let refreshed = with_context (refresh_user ops user connection.context) connection in
      let left = keeps.refreshes user connection kept in
      elim (Bool-cases (permissions_changed connection.context.info.user user && is_close policy)) [
        | inl closing ↦ rw closing left
        | inr staying ↦
            rw staying (reauthorize-kept refreshed.context.info.subscriptions refreshed left)
      ]
