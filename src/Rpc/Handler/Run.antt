-- ===== src/Rpc/Handler/Run.antt =====
-- `run_with_io` and `drain_outbound` of
-- crates/rpc/bidirectional/ras-jsonrpc-bidirectional-server/src/handler/mod.rs: from the callback for
-- the new connection to its end. The period of grace is the number of writes that it has time for.
use rust_api_stack.Base.{
  ℕ, zero, suc, Bool, true, false, Option, none, some, List, [], ◌∷◌, if◌then◌else◌, ok, err,
}
use rust_api_stack.Base.Text.{Text, codes}
use rust_api_stack.Rpc.Server.{ServerResult}
use rust_api_stack.Rpc.Wire.{BidirectionalMessage, OutboundMessage, Frame, text_message}
use rust_api_stack.Rpc.Context
use rust_api_stack.Rpc.Handler.{Connection, with_context}
use rust_api_stack.Rpc.Handler.Lifecycle.{
  Stop, Wake, ended, peer_closed, disconnected, revoked, failed,
}
use rust_api_stack.Rpc.Handler.Loop.{
  WebSocketHandler, Running, Round, Outcome, going, stopped, returned, passes_egress_gate,
  with_connection, supervise, send_frame, write, on_connection, rounds,
}

-- What the runtime decides on the way, and what is queued for the socket at the end.
pub record Schedule (J : Type 0) : Type 0 where
  pub connecting : List (Wake J)
  pub establishing : List (Wake J)
  pub events : List (Round J)
  pub queued : List (OutboundMessage J)
  pub grace : ℕ

module _ {J : Type 0} where
  unfoldable pub close_reason : Stop J → Option Text
  close_reason ended = none
  close_reason (peer_closed reason) = none
  close_reason disconnected = some (codes "disconnected by server")
  close_reason revoked = some (codes "credentials no longer valid")
  close_reason Stop.idle = some (codes "idle timeout")
  close_reason (failed e) = none

  unfoldable pub peer_reason : Stop J → Option Text
  peer_reason ended = none
  peer_reason (peer_closed reason) = reason
  peer_reason disconnected = none
  peer_reason revoked = none
  peer_reason Stop.idle = none
  peer_reason (failed e) = none

  unfoldable pub is_disconnected : Stop J → Bool
  is_disconnected ended = false
  is_disconnected (peer_closed reason) = false
  is_disconnected disconnected = true
  is_disconnected revoked = false
  is_disconnected Stop.idle = false
  is_disconnected (failed e) = false

  -- A security reason.
  unfoldable pub clears_user : Stop J → Bool
  clears_user ended = false
  clears_user (peer_closed reason) = false
  clears_user disconnected = true
  clears_user revoked = true
  clears_user Stop.idle = false
  clears_user (failed e) = false

module _ {J M H S : Type 0} (self : WebSocketHandler J M H S) where
  -- With the writes that the grace still has time for, or `none` when it is over.
  unfoldable pub drain_outbound :
      ℕ → List (OutboundMessage J) → Running J M H S → Running J M H S × Option ℕ
  drain_outbound grace [] running = (running, some grace)
  drain_outbound grace (queued ∷ rest) running =
      if passes_egress_gate queued.topic running
      then elim (text_message self.codec queued.message) [
        | err e ↦ drain_outbound grace rest running
        | ok frame ↦ elim grace [
          | zero ↦ (running, none)
          | suc left ↦
              let (after, result) = send_frame self frame running in
              elim result [ err e ↦ (after, some left) | ok done ↦ drain_outbound left rest after ]
        ]
      ]
      else drain_outbound grace rest running

  unfoldable pub send_close : Option ℕ → Option Text → Running J M H S → Running J M H S
  send_close none reason running = running
  send_close (some zero) reason running = running
  send_close (some (suc left)) none running = running
  send_close (some (suc left)) (some reason) running =
      (send_frame self (Frame.close (some reason)) running).0

  -- The last frames before the end.
  unfoldable pub close_socket : Schedule J → Stop J → Running J M H S → Running J M H S
  close_socket schedule stop running =
      let (drained, left) =
        if is_disconnected stop
        then drain_outbound schedule.grace schedule.queued running
        else (running, some schedule.grace) in
      send_close left (close_reason stop) drained

  -- Close the sender, release the subscriptions, tell the service, and clear the user.
  unfoldable pub disconnect : Stop J → Connection J M H → Connection J M H
  disconnect stop connection =
      let released =
        with_context
          (Context.release_all_subscriptions self.manager (Context.close connection.context))
          connection in
      let told = (self.handler.on_disconnect (peer_reason stop) released).0 in
      if clears_user stop then with_context (Context.set_user none told.context) told else told

  unfoldable pub send_closed : Running J M H S → Running J M H S × ServerResult J (Unit {0})
  send_closed running =
      elim (text_message self.codec
        (BidirectionalMessage.connection_closed running.connection.context.id none)) [
          | err e ↦ (running, err e)
          | ok frame ↦ ((send_frame self frame running).0, ok tt)
        ]

  -- From the end of the loop on.
  unfoldable pub teardown :
      Schedule J → Stop J → Bool → Running J M H S → Running J M H S × ServerResult J (Unit {0})
  teardown schedule stop socket_ok running =
      let closing = if socket_ok then close_socket schedule stop running else running in
      let left = with_connection (disconnect stop closing.connection) closing in
      if socket_ok then send_closed left else (left, ok tt)

  -- Until the loop is left.
  unfoldable pub serve : Schedule J → Running J M H S → Outcome J M H S
  serve schedule running =
      let (greeted, outcome) =
        supervise self false schedule.connecting (on_connection self self.handler.on_connect)
          running in
      elim outcome [
        | err stop ↦ stopped greeted stop true
        | ok logged ↦
            elim (text_message self.codec
              (BidirectionalMessage.connection_established greeted.connection.context.id)) [
                | err e ↦ returned greeted e
                | ok frame ↦
                    let (established, written) = write self schedule.establishing frame greeted in
                    elim written [
                      | err stop ↦ stopped established stop false
                      | ok done ↦ rounds self schedule.events established
                    ]
              ]
      ]

  -- `none` while the loop waits for more events than there are.
  unfoldable pub run :
      Schedule J → Running J M H S → Option (Running J M H S × ServerResult J (Unit {0}))
  run schedule running = elim (serve schedule running) [
    | going after ↦ none
    | stopped after stop socket_ok ↦ some (teardown schedule stop socket_ok after)
    | returned after e ↦ some (after, err e)
  ]
