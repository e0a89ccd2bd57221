-- ===== src/Rpc/Handler/Loop.antt =====
-- The handler loop of crates/rpc/bidirectional/ras-jsonrpc-bidirectional-server/src/handler/mod.rs:
-- `supervise`, `write`, `passes_egress_gate` and one round of `run_with_io`. What the
-- runtime decides is an input: how each wait ends, and which event is ready.
use rust_api_stack.Base.{
  ℕ, Bool, true, false, Option, none, some, List, [], ◌∷◌, if◌then◌else◌, contains, Result, ok, err,
}
use rust_api_stack.Base.Text.{Text, Text-eq}
use rust_api_stack.Rpc.Server.{ServerError, ServerResult}
use rust_api_stack.Rpc.Wire.{OutboundMessage, Frame, Codec, text_message}
use rust_api_stack.Rpc.Context
use rust_api_stack.Rpc.Context.{ConnectionContext, ConnectionManager}
use rust_api_stack.Rpc.Handler.{Connection, MessageHandler, with_context, handle_websocket_message}
use rust_api_stack.Rpc.Handler.Revalidation.{PermissionChangePolicy, revalidate_credentials}
use rust_api_stack.Rpc.Handler.Lifecycle.{
  Stop, Interrupt, Action, Wake, Lifecycle, ended, peer_closed, disconnected, revoked, failed,
  revalidate, touch, next_interrupt,
}

-- A socket with state `S`.
pub record WebSocketIo (J S : Type 0) : Type 0 where
  pub send : Frame → S → S × ServerResult J (Unit {0})

pub record WebSocketHandler (J M H S : Type 0) : Type 0 where
  pub handler : MessageHandler J M H
  pub manager : ConnectionManager J M
  pub io : WebSocketIo J S
  pub codec : Codec J
  pub max_message_size : ℕ
  pub on_permission_change : PermissionChangePolicy

pub record Running (J M H S : Type 0) : Type 0 where
  pub connection : Connection J M H
  pub socket : S
  pub life : Lifecycle

pub data Event (J : Type 0) : Type 0 where
  ping : Event J
  inbound : Option (ServerResult J Frame) → Event J
  outbound : Option (OutboundMessage J) → Event J

-- One round: the wait for the event, those while its handler and its write run, and the time when
-- the handler is done.
pub record Round (J : Type 0) : Type 0 where
  pub wake : Wake J
  pub event : Event J
  pub handling : List (Wake J)
  pub handled : ℕ
  pub writing : List (Wake J)

-- How a round ends: the loop goes on, or it stops with a socket that can take a write or not, or the
-- whole function returns.
pub data Outcome (J M H S : Type 0) : Type 0 where
  going : Running J M H S → Outcome J M H S
  stopped : Running J M H S → Stop J → (socket_ok : Bool) → Outcome J M H S
  returned : Running J M H S → ServerError J → Outcome J M H S

module _ {J M : Type 0} (ops : ConnectionManager J M) where
  unfoldable pub act : Action J → ConnectionContext J M → ConnectionContext J M
  act Action.close context = Context.close context
  act (Action.subscribe topic) context = (Context.subscribe ops topic context).0
  act (Action.unsubscribe topic) context = Context.unsubscribe ops topic context
  act (Action.set_user user) context = Context.set_user user context

  unfoldable pub act_all : List (Action J) → ConnectionContext J M → ConnectionContext J M
  act_all [] context = context
  act_all (action ∷ actions) context = act_all actions (act action context)

module _ {J M H S : Type 0} where
  unfoldable pub passes_egress_gate : Option Text → Running J M H S → Bool
  passes_egress_gate none running = true
  passes_egress_gate (some topic) running =
      contains running.connection.context.info.subscriptions topic

  abbrev pub with_connection : Connection J M H → Running J M H S → Running J M H S
  with_connection connection running = record running { connection = connection }

module _ {J M H S : Type 0} (self : WebSocketHandler J M H S) where
  unfoldable pub woken : Wake J → Running J M H S → Running J M H S
  woken wake running =
      with_connection
        (with_context (act_all self.manager wake.actions running.connection.context)
          running.connection)
        running

  -- The connection after a re-validation, and why the loop stops if it does.
  unfoldable pub revalidated : Wake J → Running J M H S → Running J M H S × Option (Stop J)
  revalidated wake running =
      let (connection, result) =
        revalidate_credentials self.manager self.handler self.on_permission_change wake.answer
          running.connection in
      (
        with_connection connection running,
        elim result [ ok keep ↦ (if keep then none else some revoked) | err e ↦ some (failed e) ],
      )

  unfoldable pub interrupted :
      Interrupt → Wake J → Running J M H S → Running J M H S × Option (Stop J)
  interrupted Interrupt.closed wake running = (running, some disconnected)
  interrupted Interrupt.idle wake running = (running, some Stop.idle)
  interrupted revalidate wake running = revalidated wake running

  -- One wait of `supervise`: an interrupt, if one is ready.
  unfoldable pub checked : Bool → Wake J → Running J M H S → Running J M H S × Option (Stop J)
  checked watch_idle wake running =
      let after = woken wake running in
      elim (next_interrupt after.connection.context.closed watch_idle after.life wake) [
        | none ↦ (after, none)
        | some interrupt ↦ interrupted interrupt wake after
      ]

  -- Work that an interrupt ends is taken to have had no effect until then.
  unfoldable pub supervise :
      {A : Type 0}
      → Bool
      → List (Wake J)
      → (Running J M H S → Running J M H S × A)
      → Running J M H S
      → Running J M H S × Result (Stop J) A
  supervise watch_idle [] work running = let (after, output) = work running in (after, ok output)
  supervise watch_idle (wake ∷ wakes) work running =
      let (after, stop) = checked watch_idle wake running in
      elim stop [ some why ↦ (after, err why) | none ↦ supervise watch_idle wakes work after ]

  -- `socket.send`.
  unfoldable pub send_frame : Frame → Running J M H S → Running J M H S × ServerResult J (Unit {0})
  send_frame frame running =
      let (socket, result) = self.io.send frame running.socket in
      (record running { socket = socket }, result)

  unfoldable pub write :
      List (Wake J) → Frame → Running J M H S → Running J M H S × Result (Stop J) (Unit {0})
  write wakes frame running =
      let (after, result) = supervise true wakes (send_frame frame) running in
      (
        after,
        elim result [
          | err stop ↦ err stop
          | ok sent ↦ elim sent [ ok done ↦ ok tt | err e ↦ err (failed e) ]
        ],
      )

  -- The end of a round that has something to write.
  unfoldable pub write_out : List (Wake J) → Frame → Running J M H S → Outcome J M H S
  write_out wakes frame running =
      let (after, result) = write wakes frame running in
      elim result [ ok done ↦ going after | err stop ↦ stopped after stop false ]

  -- A handler on the connection, as work to supervise.
  unfoldable pub on_connection :
      {A : Type 0}
      → (Connection J M H → Connection J M H × A)
      → Running J M H S
      → Running J M H S × A
  on_connection work running =
      let (connection, output) = work running.connection in
      (with_connection connection running, output)

  unfoldable pub touched : ℕ → Running J M H S → Running J M H S
  touched now running = record running { life = touch now running.life }

  unfoldable pub on_frame : Round J → Frame → Running J M H S → Outcome J M H S
  on_frame round frame running =
      let (after, reply) =
        supervise false round.handling
          (on_connection
            (handle_websocket_message self.codec self.handler self.max_message_size frame))
          (touched round.wake.now running) in
      let rested = touched round.handled after in
      elim reply [
        | err stop ↦ stopped rested stop true
        | ok result ↦ elim result [
          | err e ↦ stopped rested (failed e) true
          | ok answer ↦ elim answer [
            | none ↦ going rested
            | some frame ↦ write_out round.writing frame rested
          ]
        ]
      ]

  unfoldable pub on_inbound : Round J → ServerResult J Frame → Running J M H S → Outcome J M H S
  on_inbound round (err e) running = stopped running (failed e) true
  on_inbound round (ok (Frame.close reason)) running = stopped running (peer_closed reason) true
  on_inbound round (ok (Frame.text text)) running = on_frame round (Frame.text text) running
  on_inbound round (ok (Frame.binary bytes)) running = on_frame round (Frame.binary bytes) running
  on_inbound round (ok (Frame.ping bytes)) running = on_frame round (Frame.ping bytes) running
  on_inbound round (ok (Frame.pong bytes)) running = on_frame round (Frame.pong bytes) running

  unfoldable pub on_outbound : Round J → OutboundMessage J → Running J M H S → Outcome J M H S
  on_outbound round queued running =
      if passes_egress_gate queued.topic running
      then elim (text_message self.codec queued.message) [
        | err e ↦ returned running e
        | ok frame ↦ write_out round.writing frame running
      ]
      else going running

  unfoldable pub on_event : Round J → Event J → Running J M H S → Outcome J M H S
  on_event round Event.ping running = write_out round.writing (Frame.ping []) running
  on_event round (inbound none) running = stopped running ended true
  on_event round (inbound (some result)) running = on_inbound round result running
  on_event round (outbound none) running = stopped running ended true
  on_event round (outbound (some message)) running = on_outbound round message running

  -- After a re-validation that keeps the connection the event is not looked at: the loop turns.
  unfoldable pub step : Round J → Running J M H S → Outcome J M H S
  step round running =
      let after = woken round.wake running in
      elim (next_interrupt after.connection.context.closed true after.life round.wake) [
        | none ↦ on_event round round.event after
        | some interrupt ↦
            let (left, stop) = interrupted interrupt round.wake after in
            elim stop [ none ↦ going left | some why ↦ stopped left why true ]
      ]

  unfoldable pub rounds : List (Round J) → Running J M H S → Outcome J M H S
  rounds [] running = going running
  rounds (round ∷ rest) running = elim (step round running) [
    | going after ↦ rounds rest after
    | stopped after stop socket_ok ↦ stopped after stop socket_ok
    | returned after e ↦ returned after e
  ]
