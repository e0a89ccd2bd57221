-- ===== src/Rpc/Handler/Returned.antt =====
-- A round of the handler loop returns from the whole function only for a message that cannot be
-- encoded.
use rust_api_stack.Base.{
  ◌≡◌, inl, inr, true, false, none, some, List, [], ok, err, Bool-cases, Option-cases, Result-cases,
}
use rust_api_stack.Rpc.Server.{ServerError}
use rust_api_stack.Rpc.Wire.{BidirectionalMessage, Codec, Frame, text_message}
use rust_api_stack.Rpc.Handler.{handle_websocket_message}
use rust_api_stack.Rpc.Handler.Lifecycle.{Wake, next_interrupt}
use rust_api_stack.Rpc.Handler.Loop.{
  WebSocketHandler, Running, Round, Event, Outcome, going, stopped, returned, passes_egress_gate,
  woken, interrupted, supervise, write, write_out, on_connection, touched, on_frame, on_inbound,
  on_outbound, on_event, step, inbound, outbound,
}

-- A message that cannot be encoded, with that error.
abbrev pub IsUnencodable : {J : Type 0} → Codec J → ServerError J → Type 0
IsUnencodable {J} codec e =
    (message : BidirectionalMessage J) × (text_message codec message ≡ err e)

-- What an outcome shows, where `G` is what it shows to go on.
abbrev pub Shows : {J M H S : Type 0} → Type 0 → Codec J → Outcome J M H S → Type 0
Shows G codec (going running) = G
Shows G codec (stopped running stop socket_ok) = Unit
Shows G codec (returned running e) = IsUnencodable codec e

module _ {J M H S : Type 0} (self : WebSocketHandler J M H S) where
  write_out-Shows :
      (wakes : List (Wake J)) (frame : Frame) (running : Running J M H S)
      → Shows Unit self.codec (write_out self wakes frame running)
  unfolding write_out
  write_out-Shows wakes frame running = elim (Result-cases (write self wakes frame running).1) [
    | inl (done, e) ↦ rw (write_out, e) tt
    | inr (stop, e) ↦ rw (write_out, e) tt
  ]

  on_frame-Shows :
      (round : Round J) (frame : Frame) (running : Running J M H S)
      → Shows Unit self.codec (on_frame self round frame running)
  unfolding on_frame
  on_frame-Shows round frame running =
      let work =
        on_connection self
          (handle_websocket_message self.codec self.handler self.max_message_size frame) in
      let begun = touched self round.wake.now running in
      let after = supervise self false round.handling work begun in
      elim (Result-cases after.1) [
        | inr (stop, e) ↦ rw (on_frame, e) tt
        | inl (result, e) ↦ elim (Result-cases result) [
          | inr (bad, r) ↦ rw (on_frame, e, r) tt
          | inl (answer, r) ↦ elim (Option-cases answer) [
            | inl a ↦ rw (on_frame, e, r, a) tt
            | inr (reply, a) ↦
                rw (on_frame, e, r, a)
                  (write_out-Shows round.writing reply (touched self round.handled after.0))
          ]
        ]
      ]

  on_event-Shows :
      (round : Round J) (event : Event J) (running : Running J M H S)
      → Shows Unit self.codec (on_event self round event running)
  unfolding on_event on_inbound on_outbound
  on_event-Shows round Event.ping running = write_out-Shows round.writing (Frame.ping []) running
  on_event-Shows round (inbound none) running = tt
  on_event-Shows round (inbound (some (err e))) running = tt
  on_event-Shows round (inbound (some (ok (Frame.close reason)))) running = tt
  on_event-Shows round (inbound (some (ok (Frame.text t)))) running =
      on_frame-Shows round (Frame.text t) running
  on_event-Shows round (inbound (some (ok (Frame.binary b)))) running =
      on_frame-Shows round (Frame.binary b) running
  on_event-Shows round (inbound (some (ok (Frame.ping b)))) running =
      on_frame-Shows round (Frame.ping b) running
  on_event-Shows round (inbound (some (ok (Frame.pong b)))) running =
      on_frame-Shows round (Frame.pong b) running
  on_event-Shows round (outbound none) running = tt
  on_event-Shows round (outbound (some queued)) running =
      elim (Bool-cases (passes_egress_gate queued.topic running)) [
        | inr dropped ↦ rw (on_outbound, dropped) tt
        | inl passed ↦ elim (Result-cases (text_message self.codec queued.message)) [
          | inr (bad, e) ↦ rw (on_outbound, passed, e) (queued.message, e)
          | inl (frame, e) ↦
              rw (on_outbound, passed, e) (write_out-Shows round.writing frame running)
        ]
      ]

  pub step-Shows :
      (round : Round J) (running : Running J M H S)
      → Shows Unit self.codec (step self round running)
  unfolding step
  step-Shows round running =
      let after = woken self round.wake running in
      elim (Option-cases
        (next_interrupt after.connection.context.closed true after.life round.wake)) [
          | inl e ↦ rw (step, e) (on_event-Shows round round.event after)
          | inr (interrupt, e) ↦
              elim (Option-cases (interrupted self interrupt round.wake after).1) [
                | inl s ↦ rw (step, e, s) tt
                | inr (why, s) ↦ rw (step, e, s) tt
              ]
        ]
