-- ===== src/Rpc/Handler/Kept/Rounds.antt =====
-- The rounds of the loop keep what the callbacks and the accesses from outside keep.
use rust_api_stack.Base.{
  ◌≡◌, refl, inl, inr, Bool, true, false, none, some, List, [], ◌∷◌, ok, err, Bool-cases,
  Option-cases, Result-cases,
}
use rust_api_stack.Rpc.Wire.{BidirectionalMessage, Frame, text_message}
use rust_api_stack.Rpc.Handler.{Connection, with_context, handle_websocket_message}
use rust_api_stack.Rpc.Handler.Lifecycle.{Interrupt, Action, Wake, revalidate, next_interrupt}
use rust_api_stack.Rpc.Handler.Loop.{
  WebSocketHandler, Running, Round, Event, Outcome, going, stopped, returned, act, act_all,
  passes_egress_gate, woken, revalidated, interrupted, checked, supervise, send_frame, write,
  write_out, on_connection, touched, on_frame, on_inbound, on_outbound, on_event, step, rounds,
  inbound, outbound,
}
use rust_api_stack.Rpc.Handler.Run.{Schedule, serve}
use rust_api_stack.Rpc.Handler.Kept.{
  IsKept, handle_websocket_message-kept, revalidate_credentials-kept,
}

module _ {J M H S : Type 0} (P : Connection J M H → Type 0) where
  -- It holds of the connection that an outcome leaves.
  abbrev pub Holds : Outcome J M H S → Type 0
  Holds (going running) = P running.connection
  Holds (stopped running stop socket_ok) = P running.connection
  Holds (returned running e) = P running.connection

  -- A piece of work on the running connection keeps it.
  abbrev pub Works : {A : Type 0} → (Running J M H S → Running J M H S × A) → Type 0
  Works work = (running : Running J M H S) → P running.connection → P (work running).0.connection

module _ {J M H S : Type 0} (P : Connection J M H → Type 0) (self : WebSocketHandler J M H S)
    (keeps : IsKept P self.manager self.handler) where
  act_all-kept :
      (actions : List (Action J)) (connection : Connection J M H)
      → P connection
      → P (with_context (act_all self.manager actions connection.context) connection)
  unfolding act_all
  act_all-kept [] connection kept = kept
  act_all-kept (action ∷ actions) connection kept =
      act_all-kept actions (with_context (act self.manager action connection.context) connection)
        (keeps.acts action connection kept)

  woken-kept :
      (wake : Wake J) (running : Running J M H S)
      → P running.connection
      → P (woken self wake running).connection
  unfolding woken
  woken-kept wake running kept = act_all-kept wake.actions running.connection kept

  interrupted-kept :
      (interrupt : Interrupt) (wake : Wake J) → Works P (interrupted self interrupt wake)
  unfolding interrupted revalidated
  interrupted-kept Interrupt.closed wake running kept = kept
  interrupted-kept Interrupt.idle wake running kept = kept
  interrupted-kept revalidate wake running kept =
      revalidate_credentials-kept P keeps self.on_permission_change wake.answer running.connection
        kept

  checked-kept : (watch_idle : Bool) (wake : Wake J) → Works P (checked self watch_idle wake)
  unfolding checked
  checked-kept watch_idle wake running kept =
      let after = woken self wake running in
      let left = woken-kept wake running kept in
      elim (Option-cases
        (next_interrupt after.connection.context.closed watch_idle after.life wake)) [
          | inl e ↦ rw (checked, e) left
          | inr (interrupt, e) ↦ rw (checked, e) (interrupted-kept interrupt wake after left)
        ]

  pub supervise-kept :
      {A : Type 0} (watch_idle : Bool) (wakes : List (Wake J))
      (work : Running J M H S → Running J M H S × A)
      → Works P work
      → Works P (supervise self watch_idle wakes work)
  unfolding supervise
  supervise-kept watch_idle [] work works running kept = works running kept
  supervise-kept watch_idle (wake ∷ wakes) work works running kept =
      let after = (checked self watch_idle wake running).0 in
      let left = checked-kept watch_idle wake running kept in
      elim (Option-cases (checked self watch_idle wake running).1) [
        | inl e ↦ rw (supervise, e) (supervise-kept watch_idle wakes work works after left)
        | inr (why, e) ↦ rw (supervise, e) left
      ]

  pub write-kept : (wakes : List (Wake J)) (frame : Frame) → Works P (write self wakes frame)
  unfolding write send_frame
  write-kept wakes frame running kept =
      supervise-kept true wakes (send_frame self frame) (λ r k. k) running kept

  write_out-kept :
      (wakes : List (Wake J)) (frame : Frame) (running : Running J M H S)
      → P running.connection
      → Holds P (write_out self wakes frame running)
  unfolding write_out
  write_out-kept wakes frame running kept =
      let left = write-kept wakes frame running kept in
      elim (Result-cases (write self wakes frame running).1) [
        | inl (done, e) ↦ rw (write_out, e) left
        | inr (stop, e) ↦ rw (write_out, e) left
      ]

  on_frame-kept :
      (round : Round J) (frame : Frame) (running : Running J M H S)
      → P running.connection
      → Holds P (on_frame self round frame running)
  unfolding on_frame touched on_connection
  on_frame-kept round frame running kept =
      let work =
        on_connection self
          (handle_websocket_message self.codec self.handler self.max_message_size frame) in
      let begun = touched self round.wake.now running in
      let left =
        supervise-kept false round.handling work
          (λ r k.
            handle_websocket_message-kept P self.codec self.handler self.max_message_size keeps
              frame r.connection k)
          begun kept in
      elim (Result-cases (supervise self false round.handling work begun).1) [
        | inr (stop, e) ↦ rw (on_frame, e) left
        | inl (result, e) ↦ elim (Result-cases result) [
          | inr (bad, r) ↦ rw (on_frame, e, r) left
          | inl (answer, r) ↦ elim (Option-cases answer) [
            | inl a ↦ rw (on_frame, e, r, a) left
            | inr (reply, a) ↦
                rw (on_frame, e, r, a)
                  (write_out-kept round.writing reply
                    (touched self round.handled (supervise self false round.handling work begun).0)
                    left)
          ]
        ]
      ]

  on_event-kept :
      (round : Round J) (event : Event J) (running : Running J M H S)
      → P running.connection
      → Holds P (on_event self round event running)
  unfolding on_event on_inbound on_outbound
  on_event-kept round Event.ping running kept =
      write_out-kept round.writing (Frame.ping []) running kept
  on_event-kept round (inbound none) running kept = kept
  on_event-kept round (inbound (some (err e))) running kept = kept
  on_event-kept round (inbound (some (ok (Frame.close reason)))) running kept = kept
  on_event-kept round (inbound (some (ok (Frame.text t)))) running kept =
      on_frame-kept round (Frame.text t) running kept
  on_event-kept round (inbound (some (ok (Frame.binary b)))) running kept =
      on_frame-kept round (Frame.binary b) running kept
  on_event-kept round (inbound (some (ok (Frame.ping b)))) running kept =
      on_frame-kept round (Frame.ping b) running kept
  on_event-kept round (inbound (some (ok (Frame.pong b)))) running kept =
      on_frame-kept round (Frame.pong b) running kept
  on_event-kept round (outbound none) running kept = kept
  on_event-kept round (outbound (some queued)) running kept =
      elim (Bool-cases (passes_egress_gate queued.topic running)) [
        | inr dropped ↦ rw (on_outbound, dropped) kept
        | inl passed ↦ elim (Result-cases (text_message self.codec queued.message)) [
          | inr (bad, e) ↦ rw (on_outbound, passed, e) kept
          | inl (frame, e) ↦
              rw (on_outbound, passed, e) (write_out-kept round.writing frame running kept)
        ]
      ]

  step-kept :
      (round : Round J) (running : Running J M H S)
      → P running.connection
      → Holds P (step self round running)
  unfolding step
  step-kept round running kept =
      let after = woken self round.wake running in
      let left = woken-kept round.wake running kept in
      elim (Option-cases
        (next_interrupt after.connection.context.closed true after.life round.wake)) [
          | inl e ↦ rw (step, e) (on_event-kept round round.event after left)
          | inr (interrupt, e) ↦
              let done = interrupted-kept interrupt round.wake after left in
              elim (Option-cases (interrupted self interrupt round.wake after).1) [
                | inl s ↦ rw (step, e, s) done
                | inr (why, s) ↦ rw (step, e, s) done
              ]
        ]

  pub rounds-kept :
      (events : List (Round J)) (running : Running J M H S)
      → P running.connection
      → Holds P (rounds self events running)
  unfolding rounds
  rounds-kept [] running kept = kept
  rounds-kept (round ∷ events) running kept =
      continued (step self round running) refl (step-kept round running kept)
        (λ after held. rounds-kept events after held)
    where
      continued :
          (outcome : Outcome J M H S)
          → step self round running ≡ outcome
          → Holds P outcome
          → ((after : Running J M H S) → P after.connection → Holds P (rounds self events after))
          → Holds P (rounds self (round ∷ events) running)
      continued (going after) e held next = rw (rounds, e) (next after held)
      continued (stopped after stop socket_ok) e held next = rw (rounds, e) held
      continued (returned after bad) e held next = rw (rounds, e) held

  -- What holds of a connection when it is accepted holds when its loop ends.
  pub serve-kept :
      (schedule : Schedule J) (running : Running J M H S)
      → P running.connection
      → Holds P (serve self schedule running)
  unfolding serve on_connection
  serve-kept schedule running kept =
      let work = on_connection self self.handler.on_connect in
      let greeted = (supervise self false schedule.connecting work running).0 in
      let left =
        supervise-kept false schedule.connecting work
          (λ r k. keeps.callbacks.connects r.connection k) running kept in
      let id = greeted.connection.context.id in
      elim (Result-cases (supervise self false schedule.connecting work running).1) [
        | inr (stop, e) ↦ rw (serve, e) left
        | inl (logged, e) ↦
            elim (Result-cases
              (text_message self.codec (BidirectionalMessage.connection_established id))) [
                | inr (bad, t) ↦ rw (serve, e, t) left
                | inl (frame, t) ↦
                    let sent = write-kept schedule.establishing frame greeted left in
                    let established = (write self schedule.establishing frame greeted).0 in
                    elim (Result-cases (write self schedule.establishing frame greeted).1) [
                      | inr (stop, w) ↦ rw (serve, e, t, w) sent
                      | inl (done, w) ↦
                          rw (serve, e, t, w) (rounds-kept schedule.events established sent)
                    ]
              ]
      ]
