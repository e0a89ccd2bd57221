-- ===== src/Rpc/Handler/Teardown.antt =====
-- What the end of the handler loop leaves of the connection.
use rust_api_stack.Base.{
  ℕ, zero, suc, ◌%◌, ◌≡◌, refl, ap, ◌∙◌, inl, inr, Bool, true, false, Option, none, some, List, [],
  ◌∷◌, arith, Bool-cases, Result-cases,
}
use rust_api_stack.Base.Text.{Text}
use rust_api_stack.Rpc.Wire.{OutboundMessage, BidirectionalMessage, text_message}
use rust_api_stack.Rpc.Context
use rust_api_stack.Rpc.Context.{ConnectionContext, ConnectionManager}
use rust_api_stack.Rpc.Context.Counter.{IsAccounted, release_all-IsReleased}
use rust_api_stack.Rpc.Handler.{Connection, with_context}
use rust_api_stack.Rpc.Handler.Lifecycle.{Stop, Action}
use rust_api_stack.Rpc.Handler.Loop.{
  WebSocketHandler, Running, act, act_all, send_frame, passes_egress_gate,
}
use rust_api_stack.Rpc.Handler.Run.{
  Schedule, clears_user, peer_reason, disconnect, drain_outbound, send_close, close_reason,
  is_disconnected, close_socket, send_closed, teardown,
}
use rust_api_stack.Rpc.Handler.Accounts.{HasAccount}

module _ {J M : Type 0} (ops : ConnectionManager J M) where
  -- Whether the sender is closed by one of the actions.
  unfoldable pub closes : List (Action J) → Bool
  closes [] = false
  closes (Action.close ∷ actions) = true
  closes (Action.subscribe topic ∷ actions) = closes actions
  closes (Action.unsubscribe topic ∷ actions) = closes actions
  closes (Action.set_user user ∷ actions) = closes actions

  act-closed :
      (action : Action J) (context : ConnectionContext J M)
      → context.closed ≡ true
      → (act ops action context).closed ≡ true
  unfolding act Context.close Context.subscribe Context.unsubscribe Context.set_user
      Context.mirror_and_insert Context.reserve
  act-closed Action.close context e = refl
  act-closed (Action.subscribe topic) context e = ground arith
  act-closed (Action.unsubscribe topic) context e = ground arith
  act-closed (Action.set_user user) context e = e

  act_all-stays_closed :
      (actions : List (Action J)) (context : ConnectionContext J M)
      → context.closed ≡ true
      → (act_all ops actions context).closed ≡ true
  unfolding act_all
  act_all-stays_closed [] context e = e
  act_all-stays_closed (action ∷ actions) context e =
      act_all-stays_closed actions (act ops action context) (act-closed action context e)

  pub act_all-closes :
      (actions : List (Action J)) (context : ConnectionContext J M)
      → closes actions ≡ true
      → (act_all ops actions context).closed ≡ true
  unfolding act_all closes act Context.close
  act_all-closes [] context e = cc
  act_all-closes (Action.close ∷ actions) context e =
      act_all-stays_closed actions (act ops Action.close context) refl
  act_all-closes (Action.subscribe topic ∷ actions) context e =
      act_all-closes actions (act ops (Action.subscribe topic) context) e
  act_all-closes (Action.unsubscribe topic ∷ actions) context e =
      act_all-closes actions (act ops (Action.unsubscribe topic) context) e
  act_all-closes (Action.set_user user ∷ actions) context e =
      act_all-closes actions (act ops (Action.set_user user) context) e

  unsubscribe_all-closed :
      (topics : List Text) (context : ConnectionContext J M)
      → context.closed ≡ true
      → (Context.unsubscribe_all ops topics context).closed ≡ true
  unfolding Context.unsubscribe_all act
  unsubscribe_all-closed [] context e = e
  unsubscribe_all-closed (topic ∷ topics) context e =
      unsubscribe_all-closed topics (Context.unsubscribe ops topic context)
        (act-closed (Action.unsubscribe topic) context e)

  -- The context that a connection is left with.
  released-context :
      (others : ℕ) (context : ConnectionContext J M)
      → IsAccounted others context
      → let left = Context.release_all_subscriptions ops (Context.close context) in
        (left.closed ≡ true)
        × (left.info.subscriptions ≡ [])
        × (left.accounting ≡ others % 18446744073709551616)
  unfolding IsAccounted Context.close Context.release_all_subscriptions
  released-context others context held =
      let (none_left, counted) = release_all-IsReleased ops others (Context.close context) held in
      (
        unsubscribe_all-closed context.info.subscriptions (Context.close context) refl,
        none_left,
        counted,
      )

module _ {J M H : Type 0} where
  -- The connection is over: its sender is closed, it holds no topic, the service's counter is what
  -- the other connections hold, and a security reason leaves it no user.
  unfoldable pub IsOver : ℕ → Stop J → Connection J M H → Type 0
  IsOver others stop connection =
      (connection.context.closed ≡ true)
      × (connection.context.info.subscriptions ≡ [])
      × (connection.context.accounting ≡ others % 18446744073709551616)
      × (clears_user stop ≡ true → connection.context.info.user ≡ none)

module _ {J M H S : Type 0} (self : WebSocketHandler J M H S) where
  send_close-connection :
      (left : Option ℕ) (reason : Option Text) (running : Running J M H S)
      → (send_close self left reason running).connection ≡ running.connection
  unfolding send_close send_frame
  send_close-connection none reason running = refl
  send_close-connection (some zero) reason running = refl
  send_close-connection (some (suc n)) none running = refl
  send_close-connection (some (suc n)) (some reason) running = refl

  drain_outbound-connection :
      (grace : ℕ) (queued : List (OutboundMessage J)) (running : Running J M H S)
      → (drain_outbound self grace queued running).0.connection ≡ running.connection
  unfolding drain_outbound send_frame
  drain_outbound-connection grace [] running = refl
  drain_outbound-connection zero (message ∷ queued) running =
      elim (Bool-cases (passes_egress_gate message.topic running)) [
        | inr dropped ↦ rw (drain_outbound, dropped) (drain_outbound-connection zero queued running)
        | inl passed ↦ elim (Result-cases (text_message self.codec message.message)) [
          | inr (bad, e) ↦
              rw (drain_outbound, passed, e) (drain_outbound-connection zero queued running)
          | inl (frame, e) ↦ rw (drain_outbound, passed, e) refl
        ]
      ]
  drain_outbound-connection (suc left) (message ∷ queued) running =
      elim (Bool-cases (passes_egress_gate message.topic running)) [
        | inr dropped ↦
            rw (drain_outbound, dropped) (drain_outbound-connection (suc left) queued running)
        | inl passed ↦ elim (Result-cases (text_message self.codec message.message)) [
          | inr (bad, e) ↦
              rw (drain_outbound, passed, e) (drain_outbound-connection (suc left) queued running)
          | inl (frame, e) ↦
              let after = (send_frame self frame running).0 in
              elim (Result-cases (self.io.send frame running.socket).1) [
                | inr (failure, r) ↦ rw (drain_outbound, passed, e, r) refl
                | inl (done, r) ↦
                    rw (drain_outbound, passed, e, r) (drain_outbound-connection left queued after)
              ]
        ]
      ]

  close_socket-connection :
      (schedule : Schedule J) (stop : Stop J) (running : Running J M H S)
      → (close_socket self schedule stop running).connection ≡ running.connection
  unfolding close_socket
  close_socket-connection schedule stop running = elim (Bool-cases (is_disconnected stop)) [
    | inl e ↦
        let (drained, left) = drain_outbound self schedule.grace schedule.queued running in
        rw (close_socket, e)
          (send_close-connection left (close_reason stop) drained
            ∙ drain_outbound-connection schedule.grace schedule.queued running)
    | inr e ↦
        rw (close_socket, e)
          (send_close-connection (some schedule.grace) (close_reason stop) running)
  ]

  pub teardown-connection :
      (schedule : Schedule J) (stop : Stop J) (socket_ok : Bool) (running : Running J M H S)
      → (teardown self schedule stop socket_ok running).0.connection
        ≡ disconnect self stop running.connection
  unfolding teardown send_closed send_frame
  teardown-connection schedule stop false running = refl
  teardown-connection schedule stop true running =
      let closing = close_socket self schedule stop running in
      let left = disconnect self stop closing.connection in
      let same = ap (disconnect self stop) (close_socket-connection schedule stop running) in
      elim (Result-cases
        (text_message self.codec (BidirectionalMessage.connection_closed left.context.id none))) [
          | inr (bad, e) ↦ rw (send_closed, e) same
          | inl (frame, e) ↦ rw (send_closed, e) same
        ]

  -- `on_disconnect` leaves the context as it is.
  abbrev pub LeavesContext : Type 0
  LeavesContext =
      (reason : Option Text) (connection : Connection J M H)
      → (self.handler.on_disconnect reason connection).0.context ≡ connection.context

  pub disconnect-IsOver :
      (others : ℕ) (stop : Stop J) (connection : Connection J M H)
      → LeavesContext
      → HasAccount others connection
      → IsOver others stop (disconnect self stop connection)
  unfolding IsOver disconnect HasAccount Context.set_user
  disconnect-IsOver others stop connection leaves held =
      let left =
        Context.release_all_subscriptions self.manager (Context.close connection.context) in
      let (closed, none_left, counted) =
        released-context self.manager others connection.context held in
      let same = leaves (peer_reason stop) (with_context left connection) in
      elim (Bool-cases (clears_user stop)) [
        | inl e ↦
            rw (disconnect, e)
              (
                ap (λ c. c.closed) same ∙ closed,
                ap (λ c. c.info.subscriptions) same ∙ none_left,
                ap (λ c. c.accounting) same ∙ counted,
                λ h. refl,
              )
        | inr e ↦
            rw (disconnect, e)
              (
                ap (λ c. c.closed) same ∙ closed,
                ap (λ c. c.info.subscriptions) same ∙ none_left,
                ap (λ c. c.accounting) same ∙ counted,
                λ h. cc,
              )
      ]
