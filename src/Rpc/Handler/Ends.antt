-- ===== src/Rpc/Handler/Ends.antt =====
-- How the handler loop ends.
use rust_api_stack.Base.{
  ℕ, suc, ◌≡◌, refl, sym, ap, subst, ◌∙◌, inl, inr, Bool, true, false, Option, some, List, [], ◌∷◌,
  any, Bool-cases, Result-cases, err,
}
use rust_api_stack.Base.Text.{Text}
use rust_api_stack.Rpc.Server.{ServerResult}
use rust_api_stack.Rpc.Wire.{BidirectionalMessage, text_message}
use rust_api_stack.Rpc.Handler.Returned.{IsUnencodable, Shows, step-Shows}
use rust_api_stack.Rpc.Context
use rust_api_stack.Rpc.Context.{ConnectionContext, ConnectionManager}
use rust_api_stack.Rpc.Handler.{Connection, with_context}
use rust_api_stack.Rpc.Handler.Lifecycle.{Stop, disconnected, next_interrupt}
use rust_api_stack.Rpc.Handler.Loop.{
  WebSocketHandler, Running, Round, Outcome, going, stopped, returned, supervise, write,
  on_connection, act_all, woken, interrupted, step, rounds,
}
use rust_api_stack.Rpc.Handler.Run.{
  Schedule, clears_user, peer_reason, disconnect, teardown, serve, run,
}
use rust_api_stack.Rpc.Handler.Kept.{IsKeptByCallbacks}
use rust_api_stack.Rpc.Handler.Kept.Rounds.{Holds, serve-kept}
use rust_api_stack.Rpc.Handler.Accounts.{HasAccount, account-IsKept}
use rust_api_stack.Rpc.Handler.Teardown.{
  closes, act_all-closes, teardown-connection, IsOver, LeavesContext, disconnect-IsOver,
}

module _ {J M H S : Type 0} (self : WebSocketHandler J M H S) where
  -- When any task closes the connection's sender before an event is picked, the loop stops with that
  -- round, whatever else is due or ready then: the event is not looked at, and neither are the rest.
  pub rounds-disconnected :
      (round : Round J) (later : List (Round J)) (running : Running J M H S)
      → closes self.manager round.wake.actions ≡ true
      → rounds self (round ∷ later) running
        ≡ stopped (woken self round.wake running) disconnected true
  unfolding rounds step woken next_interrupt interrupted act_all
  rounds-disconnected round later running closing =
      let closed =
        act_all-closes self.manager round.wake.actions running.connection.context closing in
      rw (rounds, step, closed) refl

  -- Whether the sender is closed before one of the events is picked.
  abbrev pub is_closed_in : List (Round J) → Bool
  is_closed_in events = any (λ round. closes self.manager round.wake.actions) events

  rounds-Shows :
      (events : List (Round J)) (running : Running J M H S)
      → is_closed_in events ≡ true
      → Shows ⊥ self.codec (rounds self events running)
  unfolding rounds
  rounds-Shows [] running closing = cc
  rounds-Shows (round ∷ events) running closing =
      elim (Bool-cases (closes self.manager round.wake.actions)) [
        | inl now ↦ rw (rounds-disconnected round events running now) tt
        | inr later ↦
            turned (step self round running) refl (step-Shows self round running)
              (λ after. rounds-Shows events after (rw later at closing))
      ]
    where
      turned :
          (outcome : Outcome J M H S)
          → step self round running ≡ outcome
          → Shows Unit self.codec outcome
          → ((after : Running J M H S) → Shows ⊥ self.codec (rounds self events after))
          → Shows ⊥ self.codec (rounds self (round ∷ events) running)
      turned (going after) e shown next = rw (rounds, e) (next after)
      turned (stopped after stop socket_ok) e shown next = rw (rounds, e) tt
      turned (returned after bad) e shown next = rw (rounds, e) shown

  -- A loop whose sender is closed at some time is left.
  pub serve-Shows :
      (schedule : Schedule J) (running : Running J M H S)
      → is_closed_in schedule.events ≡ true
      → Shows ⊥ self.codec (serve self schedule running)
  unfolding serve
  serve-Shows schedule running closing =
      let work = on_connection self self.handler.on_connect in
      let greeted = supervise self false schedule.connecting work running in
      let established =
        BidirectionalMessage.connection_established greeted.0.connection.context.id in
      elim (Result-cases greeted.1) [
        | inr (stop, e) ↦ rw (serve, e) tt
        | inl (logged, e) ↦ elim (Result-cases (text_message self.codec established)) [
          | inr (bad, t) ↦ rw (serve, e, t) (established, t)
          | inl (frame, t) ↦
              let sent = write self schedule.establishing frame greeted.0 in
              elim (Result-cases sent.1) [
                | inr (stop, w) ↦ rw (serve, e, t, w) tt
                | inl (done, w) ↦ rw (serve, e, t, w) (rounds-Shows schedule.events sent.0 closing)
              ]
        ]
      ]

  -- How `run` is over: the loop stopped and the connection is at its end, or a message could not be
  -- encoded, and the connection is left as the loop had it.
  abbrev pub IsEnd : ℕ → Outcome J M H S → Running J M H S → ServerResult J (Unit {0}) → Type 0
  IsEnd others (going after) last result = ⊥
  IsEnd others (stopped after stop socket_ok) last result = IsOver others stop last.connection
  IsEnd others (returned after e) last result =
      IsUnencodable self.codec e × (result ≡ err e) × HasAccount others last.connection

  -- Where the callbacks of a service keep the account of subscription slots, and `on_disconnect`
  -- leaves the context as it finds it, take a connection that is accepted with its account in order,
  -- and whose sender some task closes before one of the events is picked. Then `run` returns, whatever
  -- the callbacks answer and the socket does. Unless it returned the error of a message that could not
  -- be encoded, with the account still in order, the sender is closed, no topic is held, every slot is
  -- given back to the service exactly once, and a disconnect or a revocation leaves no user.
  pub run-IsOver :
      (others : ℕ) (schedule : Schedule J) (running : Running J M H S)
      → IsKeptByCallbacks (HasAccount others) self.handler
      → LeavesContext self
      → HasAccount others running.connection
      → is_closed_in schedule.events ≡ true
      → (last : Running J M H S) × (result : ServerResult J (Unit {0})) × (run self schedule running
          ≡ some (last, result))
        × IsEnd others (serve self schedule running) last result
  unfolding run
  run-IsOver others schedule running callbacks leaves held closing =
      left (serve self schedule running) refl (serve-Shows schedule running closing)
        (serve-kept (HasAccount others) self
          (account-IsKept others self.manager self.handler callbacks) schedule running held)
        (λ stop after kept. disconnect-IsOver self others stop after leaves kept)
    where
      left :
          (outcome : Outcome J M H S)
          → serve self schedule running ≡ outcome
          → Shows ⊥ self.codec outcome
          → Holds (HasAccount others) outcome
          → ((stop : Stop J) (connection : Connection J M H)
              → HasAccount others connection
              → IsOver others stop (disconnect self stop connection))
          → (last : Running J M H S) × (result : ServerResult J (Unit {0})) × (run self schedule
                running
              ≡ some (last, result))
            × IsEnd others outcome last result
      left (going after) e shown kept over = elim shown [ ]
      left (returned after bad) e shown kept over =
          (after, err bad, rw (run, e) refl, (shown, refl, kept))
      left (stopped after stop socket_ok) e shown kept over =
          let (last, result) = teardown self schedule stop socket_ok after in
          (
            last,
            result,
            rw (run, e) refl,
            subst (IsOver others stop)
                (sym (teardown-connection self schedule stop socket_ok after))
                (over stop after.connection kept),
          )

module _ {J M H : Type 0} (calls : H → ℕ) where
  -- How often a callback has been called.
  abbrev pub HasCalls : ℕ → Connection J M H → Type 0
  HasCalls n connection = calls connection.service ≡ n

module _ {J M H S : Type 0} (self : WebSocketHandler J M H S) (calls : H → ℕ) where
  disconnect-calls :
      ((reason : Option Text) (connection : Connection J M H)
        → calls (self.handler.on_disconnect reason connection).0.service
          ≡ suc (calls connection.service))
      → (stop : Stop J) (connection : Connection J M H)
      → calls (disconnect self stop connection).service ≡ suc (calls connection.service)
  unfolding disconnect
  disconnect-calls counts stop connection =
      let left =
        Context.release_all_subscriptions self.manager (Context.close connection.context) in
      let counted = counts (peer_reason stop) (with_context left connection) in
      elim (Bool-cases (clears_user stop)) [
        | inl e ↦ rw (disconnect, e) counted
        | inr e ↦ rw (disconnect, e) counted
      ]

  -- A service that counts the calls of `on_disconnect` has seen exactly one more for a connection
  -- whose loop stopped, whatever the reason, the events and the other callbacks were.
  pub run-disconnects_once :
      (schedule : Schedule J) (running : Running J M H S)
      → ((n : ℕ) → IsKeptByCallbacks (HasCalls calls n) self.handler)
      → ((reason : Option Text) (connection : Connection J M H)
          → calls (self.handler.on_disconnect reason connection).0.service
            ≡ suc (calls connection.service))
      → (after : Running J M H S) (stop : Stop J) (socket_ok : Bool)
      → serve self schedule running ≡ stopped after stop socket_ok
      → (last : Running J M H S) × (result : ServerResult J (Unit {0})) × (run self schedule running
          ≡ some (last, result))
        × (calls last.connection.service ≡ suc (calls running.connection.service))
  unfolding run
  run-disconnects_once schedule running others counts after stop socket_ok e =
      let (last, result) = teardown self schedule stop socket_ok after in
      let before = subst (Holds (HasCalls calls (calls running.connection.service))) e (
        serve-kept (HasCalls calls (calls running.connection.service)) self
          (record {
            acts = λ action connection kept. kept;
            refreshes = λ user connection kept. kept;
            callbacks = others (calls running.connection.service);
          })
          schedule running refl) in
      (
        last,
        result,
        rw (run, e) refl,
        ap (λ c. calls c.service) (teardown-connection self schedule stop socket_ok after)
            ∙ disconnect-calls counts stop after.connection
            ∙ ap suc before,
      )
