-- ===== src/Rpc/Handler/Lifecycle.antt =====
-- `Lifecycle`, `Stop` and `Interrupt` of
-- crates/rpc/bidirectional/ras-jsonrpc-bidirectional-server/src/handler/mod.rs. The end of a wait is an
-- input: what other tasks have done to the connection's context, the time then, and whether the timer
-- of the re-validation has ticked.
use rust_api_stack.Base.{
  ℕ, ◌+◌, Bool, ◌&&◌, Option, none, some, List, leb, eqb, if◌then◌else◌, is_some, Result,
}
use rust_api_stack.Base.Text.{Text}
use rust_api_stack.Auth.{AuthError, AuthenticatedUser}
use rust_api_stack.Rpc.Server.{ServerError}

pub data Stop (J : Type 0) : Type 0 where
  ended : Stop J
  peer_closed : Option Text → Stop J
  disconnected : Stop J
  revoked : Stop J
  idle : Stop J
  failed : ServerError J → Stop J

pub data Interrupt : Type 0 where
  closed revalidate idle : Interrupt

-- What another task does through its clone of the context or of the sender.
pub data Action (J : Type 0) : Type 0 where
  close : Action J
  subscribe unsubscribe : Text → Action J
  set_user : Option (AuthenticatedUser J) → Action J

-- The end of one wait. The answer is what the auth provider would say to the connection's token.
pub record Wake (J : Type 0) : Type 0 where
  pub actions : List (Action J)
  pub now : ℕ
  pub tick : Bool
  pub answer : Result AuthError (AuthenticatedUser J)

pub record Lifecycle : Type 0 where
  pub revalidation : Bool
  pub idle_timeout : Option ℕ
  pub idle_deadline : ℕ

-- A zero timeout is none.
unfoldable pub new_lifecycle : Bool → Option ℕ → ℕ → Lifecycle
new_lifecycle revalidation timeout now = record {
  revalidation = revalidation;
  idle_timeout = elim timeout [
    | none ↦ none
    | some duration ↦ (if eqb duration 0 then none else some duration)
  ];
  idle_deadline = elim timeout [ none ↦ now | some duration ↦ now + duration ];
}

unfoldable pub touch : ℕ → Lifecycle → Lifecycle
touch now life = elim life.idle_timeout [
  | none ↦ life
  | some timeout ↦ record life { idle_deadline = now + timeout }
]

-- The first of the three that is ready, if any is.
unfoldable pub next_interrupt :
    {J : Type 0} → (is_closed watch_idle : Bool) → Lifecycle → Wake J → Option Interrupt
next_interrupt is_closed watch_idle life wake =
    if is_closed
    then some Interrupt.closed
    else if life.revalidation && wake.tick
    then some revalidate
    else if (watch_idle && is_some life.idle_timeout) && leb life.idle_deadline wake.now
    then some Interrupt.idle
    else none
