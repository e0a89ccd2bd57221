-- ===== src/Rpc/Handler/Accounts.antt =====
-- The subscription slots of a connection over the whole life of its handler loop.
use rust_api_stack.Base.{ℕ, inl, inr, List, [], ◌∷◌, if◌then◌else◌, Bool-cases}
use rust_api_stack.Base.Text.{Text}
use rust_api_stack.Auth.{AuthenticatedUser}
use rust_api_stack.Rpc.Context
use rust_api_stack.Rpc.Context.{ConnectionContext, ConnectionManager}
use rust_api_stack.Rpc.Context.Counter.{
  IsAccounted, subscribe-IsAccounted, unsubscribe-IsAccounted, unsubscribe_all-IsAccounted,
}
use rust_api_stack.Rpc.Handler.{
  Connection, MessageHandler, with_context, default_handle_subscribe, default_handle_unsubscribe,
}
use rust_api_stack.Rpc.Handler.Revalidation.{refresh_user}
use rust_api_stack.Rpc.Handler.Lifecycle.{Action}
use rust_api_stack.Rpc.Handler.Loop.{act}
use rust_api_stack.Rpc.Handler.Kept.{Keeps, IsKeptByCallbacks, IsKept, and_then-kept}

module _ {J M H : Type 0} (others : ℕ) where
  -- The slots that the other connections hold, and those of this one, are what is counted.
  unfoldable pub HasAccount : Connection J M H → Type 0
  HasAccount connection = IsAccounted others connection.context

module _ {J M H : Type 0} (others : ℕ) (ops : ConnectionManager J M)
    (handler : MessageHandler J M H) where
  acts-HasAccount :
      (action : Action J) (connection : Connection J M H)
      → HasAccount others connection
      → HasAccount others (with_context (act ops action connection.context) connection)
  unfolding act HasAccount Context.close Context.set_user IsAccounted
  acts-HasAccount Action.close connection held = held
  acts-HasAccount (Action.subscribe topic) connection held =
      subscribe-IsAccounted ops others topic connection.context held
  acts-HasAccount (Action.unsubscribe topic) connection held =
      unsubscribe-IsAccounted ops others topic connection.context held
  acts-HasAccount (Action.set_user user) connection held = held

  refreshes-HasAccount :
      (user : AuthenticatedUser J) (connection : Connection J M H)
      → HasAccount others connection
      → HasAccount others (with_context (refresh_user ops user connection.context) connection)
  unfolding HasAccount refresh_user Context.set_user IsAccounted
  refreshes-HasAccount user connection held = held

  -- The account is kept by the loop where the service's callbacks keep it.
  pub account-IsKept :
      IsKeptByCallbacks (HasAccount others) handler → IsKept (HasAccount others) ops handler
  account-IsKept callbacks = record {
    acts = acts-HasAccount;
    refreshes = refreshes-HasAccount;
    callbacks = callbacks;
  }

  -- The provided callbacks for topics keep it where `authorize_subscribe` does.
  pub default_handle_subscribe-HasAccount :
      ((topic : Text) → Keeps (HasAccount others) (handler.authorize_subscribe topic))
      → (topics : List Text)
      → Keeps (HasAccount others) (default_handle_subscribe ops handler topics)
  unfolding default_handle_subscribe Context.subscribe act
  default_handle_subscribe-HasAccount authorizes [] connection held = held
  default_handle_subscribe-HasAccount authorizes (topic ∷ topics) connection held =
      and_then-kept (HasAccount others) (handler.authorize_subscribe topic connection)
        (λ allowed asked. default_handle_subscribe ops handler topics (
          if allowed
          then with_context (Context.subscribe ops topic asked.context).0 asked
          else asked))
        (authorizes topic connection held)
        (λ allowed asked left.
          default_handle_subscribe-HasAccount authorizes topics
            (if allowed
              then with_context (Context.subscribe ops topic asked.context).0 asked
              else asked)
            (elim (Bool-cases allowed) [
              | inl e ↦ rw e (acts-HasAccount (Action.subscribe topic) asked left)
              | inr e ↦ rw e left
            ]))

  pub default_handle_unsubscribe-HasAccount :
      (topics : List Text)
      → Keeps (HasAccount others) (default_handle_unsubscribe ops handler topics)
  unfolding default_handle_unsubscribe HasAccount
  default_handle_unsubscribe-HasAccount topics connection held =
      unsubscribe_all-IsAccounted ops others topics connection.context held
