-- ===== src/Rpc/Handler/Revalidation.antt =====
-- `revalidate_credentials` of
-- crates/rpc/bidirectional/ras-jsonrpc-bidirectional-server/src/handler/mod.rs, with the policy of
-- handler/config.rs. What other tasks do to the context while the provider or `authorize_subscribe`
-- is awaited is not an input: a re-validation is one step, but for what the callbacks do.
use rust_api_stack.Base.{
  Bool, true, false, not, ◌&&◌, ◌||◌, Option, none, some, List, [], ◌∷◌, all, contains,
  if◌then◌else◌, Result, ok, err,
}
use rust_api_stack.Base.Text.{Text, Text-eq, text_eq}
use rust_api_stack.Auth.{AuthError, AuthenticatedUser}
use rust_api_stack.Rpc.Context
use rust_api_stack.Rpc.Context.{ConnectionContext, ConnectionManager}
use rust_api_stack.Rpc.Handler.{Callback, MessageHandler, and_then, with_context}

pub data PermissionChangePolicy : Type 0 where
  drop_subscriptions close : PermissionChangePolicy

unfoldable pub is_close : PermissionChangePolicy → Bool
is_close drop_subscriptions = false
is_close close = true

-- Equality of hash sets.
unfoldable pub same_set : List Text → List Text → Bool
same_set a b = all (contains b) a && all (contains a) b

module _ {J : Type 0} where
  unfoldable pub permissions_changed : Option (AuthenticatedUser J) → AuthenticatedUser J → Bool
  permissions_changed none user = true
  permissions_changed (some previous) user =
      not (same_set previous.permissions user.permissions)
      || not (text_eq previous.user_id user.user_id)

module _ {J M : Type 0} (ops : ConnectionManager J M) where
  -- In the context, and in the handler's manager: service.rs gives one and the same to the handler
  -- and to the policy of the context.
  unfoldable pub refresh_user : AuthenticatedUser J → ConnectionContext J M → ConnectionContext J M
  refresh_user user context = record (Context.set_user (some user) context) {
    manager = elim context.manager [
      | none ↦ none
      | some m ↦ some (ops.set_connection_user context.id user m)
    ];
  }

module _ {J M H : Type 0} (ops : ConnectionManager J M) (handler : MessageHandler J M H) where
  -- The loop over a snapshot of the subscriptions.
  unfoldable pub reauthorize : List Text → Callback J M H Bool
  reauthorize [] connection = (connection, ok true)
  reauthorize (topic ∷ topics) connection =
      and_then (handler.authorize_subscribe topic connection) (λ allowed asked. reauthorize topics (
        if allowed
        then asked
        else with_context (Context.unsubscribe ops topic asked.context) asked))

  -- What the provider answers to the token of the connection is given.
  unfoldable pub revalidate_credentials :
      PermissionChangePolicy → Result AuthError (AuthenticatedUser J) → Callback J M H Bool
  revalidate_credentials policy (err e) connection = (connection, ok false)
  revalidate_credentials policy (ok user) connection =
      let refreshed = with_context (refresh_user ops user connection.context) connection in
      if permissions_changed connection.context.info.user user && is_close policy
      then (refreshed, ok false)
      else reauthorize refreshed.context.info.subscriptions refreshed
