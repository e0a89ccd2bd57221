-- ===== src/Rpc/Context.antt =====
-- `ConnectionContext` of crates/rpc/bidirectional/ras-jsonrpc-bidirectional-server/src/connection.rs
-- and `SubscriptionAccounting` of subscriptions.rs. A context shares the service's counter and its
-- manager, which may be any implementation of the trait; `M` is the state of one.
pub mod Counter
pub mod Mirror
pub mod Examples
use rust_api_stack.Base.{
  ℕ, Bool, true, false, not, ◌&&◌, ◌||◌, Option, none, some, List, [], ◌∷◌, ltb, leb, if◌then◌else◌,
  length, contains, is_empty, Result, ok, err,
}
use rust_api_stack.Base.Text.{Text, Text-eq, bytes}
use rust_api_stack.Auth.{AuthenticatedUser}
use rust_api_stack.Rpc.Manager
use rust_api_stack.Rpc.Manager.{
  ConnectionId, ConnectionInfo, SubscriptionLimits, BidirectionalError, invalid_topic,
  subscription_limit_reached, fetch_add, fetch_sub,
}

-- What a connection uses of the trait.
pub record ConnectionManager (J M : Type 0) : Type 0 where
  pub add_subscription : ConnectionId → Text → M → M × Result BidirectionalError (Unit {0})
  pub remove_subscription : ConnectionId → Text → M → M
  pub set_connection_user : ConnectionId → AuthenticatedUser J → M → M

-- With the policy, the sender's close signal, and the service's counter.
pub record ConnectionContext (J M : Type 0) : Type 0 where
  pub id : ConnectionId
  pub info : ConnectionInfo J
  pub closed : Bool
  pub limits : SubscriptionLimits
  pub accounting : ℕ
  pub manager : Option M

-- The counter, and whether a slot was reserved.
unfoldable pub reserve : ℕ → ℕ → ℕ × Bool
reserve max total =
    if ltb 0 max && leb max total
    then (fetch_sub (fetch_add total 1) 1, false)
    else (fetch_add total 1, true)

module _ {J M : Type 0} (ops : ConnectionManager J M) where
  -- The topic goes to the manager first, and its slot is given back on a refusal.
  unfoldable pub mirror_and_insert :
      Text → ConnectionContext J M → ConnectionContext J M × Result BidirectionalError (Unit {0})
  mirror_and_insert topic context = elim context.manager [
    | none ↦ (record context { info = Manager.subscribe topic context.info }, ok tt)
    | some m ↦
        let (m', result) = ops.add_subscription context.id topic m in
        elim result [
          | err e ↦ (
            record context { accounting = fetch_sub context.accounting 1; manager = some m' },
            err e,
          )
          | ok done ↦ (
            record context { info = Manager.subscribe topic context.info; manager = some m' },
            ok tt,
          )
        ]
  ]

  unfoldable pub subscribe :
      Text → ConnectionContext J M → ConnectionContext J M × Result BidirectionalError (Unit {0})
  subscribe topic context =
      if is_empty topic || ltb context.limits.max_topic_length (length (bytes topic))
      then (context, err (invalid_topic "topic name length out of range"))
      else if contains context.info.subscriptions topic
      then (context, ok tt)
      else if leb context.limits.max_topics_per_connection (length context.info.subscriptions)
      then (
        context,
        err (subscription_limit_reached "subscription limit for this connection reached"),
      )
      else let (total, reserved) =
          reserve context.limits.max_total_subscriptions context.accounting in
        if reserved then mirror_and_insert topic (record context { accounting = total }) else (
          record context { accounting = total },
          err (subscription_limit_reached "global subscription limit reached"),
        )

  -- The steps of `unsubscribe` for a topic that is held, each under a guard of its own: the context
  -- drops the topic, the counter gives the slot back, and the manager is told.
  abbrev pub drop_topic : Text → ConnectionContext J M → ConnectionContext J M
  drop_topic topic context = record context { info = Manager.unsubscribe topic context.info }

  abbrev pub release : ConnectionContext J M → ConnectionContext J M
  release context = record context { accounting = fetch_sub context.accounting 1 }

  abbrev pub tell_manager : Text → ConnectionContext J M → ConnectionContext J M
  tell_manager topic context = record context {
    manager = elim context.manager [
      | none ↦ none
      | some m ↦ some (ops.remove_subscription context.id topic m)
    ];
  }

  -- Where no other call comes between the steps.
  unfoldable pub unsubscribe : Text → ConnectionContext J M → ConnectionContext J M
  unsubscribe topic context =
      if contains context.info.subscriptions topic
      then tell_manager topic (release (drop_topic topic context))
      else context

  -- The loop over a snapshot of the topics.
  unfoldable pub unsubscribe_all : List Text → ConnectionContext J M → ConnectionContext J M
  unsubscribe_all [] context = context
  unsubscribe_all (topic ∷ topics) context = unsubscribe_all topics (unsubscribe topic context)

  unfoldable pub release_all_subscriptions : ConnectionContext J M → ConnectionContext J M
  release_all_subscriptions context = unsubscribe_all context.info.subscriptions context

module _ {J M : Type 0} where
  unfoldable pub set_user :
      Option (AuthenticatedUser J) → ConnectionContext J M → ConnectionContext J M
  set_user user context = record context { info = record context.info { user = user } }

  -- `close` of the connection's sender.
  unfoldable pub close : ConnectionContext J M → ConnectionContext J M
  close context = record context { closed = true }
