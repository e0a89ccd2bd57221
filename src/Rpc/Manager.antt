-- ===== src/Rpc/Manager.antt =====
-- crates/rpc/bidirectional/ras-jsonrpc-bidirectional-server/src/manager.rs and subscriptions.rs, with
-- `ConnectionInfo` of ras-jsonrpc-bidirectional-types/src/connection.rs. An operation that holds the
-- entry guard of its connection is one step; `remove_connection` is several (Interleaved). An ID is
-- the number that a UUID is; `J` is serde_json's value type, `S` the senders of channels. Sending is
-- not modelled.
pub mod Cases
pub mod Index
pub mod Reached
pub mod Interleaved
pub mod Size
pub mod Count
pub mod Examples
use rust_api_stack.Base.{
  ℕ, suc, ◌+◌, ◌-◌, ◌%◌, ◌≤◌, String, Bool, true, false, not, ◌&&◌, ◌||◌, Option, none, some, List,
  [], ◌∷◌, ◌++◌, map, ltb, leb, eqb, if◌then◌else◌, length, filter, contains, is_empty, nat_eq, Eq,
  Result, ok, err,
}
use rust_api_stack.Base.Text.{Text, Text-eq, text_eq, bytes}
use rust_api_stack.Base.HashMap.{HashMap, get, insert, remove}
use rust_api_stack.Base.Int.{ℤ}
use rust_api_stack.Auth.{AuthenticatedUser}

abbrev pub ConnectionId : Type 0
ConnectionId = ℕ

pub record SubscriptionLimits : Type 0 where
  pub max_topics_per_message : ℕ
  pub max_topics_per_connection : ℕ
  pub max_topic_length : ℕ
  pub max_total_subscriptions : ℕ

abbrev pub default_limits : SubscriptionLimits
default_limits = record {
  max_topics_per_message = 64;
  max_topics_per_connection = 256;
  max_topic_length = 256;
  max_total_subscriptions = 100000;
}

pub record ConnectionInfo (J : Type 0) : Type 0 where
  pub id : ConnectionId
  pub user : Option (AuthenticatedUser J)
  pub subscriptions : List Text
  pub metadata : J
  pub connected_at : ℤ

pub data BidirectionalError : Type 0 where
  connection_not_found : ConnectionId → BidirectionalError
  connection_already_exists : ConnectionId → BidirectionalError
  send_error : Text → BidirectionalError
  broadcast_error : (topic reason : Text) → BidirectionalError
  authentication_required : BidirectionalError
  permission_denied : Text → BidirectionalError
  invalid_topic : String → BidirectionalError
  subscription_limit_reached : String → BidirectionalError
  connection_closed : BidirectionalError
  serialization_error : Text → BidirectionalError
  websocket_error : Text → BidirectionalError
  internal_error : Text → BidirectionalError
  custom : Text → BidirectionalError
  connection_error : Text → BidirectionalError
  timeout : BidirectionalError
  rpc_error : Text → BidirectionalError
  invalid_response : Text → BidirectionalError

pub record Manager (J S : Type 0) : Type 0 where
  pub connections : HashMap ConnectionId (ConnectionInfo J × S)
  pub subscriptions : HashMap Text (List ConnectionId)
  pub total_subscriptions : ℕ
  pub limits : SubscriptionLimits
  pub pending_requests : HashMap ConnectionId (HashMap J S)

-- An `AtomicUsize` wraps around.
unfoldable pub fetch_add : ℕ → ℕ → ℕ
fetch_add total count = (total + count) % 18446744073709551616

unfoldable pub fetch_sub : ℕ → ℕ → ℕ
fetch_sub total count =
    (total + (18446744073709551616 - count % 18446744073709551616)) % 18446744073709551616

-- The entry of a topic, or none of its connections.
unfoldable pub topic_connections : Text → HashMap Text (List ConnectionId) → List ConnectionId
topic_connections topic index = elim (get topic index) [ none ↦ [] | some ids ↦ ids ]

module _ {J : Type 0} where
  -- The methods of `ConnectionInfo` on its set of topics.
  unfoldable pub subscribe : Text → ConnectionInfo J → ConnectionInfo J
  subscribe topic info =
      if contains info.subscriptions topic
      then info
      else record info { subscriptions = topic ∷ info.subscriptions }

  unfoldable pub unsubscribe : Text → ConnectionInfo J → ConnectionInfo J
  unsubscribe topic info = record info {
    subscriptions = filter (λ other. not (text_eq other topic)) info.subscriptions;
  }

module _ {J S : Type 0} where
  unfoldable pub with_subscription_limits : SubscriptionLimits → Manager J S
  with_subscription_limits limits = record {
    connections = [];
    subscriptions = [];
    total_subscriptions = 0;
    limits = limits;
    pending_requests = [];
  }

  -- `retain` the others, count what went, and drop the entry when it is empty.
  unfoldable pub remove_from_index : ConnectionId → Text → Manager J S → Manager J S
  remove_from_index id topic m = elim (get topic m.subscriptions) [
    | none ↦ m
    | some ids ↦
        let kept = filter (λ other. not (eqb other id)) ids in
        record m {
          subscriptions =
              (if is_empty kept
                then remove topic m.subscriptions
                else insert topic kept m.subscriptions);
          total_subscriptions = fetch_sub m.total_subscriptions (length ids - length kept);
        }
  ]

  -- `get_topic_connections`.
  unfoldable pub get_topic_connections : Text → Manager J S → List ConnectionId
  get_topic_connections topic m = topic_connections topic m.subscriptions

  -- `add_connection_with_sender_direct`.
  unfoldable pub add_connection : ConnectionInfo J → S → Manager J S → Manager J S
  add_connection info sender m = record m {
    connections = insert info.id (info, sender) m.connections;
  }

  -- The loop over the topics of a connection that is gone.
  unfoldable pub remove_topics : ConnectionId → List Text → Manager J S → Manager J S
  remove_topics id [] m = m
  remove_topics id (topic ∷ topics) m = remove_topics id topics (remove_from_index id topic m)

  -- The steps of `remove_connection` for a connection that is there, each under a guard of its own:
  -- its entry goes, then the index, topic by topic, and last its pending requests.
  abbrev pub take_connection : ConnectionId → Manager J S → Manager J S
  take_connection id m = record m { connections = remove id m.connections }

  abbrev pub drop_requests : ConnectionId → Manager J S → Manager J S
  drop_requests id m = record m { pending_requests = remove id m.pending_requests }

  -- With the sender that is closed, where no other call comes between the steps.
  unfoldable pub remove_connection : ConnectionId → Manager J S → Manager J S × Option S
  remove_connection id m = elim (get id m.connections) [
    | none ↦ (m, none)
    | some (info, sender) ↦
        (drop_requests id (remove_topics id info.subscriptions (take_connection id m)), some sender)
  ]

  -- What `set_user` or `clear_user` leaves.
  unfoldable pub put_user : ConnectionId → Option (AuthenticatedUser J) → Manager J S → Manager J S
  put_user id user m = elim (get id m.connections) [
    | none ↦ m
    | some (info, sender) ↦ record m {
      connections = insert id (record info { user = user }, sender) m.connections;
    }
  ]

  -- From the reserved slot on: the connection and the index.
  unfoldable pub enter : ConnectionId → Text → ConnectionInfo J → S → Manager J S → Manager J S
  enter id topic info sender m = record m {
    connections = insert id (subscribe topic info, sender) m.connections;
    subscriptions =
        insert topic (topic_connections topic m.subscriptions ++ id ∷ []) m.subscriptions;
    total_subscriptions = fetch_add m.total_subscriptions 1;
  }

  unfoldable pub add_subscription :
      ConnectionId → Text → Manager J S → Manager J S × Result BidirectionalError (Unit {0})
  add_subscription id topic m =
      if is_empty topic || ltb m.limits.max_topic_length (length (bytes topic))
      then (m, err (invalid_topic "topic name length out of range"))
      else elim (get id m.connections) [
        | none ↦ (m, ok tt)
        | some (info, sender) ↦
            if contains info.subscriptions topic
            then (m, ok tt)
            else if leb m.limits.max_topics_per_connection (length info.subscriptions)
            then (
              m,
              err (subscription_limit_reached "subscription limit for this connection reached"),
            )
            else if ltb 0 m.limits.max_total_subscriptions
                && leb m.limits.max_total_subscriptions m.total_subscriptions
            then (
              record m { total_subscriptions = fetch_sub (fetch_add m.total_subscriptions 1) 1 },
              err (subscription_limit_reached "global subscription limit reached"),
            )
            else (enter id topic info sender m, ok tt)
      ]

  unfoldable pub remove_subscription : ConnectionId → Text → Manager J S → Manager J S
  remove_subscription id topic m = elim (get id m.connections) [
    | none ↦ remove_from_index id topic m
    | some (info, sender) ↦
        if contains info.subscriptions topic
        then remove_from_index id topic
            (record m { connections = insert id (unsubscribe topic info, sender) m.connections })
        else m
  ]

  -- `get_subscribed_connections`: those of the topic's connections that are still there.
  unfoldable pub present : Manager J S → List ConnectionId → List (ConnectionInfo J)
  present m [] = []
  present m (id ∷ ids) =
      let rest = present m ids in
      elim (get id m.connections) [ none ↦ rest | some (info, sender) ↦ info ∷ rest ]

  unfoldable pub get_subscribed_connections : Text → Manager J S → List (ConnectionInfo J)
  get_subscribed_connections topic m = present m (get_topic_connections topic m)

module _ {J S : Type 0} ⦃eq : Eq J⦄ where
  unfoldable pub register_pending_request : ConnectionId → J → S → Manager J S → Manager J S
  register_pending_request id request sender m = elim (get id m.pending_requests) [
    | none ↦ record m { pending_requests = insert id ((request, sender) ∷ []) m.pending_requests }
    | some requests ↦ record m {
      pending_requests = insert id (insert request sender requests) m.pending_requests;
    }
  ]

  -- The entry of a connection goes with its last request.
  unfoldable pub remove_pending_request : ConnectionId → J → Manager J S → Manager J S × Option S
  remove_pending_request id request m = elim (get id m.pending_requests) [
    | none ↦ (m, none)
    | some requests ↦ (
      (let left = remove request requests in
          record m {
            pending_requests =
                (if is_empty left
                  then remove id m.pending_requests
                  else insert id left m.pending_requests);
          }),
      get request requests,
    )
  ]
