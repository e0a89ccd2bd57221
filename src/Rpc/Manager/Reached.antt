-- ===== src/Rpc/Manager/Reached.antt =====
-- The index of topics under any sequence of calls that do not overlap.
use rust_api_stack.Base.{◌≡◌, refl, Option, none, [], nat_eq}
use rust_api_stack.Base.Text.{Text, Text-eq}
use rust_api_stack.Base.HashMap.{get}
use rust_api_stack.Auth.{AuthenticatedUser}
use rust_api_stack.Rpc.Manager.{
  ConnectionId, ConnectionInfo, Manager, topic_connections, with_subscription_limits,
  add_connection, remove_connection, put_user, add_subscription, remove_subscription,
  SubscriptionLimits,
}
use rust_api_stack.Rpc.Manager.Index.{
  listed, topics_of, subscribed, IsIndexed, remove_connection-IsIndexed, add_connection-IsIndexed,
  put_user-IsIndexed, add_subscription-IsIndexed, remove_subscription-IsIndexed,
}

module _ {J S : Type 0} where
  -- The states that the calls reach from an empty manager one after the other. A connection comes with a
  -- new ID and no topics, as `ConnectionInfo::new` makes it.
  pub data IsReached (limits : SubscriptionLimits) : Manager J S → Type 0 where
    start : IsReached limits (with_subscription_limits limits)
    added :
        {m : Manager J S} (info : ConnectionInfo J) (sender : S)
        → get info.id m.connections ≡ none
        → info.subscriptions ≡ []
        → IsReached limits m
        → IsReached limits (add_connection info sender m)
    removed :
        {m : Manager J S} (id : ConnectionId)
        → IsReached limits m
        → IsReached limits (remove_connection id m).0
    user_put :
        {m : Manager J S} (id : ConnectionId) (user : Option (AuthenticatedUser J))
        → IsReached limits m
        → IsReached limits (put_user id user m)
    subscribed_to :
        {m : Manager J S} (id : ConnectionId) (topic : Text)
        → IsReached limits m
        → IsReached limits (add_subscription id topic m).0
    unsubscribed_from :
        {m : Manager J S} (id : ConnectionId) (topic : Text)
        → IsReached limits m
        → IsReached limits (remove_subscription id topic m)

  -- Between calls that do not overlap, where each connection comes with a new ID and no topics, the
  -- index lists a connection under a topic exactly when it is there and subscribed to it.
  pub reached-IsIndexed :
      (limits : SubscriptionLimits) (m : Manager J S) → IsReached limits m → IsIndexed m
  unfolding IsIndexed listed subscribed topics_of topic_connections with_subscription_limits get
  reached-IsIndexed limits _ start = λ id topic. refl
  reached-IsIndexed limits _ (added {m} info sender fresh bare reached) =
      add_connection-IsIndexed info sender m fresh bare (reached-IsIndexed limits m reached)
  reached-IsIndexed limits _ (removed {m} id reached) =
      remove_connection-IsIndexed id m (reached-IsIndexed limits m reached)
  reached-IsIndexed limits _ (user_put {m} id user reached) =
      put_user-IsIndexed id user m (reached-IsIndexed limits m reached)
  reached-IsIndexed limits _ (subscribed_to {m} id topic reached) =
      add_subscription-IsIndexed id topic m (reached-IsIndexed limits m reached)
  reached-IsIndexed limits _ (unsubscribed_from {m} id topic reached) =
      remove_subscription-IsIndexed id topic m (reached-IsIndexed limits m reached)
