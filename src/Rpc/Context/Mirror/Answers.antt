-- ===== src/Rpc/Context/Mirror/Answers.antt =====
-- What the default manager answers for a connection that it has, and what it has then.
use rust_api_stack.Base.{
  ◌≡◌, refl, ◌⊎◌, inl, inr, true, false, not, ◌&&◌, ◌||◌, some, arith, ltb, leb, length, contains,
  is_empty, nat_eq, ok, err, Bool-cases,
}
use rust_api_stack.Base.Text.{Text, Text-eq, bytes, text_eq, text_eq_iff}
use rust_api_stack.Rpc.Context.Counter.{contains-without}
use rust_api_stack.Base.HashMap.{get, insert, get-insert_self}
use rust_api_stack.Rpc.Manager
use rust_api_stack.Rpc.Manager.{
  ConnectionId, ConnectionInfo, BidirectionalError, put_user, enter, add_subscription,
  remove_subscription, remove_from_index, fetch_add, fetch_sub,
}
use rust_api_stack.Rpc.Manager.Index.{connections-remove_from_index}
use rust_api_stack.Rpc.Context.{}

module _ {J : Type 0} where
  pub contains-subscribe :
      (topic name : Text) (info : ConnectionInfo J)
      → contains (Manager.subscribe topic info).subscriptions name
        ≡ (text_eq topic name || contains info.subscriptions name)
  unfolding Manager.subscribe
  contains-subscribe topic name info = ground (arith, text_eq_iff topic name)

  pub contains-unsubscribed :
      (topic name : Text) (info : ConnectionInfo J)
      → contains (Manager.unsubscribe topic info).subscriptions name
        ≡ (not (text_eq topic name) && contains info.subscriptions name)
  unfolding Manager.unsubscribe
  contains-unsubscribed topic name info = contains-without topic name info.subscriptions

module _ {J S : Type 0} where
  -- What the manager answers, and what it has then.
  pub add_subscription-answer :
      (id : ConnectionId) (topic : Text) (m : Manager.Manager J S) (info : ConnectionInfo J)
      (sender : S)
      → get id m.connections ≡ some (info, sender)
      → contains info.subscriptions topic ≡ false
      → (((add_subscription id topic m).1 ≡ ok tt)
          × (get id (add_subscription id topic m).0.connections
              ≡ some (Manager.subscribe topic info, sender)))
        ⊎ ((e : BidirectionalError) × ((add_subscription id topic m).1 ≡ err e)
            × (get id (add_subscription id topic m).0.connections ≡ some (info, sender)))
  unfolding add_subscription enter
  add_subscription-answer id topic m info sender e new =
      elim (Bool-cases (is_empty topic || ltb m.limits.max_topic_length (length (bytes topic)))) [
        | inl long ↦ rw (add_subscription, long) (inr (_, refl, e))
        | inr fits ↦
            elim (Bool-cases (leb m.limits.max_topics_per_connection (length info.subscriptions))) [
              | inl full ↦ rw (add_subscription, fits, e, new, full) (inr (_, refl, e))
              | inr free ↦
                  elim (Bool-cases (
                    ltb 0 m.limits.max_total_subscriptions
                    && leb m.limits.max_total_subscriptions m.total_subscriptions)) [
                      | inl over ↦
                          rw (add_subscription, fits, e, new, free, over) (inr (_, refl, e))
                      | inr under ↦
                          rw (add_subscription, fits, e, new, free, under)
                            (inl (
                              refl,
                              get-insert_self id (Manager.subscribe topic info, sender)
                                  m.connections,
                            ))
                    ]
            ]
      ]

  pub remove_subscription-answer :
      (id : ConnectionId) (topic : Text) (m : Manager.Manager J S) (info : ConnectionInfo J)
      (sender : S)
      → get id m.connections ≡ some (info, sender)
      → contains info.subscriptions topic ≡ true
      → get id (remove_subscription id topic m).connections
        ≡ some (Manager.unsubscribe topic info, sender)
  unfolding remove_subscription
  remove_subscription-answer id topic m info sender e there =
      let kept = record m {
        connections = insert id (Manager.unsubscribe topic info, sender) m.connections;
      } in
      rw (remove_subscription, e, there, connections-remove_from_index id topic kept)
        (get-insert_self id (Manager.unsubscribe topic info, sender) m.connections)
