-- ===== src/Rpc/Manager/Count.antt =====
-- The counter of subscriptions, and the limit on all of them.
use rust_api_stack.Base.{
  ◌+◌, ◌%◌, ◌≤◌, ◌<◌, ◌≡◌, refl, ◌∙◌, ap, sym, subst, inl, inr, not, Option, List, [], ◌∷◌, ◌++◌,
  arith, eqb, length, length-append, length-filter-le, filter, contains, is_empty, nat_eq,
  Bool-cases, Option-cases,
}
use rust_api_stack.Base.Text.{Text, Text-eq}
use rust_api_stack.Base.HashMap.{HashMap, IsMap, get, insert, remove, insert-IsMap, remove-IsMap}
use rust_api_stack.Auth.{AuthenticatedUser}
use rust_api_stack.Rpc.Manager.{
  ConnectionId, ConnectionInfo, Manager, SubscriptionLimits, topic_connections, unsubscribe,
  with_subscription_limits, remove_from_index, add_connection, remove_topics, remove_connection,
  put_user, enter, add_subscription, remove_subscription, fetch_add, fetch_sub,
}
use rust_api_stack.Rpc.Manager.Cases.{IsUnchanged, IsEntered, add_subscription-cases}
use rust_api_stack.Rpc.Manager.Reached.{
  IsReached, start, added, removed, user_put, subscribed_to, unsubscribed_from,
}
use rust_api_stack.Rpc.Manager.Size.{
  size, size-insert, size-remove, fetch_add_mod, fetch_back, shrunk,
}

module _ {J S : Type 0} where
  -- The counter is the number of pairs, as far as a machine word goes.
  unfoldable pub IsCounted : Manager J S → Type 0
  IsCounted m =
      IsMap m.subscriptions × (m.total_subscriptions ≡ size m.subscriptions % 18446744073709551616)

  remove_from_index-shrinks :
      (id : ConnectionId) (topic : Text) (m : Manager J S)
      → IsCounted m
      → IsCounted (remove_from_index id topic m)
        × (size (remove_from_index id topic m).subscriptions ≤ size m.subscriptions)
        × ((remove_from_index id topic m).limits ≡ m.limits)
  unfolding IsCounted remove_from_index topic_connections
  remove_from_index-shrinks id topic m counted = elim (Option-cases (get topic m.subscriptions)) [
    | inl e ↦ rw (remove_from_index, e) (counted, omega arith, refl)
    | inr (ids, e) ↦
        let kept = filter (λ other. not (eqb other id)) ids in
        let less = length-filter-le (λ other. not (eqb other id)) ids in
        let here : topic_connections topic m.subscriptions ≡ ids = rw (topic_connections, e) refl in
        let same_length = ap length here in
        elim (Bool-cases (is_empty kept)) [
          | inl none_left ↦
              let gone : length kept ≡ 0 = ground arith in
              let moved : size (remove topic m.subscriptions) + length ids
                  ≡ size m.subscriptions + length kept =
                omega (arith, size-remove topic m.subscriptions counted.0, same_length, gone) in
              rw (remove_from_index, e, none_left)
                (
                  (
                    remove-IsMap topic m.subscriptions counted.0,
                    shrunk m.total_subscriptions (size m.subscriptions)
                        (size (remove topic m.subscriptions)) (length ids) (length kept) counted.1
                        moved less,
                  ),
                  omega (arith, moved, less),
                  refl,
                )
          | inr some_left ↦
              let moved : size (insert topic kept m.subscriptions) + length ids
                  ≡ size m.subscriptions + length kept =
                omega (arith, size-insert topic kept m.subscriptions, same_length) in
              rw (remove_from_index, e, some_left)
                (
                  (
                    insert-IsMap topic kept m.subscriptions counted.0,
                    shrunk m.total_subscriptions (size m.subscriptions)
                        (size (insert topic kept m.subscriptions)) (length ids) (length kept)
                        counted.1 moved less,
                  ),
                  omega (arith, moved, less),
                  refl,
                )
        ]
  ]

  -- The counter is right, the index is within the limit if there is one, and the limits stay.
  unfoldable pub IsWithin : SubscriptionLimits → Manager J S → Type 0
  IsWithin limits m =
      IsCounted m
      × (m.limits ≡ limits)
      × ((0 < limits.max_total_subscriptions)
          → (limits.max_total_subscriptions < 18446744073709551616)
          → size m.subscriptions ≤ limits.max_total_subscriptions)

  remove_from_index-IsWithin :
      (limits : SubscriptionLimits) (id : ConnectionId) (topic : Text) (m : Manager J S)
      → IsWithin limits m
      → IsWithin limits (remove_from_index id topic m)
  unfolding IsWithin
  remove_from_index-IsWithin limits id topic m (counted, same, within) =
      let (counted', less, same') = remove_from_index-shrinks id topic m counted in
      (counted', same' ∙ same, λ p q. omega (arith, less, within p q))

  remove_topics-IsWithin :
      (limits : SubscriptionLimits) (id : ConnectionId) (topics : List Text) (m : Manager J S)
      → IsWithin limits m
      → IsWithin limits (remove_topics id topics m)
  unfolding remove_topics
  remove_topics-IsWithin limits id [] m within = within
  remove_topics-IsWithin limits id (topic ∷ topics) m within =
      remove_topics-IsWithin limits id topics (remove_from_index id topic m)
        (remove_from_index-IsWithin limits id topic m within)

  -- Only the connections change.
  IsWithin-connections :
      (limits : SubscriptionLimits) (m : Manager J S)
      (connections : HashMap ConnectionId (ConnectionInfo J × S))
      → IsWithin limits m
      → IsWithin limits (record m { connections = connections })
  unfolding IsWithin IsCounted
  IsWithin-connections limits m connections within = within

  IsWithin-pending_requests :
      (limits : SubscriptionLimits) (m : Manager J S) (pending : HashMap ConnectionId (HashMap J S))
      → IsWithin limits m
      → IsWithin limits (record m { pending_requests = pending })
  unfolding IsWithin IsCounted
  IsWithin-pending_requests limits m pending within = within

  add_subscription-IsWithin :
      (limits : SubscriptionLimits) (id : ConnectionId) (topic : Text) (m : Manager J S)
      → IsWithin limits m
      → IsWithin limits (add_subscription id topic m).0
  unfolding IsWithin IsCounted IsUnchanged IsEntered enter
  add_subscription-IsWithin limits id topic m ((map, counted), same, within) =
      elim (add_subscription-cases id topic m) [
        | inl (connections, index, kept, total) ↦
            let back : (add_subscription id topic m).0.total_subscriptions ≡ m.total_subscriptions =
              elim total [
                | inl t ↦ t
                | inr t ↦
                    t
                    ∙ ap (λ n. fetch_sub (fetch_add n 1) 1) counted
                    ∙ fetch_back (size m.subscriptions)
                    ∙ sym counted
              ] in
            (
              (rw index map, back ∙ counted ∙ ap (λ i. size i % 18446744073709551616) (sym index)),
              kept ∙ same,
              λ p q. rw index (within p q),
            )
        | inr (info, sender, e, new, room, total, entered) ↦
            let grown =
              size-insert topic (topic_connections topic m.subscriptions ++ id ∷ [])
                m.subscriptions in
            let one = length-append (topic_connections topic m.subscriptions) (id ∷ []) in
            let more : size (
                  insert topic (topic_connections topic m.subscriptions ++ id ∷ []) m.subscriptions)
                ≡ size m.subscriptions + 1 =
              omega (arith, grown, one) in
            rw entered (
              (
                insert-IsMap topic (topic_connections topic m.subscriptions ++ id ∷ [])
                    m.subscriptions map,
                rw (counted, more) (fetch_add_mod (size m.subscriptions)),
              ),
              same,
              λ p q.
                  let cap =
                    subst
                      (λ l.
                        0 < l.max_total_subscriptions
                        → m.total_subscriptions < l.max_total_subscriptions)
                      same total p in
                  omega (arith, more, counted, cap, within p q, q),
            )
      ]

  remove_connection-IsWithin :
      (limits : SubscriptionLimits) (id : ConnectionId) (m : Manager J S)
      → IsWithin limits m
      → IsWithin limits (remove_connection id m).0
  unfolding remove_connection
  remove_connection-IsWithin limits id m within = elim (Option-cases (get id m.connections)) [
    | inl e ↦ rw (remove_connection, e) within
    | inr ((info, sender), e) ↦
        rw (remove_connection, e)
          (IsWithin-pending_requests limits
            (remove_topics id info.subscriptions
              (record m { connections = remove id m.connections }))
            _
            (remove_topics-IsWithin limits id info.subscriptions
              (record m { connections = remove id m.connections })
              (IsWithin-connections limits m (remove id m.connections) within)))
  ]

  remove_subscription-IsWithin :
      (limits : SubscriptionLimits) (id : ConnectionId) (topic : Text) (m : Manager J S)
      → IsWithin limits m
      → IsWithin limits (remove_subscription id topic m)
  unfolding remove_subscription
  remove_subscription-IsWithin limits id topic m within =
      elim (Option-cases (get id m.connections)) [
        | inl e ↦ rw (remove_subscription, e) (remove_from_index-IsWithin limits id topic m within)
        | inr ((info, sender), e) ↦ elim (Bool-cases (contains info.subscriptions topic)) [
          | inr absent ↦ rw (remove_subscription, e, absent) within
          | inl there ↦
              rw (remove_subscription, e, there)
                (remove_from_index-IsWithin limits id topic
                  (record m {
                    connections = insert id (unsubscribe topic info, sender) m.connections;
                  })
                  (IsWithin-connections limits m
                    (insert id (unsubscribe topic info, sender) m.connections) within))
        ]
      ]

  put_user-IsWithin :
      (limits : SubscriptionLimits) (id : ConnectionId) (user : Option (AuthenticatedUser J))
      (m : Manager J S)
      → IsWithin limits m
      → IsWithin limits (put_user id user m)
  unfolding put_user
  put_user-IsWithin limits id user m within = elim (Option-cases (get id m.connections)) [
    | inl e ↦ rw (put_user, e) within
    | inr ((info, sender), e) ↦
        rw (put_user, e)
          (IsWithin-connections limits m
            (insert id (record info { user = user }, sender) m.connections) within)
  ]

  -- Whatever calls came, the counter is the number of pairs in the index, and that number is within
  -- the limit on all subscriptions, where one is set that a machine word holds.
  pub reached-IsWithin :
      (limits : SubscriptionLimits) (m : Manager J S) → IsReached limits m → IsWithin limits m
  unfolding IsWithin IsCounted with_subscription_limits size add_connection
  reached-IsWithin limits _ start = ((tt, refl), refl, λ p q. omega arith)
  reached-IsWithin limits _ (added {m} info sender fresh bare reached) =
      IsWithin-connections limits m (insert info.id (info, sender) m.connections)
        (reached-IsWithin limits m reached)
  reached-IsWithin limits _ (removed {m} id reached) =
      remove_connection-IsWithin limits id m (reached-IsWithin limits m reached)
  reached-IsWithin limits _ (user_put {m} id user reached) =
      put_user-IsWithin limits id user m (reached-IsWithin limits m reached)
  reached-IsWithin limits _ (subscribed_to {m} id topic reached) =
      add_subscription-IsWithin limits id topic m (reached-IsWithin limits m reached)
  reached-IsWithin limits _ (unsubscribed_from {m} id topic reached) =
      remove_subscription-IsWithin limits id topic m (reached-IsWithin limits m reached)
