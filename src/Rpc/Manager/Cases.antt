-- ===== src/Rpc/Manager/Cases.antt =====
-- The branches of `add_subscription`.
use rust_api_stack.Base.{
  ◌<◌, ◌⊎◌, ◌≡◌, refl, inl, inr, false, ◌&&◌, ◌||◌, some, arith, ltb, leb, length, contains,
  is_empty, nat_eq, Bool-cases, Option-cases,
}
use rust_api_stack.Base.Text.{Text, Text-eq, bytes}
use rust_api_stack.Base.HashMap.{get}
use rust_api_stack.Rpc.Manager.{
  ConnectionId, ConnectionInfo, Manager, enter, add_subscription, fetch_add, fetch_sub,
}

module _ {J S : Type 0} where
  -- What `add_subscription` leaves: the same connections and index, or the pair entered in both.
  unfoldable pub IsUnchanged : Manager J S → Manager J S → Type 0
  IsUnchanged m m' =
      (m'.connections ≡ m.connections)
      × (m'.subscriptions ≡ m.subscriptions)
      × (m'.limits ≡ m.limits)
      × ((m'.total_subscriptions ≡ m.total_subscriptions)
          ⊎ (m'.total_subscriptions ≡ fetch_sub (fetch_add m.total_subscriptions 1) 1))

  unfoldable pub IsEntered : ConnectionId → Text → Manager J S → Manager J S → Type 0
  IsEntered id topic m m' =
      (info : ConnectionInfo J) × (sender : S) × (get id m.connections ≡ some (info, sender))
      × (contains info.subscriptions topic ≡ false)
      × (length info.subscriptions < m.limits.max_topics_per_connection)
      × ((0 < m.limits.max_total_subscriptions)
          → m.total_subscriptions < m.limits.max_total_subscriptions)
      × (m' ≡ enter id topic info sender m)

  pub add_subscription-cases :
      (id : ConnectionId) (topic : Text) (m : Manager J S)
      → IsUnchanged m (add_subscription id topic m).0
        ⊎ IsEntered id topic m (add_subscription id topic m).0
  unfolding add_subscription IsUnchanged IsEntered
  add_subscription-cases id topic m =
      elim (Bool-cases (is_empty topic || ltb m.limits.max_topic_length (length (bytes topic)))) [
        | inl long ↦ rw (add_subscription, long) (inl (refl, refl, refl, inl refl))
        | inr fits ↦ elim (Option-cases (get id m.connections)) [
          | inl e ↦ rw (add_subscription, fits, e) (inl (refl, refl, refl, inl refl))
          | inr ((info, sender), e) ↦ elim (Bool-cases (contains info.subscriptions topic)) [
            | inl there ↦ rw (add_subscription, fits, e, there) (inl (refl, refl, refl, inl refl))
            | inr new ↦
                elim (Bool-cases
                  (leb m.limits.max_topics_per_connection (length info.subscriptions))) [
                    | inl full ↦
                        rw (add_subscription, fits, e, new, full) (inl (refl, refl, refl, inl refl))
                    | inr free ↦
                        elim (Bool-cases (
                          ltb 0 m.limits.max_total_subscriptions
                          && leb m.limits.max_total_subscriptions m.total_subscriptions)) [
                            | inl over ↦
                                rw (add_subscription, fits, e, new, free, over)
                                  (inl (refl, refl, refl, inr refl))
                            | inr under ↦
                                rw (add_subscription, fits, e, new, free, under)
                                  (inr (info, sender, refl, new, ground arith, ground arith, refl))
                          ]
                  ]
          ]
        ]
      ]
