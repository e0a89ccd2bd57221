-- ===== src/Rpc/Manager/Interleaved.antt =====
-- The index of topics while the steps of `remove_connection` and the other calls interleave.
use rust_api_stack.Base.{
  ◌≡◌, refl, ap, sym, subst, inl, inr, Bool, true, false, not, ◌&&◌, ◌||◌, Option, none, some, List,
  [], ◌∷◌, ◌++◌, arith, eqb, eqb_iff, if◌then◌else◌, contains, is_empty, nat_eq, Bool-cases,
  Option-cases,
}
use rust_api_stack.Base.Text.{Text, Text-eq, text_eq, text_eq_iff}
use rust_api_stack.Base.HashMap.{get, insert, get-insert, get-remove}
use rust_api_stack.Auth.{AuthenticatedUser}
use rust_api_stack.Rpc.Manager.{
  ConnectionId, ConnectionInfo, SubscriptionLimits, Manager, topic_connections, subscribe,
  unsubscribe, remove_from_index, with_subscription_limits, add_connection, take_connection,
  drop_requests, put_user, enter, add_subscription, remove_subscription,
}
use rust_api_stack.Rpc.Manager.Cases.{IsUnchanged, IsEntered, add_subscription-cases}
use rust_api_stack.Rpc.Manager.Index.{
  listed, topics_of, subscribed, contains-snoc, contains-filter_topic, listed-remove_from_index,
  connections-remove_from_index, subscribed-insert, subscribed-remove,
}

-- The topics that a removed connection has still to be taken from.
abbrev pub Leaving : Type 0
Leaving = ConnectionId → List Text

abbrev pub leaves : ConnectionId → List Text → Leaving → Leaving
leaves id topics leaving other = if eqb id other then topics else leaving other

module _ {J S : Type 0} where
  -- The states that the calls reach from an empty manager when they interleave. A connection comes
  -- with no topics and an ID that no connection has and no unfinished removal is about.
  pub data IsReached (limits : SubscriptionLimits) : Manager J S → Leaving → Type 0 where
    start : IsReached limits (with_subscription_limits limits) (λ id. [])
    added :
        {m : Manager J S} {leaving : Leaving} (info : ConnectionInfo J) (sender : S)
        → get info.id m.connections ≡ none
        → leaving info.id ≡ []
        → info.subscriptions ≡ []
        → IsReached limits m leaving
        → IsReached limits (add_connection info sender m) leaving
    taken :
        {m : Manager J S} {leaving : Leaving} (id : ConnectionId) (info : ConnectionInfo J)
        (sender : S)
        → get id m.connections ≡ some (info, sender)
        → IsReached limits m leaving
        → IsReached limits (take_connection id m) (leaves id info.subscriptions leaving)
    swept :
        {m : Manager J S} {leaving : Leaving} (id : ConnectionId) (topic : Text)
        (topics : List Text)
        → leaving id ≡ topic ∷ topics
        → IsReached limits m leaving
        → IsReached limits (remove_from_index id topic m) (leaves id topics leaving)
    requests_dropped :
        {m : Manager J S} {leaving : Leaving} (id : ConnectionId)
        → IsReached limits m leaving
        → IsReached limits (drop_requests id m) leaving
    user_put :
        {m : Manager J S} {leaving : Leaving} (id : ConnectionId)
        (user : Option (AuthenticatedUser J))
        → IsReached limits m leaving
        → IsReached limits (put_user id user m) leaving
    subscribed_to :
        {m : Manager J S} {leaving : Leaving} (id : ConnectionId) (topic : Text)
        → IsReached limits m leaving
        → IsReached limits (add_subscription id topic m).0 leaving
    unsubscribed_from :
        {m : Manager J S} {leaving : Leaving} (id : ConnectionId) (topic : Text)
        → IsReached limits m leaving
        → IsReached limits (remove_subscription id topic m) leaving

  abbrev is_there : Option (ConnectionInfo J × S) → Bool
  is_there none = false
  is_there (some entry) = true

  -- The index has the topics of the connections, and beside them only those that a removal under way
  -- has still to take out. A connection that is there is not being removed.
  unfoldable pub IsIndexedBut : Leaving → Manager J S → Type 0
  IsIndexedBut leaving m =
      (id : ConnectionId) (topic : Text)
      → (subscribed id topic m ≡ true → listed id topic m ≡ true)
        × (listed id topic m ≡ true → (subscribed id topic m || contains (leaving id) topic) ≡ true)
        × ((is_there (get id m.connections) && not (is_empty (leaving id))) ≡ false)

  added-IsIndexedBut :
      (info : ConnectionInfo J) (sender : S) (m : Manager J S) (leaving : Leaving)
      → get info.id m.connections ≡ none
      → leaving info.id ≡ []
      → info.subscriptions ≡ []
      → IsIndexedBut leaving m
      → IsIndexedBut leaving (add_connection info sender m)
  unfolding IsIndexedBut listed subscribed add_connection topics_of
  added-IsIndexedBut info sender m leaving fresh settled bare indexed id topic = ground (
    arith,
    indexed id topic,
    subscribed-insert info.id id info sender topic m.connections,
    get-insert info.id id (info, sender) m.connections,
    eqb_iff info.id id,
  )

  taken-IsIndexedBut :
      (id : ConnectionId) (info : ConnectionInfo J) (sender : S) (m : Manager J S)
      (leaving : Leaving)
      → get id m.connections ≡ some (info, sender)
      → IsIndexedBut leaving m
      → IsIndexedBut (leaves id info.subscriptions leaving) (take_connection id m)
  unfolding IsIndexedBut listed subscribed topics_of
  taken-IsIndexedBut id info sender m leaving there indexed other name = ground (
    arith,
    indexed other name,
    subscribed-remove id other name m.connections,
    get-remove id other m.connections,
    eqb_iff id other,
  )

  swept-IsIndexedBut :
      (id : ConnectionId) (topic : Text) (topics : List Text) (m : Manager J S) (leaving : Leaving)
      → leaving id ≡ topic ∷ topics
      → IsIndexedBut leaving m
      → IsIndexedBut (leaves id topics leaving) (remove_from_index id topic m)
  unfolding IsIndexedBut subscribed topics_of
  swept-IsIndexedBut id topic topics m leaving next indexed other name = ground (
    arith,
    indexed other name,
    ap (λ c. get other c) (connections-remove_from_index id topic m),
    listed-remove_from_index id other topic name m,
    text_eq_iff topic name,
    eqb_iff id other,
  )

  put_user-IsIndexedBut :
      (id : ConnectionId) (user : Option (AuthenticatedUser J)) (m : Manager J S)
      (leaving : Leaving)
      → IsIndexedBut leaving m
      → IsIndexedBut leaving (put_user id user m)
  unfolding IsIndexedBut subscribed listed topics_of put_user
  put_user-IsIndexedBut id user m leaving indexed other name =
      elim (Option-cases (get id m.connections)) [
        | inl e ↦ rw (put_user, e) (indexed other name)
        | inr ((info, sender), e) ↦
            let same = record info { user = user } in
            rw (put_user, e)
              (ground (
                arith,
                subscribed-insert id other same sender name m.connections,
                get-insert id other (same, sender) m.connections,
                indexed other name,
                eqb_iff id other,
              ))
      ]

  enter-IsIndexedBut :
      (id : ConnectionId) (topic : Text) (info : ConnectionInfo J) (sender : S) (m : Manager J S)
      (leaving : Leaving)
      → get id m.connections ≡ some (info, sender)
      → IsIndexedBut leaving m
      → IsIndexedBut leaving (enter id topic info sender m)
  unfolding IsIndexedBut subscribed listed topics_of enter subscribe topic_connections
  enter-IsIndexedBut id topic info sender m leaving e indexed other name = ground (
    arith,
    subscribed-insert id other (subscribe topic info) sender name m.connections,
    get-insert id other (subscribe topic info, sender) m.connections,
    get-insert topic name (topic_connections topic m.subscriptions ++ id ∷ []) m.subscriptions,
    contains-snoc (topic_connections topic m.subscriptions) id other,
    indexed other name,
    eqb_iff id other,
    text_eq_iff topic name,
  )

  add_subscription-IsIndexedBut :
      (id : ConnectionId) (topic : Text) (m : Manager J S) (leaving : Leaving)
      → IsIndexedBut leaving m
      → IsIndexedBut leaving (add_subscription id topic m).0
  unfolding IsUnchanged IsEntered IsIndexedBut listed subscribed
  add_subscription-IsIndexedBut id topic m leaving indexed =
      elim (add_subscription-cases id topic m) [
        | inl (connections, index, limits, total) ↦
            λ other name. rw (connections, index) (indexed other name)
        | inr (info, sender, e, new, room, total, entered) ↦
            subst (IsIndexedBut leaving) (sym entered)
              (enter-IsIndexedBut id topic info sender m leaving e indexed)
      ]

  remove_subscription-IsIndexedBut :
      (id : ConnectionId) (topic : Text) (m : Manager J S) (leaving : Leaving)
      → IsIndexedBut leaving m
      → IsIndexedBut leaving (remove_subscription id topic m)
  unfolding IsIndexedBut subscribed topics_of remove_subscription unsubscribe listed
  remove_subscription-IsIndexedBut id topic m leaving indexed other name =
      elim (Option-cases (get id m.connections)) [
        | inl e ↦
            rw (remove_subscription, e)
              (ground (
                arith,
                ap (λ c. get other c) (connections-remove_from_index id topic m),
                listed-remove_from_index id other topic name m,
                indexed other name,
                eqb_iff id other,
              ))
        | inr ((info, sender), e) ↦ elim (Bool-cases (contains info.subscriptions topic)) [
          | inr absent ↦ rw (remove_subscription, e, absent) (indexed other name)
          | inl there ↦
              let left = record m {
                connections = insert id (unsubscribe topic info, sender) m.connections;
              } in
              let unlisted : listed other name (remove_from_index id topic left)
                  ≡ (not (eqb id other && text_eq topic name) && listed other name m) =
                listed-remove_from_index id other topic name left in
              rw (remove_subscription, e, there)
                (ground (
                  arith,
                  ap (λ c. get other c) (connections-remove_from_index id topic left),
                  unlisted,
                  subscribed-insert id other (unsubscribe topic info) sender name m.connections,
                  get-insert id other (unsubscribe topic info, sender) m.connections,
                  contains-filter_topic info.subscriptions topic name,
                  indexed other name,
                  eqb_iff id other,
                ))
        ]
      ]

  -- However the calls and the steps of removals interleave, where a connection comes without topics
  -- and with an ID that no connection has and no unfinished removal is about: the index lists every
  -- topic of every connection that is there, and lists a connection elsewhere only under a topic that
  -- the removal of the connection has still to take out.
  pub reached-IsIndexedBut :
      (limits : SubscriptionLimits) (m : Manager J S) (leaving : Leaving)
      → IsReached limits m leaving
      → IsIndexedBut leaving m
  unfolding IsIndexedBut listed subscribed topics_of topic_connections with_subscription_limits get
  reached-IsIndexedBut limits _ _ start = λ id topic. (λ e. e, λ e. cc, refl)
  reached-IsIndexedBut limits _ _ (added {m} {leaving} info sender fresh settled bare reached) =
      added-IsIndexedBut info sender m leaving fresh settled bare
        (reached-IsIndexedBut limits m leaving reached)
  reached-IsIndexedBut limits _ _ (taken {m} {leaving} id info sender there reached) =
      taken-IsIndexedBut id info sender m leaving there
        (reached-IsIndexedBut limits m leaving reached)
  reached-IsIndexedBut limits _ _ (swept {m} {leaving} id topic topics next reached) =
      swept-IsIndexedBut id topic topics m leaving next
        (reached-IsIndexedBut limits m leaving reached)
  reached-IsIndexedBut limits _ _ (requests_dropped {m} {leaving} id reached) =
      reached-IsIndexedBut limits m leaving reached
  reached-IsIndexedBut limits _ _ (user_put {m} {leaving} id user reached) =
      put_user-IsIndexedBut id user m leaving (reached-IsIndexedBut limits m leaving reached)
  reached-IsIndexedBut limits _ _ (subscribed_to {m} {leaving} id topic reached) =
      add_subscription-IsIndexedBut id topic m leaving
        (reached-IsIndexedBut limits m leaving reached)
  reached-IsIndexedBut limits _ _ (unsubscribed_from {m} {leaving} id topic reached) =
      remove_subscription-IsIndexedBut id topic m leaving
        (reached-IsIndexedBut limits m leaving reached)
