-- ===== src/Rpc/Manager/Index.antt =====
-- The index of topics agrees with the connections.
use rust_api_stack.Base.{
  ◌≡◌, refl, ◌∙◌, sym, subst, inl, inr, Bool, false, not, ◌&&◌, ◌||◌, Option, none, some, List, [],
  ◌∷◌, ◌++◌, arith, eqb, eqb_iff, if◌then◌else◌, filter, contains, nat_eq, Bool-cases, Option-cases,
}
use rust_api_stack.Base.Text.{Text, Text-eq, text_eq, text_eq_iff}
use rust_api_stack.Base.HashMap.{get, insert, remove, get-insert, get-remove}
use rust_api_stack.Auth.{AuthenticatedUser}
use rust_api_stack.Rpc.Manager.{
  ConnectionId, ConnectionInfo, Manager, topic_connections, subscribe, unsubscribe,
  remove_from_index, add_connection, remove_topics, remove_connection, put_user, enter,
  add_subscription, remove_subscription,
}
use rust_api_stack.Rpc.Manager.Cases.{IsUnchanged, IsEntered, add_subscription-cases}

contains-filter_other :
    (ids : List ConnectionId) (id other : ConnectionId)
    → contains (filter (λ x. not (eqb x id)) ids) other ≡ (not (eqb id other) && contains ids other)
contains-filter_other [] id other = ground arith
contains-filter_other (x ∷ ids) id other = ground (arith, contains-filter_other ids id other)

pub contains-snoc :
    (ids : List ConnectionId) (id other : ConnectionId)
    → contains (ids ++ id ∷ []) other ≡ (contains ids other || eqb id other)
contains-snoc [] id other = ground arith
contains-snoc (x ∷ ids) id other = ground (arith, contains-snoc ids id other)

pub contains-filter_topic :
    (topics : List Text) (topic other : Text)
    → contains (filter (λ x. not (text_eq x topic)) topics) other
      ≡ (not (text_eq topic other) && contains topics other)
contains-filter_topic [] topic other = ground arith
contains-filter_topic (x ∷ topics) topic other = ground (
  arith,
  contains-filter_topic topics topic other,
  text_eq_iff x topic,
  text_eq_iff x other,
  text_eq_iff topic other,
)

module _ {J S : Type 0} where
  -- Whether the index has the pair, and whether the connection has it.
  unfoldable pub listed : ConnectionId → Text → Manager J S → Bool
  listed id topic m = contains (topic_connections topic m.subscriptions) id

  unfoldable pub topics_of : Option (ConnectionInfo J × S) → List Text
  topics_of none = []
  topics_of (some (info, sender)) = info.subscriptions

  unfoldable pub subscribed : ConnectionId → Text → Manager J S → Bool
  subscribed id topic m = contains (topics_of (get id m.connections)) topic

  pub listed-remove_from_index :
      (id other : ConnectionId) (topic name : Text) (m : Manager J S)
      → listed other name (remove_from_index id topic m)
        ≡ (not (eqb id other && text_eq topic name) && listed other name m)
  unfolding listed remove_from_index topic_connections
  listed-remove_from_index id other topic name m = go (get topic m.subscriptions) refl
    where
      go :
          (o : Option (List ConnectionId))
          → get topic m.subscriptions ≡ o
          → listed other name (remove_from_index id topic m)
            ≡ (not (eqb id other && text_eq topic name) && listed other name m)
      go none e = rw (remove_from_index, e) (ground (arith, text_eq_iff topic name))
      go (some ids) e =
          let kept = filter (λ x. not (eqb x id)) ids in
          rw (remove_from_index, e)
            (ground (
              arith,
              text_eq_iff topic name,
              get-remove topic name m.subscriptions,
              get-insert topic name kept m.subscriptions,
              contains-filter_other ids id other,
            ))

  pub connections-remove_from_index :
      (id : ConnectionId) (topic : Text) (m : Manager J S)
      → (remove_from_index id topic m).connections ≡ m.connections
  unfolding remove_from_index
  connections-remove_from_index id topic m = elim (Option-cases (get topic m.subscriptions)) [
    | inl e ↦ rw (remove_from_index, e) refl
    | inr (ids, e) ↦ rw (remove_from_index, e) refl
  ]

  connections-remove_topics :
      (id : ConnectionId) (topics : List Text) (m : Manager J S)
      → (remove_topics id topics m).connections ≡ m.connections
  unfolding remove_topics
  connections-remove_topics id [] m = refl
  connections-remove_topics id (topic ∷ topics) m =
      connections-remove_topics id topics (remove_from_index id topic m)
      ∙ connections-remove_from_index id topic m

  listed-remove_topics :
      (id other : ConnectionId) (topics : List Text) (name : Text) (m : Manager J S)
      → listed other name (remove_topics id topics m)
        ≡ (not (eqb id other && contains topics name) && listed other name m)
  unfolding remove_topics
  listed-remove_topics id other [] name m = ground arith
  listed-remove_topics id other (topic ∷ topics) name m = ground (
    arith,
    listed-remove_topics id other topics name (remove_from_index id topic m),
    listed-remove_from_index id other topic name m,
  )

  unfoldable pub IsIndexed : Manager J S → Type 0
  IsIndexed m = (id : ConnectionId) (topic : Text) → listed id topic m ≡ subscribed id topic m

  -- Putting a connection back with other topics.
  pub subscribed-insert :
      (id other : ConnectionId) (info : ConnectionInfo J) (sender : S) (name : Text)
      (connections : List (ConnectionId × (ConnectionInfo J × S)))
      → contains (topics_of (get other (insert id (info, sender) connections))) name ≡ (
          if eqb id other
          then contains info.subscriptions name
          else contains (topics_of (get other connections)) name)
  unfolding topics_of
  subscribed-insert id other info sender name connections =
      ground (arith, get-insert id other (info, sender) connections)

  pub add_connection-IsIndexed :
      (info : ConnectionInfo J) (sender : S) (m : Manager J S)
      → get info.id m.connections ≡ none
      → info.subscriptions ≡ []
      → IsIndexed m
      → IsIndexed (add_connection info sender m)
  unfolding IsIndexed listed subscribed add_connection topics_of
  add_connection-IsIndexed info sender m fresh bare indexed id topic = ground (
    arith,
    indexed id topic,
    subscribed-insert info.id id info sender topic m.connections,
    eqb_iff info.id id,
  )

  pub subscribed-remove :
      (id other : ConnectionId) (name : Text)
      (connections : List (ConnectionId × (ConnectionInfo J × S)))
      → contains (topics_of (get other (remove id connections))) name
        ≡ (if eqb id other then false else contains (topics_of (get other connections)) name)
  unfolding topics_of
  subscribed-remove id other name connections = ground (arith, get-remove id other connections)

  pub remove_connection-IsIndexed :
      (id : ConnectionId) (m : Manager J S) → IsIndexed m → IsIndexed (remove_connection id m).0
  unfolding IsIndexed subscribed listed topics_of remove_connection
  remove_connection-IsIndexed id m indexed other name = elim (Option-cases (get id m.connections)) [
    | inl e ↦ rw (remove_connection, e) (indexed other name)
    | inr ((info, sender), e) ↦
        let left = record m { connections = remove id m.connections } in
        rw (remove_connection, e, connections-remove_topics id info.subscriptions left)
          (listed-remove_topics id other info.subscriptions name left
            ∙ ground (
              arith,
              subscribed-remove id other name m.connections,
              indexed other name,
              eqb_iff id other,
            ))
  ]

  pub put_user-IsIndexed :
      (id : ConnectionId) (user : Option (AuthenticatedUser J)) (m : Manager J S)
      → IsIndexed m
      → IsIndexed (put_user id user m)
  unfolding IsIndexed subscribed listed topics_of put_user
  put_user-IsIndexed id user m indexed other name = elim (Option-cases (get id m.connections)) [
    | inl e ↦ rw (put_user, e) (indexed other name)
    | inr ((info, sender), e) ↦
        rw (put_user, e)
          (ground (
            arith,
            subscribed-insert id other (record info { user = user }) sender name m.connections,
            indexed other name,
            eqb_iff id other,
          ))
  ]

  enter-IsIndexed :
      (id : ConnectionId) (topic : Text) (info : ConnectionInfo J) (sender : S) (m : Manager J S)
      → get id m.connections ≡ some (info, sender)
      → IsIndexed m
      → IsIndexed (enter id topic info sender m)
  unfolding IsIndexed subscribed listed topics_of enter subscribe topic_connections
  enter-IsIndexed id topic info sender m e indexed other name = ground (
    arith,
    subscribed-insert id other (subscribe topic info) sender name m.connections,
    get-insert topic name (topic_connections topic m.subscriptions ++ id ∷ []) m.subscriptions,
    contains-snoc (topic_connections topic m.subscriptions) id other,
    indexed other name,
    eqb_iff id other,
    text_eq_iff topic name,
  )

  pub add_subscription-IsIndexed :
      (id : ConnectionId) (topic : Text) (m : Manager J S)
      → IsIndexed m
      → IsIndexed (add_subscription id topic m).0
  unfolding IsUnchanged IsEntered IsIndexed listed subscribed
  add_subscription-IsIndexed id topic m indexed = elim (add_subscription-cases id topic m) [
    | inl (connections, index, limits, total) ↦
        λ other name. rw (connections, index) (indexed other name)
    | inr (info, sender, e, new, room, total, entered) ↦
        subst IsIndexed (sym entered) (enter-IsIndexed id topic info sender m e indexed)
  ]

  pub remove_subscription-IsIndexed :
      (id : ConnectionId) (topic : Text) (m : Manager J S)
      → IsIndexed m
      → IsIndexed (remove_subscription id topic m)
  unfolding IsIndexed subscribed listed topics_of remove_subscription unsubscribe
  remove_subscription-IsIndexed id topic m indexed other name =
      elim (Option-cases (get id m.connections)) [
        | inl e ↦
            rw (remove_subscription, e, connections-remove_from_index id topic m)
              (listed-remove_from_index id other topic name m
                ∙ ground (arith, indexed other name, eqb_iff id other))
        | inr ((info, sender), e) ↦ elim (Bool-cases (contains info.subscriptions topic)) [
          | inr absent ↦ rw (remove_subscription, e, absent) (indexed other name)
          | inl there ↦
              let left = record m {
                connections = insert id (unsubscribe topic info, sender) m.connections;
              } in
              rw (remove_subscription, e, there, connections-remove_from_index id topic left)
                (listed-remove_from_index id other topic name left
                  ∙ ground (
                    arith,
                    subscribed-insert id other (unsubscribe topic info) sender name m.connections,
                    contains-filter_topic info.subscriptions topic name,
                    indexed other name,
                    eqb_iff id other,
                  ))
        ]
      ]
