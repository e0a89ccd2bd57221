-- ===== src/Rpc/Context/Mirror.antt =====
-- A connection's context and the default manager, while the steps of `unsubscribe` interleave with
-- other calls: the manager has the connection's subscriptions.
pub mod Answers
use rust_api_stack.Base.{
  ◌≡◌, refl, ◌⊎◌, inl, inr, ap, true, false, not, ◌∙◌, ℕ, filter, ◌&&◌, ◌||◌, some, List, [], ◌∷◌,
  arith, ltb, leb, length, contains, is_empty, nat_eq, ok, err, Bool-cases,
}
use rust_api_stack.Base.Text.{Text, Text-eq, bytes, text_eq, text_eq_iff}
use rust_api_stack.Rpc.Context.Counter.{contains-without}
use rust_api_stack.Base.HashMap.{get, insert, get-insert_self}
use rust_api_stack.Rpc.Manager
use rust_api_stack.Rpc.Manager.{
  ConnectionId, ConnectionInfo, BidirectionalError, put_user, enter, add_subscription,
  remove_subscription, remove_from_index, fetch_add, fetch_sub,
}
use rust_api_stack.Rpc.Manager.Index.{connections-remove_from_index}
use rust_api_stack.Rpc.Context.{
  ConnectionManager, ConnectionContext, reserve, mirror_and_insert, subscribe, drop_topic, release,
  tell_manager,
}
use rust_api_stack.Rpc.Context.Mirror.Answers.{
  contains-subscribe, contains-unsubscribed, add_subscription-answer, remove_subscription-answer,
}

-- For each topic: the manager has it where the context has it or has just dropped it without having
-- told the manager yet, and a topic that is held is not one that is being dropped.
abbrev pub Agrees : (leaving held entered : List Text) → Type 0
Agrees leaving held entered =
    (name : Text)
    → (contains entered name ≡ (contains held name || contains leaving name))
      × ((contains held name && contains leaving name) ≡ false)

module _ {J S : Type 0} where
  abbrev pub default_manager : ConnectionManager J (Manager.Manager J S)
  default_manager = record {
    add_subscription = add_subscription;
    remove_subscription = remove_subscription;
    set_connection_user = λ id user. put_user id (some user);
  }

  -- The connection stands in the manager with the topics of its context, and those that are leaving.
  unfoldable pub IsMirrored : List Text → ConnectionContext J (Manager.Manager J S) → Type 0
  IsMirrored leaving context =
      (m : Manager.Manager J S) × (info : ConnectionInfo J) × (sender : S) × (context.manager
        ≡ some m)
      × (get context.id m.connections ≡ some (info, sender))
      × Agrees leaving context.info.subscriptions info.subscriptions

  inserted-IsMirrored :
      (topic : Text) (leaving : List Text) (context : ConnectionContext J (Manager.Manager J S))
      → IsMirrored leaving context
      → contains context.info.subscriptions topic ≡ false
      → contains leaving topic ≡ false
      → IsMirrored leaving (mirror_and_insert default_manager topic context).0
  unfolding IsMirrored mirror_and_insert
  inserted-IsMirrored topic leaving context (m, info, sender, here, e, same) new settled =
      let absent : contains info.subscriptions topic ≡ false = ground (arith, same topic) in
      elim (add_subscription-answer context.id topic m info sender e absent) [
        | inl (good, entered) ↦
            rw (mirror_and_insert, here, good)
              (
                (add_subscription context.id topic m).0,
                Manager.subscribe topic info,
                sender,
                refl,
                entered,
                λ name. ground (
                  arith,
                  same name,
                  text_eq_iff topic name,
                  contains-subscribe topic name info,
                  contains-subscribe topic name context.info,
                ),
              )
        | inr (error, bad, kept) ↦
            rw (mirror_and_insert, here, bad)
              ((add_subscription context.id topic m).0, info, sender, refl, kept, same)
      ]

  subscribe-IsMirrored :
      (topic : Text) (leaving : List Text) (context : ConnectionContext J (Manager.Manager J S))
      → IsMirrored leaving context
      → contains leaving topic ≡ false
      → IsMirrored leaving (subscribe default_manager topic context).0
  unfolding subscribe reserve IsMirrored
  subscribe-IsMirrored topic leaving context mirrored settled =
      elim (Bool-cases
        (is_empty topic || ltb context.limits.max_topic_length (length (bytes topic)))) [
          | inl long ↦ rw (subscribe, long) mirrored
          | inr fits ↦ elim (Bool-cases (contains context.info.subscriptions topic)) [
            | inl there ↦ rw (subscribe, fits, there) mirrored
            | inr new ↦
                elim (Bool-cases (
                  leb context.limits.max_topics_per_connection
                    (length context.info.subscriptions))) [
                      | inl full ↦ rw (subscribe, fits, new, full) mirrored
                      | inr free ↦
                          elim (Bool-cases (
                            ltb 0 context.limits.max_total_subscriptions
                            && leb context.limits.max_total_subscriptions context.accounting)) [
                              | inl over ↦ rw (subscribe, fits, new, free, reserve, over) mirrored
                              | inr under ↦
                                  rw (subscribe, fits, new, free, reserve, under)
                                    (inserted-IsMirrored topic leaving
                                      (record context {
                                        accounting = fetch_add context.accounting 1;
                                      })
                                      mirrored new settled)
                            ]
                    ]
          ]
        ]

  drop_topic-IsMirrored :
      (topic : Text) (leaving : List Text) (context : ConnectionContext J (Manager.Manager J S))
      → IsMirrored leaving context
      → contains context.info.subscriptions topic ≡ true
      → IsMirrored (topic ∷ leaving) (drop_topic default_manager topic context)
  unfolding IsMirrored
  drop_topic-IsMirrored topic leaving context (m, info, sender, here, e, same) there = (
    m,
    info,
    sender,
    here,
    e,
    λ name.
        ground
          (arith, same name, text_eq_iff topic name, contains-unsubscribed topic name context.info),
  )

  tell_manager-IsMirrored :
      (topic : Text) (leaving : List Text) (context : ConnectionContext J (Manager.Manager J S))
      → IsMirrored leaving context
      → contains leaving topic ≡ true
      → IsMirrored
          (filter (λ other. not (text_eq other topic)) leaving)
          (tell_manager default_manager topic context)
  unfolding IsMirrored
  tell_manager-IsMirrored topic leaving context (m, info, sender, here, e, same) waits = rw here (
    remove_subscription context.id topic m,
    Manager.unsubscribe topic info,
    sender,
    refl,
    remove_subscription-answer context.id topic m info sender e (ground (arith, same topic)),
    λ name. ground (
      arith,
      same name,
      same topic,
      text_eq_iff topic name,
      contains-unsubscribed topic name info,
      contains-without topic name leaving,
    ),
  )

  -- What the calls on a context, their steps and the rest of the service reach from a context that
  -- has what the manager has. No call subscribes to a topic that an `unsubscribe` under way has
  -- dropped; everything else may come in any order.
  pub data IsReached : ConnectionContext J (Manager.Manager J S) → List Text → Type 0 where
    start :
        (context : ConnectionContext J (Manager.Manager J S))
        → IsMirrored [] context
        → IsReached context []
    subscribed :
        {context : ConnectionContext J (Manager.Manager J S)} {leaving : List Text} (topic : Text)
        → contains leaving topic ≡ false
        → IsReached context leaving
        → IsReached (subscribe default_manager topic context).0 leaving
    dropped :
        {context : ConnectionContext J (Manager.Manager J S)} {leaving : List Text} (topic : Text)
        → contains context.info.subscriptions topic ≡ true
        → IsReached context leaving
        → IsReached (drop_topic default_manager topic context) (topic ∷ leaving)
    released :
        {context : ConnectionContext J (Manager.Manager J S)} {leaving : List Text}
        → IsReached context leaving
        → IsReached (release default_manager context) leaving
    told :
        {context : ConnectionContext J (Manager.Manager J S)} {leaving : List Text} (topic : Text)
        → contains leaving topic ≡ true
        → IsReached context leaving
        → IsReached
            (tell_manager default_manager topic context)
            (filter (λ other. not (text_eq other topic)) leaving)
    elsewhere :
        {context : ConnectionContext J (Manager.Manager J S)} {leaving : List Text}
        (before after : Manager.Manager J S) (total : ℕ)
        → context.manager ≡ some before
        → get context.id after.connections ≡ get context.id before.connections
        → IsReached context leaving
        → IsReached (record context { manager = some after; accounting = total }) leaving

  elsewhere-IsMirrored :
      (context : ConnectionContext J (Manager.Manager J S)) (leaving : List Text)
      (before after : Manager.Manager J S) (total : ℕ)
      → context.manager ≡ some before
      → get context.id after.connections ≡ get context.id before.connections
      → IsMirrored leaving context
      → IsMirrored leaving (record context { manager = some after; accounting = total })
  unfolding IsMirrored
  elsewhere-IsMirrored context leaving before after total is same
        (m, info, sender, here, e, agree) =
      let one : before ≡ m = cc in
      (after, info, sender, refl, same ∙ ap (λ x. get context.id x.connections) one ∙ e, agree)

  -- From a context that agrees with the default manager on, the manager has for the connection
  -- exactly the topics of the context and those that an `unsubscribe` under way has dropped there and
  -- not yet told it, however the calls on the context and their steps interleave with what other
  -- connections do, refusals by either side included, where no call subscribes to a topic while an
  -- `unsubscribe` of it is under way.
  pub reached-IsMirrored :
      (context : ConnectionContext J (Manager.Manager J S)) (leaving : List Text)
      → IsReached context leaving
      → IsMirrored leaving context
  unfolding IsMirrored
  reached-IsMirrored context _ (start _ mirrored) = mirrored
  reached-IsMirrored _ leaving (subscribed {context} topic settled reached) =
      subscribe-IsMirrored topic leaving context (reached-IsMirrored context leaving reached)
        settled
  reached-IsMirrored _ _ (dropped {context} {leaving} topic there reached) =
      drop_topic-IsMirrored topic leaving context (reached-IsMirrored context leaving reached) there
  reached-IsMirrored _ leaving (released {context} reached) =
      reached-IsMirrored context leaving reached
  reached-IsMirrored _ _ (told {context} {leaving} topic waits reached) =
      tell_manager-IsMirrored topic leaving context (reached-IsMirrored context leaving reached)
        waits
  reached-IsMirrored _ leaving (elsewhere {context} before after total is same reached) =
      elsewhere-IsMirrored context leaving before after total is same
        (reached-IsMirrored context leaving reached)
