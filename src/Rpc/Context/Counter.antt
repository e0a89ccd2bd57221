-- ===== src/Rpc/Context/Counter.antt =====
-- The service's counter and the limits, as one connection changes them.
use rust_api_stack.Base.{
  ℕ, suc, ◌+◌, ◌%◌, ◌≤◌, ◌<◌, ◌≡◌, refl, ap, inl, inr, true, false, not, ◌&&◌, ◌||◌, List, [], ◌∷◌,
  arith, ltb, leb, length, filter, contains, is_empty, Bool-cases, Option-cases, Result-cases,
}
use rust_api_stack.Base.Text.{Text, Text-eq, bytes, text_eq, text_eq_iff}
use rust_api_stack.Rpc.Manager
use rust_api_stack.Rpc.Manager.{ConnectionInfo, SubscriptionLimits, fetch_add, fetch_sub}
use rust_api_stack.Rpc.Context.{
  ConnectionManager, ConnectionContext, reserve, mirror_and_insert, subscribe, unsubscribe,
  unsubscribe_all, release_all_subscriptions,
}

-- No topic twice, as in a hash set.
abbrev pub IsDistinct : List Text → Type 0
IsDistinct [] = Unit
IsDistinct (topic ∷ topics) = (contains topics topic ≡ false) × IsDistinct topics

pub contains-without :
    (topic name : Text) (topics : List Text)
    → contains (filter (λ other. not (text_eq other topic)) topics) name
      ≡ (not (text_eq topic name) && contains topics name)
contains-without topic name [] = ground arith
contains-without topic name (other ∷ topics) = ground (
  arith,
  text_eq_iff other topic,
  text_eq_iff topic name,
  text_eq_iff other name,
  contains-without topic name topics,
)

without-IsDistinct :
    (topic : Text) (topics : List Text)
    → IsDistinct topics
    → IsDistinct (filter (λ other. not (text_eq other topic)) topics)
without-IsDistinct topic [] h = tt
without-IsDistinct topic (other ∷ topics) h =
    ground (arith, contains-without topic other topics, without-IsDistinct topic topics h.1)

without_absent :
    (topic : Text) (topics : List Text)
    → contains topics topic ≡ false
    → filter (λ other. not (text_eq other topic)) topics ≡ topics
without_absent topic [] h = refl
without_absent topic (other ∷ topics) h = ground (arith, without_absent topic topics)

length-without :
    (topic : Text) (topics : List Text)
    → IsDistinct topics
    → contains topics topic ≡ true
    → length (filter (λ other. not (text_eq other topic)) topics) + 1 ≡ length topics
length-without topic [] h there = cc
length-without topic (other ∷ topics) h there =
    ground
      (arith, text_eq_iff other topic, without_absent topic topics, length-without topic topics h.1)

module _ {J M : Type 0} where
  -- The counter is the slots that others hold and one for each topic of this connection, as far as
  -- a machine word goes; both limits are kept.
  unfoldable pub IsAccounted : ℕ → ConnectionContext J M → Type 0
  IsAccounted others context =
      IsDistinct context.info.subscriptions
      × (context.accounting ≡ (others + length context.info.subscriptions) % 18446744073709551616)
      × (length context.info.subscriptions ≤ context.limits.max_topics_per_connection)
      × ((0 < context.limits.max_total_subscriptions)
          → (context.limits.max_total_subscriptions < 18446744073709551616)
          → others + length context.info.subscriptions ≤ context.limits.max_total_subscriptions)

  given_back :
      (others : ℕ) (context : ConnectionContext J M)
      → IsAccounted others context
      → IsAccounted others
          (record context { accounting = fetch_sub (fetch_add context.accounting 1) 1 })
  unfolding IsAccounted fetch_add fetch_sub
  given_back others context (distinct, counted, within, below) =
      (distinct, omega (arith, counted), within, below)

module _ {J M : Type 0} (ops : ConnectionManager J M) where
  inserted-IsAccounted :
      (others : ℕ) (topic : Text) (context : ConnectionContext J M)
      → IsAccounted others context
      → contains context.info.subscriptions topic ≡ false
      → leb context.limits.max_topics_per_connection (length context.info.subscriptions) ≡ false
      → (ltb 0 context.limits.max_total_subscriptions
          && leb context.limits.max_total_subscriptions context.accounting)
        ≡ false
      → IsAccounted others
          (mirror_and_insert ops topic
            (record context { accounting = fetch_add context.accounting 1 })).0
  unfolding IsAccounted mirror_and_insert fetch_add fetch_sub Manager.subscribe
  inserted-IsAccounted others topic context (distinct, counted, within, below) new free under =
      let grown : (context.accounting + 1) % 18446744073709551616
          ≡ (others + suc (length context.info.subscriptions)) % 18446744073709551616 =
        omega (arith, counted) in
      let more : (0 < context.limits.max_total_subscriptions)
          → (context.limits.max_total_subscriptions < 18446744073709551616)
          → others + suc (length context.info.subscriptions)
            ≤ context.limits.max_total_subscriptions =
        λ p q. ground (arith, below p q) in
      elim (Option-cases context.manager) [
        | inl e ↦ rw (mirror_and_insert, e, new) ((new, distinct), grown, ground arith, more)
        | inr (m, e) ↦
            let added = ops.add_subscription context.id topic m in
            elim (Result-cases added.1) [
              | inl (done, r) ↦
                  rw (mirror_and_insert, e, r, new) ((new, distinct), grown, ground arith, more)
              | inr (error, r) ↦
                  rw (mirror_and_insert, e, r) (distinct, omega (arith, counted), within, below)
            ]
      ]

  pub subscribe-IsAccounted :
      (others : ℕ) (topic : Text) (context : ConnectionContext J M)
      → IsAccounted others context
      → IsAccounted others (subscribe ops topic context).0
  unfolding subscribe reserve
  subscribe-IsAccounted others topic context held =
      elim (Bool-cases
        (is_empty topic || ltb context.limits.max_topic_length (length (bytes topic)))) [
          | inl long ↦ rw (subscribe, long) held
          | inr fits ↦ elim (Bool-cases (contains context.info.subscriptions topic)) [
            | inl there ↦ rw (subscribe, fits, there) held
            | inr new ↦
                elim (Bool-cases (
                  leb context.limits.max_topics_per_connection
                    (length context.info.subscriptions))) [
                      | inl full ↦ rw (subscribe, fits, new, full) held
                      | inr free ↦
                          elim (Bool-cases (
                            ltb 0 context.limits.max_total_subscriptions
                            && leb context.limits.max_total_subscriptions context.accounting)) [
                              | inl over ↦
                                  rw (subscribe, fits, new, free, reserve, over)
                                    (given_back others context held)
                              | inr under ↦
                                  rw (subscribe, fits, new, free, reserve, under)
                                    (inserted-IsAccounted others topic context held new free under)
                            ]
                    ]
          ]
        ]

  pub unsubscribe-IsAccounted :
      (others : ℕ) (topic : Text) (context : ConnectionContext J M)
      → IsAccounted others context
      → IsAccounted others (unsubscribe ops topic context)
  unfolding unsubscribe IsAccounted Manager.unsubscribe fetch_sub
  unsubscribe-IsAccounted others topic context (distinct, counted, within, below) =
      elim (Bool-cases (contains context.info.subscriptions topic)) [
        | inr absent ↦ rw (unsubscribe, absent) (distinct, counted, within, below)
        | inl there ↦
            let fewer = length-without topic context.info.subscriptions distinct there in
            rw (unsubscribe, there)
              (
                without-IsDistinct topic context.info.subscriptions distinct,
                omega (arith, counted, fewer),
                omega (arith, within, fewer),
                λ p q. omega (arith, below p q, fewer),
              )
      ]

  pub unsubscribe_all-IsAccounted :
      (others : ℕ) (topics : List Text) (context : ConnectionContext J M)
      → IsAccounted others context
      → IsAccounted others (unsubscribe_all ops topics context)
  unfolding unsubscribe_all
  unsubscribe_all-IsAccounted others [] context held = held
  unsubscribe_all-IsAccounted others (topic ∷ topics) context held =
      unsubscribe_all-IsAccounted others topics (unsubscribe ops topic context)
        (unsubscribe-IsAccounted others topic context held)

  pub contains-unsubscribe :
      (topic name : Text) (context : ConnectionContext J M)
      → contains (unsubscribe ops topic context).info.subscriptions name
        ≡ (not (text_eq topic name) && contains context.info.subscriptions name)
  unfolding unsubscribe Manager.unsubscribe
  contains-unsubscribe topic name context =
      elim (Bool-cases (contains context.info.subscriptions topic)) [
        | inl there ↦
            rw (unsubscribe, there) (contains-without topic name context.info.subscriptions)
        | inr absent ↦ rw (unsubscribe, absent) (ground (arith, absent, text_eq_iff topic name))
      ]

  contains-unsubscribe_all :
      (topics : List Text) (name : Text) (context : ConnectionContext J M)
      → contains (unsubscribe_all ops topics context).info.subscriptions name
        ≡ (not (contains topics name) && contains context.info.subscriptions name)
  unfolding unsubscribe_all
  contains-unsubscribe_all [] name context = refl
  contains-unsubscribe_all (topic ∷ topics) name context = ground (
    arith,
    contains-unsubscribe_all topics name (unsubscribe ops topic context),
    contains-unsubscribe topic name context,
  )

  none_contained :
      (topics : List Text) → ((name : Text) → contains topics name ≡ false) → topics ≡ []
  none_contained [] h = refl
  none_contained (topic ∷ topics) h = ground (arith, h topic, text_eq_iff topic topic)

  -- When a connection releases its subscriptions it holds none, and the service's counter is what
  -- the other connections hold: no slot is lost and none is given back twice.
  pub release_all-IsReleased :
      (others : ℕ) (context : ConnectionContext J M)
      → IsAccounted others context
      → ((release_all_subscriptions ops context).info.subscriptions ≡ [])
        × ((release_all_subscriptions ops context).accounting ≡ others % 18446744073709551616)
  unfolding release_all_subscriptions IsAccounted
  release_all-IsReleased others context held =
      let after = unsubscribe_all ops context.info.subscriptions context in
      let gone = none_contained after.info.subscriptions (λ name.
        ground (arith, contains-unsubscribe_all context.info.subscriptions name context)) in
      let left = unsubscribe_all-IsAccounted others context.info.subscriptions context held in
      (gone, omega (arith, left.1, ap length gone))
