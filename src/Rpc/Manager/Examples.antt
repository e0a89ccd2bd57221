-- ===== src/Rpc/Manager/Examples.antt =====
-- Two connections, one of which goes away.
use rust_api_stack.Base.{ℕ, ◌≡◌, refl, some, none, [], ◌∷◌, nat_eq}
use rust_api_stack.Base.Text.{Text-eq, codes, text_eq, bytes, utf8}
use rust_api_stack.Base.HashMap.{get, insert}
use rust_api_stack.Base.Int.{pos}
use rust_api_stack.Rpc.Manager.{
  ConnectionInfo, Manager, default_limits, with_subscription_limits, add_connection,
  remove_connection, take_connection, add_subscription, get_topic_connections, topic_connections,
  enter, subscribe, fetch_add,
}
use rust_api_stack.Rpc.Manager.Interleaved
use rust_api_stack.Rpc.Manager.Interleaved.{Leaving, leaves, IsIndexedBut, reached-IsIndexedBut}
use rust_api_stack.Rpc.Manager.Reached.{IsReached, start, added, removed, subscribed_to}
use rust_api_stack.Rpc.Manager.Count.{IsWithin, reached-IsWithin}

abbrev connection : ℕ → ConnectionInfo ℕ
connection id = record {
  id = id;
  user = none;
  subscriptions = [];
  metadata = 0;
  connected_at = pos 0;
}

abbrev one : Manager ℕ ℕ
one = add_connection (connection 1) 10 (with_subscription_limits default_limits)

abbrev two : Manager ℕ ℕ
two = add_connection (connection 2) 20 one

abbrev joined : Manager ℕ ℕ
joined = (add_subscription 2 (codes "news") (add_subscription 1 (codes "news") two).0).0

abbrev left : Manager ℕ ℕ
left = (remove_connection 1 joined).0

one-IsReached : IsReached default_limits one
unfolding with_subscription_limits get
one-IsReached = added (connection 1) 10 refl refl start

reached : IsReached default_limits left
unfolding with_subscription_limits add_connection insert get
reached = removed 1 (
    subscribed_to 2 (codes "news")
      (subscribed_to 1 (codes "news") (added (connection 2) 20 refl refl one-IsReached)))

reached-IsWithin_example : IsWithin default_limits left
reached-IsWithin_example = reached-IsWithin default_limits left reached

both_listed : get_topic_connections (codes "news") joined ≡ 1 ∷ 2 ∷ []
unfolding get_topic_connections topic_connections add_subscription enter subscribe fetch_add
    add_connection with_subscription_limits get insert text_eq bytes utf8
both_listed = refl

-- The first connection is taken out, and the second subscribes to another topic before the index
-- is swept.
abbrev leaving : Leaving
leaving = leaves 1 (codes "news" ∷ []) (λ id. [])

abbrev between : Manager ℕ ℕ
between = (add_subscription 2 (codes "alerts") (take_connection 1 joined)).0

abbrev member : ConnectionInfo ℕ
member = record (connection 1) { subscriptions = codes "news" ∷ [] }

one_there : get 1 joined.connections ≡ some (member, 10)
unfolding add_subscription enter subscribe topic_connections fetch_add add_connection
    with_subscription_limits get insert text_eq bytes utf8
one_there = refl

between-IsReached : Interleaved.IsReached default_limits between leaving
unfolding with_subscription_limits add_connection insert get
between-IsReached = Interleaved.subscribed_to 2 (codes "alerts") (
    Interleaved.taken 1 member 10 one_there (
      Interleaved.subscribed_to 2 (codes "news") (
        Interleaved.subscribed_to 1 (codes "news") (
          Interleaved.added (connection 2) 20 refl refl refl
            (Interleaved.added (connection 1) 10 refl refl refl Interleaved.start)))))

reached-IsIndexedBut_example : IsIndexedBut leaving between
reached-IsIndexedBut_example = reached-IsIndexedBut default_limits between leaving between-IsReached
