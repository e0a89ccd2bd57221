-- ===== src/Rpc/Context/Examples.antt =====
-- One connection at the default manager, with calls between the steps of an `unsubscribe`.
use rust_api_stack.Base.{
  ℕ, ◌≡◌, refl, true, false, Option, none, some, List, [], ◌∷◌, contains, nat_eq,
}
use rust_api_stack.Base.Text.{Text, Text-eq, codes, text_eq, bytes, utf8}
use rust_api_stack.Base.HashMap.{get, insert, remove}
use rust_api_stack.Base.Int.{pos}
use rust_api_stack.Auth.{AuthenticatedUser}
use rust_api_stack.Rpc.Manager
use rust_api_stack.Rpc.Manager.{
  ConnectionInfo, Manager, default_limits, with_subscription_limits, add_connection, fetch_add,
  fetch_sub,
}
use rust_api_stack.Rpc.Context
use rust_api_stack.Rpc.Context.{
  ConnectionContext, ConnectionManager, reserve, mirror_and_insert, release_all_subscriptions,
  drop_topic, release, tell_manager,
}
use rust_api_stack.Rpc.Context.Mirror
use rust_api_stack.Rpc.Context.Mirror.{default_manager, IsMirrored, reached-IsMirrored}

abbrev alice : AuthenticatedUser ℕ
alice = record { user_id = codes "alice"; permissions = codes "news" ∷ []; metadata = none }

abbrev info : List Text → ConnectionInfo ℕ
info topics = record {
  id = 1;
  user = some alice;
  subscriptions = topics;
  metadata = 0;
  connected_at = pos 0;
}

-- Five slots are held by others.
abbrev context : Option (Manager ℕ ℕ) → List Text → ℕ → ConnectionContext ℕ (Manager ℕ ℕ)
context manager topics total = record {
  id = 1;
  info = info topics;
  closed = false;
  limits = default_limits;
  accounting = total;
  manager = manager;
}

abbrev managed : ConnectionContext ℕ (Manager ℕ ℕ)
managed =
    context (some (add_connection (info []) 10 (with_subscription_limits default_limits))) [] 5

managed-IsMirrored : IsMirrored [] managed
unfolding IsMirrored add_connection with_subscription_limits insert get
managed-IsMirrored = (
  add_connection (info []) 10 (with_subscription_limits default_limits),
  info [],
  10,
  refl,
  refl,
  λ name. (refl, refl),
)

abbrev holding : ConnectionContext ℕ (Manager ℕ ℕ)
holding = (Context.subscribe default_manager (codes "news") managed).0

abbrev dropping : ConnectionContext ℕ (Manager ℕ ℕ)
dropping = drop_topic default_manager (codes "news") holding

news_held : contains holding.info.subscriptions (codes "news") ≡ true
unfolding Context.subscribe reserve mirror_and_insert Manager.subscribe Manager.add_subscription
    Manager.enter fetch_add add_connection with_subscription_limits insert get text_eq bytes utf8
news_held = refl

-- Another topic comes between the steps of an `unsubscribe`.
abbrev joining : ConnectionContext ℕ (Manager ℕ ℕ)
joining = (Context.subscribe default_manager (codes "alerts") (release default_manager dropping)).0

joining-IsReached : Mirror.IsReached joining (codes "news" ∷ [])
unfolding text_eq
joining-IsReached = Mirror.subscribed (codes "alerts") refl (
    Mirror.released (
      Mirror.dropped (codes "news") news_held
        (Mirror.subscribed (codes "news") refl (Mirror.start managed managed-IsMirrored))))

reached-IsMirrored_example : IsMirrored (codes "news" ∷ []) joining
reached-IsMirrored_example = reached-IsMirrored joining (codes "news" ∷ []) joining-IsReached

-- A subscription to the same topic between the steps is lost on the manager: the context has the
-- topic, and the manager does not.
abbrev overtaken : ConnectionContext ℕ (Manager ℕ ℕ)
overtaken =
    tell_manager default_manager (codes "news")
      ((Context.subscribe default_manager (codes "news") (release default_manager dropping)).0)

abbrev topics_at_manager : ConnectionContext ℕ (Manager ℕ ℕ) → List Text
topics_at_manager c = elim c.manager [
  | none ↦ []
  | some m ↦ elim (get c.id m.connections) [
    | none ↦ []
    | some (found, sender) ↦ found.subscriptions
  ]
]

overtaken_by_same :
    (overtaken.info.subscriptions ≡ codes "news" ∷ []) × (topics_at_manager overtaken ≡ [])
unfolding Context.subscribe reserve mirror_and_insert Manager.subscribe Manager.unsubscribe
    Manager.add_subscription Manager.remove_subscription Manager.remove_from_index Manager.enter
    Manager.topic_connections fetch_add fetch_sub add_connection with_subscription_limits insert
    remove get text_eq bytes utf8
overtaken_by_same = (refl, refl)
