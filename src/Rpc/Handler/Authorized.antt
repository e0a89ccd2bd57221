-- ===== src/Rpc/Handler/Authorized.antt =====
-- Which topics a connection holds after it was asked to subscribe, and after a re-validation.
use rust_api_stack.Base.{
  ◌≡◌, refl, ◌∙◌, sym, ap, subst, ◌⊎◌, inl, inr, Bool, true, false, ◌&&◌, Option, some, List, [],
  ◌∷◌, arith, contains, if◌then◌else◌, Result, ok, err, Bool-cases, Result-cases,
}
use rust_api_stack.Base.Text.{Text, Text-eq, text_eq, text_eq_iff}
use rust_api_stack.Auth.{AuthError, AuthenticatedUser}
use rust_api_stack.Rpc.Server.{ServerResult}
use rust_api_stack.Rpc.Manager
use rust_api_stack.Rpc.Manager.{ConnectionId}
use rust_api_stack.Rpc.Context
use rust_api_stack.Rpc.Context.{ConnectionContext, ConnectionManager}
use rust_api_stack.Rpc.Context.Counter.{contains-unsubscribe}
use rust_api_stack.Rpc.Handler.{Connection, MessageHandler, and_then, with_context}
use rust_api_stack.Rpc.Handler.Revalidation.{
  PermissionChangePolicy, refresh_user, reauthorize, revalidate_credentials, is_close,
  permissions_changed,
}

pair-eq : {A B : Type 0} {p : A × B} {a : A} {b : B} → p.0 ≡ a → p.1 ≡ b → p ≡ (a, b)
pair-eq e f = cc

module _ {J M : Type 0} (ops : ConnectionManager J M) where
  unsubscribe-user :
      (topic : Text) (context : ConnectionContext J M)
      → (Context.unsubscribe ops topic context).info.user ≡ context.info.user
  unfolding Context.unsubscribe Manager.unsubscribe
  unsubscribe-user topic context = ground arith

module _ {J M H : Type 0} (ops : ConnectionManager J M) (handler : MessageHandler J M H)
    (allows : Text → Option (AuthenticatedUser J) → Bool) where
  -- `authorize_subscribe` changes nothing, and where it answers, it answers by the user.
  abbrev pub DecidesByUser : Type 0
  DecidesByUser =
      (topic : Text) (connection : Connection J M H)
      → ((handler.authorize_subscribe topic connection).0 ≡ connection)
        × ((allowed : Bool)
            → (handler.authorize_subscribe topic connection).1 ≡ ok allowed
            → allowed ≡ allows topic connection.context.info.user)

  -- Every topic that the connection holds is one that its user may have.
  unfoldable pub IsEntitled : Connection J M H → Type 0
  IsEntitled connection =
      (topic : Text)
      → contains connection.context.info.subscriptions topic ≡ true
      → allows topic connection.context.info.user ≡ true

  -- And its user is that one.
  unfoldable pub IsEntitledTo : Option (AuthenticatedUser J) → Connection J M H → Type 0
  IsEntitledTo user connection = IsEntitled connection × (connection.context.info.user ≡ user)

  asked :
      DecidesByUser
      → (topic : Text) (connection : Connection J M H)
      → (handler.authorize_subscribe topic connection
          ≡ (connection, ok (allows topic connection.context.info.user)))
        ⊎ ((e : _) × (handler.authorize_subscribe topic connection ≡ (connection, err e)))
  asked decides topic connection =
      let (kept, answer) = decides topic connection in
      elim (Result-cases (handler.authorize_subscribe topic connection).1) [
        | inl (allowed, good) ↦ inl (pair-eq kept (good ∙ ap ok (answer allowed good)))
        | inr (e, bad) ↦ inr (e, pair-eq kept bad)
      ]

  reauthorize-cons :
      (topic : Text) (topics : List Text) (connection : Connection J M H)
      {step : Connection J M H × ServerResult J Bool}
      → handler.authorize_subscribe topic connection ≡ step
      → reauthorize ops handler (topic ∷ topics) connection
        ≡ and_then step (λ allowed left. reauthorize ops handler topics (
            if allowed
            then left
            else with_context (Context.unsubscribe ops topic left.context) left))
  unfolding reauthorize
  reauthorize-cons topic topics connection e =
      ap
        (λ step. and_then step (λ allowed left. reauthorize ops handler topics (
          if allowed
          then left
          else with_context (Context.unsubscribe ops topic left.context) left)))
        e

  -- Each topic that the connection holds is listed there, or allowed.
  IsCovered : List Text → Connection J M H → Type 0
  IsCovered topics connection =
      (topic : Text)
      → contains connection.context.info.subscriptions topic ≡ true
      → (contains topics topic ≡ true) ⊎ (allows topic connection.context.info.user ≡ true)

  allowed-IsCovered :
      (topic : Text) (topics : List Text) (connection : Connection J M H)
      → IsCovered (topic ∷ topics) connection
      → allows topic connection.context.info.user ≡ true
      → IsCovered topics connection
  unfolding IsCovered
  allowed-IsCovered topic topics connection covered allowed name held = elim (covered name held) [
    | inr fine ↦ inr fine
    | inl listed ↦ elim (Bool-cases (text_eq topic name)) [
      | inl same ↦ inr (
          subst (λ t. allows t connection.context.info.user ≡ true)
            ((text_eq_iff topic name).0 same) allowed)
      | inr other ↦ inl (ground (arith, listed, other))
    ]
  ]

  dropped-IsCovered :
      (topic : Text) (topics : List Text) (connection : Connection J M H)
      → IsCovered (topic ∷ topics) connection
      → IsCovered topics
          (with_context (Context.unsubscribe ops topic connection.context) connection)
  unfolding IsCovered
  dropped-IsCovered topic topics connection covered name held =
      let kept = contains-unsubscribe ops topic name connection.context in
      let user = unsubscribe-user ops topic connection.context in
      let other : text_eq topic name ≡ false = ground (arith, kept, held) in
      let still : contains connection.context.info.subscriptions name ≡ true =
        ground (arith, kept, held) in
      elim (covered name still) [
        | inl listed ↦ inl (ground (arith, listed, other))
        | inr fine ↦ inr (rw user fine)
      ]

  reauthorize-IsEntitled :
      DecidesByUser
      → (topics : List Text) (connection : Connection J M H) → IsCovered topics connection
      → (reauthorize ops handler topics connection).1 ≡ ok true
      → IsEntitledTo connection.context.info.user (reauthorize ops handler topics connection).0
  unfolding IsEntitledTo IsEntitled IsCovered reauthorize
  reauthorize-IsEntitled decides [] connection covered done =
      (λ topic held. elim (covered topic held) [ inl listed ↦ cc | inr fine ↦ fine ], refl)
  reauthorize-IsEntitled decides (topic ∷ topics) connection covered done =
      elim (asked decides topic connection) [
        | inr (e, failed) ↦
            let step = reauthorize-cons topic topics connection failed in
            let no : err e ≡ ok true = sym (ap (λ r. r.1) step) ∙ done in cc
        | inl answered ↦ elim (Bool-cases (allows topic connection.context.info.user)) [
          | inl allowed ↦
              let run = reauthorize-cons topic topics connection (
                subst (λ b. handler.authorize_subscribe topic connection ≡ (connection, ok b))
                  allowed answered) in
              subst (λ r. IsEntitledTo connection.context.info.user r.0) (sym run)
                (reauthorize-IsEntitled decides topics connection
                  (allowed-IsCovered topic topics connection covered allowed)
                  (sym (ap (λ r. r.1) run) ∙ done))
          | inr denied ↦
              let run = reauthorize-cons topic topics connection (
                subst (λ b. handler.authorize_subscribe topic connection ≡ (connection, ok b))
                  denied answered) in
              let dropped =
                with_context (Context.unsubscribe ops topic connection.context) connection in
              let user = unsubscribe-user ops topic connection.context in
              subst (λ r. IsEntitledTo connection.context.info.user r.0) (sym run)
                (subst (λ u. IsEntitledTo u (reauthorize ops handler topics dropped).0) user
                  (reauthorize-IsEntitled decides topics dropped
                    (dropped-IsCovered topic topics connection covered)
                    (sym (ap (λ r. r.1) run) ∙ done)))
        ]
      ]

  -- Where a service decides on topics by the user alone, a re-validation that keeps the connection
  -- open is one that the auth provider answered with a user, and it leaves the connection that user
  -- and only topics that this user may have.
  pub revalidate-IsEntitled :
      DecidesByUser
      → (policy : PermissionChangePolicy) (answer : Result AuthError (AuthenticatedUser J))
        (connection : Connection J M H)
      → (revalidate_credentials ops handler policy answer connection).1 ≡ ok true
      → (user : AuthenticatedUser J) × (answer ≡ ok user)
        × IsEntitledTo (some user) (revalidate_credentials ops handler policy answer connection).0
  unfolding revalidate_credentials refresh_user Context.set_user IsCovered
  revalidate-IsEntitled decides policy (err e) connection kept = ground (arith, kept)
  revalidate-IsEntitled decides policy (ok user) connection kept =
      let refreshed = with_context (refresh_user ops user connection.context) connection in
      elim (Bool-cases (permissions_changed connection.context.info.user user && is_close policy)) [
        | inl closing ↦
            let no : ok false ≡ ok true =
              subst
                (λ b.
                  (if b
                    then (refreshed, ok false)
                    else reauthorize ops handler refreshed.context.info.subscriptions refreshed).1
                  ≡ ok true)
                closing kept in
            cc
        | inr staying ↦
            let run =
              subst
                (λ b.
                  (if b
                    then (refreshed, ok false)
                    else reauthorize ops handler refreshed.context.info.subscriptions refreshed).1
                  ≡ ok true)
                staying kept in
            rw staying (
              user,
              refl,
              reauthorize-IsEntitled decides refreshed.context.info.subscriptions refreshed
                  (λ topic held. inl held) run,
            )
      ]
