-- ===== src/Identity/Local/Adding.antt =====
-- Users under concurrent calls: each call is its locked parts, in any order with those of others.
use rust_api_stack.Base.{◌≡◌, false, some, List, [], ◌∷◌, arith}
use rust_api_stack.Base.Text.{Text, Text-eq, text_eq, text_eq_iff}
use rust_api_stack.Base.HashMap.{get, get-insert, get-remove}
use rust_api_stack.Identity.Local.{LocalUser, Users, add_user_finish, remove_user, new_users}

-- The two calls that write.
pub data Write (J : Type 0) : Type 0 where
  finish : LocalUser J → Write J
  removal : Text → Write J

module _ {J : Type 0} where
  abbrev pub apply : Write J → Users J → Users J
  apply (finish user) users = (add_user_finish user users).0
  apply (removal username) users = (remove_user username users).0

  abbrev pub apply_all : List (Write J) → Users J → Users J
  apply_all [] users = users
  apply_all (w ∷ ws) users = apply_all ws (apply w users)

  -- Each user is kept under their own name.
  abbrev pub IsKeyed : Users J → Type 0
  IsKeyed users =
      (name : Text) (user : LocalUser J) → get name users ≡ some user → user.username ≡ name

  apply-IsKeyed : (w : Write J) (users : Users J) → IsKeyed users → IsKeyed (apply w users)
  unfolding add_user_finish remove_user
  apply-IsKeyed (finish user) users keyed name found h = ground (
    arith,
    get-insert user.username name user users,
    text_eq_iff user.username name,
    keyed name found,
  )
  apply-IsKeyed (removal username) users keyed name found h =
      ground (arith, get-remove username name users, keyed name found)

  apply_all-IsKeyed :
      (ws : List (Write J)) (users : Users J) → IsKeyed users → IsKeyed (apply_all ws users)
  apply_all-IsKeyed [] users keyed = keyed
  apply_all-IsKeyed (w ∷ ws) users keyed =
      apply_all-IsKeyed ws (apply w users) (apply-IsKeyed w users keyed)

  -- From an empty provider, any sequence of writes keeps every user under their own name.
  pub reachable-IsKeyed : (ws : List (Write J)) → IsKeyed (apply_all ws new_users)
  unfolding new_users get
  reachable-IsKeyed ws = apply_all-IsKeyed ws new_users λ name user h. cc

  abbrev pub Spares : Text → Write J → Type 0
  Spares name (finish user) = Unit
  Spares name (removal username) = text_eq username name ≡ false

  abbrev pub AllSpare : Text → List (Write J) → Type 0
  AllSpare name [] = Unit
  AllSpare name (w ∷ ws) = Spares name w × AllSpare name ws

  apply-keeps :
      (name : Text) (user : LocalUser J) (w : Write J) (users : Users J)
      → Spares name w
      → get name users ≡ some user
      → get name (apply w users) ≡ some user
  unfolding add_user_finish remove_user
  apply-keeps name user (finish added) users spares h =
      ground (arith, get-insert added.username name added users, text_eq_iff added.username name)
  apply-keeps name user (removal username) users spares h =
      ground (arith, get-remove username name users)

  -- However the calls of `add_user` overlap, none replaces a user who is there: a user stays as they
  -- were made until `remove_user` is called with their name.
  pub add_user-never_replaces :
      (name : Text) (user : LocalUser J) (ws : List (Write J)) (users : Users J)
      → AllSpare name ws
      → get name users ≡ some user
      → get name (apply_all ws users) ≡ some user
  add_user-never_replaces name user [] users spare h = h
  add_user-never_replaces name user (w ∷ ws) users spare h =
      add_user-never_replaces name user ws (apply w users) spare.1
        (apply-keeps name user w users spare.0 h)
