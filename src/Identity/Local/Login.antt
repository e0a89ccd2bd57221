-- ===== src/Identity/Local/Login.antt =====
-- Who can log in, and what a failed login shows.
use rust_api_stack.Base.{
  ℕ, ◌≡◌, refl, ◌∙◌, subst, ◌↔◌, ◌≤◌, Bool, true, false, not, ◌||◌, Option, none, some, List, arith,
  ltb, length, Result, ok, err, map_err, reject_if, >>=-eq-ok, map_err-eq-ok,
}
use rust_api_stack.Base.Text.{Text, Text-eq, bytes, about}
use rust_api_stack.Base.HashMap.{get, insert, contains_key, get-insert_self}
use rust_api_stack.Identity.Session.{invalid_credentials, provider_error}
use rust_api_stack.Identity.Local.{
  LocalUser, LocalUserError, Argon2, Task, Users, max_password_bytes, sentinel_hash, hash_of,
  check_password, verify_user, add_user, add_user_begin, add_user_finish,
}

check_password-eq-ok :
    (argon : Argon2) (password password_hash : Text) (valid : Bool)
    → check_password argon password password_hash ≡ ok valid
    → (parsed : Text) × (argon.parse password_hash ≡ ok parsed)
      × (argon.verify_password (bytes password) parsed ≡ valid)
unfolding check_password
check_password-eq-ok argon password password_hash valid h =
    let (parsed, p, v) =
      >>=-eq-ok (map_err (λ e. provider_error (about "" e)) (argon.parse password_hash)) _ h in
    (parsed, map_err-eq-ok _ _ p, cc)

module _ {J : Type 0} (argon : Argon2) where
  -- The stored hash of the user of that name fits the password.
  pub IsLogin : Task → Text → Text → Users J → LocalUser J → Type 0
  IsLogin task username password users user =
      (task.acquired ≡ true)
      × (task.joined ≡ true)
      × (length (bytes password) ≤ max_password_bytes)
      × (get username users ≡ some user)
      × ((parsed : Text) × (argon.parse user.password_hash ≡ ok parsed)
          × (argon.verify_password (bytes password) parsed ≡ true))

  -- A login succeeds exactly for a user who is there, with a password of at most 1024 bytes that the
  -- user's own hash accepts, when the task runs; never on the hash that stands in for a missing user.
  pub verify_user-eq-ok_iff :
      (task : Task) (username password : Text) (users : Users J) (user : LocalUser J)
      → (verify_user argon task username password users ≡ ok user)
        ↔ IsLogin task username password users user
  unfolding verify_user check_password IsLogin
  verify_user-eq-ok_iff task username password users user = (
    λ h.
        let (a, acquired, h) = >>=-eq-ok (reject_if (not task.acquired) _) _ h in
        let (b, short, h) =
          >>=-eq-ok
            (reject_if (ltb max_password_bytes (length (bytes password))) invalid_credentials) _
            h in
        let (c, joined, h) = >>=-eq-ok (reject_if (not task.joined) _) _ h in
        let (valid, checked, h) =
          >>=-eq-ok (check_password argon password (hash_of (get username users))) _ h in
        let (parsed, p, v) =
          check_password-eq-ok argon password (hash_of (get username users)) valid checked in
        let on : valid ≡ true = ground arith in
        let found : get username users ≡ some user = ground arith in
        (
          ground arith,
          ground arith,
          ground arith,
          found,
          (parsed, subst (λ o. argon.parse (hash_of o) ≡ ok parsed) found p, v ∙ on),
        ),
    λ (acquired, joined, short, found, (parsed, p, v)).
        rw (acquired, joined, found, p, v) (ground arith),
  )

  -- A user whom `add_user` has added logs in with the same password, where Argon2 verifies a password
  -- against its own hash, and the task runs.
  pub verify_user-add_user :
      (task later : Task) (username password : Text) (email display_name : Option Text)
      (users users' : Users J)
      → ((input : List ℕ) (salt hash : Text)
          → argon.hash_password input salt ≡ ok hash
          → (parsed : Text) × (argon.parse hash ≡ ok parsed)
            × (argon.verify_password input parsed ≡ true))
      → later.acquired ≡ true
      → later.joined ≡ true
      → add_user argon task username password email display_name users ≡ (users', ok tt)
      → (user : LocalUser J) × (verify_user argon later username password users' ≡ ok user)
        × (user.username ≡ username)
  unfolding add_user add_user_begin add_user_finish IsLogin
  verify_user-add_user task later username password email display_name users users' own_hash on back
        h =
      go (add_user_begin argon task username password email display_name users) refl h
    where
      go :
          (r : Result LocalUserError (LocalUser J))
          → add_user_begin argon task username password email display_name users ≡ r
          → add_user argon task username password email display_name users ≡ (users', ok tt)
          → (user : LocalUser J) × (verify_user argon later username password users' ≡ ok user)
            × (user.username ≡ username)
      go (err e) made h = cc (rw (add_user, made) at h)
      go (ok user) made h =
          let finished : add_user_finish user users ≡ (users', ok tt) = rw (add_user, made) at h in
          let (a, short, q) =
            >>=-eq-ok (reject_if (ltb max_password_bytes (length (bytes password))) _) _ made in
          let (b, free, q) = >>=-eq-ok (reject_if (contains_key username users) _) _ q in
          let (c, ran, q) = >>=-eq-ok (reject_if (not task.acquired || not task.joined) _) _ q in
          let (hash, hashed, same) =
            >>=-eq-ok (map_err _ (argon.hash_password (bytes password) task.salt)) _ q in
          let (parsed, p, v) =
            own_hash (bytes password) task.salt hash (map_err-eq-ok _ _ hashed) in
          let named : user.username ≡ username = ground arith in
          let hashed_as : user.password_hash ≡ hash = ground arith in
          let stored : users' ≡ insert user.username user users = ground arith in
          let there : get username users' ≡ some user =
            subst (λ name. get name users' ≡ some user) named
              (rw stored (get-insert_self user.username user users)) in
          (
            user,
            (verify_user-eq-ok_iff later username password users' user).1
                (on, back, ground arith, there, (parsed, rw hashed_as p, v)),
            named,
          )

  -- A wrong password and an unknown user get the same answer, wherever both hashes can be read.
  pub verify_user-uniform :
      (task : Task) (username other password : Text) (users : Users J) (user : LocalUser J)
      (parsed parsed' : Text)
      → get username users ≡ some user
      → get other users ≡ none
      → argon.parse user.password_hash ≡ ok parsed
      → argon.parse sentinel_hash ≡ ok parsed'
      → argon.verify_password (bytes password) parsed ≡ false
      → verify_user argon task username password users ≡ verify_user argon task other password users
  unfolding verify_user check_password
  verify_user-uniform task username other password users user parsed parsed' there missing p p'
        wrong =
      rw (there, missing, p, p', wrong) (ground arith)
