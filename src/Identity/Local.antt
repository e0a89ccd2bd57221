-- ===== src/Identity/Local.antt =====
-- crates/identity/ras-identity-local/src/lib.rs. Argon2 and serde_json are other crates, as are
-- tokio's semaphore and its blocking tasks: what they answer is an argument. The limit of hashes at
-- one time is not modelled.
pub mod Adding
pub mod Login
pub mod Examples
use rust_api_stack.Base.{
  ℕ, Bool, true, false, not, ◌||◌, Option, none, some, List, [], ltb, if◌then◌else◌, length,
  is_some, Result, ok, err, ok_or, map_err, reject_if, ◌>>=◌, ◌>>◌,
}
use rust_api_stack.Base.Text.{Text, Text-eq, codes, bytes, Message, say, about}
use rust_api_stack.Base.HashMap.{HashMap, get, insert, remove, contains_key}
use rust_api_stack.Identity.Session.{
  VerifiedIdentity, IdentityError, invalid_credentials, provider_error, invalid_payload,
  IdentityResult,
}

abbrev pub max_password_bytes : ℕ
max_password_bytes = 1024

pub record LocalUser (J : Type 0) : Type 0 where
  pub username : Text
  pub password_hash : Text
  pub email : Option Text
  pub display_name : Option Text
  pub metadata : Option J

pub record LocalAuthPayload : Type 0 where
  pub username : Text
  pub password : Text

pub data LocalUserError : Type 0 where
  user_already_exists : Text → LocalUserError
  password_hash_error : Text → LocalUserError
  password_too_long : ℕ → LocalUserError
  hash_task_failed : LocalUserError

-- `hash_password` with a salt, as a PHC string, `PasswordHash::new`, and `verify_password`.
pub record Argon2 : Type 0 where
  pub hash_password : (password : List ℕ) (salt : Text) → Result Text Text
  pub parse : Text → Result Text Text
  pub verify_password : (password : List ℕ) (parsed : Text) → Bool

-- Whether a permit was acquired and whether the blocking task came back, and the salt.
pub record Task : Type 0 where
  pub acquired : Bool
  pub joined : Bool
  pub salt : Text

abbrev pub sentinel_hash : Text
sentinel_hash =
    codes
      "$argon2id$v=19$m=19456,t=2,p=1$9QsJRKgzJkKaOUvlp7gl2Q$qmE3qIFBNJ6nZYbLYXEI2uo0zZc7T0Q8LU1ZsqsZ3QE"

abbrev pub Users : Type 0 → Type 0
Users J = HashMap Text (LocalUser J)

unfoldable pub new_users : {J : Type 0} → Users J
new_users = []

-- What is known of the user who logs in.
abbrev pub hash_of : {J : Type 0} → Option (LocalUser J) → Text
hash_of none = sentinel_hash
hash_of (some user) = user.password_hash

-- The blocking task: whether the password is valid.
unfoldable pub check_password : Argon2 → Text → Text → IdentityResult Bool
check_password argon password password_hash = do
  parsed ← map_err (λ e. provider_error (about "" e)) (argon.parse password_hash)
  ok (argon.verify_password (bytes password) parsed)

module _ {J : Type 0} (argon : Argon2) where
  -- `add_user` until the user is made, with the users under the read lock.
  unfoldable pub add_user_begin :
      Task
      → (username password : Text) (email display_name : Option Text) → Users J
      → Result LocalUserError (LocalUser J)
  add_user_begin task username password email display_name users = do
    reject_if (ltb max_password_bytes (length (bytes password)))
        (password_too_long max_password_bytes)
    reject_if (contains_key username users) (user_already_exists username)
    reject_if (not task.acquired || not task.joined) hash_task_failed
    password_hash ← map_err password_hash_error (argon.hash_password (bytes password) task.salt)
    ok (record {
      username = username;
      password_hash = password_hash;
      email = email;
      display_name = display_name;
      metadata = none;
    })

  unfoldable pub verify_user :
      Task → (username password : Text) → Users J → IdentityResult (LocalUser J)
  verify_user task username password users = do
    reject_if (not task.acquired) (provider_error (say "local auth limiter closed"))
    reject_if (ltb max_password_bytes (length (bytes password))) invalid_credentials
    let user = get username users
    let checked = check_password argon password (hash_of user)
    reject_if (not task.joined) (provider_error (say "password verification task failed"))
    password_valid ← checked
    if password_valid then ok_or user invalid_credentials else err invalid_credentials

  -- `from_value` is serde_json's, on a payload; `none` is any error.
  unfoldable pub verify :
      (J → Option LocalAuthPayload) → Task → J → Users J → IdentityResult (VerifiedIdentity J)
  verify from_value task auth_payload users = do
    payload ← ok_or (from_value auth_payload) invalid_payload
    user ← verify_user task payload.username payload.password users
    ok (record {
      provider_id = codes "local";
      subject = user.username;
      email = user.email;
      display_name = user.display_name;
      metadata = user.metadata;
    })

module _ {J : Type 0} where
  -- `add_user` from its write lock on: the users may have changed since the first half.
  unfoldable pub add_user_finish :
      LocalUser J → Users J → Users J × Result LocalUserError (Unit {0})
  add_user_finish user users =
      if contains_key user.username users
      then (users, err (user_already_exists user.username))
      else (insert user.username user users, ok tt)

  unfoldable pub remove_user : Text → Users J → Users J × Option (LocalUser J)
  remove_user username users = (remove username users, get username users)

-- `add_user` with nothing in between.
unfoldable pub add_user :
    {J : Type 0}
    → Argon2
    → Task
    → (username password : Text) (email display_name : Option Text) → Users J
    → Users J × Result LocalUserError (Unit {0})
add_user argon task username password email display_name users =
    elim (add_user_begin argon task username password email display_name users) [
      | err e ↦ (users, err e)
      | ok user ↦ add_user_finish user users
    ]
