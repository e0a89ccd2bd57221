-- ===== src/Identity/Local/Examples.antt =====
-- Users of a local provider, with a toy hash.
use rust_api_stack.Base.{ℕ, ◌≡◌, refl, true, false, none, some, List, [], ◌∷◌, ok, err, arith}
use rust_api_stack.Base.Text.{Text, Text-eq, codes, text_eq, text_eq_iff, bytes, utf8}
use rust_api_stack.Base.HashMap.{get, insert}
use rust_api_stack.Identity.Session.{invalid_payload}
use rust_api_stack.Identity.Local.{
  LocalUser, Argon2, Task, Users, new_users, sentinel_hash, add_user, add_user_begin,
  add_user_finish, verify_user, verify,
}
use rust_api_stack.Identity.Local.Adding.{
  finish, removal, apply_all, IsKeyed, reachable-IsKeyed, add_user-never_replaces,
}
use rust_api_stack.Identity.Local.Login.{verify_user-add_user, verify_user-uniform}

abbrev argon : Argon2
argon = record {
  hash_password = λ password salt. ok password;
  parse = λ hash. ok hash;
  verify_password = λ password parsed. text_eq password parsed;
}

own_hash :
    (input : List ℕ) (salt hash : Text)
    → argon.hash_password input salt ≡ ok hash
    → (parsed : Text) × (argon.parse hash ≡ ok parsed) × (argon.verify_password input parsed ≡ true)
own_hash input salt hash h = (hash, refl, ground (arith, text_eq_iff input hash))

abbrev ran : Task
ran = record { acquired = true; joined = true; salt = [] }

abbrev ann : LocalUser ℕ
ann = record {
  username = codes "ann";
  password_hash = codes "pw";
  email = none;
  display_name = none;
  metadata = none;
}

abbrev empty_users : Users ℕ
empty_users = []

abbrev users : Users ℕ
users = (codes "ann", ann) ∷ []

added : add_user argon ran (codes "ann") (codes "pw") none none empty_users ≡ (users, ok tt)
unfolding add_user add_user_begin add_user_finish get insert bytes utf8
added = refl

verify_user-add_user_example :
    (user : LocalUser ℕ) × (verify_user argon ran (codes "ann") (codes "pw") users ≡ ok user)
    × (user.username ≡ codes "ann")
verify_user-add_user_example =
    verify_user-add_user argon ran ran (codes "ann") (codes "pw") none none empty_users users
      own_hash refl refl added

ann_there : get (codes "ann") users ≡ some ann
unfolding get text_eq
ann_there = refl

eve_missing : get (codes "eve") users ≡ none
unfolding get text_eq
eve_missing = refl

wrong : argon.verify_password (bytes (codes "no")) (codes "pw") ≡ false
unfolding text_eq bytes utf8
wrong = refl

verify_user-uniform_example :
    verify_user argon ran (codes "ann") (codes "no") users
    ≡ verify_user argon ran (codes "eve") (codes "no") users
verify_user-uniform_example =
    verify_user-uniform argon ran (codes "ann") (codes "eve") (codes "no") users ann (codes "pw")
      sentinel_hash ann_there eve_missing refl refl wrong

reachable-IsKeyed_example : IsKeyed (apply_all (finish ann ∷ removal (codes "eve") ∷ []) new_users)
reachable-IsKeyed_example = reachable-IsKeyed (finish ann ∷ removal (codes "eve") ∷ [])

spared : text_eq (codes "eve") (codes "ann") ≡ false
unfolding text_eq
spared = refl

add_user-never_replaces_example :
    get (codes "ann") (
      apply_all
        (finish (record ann { password_hash = codes "new" }) ∷ removal (codes "eve") ∷ [])
        users)
    ≡ some ann
add_user-never_replaces_example =
    add_user-never_replaces (codes "ann") ann
      (finish (record ann { password_hash = codes "new" }) ∷ removal (codes "eve") ∷ []) users
      (tt, (spared, tt)) ann_there

-- A payload that does not deserialize is refused before any user is looked up.
refused : verify argon (λ payload. none) ran 0 users ≡ err invalid_payload
unfolding verify
refused = refl
