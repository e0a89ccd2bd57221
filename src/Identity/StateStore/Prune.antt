-- ===== src/Identity/StateStore/Prune.antt =====
-- state.rs, `Inner::prune_expired`: sweeps take expired flows only.
use rust_api_stack.Base.{◌≤◌, ◌≡◌, Bool, true, none, some, arith, length, length-filter-le}
use rust_api_stack.Base.Text.{Text, Text-eq}
use rust_api_stack.Base.HashMap.{IsMap, get, get-retain, get-filter-none, retain-IsMap}
use rust_api_stack.Base.Int.{leb_ℤ}
use rust_api_stack.Identity.StateStore.{
  OAuth2State, InMemoryStateStore, Clock, pending, prune_expired,
}

module _ {J : Type 0} (force : Bool) (now : Clock) (s : InMemoryStateStore J) where
  pub prune_expired-IsMap : IsMap s.states → IsMap (prune_expired force now s).0.states
  unfolding prune_expired
  prune_expired-IsMap h = ground (arith, retain-IsMap (pending now.utc) s.states h)

  pub length-prune_expired-le : length (prune_expired force now s).0.states ≤ length s.states
  unfolding prune_expired
  length-prune_expired-le = ground (arith, length-filter-le (pending now.utc) s.states)

  pub max_states-prune_expired : (prune_expired force now s).0.max_states ≡ s.max_states
  unfolding prune_expired
  max_states-prune_expired = ground arith

  -- A flow that has not expired stays.
  pub get-prune_expired :
      (k : Text) (v : OAuth2State J)
      → IsMap s.states
      → get k s.states ≡ some v
      → leb_ℤ now.utc v.expires_at ≡ true
      → get k (prune_expired force now s).0.states ≡ some v
  unfolding prune_expired
  get-prune_expired k v h g live = ground (arith, get-retain (pending now.utc) k s.states h)

  pub get-prune_expired-none :
      (k : Text) → get k s.states ≡ none → get k (prune_expired force now s).0.states ≡ none
  unfolding prune_expired
  get-prune_expired-none k g = ground (arith, get-filter-none (pending now.utc) k s.states g)

  -- What is there after a sweep was there before.
  pub get-prune_expired_before :
      (k : Text) (v : OAuth2State J)
      → IsMap s.states
      → get k (prune_expired force now s).0.states ≡ some v
      → get k s.states ≡ some v
  unfolding prune_expired
  get-prune_expired_before k v h g = ground (arith, get-retain (pending now.utc) k s.states h)

module _ {J : Type 0} (now : Clock) (s : InMemoryStateStore J) where
  -- After a forced sweep no expired flow is left, and the sweep reports how many it took.
  pub prune_expired_forced :
      (k : Text) (v : OAuth2State J)
      → IsMap s.states
      → get k (prune_expired true now s).0.states ≡ some v
      → leb_ℤ now.utc v.expires_at ≡ true
  unfolding prune_expired
  prune_expired_forced k v h g = ground (arith, get-retain (pending now.utc) k s.states h)
