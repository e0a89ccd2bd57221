-- ===== src/Identity/StateStore/Capacity.antt =====
-- state.rs, the store's operations: its bound, single use, and what a burst of new flows costs.
use rust_api_stack.Base.{
  ℕ, ◌-◌, ◌≤◌, ◌≡◌, refl, ◌∙◌, inl, inr, Bool, true, false, not, ◌&&◌, List, [], ◌∷◌, arith, length,
  Bool-cases,
}
use Prim.Native.Nat.{max}
use rust_api_stack.Base.Text.{Text, Text-eq}
use rust_api_stack.Base.HashMap.{
  IsMap, contains_key, length-insert, length-remove-le, insert-IsMap, remove-IsMap,
}
use rust_api_stack.Base.Int.{ℤ}
use rust_api_stack.Identity.StateStore.{
  OAuth2State, InMemoryStateStore, Clock, prune_expired, is_full, with_capacity, make_room, store,
  retrieve, cleanup_expired,
}
use rust_api_stack.Identity.StateStore.Prune.{
  prune_expired-IsMap, length-prune_expired-le, max_states-prune_expired,
}
use rust_api_stack.Identity.StateStore.Evict.{
  evict_oldest-IsMap, length-evict_oldest, max_states-evict_oldest,
}

-- A call of the store, with its clock readings.
pub data Call (J : Type 0) : Type 0 where
  stores : Clock → Clock → OAuth2State J → Call J
  retrieves : ℤ → Text → Call J
  cleans : Clock → Call J

module _ {J : Type 0} where
  unfoldable pub step : InMemoryStateStore J → Call J → InMemoryStateStore J
  step s (stores first second state) = store first second state s
  step s (retrieves now key) = (retrieve now key s).0
  step s (cleans now) = (cleanup_expired now s).0

  unfoldable pub run : InMemoryStateStore J → List (Call J) → InMemoryStateStore J
  run s [] = s
  run s (c ∷ cs) = run (step s c) cs

  -- One entry to a state parameter, and no more of them than the capacity (one, if that is 0).
  pub record IsBounded (s : InMemoryStateStore J) : Type 0 where
    pub keyed : IsMap s.states
    pub bounded : length s.states ≤ max s.max_states 1

  make_room-keyed :
      (now : Clock) (s : InMemoryStateStore J) → IsMap s.states → IsMap (make_room now s).states
  unfolding make_room
  make_room-keyed now s h =
      let swept = (prune_expired true now s).0 in
      let k : IsMap swept.states = prune_expired-IsMap true now s h in
      ground (arith, k, evict_oldest-IsMap swept k)

  -- Making room leaves a free place, unless the capacity is 0.
  length-make_room :
      (now : Clock) (s : InMemoryStateStore J)
      → IsBounded s
      → length (make_room now s).states ≤ max s.max_states 1 - 1
  unfolding make_room
  length-make_room now s v =
      let swept = (prune_expired true now s).0 in
      ground (
        arith,
        length-evict_oldest swept (prune_expired-IsMap true now s v.keyed),
        length-prune_expired-le true now s,
        max_states-prune_expired true now s,
      )

  max_states-make_room :
      (now : Clock) (s : InMemoryStateStore J) → (make_room now s).max_states ≡ s.max_states
  unfolding make_room
  max_states-make_room now s = ground (
    arith,
    max_states-prune_expired true now s,
    max_states-evict_oldest (prune_expired true now s).0,
  )

  prune_expired-IsBounded :
      (force : Bool) (now : Clock) (s : InMemoryStateStore J)
      → IsBounded s
      → IsBounded (prune_expired force now s).0
  prune_expired-IsBounded force now s v = record {
    keyed = prune_expired-IsMap force now s v.keyed;
    bounded =
        ground (arith, length-prune_expired-le force now s, max_states-prune_expired force now s);
  }

  store-IsBounded :
      (first second : Clock) (state : OAuth2State J) (s : InMemoryStateStore J)
      → IsBounded s
      → IsBounded (store first second state s)
  unfolding store
  store-IsBounded first second state s v =
      let swept = (prune_expired false first s).0 in
      let w : IsBounded swept = prune_expired-IsBounded false first s v in
      elim (Bool-cases (is_full swept && not (contains_key state.state swept.states))) [
        | inl full ↦ rw full (record {
          keyed = insert-IsMap _ _ _ (make_room-keyed second swept w.keyed);
          bounded = ground (
            arith,
            length-insert state.state state (make_room second swept).states,
            length-make_room second swept w,
            max_states-make_room second swept,
          );
        })
        | inr free ↦ rw free (record {
          keyed = insert-IsMap _ _ _ w.keyed;
          bounded = ground (arith, length-insert state.state state swept.states, w.bounded);
        })
      ]

  step-IsBounded : (s : InMemoryStateStore J) (c : Call J) → IsBounded s → IsBounded (step s c)
  unfolding step retrieve cleanup_expired
  step-IsBounded s (stores first second state) v = store-IsBounded first second state s v
  step-IsBounded s (retrieves now key) v =
      ground (arith, length-remove-le key s.states, remove-IsMap key s.states v.keyed)
  step-IsBounded s (cleans now) v = prune_expired-IsBounded true now s v

  run-IsBounded :
      (s : InMemoryStateStore J) (cs : List (Call J)) → IsBounded s → IsBounded (run s cs)
  unfolding run
  run-IsBounded s [] v = v
  run-IsBounded s (c ∷ cs) v = run-IsBounded (step s c) cs (step-IsBounded s c v)

  max_states-step : (s : InMemoryStateStore J) (c : Call J) → (step s c).max_states ≡ s.max_states
  unfolding step store retrieve cleanup_expired
  max_states-step s (stores first second state) =
      let swept = (prune_expired false first s).0 in
      ground (arith, max_states-prune_expired false first s, max_states-make_room second swept)
  max_states-step s (retrieves now key) = ground arith
  max_states-step s (cleans now) = max_states-prune_expired true now s

  max_states-run :
      (s : InMemoryStateStore J) (cs : List (Call J)) → (run s cs).max_states ≡ s.max_states
  unfolding run
  max_states-run s [] = refl
  max_states-run s (c ∷ cs) = max_states-run (step s c) cs ∙ max_states-step s c

-- Whatever calls are made on a new store, with whatever clock readings, it never holds more than
-- its capacity of pending flows (one, if the capacity is 0), and never two with one state parameter.
pub run_bounded :
    {J : Type 0} (now max_states : ℕ) (cs : List (Call J))
    → let s = run (with_capacity now max_states) cs in
      IsMap s.states × (length s.states ≤ max max_states 1)
unfolding with_capacity
run_bounded now max_states cs =
    let new = with_capacity now max_states in
    let v = run-IsBounded new cs (record { keyed = tt; bounded = omega arith }) in
    (v.keyed, omega (arith, v.bounded, max_states-run new cs))
