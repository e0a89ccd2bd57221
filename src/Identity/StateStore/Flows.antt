-- ===== src/Identity/StateStore/Flows.antt =====
-- state.rs, one flow through the store: it is found once, and a burst of new flows costs the
-- flows nearest to expiry.
use rust_api_stack.Base.{
  ◌≤◌, ◌≡◌, ◌≢◌, ◌⊎◌, inl, inr, true, false, not, ◌&&◌, none, some, List, [], ◌∷◌, arith, length,
  Bool-cases, ok, err, All, ◌↔◌,
}
use rust_api_stack.Base.Text.{Text, Text-eq, text_eq_iff}
use rust_api_stack.Base.HashMap.{
  IsMap, get, contains_key, get-insert, get-remove, get-remove_self, get-insert_self,
}
use rust_api_stack.Base.Int.{ℤ, ◌≤ℤ◌}
use rust_api_stack.Identity.StateStore.{
  OAuth2State, state_not_found, InMemoryStateStore, Clock, prune_expired, older, is_full, make_room,
  store, retrieve, cleanup_expired,
}
use rust_api_stack.Identity.StateStore.Prune.{
  prune_expired-IsMap, length-prune_expired-le, max_states-prune_expired, get-prune_expired,
  get-prune_expired-none,
}
use rust_api_stack.Identity.StateStore.Evict.{get-evict_oldest, get-evict_oldest-none}
use rust_api_stack.Identity.StateStore.Capacity.{Call, stores, retrieves, cleans, step, run}

module _ {J : Type 0} where
  -- `retrieve` succeeds exactly on a pending flow that has not expired.
  pub retrieve-eq-ok_iff :
      (now : ℤ) (key : Text) (s : InMemoryStateStore J) (found : OAuth2State J)
      → ((retrieve now key s).1 ≡ ok found)
        ↔ ((get key s.states ≡ some found) × (now ≤ℤ found.expires_at))
  unfolding retrieve
  retrieve-eq-ok_iff now key s found = ground arith

  get-store_self :
      (first second : Clock) (state : OAuth2State J) (s : InMemoryStateStore J)
      → get state.state (store first second state s).states ≡ some state
  unfolding store
  get-store_self first second state s = get-insert_self state.state state _

  -- A stored flow is what the callback with its state parameter gets, until it expires.
  pub retrieve-store :
      (first second : Clock) (now : ℤ) (state : OAuth2State J) (s : InMemoryStateStore J)
      → now ≤ℤ state.expires_at
      → (retrieve now state.state (store first second state s)).1 ≡ ok state
  retrieve-store first second now state s h =
      (retrieve-eq-ok_iff now state.state _ state).1 (get-store_self first second state s, h)

  get-make_room-none :
      (now : Clock) (key : Text) (s : InMemoryStateStore J)
      → get key s.states ≡ none
      → get key (make_room now s).states ≡ none
  unfolding make_room
  get-make_room-none now key s h =
      let swept = (prune_expired true now s).0 in
      let k : get key swept.states ≡ none = get-prune_expired-none true now s key h in
      ground (arith, k, get-evict_oldest-none swept key k)

  -- The calls that start no flow with this state parameter.
  abbrev pub Leaves : Text → Call J → Type 0
  Leaves key (stores first second state) = state.state ≢ key
  Leaves key (retrieves now other) = Unit
  Leaves key (cleans now) = Unit

  step_absent :
      (key : Text) (s : InMemoryStateStore J) (c : Call J)
      → Leaves key c
      → get key s.states ≡ none
      → get key (step s c).states ≡ none
  unfolding step store retrieve cleanup_expired
  step_absent key s (stores first second state) l h =
      let swept = (prune_expired false first s).0 in
      let k : get key swept.states ≡ none = get-prune_expired-none false first s key h in
      ground (
        arith,
        get-insert state.state key state swept.states,
        get-insert state.state key state (make_room second swept).states,
        get-make_room-none second key swept k,
        text_eq_iff state.state key,
      )
  step_absent key s (retrieves now other) l h = ground (arith, get-remove other key s.states)
  step_absent key s (cleans now) l h = get-prune_expired-none true now s key h

  run_absent :
      (key : Text) (s : InMemoryStateStore J) (cs : List (Call J))
      → All (Leaves key) cs
      → get key s.states ≡ none
      → get key (run s cs).states ≡ none
  unfolding run
  run_absent key s [] l h = h
  run_absent key s (c ∷ cs) l h = run_absent key (step s c) cs l.1 (step_absent key s c l.0 h)

  pub get-retrieve-none :
      (now : ℤ) (key : Text) (s : InMemoryStateStore J)
      → get key (retrieve now key s).0.states ≡ none
  unfolding retrieve
  get-retrieve-none now key s = ground (arith, get-remove_self key s.states)

  retrieve_absent :
      (now : ℤ) (key : Text) (s : InMemoryStateStore J)
      → get key s.states ≡ none
      → (retrieve now key s).1 ≡ err state_not_found
  unfolding retrieve
  retrieve_absent now key s h = ground arith

  -- A state parameter is good for one callback: after one `retrieve`, whether it succeeded or not,
  -- any later one fails, whatever calls come between, unless a flow is stored under it again.
  pub retrieve_once :
      (key : Text) (now later : ℤ) (s : InMemoryStateStore J) (cs : List (Call J))
      → All (Leaves key) cs
      → (retrieve later key (run (retrieve now key s).0 cs)).1 ≡ err state_not_found
  retrieve_once key now later s cs l =
      retrieve_absent later key _ (run_absent key _ cs l (get-retrieve-none now key s))

  -- A flow that both clock readings find unexpired.
  abbrev pub IsLive : Clock → Clock → OAuth2State J → Type 0
  IsLive first second v = (first.utc ≤ℤ v.expires_at) × (second.utc ≤ℤ v.expires_at)

  -- No live flow of the store is older.
  abbrev pub IsNearestToExpiry : Clock → Clock → InMemoryStateStore J → OAuth2State J → Type 0
  IsNearestToExpiry first second s w =
      (i : Text) (u : OAuth2State J)
      → get i s.states ≡ some u
      → IsLive first second u
      → older w u ≡ true

  make_room-keeps :
      (first second : Clock) (s : InMemoryStateStore J) (j : Text) (w : OAuth2State J)
      → IsMap s.states
      → get j s.states ≡ some w
      → IsLive first second w
      → (get j (make_room second s).states ≡ some w)
        ⊎ ((s.max_states ≤ length s.states) × IsNearestToExpiry first second s w)
  unfolding make_room
  make_room-keeps first second s j w h g live =
      let swept = (prune_expired true second s).0 in
      let stays = get-prune_expired true second s in
      let g' : get j swept.states ≡ some w = stays j w h g (ground arith) in
      elim (Bool-cases (is_full swept)) [
        | inr free ↦ inl (rw free g')
        | inl full ↦ elim (get-evict_oldest swept j w (prune_expired-IsMap true second s h) g') [
          | inl kept ↦ inl (rw full kept)
          | inr least ↦ inr (
            ground (
              arith,
              max_states-prune_expired true second s,
              length-prune_expired-le true second s,
            ),
            λ i u gu lu. least i u (stays i u h gu (ground arith)),
          )
        ]
      ]

  -- Storing another flow keeps a live flow, or takes it, and then the store was full and no live
  -- flow was nearer to expiry.
  pub store-keeps_live :
      (first second : Clock) (state : OAuth2State J) (s : InMemoryStateStore J) (j : Text)
      (w : OAuth2State J)
      → IsMap s.states
      → state.state ≢ j
      → get j s.states ≡ some w
      → IsLive first second w
      → (get j (store first second state s).states ≡ some w)
        ⊎ ((s.max_states ≤ length s.states) × IsNearestToExpiry first second s w)
  unfolding store
  store-keeps_live first second state s j w h other g live =
      let swept = (prune_expired false first s).0 in
      let stays = get-prune_expired false first s in
      let g' : get j swept.states ≡ some w = stays j w h g (ground arith) in
      elim (Bool-cases (is_full swept && not (contains_key state.state swept.states))) [
        | inr free ↦ inl (
            rw free (
              ground
                (arith, get-insert state.state j state swept.states, text_eq_iff state.state j)))
        | inl full ↦
            elim (make_room-keeps first second swept j w (prune_expired-IsMap false first s h) g'
              live) [
                | inl kept ↦ inl (
                    rw full (
                      ground (
                        arith,
                        get-insert state.state j state (make_room second swept).states,
                        text_eq_iff state.state j,
                      )))
                | inr (crowded, least) ↦ inr (
                  omega (
                    arith,
                    max_states-prune_expired false first s,
                    length-prune_expired-le false first s,
                  ),
                  λ i u gu lu. least i u (stays i u h gu (ground arith)) lu,
                )
              ]
      ]
