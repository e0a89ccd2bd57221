-- ===== src/Identity/StateStore/Examples.antt =====
-- Two pending flows in a store for one.
use Prim.Native.Nat.{max}
use rust_api_stack.Base.{
  ℕ, ◌≤◌, ◌≡◌, ◌≢◌, ◌↔◌, ◌⊎◌, refl, none, some, [], ◌∷◌, length, ok, err, arith,
}
use rust_api_stack.Base.Text.{Text, Text-eq, codes, text_eq, text_eq_iff}
use rust_api_stack.Base.HashMap.{IsMap, get}
use rust_api_stack.Base.Int.{pos, ◌≤ℤ◌, ◌+ℤ◌}
use rust_api_stack.Identity.StateStore.{
  OAuth2State, state_not_found, Clock, InMemoryStateStore, new_state, with_capacity, store,
  retrieve,
}
use rust_api_stack.Identity.StateStore.Capacity.{stores, cleans, run, run_bounded}
use rust_api_stack.Identity.StateStore.Flows.{
  retrieve-eq-ok_iff, retrieve_once, IsNearestToExpiry, store-keeps_live,
}

abbrev clock : Clock
clock = record { instant = 0; utc = pos 5 }

abbrev flow : Text → ℕ → OAuth2State ℕ
flow key expires = record {
  state = key;
  provider_id = codes "google";
  redirect_uri = codes "https://app.test/cb";
  code_verifier = none;
  nonce = none;
  binding = none;
  created_at = pos 1;
  expires_at = pos expires;
  metadata = none;
}

abbrev full : InMemoryStateStore ℕ
full = record { states = (codes "a", flow (codes "a") 100) ∷ []; last_prune = 0; max_states = 1 }

run_bounded_example :
    let s = run (with_capacity 0 1) (
      stores clock clock (flow (codes "a") 100) ∷ stores clock clock (flow (codes "b") 200) ∷ []) in
    IsMap s.states × (length s.states ≤ max 1 1)
run_bounded_example =
    run_bounded 0 1
      (stores clock clock (flow (codes "a") 100) ∷ stores clock clock (flow (codes "b") 200) ∷ [])

retrieve_once_example :
    (retrieve (pos 7) (codes "a") (run (retrieve (pos 6) (codes "a") full).0 (cleans clock ∷ []))).1
    ≡ err state_not_found
retrieve_once_example = retrieve_once (codes "a") (pos 6) (pos 7) full (cleans clock ∷ []) (tt, tt)

retrieve-eq-ok_iff_example :
    ((retrieve (pos 6) (codes "a") full).1 ≡ ok (flow (codes "a") 100))
    ↔ ((get (codes "a") full.states ≡ some (flow (codes "a") 100)) × (pos 6 ≤ℤ pos 100))
retrieve-eq-ok_iff_example = retrieve-eq-ok_iff (pos 6) (codes "a") full (flow (codes "a") 100)

full-IsMap : IsMap full.states
unfolding get
full-IsMap = (refl, tt)

other_key : codes "b" ≢ codes "a"
unfolding text_eq
other_key e = cc ((text_eq_iff (codes "b") (codes "a")).1 e)

there : get (codes "a") full.states ≡ some (flow (codes "a") 100)
unfolding get text_eq
there = refl

store-keeps_live_example :
    (get (codes "a") (store clock clock (flow (codes "b") 200) full).states
      ≡ some (flow (codes "a") 100))
    ⊎ ((full.max_states ≤ length full.states)
        × IsNearestToExpiry clock clock full (flow (codes "a") 100))
store-keeps_live_example =
    store-keeps_live clock clock (flow (codes "b") 200) full (codes "a") (flow (codes "a") 100)
      full-IsMap other_key there (omega arith, omega arith)

-- A flow lives for its number of seconds, in nanoseconds.
new_flow :
    (new_state {J = ℕ} (codes "u") (pos 5) (codes "google") (codes "cb") none 600).expires_at
    ≡ pos 600000000005
unfolding new_state ◌+ℤ◌
new_flow = refl
