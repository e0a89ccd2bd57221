-- ===== src/Identity/StateStore.antt =====
-- crates/identity/ras-identity-oauth2/src/state.rs: the store of pending OAuth2 flows.
-- A clock reading is an argument of the call that takes it. `J` is serde_json's value type.
pub mod Prune
pub mod Evict
pub mod Capacity
pub mod Flows
mod Examples
use rust_api_stack.Base.{
  ℕ, ◌+◌, ◌-◌, ◌*◌, ◌^◌, ◌<◌, Bool, true, false, not, ◌&&◌, ◌||◌, Option, none, some, List, [], ◌∷◌,
  arith, ltb, leb, if◌then◌else◌, length, Result, ok, err,
}
use rust_api_stack.Base.Text.{Text, Text-eq, Message}
use rust_api_stack.Base.HashMap.{HashMap, get, insert, remove, contains_key, retain}
use rust_api_stack.Base.Int.{ℤ, pos, negsuc, ◌+ℤ◌, leb_ℤ, ltb_ℤ}

-- Instants of `chrono` are nanoseconds since the epoch; 10^9 to the second.
abbrev pub nanos : ℕ
nanos = 1000000000

pub record OAuth2State (J : Type 0) : Type 0 where
  pub state : Text
  pub provider_id : Text
  pub redirect_uri : Text
  pub code_verifier : Option Text
  pub nonce : Option Text
  pub binding : Option Text
  pub created_at : ℤ
  pub expires_at : ℤ
  pub metadata : Option J

-- `n as i64` of a `u64`.
abbrev pub as_i64 : ℕ → ℤ
as_i64 n = if ltb n (2 ^ 63) then pos n else negsuc (2 ^ 64 - 1 - n)

-- `Duration::seconds`, in nanoseconds.
abbrev pub seconds : ℤ → ℤ
seconds (pos n) = pos (n * nanos)
seconds (negsuc n) = negsuc ((n * nanos) + (nanos - 1))

-- An error of reqwest, serde_json, url or another crate of the repository is its text.
pub data OAuth2Error : Type 0 where
  http_error : Text → OAuth2Error
  config_error : Message → OAuth2Error
  invalid_state : OAuth2Error
  invalid_authorization_param : Text → OAuth2Error
  state_not_found : OAuth2Error
  missing_authorization_code : OAuth2Error
  token_exchange_failed : Text → OAuth2Error
  invalid_id_token : Message → OAuth2Error
  too_many_pending_flows : OAuth2Error
  user_info_failed : Text → OAuth2Error
  serialization_error : Text → OAuth2Error
  url_error : Text → OAuth2Error
  identity_error : Text → OAuth2Error
  pkce_verification_failed : OAuth2Error
  invalid_token_response : Text → OAuth2Error
  invalid_user_info_response : Text → OAuth2Error
  provider_error : Text → OAuth2Error
  callback_error : Text → OAuth2Error
  provider_denied : Text → OAuth2Error
  invalid_callback : OAuth2Error

-- The two clocks that the code reads: `Instant::now` (from a fixed origin) and `Utc::now`.
pub record Clock : Type 0 where
  pub instant : ℕ
  pub utc : ℤ

abbrev pub prune_interval : ℕ
prune_interval = 10 * nanos

module _ {J : Type 0} where
  -- `uuid` and `now` are what `Uuid::new_v4` and `Utc::now` return.
  pub new_state : Text → ℤ → Text → Text → Option Text → ℕ → OAuth2State J
  new_state uuid now provider_id redirect_uri code_verifier ttl_seconds = record {
    state = uuid;
    provider_id = provider_id;
    redirect_uri = redirect_uri;
    code_verifier = code_verifier;
    nonce = none;
    binding = none;
    created_at = now;
    expires_at = now +ℤ seconds (as_i64 ttl_seconds);
    metadata = none;
  }

  abbrev pub with_nonce : OAuth2State J → Text → OAuth2State J
  with_nonce s nonce = record s { nonce = some nonce }

  abbrev pub with_binding : OAuth2State J → Option Text → OAuth2State J
  with_binding s binding = record s { binding = binding }

  abbrev pub is_expired : OAuth2State J → ℤ → Bool
  is_expired s now = ltb_ℤ s.expires_at now

-- The store behind its lock, with its capacity.
pub record InMemoryStateStore (J : Type 0) : Type 0 where
  pub states : HashMap Text (OAuth2State J)
  pub last_prune : ℕ
  pub max_states : ℕ

module _ {J : Type 0} where
  -- `now` is what `Instant::now` returns.
  pub with_capacity : ℕ → ℕ → InMemoryStateStore J
  with_capacity now max_states = record { states = []; last_prune = now; max_states = max_states }

  abbrev pub pending : ℤ → Text × OAuth2State J → Bool
  pending now (k, stored) = leb_ℤ now stored.expires_at

  -- The new store and the number of flows that the sweep removed.
  pub prune_expired : Bool → Clock → InMemoryStateStore J → InMemoryStateStore J × ℕ
  prune_expired force now s =
      if not force && ltb (now.instant - s.last_prune) prune_interval
      then (s, 0)
      else (let kept = retain (pending now.utc) s.states in
          (record s { states = kept; last_prune = now.instant }, length s.states - length kept))

  -- The order of the pairs (expires_at, created_at).
  pub older : OAuth2State J → OAuth2State J → Bool
  older a b =
      ltb_ℤ a.expires_at b.expires_at
      || (leb_ℤ a.expires_at b.expires_at && leb_ℤ a.created_at b.created_at)

  -- `min_by_key`: the first of the least entries.
  pub oldest : HashMap Text (OAuth2State J) → Option (Text × OAuth2State J)
  oldest [] = none
  oldest (p ∷ m) = elim (oldest m) [
    | none ↦ some p
    | some q ↦ (if older p.1 q.1 then some p else some q)
  ]

  pub evict_oldest : InMemoryStateStore J → InMemoryStateStore J
  evict_oldest s = elim (oldest s.states) [
    | none ↦ s
    | some (key, _) ↦ record s { states = remove key s.states }
  ]

  abbrev pub is_full : InMemoryStateStore J → Bool
  is_full s = leb s.max_states (length s.states)

  -- A forced sweep, then an eviction if the sweep made no room.
  pub make_room : Clock → InMemoryStateStore J → InMemoryStateStore J
  make_room now s =
      let swept = (prune_expired true now s).0 in
      if is_full swept then evict_oldest swept else swept

  -- `first` and `second` are the readings of the two sweeps.
  pub store : Clock → Clock → OAuth2State J → InMemoryStateStore J → InMemoryStateStore J
  store first second state s =
      let swept = (prune_expired false first s).0 in
      let roomy =
        if is_full swept && not (contains_key state.state swept.states)
        then make_room second swept
        else swept in
      record roomy { states = insert state.state state roomy.states }

  unfoldable pub retrieve :
      ℤ → Text → InMemoryStateStore J → InMemoryStateStore J × Result OAuth2Error (OAuth2State J)
  retrieve now state s = elim (get state s.states) [
    | none ↦ (s, err state_not_found)
    | some found ↦ (
      record s { states = remove state s.states },
      (if is_expired found now then err state_not_found else ok found),
    )
  ]

  pub cleanup_expired : Clock → InMemoryStateStore J → InMemoryStateStore J × ℕ
  cleanup_expired now s = prune_expired true now s
