-- ===== src/Identity/StateStore/Evict.antt =====
-- state.rs, `Inner::evict_oldest`: which flow gives way when the store is full.
use rust_api_stack.Base.{
  ◌-◌, ◌≤◌, ◌≡◌, refl, ◌⊎◌, inl, inr, true, false, none, some, [], ◌∷◌, arith, length, Bool-cases,
  Option-cases,
}
use rust_api_stack.Base.Text.{Text, Text-eq, text_eq, text_eq_iff}
use rust_api_stack.Base.HashMap.{HashMap, IsMap, get, get-remove, remove-IsMap, length-remove_lt}
use rust_api_stack.Identity.StateStore.{
  OAuth2State, InMemoryStateStore, older, oldest, evict_oldest,
}

module _ {J : Type 0} where
  older_total : (a b : OAuth2State J) → older a b ≡ false → older b a ≡ true
  unfolding older
  older_total a b h = ground arith

  older_trans : (a b c : OAuth2State J) → older a b ≡ true → older b c ≡ true → older a c ≡ true
  unfolding older
  older_trans a b c h k = ground arith

  older_refl : (a : OAuth2State J) → older a a ≡ true
  unfolding older
  older_refl a = ground arith

  get-oldest-none : (m : HashMap Text (OAuth2State J)) (j : Text) → oldest m ≡ none → get j m ≡ none
  unfolding oldest get
  get-oldest-none [] j e = refl
  get-oldest-none ((i, u) ∷ m) j e = ground arith

  length-oldest-none : (m : HashMap Text (OAuth2State J)) → oldest m ≡ none → length m ≡ 0
  unfolding oldest
  length-oldest-none [] e = refl
  length-oldest-none ((i, u) ∷ m) e = ground arith

  -- The victim is an entry of the map.
  pub get-oldest :
      (m : HashMap Text (OAuth2State J)) (k : Text) (v : OAuth2State J)
      → IsMap m
      → oldest m ≡ some (k, v)
      → get k m ≡ some v
  unfolding oldest get
  get-oldest [] k v h e = cc
  get-oldest ((j, w) ∷ m) k v h e = elim (Option-cases (oldest m)) [
    | inl none_left ↦ ground (arith, text_eq_iff j k)
    | inr ((i, u), some_left) ↦
        ground (arith, text_eq_iff j k, text_eq_iff j i, get-oldest m i u h.1)
  ]

  -- No entry is older than the victim.
  pub oldest_least :
      (m : HashMap Text (OAuth2State J)) (k j : Text) (v w : OAuth2State J)
      → oldest m ≡ some (k, v)
      → get j m ≡ some w
      → older v w ≡ true
  unfolding oldest get
  oldest_least [] k j v w e g = cc
  oldest_least ((i, u) ∷ m) k j v w e g = elim (Option-cases (oldest m)) [
    | inl none_left ↦ ground (arith, get-oldest-none m j none_left, older_refl u)
    | inr ((l, x), some_left) ↦
        ground (
          arith,
          older_total u x,
          older_refl u,
          older_trans u x w,
          oldest_least m l j x w some_left,
        )
  ]

  -- An eviction removes at most one flow, and takes one away from every store that holds any.
  pub length-evict_oldest :
      (s : InMemoryStateStore J)
      → IsMap s.states
      → length (evict_oldest s).states ≤ length s.states - 1
  unfolding evict_oldest
  length-evict_oldest s h = elim (Option-cases (oldest s.states)) [
    | inl e ↦ rw (e, evict_oldest) (omega (arith, length-oldest-none s.states e))
    | inr ((k, v), e) ↦
        rw (e, evict_oldest)
          (ground (arith, length-remove_lt k s.states, get-oldest s.states k v h e))
  ]

  pub evict_oldest-IsMap :
      (s : InMemoryStateStore J) → IsMap s.states → IsMap (evict_oldest s).states
  unfolding evict_oldest
  evict_oldest-IsMap s h = elim (Option-cases (oldest s.states)) [
    | inl e ↦ rw (e, evict_oldest) h
    | inr ((k, v), e) ↦ rw (e, evict_oldest) (remove-IsMap k s.states h)
  ]

  -- A flow that an eviction takes is one that no other flow is older than.
  pub get-evict_oldest :
      (s : InMemoryStateStore J) (j : Text) (w : OAuth2State J)
      → IsMap s.states
      → get j s.states ≡ some w
      → (get j (evict_oldest s).states ≡ some w)
        ⊎ ((i : Text) (u : OAuth2State J) → get i s.states ≡ some u → older w u ≡ true)
  unfolding evict_oldest
  get-evict_oldest s j w h g = elim (Option-cases (oldest s.states)) [
    | inl e ↦ inl (rw (e, evict_oldest) g)
    | inr ((k, v), e) ↦ elim (Bool-cases (text_eq k j)) [
      | inl same ↦ inr λ i u gu.
          ground (
            arith,
            oldest_least s.states k i v u e gu,
            get-oldest s.states k v h e,
            text_eq_iff k j,
          )
      | inr other ↦ inl (rw (e, evict_oldest) (ground (arith, get-remove k j s.states)))
    ]
  ]

  pub get-evict_oldest-none :
      (s : InMemoryStateStore J) (j : Text)
      → get j s.states ≡ none
      → get j (evict_oldest s).states ≡ none
  unfolding evict_oldest
  get-evict_oldest-none s j h = elim (Option-cases (oldest s.states)) [
    | inl e ↦ rw (e, evict_oldest) h
    | inr ((k, v), e) ↦ rw (e, evict_oldest) (ground (arith, get-remove k j s.states))
  ]

  pub max_states-evict_oldest :
      (s : InMemoryStateStore J) → (evict_oldest s).max_states ≡ s.max_states
  unfolding evict_oldest
  max_states-evict_oldest s = ground arith
