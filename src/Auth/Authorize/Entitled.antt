-- ===== src/Auth/Authorize/Entitled.antt =====
-- Whom `authorize_request` lets in, where the provider keeps the default check of permissions.
use rust_api_stack.Base.{
  ◌≡◌, sym, ap, ◌∙◌, subst, ◌⊎◌, inl, inr, true, false, none, some, List, [], ◌∷◌, arith, all, any,
  contains, is_empty, is_ok, ok, Bool-cases,
}
use rust_api_stack.Base.Text.{Text, Text-eq}
use rust_api_stack.Auth.{AuthenticatedUser, AuthProvider, default_check_permissions}
use rust_api_stack.Auth.Http.{Http}
use rust_api_stack.Auth.Transport.{AuthTransportConfig, AuthCredential, authorization}
use rust_api_stack.Auth.Transport.Extraction.{IsBearer, IsCookieOf, extract_auth_credential-eq-ok}
use rust_api_stack.Auth.Permissions.{
  held, check_permission_groups, user_satisfies_permission_groups,
}
use rust_api_stack.Auth.Permissions.Groups.{check_permission_groups-user_satisfies}
use rust_api_stack.Auth.Authorize.{authorize_request}
use rust_api_stack.Auth.Authorize.Pipeline.{IsAuthorized, authorize_request-eq-ok_iff}

-- The user has every permission of the group.
abbrev pub HasAll : List Text → List Text → Type 0
HasAll permissions [] = Unit
HasAll permissions (permission ∷ group) =
    (contains permissions permission ≡ true) × HasAll permissions group

-- One of the groups asks for something, all of which the user has.
abbrev pub HasGroup : List Text → List (List Text) → Type 0
HasGroup permissions [] = ⊥
HasGroup permissions (group ∷ groups) =
    ((is_empty group ≡ false) × HasAll permissions group) ⊎ HasGroup permissions groups

-- No group asks for anything.
abbrev pub AsksNothing : List (List Text) → Type 0
AsksNothing [] = Unit
AsksNothing (group ∷ groups) = (is_empty group ≡ true) × AsksNothing groups

all-HasAll :
    (permissions group : List Text)
    → all (contains permissions) group ≡ true
    → HasAll permissions group
all-HasAll permissions [] h = tt
all-HasAll permissions (permission ∷ group) h =
    (ground arith, all-HasAll permissions group (ground arith))

all-AsksNothing : (groups : List (List Text)) → all is_empty groups ≡ true → AsksNothing groups
all-AsksNothing [] h = tt
all-AsksNothing (group ∷ groups) h = (ground arith, all-AsksNothing groups (ground arith))

module _ {J : Type 0} where
  any-HasGroup :
      (user : AuthenticatedUser J) (groups : List (List Text))
      → any (held user) groups ≡ true
      → HasGroup user.permissions groups
  any-HasGroup user [] h = cc
  any-HasGroup user (group ∷ groups) h = elim (Bool-cases (held user group)) [
    | inl e ↦ inl (ground arith, all-HasAll user.permissions group (ground arith))
    | inr e ↦ inr (any-HasGroup user groups (ground arith))
  ]

  satisfies-HasGroup :
      (user : AuthenticatedUser J) (groups : List (List Text))
      → user_satisfies_permission_groups user groups ≡ true
      → AsksNothing groups ⊎ HasGroup user.permissions groups
  unfolding user_satisfies_permission_groups
  satisfies-HasGroup user groups h = elim (Bool-cases (all is_empty groups)) [
    | inl e ↦ inl (all-AsksNothing groups e)
    | inr e ↦ inr (any-HasGroup user groups (ground arith))
  ]

module _ {HM HV J : Type 0} (http : Http HM HV) where
  -- Where the provider keeps the default check of permissions, a request that is let in has shown a
  -- credential: the bearer token of its `Authorization` header, or, where there is no such header or
  -- bearer tokens are not accepted, the one value of the configured cookie. The provider has
  -- authenticated that token as the user, and the user has all the permissions of a group that asks
  -- for some, or no group asks for any.
  pub authorize_request-IsEntitled :
      (method : Text) (headers : HM) (config : AuthTransportConfig) (provider : AuthProvider J)
      (groups : List (List Text)) (user : AuthenticatedUser J)
      → ((who : AuthenticatedUser J) (required : List Text)
          → provider.check_permissions who required ≡ default_check_permissions who required)
      → authorize_request http method headers config (some provider) groups ≡ ok user
      → (credential : AuthCredential) × (((value : HV) × (header : Text) × (authorization http
                headers config
              ≡ some value)
            × (http.to_str value ≡ some header)
            × IsBearer header credential)
          ⊎ ((authorization http headers config ≡ none)
              × IsCookieOf http headers config credential))
        × (provider.authenticate credential.token ≡ ok user)
        × (AsksNothing groups ⊎ HasGroup user.permissions groups)
  unfolding IsAuthorized
  authorize_request-IsEntitled method headers config provider groups user default h =
      let (credential, own, extracted, checked, there, verified, granted) =
        (authorize_request-eq-ok_iff http method headers config (some provider) groups user).0 h in
      let same : own ≡ provider = cc in
      let passed : check_permission_groups provider user groups ≡ ok tt =
        subst (λ p. check_permission_groups p user groups ≡ ok tt) same granted in
      let satisfied : user_satisfies_permission_groups user groups ≡ true =
        sym (check_permission_groups-user_satisfies provider user groups (default user))
        ∙ ap is_ok passed in
      (
        credential,
        extract_auth_credential-eq-ok http headers config credential extracted,
        subst (λ p. p.authenticate credential.token ≡ ok user) same verified,
        satisfies-HasGroup user groups satisfied,
      )
