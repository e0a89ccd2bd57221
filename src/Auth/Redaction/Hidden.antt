-- ===== src/Auth/Redaction/Hidden.antt =====
-- What the redacted headers still show.
use rust_api_stack.Base.{
  ◌≡◌, refl, ◌⊎◌, inl, inr, true, false, some, List, [], ◌∷◌, arith, contains, Bool-cases,
  Option-cases,
}
use rust_api_stack.Base.Text.{Text, codes, text_eq, text_eq_iff, Text-eq}
use rust_api_stack.Auth.Http.{Http}
use rust_api_stack.Auth.Csrf.{CsrfConfig}
use rust_api_stack.Auth.Transport.{AuthTransportConfig}
use rust_api_stack.Auth.Redaction.{
  redact_header, redact_all, sensitive_headers, redact_sensitive_headers,
  redact_sensitive_headers_for_auth_transport,
}

-- What the crate http documents of `insert`, `remove`, `contains_key` and `get_all`.
pub record IsHeaderMap {HM HV : Type 0} (http : Http HM HV) : Type 0 where
  pub absent : (name : Text) (m : HM) → http.contains_key name m ≡ false → http.get_all name m ≡ []
  pub inserted : (name : Text) (v : HV) (m : HM) → http.get_all name (http.insert name v m) ≡ v ∷ []
  pub insert_other :
      (name other : Text) (v : HV) (m : HM)
      → text_eq name other ≡ false
      → http.get_all other (http.insert name v m) ≡ http.get_all other m
  pub remove_other :
      (name other : Text) (m : HM)
      → text_eq name other ≡ false
      → http.get_all other (http.remove name m) ≡ http.get_all other m

module _ {HM HV : Type 0} (http : Http HM HV) (laws : IsHeaderMap http) where
  -- A header is gone, or shows only the marker.
  pub IsHidden : Text → HM → Type 0
  IsHidden name headers =
      (http.get_all name headers ≡ [])
      ⊎ (http.get_all name headers ≡ http.from_static (codes "[REDACTED]") ∷ [])

  redact_header-IsHidden :
      (headers : HM) (name : Text) → IsHidden name (redact_header http headers name)
  unfolding redact_header IsHidden
  redact_header-IsHidden headers name = elim (Bool-cases (http.contains_key name headers)) [
    | inl there ↦ inr (
        rw there
          (laws.inserted name (http.from_static (codes "[REDACTED]")) (http.remove name headers)))
    | inr gone ↦ inl (rw gone (laws.absent name headers gone))
  ]

  redact_header-other :
      (headers : HM) (name other : Text)
      → text_eq name other ≡ false
      → http.get_all other (redact_header http headers name) ≡ http.get_all other headers
  unfolding redact_header
  redact_header-other headers name other differ =
      elim (Bool-cases (http.contains_key name headers)) [
        | inl there ↦
            rw
              (
                there,
                laws.insert_other name other (http.from_static (codes "[REDACTED]"))
                    (http.remove name headers) differ,
                laws.remove_other name other headers differ,
              )
              refl
        | inr gone ↦ rw gone refl
      ]

  redact_header-keeps :
      (headers : HM) (name other : Text)
      → IsHidden other headers
      → IsHidden other (redact_header http headers name)
  unfolding IsHidden
  redact_header-keeps headers name other hidden = elim (Bool-cases (text_eq name other)) [
    | inl same ↦ rw (← (text_eq_iff name other).0 same) (redact_header-IsHidden headers name)
    | inr differ ↦ rw (redact_header-other headers name other differ) hidden
  ]

  redact_all-keeps :
      (headers : HM) (names : List Text) (other : Text)
      → IsHidden other headers
      → IsHidden other (redact_all http headers names)
  unfolding redact_all
  redact_all-keeps headers [] other hidden = hidden
  redact_all-keeps headers (name ∷ names) other hidden =
      redact_all-keeps (redact_header http headers name) names other
        (redact_header-keeps headers name other hidden)

  redact_all-IsHidden :
      (headers : HM) (names : List Text) (name : Text)
      → contains names name ≡ true
      → IsHidden name (redact_all http headers names)
  unfolding redact_all
  redact_all-IsHidden headers [] name h = cc
  redact_all-IsHidden headers (n ∷ names) name h = elim (Bool-cases (text_eq n name)) [
    | inl same ↦
        redact_all-keeps (redact_header http headers n) names name
          (rw (← (text_eq_iff n name).0 same) (redact_header-IsHidden headers n))
    | inr differ ↦ redact_all-IsHidden (redact_header http headers n) names name (rw differ at h)
  ]

  redact_all-other :
      (headers : HM) (names : List Text) (other : Text)
      → contains names other ≡ false
      → http.get_all other (redact_all http headers names) ≡ http.get_all other headers
  unfolding redact_all
  redact_all-other headers [] other h = refl
  redact_all-other headers (n ∷ names) other h = ground (
    arith,
    redact_all-other (redact_header http headers n) names other,
    redact_header-other headers n other,
  )

  -- After the redaction no header of the list shows a value, and neither does the header that the
  -- CSRF configuration names.
  pub redact_for_transport-IsHidden :
      (headers : HM) (config : AuthTransportConfig) (name : Text)
      → (contains sensitive_headers name ≡ true)
        ⊎ ((csrf : CsrfConfig) × (config.csrf ≡ some csrf) × (csrf.header_name ≡ name))
      → IsHidden name (redact_sensitive_headers_for_auth_transport http headers config)
  unfolding redact_sensitive_headers_for_auth_transport redact_sensitive_headers
  redact_for_transport-IsHidden headers config name (inl listed) = elim (Option-cases config.csrf) [
    | inl e ↦ rw e (redact_all-IsHidden headers sensitive_headers name listed)
    | inr (csrf, e) ↦ rw e (
        redact_header-keeps (redact_all http headers sensitive_headers) csrf.header_name name
          (redact_all-IsHidden headers sensitive_headers name listed))
  ]
  redact_for_transport-IsHidden headers config name (inr (csrf, e, same)) =
      rw (e, ← same)
        (redact_header-IsHidden (redact_all http headers sensitive_headers) csrf.header_name)

  -- A header that is neither on the list nor the CSRF header keeps its values.
  pub redact_for_transport-other :
      (headers : HM) (config : AuthTransportConfig) (csrf : CsrfConfig) (name : Text)
      → config.csrf ≡ some csrf
      → contains sensitive_headers name ≡ false
      → text_eq csrf.header_name name ≡ false
      → http.get_all name (redact_sensitive_headers_for_auth_transport http headers config)
        ≡ http.get_all name headers
  unfolding redact_sensitive_headers_for_auth_transport redact_sensitive_headers
  redact_for_transport-other headers config csrf name e listed differ =
      rw
        (
          e,
          redact_header-other (redact_all http headers sensitive_headers) csrf.header_name name
              differ,
          redact_all-other headers sensitive_headers name listed,
        )
        refl
