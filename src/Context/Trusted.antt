-- ===== src/Context/Trusted.antt =====
-- What an issued principal and a resolved context guarantee (platform/tenant-context/src/context.ts).
use sintius.Prelude.{
  ◌<◌, true, false, none, some, List, [], ◌∷◌, ◌++◌, any, includes, distinct, distinct_snoc, Text,
  Text-discrete, is_blank, ◌≡◌, refl, arith, any-append, all, all-append, Bool-cases, inl, inr,
  Bool, text_eq, same_iff, ap, ◌∙◌,
}
use sintius.Problem.{ok}
use sintius.Time.{Instant, Date}
use sintius.Tenant.Transitions.{active}
use sintius.Context.Principal.{
  AuthenticatedPrincipal, IssueAuthenticatedPrincipalInput, TenantContext, assurance_matches,
  metadata_invalid, unique_onto, issue_authenticated_principal,
}
use sintius.Context.Resolver.{
  ResolveTenantContextInput, assert_principal_current, resolve_tenant_context,
}

unique_onto-distinct :
    (seen xs : List Text)
    → distinct Text-discrete seen ≡ true
    → distinct Text-discrete (unique_onto seen xs) ≡ true
unfolding unique_onto
unique_onto-distinct seen [] h = h
unique_onto-distinct seen (x ∷ xs) h = ground (
  arith,
  distinct_snoc Text-discrete x seen h,
  unique_onto-distinct seen xs,
  unique_onto-distinct (seen ++ x ∷ []) xs,
)

unique_onto-any :
    (p : Text → Bool) (seen xs : List Text)
    → any p seen ≡ false
    → any p xs ≡ false
    → any p (unique_onto seen xs) ≡ false
unfolding unique_onto
unique_onto-any p seen [] h k = h
unique_onto-any p seen (x ∷ xs) h k = ground (
  arith,
  any-append p seen (x ∷ []),
  unique_onto-any p seen xs,
  unique_onto-any p (seen ++ x ∷ []) xs,
)

module _ (p : Text → Bool) where
  pub all-unique_onto :
      (seen fields : List Text)
      → all p seen ≡ true
      → all p fields ≡ true
      → all p (unique_onto seen fields) ≡ true
  unfolding unique_onto
  all-unique_onto seen [] h k = h
  all-unique_onto seen (f ∷ fields) h k = elim (Bool-cases (includes Text-discrete f seen)) [
    | inl old ↦ rw old (all-unique_onto seen fields h (ground arith))
    | inr fresh ↦ rw fresh (
        all-unique_onto (seen ++ f ∷ []) fields (ground (arith, all-append p seen (f ∷ [])))
          (ground arith))
  ]

  all-includes :
      (x : Text) (seen : List Text)
      → all p seen ≡ true
      → includes Text-discrete x seen ≡ true
      → p x ≡ true
  all-includes x [] h k = cc
  all-includes x (y ∷ seen) h k = elim (Bool-cases (text_eq x y)) [
    | inl e ↦ ap p ((same_iff Text-discrete x y).0 e) ∙ ground arith
    | inr e ↦ all-includes x seen (ground arith) (ground arith)
  ]

  -- What holds of all that is left without repetitions holds of all.
  pub all-of_unique :
      (seen xs : List Text)
      → all p (unique_onto seen xs) ≡ true
      → (all p seen ≡ true) × (all p xs ≡ true)
  unfolding unique_onto
  all-of_unique seen [] h = (h, refl)
  all-of_unique seen (x ∷ xs) h = elim (Bool-cases (includes Text-discrete x seen)) [
    | inl old ↦
        let (before, after) = all-of_unique seen xs (rw old at h) in
        (before, ground (arith, all-includes x seen before old))
    | inr fresh ↦
        let (before, after) = all-of_unique (seen ++ x ∷ []) xs (rw fresh at h) in
        (ground (arith, all-append p seen (x ∷ [])), ground (arith, all-append p seen (x ∷ [])))
  ]

-- A principal as the resolvers rely on it.
unfoldable pub IsValidPrincipal : AuthenticatedPrincipal → Type 0
IsValidPrincipal p =
    (assurance_matches (some p.kind) (some p.assurance) ≡ true)
    × (is_blank p.actor_id ≡ false)
    × (is_blank p.credential_id ≡ false)
    × (is_blank p.issuer ≡ false)
    × (any is_blank p.tenant_memberships ≡ false)
    × (distinct Text-discrete p.tenant_memberships ≡ true)
    × (any is_blank p.audiences ≡ false)
    × (distinct Text-discrete p.audiences ≡ true)
    × (any is_blank p.scopes ≡ false)
    × (distinct Text-discrete p.scopes ≡ true)

-- Every principal that is issued has an assurance of its kind (a workload's exactly for a workload),
-- no blank identity, and memberships, audiences and scopes without blanks and repetitions.
pub issue-IsValidPrincipal :
    (parse_date : Text → Date) (input : IssueAuthenticatedPrincipalInput)
    (principal : AuthenticatedPrincipal)
    → issue_authenticated_principal parse_date input ≡ ok principal
    → IsValidPrincipal principal
unfolding issue_authenticated_principal IsValidPrincipal metadata_invalid
issue-IsValidPrincipal parse_date input principal h = ground (
  arith,
  unique_onto-distinct [] input.tenant_memberships refl,
  unique_onto-distinct [] input.audiences refl,
  unique_onto-distinct [] input.scopes refl,
  unique_onto-any is_blank [] input.tenant_memberships refl,
  unique_onto-any is_blank [] input.audiences refl,
  unique_onto-any is_blank [] input.scopes refl,
)

-- A tenant context is resolved only when the principal is issued and not expired, the body names
-- no tenant, the selected tenant is among the principal's memberships and active, and the
-- correlation id is not blank; its tenant is then the selected one and its actor, kind, assurance,
-- credential, audiences and scopes are the principal's.
pub resolve_tenant_context-trusted :
    (issued : Bool) (now : Instant) (input : ResolveTenantContextInput) (context : TenantContext)
    → resolve_tenant_context issued now input ≡ ok context
    → (issued ≡ true)
      × (now < input.principal.expires_at)
      × (input.body_tenant_id ≡ none)
      × (includes Text-discrete context.tenant_id input.principal.tenant_memberships ≡ true)
      × (input.tenant_state ≡ active)
      × (is_blank context.correlation_id ≡ false)
      × (context.tenant_id ≡ input.selected_tenant_id)
      × (context.actor_id ≡ input.principal.actor_id)
      × (context.principal_kind ≡ input.principal.kind)
      × (context.assurance ≡ input.principal.assurance)
      × (context.credential_id ≡ input.principal.credential_id)
      × (context.audiences ≡ input.principal.audiences)
      × (context.scopes ≡ input.principal.scopes)
unfolding resolve_tenant_context assert_principal_current
resolve_tenant_context-trusted issued now input context h = ground arith
