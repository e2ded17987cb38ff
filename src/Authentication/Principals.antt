-- ===== src/Authentication/Principals.antt =====
-- What the principals of a tenant's user and of a workload may do.
use sintius.Access.Authorizer.{platform_audience}
use sintius.Authentication.Accepted.{Verified, tenant_work-Worked, answer-done, Attempt-cases}
use sintius.Authentication.Claims.{AuthenticationDependencies, normalized_tenants}
use sintius.Authentication.Entry.{
  has_mfa, tenant_work, interactive_rest, workload_rest, issue, scopes_refused,
}
use sintius.Authentication.Session.{attempt, authenticate_interactive, authenticate_workload}
use sintius.Authentication.{
  oidc, saml, workload_token, IdentityProviderPolicy, VerifiedCredentialClaims, AuthenticationInput,
  done,
}
use sintius.Context.Trusted.{all-unique_onto, all-of_unique}
use sintius.Context.Principal.{
  AuthenticatedPrincipal, IssueAuthenticatedPrincipalInput, interactive, workload, mfa,
  single_factor, workload_assurance, unique_onto, issue_authenticated_principal,
}
use sintius.Prelude.{
  Bool, true, false, ◌&&◌, ◌||◌, not, if◌then◌else◌, some, Text, Text-discrete, text_eq, List, [],
  ◌∷◌, includes, ◌≡◌, ◌∙◌, ap, refl, arith, inl, inr, any, all, length, same_iff, sym, ◌==◌,
}
use sintius.Problem.{ok}
use sintius.Time.{Date}

module _ (parse_date : Text → Date) (d : AuthenticationDependencies) where
  issue-parts :
      (input : IssueAuthenticatedPrincipalInput) {p : AuthenticatedPrincipal}
      → issue parse_date d input ≡ done p
      → (input.kind ≡ some p.kind)
        × (input.assurance ≡ some p.assurance)
        × (p.actor_id ≡ input.actor_id)
        × (p.tenant_memberships ≡ unique_onto [] input.tenant_memberships)
        × (p.audiences ≡ unique_onto [] input.audiences)
        × (p.scopes ≡ unique_onto [] input.scopes)
  unfolding issue issue_authenticated_principal
  issue-parts input h = ground arith

  interactive-parts :
      (input : AuthenticationInput) (policy : IdentityProviderPolicy)
      (claims : VerifiedCredentialClaims) {p : AuthenticatedPrincipal}
      → interactive_rest parse_date d input policy claims ≡ done p
      → (p.kind ≡ interactive)
        × (p.actor_id ≡ claims.subject)
        × (p.audiences ≡ input.required_audience ∷ [])
        × (p.scopes ≡ [])
        × (p.assurance ≡ (if has_mfa claims then mfa else single_factor))
        × ((policy.require_mfa && not (has_mfa claims)) ≡ false)
  unfolding interactive_rest unique_onto issue issue_authenticated_principal
  interactive-parts input policy claims h = ground arith

  -- A tenant's user is signed in only with a credential that its provider's verifier accepted, whose
  -- claims hold now, and that is not revoked. The principal is interactive, carries the one
  -- audience that was asked for, which is never the platform's, and no scopes; a provider that
  -- requires it has seen a second factor, and the principal says so exactly then.
  pub authenticate_interactive-Verified :
      (input : AuthenticationInput) (now recorded_at : Date) {p : AuthenticatedPrincipal}
      → (authenticate_interactive parse_date d input now recorded_at).0 ≡ ok p
      → (v : Verified parse_date d input now) × (text_eq input.required_audience platform_audience
          ≡ false)
        × (p.kind ≡ interactive)
        × (p.actor_id ≡ v.claims.subject)
        × (p.audiences ≡ input.required_audience ∷ [])
        × (p.scopes ≡ [])
        × (p.assurance ≡ (if has_mfa v.claims then mfa else single_factor))
        × ((v.policy.require_mfa && not (has_mfa v.claims)) ≡ false)
  unfolding authenticate_interactive attempt
  authenticate_interactive-Verified input now recorded_at {p} h =
      let rest = interactive_rest parse_date d input in
      let (worked, other) = tenant_work-Worked parse_date d input now (oidc ∷ saml ∷ []) rest (
        answer-done parse_date d (tenant_work parse_date d input now (oidc ∷ saml ∷ []) rest).1
          h) in
      let (kind, acting, audience, scopes, assurance, second_factor) =
        interactive-parts input worked.verified.policy worked.verified.claims worked.rested in
      (worked.verified, other, kind, acting, audience, scopes, assurance, second_factor)

  singleton : (xs : List Text) → length xs ≡ 1 → (x : Text) × (xs ≡ x ∷ [])
  singleton [] h = absurd (omega arith)
  singleton (x ∷ []) h = (x, refl)
  singleton (x ∷ y ∷ xs) h = absurd (omega arith)

  one_unique : (xs : List Text) → length xs ≡ 1 → unique_onto [] xs ≡ xs
  unfolding unique_onto
  one_unique [] h = absurd (omega arith)
  one_unique (x ∷ []) h = refl
  one_unique (x ∷ y ∷ xs) h = absurd (omega arith)

  -- A scope that a workload may be given.
  abbrev pub permitted : IdentityProviderPolicy → VerifiedCredentialClaims → Text → Bool
  permitted policy claims scope =
      includes Text-discrete scope policy.allowed_workload_scopes
      && includes Text-discrete scope claims.scopes

  any-all :
      (policy : IdentityProviderPolicy) (claims : VerifiedCredentialClaims) (scopes : List Text)
      → any
          (λ scope.
            not (includes Text-discrete scope policy.allowed_workload_scopes)
            || not (includes Text-discrete scope claims.scopes))
          scopes
        ≡ false
      → all (permitted policy claims) scopes ≡ true
  any-all policy claims [] h = refl
  any-all policy claims (x ∷ xs) h = ground (arith, any-all policy claims xs)

  normalized_tenants_unique :
      (claims : VerifiedCredentialClaims) {memberships : List Text}
      → normalized_tenants parse_date claims ≡ done memberships
      → memberships ≡ unique_onto [] claims.tenant_ids
  unfolding normalized_tenants
  normalized_tenants_unique claims h = ground arith

  equal_includes :
      (t : Text) (xs : List Text)
      → (length xs == 0) ≡ false
      → all (text_eq t) xs ≡ true
      → includes Text-discrete t xs ≡ true
  equal_includes t [] h k = ground arith
  equal_includes t (x ∷ xs) h k = ground arith

  -- Where the names without repetition are one, that one is what all the names are.
  one_tenant :
      (xs : List Text) {memberships : List Text}
      → memberships ≡ unique_onto [] xs
      → length (unique_onto [] xs) ≡ 1
      → (tenant : Text) × (memberships ≡ tenant ∷ [])
        × (all (text_eq tenant) xs ≡ true)
        × (includes Text-discrete tenant xs ≡ true)
  unfolding unique_onto
  one_tenant [] e h = absurd (omega arith)
  one_tenant (x ∷ xs) e h =
      let (t, single) = singleton (unique_onto [] (x ∷ xs)) h in
      let itself : all (text_eq t) (t ∷ []) ≡ true =
        ground (arith, (same_iff Text-discrete t t).1 refl) in
      let alike =
        (all-of_unique (text_eq t) [] (x ∷ xs)
          (ap (λ (ys : List Text). all (text_eq t) ys) single ∙ itself)).1 in
      (t, e ∙ single, alike, equal_includes t (x ∷ xs) (ground arith) alike)

  workload-parts :
      (input : AuthenticationInput) (required_scopes : List Text) (policy : IdentityProviderPolicy)
      (claims : VerifiedCredentialClaims) {p : AuthenticatedPrincipal}
      → workload_rest parse_date d input required_scopes policy claims ≡ done p
      → (memberships : List Text) × (memberships ≡ unique_onto [] claims.tenant_ids)
        × (scopes_refused parse_date d memberships (unique_onto [] required_scopes) policy claims
            ≡ false)
        × (p.kind ≡ workload)
        × (p.assurance ≡ workload_assurance)
        × (p.actor_id ≡ claims.subject)
        × (p.tenant_memberships ≡ unique_onto [] memberships)
        × (p.scopes ≡ unique_onto [] (unique_onto [] required_scopes))
  unfolding workload_rest issue issue_authenticated_principal
  workload-parts input required_scopes policy claims h =
      elim (Attempt-cases (normalized_tenants parse_date claims)) [
        | inr lost ↦ absurd (ground arith)
        | inl (memberships, e) ↦ (
          memberships,
          normalized_tenants_unique claims e,
          ground arith,
          ground arith,
          ground arith,
          ground arith,
          ground arith,
          ground arith,
        )
      ]

  scopes-permitted :
      (memberships required : List Text) (policy : IdentityProviderPolicy)
      (claims : VerifiedCredentialClaims)
      → scopes_refused parse_date d memberships required policy claims ≡ false
      → (length memberships ≡ 1) × (all (permitted policy claims) required ≡ true)
  unfolding scopes_refused
  scopes-permitted memberships required policy claims h =
      (ground arith, any-all policy claims required (ground arith))

  -- A workload is accepted only with a verified credential whose claims hold now and name one tenant,
  -- and no other; that tenant is its principal's one membership. The principal
  -- holds no scope but those that this call asked for, each of which the provider allows to
  -- workloads and the credential itself claims.
  pub authenticate_workload-Verified :
      (input : AuthenticationInput) (required_scopes : List Text) (now recorded_at : Date)
      {p : AuthenticatedPrincipal}
      → (authenticate_workload parse_date d input required_scopes now recorded_at).0 ≡ ok p
      → (v : Verified parse_date d input now) × (text_eq input.required_audience platform_audience
          ≡ false)
        × (p.kind ≡ workload)
        × (p.assurance ≡ workload_assurance)
        × (length p.tenant_memberships ≡ 1)
        × (p.scopes ≡ unique_onto [] (unique_onto [] required_scopes))
        × (all (permitted v.policy v.claims) p.scopes ≡ true)
        × ((tenant : Text) × (p.tenant_memberships ≡ tenant ∷ [])
            × (all (text_eq tenant) v.claims.tenant_ids ≡ true)
            × (includes Text-discrete tenant v.claims.tenant_ids ≡ true))
  unfolding authenticate_workload attempt
  authenticate_workload-Verified input required_scopes now recorded_at {p} h =
      let rest = workload_rest parse_date d input required_scopes in
      let (worked, other) = tenant_work-Worked parse_date d input now (workload_token ∷ []) rest (
        answer-done parse_date d (tenant_work parse_date d input now (workload_token ∷ []) rest).1
          h) in
      let v = worked.verified in
      let (memberships, claimed, fine, kind, assurance, acting, tenants, scopes) =
        workload-parts input required_scopes v.policy v.claims worked.rested in
      let (one, allowed) =
        scopes-permitted memberships (unique_onto [] required_scopes) v.policy v.claims fine in
      (
        v,
        other,
        kind,
        assurance,
        ap (λ (xs : List Text). length xs) (tenants ∙ one_unique memberships one) ∙ one,
        scopes,
        rw scopes (
            all-unique_onto (permitted v.policy v.claims) [] (unique_onto [] required_scopes) refl
              allowed),
        one_tenant v.claims.tenant_ids (tenants ∙ one_unique memberships one ∙ claimed)
            (ap (λ (xs : List Text). length xs) (sym claimed) ∙ one),
      )
