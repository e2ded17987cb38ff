-- ===== src/Authentication/Entry.antt =====
-- The entry points of modules/identity-tenant/application/authentication.ts, and the fact that each attempt
-- records. The claims that a fact names are those that the verifier accepted, whatever followed.
use sintius.Access.Authorizer.{platform_audience}
use sintius.Authentication.Claims.{
  AuthenticationDependencies, known_policy, verified_claims, check_claims, normalized_tenants,
  has_only_non_blank,
}
use sintius.Authentication.{
  AuthenticationMechanism, IdentityProviderPolicy, VerifiedCredentialClaims, AuthenticationInput,
  Attempt, done, refused, thrown_problem, thrown_fault, ◌>>=◌, ◌>>◌, reject_if, call, failed,
  assurance_insufficient, scope_refused, claims_invalid, mfa_required,
  tenant_claims_on_platform_token, scope_denied,
}
use sintius.Context.Principal.{
  AuthenticatedPrincipal, IssueAuthenticatedPrincipalInput, interactive, workload, single_factor,
  mfa, workload_assurance, unique_onto, issue_authenticated_principal,
}
use sintius.Prelude.Sorting.{sort}
use sintius.Prelude.{
  Bool, ◌&&◌, ◌||◌, not, ◌==◌, if◌then◌else◌, Option, none, some, Text, text, Text-discrete,
  text_eq, List, [], ◌∷◌, ◌++◌, any, length, includes,
}
use sintius.Time.{Date}

-- `platformPermissionsFor` (modules/identity-tenant/domain/platform-access.ts): the roles that it knows, each
-- with its one permission.
unfoldable pub platform_role_permissions : Text → List Text
platform_role_permissions role =
    if text_eq role (text "platform_tenant_provisioner")
    then text "platform:tenant:provision" ∷ []
    else if text_eq role (text "platform_tenant_lifecycle_operator")
    then text "platform:tenant:lifecycle" ∷ []
    else []

unfoldable pub granted_permissions : List Text → List Text
unfolding platform_role_permissions
granted_permissions [] = []
granted_permissions (role ∷ roles) = platform_role_permissions role ++ granted_permissions roles

unfoldable pub platform_permissions_for : List Text → List Text
unfolding granted_permissions
platform_permissions_for roles = sort (unique_onto [] (granted_permissions roles))

abbrev pub has_mfa : VerifiedCredentialClaims → Bool
has_mfa claims = includes Text-discrete (text "mfa") claims.authentication_methods

module _ (parse_date : Text → Date) (d : AuthenticationDependencies) where
  -- What follows `verify` in each entry point.
  abbrev pub Rest : Type 0
  Rest = IdentityProviderPolicy → VerifiedCredentialClaims → Attempt AuthenticatedPrincipal

  unfoldable pub issue : IssueAuthenticatedPrincipalInput → Attempt AuthenticatedPrincipal
  issue input = call (issue_authenticated_principal parse_date input)

  unfoldable pub interactive_rest : AuthenticationInput → Rest
  interactive_rest input policy claims = do
    reject_if (policy.require_mfa && not (has_mfa claims)) mfa_required assurance_insufficient
    memberships ← normalized_tenants parse_date claims
    issue (record {
      actor_id = claims.subject;
      kind = some interactive;
      tenant_memberships = memberships;
      assurance = some (if has_mfa claims then mfa else single_factor);
      credential_id = claims.credential_id;
      issuer = claims.issuer;
      audiences = input.required_audience ∷ [];
      scopes = [];
      expires_at = claims.expires_at;
    })

  -- The condition under which a workload's scopes are refused.
  unfoldable pub scopes_refused :
      (memberships required_scopes : List Text)
      → IdentityProviderPolicy
      → VerifiedCredentialClaims
      → Bool
  scopes_refused memberships required_scopes policy claims =
      not (length memberships == 1)
      || length required_scopes == 0
      || not (has_only_non_blank required_scopes)
      || not (has_only_non_blank claims.scopes)
      || any (λ scope. not (includes Text-discrete scope policy.allowed_workload_scopes))
          claims.scopes
      || any
          (λ scope.
            not (includes Text-discrete scope policy.allowed_workload_scopes)
            || not (includes Text-discrete scope claims.scopes))
          required_scopes

  unfoldable pub workload_rest : AuthenticationInput → (required_scopes : List Text) → Rest
  workload_rest input required_scopes policy claims = do
    memberships ← normalized_tenants parse_date claims
    let required = unique_onto [] required_scopes
    reject_if (scopes_refused memberships required policy claims) scope_denied scope_refused
    issue (record {
      actor_id = claims.subject;
      kind = some workload;
      tenant_memberships = memberships;
      assurance = some workload_assurance;
      credential_id = claims.credential_id;
      issuer = claims.issuer;
      audiences = input.required_audience ∷ [];
      scopes = required;
      expires_at = claims.expires_at;
    })

  abbrev pub roles_of : VerifiedCredentialClaims → List Text
  roles_of claims = elim claims.platform_roles [ none ↦ [] | some roles ↦ roles ]

  unfoldable pub platform_rest : Rest
  platform_rest policy claims = do
    reject_if (not (length claims.tenant_ids == 0)) tenant_claims_on_platform_token failed
    reject_if (not (has_mfa claims)) mfa_required assurance_insufficient
    reject_if (not (has_only_non_blank (roles_of claims))) claims_invalid failed
    issue (record {
      actor_id = claims.subject;
      kind = some interactive;
      tenant_memberships = [];
      assurance = some mfa;
      credential_id = claims.credential_id;
      issuer = claims.issuer;
      audiences = platform_audience ∷ [];
      scopes = platform_permissions_for (roles_of claims);
      expires_at = claims.expires_at;
    })

  -- The work after the claims are verified: their checks, then the entry point's own.
  unfoldable pub with_claims :
      AuthenticationInput
      → Date
      → Rest
      → IdentityProviderPolicy
      → VerifiedCredentialClaims
      → Attempt AuthenticatedPrincipal
  with_claims input now rest policy claims =
      check_claims parse_date d input now policy claims >> rest policy claims

  -- `verify` and what follows it: the claims that were verified, and how the work ended.
  unfoldable pub work :
      AuthenticationInput
      → Date
      → List AuthenticationMechanism
      → Rest
      → Option VerifiedCredentialClaims × Attempt AuthenticatedPrincipal
  work input now expected rest = elim (known_policy parse_date d input expected) [
    | refused reason code ↦ (none, refused reason code)
    | thrown_problem c ↦ (none, thrown_problem c)
    | thrown_fault e ↦ (none, thrown_fault e)
    | done policy ↦ elim (verified_claims parse_date d input policy) [
      | refused reason code ↦ (none, refused reason code)
      | thrown_problem c ↦ (none, thrown_problem c)
      | thrown_fault e ↦ (none, thrown_fault e)
      | done claims ↦ (some claims, with_claims input now rest policy claims)
    ]
  ]

  -- A tenant's session or workload is never minted for the platform's audience.
  unfoldable pub tenant_work :
      AuthenticationInput
      → Date
      → List AuthenticationMechanism
      → Rest
      → Option VerifiedCredentialClaims × Attempt AuthenticatedPrincipal
  tenant_work input now expected rest =
      if text_eq input.required_audience platform_audience
      then (none, refused claims_invalid failed)
      else work input now expected rest
