-- ===== src/Examples/Logins.antt =====
-- Three accepted logins and a refused one, of one provider each.
use sintius.Access.Authorizer.{platform_audience}
use sintius.Authentication.Accepted.{Verified}
use sintius.Authentication.Claims.{
  AuthenticationDependencies, claims_are_invalid, is_expired, too_early, normalized_tenants,
  validate_base_claims, check_claims, known_policy, verified_claims,
}
use sintius.Authentication.Entry.{
  has_mfa, work, tenant_work, with_claims, interactive_rest, workload_rest, platform_rest, issue,
  scopes_refused, platform_permissions_for,
}
use sintius.Authentication.Principals.{
  authenticate_interactive-Verified, authenticate_workload-Verified, permitted,
}
use sintius.Authentication.Operators.{authenticate_platform_operator-Verified, in_catalog}
use sintius.Authentication.Session.{
  authenticate_interactive, authenticate_workload, authenticate_platform_operator, attempt, answer,
}
use sintius.Authentication.{
  AuthenticationMechanism, AuthenticationMechanism-discrete, oidc, workload_token,
  IdentityProviderPolicy, VerifiedCredentialClaims, AuthenticationInput,
}
use sintius.Context.Principal.{
  AuthenticatedPrincipal, PrincipalKind, Assurance, interactive, workload, mfa, single_factor,
  workload_assurance, unique_onto, metadata_invalid, assurance_matches,
  issue_authenticated_principal,
}
use sintius.Prelude.Sorting.{sort}
use sintius.Prelude.{
  includes, true, false, ◌&&◌, not, if◌then◌else◌, ◌≡◌, refl, none, some, Text, text, text_eq,
  text_lt, Text-discrete, ℕ_discrete, trim, List, [], ◌∷◌, all, length,
}
use sintius.Problem.{ok, fault, type_error}
use sintius.Time.{Date}

abbrev policy : AuthenticationMechanism → IdentityProviderPolicy
policy mechanism = record {
  id = text "idp";
  mechanism = mechanism;
  issuer = text "iss";
  allowed_audiences = text "app" ∷ platform_audience ∷ [];
  clock_skew_seconds = 1;
  require_mfa = true;
  allowed_workload_scopes = text "read" ∷ text "write" ∷ [];
}

abbrev claims : AuthenticationMechanism → (tenants : List Text) → VerifiedCredentialClaims
claims mechanism tenants = record {
  mechanism = mechanism;
  credential_id = text "k";
  subject = text "ada";
  issuer = text "iss";
  audiences = text "app" ∷ platform_audience ∷ [];
  tenant_ids = tenants;
  authentication_methods = text "mfa" ∷ [];
  scopes = text "read" ∷ [];
  expires_at = text "t";
  not_before = none;
  platform_roles = some (text "platform_tenant_provisioner" ∷ text "other" ∷ []);
}

abbrev parse_date : Text → Date
parse_date s = some 9000

abbrev provider : AuthenticationMechanism → List Text → AuthenticationDependencies
provider mechanism tenants = record {
  find_by_id = λ id. ok (some (policy mechanism));
  verify_credential = λ raw p. ok (claims mechanism tenants);
  is_revoked = λ issuer id. ok false;
}

abbrev input : AuthenticationInput
input = record {
  provider_id = text "idp";
  raw_credential = text "jwt";
  required_audience = text "app";
  correlation_id = text "c";
}

abbrev principal :
    PrincipalKind → Assurance → (tenants audiences scopes : List Text) → AuthenticatedPrincipal
principal kind assurance tenants audiences scopes = record {
  actor_id = text "ada";
  kind = kind;
  tenant_memberships = tenants;
  assurance = assurance;
  credential_id = text "k";
  issuer = text "iss";
  audiences = audiences;
  scopes = scopes;
  expires_at = 9000;
}

abbrev user : AuthenticatedPrincipal
user = principal interactive mfa (text "acme" ∷ []) (text "app" ∷ []) []

signed_in :
    (authenticate_interactive parse_date
      (provider oidc (text "acme" ∷ []))
      input
      (some 5)
      (some 6)).0
    ≡ ok user
unfolding authenticate_interactive tenant_work interactive_rest normalized_tenants attempt answer
    work with_claims known_policy verified_claims check_claims validate_base_claims
    claims_are_invalid is_expired too_early issue issue_authenticated_principal metadata_invalid
    assurance_matches unique_onto trim Text-discrete ℕ_discrete AuthenticationMechanism-discrete
signed_in = refl

authenticate_interactive-Verified_example :
    (v : Verified parse_date (provider oidc (text "acme" ∷ [])) input (some 5)) × (text_eq
        (text "app")
        platform_audience
      ≡ false)
    × (user.kind ≡ interactive)
    × (user.actor_id ≡ v.claims.subject)
    × (user.audiences ≡ text "app" ∷ [])
    × (user.scopes ≡ [])
    × (user.assurance ≡ (if has_mfa v.claims then mfa else single_factor))
    × ((v.policy.require_mfa && not (has_mfa v.claims)) ≡ false)
authenticate_interactive-Verified_example =
    authenticate_interactive-Verified parse_date (provider oidc (text "acme" ∷ [])) input (some 5)
      (some 6) signed_in

abbrev worker : AuthenticatedPrincipal
worker =
    principal workload workload_assurance (text "acme" ∷ []) (text "app" ∷ []) (text "read" ∷ [])

worker_in :
    (authenticate_workload parse_date
      (provider workload_token (text "acme" ∷ []))
      input
      (text "read" ∷ [])
      (some 5)
      (some 6)).0
    ≡ ok worker
unfolding authenticate_workload tenant_work workload_rest normalized_tenants scopes_refused attempt
    answer work with_claims known_policy verified_claims check_claims validate_base_claims
    claims_are_invalid is_expired too_early issue issue_authenticated_principal metadata_invalid
    assurance_matches unique_onto trim Text-discrete ℕ_discrete AuthenticationMechanism-discrete
worker_in = refl

authenticate_workload-Verified_example :
    (v : Verified parse_date (provider workload_token (text "acme" ∷ [])) input (some 5)) × (text_eq
        (text "app")
        platform_audience
      ≡ false)
    × (worker.kind ≡ workload)
    × (worker.assurance ≡ workload_assurance)
    × (length worker.tenant_memberships ≡ 1)
    × (worker.scopes ≡ unique_onto [] (unique_onto [] (text "read" ∷ [])))
    × (all
          (permitted parse_date (provider workload_token (text "acme" ∷ [])) v.policy v.claims)
          worker.scopes
        ≡ true)
    × ((tenant : Text) × (text "acme" ∷ [] ≡ tenant ∷ [])
        × (all (text_eq tenant) v.claims.tenant_ids ≡ true)
        × (includes Text-discrete tenant v.claims.tenant_ids ≡ true))
authenticate_workload-Verified_example =
    authenticate_workload-Verified parse_date (provider workload_token (text "acme" ∷ [])) input
      (text "read" ∷ []) (some 5) (some 6) worker_in

abbrev operator : AuthenticatedPrincipal
operator =
    principal interactive mfa [] (platform_audience ∷ []) (text "platform:tenant:provision" ∷ [])

operator_in :
    (authenticate_platform_operator parse_date (provider oidc []) input (some 5) (some 6)).0
    ≡ ok operator
unfolding authenticate_platform_operator platform_rest platform_permissions_for sort text_lt attempt
    answer work with_claims known_policy verified_claims check_claims validate_base_claims
    claims_are_invalid is_expired too_early issue issue_authenticated_principal metadata_invalid
    assurance_matches unique_onto trim Text-discrete ℕ_discrete AuthenticationMechanism-discrete
operator_in = refl

authenticate_platform_operator-Verified_example :
    (v : Verified parse_date
      (provider oidc [])
      (record input { required_audience = platform_audience })
      (some 5))
    × (length v.claims.tenant_ids ≡ 0)
    × (has_mfa v.claims ≡ true)
    × (operator.kind ≡ interactive)
    × (operator.assurance ≡ mfa)
    × (operator.tenant_memberships ≡ [])
    × (operator.audiences ≡ platform_audience ∷ [])
    × (all (in_catalog parse_date (provider oidc [])) operator.scopes ≡ true)
authenticate_platform_operator-Verified_example =
    authenticate_platform_operator-Verified parse_date (provider oidc []) input (some 5) (some 6)
      operator_in

-- A verifier that throws.
abbrev broken : AuthenticationDependencies
broken = record (provider oidc []) { verify_credential = λ raw p. fault type_error }
