-- ===== src/Authentication/Session.antt =====
-- One attempt and its fact: `attempt`, `record` and the three methods of `createAuthenticator`
-- (modules/identity-tenant/application/authentication.ts). The clock is read once for the claims and once for
-- the fact. What the fact sink does changes nothing, so an attempt returns the fact that it hands over.
use sintius.Access.Authorizer.{platform_audience}
use sintius.Authentication.Claims.{AuthenticationDependencies}
use sintius.Authentication.Entry.{interactive_rest, workload_rest, platform_rest, work, tenant_work}
use sintius.Authentication.{
  oidc, saml, workload_token, VerifiedCredentialClaims, AuthenticationInput, AuthenticationKind,
  AuthenticationFailureReason, AuthenticationFact, interactive_login, workload_login,
  platform_login, Attempt, done, refused, thrown_problem, thrown_fault, problem_of, other_error,
}
use sintius.Context.Principal.{AuthenticatedPrincipal}
use sintius.Prelude.{if◌then◌else◌, leb, Option, none, some, Text, text, is_blank, List, [], ◌∷◌}
use sintius.Problem.{Outcome, ok, problem, fault}
use sintius.Time.{Instant, Date, max_instant}

-- The reason that an attempt failed, if it did.
unfoldable pub failure_reason : Attempt AuthenticatedPrincipal → Option AuthenticationFailureReason
failure_reason (done principal) = none
failure_reason (refused reason code) = some reason
failure_reason (thrown_problem c) = some other_error
failure_reason (thrown_fault e) = some other_error

-- What the caller gets: an expected refusal is the generic problem of its code.
unfoldable pub answer : Attempt AuthenticatedPrincipal → Outcome AuthenticatedPrincipal
unfolding problem_of
answer (done principal) = ok principal
answer (refused reason code) = problem (problem_of code)
answer (thrown_problem c) = problem c
answer (thrown_fault e) = fault e

abbrev pub claimed {ℓ} :
    {A : Type ℓ} → (VerifiedCredentialClaims → A) → Option VerifiedCredentialClaims → Option A
claimed field none = none
claimed field (some claims) = some (field claims)

-- The fact of `record`, at a valid time.
unfoldable pub fact_at :
    AuthenticationKind
    → AuthenticationInput
    → Option AuthenticationFailureReason
    → Option VerifiedCredentialClaims
    → Instant
    → AuthenticationFact
fact_at kind input reason claims occurred_at = record {
  kind = kind;
  reason = reason;
  provider_id = if is_blank input.provider_id then text "unspecified" else input.provider_id;
  mechanism = claimed (λ (c : VerifiedCredentialClaims). c.mechanism) claims;
  actor_id = claimed (λ (c : VerifiedCredentialClaims). c.subject) claims;
  credential_id = claimed (λ (c : VerifiedCredentialClaims). c.credential_id) claims;
  correlation_id = input.correlation_id;
  occurred_at = occurred_at;
}

-- `record`: at a time that `toISOString` refuses there is no fact.
unfoldable pub record_fact :
    AuthenticationKind
    → AuthenticationInput
    → Option AuthenticationFailureReason
    → Option VerifiedCredentialClaims
    → Date
    → Option AuthenticationFact
unfolding fact_at
record_fact kind input reason claims none = none
record_fact kind input reason claims (some t) =
    if leb t max_instant then some (fact_at kind input reason claims t) else none

-- `attempt`
unfoldable pub attempt :
    AuthenticationKind
    → AuthenticationInput
    → Option VerifiedCredentialClaims × Attempt AuthenticatedPrincipal
    → Date
    → Outcome AuthenticatedPrincipal × Option AuthenticationFact
unfolding failure_reason answer record_fact
attempt kind input result recorded_at =
    (answer result.1, record_fact kind input (failure_reason result.1) result.0 recorded_at)

module _ (parse_date : Text → Date) (d : AuthenticationDependencies) where
  unfoldable pub authenticate_interactive :
      AuthenticationInput
      → (now recorded_at : Date) → Outcome AuthenticatedPrincipal × Option AuthenticationFact
  authenticate_interactive input now recorded_at =
      attempt interactive_login input
        (tenant_work parse_date d input now (oidc ∷ saml ∷ [])
          (interactive_rest parse_date d input))
        recorded_at

  unfoldable pub authenticate_workload :
      AuthenticationInput
      → (required_scopes : List Text) → (now recorded_at : Date)
      → Outcome AuthenticatedPrincipal × Option AuthenticationFact
  authenticate_workload input required_scopes now recorded_at =
      attempt workload_login input
        (tenant_work parse_date d input now (workload_token ∷ [])
          (workload_rest parse_date d input required_scopes))
        recorded_at

  unfoldable pub authenticate_platform_operator :
      AuthenticationInput
      → (now recorded_at : Date) → Outcome AuthenticatedPrincipal × Option AuthenticationFact
  authenticate_platform_operator input now recorded_at =
      attempt platform_login input
        (work parse_date d (record input { required_audience = platform_audience }) now
          (oidc ∷ saml ∷ []) (platform_rest parse_date d))
        recorded_at
