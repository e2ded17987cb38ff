-- ===== src/Authentication/Refused.antt =====
-- The fact that each attempt leaves, and what a refused caller sees.
use sintius.Authentication.Claims.{AuthenticationDependencies}
use sintius.Authentication.Session.{claimed}
use sintius.Authentication.{
  AuthenticationMechanism, AuthenticationInput, AuthenticationKind, AuthenticationFact,
  AuthenticationFailureReason, IdentityProviderPolicy, VerifiedCredentialClaims, other_error,
}
use sintius.Context.Principal.{AuthenticatedPrincipal}
use sintius.Prelude.{Option, none, some, Text, ◌≡◌}
use sintius.Problem.{
  Outcome, ok, problem, fault, Fault, ProblemCode, authentication_failed,
  authentication_assurance_insufficient, workload_scope_denied,
}
use sintius.Time.{Instant}

-- Who a fact names: nobody, or the subject and the credential of claims that the verifier of this
-- provider vouched for.
pub data Named (d : AuthenticationDependencies) (input : AuthenticationInput)
    : Option AuthenticationMechanism → (actor_id credential_id : Option Text) → Type 0 where
  nobody : Named d input none none none
  verified :
      (policy : IdentityProviderPolicy) (claims : VerifiedCredentialClaims)
      → d.find_by_id input.provider_id ≡ ok (some policy)
      → d.verify_credential input.raw_credential policy ≡ ok claims
      → Named d input (some claims.mechanism) (some claims.subject) (some claims.credential_id)

-- The reason of a fact beside what the caller got: a principal, one of the three generic problems, or
-- an error of other code.
pub data Answered
    : Option AuthenticationFailureReason → Outcome AuthenticatedPrincipal → Type 0 where
  signed_in : {p : AuthenticatedPrincipal} → Answered none (ok p)
  unauthenticated :
      {r : AuthenticationFailureReason} → Answered (some r) (problem authentication_failed)
  weak :
      {r : AuthenticationFailureReason}
      → Answered (some r) (problem authentication_assurance_insufficient)
  unscoped : {r : AuthenticationFailureReason} → Answered (some r) (problem workload_scope_denied)
  other_problem : {c : ProblemCode} → Answered (some other_error) (problem c)
  other_fault : {e : Fault} → Answered (some other_error) (fault e)

-- The fact that an attempt leaves, at a time.
pub record Truthful (d : AuthenticationDependencies) (kind : AuthenticationKind)
    (input : AuthenticationInput) (t : Instant)
    (result : Outcome AuthenticatedPrincipal × Option AuthenticationFact) : Type 0 where
  pub fact : AuthenticationFact
  pub recorded : result.1 ≡ some fact
  pub of_kind : fact.kind ≡ kind
  pub correlation : fact.correlation_id ≡ input.correlation_id
  pub at : fact.occurred_at ≡ t
  pub answered : Answered fact.reason result.0
  pub named : Named d input fact.mechanism fact.actor_id fact.credential_id

module _ (d : AuthenticationDependencies) (input : AuthenticationInput) where
  -- The claims of an attempt, by the fields that its fact names.
  abbrev Vouched : Option VerifiedCredentialClaims → Type 0
  Vouched claims =
      Named d input (claimed (λ (c : VerifiedCredentialClaims). c.mechanism) claims)
        (claimed (λ (c : VerifiedCredentialClaims). c.subject) claims)
        (claimed (λ (c : VerifiedCredentialClaims). c.credential_id) claims)
