-- ===== src/Authentication.antt =====
-- Authentication (modules/identity-tenant/application/authentication.ts,
-- modules/identity-tenant/application/authentication-ports.ts): policies, verified claims and facts.
pub mod Claims
pub mod Entry
pub mod Session
pub mod Accepted
pub mod Principals
pub mod Operators
pub mod Refused
use sintius.Prelude.{ℕ, Bool, Option, Text, List}
use sintius.Problem.{
  Outcome, Fault, ProblemCode, ok, problem, fault, authentication_failed,
  authentication_assurance_insufficient, workload_scope_denied,
}
use sintius.Time.{Instant}

pub data AuthenticationMechanism : Type 0 where
  oidc saml workload_token : AuthenticationMechanism

unfoldable pub AuthenticationMechanism-discrete : Discrete AuthenticationMechanism
AuthenticationMechanism-discrete = hlevel

pub record IdentityProviderPolicy : Type 0 where
  pub id : Text
  pub mechanism : AuthenticationMechanism
  pub issuer : Text
  pub allowed_audiences : List Text
  pub clock_skew_seconds : ℕ
  pub require_mfa : Bool
  pub allowed_workload_scopes : List Text

pub record VerifiedCredentialClaims : Type 0 where
  pub mechanism : AuthenticationMechanism
  pub credential_id : Text
  pub subject : Text
  pub issuer : Text
  pub audiences : List Text
  pub tenant_ids : List Text
  pub authentication_methods : List Text
  pub scopes : List Text
  pub expires_at : Text
  pub not_before : Option Text
  pub platform_roles : Option (List Text)

pub data AuthenticationKind : Type 0 where
  interactive_login workload_login platform_login : AuthenticationKind

pub data AuthenticationFailureReason : Type 0 where
  malformed_request unknown_provider credential_invalid claims_invalid : AuthenticationFailureReason
  revoked mfa_required no_tenant_membership : AuthenticationFailureReason
  tenant_claims_on_platform_token scope_denied other_error : AuthenticationFailureReason

-- The fact of one attempt; a reason says that it failed.
pub record AuthenticationFact : Type 0 where
  pub kind : AuthenticationKind
  pub reason : Option AuthenticationFailureReason
  pub provider_id : Text
  pub mechanism : Option AuthenticationMechanism
  pub actor_id : Option Text
  pub credential_id : Option Text
  pub correlation_id : Text
  pub occurred_at : Instant

pub record AuthenticationInput : Type 0 where
  pub provider_id : Text
  pub raw_credential : Text
  pub required_audience : Text
  pub correlation_id : Text

pub data RejectionCode : Type 0 where
  failed assurance_insufficient scope_refused : RejectionCode

-- The problem that a rejection turns into.
unfoldable pub problem_of : RejectionCode → ProblemCode
problem_of failed = authentication_failed
problem_of assurance_insufficient = authentication_assurance_insufficient
problem_of scope_refused = workload_scope_denied

-- The end of a piece of work: a value, an expected `Rejection`, or another error.
pub data Attempt (A : Type 0) : Type 0 where
  done : A → Attempt A
  refused : AuthenticationFailureReason → RejectionCode → Attempt A
  thrown_problem : ProblemCode → Attempt A
  thrown_fault : Fault → Attempt A

module _ {A B : Type 0} where
  infixl 5 ◌>>=◌
  abbrev pub ◌>>=◌ : Attempt A → (A → Attempt B) → Attempt B
  done a >>= next = next a
  refused reason code >>= next = refused reason code
  thrown_problem c >>= next = thrown_problem c
  thrown_fault e >>= next = thrown_fault e

infixl 5 ◌>>◌
abbrev pub ◌>>◌ : {B : Type 0} → Attempt (Unit {0}) → Attempt B → Attempt B
check >> rest = check >>= λ nothing. rest

abbrev pub reject_if : Bool → AuthenticationFailureReason → RejectionCode → Attempt (Unit {0})
reject_if Bool.true reason code = refused reason code
reject_if Bool.false reason code = done tt

-- A call of other code in the work.
abbrev pub call : {A : Type 0} → Outcome A → Attempt A
call (ok a) = done a
call (problem c) = thrown_problem c
call (fault e) = thrown_fault e
