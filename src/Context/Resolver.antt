-- ===== src/Context/Resolver.antt =====
-- The contexts that are derived from a principal, and how a tenant context is activated
-- (platform/tenant-context/src/context.ts, platform/tenant-context/src/platform.ts).
use sintius.Prelude.{
  Bool, true, false, ◌||◌, not, leb, Option, none, some, List, [], ◌∷◌, ◌++◌, includes, Text,
  Text-discrete, text_eq, is_blank,
}
use sintius.Problem.{
  Outcome, ok, problem, ◌>>=◌, ◌>>◌, throw_if, invalid_trusted_context, authentication_failed,
  untrusted_tenant_context, tenant_access_denied, tenant_not_active, tenant_context_mismatch,
  tenant_context_missing,
}
use sintius.Time.{Instant}
use sintius.Tenant.Transitions.{TenantState, active, provisioning, suspended, closed}
use sintius.Context.Principal.{
  PrincipalKind, interactive, workload, Assurance, single_factor, mfa, workload_assurance,
  AuthenticatedPrincipal, TenantContext, PlatformCommandContext, require_non_blank, is_none,
}

-- `assertPrincipalCurrent`; `issued` is the answer of `issuedPrincipals`.
unfoldable pub assert_principal_current :
    Bool → AuthenticatedPrincipal → Instant → Outcome (Unit {0})
assert_principal_current issued principal now =
    throw_if (not issued) authentication_failed
    >> throw_if (leb principal.expires_at now) authentication_failed

pub record ResolveTenantContextInput : Type 0 where
  pub principal : AuthenticatedPrincipal
  pub selected_tenant_id : Text
  pub tenant_state : TenantState
  pub correlation_id : Text
  pub causation_id : Option Text
  pub body_tenant_id : Option Text

abbrev pub is_operational : TenantState → Bool
is_operational active = true
is_operational provisioning = false
is_operational suspended = false
is_operational closed = false

-- `resolveTenantContext`
unfoldable pub resolve_tenant_context :
    Bool → Instant → ResolveTenantContextInput → Outcome TenantContext
unfolding assert_principal_current
resolve_tenant_context issued now input = do
  assert_principal_current issued input.principal now
  throw_if (not (is_none input.body_tenant_id)) untrusted_tenant_context
  throw_if
      (not (includes Text-discrete input.selected_tenant_id input.principal.tenant_memberships))
      tenant_access_denied
  throw_if (not (is_operational input.tenant_state)) tenant_not_active
  correlation_id ← require_non_blank input.correlation_id
  ok (record {
    tenant_id = input.selected_tenant_id;
    actor_id = input.principal.actor_id;
    principal_kind = input.principal.kind;
    correlation_id = correlation_id;
    causation_id = input.causation_id;
    assurance = input.principal.assurance;
    credential_id = input.principal.credential_id;
    audiences = input.principal.audiences;
    scopes = input.principal.scopes;
  })

pub record ResolvePlatformCommandContextInput : Type 0 where
  pub principal : AuthenticatedPrincipal
  pub correlation_id : Text
  pub causation_id : Option Text

abbrev pub blank_if_given : Option Text → Bool
blank_if_given none = false
blank_if_given (some value) = is_blank value

-- `resolvePlatformCommandContext`
unfoldable pub resolve_platform_command_context :
    Bool → Instant → ResolvePlatformCommandContextInput → Outcome PlatformCommandContext
resolve_platform_command_context issued now input = do
  throw_if (not issued) authentication_failed
  throw_if (is_blank input.correlation_id) invalid_trusted_context
  throw_if (blank_if_given input.causation_id) invalid_trusted_context
  throw_if (leb input.principal.expires_at now) authentication_failed
  actor_id ← require_non_blank input.principal.actor_id
  ok (record {
    actor_id = actor_id;
    principal_kind = input.principal.kind;
    correlation_id = input.correlation_id;
    causation_id = input.causation_id;
    assurance = input.principal.assurance;
    credential_id = input.principal.credential_id;
    audiences = input.principal.audiences;
    scopes = input.principal.scopes;
  })

-- `withCausation`; `issued` is the answer of `issuedContexts`.
unfoldable pub with_causation : Bool → TenantContext → Text → Outcome TenantContext
with_causation issued context causation_id = do
  throw_if (not issued) tenant_context_mismatch
  cause ← require_non_blank causation_id
  ok (record context { causation_id = some cause })

-- `xs.join("\u0000")`
unfoldable pub join_nul : List Text → Text
join_nul [] = []
join_nul (x ∷ []) = x
join_nul (x ∷ y ∷ xs) = x ++ 0 ∷ join_nul (y ∷ xs)

abbrev pub same_kind : PrincipalKind → PrincipalKind → Bool
same_kind interactive interactive = true
same_kind workload workload = true
same_kind _ _ = false

abbrev pub same_assurance : Assurance → Assurance → Bool
same_assurance single_factor single_factor = true
same_assurance mfa mfa = true
same_assurance workload_assurance workload_assurance = true
same_assurance _ _ = false

unfoldable pub differs : TenantContext → TenantContext → Bool
differs a b =
    not (text_eq a.tenant_id b.tenant_id)
    || not (text_eq a.actor_id b.actor_id)
    || not (same_kind a.principal_kind b.principal_kind)
    || not (same_assurance a.assurance b.assurance)
    || not (text_eq a.correlation_id b.correlation_id)
    || not (text_eq a.credential_id b.credential_id)
    || not (text_eq (join_nul a.audiences) (join_nul b.audiences))
    || not (text_eq (join_nul a.scopes) (join_nul b.scopes))

-- `runWithTenantContext`: the context under which the operation runs, given the active one.
unfoldable pub run_with_tenant_context :
    Bool → Option TenantContext → TenantContext → Outcome TenantContext
run_with_tenant_context issued current context =
    throw_if (not issued) tenant_context_mismatch >> elim current [
      | none ↦ ok context
      | some a ↦ throw_if (differs a context) tenant_context_mismatch >> ok context
    ]

-- `currentTenantContext`
unfoldable pub current_tenant_context : Option TenantContext → Outcome TenantContext
current_tenant_context none = problem tenant_context_missing
current_tenant_context (some context) = ok context
