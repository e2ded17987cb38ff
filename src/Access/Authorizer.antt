-- ===== src/Access/Authorizer.antt =====
-- The tenant authorizer and the platform authorizer (modules/identity-tenant/application/authorization.ts,
-- modules/identity-tenant/application/platform-authorization.ts, modules/identity-tenant/domain/platform-access.ts). The
-- stores are parameters that may throw.
use sintius.Prelude.{
  Bool, true, false, ◌&&◌, not, Option, none, some, List, [], ◌∷◌, includes, Text, Text-discrete,
  text, ◌≡◌, ◌⊎◌, arith,
}
use sintius.Problem.{
  Outcome, ok, problem, fault, ◌>>=◌, ◌>>◌, throw_if, unknown_permission, permission_denied,
  platform_access_denied, tenant_context_mismatch,
}
use sintius.Context.Principal.{
  PrincipalKind, interactive, workload, Assurance, mfa, TenantContext, PlatformCommandContext,
}
use sintius.Context.Resolver.{current_tenant_context}
use sintius.Access.Permissions.{
  is_known_permission, PermissionConstraint, RoleSnapshot, Attributes, constraints_satisfied,
  granted_by_roles,
}

-- `loadAssignedRoles` of a tenant's actor, and the optional `constraintsFor` of a tenant's permission.
pub record Dependencies : Type 0 where
  pub load_assigned_roles : Text → Text → Outcome (List RoleSnapshot)
  pub constraints_for : Option (Text → Text → Outcome (List PermissionConstraint))

-- The grant, before constraints.
unfoldable pub granted_to : Dependencies → TenantContext → Text → Attributes → Outcome Bool
granted_to d context permission attributes = elim context.principal_kind [
  | workload ↦ ok (includes Text-discrete permission context.scopes)
  | interactive ↦ d.load_assigned_roles context.tenant_id context.actor_id >>= λ roles.
      ok (granted_by_roles roles permission attributes)
]

-- The `try` block: a failure denies.
unfoldable pub narrowed : Outcome (List PermissionConstraint) → Attributes → Bool
narrowed (ok constraints) attributes = constraints_satisfied constraints attributes
narrowed (problem c) attributes = false
narrowed (fault e) attributes = false

unfoldable pub narrow : Dependencies → TenantContext → Text → Attributes → Bool → Bool
narrow d context permission attributes granted = elim d.constraints_for [
  | none ↦ granted
  | some load ↦ granted && narrowed (load context.tenant_id permission) attributes
]

-- `hasPermission`, given the active context.
unfoldable pub has_permission :
    Dependencies → Option TenantContext → Text → Attributes → Outcome Bool
has_permission d current permission attributes = do
  throw_if (not (is_known_permission permission)) unknown_permission
  context ← current_tenant_context current
  granted ← granted_to d context permission attributes
  ok (narrow d context permission attributes granted)

-- `assertPermission`
unfoldable pub assert_permission :
    Dependencies → Option TenantContext → Text → Attributes → Outcome (Unit {0})
assert_permission d current permission attributes =
    has_permission d current permission attributes >>= λ allowed.
    throw_if (not allowed) permission_denied

abbrev pub platform_audience : Text
platform_audience = text "sintius-platform"

abbrev pub platform_permission_catalog : List Text
platform_permission_catalog =
    text "platform:tenant:provision" ∷ text "platform:tenant:lifecycle" ∷ []

unfoldable pub is_platform_permission : Text → Bool
is_platform_permission value = includes Text-discrete value platform_permission_catalog

abbrev pub is_interactive : PrincipalKind → Bool
is_interactive interactive = true
is_interactive workload = false

abbrev pub is_mfa : Assurance → Bool
is_mfa mfa = true
is_mfa _ = false

-- `assertAllowed` of the platform authorizer; `issued` is the answer of the weak set.
unfoldable pub assert_allowed : Bool → PlatformCommandContext → Text → Outcome (Unit {0})
assert_allowed issued context permission =
    throw_if (not issued) tenant_context_mismatch
    >> throw_if
        (not (
          is_platform_permission permission
          && is_interactive context.principal_kind
          && is_mfa context.assurance
          && includes Text-discrete platform_audience context.audiences
          && includes Text-discrete permission context.scopes))
        platform_access_denied

abbrev pub Granted : Dependencies → TenantContext → Text → Attributes → Type 0
Granted d context permission attributes =
    ((context.principal_kind ≡ workload)
      × (includes Text-discrete permission context.scopes ≡ true))
    ⊎ ((context.principal_kind ≡ interactive)
        × ((roles : List RoleSnapshot) × (d.load_assigned_roles context.tenant_id context.actor_id
              ≡ ok roles)
            × (granted_by_roles roles permission attributes ≡ true)))

-- Constraints only narrow: what is permitted with a constraint store is permitted without one.
pub has_permission-narrows :
    (d : Dependencies) (current : Option TenantContext) (permission : Text)
    (attributes : Attributes)
    → has_permission d current permission attributes ≡ ok true
    → has_permission (record d { constraints_for = none }) current permission attributes ≡ ok true
unfolding has_permission granted_to narrow current_tenant_context
has_permission-narrows d none permission attributes h = ground arith
has_permission-narrows d (some context) permission attributes h = ground arith

-- A platform permission is asserted only for an issued platform context of an interactive
-- principal with MFA on the platform audience that holds a permission of the platform catalog.
pub assert_allowed-operator :
    (issued : Bool) (context : PlatformCommandContext) (permission : Text)
    → assert_allowed issued context permission ≡ ok tt
    → (issued ≡ true)
      × (is_platform_permission permission ≡ true)
      × (context.principal_kind ≡ interactive)
      × (context.assurance ≡ mfa)
      × (includes Text-discrete platform_audience context.audiences ≡ true)
      × (includes Text-discrete permission context.scopes ≡ true)
unfolding assert_allowed
assert_allowed-operator issued context permission h = ground arith
