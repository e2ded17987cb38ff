-- ===== src/Context/Nesting.antt =====
-- Contexts that run inside one another (platform/tenant-context/src/context.ts).
use sintius.Prelude.{
  Bool, true, false, some, Text, Text-discrete, text_eq, is_blank, ◌≡◌, refl, arith, same_iff,
}
use sintius.Problem.{ok}
use sintius.Context.Principal.{
  PrincipalKind, interactive, workload, Assurance, single_factor, mfa, workload_assurance,
  TenantContext,
}
use sintius.Context.Resolver.{
  with_causation, same_kind, same_assurance, join_nul, differs, run_with_tenant_context,
}

text_eq_refl : (a : Text) → text_eq a a ≡ true
text_eq_refl a = (same_iff Text-discrete a a).1 refl

same_kind_refl : (k : PrincipalKind) → same_kind k k ≡ true
same_kind_refl interactive = refl
same_kind_refl workload = refl

same_assurance_refl : (a : Assurance) → same_assurance a a ≡ true
same_assurance_refl single_factor = refl
same_assurance_refl mfa = refl
same_assurance_refl workload_assurance = refl

-- The context of caused work differs from its parent in the cause only, and may always run inside
-- it: deriving a context never locks a request out of its own context.
pub with_causation-nests :
    (issued : Bool) (context child : TenantContext) (cause : Text)
    → with_causation issued context cause ≡ ok child
    → (child ≡ record context { causation_id = some cause })
      × (is_blank cause ≡ false)
      × (run_with_tenant_context true (some context) child ≡ ok child)
unfolding with_causation run_with_tenant_context differs
with_causation-nests issued context child cause h = ground (
  arith,
  text_eq_refl context.tenant_id,
  text_eq_refl context.actor_id,
  text_eq_refl context.correlation_id,
  text_eq_refl context.credential_id,
  text_eq_refl (join_nul context.audiences),
  text_eq_refl (join_nul context.scopes),
  same_kind_refl context.principal_kind,
  same_assurance_refl context.assurance,
)

-- A context that runs inside another, in any number of nested activations.
pub data Nested : TenantContext → TenantContext → Type 0 where
  outermost : (context : TenantContext) → Nested context context
  inside :
      (root context child : TenantContext) (issued : Bool)
      → Nested root context
      → run_with_tenant_context issued (some context) child ≡ ok child
      → Nested root child

-- However deeply activations nest, the tenant, the actor, the kind of principal and the
-- correlation id are those of the outermost context.
pub Nested-same :
    (root context : TenantContext)
    → Nested root context
    → (context.tenant_id ≡ root.tenant_id)
      × (context.actor_id ≡ root.actor_id)
      × (context.correlation_id ≡ root.correlation_id)
      × (same_kind context.principal_kind root.principal_kind ≡ true)
unfolding run_with_tenant_context differs
Nested-same root c (outermost context) = (refl, refl, refl, same_kind_refl context.principal_kind)
Nested-same root c (inside top context child issued nested ran) = ground (
  arith,
  Nested-same top context nested,
  same_iff Text-discrete context.tenant_id child.tenant_id,
  same_iff Text-discrete context.actor_id child.actor_id,
  same_iff Text-discrete context.correlation_id child.correlation_id,
)
