-- ===== src/Examples/Access.antt =====
-- Principals, contexts, permissions, role changes and a decision (modules/identity-tenant,
-- modules/audit-governance, platform/tenant-context).
use sintius.Prelude.{
  ◌≤◌, ◌<◌, ◌≡◌, refl, arith, true, false, ◌&&◌, any, includes, List, [], ◌∷◌, Text, text, text_eq,
  Text-discrete, ℕ_discrete, is_space, is_blank, trim, trim_start, ◌++◌, Option, some, none,
}
use sintius.Problem.{Outcome, ok}
use sintius.Time.{Date}
use sintius.Tenant.Transitions.{active}
use sintius.Context.Principal.{
  interactive, mfa, AuthenticatedPrincipal, IssueAuthenticatedPrincipalInput, TenantContext,
  PlatformCommandContext, assurance_matches, metadata_invalid, unique_onto,
  issue_authenticated_principal,
}
use sintius.Context.Resolver.{
  assert_principal_current, ResolveTenantContextInput, resolve_tenant_context, with_causation,
  current_tenant_context,
}
use sintius.Context.Trusted.{
  IsValidPrincipal, issue-IsValidPrincipal, resolve_tenant_context-trusted,
}
use sintius.Access.Permissions.{
  is_known_permission, RoleSnapshot, granted_by_roles, role_grants, constraints_satisfied,
  effective_permissions,
}
use sintius.Access.Permissions
use sintius.Access.Grants.{lists, unlimited, effective_permissions_lem, granted_by_roles-unlimited}
use sintius.Access.Authorizer.{
  Dependencies, granted_to, narrow, has_permission, assert_permission, narrowed, platform_audience,
  is_platform_permission, assert_allowed, has_permission-narrows,
}
use sintius.Access.Roles.{
  Assignment, is_pair, held_row, insert, count_active_holders, is_holder, administrator_role,
  ChangeKind, assigned, RoleAssignmentInput, change_assignment, change,
}
use sintius.Access.Administrators.{change-keeps_administrator}

abbrev input : IssueAuthenticatedPrincipalInput
input = record {
  actor_id = text "ada";
  kind = some interactive;
  tenant_memberships = text "t1" ∷ text "t1" ∷ [];
  assurance = some mfa;
  credential_id = text "c";
  issuer = text "i";
  audiences = text "api" ∷ [];
  scopes = [];
  expires_at = text "z";
}

abbrev parse : Text → Date
parse s = some 500

abbrev ada : AuthenticatedPrincipal
ada = record {
  actor_id = text "ada";
  kind = interactive;
  tenant_memberships = text "t1" ∷ [];
  assurance = mfa;
  credential_id = text "c";
  issuer = text "i";
  audiences = text "api" ∷ [];
  scopes = [];
  expires_at = 500;
}

issued : issue_authenticated_principal parse input ≡ ok ada
unfolding issue_authenticated_principal metadata_invalid assurance_matches unique_onto trim
    trim_start is_space Text-discrete ℕ_discrete
issued = refl

issue-IsValidPrincipal_example : IsValidPrincipal ada
issue-IsValidPrincipal_example = issue-IsValidPrincipal parse input ada issued

abbrev selection : ResolveTenantContextInput
selection = record {
  principal = ada;
  selected_tenant_id = text "t1";
  tenant_state = active;
  correlation_id = text "k";
  causation_id = none;
  body_tenant_id = none;
}

abbrev pub context : TenantContext
context = record {
  tenant_id = text "t1";
  actor_id = text "ada";
  principal_kind = interactive;
  correlation_id = text "k";
  causation_id = none;
  assurance = mfa;
  credential_id = text "c";
  audiences = text "api" ∷ [];
  scopes = [];
}

resolved : resolve_tenant_context true 100 selection ≡ ok context
unfolding resolve_tenant_context assert_principal_current trim trim_start is_space Text-discrete
    ℕ_discrete
resolved = refl

resolve_tenant_context-trusted_example :
    (true ≡ true)
    × (100 < 500)
    × (selection.body_tenant_id ≡ none)
    × (includes Text-discrete (text "t1") ada.tenant_memberships ≡ true)
    × (active ≡ active)
    × (is_blank context.correlation_id ≡ false)
    × (context.tenant_id ≡ text "t1")
    × (context.actor_id ≡ text "ada")
    × (context.principal_kind ≡ interactive)
    × (context.assurance ≡ mfa)
    × (context.credential_id ≡ ada.credential_id)
    × (context.audiences ≡ ada.audiences)
    × (context.scopes ≡ ada.scopes)
resolve_tenant_context-trusted_example =
    resolve_tenant_context-trusted true 100 selection context resolved

abbrev child : TenantContext
child = record context { causation_id = some (text "x") }

caused : with_causation true context (text "x") ≡ ok child
unfolding with_causation trim trim_start is_space
caused = refl

abbrev administrator : RoleSnapshot
administrator = record {
  role_code = text "tenant_administrator";
  permissions = text "tenant:role:assign" ∷ text "approval:request:decide" ∷ [];
  status = Permissions.RoleStatus.active;
  limits = [];
}

abbrev assign : Text
assign = text "tenant:role:assign"

known : is_known_permission assign ≡ true
unfolding is_known_permission Text-discrete ℕ_discrete
known = refl

granted : granted_by_roles (administrator ∷ []) assign [] ≡ true
unfolding granted_by_roles role_grants constraints_satisfied Text-discrete ℕ_discrete
granted = refl

listed : any (λ role. lists assign role && unlimited assign role) (administrator ∷ []) ≡ true
unfolding lists unlimited Text-discrete ℕ_discrete
listed = refl

granted_by_roles-unlimited_example : granted_by_roles (administrator ∷ []) assign [] ≡ true
granted_by_roles-unlimited_example =
    granted_by_roles-unlimited assign [] (administrator ∷ []) listed

effective_permissions_lem_example :
    includes Text-discrete assign (effective_permissions (administrator ∷ []))
    ≡ (is_known_permission assign && any (lists assign) (administrator ∷ []))
effective_permissions_lem_example = effective_permissions_lem (administrator ∷ []) assign

abbrev pub stores : Dependencies
stores = record {
  load_assigned_roles = λ tenant actor. ok (administrator ∷ []);
  constraints_for = some (λ tenant permission. ok []);
}

has_assign : has_permission stores (some context) assign [] ≡ ok true
unfolding has_permission granted_to narrow narrowed current_tenant_context granted_by_roles
    role_grants constraints_satisfied is_known_permission Text-discrete ℕ_discrete
has_assign = refl

has_permission-narrows_example :
    has_permission (record stores { constraints_for = none }) (some context) assign [] ≡ ok true
has_permission-narrows_example = has_permission-narrows stores (some context) assign [] has_assign

abbrev operator : PlatformCommandContext
operator = record {
  actor_id = text "op";
  principal_kind = interactive;
  correlation_id = text "k";
  causation_id = none;
  assurance = mfa;
  credential_id = text "c";
  audiences = platform_audience ∷ [];
  scopes = text "platform:tenant:provision" ∷ [];
}

allowed : assert_allowed true operator (text "platform:tenant:provision") ≡ ok tt
unfolding assert_allowed is_platform_permission Text-discrete ℕ_discrete
allowed = refl

abbrev rows : List Assignment
rows = held_row (text "t1") (text "ada") administrator_role ∷ []

abbrev rows_after : List Assignment
rows_after = rows ++ held_row (text "t1") (text "bob") administrator_role ∷ []

abbrev find_role : Text → Text → Option RoleSnapshot
find_role tenant code = some administrator

abbrev report : TenantContext → Text → Text → ChangeKind → Outcome (Unit {0})
report c target role kind = ok tt

abbrev for_bob : RoleAssignmentInput
for_bob = record { target_actor_id = text "bob"; role_code = administrator_role }

changed : change stores find_role report (some context) for_bob assigned rows ≡ ok rows_after
unfolding change change_assignment insert is_pair held_row assert_permission has_permission
    granted_to narrow narrowed current_tenant_context granted_by_roles role_grants
    constraints_satisfied is_known_permission trim trim_start is_space Text-discrete ℕ_discrete
changed = refl

one_holder : 1 ≤ count_active_holders (text "t1") administrator_role rows
unfolding count_active_holders is_holder held_row Text-discrete ℕ_discrete
one_holder = omega arith

change-keeps_administrator_example :
    (assert_permission stores (some context) assign [] ≡ ok tt)
    × (text_eq (text "bob") (text "ada") ≡ false)
    × (1 ≤ count_active_holders (text "t1") administrator_role rows_after)
change-keeps_administrator_example =
    change-keeps_administrator stores find_role report context for_bob assigned rows rows_after
      changed one_holder
