-- ===== src/Access/Roles.antt =====
-- Role administration (modules/identity-tenant/application/authorization.ts) on the tables of
-- modules/identity-tenant/infrastructure/postgres/security-persistence.ts. A change is one transaction: when it
-- throws, the tables stay. The audit record and the outbox event that end it are calls that may throw.
use sintius.Prelude.{
  ℕ, Bool, true, false, ◌&&◌, not, leb, ◌==◌, if◌then◌else◌, Option, none, some, List, [], ◌∷◌,
  ◌++◌, map, any, count_by, Text, text_eq, text,
}
use sintius.Problem.{
  Outcome, ok, problem, ◌>>=◌, ◌>>◌, throw_if, separation_of_duties_violation, role_not_found,
  last_administrator_protected, role_assignment_exists, role_assignment_not_found,
}
use sintius.Context.Principal.{TenantContext, require_non_blank}
use sintius.Context.Resolver.{current_tenant_context}
use sintius.Access.Permissions.{is_active, RoleSnapshot}
use sintius.Access.Authorizer.{Dependencies, assert_permission}

pub record Assignment : Type 0 where
  pub tenant_id : Text
  pub actor_id : Text
  pub role_code : Text
  pub is_held : Bool

-- `tenant_role_assignment`, whose key is tenant, actor and role; `is_held` is the status 'active'.
abbrev pub Assignments : Type 0
Assignments = List Assignment

unfoldable pub is_pair : Text → Text → Text → Assignment → Bool
is_pair tenant actor role a =
    text_eq a.tenant_id tenant && text_eq a.actor_id actor && text_eq a.role_code role

abbrev pub set_held : Bool → Assignment → Assignment
set_held held a = record a { is_held = held }

unfoldable pub set_where : (Assignment → Bool) → Bool → Assignments → Assignments
set_where test held = map (λ a. if test a then set_held held a else a)

-- The pair's row, when its status is 'active'.
abbrev pub is_held_pair : Text → Text → Text → Assignment → Bool
is_held_pair tenant actor role a = is_pair tenant actor role a && a.is_held

-- The row of the VALUES clause.
unfoldable pub held_row : Text → Text → Text → Assignment
held_row tenant actor role = record {
  tenant_id = tenant;
  actor_id = actor;
  role_code = role;
  is_held = true;
}

-- `insert`: a new row, or a revoked one made active again.
unfoldable pub insert : Text → Text → Text → Assignments → Outcome Assignments
insert tenant actor role rows =
    if any (is_held_pair tenant actor role) rows
    then problem role_assignment_exists
    else if any (is_pair tenant actor role) rows
    then ok (set_where (is_pair tenant actor role) true rows)
    else ok (rows ++ held_row tenant actor role ∷ [])

-- `remove`: exactly one active row must meet the WHERE clause.
unfoldable pub remove : Text → Text → Text → Assignments → Outcome Assignments
remove tenant actor role rows =
    if count_by (is_held_pair tenant actor role) rows == 1
    then ok (set_where (is_held_pair tenant actor role) false rows)
    else problem role_assignment_not_found

unfoldable pub is_holder : Text → Text → Assignment → Bool
is_holder tenant role a = text_eq a.tenant_id tenant && text_eq a.role_code role && a.is_held

-- `countActiveHolders`
unfoldable pub count_active_holders : Text → Text → Assignments → ℕ
count_active_holders tenant role rows = count_by (is_holder tenant role) rows

abbrev pub administrator_role : Text
administrator_role = text "tenant_administrator"

pub data ChangeKind : Type 0 where
  assigned revoked : ChangeKind

pub record RoleAssignmentInput : Type 0 where
  pub target_actor_id : Text
  pub role_code : Text

abbrev pub role_is_active : Option RoleSnapshot → Bool
role_is_active none = false
role_is_active (some role) = is_active role.status

unfoldable pub change_assignment :
    ChangeKind → Text → Text → Text → Assignments → Outcome Assignments
change_assignment assigned tenant target role rows = insert tenant target role rows
change_assignment revoked tenant target role rows =
    throw_if (text_eq role administrator_role && leb (count_active_holders tenant role rows) 1)
      last_administrator_protected
    >> remove tenant target role rows

-- `change`: `find_role` is the tenant's role catalog, `report` the audit record and the event.
unfoldable pub change :
    Dependencies
    → (Text → Text → Option RoleSnapshot)
    → (TenantContext → Text → Text → ChangeKind → Outcome (Unit {0}))
    → Option TenantContext
    → RoleAssignmentInput
    → ChangeKind
    → Assignments
    → Outcome Assignments
change d find_role report current input kind rows = do
  assert_permission d current (text "tenant:role:assign") []
  context ← current_tenant_context current
  target ← require_non_blank input.target_actor_id
  throw_if (text_eq target context.actor_id) separation_of_duties_violation
  throw_if (not (role_is_active (find_role context.tenant_id input.role_code))) role_not_found
  changed ← change_assignment kind context.tenant_id target input.role_code rows
  report context target input.role_code kind
  ok changed
