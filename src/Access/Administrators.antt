-- ===== src/Access/Administrators.antt =====
-- What role administration keeps (modules/identity-tenant/application/authorization.ts).
use sintius.Prelude.{
  ◌+◌, ◌≤◌, Bool, true, false, Option, some, [], ◌∷◌, count_by, Text, text_eq, text, Text-discrete,
  same_iff, ◌≡◌, refl, arith, ap, count_by-append,
}
use sintius.Problem.{Outcome, ok}
use sintius.Context.Principal.{TenantContext}
use sintius.Context.Resolver.{current_tenant_context}
use sintius.Access.Permissions.{RoleSnapshot}
use sintius.Access.Authorizer.{Dependencies, assert_permission}
use sintius.Access.Roles.{
  Assignment, Assignments, is_pair, is_held_pair, held_row, set_where, insert, remove, is_holder,
  count_active_holders, administrator_role, ChangeKind, assigned, revoked, RoleAssignmentInput,
  change_assignment, change,
}

-- Revoking the rows of a test takes from a role's holders no more rows than meet the test.
revoke-count :
    (tenant role : Text) (test : Assignment → Bool) (rows : Assignments)
    → count_by (is_holder tenant role) rows
      ≤ count_by (is_holder tenant role) (set_where test false rows) + count_by test rows
unfolding set_where is_holder
revoke-count tenant role test [] = omega arith
revoke-count tenant role test (a ∷ rows) = ground (arith, revoke-count tenant role test rows)

grant-count :
    (tenant role : Text) (test : Assignment → Bool) (rows : Assignments)
    → count_by (is_holder tenant role) rows
      ≤ count_by (is_holder tenant role) (set_where test true rows)
unfolding set_where is_holder
grant-count tenant role test [] = omega arith
grant-count tenant role test (a ∷ rows) = ground (arith, grant-count tenant role test rows)

-- Rows of another role keep their status.
other-count :
    (tenant role target other : Text) (rows : Assignments)
    → text_eq other role ≡ false
    → count_by (is_holder tenant role) (set_where (is_held_pair tenant target other) false rows)
      ≡ count_by (is_holder tenant role) rows
unfolding set_where is_holder is_pair
other-count tenant role target other [] h = refl
other-count tenant role target other (a ∷ rows) h = ground (
  arith,
  same_iff Text-discrete a.role_code role,
  same_iff Text-discrete a.role_code other,
  same_iff Text-discrete other role,
  other-count tenant role target other rows h,
)

insert-count :
    (tenant role target code : Text) (rows changed : Assignments)
    → insert tenant target code rows ≡ ok changed
    → count_by (is_holder tenant role) rows ≤ count_by (is_holder tenant role) changed
unfolding insert
insert-count tenant role target code rows changed h = ground (
  arith,
  grant-count tenant role (is_pair tenant target code) rows,
  count_by-append (is_holder tenant role) rows (held_row tenant target code ∷ []),
)

code_holders :
    (tenant code : Text) (rows : Assignments)
    → text_eq code administrator_role ≡ true
    → count_active_holders tenant code rows ≡ count_by (is_holder tenant administrator_role) rows
unfolding count_active_holders
code_holders tenant code rows h =
    ap (λ (c : Text). count_by (is_holder tenant c) rows)
      ((same_iff Text-discrete code administrator_role).0 h)

remove-eq-ok :
    (tenant target code : Text) (rows changed : Assignments)
    → remove tenant target code rows ≡ ok changed
    → (count_by (is_held_pair tenant target code) rows ≡ 1)
      × (changed ≡ set_where (is_held_pair tenant target code) false rows)
unfolding remove
remove-eq-ok tenant target code rows changed h = ground arith

change_assignment-keeps :
    (kind : ChangeKind) (tenant target code : Text) (rows changed : Assignments)
    → 1 ≤ count_active_holders tenant administrator_role rows
    → change_assignment kind tenant target code rows ≡ ok changed
    → 1 ≤ count_active_holders tenant administrator_role changed
unfolding change_assignment count_active_holders
change_assignment-keeps assigned tenant target code rows changed le h =
    ground (arith, insert-count tenant administrator_role target code rows changed h)
change_assignment-keeps revoked tenant target code rows changed le h = ground (
  arith,
  code_holders tenant code rows,
  revoke-count tenant administrator_role (is_held_pair tenant target code) rows,
  other-count tenant administrator_role target code rows,
  remove-eq-ok tenant target code rows changed,
)

-- A change of roles that succeeds in a tenant with an administrator was permitted, was not about the
-- acting actor's own roles, and leaves the tenant at least one administrator.
pub change-keeps_administrator :
    (d : Dependencies) (find_role : Text → Text → Option RoleSnapshot)
    (report : TenantContext → Text → Text → ChangeKind → Outcome (Unit {0}))
    (context : TenantContext) (input : RoleAssignmentInput) (kind : ChangeKind)
    (rows changed : Assignments)
    → change d find_role report (some context) input kind rows ≡ ok changed
    → 1 ≤ count_active_holders context.tenant_id administrator_role rows
    → (assert_permission d (some context) (text "tenant:role:assign") [] ≡ ok tt)
      × (text_eq input.target_actor_id context.actor_id ≡ false)
      × (1 ≤ count_active_holders context.tenant_id administrator_role changed)
unfolding change current_tenant_context
change-keeps_administrator d find_role report context input kind rows changed h le =
    let made : change_assignment kind context.tenant_id input.target_actor_id input.role_code rows
        ≡ ok changed =
      ground arith in
    (
      ground arith,
      ground arith,
      change_assignment-keeps kind context.tenant_id input.target_actor_id input.role_code rows
          changed le made,
    )
