-- ===== src/Access/Grants.antt =====
-- What roles grant, and that limits and constraints only narrow it
-- (modules/identity-tenant/domain/authorization.ts).
use sintius.Prelude.{
  Bool, true, ◌&&◌, ◌||◌, not, List, [], ◌∷◌, any, all, filter, includes, Text, Text-discrete,
  text_eq, ◌≡◌, refl, arith, any-append, same, same_iff, ap,
}
use sintius.Access.Permissions.{
  is_known_permission, is_active, PermissionConstraint, RoleSnapshot, Attributes, add_to_set,
  add_known, granted_from, effective_permissions, constraints_satisfied, role_grants,
  granted_by_roles,
}

includes-add_to_set :
    (q p : Text) (granted : List Text)
    → includes Text-discrete q (add_to_set p granted)
      ≡ (includes Text-discrete q granted || text_eq p q)
unfolding add_to_set
includes-add_to_set q p granted =
    ground
      (arith, any-append (λ x. same Text-discrete x q) granted (p ∷ []), same_iff Text-discrete p q)

known-same : (p q : Text) → text_eq p q ≡ true → is_known_permission p ≡ is_known_permission q
known-same p q h = ap is_known_permission ((same_iff Text-discrete p q).0 h)

includes-add_known :
    (q : Text) (ps granted : List Text)
    → includes Text-discrete q (add_known ps granted)
      ≡ (includes Text-discrete q granted || (is_known_permission q && includes Text-discrete q ps))
unfolding add_known
includes-add_known q [] granted = ground arith
includes-add_known q (p ∷ ps) granted = ground (
  arith,
  known-same p q,
  includes-add_to_set q p granted,
  includes-add_known q ps granted,
  includes-add_known q ps (add_to_set p granted),
)

-- The role is active and lists the permission.
unfoldable pub lists : Text → RoleSnapshot → Bool
lists q role = is_active role.status && includes Text-discrete q role.permissions

includes-granted_from :
    (q : Text) (roles : List RoleSnapshot) (granted : List Text)
    → includes Text-discrete q (granted_from roles granted)
      ≡ (includes Text-discrete q granted || (is_known_permission q && any (lists q) roles))
unfolding granted_from lists
includes-granted_from q [] granted = ground arith
includes-granted_from q (role ∷ roles) granted = ground (
  arith,
  includes-add_known q role.permissions granted,
  includes-granted_from q roles granted,
  includes-granted_from q roles (add_known role.permissions granted),
)

-- The effective permissions are the catalog's permissions that some active role lists, and no
-- others: a retired role and an unknown name grant nothing.
pub effective_permissions_lem :
    (roles : List RoleSnapshot) (permission : Text)
    → includes Text-discrete permission (effective_permissions roles)
      ≡ (is_known_permission permission && any (lists permission) roles)
unfolding effective_permissions
effective_permissions_lem roles permission = includes-granted_from permission roles []

role_grants-lists :
    (permission : Text) (attributes : Attributes) (roles : List RoleSnapshot)
    → any (role_grants permission attributes) roles ≡ true
    → any (lists permission) roles ≡ true
unfolding role_grants lists
role_grants-lists permission attributes [] h = h
role_grants-lists permission attributes (role ∷ roles) h =
    ground (arith, role_grants-lists permission attributes roles)

-- No limit of the role is about the permission.
unfoldable pub unlimited : Text → RoleSnapshot → Bool
unlimited permission role = all (λ limit. not (text_eq limit.permission permission)) role.limits

no_limits-filter :
    (permission : Text) (attributes : Attributes) (limits : List PermissionConstraint)
    → all (λ limit. not (text_eq limit.permission permission)) limits ≡ true
    → constraints_satisfied
        (filter (λ limit. text_eq limit.permission permission) limits)
        attributes
      ≡ true
unfolding constraints_satisfied
no_limits-filter permission attributes [] h = refl
no_limits-filter permission attributes (l ∷ limits) h =
    ground (arith, no_limits-filter permission attributes limits)

-- A role that is active and lists the permission without a limit on it grants it for all attributes,
-- whatever limits the other roles have.
pub granted_by_roles-unlimited :
    (permission : Text) (attributes : Attributes) (roles : List RoleSnapshot)
    → any (λ role. lists permission role && unlimited permission role) roles ≡ true
    → granted_by_roles roles permission attributes ≡ true
unfolding granted_by_roles role_grants lists unlimited
granted_by_roles-unlimited permission attributes [] h = h
granted_by_roles-unlimited permission attributes (role ∷ roles) h = ground (
  arith,
  no_limits-filter permission attributes role.limits,
  granted_by_roles-unlimited permission attributes roles,
)

-- For a permission of the catalog, roles with limits never grant what the effective permissions do
-- not hold, whatever the attributes.
pub granted_by_roles-narrows :
    (roles : List RoleSnapshot) (permission : Text) (attributes : Attributes)
    → is_known_permission permission ≡ true
    → granted_by_roles roles permission attributes ≡ true
    → includes Text-discrete permission (effective_permissions roles) ≡ true
unfolding granted_by_roles
granted_by_roles-narrows roles permission attributes known h = ground (
  arith,
  effective_permissions_lem roles permission,
  role_grants-lists permission attributes roles h,
)
