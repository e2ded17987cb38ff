-- ===== src/Access/Permissions.antt =====
-- Permissions, roles and their limits (modules/identity-tenant/domain/authorization.ts,
-- modules/identity-tenant/domain/platform-access.ts).
use sintius.Prelude.{
  Bool, true, false, ◌&&◌, not, if◌then◌else◌, Option, none, some, List, [], ◌∷◌, ◌++◌, any, all,
  filter, includes, Text, Text-discrete, text_eq, text,
}
use sintius.Prelude.Int.{ℤ, ltb_ℤ, eqb_ℤ}

-- `PERMISSION_CATALOG`
abbrev pub permission_catalog : List Text
permission_catalog =
    text "tenant:role:manage"
    ∷ text "tenant:role:assign"
    ∷ text "approval:request:propose"
    ∷ text "approval:request:decide"
    ∷ text "billing:invoice:preview"
    ∷ text "billing:invoice:finalize"
    ∷ text "pricing:rate_card:activate"
    ∷ text "payments:payment:refund"
    ∷ text "subscription:change:backdate"
    ∷ text "collections:case:approve_exception"
    ∷ text "portal:subscription:change"
    ∷ text "audit:read"
    ∷ text "outbox:dead_letter:resolve"
    ∷ text "foundation:proof:execute"
    ∷ []

unfoldable pub is_known_permission : Text → Bool
is_known_permission value = includes Text-discrete value permission_catalog

pub data RoleStatus : Type 0 where
  active retired : RoleStatus

abbrev pub is_active : RoleStatus → Bool
is_active active = true
is_active retired = false

pub data ConstraintOperator : Type 0 where
  op_eq op_lt op_lte op_gt op_gte op_in : ConstraintOperator

-- A JavaScript number: a finite double is a multiple of 2^-1074, which `finite` counts.
pub data Number : Type 0 where
  finite : ℤ → Number
  infinite : Bool → Number
  nan : Number

pub data ConstraintValue : Type 0 where
  string : Text → ConstraintValue
  number : Number → ConstraintValue

pub data ExpectedValue : Type 0 where
  one : ConstraintValue → ExpectedValue
  many : List ConstraintValue → ExpectedValue

-- The field `operator` may hold a string that is no operator: `none`.
pub record PermissionConstraint : Type 0 where
  pub permission : Text
  pub attribute : Text
  pub operator : Option ConstraintOperator
  pub value : ExpectedValue

-- Without limits, the list is empty.
pub record RoleSnapshot : Type 0 where
  pub role_code : Text
  pub permissions : List Text
  pub status : RoleStatus
  pub limits : List PermissionConstraint

abbrev pub Attributes : Type 0
Attributes = List (Text × ConstraintValue)

-- `Object.hasOwn` and the property's value.
unfoldable pub attribute_of : Text → Attributes → Option ConstraintValue
attribute_of name [] = none
attribute_of name ((k, v) ∷ rest) = if text_eq name k then some v else attribute_of name rest

-- `granted.add(permission)`
unfoldable pub add_to_set : Text → List Text → List Text
add_to_set p granted = if includes Text-discrete p granted then granted else granted ++ p ∷ []

unfoldable pub add_known : List Text → List Text → List Text
add_known [] granted = granted
add_known (p ∷ permissions) granted =
    add_known permissions (if is_known_permission p then add_to_set p granted else granted)

unfoldable pub granted_from : List RoleSnapshot → List Text → List Text
granted_from [] granted = granted
granted_from (role ∷ roles) granted =
    granted_from roles
      (if is_active role.status then add_known role.permissions granted else granted)

-- `effectivePermissions`: the set in the order of insertion.
unfoldable pub effective_permissions : List RoleSnapshot → List Text
effective_permissions roles = granted_from roles []

-- `===`
unfoldable pub strict_equal : ConstraintValue → ConstraintValue → Bool
strict_equal (string a) (string b) = text_eq a b
strict_equal (number (finite a)) (number (finite b)) = eqb_ℤ a b
strict_equal (number (infinite a)) (number (infinite b)) = if a then b else not b
strict_equal _ _ = false

-- The comparison of `includes`, which finds NaN.
unfoldable pub same_value_zero : ConstraintValue → ConstraintValue → Bool
same_value_zero (number nan) (number nan) = true
same_value_zero a b = strict_equal a b

unfoldable pub compare_finite : (ℤ → ℤ → Bool) → ConstraintValue → ExpectedValue → Bool
compare_finite holds (number (finite a)) (one (number (finite b))) = holds a b
compare_finite holds _ _ = false

-- The switch of `constraintsSatisfied`, on an attribute that is there.
unfoldable pub operator_holds : Option ConstraintOperator → ConstraintValue → ExpectedValue → Bool
operator_holds (some op_eq) actual (one expected) = strict_equal actual expected
operator_holds (some op_eq) actual (many expected) = false
operator_holds (some op_in) actual (one expected) = false
operator_holds (some op_in) actual (many expected) = any (same_value_zero actual) expected
operator_holds (some op_lt) actual expected = compare_finite ltb_ℤ actual expected
operator_holds (some op_lte) actual expected =
    compare_finite (λ a b. not (ltb_ℤ b a)) actual expected
operator_holds (some op_gt) actual expected = compare_finite (λ a b. ltb_ℤ b a) actual expected
operator_holds (some op_gte) actual expected =
    compare_finite (λ a b. not (ltb_ℤ a b)) actual expected
operator_holds none actual expected = false

unfoldable pub constraint_satisfied : Attributes → PermissionConstraint → Bool
constraint_satisfied attributes constraint = elim (attribute_of constraint.attribute attributes) [
  | none ↦ false
  | some actual ↦ operator_holds constraint.operator actual constraint.value
]

-- `constraintsSatisfied`
unfoldable pub constraints_satisfied : List PermissionConstraint → Attributes → Bool
constraints_satisfied constraints attributes = all (constraint_satisfied attributes) constraints

unfoldable pub role_grants : Text → Attributes → RoleSnapshot → Bool
role_grants permission attributes role =
    is_active role.status
    && includes Text-discrete permission role.permissions
    && constraints_satisfied (filter (λ limit. text_eq limit.permission permission) role.limits)
        attributes

-- `grantedByRoles`
unfoldable pub granted_by_roles : List RoleSnapshot → Text → Attributes → Bool
granted_by_roles roles permission attributes = any (role_grants permission attributes) roles
