-- ===== src/Access/Personas.antt =====
-- The persona matrix (modules/identity-tenant/domain/persona-matrix.ts). Of a grant's condition it matters here
-- only whether there is one; its sources and the titles are documentation.
use sintius.Access.Permissions.{
  RoleSnapshot, active, PermissionConstraint, op_lte, one, number, finite, permission_catalog,
}
use sintius.Prelude.Int.{pos}
use sintius.Prelude.{
  ◌*◌, ◌^◌, Bool, true, false, ◌&&◌, ◌||◌, not, Option, none, some, Text, text, text_eq, List, [],
  ◌∷◌, filter, any, same,
}

pub data Persona : Type 0 where
  billing_administrator pricing_manager collections_agent customer_support : Persona
  finance_controller revenue_accountant sales product_manager : Persona
  operations developer auditor executive : Persona

unfoldable pub Persona-discrete : Discrete Persona
Persona-discrete = hlevel

abbrev pub personas : List Persona
personas =
    billing_administrator ∷ pricing_manager ∷ collections_agent ∷ customer_support
    ∷ finance_controller ∷ revenue_accountant ∷ sales ∷ product_manager ∷ operations ∷ developer
    ∷ auditor ∷ executive ∷ []

unfoldable pub persona_code : Persona → Text
persona_code billing_administrator = text "billing_administrator"
persona_code pricing_manager = text "pricing_manager"
persona_code collections_agent = text "collections_agent"
persona_code customer_support = text "customer_support"
persona_code finance_controller = text "finance_controller"
persona_code revenue_accountant = text "revenue_accountant"
persona_code sales = text "sales"
persona_code product_manager = text "product_manager"
persona_code operations = text "operations"
persona_code developer = text "developer"
persona_code auditor = text "auditor"
persona_code executive = text "executive"

pub data GrantBasis : Type 0 where
  spec inferred proposed : GrantBasis

pub data Decision : Type 0 where
  approved declined : Decision

-- How a condition is enforced: by a limit of the role, or by an approval policy.
pub data Enforcement : Type 0 where
  role_limit : (Text → PermissionConstraint) → Enforcement
  approval_policy : Enforcement

pub record PersonaGrant : Type 0 where
  pub persona : Persona
  pub permission : Text
  pub basis : GrantBasis
  pub conditional : Bool
  pub enforcement : Option Enforcement
  pub decision : Option Decision

-- 1,000,000 minor units; a finite number counts multiples of 2^-1074.
abbrev pub usd_10000 : Text → PermissionConstraint
usd_10000 permission = record {
  permission = permission;
  attribute = text "amount_minor";
  operator = some op_lte;
  value = one (number (finite (pos (1000000 * 2 ^ 1074))));
}

abbrev grant : Persona → Text → GrantBasis → PersonaGrant
grant persona permission basis = record {
  persona = persona;
  permission = permission;
  basis = basis;
  conditional = false;
  enforcement = none;
  decision = none;
}

unfoldable pub persona_grants : List PersonaGrant
persona_grants =
    grant billing_administrator (text "billing:invoice:preview") spec
    ∷ record (grant billing_administrator (text "billing:invoice:finalize") spec) {
      conditional = true;
      enforcement = some (role_limit usd_10000);
    }
    ∷ record (grant billing_administrator (text "payments:payment:refund") spec) {
      conditional = true;
      enforcement = some (role_limit usd_10000);
    }
    ∷ record (grant billing_administrator (text "approval:request:propose") inferred) {
      conditional = true;
      decision = some approved;
    }
    ∷ record (grant pricing_manager (text "pricing:rate_card:activate") spec) {
      conditional = true;
      enforcement = some approval_policy;
    }
    ∷ grant pricing_manager (text "approval:request:propose") spec
    ∷ grant finance_controller (text "billing:invoice:preview") spec
    ∷ grant finance_controller (text "billing:invoice:finalize") spec
    ∷ grant finance_controller (text "payments:payment:refund") spec
    ∷ grant finance_controller (text "subscription:change:backdate") spec
    ∷ grant finance_controller (text "approval:request:decide") spec
    ∷ grant finance_controller (text "audit:read") spec
    ∷ record (grant finance_controller (text "collections:case:approve_exception") proposed) {
      conditional = true;
      decision = some approved;
    }
    ∷ grant product_manager (text "approval:request:decide") spec
    ∷ record (grant product_manager (text "pricing:rate_card:activate") inferred) {
      conditional = true;
      decision = some approved;
    }
    ∷ grant auditor (text "audit:read") spec
    ∷ record (grant operations (text "outbox:dead_letter:resolve") proposed) {
      decision = some declined;
    }
    ∷ []

abbrev is_declined : Option Decision → Bool
is_declined (some declined) = true
is_declined other = false

abbrev is_approved : Option Decision → Bool
is_approved (some approved) = true
is_approved other = false

abbrev is_spec : GrantBasis → Bool
is_spec spec = true
is_spec other = false

abbrev is_enforced : Option Enforcement → Bool
is_enforced none = false
is_enforced (some enforcement) = true

-- `isDefaultGrant`
unfoldable pub is_default_grant : PersonaGrant → Bool
is_default_grant value =
    not (is_declined value.decision)
    && ((is_spec value.basis || is_approved value.decision)
        && (not value.conditional || is_enforced value.enforcement || is_approved value.decision))

-- `pendingGrants`
unfoldable pub pending_grants : List PersonaGrant
unfolding persona_grants is_default_grant
pending_grants =
    filter (λ value. not (is_default_grant value) && not (is_declined value.decision))
      persona_grants

abbrev of_persona : Persona → PersonaGrant → Bool
of_persona persona value = same Persona-discrete value.persona persona && is_default_grant value

unfoldable pub template_permissions : Persona → List Text
unfolding persona_grants is_default_grant Persona-discrete
template_permissions persona =
    filter
      (λ permission.
        any (λ value. of_persona persona value && text_eq value.permission permission)
          persona_grants)
      permission_catalog

-- The limits of those grants that a role limit enforces.
unfoldable pub limits_of : Persona → List PersonaGrant → List PermissionConstraint
unfolding is_default_grant Persona-discrete
limits_of persona [] = []
limits_of persona (value ∷ values) =
    let rest = limits_of persona values in
    elim (of_persona persona value) [
      | false ↦ rest
      | true ↦ elim value.enforcement [
        | some (role_limit limit) ↦ limit value.permission ∷ rest
        | some approval_policy ↦ rest
        | none ↦ rest
      ]
    ]

-- The template of `defaultPersonaRoleTemplates`, as an active role.
unfoldable pub template_role : Persona → RoleSnapshot
unfolding template_permissions limits_of persona_grants persona_code
template_role persona = record {
  role_code = persona_code persona;
  permissions = template_permissions persona;
  status = active;
  limits = limits_of persona persona_grants;
}
