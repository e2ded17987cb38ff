-- ===== src/Tenant/Store.antt =====
-- The tables behind the tenant commands, and their operations in one transaction
-- (modules/identity-tenant/infrastructure/postgres/tenant-persistence.ts). A table is the list of its rows; an INSERT
-- that breaks the primary key of its table throws PostgreSQL's error.
use sintius.Approval.Types.{ApprovalPolicy}
use sintius.Audit.Recorder.{AuditEvent}
use sintius.Event.{EventEnvelope}
use sintius.Prelude.{
  ℕ, Bool, ◌&&◌, not, ◌==◌, if◌then◌else◌, Option, Text, text_eq, List, [], ◌∷◌, ◌++◌, any, find?,
  map, Text,
}
use sintius.Problem.{
  Outcome, ok, fault, error, ◌>>=◌, ◌>>◌, throw_if, tenant_context_mismatch, tenant_already_exists,
  tenant_version_conflict,
}
use sintius.Tenant.Transitions.{TenantSnapshot}

pub record DefaultRoleRecord : Type 0 where
  pub tenant_id : Text
  pub role_code : Text

pub record InitialAdministratorRecord : Type 0 where
  pub tenant_id : Text
  pub actor_id : Text
  pub role_code : Text

pub record Database : Type 0 where
  pub tenants : List TenantSnapshot
  pub roles : List DefaultRoleRecord
  pub memberships : List InitialAdministratorRecord
  pub approval_policies : List ApprovalPolicy
  pub audit : List AuditEvent
  pub outbox : List EventEnvelope

abbrev pub assert_tenant_match : Text → Text → Outcome (Unit {0})
assert_tenant_match actual expected =
    throw_if (not (text_eq actual expected)) tenant_context_mismatch

-- An INSERT under a primary key; `clashes` says which rows have the new row's key.
abbrev pub insert_row : {A : Type 0} → (A → Bool) → A → List A → Outcome (List A)
insert_row clashes row rows = if any clashes rows then fault error else ok (rows ++ row ∷ [])

module _ (bound : Text) where
  -- `tenants.insert`
  unfoldable pub insert_tenant : TenantSnapshot → Database → Outcome Database
  insert_tenant tenant db = do
    assert_tenant_match tenant.id bound
    throw_if (any (λ (t : TenantSnapshot). text_eq t.id tenant.id) db.tenants) tenant_already_exists
    ok (record db { tenants = db.tenants ++ tenant ∷ [] })

  -- `tenants.findById`
  unfoldable pub find_tenant : Text → Database → Outcome (Option TenantSnapshot)
  find_tenant id db =
      assert_tenant_match id bound
      >> ok (find? (λ (t : TenantSnapshot). text_eq t.id id) db.tenants)

  abbrev pub is_version : TenantSnapshot → ℕ → TenantSnapshot → Bool
  is_version tenant expected_version t = text_eq t.id tenant.id && t.version == expected_version

  -- The SET clause of `tenants.update`.
  unfoldable pub set_row : TenantSnapshot → TenantSnapshot → TenantSnapshot
  set_row tenant t = record t {
    display_name = tenant.display_name;
    state = tenant.state;
    version = tenant.version;
    updated_at = tenant.updated_at;
  }

  -- `tenants.update`, which compares the version and sets the row in one statement.
  unfoldable pub update_tenant : TenantSnapshot → ℕ → Database → Outcome Database
  update_tenant tenant expected_version db = do
    assert_tenant_match tenant.id bound
    throw_if (not (any (is_version tenant expected_version) db.tenants)) tenant_version_conflict
    ok (record db {
      tenants =
          map
            (λ (t : TenantSnapshot).
              if is_version tenant expected_version t then set_row tenant t else t)
            db.tenants;
    })

  -- `roles.insertDefaultAdministratorRole`
  unfoldable pub insert_role : DefaultRoleRecord → Database → Outcome Database
  insert_role role db = do
    assert_tenant_match role.tenant_id bound
    roles ←
        insert_row
          (λ (r : DefaultRoleRecord).
            text_eq r.tenant_id role.tenant_id && text_eq r.role_code role.role_code)
          role db.roles
    ok (record db { roles = roles })

  -- `memberships.insertInitialAdministrator`
  unfoldable pub insert_administrator : InitialAdministratorRecord → Database → Outcome Database
  insert_administrator member db = do
    assert_tenant_match member.tenant_id bound
    memberships ←
        insert_row
          (λ (m : InitialAdministratorRecord).
            text_eq m.tenant_id member.tenant_id
            && text_eq m.actor_id member.actor_id
            && text_eq m.role_code member.role_code)
          member db.memberships
    ok (record db { memberships = memberships })

  -- `approvalPolicies.insert`
  unfoldable pub insert_policy : ApprovalPolicy → Database → Outcome Database
  insert_policy row db = do
    assert_tenant_match row.tenant_id bound
    approval_policies ←
        insert_row
          (λ (r : ApprovalPolicy).
            text_eq r.tenant_id row.tenant_id && text_eq r.action_type row.action_type)
          row db.approval_policies
    ok (record db { approval_policies = approval_policies })

  -- `audit.append`
  unfoldable pub append_audit : AuditEvent → Database → Outcome Database
  append_audit event db = do
    assert_tenant_match event.unsealed.tenant_id bound
    audit ←
        insert_row
          (λ (e : AuditEvent).
            text_eq e.unsealed.tenant_id event.unsealed.tenant_id
            && text_eq e.unsealed.audit_event_id event.unsealed.audit_event_id)
          event db.audit
    ok (record db { audit = audit })

  -- `outbox.append`
  unfoldable pub append_outbox : EventEnvelope → Database → Outcome Database
  append_outbox envelope db = do
    assert_tenant_match envelope.tenant_id bound
    outbox ←
        insert_row
          (λ (e : EventEnvelope).
            text_eq e.tenant_id envelope.tenant_id && text_eq e.id envelope.id)
          envelope db.outbox
    ok (record db { outbox = outbox })
