-- ===== src/Tenant/Adds.antt =====
-- What each operation of the tenant store adds, and who may run the work of a command.
use sintius.Access.Authorizer.{assert_allowed}
use sintius.Approval.Types.{ApprovalPolicy}
use sintius.Audit.Policy.{Fields}
use sintius.Audit.Recorder.{
  AuditEvent, UnsealedAuditEvent, AuditRecordInput, record_for_platform_command, record_for_scope,
}
use sintius.Audit.Sealed.{Attributed, record_for_scope-Attributed}
use sintius.Context.Principal.{PlatformCommandContext, require_non_blank}
use sintius.Event.{EventEnvelope, EventScope, event_scope_for_platform_command, platform_scope}
use sintius.Idempotency.Executor.{StoredResponse, Records, IdempotentResult, IdempotentRequest}
use sintius.Idempotency.Effects.{execute-world, Replayed}
use sintius.Idempotency.Payload.{Json}
use sintius.Prelude.{
  ℕ, Bool, true, false, not, if◌then◌else◌, Text, text, text_eq, List, [], ◌∷◌, ◌++◌, any, map, ◌≡◌,
  arith, ◌⊎◌, inl, inr,
}
use sintius.Problem.{Outcome, ok, ◌>>◌, throw_if, Outcome-cases, tenant_context_mismatch}
use sintius.Tenant.Commands.{authorize, execute_idempotently, record_change}
use sintius.Tenant.Requests.{Readings, insert_policies, default_approval_policies}
use sintius.Tenant.Store.{
  Database, DefaultRoleRecord, InitialAdministratorRecord, insert_tenant, update_tenant, is_version,
  set_row, insert_role, insert_administrator, insert_policy, append_audit, append_outbox,
}
use sintius.Tenant.Transitions.{TenantSnapshot}
use sintius.Time.{Instant}

-- Each operation of the store, when it returns: what it adds, to the one table that is its own.
module _ (bound : Text) (db : Database) {after : Database} where
  pub update_tenant-sets :
      (tenant : TenantSnapshot) (expected_version : ℕ)
      → update_tenant bound tenant expected_version db ≡ ok after
      → (any (is_version bound tenant expected_version) db.tenants ≡ true)
        × (after ≡ record db {
          tenants =
              map
                (λ (t : TenantSnapshot).
                  if is_version bound tenant expected_version t then set_row bound tenant t else t)
                db.tenants;
        })
  unfolding update_tenant
  update_tenant-sets tenant expected_version h = ground arith

  pub insert_tenant-adds :
      (tenant : TenantSnapshot)
      → insert_tenant bound tenant db ≡ ok after
      → (after ≡ record db { tenants = db.tenants ++ tenant ∷ [] })
        × (any (λ (t : TenantSnapshot). text_eq t.id tenant.id) db.tenants ≡ false)
  unfolding insert_tenant
  insert_tenant-adds tenant h = ground arith

  pub insert_role-adds :
      (role : DefaultRoleRecord)
      → insert_role bound role db ≡ ok after
      → after ≡ record db { roles = db.roles ++ role ∷ [] }
  unfolding insert_role
  insert_role-adds role h = ground arith

  pub insert_administrator-adds :
      (member : InitialAdministratorRecord)
      → insert_administrator bound member db ≡ ok after
      → after ≡ record db { memberships = db.memberships ++ member ∷ [] }
  unfolding insert_administrator
  insert_administrator-adds member h = ground arith

  pub append_audit-adds :
      (event : AuditEvent)
      → append_audit bound event db ≡ ok after
      → (after ≡ record db { audit = db.audit ++ event ∷ [] })
        × (text_eq event.unsealed.tenant_id bound ≡ true)
  unfolding append_audit
  append_audit-adds event h = ground arith

  pub append_outbox-adds :
      (envelope : EventEnvelope)
      → append_outbox bound envelope db ≡ ok after
      → (after ≡ record db { outbox = db.outbox ++ envelope ∷ [] })
        × (text_eq envelope.tenant_id bound ≡ true)
  unfolding append_outbox
  append_outbox-adds envelope h = ground arith

insert_policy-adds :
    (bound : Text) (policy : ApprovalPolicy) (db : Database) {after : Database}
    → insert_policy bound policy db ≡ ok after
    → after ≡ record db { approval_policies = db.approval_policies ++ policy ∷ [] }
unfolding insert_policy
insert_policy-adds bound policy db h = ground arith

-- One addition to each table after the other.
pub chained :
    (d0 d1 d2 d3 d4 d5 d6 : Database) (tenant : TenantSnapshot) (role : DefaultRoleRecord)
    (member : InitialAdministratorRecord) (policies : List ApprovalPolicy) (event : AuditEvent)
    (envelope : EventEnvelope)
    → d1 ≡ record d0 { tenants = d0.tenants ++ tenant ∷ [] }
    → d2 ≡ record d1 { roles = d1.roles ++ role ∷ [] }
    → d3 ≡ record d2 { memberships = d2.memberships ++ member ∷ [] }
    → d4 ≡ record d3 { approval_policies = d3.approval_policies ++ policies }
    → d5 ≡ record d4 { audit = d4.audit ++ event ∷ [] }
    → d6 ≡ record d5 { outbox = d5.outbox ++ envelope ∷ [] }
    → d6 ≡ record {
      tenants = d0.tenants ++ tenant ∷ [];
      roles = d0.roles ++ role ∷ [];
      memberships = d0.memberships ++ member ∷ [];
      approval_policies = d0.approval_policies ++ policies;
      audit = d0.audit ++ event ∷ [];
      outbox = d0.outbox ++ envelope ∷ [];
    }
chained d0 d1 d2 d3 d4 d5 d6 tenant role member policies event envelope p1 p2 p3 p4 p5 p6 =
    rw (p6, p5, p4, p3, p2, p1)

abbrev only_policy : Text → ApprovalPolicy
only_policy id = record {
  tenant_id = id;
  action_type = text "pricing:rate_card:activate";
  required_approvals = 2;
  separation_of_duties = true;
  expires_after_seconds = 604800;
  approver_requirements =
      record { permission = text "pricing:rate_card:activate"; count = 1 }
      ∷ record { permission = text "billing:invoice:finalize"; count = 1 }
      ∷ [];
}

one_policy :
    (bound : Text) (policy : ApprovalPolicy) (db : Database) {after : Database}
    → insert_policies bound (policy ∷ []) db ≡ ok after
    → insert_policy bound policy db ≡ ok after
unfolding insert_policies
one_policy bound policy db h = ground arith

pub default_policies-adds :
    (id : Text) (db : Database) {after : Database}
    → insert_policies id (default_approval_policies id) db ≡ ok after
    → after ≡ record db { approval_policies = db.approval_policies ++ default_approval_policies id }
unfolding insert_policies default_approval_policies
default_policies-adds id db {after} h =
    insert_policy-adds id (only_policy id) db (one_policy id (only_policy id) db h)

pub non_blank : (value : Text) {kept : Text} → require_non_blank value ≡ ok kept → kept ≡ value
non_blank value h = ground arith

module _ (redact : Text → Text) (evidence_hash : UnsealedAuditEvent → Text) (policy : Fields)
    (request_hash : Text → Json → Text) (retention_seconds : ℕ) (iso : Instant → Text)
    (issued : Bool) (context : PlatformCommandContext) (id : Text) (r : Readings) where
  pub scope_issued :
      {scope : EventScope}
      → event_scope_for_platform_command issued context id ≡ ok scope
      → (issued ≡ true) × (scope ≡ platform_scope context id)
  unfolding event_scope_for_platform_command
  scope_issued h = ground arith

  pub record_change-adds :
      (input : AuditRecordInput) (db : Database) {after : Database}
      → record_change redact evidence_hash policy request_hash retention_seconds iso issued context
          id input r db
        ≡ ok after
      → (event : AuditEvent) × Attributed (platform_scope context id) event.unsealed
        × (after ≡ record db { audit = db.audit ++ event ∷ [] })
  unfolding record_change record_for_platform_command
  record_change-adds input db {after} h =
      elim (Outcome-cases (event_scope_for_platform_command issued context id)) [
        | inr lost ↦ absurd (ground arith)
        | inl (scope, e) ↦
            elim (Outcome-cases (
              record_for_scope redact evidence_hash (append_audit id) policy scope input
                r.audit_clock r.audit_id db)) [
                  | inr lost ↦ absurd (ground arith)
                  | inl ((event, kept), k) ↦
                      let (identity, dated, short, verified, appended) =
                        record_for_scope-Attributed redact evidence_hash (append_audit id) policy
                          scope input r.audit_clock r.audit_id db k in
                      let same_kept : kept ≡ after = ground arith in
                      let trusted = (scope_issued e).1 in
                      (
                        event,
                        rw (← trusted) identity,
                        rw (← same_kept) (append_audit-adds id db event appended).0,
                      )
                ]
      ]

module _ (redact : Text → Text) (evidence_hash : UnsealedAuditEvent → Text) (policy : Fields)
    (request_hash : Text → Json → Text) (retention_seconds : ℕ) (iso : Instant → Text)
    (issued : Bool) (context : PlatformCommandContext) (r : Readings) where
  pub execute_idempotently-parts :
      (id : Text) (request : IdempotentRequest) (permission : Text)
      (work : Database → Outcome (StoredResponse × Database)) (records stored : Records)
      (db after : Database) (result : IdempotentResult)
      → execute_idempotently redact evidence_hash policy request_hash retention_seconds iso issued
          id request
          (authorize redact evidence_hash policy request_hash retention_seconds iso issued context
            permission)
          work
          r.claim_now
          records
          db
        ≡ ok (result, stored, after)
      → (assert_allowed issued context permission ≡ ok tt)
        × (((after ≡ db)
              × Replayed id request.scope request.key
                  (request_hash request.scope request.payload)
                  r.claim_now
                  records
                  stored
                  result.response)
            ⊎ (work db ≡ ok (result.response, after)))
  unfolding execute_idempotently authorize
  execute_idempotently-parts id request permission work records stored db after result h =
      let (allowed, effect) =
        execute-world request_hash retention_seconds work id request
          (throw_if (not issued) tenant_context_mismatch
            >> assert_allowed issued context permission)
          r.claim_now records stored db after result (ground arith) in
      (ground arith, effect)
