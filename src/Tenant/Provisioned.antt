-- ===== src/Tenant/Provisioned.antt =====
-- What the tenant commands change, and for whom.
use sintius.Access.Authorizer.{assert_allowed}
use sintius.Audit.Policy.{Fields}
use sintius.Audit.Recorder.{AuditEvent, UnsealedAuditEvent}
use sintius.Audit.Sealed.{Attributed}
use sintius.Context.Principal.{PlatformCommandContext, require_non_blank}
use sintius.Event.Build.{build_event_envelope_for}
use sintius.Event.Trusted.{build-parts}
use sintius.Event.{
  BuildEventInput, EventEnvelope, EventScope, event_scope_for_platform_command, platform_scope,
}
use sintius.Idempotency.Effects.{Replayed}
use sintius.Idempotency.Executor.{StoredResponse, Records}
use sintius.Idempotency.Payload.{Json, member, no_member, object, string}
use sintius.Prelude.{
  ℕ, Bool, false, Option, Text, text, text_eq, [], ◌∷◌, ◌++◌, any, ◌≡◌, ◌∙◌, ap, sym, arith, ◌⊎◌,
  inl, inr,
}
use sintius.Problem.{ok, >>=-eq-ok}
use sintius.Tenant.Adds.{
  insert_tenant-adds, insert_role-adds, insert_administrator-adds, append_outbox-adds, chained,
  default_policies-adds, non_blank, scope_issued, record_change-adds, execute_idempotently-parts,
}
use sintius.Tenant.Commands.{
  authorize, execute_idempotently, record_change, provision_work, provision,
}
use sintius.Tenant.Requests.{
  ProvisionTenantInput, Readings, insert_policies, default_approval_policies,
}
use sintius.Tenant.Store.{
  Database, DefaultRoleRecord, InitialAdministratorRecord, insert_tenant, insert_role,
  insert_administrator, append_outbox,
}
use sintius.Tenant.Stored.{TenantView, tenant_from_stored}
use sintius.Tenant.Transitions.{TenantSnapshot, TenantChange, provision_tenant}
use sintius.Time.{Instant}

module _ (redact : Text → Text) (evidence_hash : UnsealedAuditEvent → Text) (policy : Fields)
    (request_hash : Text → Json → Text) (retention_seconds : ℕ) (iso : Instant → Text)
    (issued : Bool) (context : PlatformCommandContext) (id : Text) (r : Readings) where
  -- What `provision` adds: one row of each kind, all of the one tenant, and none was there before.
  pub record Provisioned (administrator : Text) (change : TenantChange) (envelope : EventEnvelope)
      (db after : Database) : Type 0 where
    pub event : AuditEvent
    pub attributed : Attributed (platform_scope context id) event.unsealed
    pub fresh : any (λ (t : TenantSnapshot). text_eq t.id change.tenant.id) db.tenants ≡ false
    pub added : after ≡ record {
      tenants = db.tenants ++ change.tenant ∷ [];
      roles = db.roles ++ record { tenant_id = id; role_code = text "tenant_administrator" } ∷ [];
      memberships =
          db.memberships
          ++ record {
            tenant_id = id;
            actor_id = administrator;
            role_code = text "tenant_administrator";
          }
            ∷ [];
      approval_policies = db.approval_policies ++ default_approval_policies id;
      audit = db.audit ++ event ∷ [];
      outbox = db.outbox ++ envelope ∷ [];
    }

  provision_work-Provisioned :
      (administrator : Text) (change : TenantChange) (envelope : EventEnvelope)
      (db after : Database) {response : StoredResponse}
      → provision_work redact evidence_hash policy request_hash retention_seconds iso issued context
          id administrator change envelope r db
        ≡ ok (response, after)
      → Provisioned administrator change envelope db after
  unfolding provision_work
  provision_work-Provisioned administrator change envelope db after {response} h =
      let role : DefaultRoleRecord = record {
        tenant_id = id;
        role_code = text "tenant_administrator";
      } in
      let member : InitialAdministratorRecord = record {
        tenant_id = id;
        actor_id = administrator;
        role_code = text "tenant_administrator";
      } in
      let policies = default_approval_policies id in
      let (with_tenant, tenant_call, h1) = >>=-eq-ok (insert_tenant id change.tenant db) _ h in
      let (with_role, role_call, h2) = >>=-eq-ok (insert_role id role with_tenant) _ h1 in
      let (with_member, member_call, h3) =
        >>=-eq-ok (insert_administrator id member with_role) _ h2 in
      let (with_policies, policy_call, h4) =
        >>=-eq-ok (insert_policies id policies with_member) _ h3 in
      let (with_audit, audit_call, h5) =
        >>=-eq-ok
          (record_change redact evidence_hash policy request_hash retention_seconds iso issued
            context id _ r with_policies)
          _ h4 in
      let (with_event, event_call, h6) = >>=-eq-ok (append_outbox id envelope with_audit) _ h5 in
      let (tenants, fresh) = insert_tenant-adds id db change.tenant tenant_call in
      let (event, identity, audited) =
        record_change-adds redact evidence_hash policy request_hash retention_seconds iso issued
          context id r _ with_policies audit_call in
      let (published, same_tenant) = append_outbox-adds id with_audit envelope event_call in
      let last : with_event ≡ after = ground arith in
      record {
        event = event;
        attributed = identity;
        fresh = fresh;
        added =
            sym last
            ∙ chained db with_tenant with_role with_member with_policies with_audit with_event
                change.tenant role member policies event envelope tenants
                (insert_role-adds id with_tenant role role_call)
                (insert_administrator-adds id with_role member member_call)
                (default_policies-adds id with_member policy_call) audited published;
      }

module _ (redact : Text → Text) (evidence_hash : UnsealedAuditEvent → Text) (policy : Fields)
    (request_hash : Text → Json → Text) (retention_seconds : ℕ) (iso : Instant → Text)
    (issued : Bool) (context : PlatformCommandContext) (r : Readings) where
  -- The hash of a provisioning's request.
  abbrev pub hash_of : TenantChange → (administrator : Text) → Text
  hash_of change administrator = request_hash (text "tenant.provision") (
      object (
        member (text "display_name") (string change.tenant.display_name)
          (member (text "initial_administrator_actor_id") (string administrator) no_member)))

  -- The effect of a provisioning: the tables are as they were, and the tenant is the one of the answer
  -- that is stored under the command's key, for the same request; or the rows are added.
  abbrev pub Effect :
      ProvisionTenantInput
      → (key : Option Text) → (records stored : Records) (db after : Database) → TenantView
      → Type 0
  Effect input key records stored db after tenant =
      ((after ≡ db)
        × ((response : StoredResponse) × (change : TenantChange) × (tenant_from_stored response
                input.tenant_id
              ≡ ok tenant)
            × (provision_tenant input.tenant_id input.display_name r.now ≡ ok change)
            × Replayed input.tenant_id (text "tenant.provision") key
                (hash_of change input.initial_administrator_actor_id) r.claim_now records stored
                response))
      ⊎ ((change : TenantChange) × (envelope : EventEnvelope) × (provision_tenant input.tenant_id
              input.display_name r.now
            ≡ ok change)
          × (envelope.tenant_id ≡ input.tenant_id)
          × Provisioned redact evidence_hash policy request_hash retention_seconds iso issued
              context input.tenant_id r input.initial_administrator_actor_id change envelope db
              after)

  effect :
      (input : ProvisionTenantInput) (id administrator : Text) (change : TenantChange)
      (scope : EventScope) (event_input : BuildEventInput) (envelope : EventEnvelope)
      (key : Option Text) (records kept stored : Records) (db left after : Database)
      (response : StoredResponse) (tenant : TenantView)
      → left ≡ after
      → kept ≡ stored
      → id ≡ input.tenant_id
      → administrator ≡ input.initial_administrator_actor_id
      → provision_tenant id input.display_name r.now ≡ ok change
      → event_scope_for_platform_command issued context id ≡ ok scope
      → build_event_envelope_for scope event_input r.now r.event_id ≡ ok envelope
      → tenant_from_stored response id ≡ ok tenant
      → ((left ≡ db)
          × Replayed id
              (text "tenant.provision")
              key
              (hash_of change administrator)
              r.claim_now
              records
              kept
              response)
        ⊎ (provision_work redact evidence_hash policy request_hash retention_seconds iso issued
              context id administrator change envelope r db
            ≡ ok (response, left))
      → Effect input key records stored db after tenant
  effect input id administrator change scope event_input envelope key records kept stored db left
        after response tenant l k e f made scoped built read (inl (same_tables, replayed)) =
      inl (
        sym l ∙ same_tables,
        (response, change, rw (← e) read, rw (← e) made, rw (← k, ← e, ← f) replayed),
      )
  effect input id administrator change scope event_input envelope key records kept stored db left
        after response tenant l k e f made scoped built read (inr worked) =
      let stamped = (build-parts scope event_input r.now r.event_id built).0 in
      let trusted =
        (scope_issued redact evidence_hash policy request_hash retention_seconds iso issued context
          id r scoped).1 in
      let same_tenant : envelope.tenant_id ≡ id =
        stamped.tenant ∙ ap (λ (s : EventScope). s.tenant_id) trusted in
      let added =
        provision_work-Provisioned redact evidence_hash policy request_hash retention_seconds iso
          issued context id r administrator change envelope db left worked in
      inr (change, envelope, rw (← e) made, same_tenant ∙ e, rw (← e, ← f, ← l) added)

  -- A provisioning that returns a tenant was allowed to this operator by the platform authorizer, and
  -- it either replayed the finished answer that is stored under its key for the same request, and
  -- changed no table, or added, all together, the tenant
  -- in its first state, its administrator's role and membership, the default approval policies,
  -- one audit event in the operator's name and one event of the tenant, where no such tenant was.
  pub provision-Provisioned :
      (input : ProvisionTenantInput) (key : Option Text) (records stored : Records)
      (db after : Database) (tenant : TenantView)
      → provision redact evidence_hash policy request_hash retention_seconds iso issued context
          input key r records db
        ≡ ok (tenant, stored, after)
      → (assert_allowed issued context (text "platform:tenant:provision") ≡ ok tt)
        × Effect input key records stored db after tenant
  unfolding provision
  provision-Provisioned input key records stored db after tenant h =
      let (id, named, h1) = >>=-eq-ok (require_non_blank input.tenant_id) _ h in
      let (administrator, acting, h2) =
        >>=-eq-ok (require_non_blank input.initial_administrator_actor_id) _ h1 in
      let (change, made, h3) = >>=-eq-ok (provision_tenant id input.display_name r.now) _ h2 in
      let (scope, scoped, h4) =
        >>=-eq-ok (event_scope_for_platform_command issued context id) _ h3 in
      let (envelope, built, h5) =
        >>=-eq-ok (build_event_envelope_for scope _ r.now r.event_id) _ h4 in
      let (done, ran, h6) =
        >>=-eq-ok
          (execute_idempotently redact evidence_hash policy request_hash retention_seconds iso
            issued id _
            (authorize redact evidence_hash policy request_hash retention_seconds iso issued context
              (text "platform:tenant:provision"))
            (provision_work redact evidence_hash policy request_hash retention_seconds iso issued
              context id administrator change envelope r)
            r.claim_now records db)
          _ h5 in
      let (allowed, changed) =
        execute_idempotently-parts redact evidence_hash policy request_hash retention_seconds iso
          issued context r id _ (text "platform:tenant:provision") _ records done.1 db done.2 done.0
          ran in
      let (view, read, h7) = >>=-eq-ok (tenant_from_stored done.0.response id) _ h6 in
      let same_database : done.2 ≡ after = ground arith in
      let same_records : done.1 ≡ stored = ground arith in
      let same_view : tenant_from_stored done.0.response id ≡ ok tenant = ground arith in
      (
        allowed,
        effect input id administrator change scope _ envelope key records done.1 stored db done.2
            after done.0.response tenant same_database same_records
            (non_blank input.tenant_id named)
            (non_blank input.initial_administrator_actor_id acting) made scoped built same_view
            changed,
      )
