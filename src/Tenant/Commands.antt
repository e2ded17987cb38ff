-- ===== src/Tenant/Commands.antt =====
-- The tenant commands (modules/identity-tenant/application/tenant-commands.ts) on the platform's idempotent
-- executor, the platform authorizer, the audit recorder, the event envelopes and the tables of one
-- transaction. Hashes, the redactor and ISO texts are parameters. Every clock and identifier that
-- a command reads is an argument, and a key's claim is made at a valid instant.
use sintius.Access.Authorizer.{assert_allowed}
use sintius.Audit.Policy.{Fields}
use sintius.Audit.Recorder.{UnsealedAuditEvent, AuditRecordInput, record_for_platform_command}
use sintius.Context.Principal.{PlatformCommandContext, require_non_blank}
use sintius.Event.Build.{build_event_envelope_for}
use sintius.Event.{EventEnvelope, event_scope_for_platform_command}
use sintius.Idempotency.Executor.{
  StoredResponse, IdempotentRequest, IdempotentResult, Records, execute,
}
use sintius.Idempotency.Payload.{Json, Members, integer, number, string, object, no_member, member}
use sintius.Prelude.Int.{pos}
use sintius.Prelude.{ℕ, Bool, ◌&&◌, not, Option, none, some, Text, text}
use sintius.Problem.{
  Outcome, ok, problem, ◌>>=◌, ◌>>◌, throw_if, tenant_reason_required, tenant_not_found,
  tenant_context_mismatch,
}
use sintius.Tenant.Store.{
  Database, insert_tenant, find_tenant, update_tenant, insert_role, insert_administrator,
  append_audit, append_outbox,
}
use sintius.Tenant.Stored.{TenantView, stored_tenant, tenant_from_stored, state_text}
use sintius.Tenant.Transitions.{
  TransitionTarget, TenantSnapshot, TenantChange, provision_tenant, transition_tenant,
}
use sintius.Time.{Instant}
use sintius.Tenant.Requests.{
  ProvisionTenantInput, TenantLifecycleInput, Readings, audit_action_for, event_input_for,
  default_approval_policies, insert_policies, given_reason, reason_required, is_missing,
  transition_payload, scope_of,
}

module _ (redact : Text → Text) (evidence_hash : UnsealedAuditEvent → Text) (policy : Fields)
    (request_hash : Text → Json → Text) (retention_seconds : ℕ) (iso : Instant → Text) where
  -- `authorize`; `issued` is the answer of the weak set of platform contexts.
  unfoldable pub authorize : Bool → PlatformCommandContext → Text → Outcome (Unit {0})
  authorize issued context permission =
      throw_if (not issued) tenant_context_mismatch >> assert_allowed issued context permission

  -- The platform's executor (platform/idempotency/src/executor.ts).
  unfoldable pub execute_idempotently :
      Bool
      → (target_tenant_id : Text) → IdempotentRequest
      → Outcome (Unit {0})
      → (Database → Outcome (StoredResponse × Database))
      → Instant
      → Records
      → Database
      → Outcome (IdempotentResult × Records × Database)
  execute_idempotently issued target request check work now records db =
      throw_if (not issued) tenant_context_mismatch
      >> execute Database request_hash retention_seconds target request check work now records db

  -- The audit event of a change, appended in the transaction that is bound to the tenant.
  unfoldable pub record_change :
      Bool
      → PlatformCommandContext
      → Text
      → AuditRecordInput
      → Readings
      → Database
      → Outcome Database
  record_change issued context id input r db = do
    recorded ←
        record_for_platform_command redact evidence_hash (append_audit id) policy issued context id
          input r.audit_clock r.audit_id db
    ok recorded.1

  unfoldable pub audit_input :
      TenantChange → Option Text → (before : Option Members) → (after : Members) → AuditRecordInput
  audit_input change reason before after = record {
    action = audit_action_for change;
    target = record { target_type = text "Tenant"; id = change.tenant.id };
    reason = reason;
    approval_id = none;
    before = before;
    after = some after;
    occurred_at = some (some change.event.occurred_at);
  }

  unfoldable pub state_and_version : TenantSnapshot → Members → Members
  state_and_version tenant more =
      member (text "state") (string (state_text tenant.state))
        (member (text "version") (number (integer (pos tenant.version))) more)

  -- The work of `provision`, in one transaction.
  unfoldable pub provision_work :
      Bool
      → PlatformCommandContext
      → (id administrator : Text) → TenantChange
      → EventEnvelope
      → Readings
      → Database
      → Outcome (StoredResponse × Database)
  provision_work issued context id administrator change envelope r db = do
    with_tenant ← insert_tenant id change.tenant db
    with_role ←
        insert_role id (record { tenant_id = id; role_code = text "tenant_administrator" })
          with_tenant
    with_administrator ←
        insert_administrator id
          (record {
            tenant_id = id;
            actor_id = administrator;
            role_code = text "tenant_administrator";
          })
          with_role
    with_policies ← insert_policies id (default_approval_policies id) with_administrator
    with_audit ←
        record_change issued context id
          (audit_input change none none (
            state_and_version change.tenant
              (member (text "display_name") (string change.tenant.display_name) no_member)))
          r with_policies
    with_event ← append_outbox id envelope with_audit
    ok (stored_tenant iso change.tenant 201, with_event)

  -- `provision`
  unfoldable pub provision :
      Bool
      → PlatformCommandContext
      → ProvisionTenantInput
      → (idempotency_key : Option Text) → Readings
      → Records
      → Database
      → Outcome (TenantView × Records × Database)
  provision issued context input idempotency_key r records db = do
    id ← require_non_blank input.tenant_id
    administrator ← require_non_blank input.initial_administrator_actor_id
    change ← provision_tenant id input.display_name r.now
    scope ← event_scope_for_platform_command issued context id
    envelope ←
        build_event_envelope_for scope
          (event_input_for change (
            member (text "display_name") (string change.tenant.display_name)
              (member (text "new_state") (string (state_text change.tenant.state)) no_member)))
          r.now r.event_id
    done ←
        execute_idempotently issued id
          (record {
            scope = text "tenant.provision";
            key = idempotency_key;
            payload = object (
                member (text "display_name") (string change.tenant.display_name) (
                  member (text "initial_administrator_actor_id") (string administrator) no_member));
          })
          (authorize issued context (text "platform:tenant:provision"))
          (provision_work issued context id administrator change envelope r) r.claim_now records db
    tenant ← tenant_from_stored done.0.response id
    ok (tenant, done.1, done.2)

  -- The work of `transition` from the tenant that was found.
  unfoldable pub moved_from :
      Bool
      → PlatformCommandContext
      → (id : Text) → TransitionTarget
      → (expected_version : ℕ) → (reason : Option Text) → Readings
      → Database
      → (found : Option TenantSnapshot) → Outcome (StoredResponse × Database)
  moved_from issued context id target expected_version reason r db none = problem tenant_not_found
  moved_from issued context id target expected_version reason r db (some current) = do
    change ← transition_tenant current target expected_version r.now
    with_tenant ← update_tenant id change.tenant current.version db
    with_audit ←
        record_change issued context id
          (audit_input change reason (some (state_and_version current no_member))
            (state_and_version change.tenant no_member))
          r with_tenant
    scope ← event_scope_for_platform_command issued context id
    envelope ←
        build_event_envelope_for scope
          (event_input_for change (
            member (text "previous_state") (string (state_text current.state))
              (member (text "new_state") (string (state_text change.tenant.state)) no_member)))
          r.now r.event_id
    with_event ← append_outbox id envelope with_audit
    ok (stored_tenant iso change.tenant 200, with_event)

  -- The work of `transition`, in one transaction.
  unfoldable pub transition_work :
      Bool
      → PlatformCommandContext
      → (id : Text) → TransitionTarget
      → (expected_version : ℕ) → (reason : Option Text) → Readings
      → Database
      → Outcome (StoredResponse × Database)
  transition_work issued context id target expected_version reason r db =
      find_tenant id id db >>= λ found.
      moved_from issued context id target expected_version reason r db found

  -- `transition`, which the four lifecycle commands call.
  unfoldable pub transition :
      Bool
      → PlatformCommandContext
      → TenantLifecycleInput
      → TransitionTarget
      → (reactivation : Bool) → (idempotency_key : Option Text) → Readings
      → Records
      → Database
      → Outcome (TenantView × Records × Database)
  transition issued context input target reactivation idempotency_key r records db = do
    let reason = given_reason input.reason
    throw_if (reason_required target && is_missing reason) tenant_reason_required
    id ← require_non_blank input.tenant_id
    done ←
        execute_idempotently issued id
          (record {
            scope = scope_of target reactivation;
            key = idempotency_key;
            payload = transition_payload input.expected_version reason;
          })
          (authorize issued context (text "platform:tenant:lifecycle"))
          (transition_work issued context id target input.expected_version reason r) r.claim_now
          records db
    tenant ← tenant_from_stored done.0.response id
    ok (tenant, done.1, done.2)
