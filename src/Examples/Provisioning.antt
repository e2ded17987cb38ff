-- ===== src/Examples/Provisioning.antt =====
-- Provisioning a tenant and moving it on, by an operator of the platform.
use sintius.Access.Authorizer.{assert_allowed, platform_audience, is_platform_permission}
use sintius.Audit.Policy.{Fields, to_safe_snapshot}
use sintius.Audit.Recorder.{
  UnsealedAuditEvent, record_for_platform_command, record_for_scope, sealed_event, is_action,
  audit_dates,
}
use sintius.Context.Principal.{interactive, mfa, PlatformCommandContext}
use sintius.Event.Build.{
  build_event_envelope_for, check_input, is_event_type, is_source_context, json_compatible,
  check_dates,
}
use sintius.Event.Uri.{encode_uri_component}
use sintius.Event.{event_scope_for_platform_command}
use sintius.Idempotency.Executor.{
  Records, execute, in_transaction, carry_out, claim, complete, claim_input, processing_record,
  write, check_response, is_http_status, checked_key,
}
use sintius.Idempotency.Keys.{is_scope, is_key, matches, to_lower_case}
use sintius.Idempotency.Payload.{
  Json, contains_tenant_identity, visit, normalize_key, lower, within, own,
}
use sintius.Prelude.Int.{pos}
use sintius.Prelude.{
  true, false, ◌≡◌, refl, Option, none, some, Text, text, Text-discrete, ℕ_discrete, trim, [], ◌∷◌,
}
use sintius.Problem.{Outcome, ok}
use sintius.Tenant.Commands.{
  provision, provision_work, execute_idempotently, authorize, transition, record_change,
  audit_input, state_and_version,
}
use sintius.Tenant.Requests.{
  ProvisionTenantInput, TenantLifecycleInput, Readings, event_input_for, event_type_text,
  insert_policies, default_approval_policies, audit_action_for,
}
use sintius.Tenant.Moved.{Moved}
use sintius.Tenant.Provisioned.{Effect, provision-Provisioned}
use sintius.Tenant.Store.{
  Database, insert_tenant, insert_role, insert_administrator, insert_policy, append_audit,
  append_outbox,
}
use sintius.Tenant.Stored.{
  TenantView, stored_tenant, tenant_from_stored, state_text, state_of_text, view,
}
use sintius.Tenant.Transitions.{TenantSnapshot, provisioning, to_active, provision_tenant}
use sintius.Time.{Instant}

abbrev redact : Text → Text
redact s = s

abbrev hash : UnsealedAuditEvent → Text
hash event = event.action

abbrev request_hash : Text → Json → Text
request_hash scope payload = scope

abbrev iso : Instant → Text
iso t = text "now"

abbrev policy : Fields
policy = (text "Tenant", text "state" ∷ []) ∷ []

abbrev operator : PlatformCommandContext
operator = record {
  actor_id = text "olga";
  principal_kind = interactive;
  correlation_id = text "c-1";
  causation_id = none;
  assurance = mfa;
  credential_id = text "k-1";
  audiences = platform_audience ∷ [];
  scopes = text "platform:tenant:provision" ∷ text "platform:tenant:lifecycle" ∷ [];
}

abbrev input : ProvisionTenantInput
input = record {
  tenant_id = text "acme";
  display_name = text "Acme";
  initial_administrator_actor_id = text "ada";
}

abbrev key : Option Text
key = some (text "01890c5d-ec96-7102-ba04-05060708090a")

abbrev readings : Readings
readings = record {
  now = some 5;
  claim_now = 5;
  audit_clock = some 6;
  audit_id = text "a-1";
  event_id = text "e-1";
}

abbrev no_records : Records
no_records tenant scope k = none

abbrev empty : Database
empty = record {
  tenants = [];
  roles = [];
  memberships = [];
  approval_policies = [];
  audit = [];
  outbox = [];
}

abbrev provisioned : Outcome (TenantView × Records × Database)
provisioned =
    provision redact hash policy request_hash 60 iso true operator input key readings no_records
      empty

-- What a call returned, for one that did.
abbrev got : {A : Type 0} → A → Outcome A → A
got default (ok a) = a
got default other = default

abbrev view_of : TenantSnapshot → TenantView
view_of tenant = view iso tenant

abbrev blank : TenantView
blank = record {
  id = [];
  display_name = [];
  state = provisioning;
  version = pos 0;
  created_at = [];
  updated_at = [];
}

abbrev done : TenantView × Records × Database
done = got (blank, no_records, empty) provisioned

was_provisioned : provisioned ≡ ok (done.0, done.1, done.2)
unfolding provision provision_tenant provision_work insert_tenant insert_role insert_administrator
    insert_policies insert_policy default_approval_policies execute_idempotently execute
    in_transaction carry_out check_response checked_key claim claim_input complete is_http_status
    processing_record write is_key is_scope matches to_lower_case own within
    contains_tenant_identity visit normalize_key lower authorize assert_allowed
    is_platform_permission event_scope_for_platform_command build_event_envelope_for check_input
    is_event_type is_source_context json_compatible check_dates encode_uri_component event_input_for
    event_type_text record_change audit_input audit_action_for state_and_version
    record_for_platform_command record_for_scope sealed_event is_action audit_dates to_safe_snapshot
    append_audit append_outbox state_of_text state_text stored_tenant tenant_from_stored trim
    Text-discrete ℕ_discrete
was_provisioned = refl

provision-Provisioned_example :
    (assert_allowed true operator (text "platform:tenant:provision") ≡ ok tt)
    × Effect redact hash policy request_hash 60 iso true operator readings input key no_records
        done.1 empty done.2 done.0
provision-Provisioned_example =
    provision-Provisioned redact hash policy request_hash 60 iso true operator readings input key
      no_records done.1 empty done.2 done.0 was_provisioned

abbrev tenant : TenantSnapshot
tenant = record {
  id = text "acme";
  display_name = text "Acme";
  state = provisioning;
  version = 1;
  created_at = 1;
  updated_at = 1;
}

abbrev one_tenant : Database
one_tenant = record empty { tenants = tenant ∷ [] }

abbrev activation : TenantLifecycleInput
activation = record { tenant_id = text "acme"; expected_version = 1; reason = none }

abbrev activated : Outcome (TenantView × Records × Database)
activated =
    transition redact hash policy request_hash 60 iso true operator activation to_active false key
      readings no_records one_tenant

abbrev moved : TenantView × Records × Database
moved = got (blank, no_records, empty) activated
