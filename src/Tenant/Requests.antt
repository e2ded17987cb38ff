-- ===== src/Tenant/Requests.antt =====
-- What a tenant command is asked, and the texts, payloads and defaults it works with
-- (modules/identity-tenant/application/tenant-commands.ts and modules/identity-tenant/domain/approval-defaults.ts).
use sintius.Approval.Types.{ApprovalPolicy}
use sintius.Event.{BuildEventInput, confidential_business}
use sintius.Idempotency.Payload.{Json, Members, integer, number, string, object, no_member, member}
use sintius.Prelude.Int.{pos}
use sintius.Prelude.{
  ℕ, Bool, true, false, ◌&&◌, leb, ◌==◌, if◌then◌else◌, Option, none, some, Text, text, trim,
  length, List, [], ◌∷◌, all,
}
use sintius.Problem.{Outcome, ok, ◌>>=◌}
use sintius.Tenant.Store.{Database, insert_policy}
use sintius.Tenant.Transitions.{
  TransitionTarget, to_active, to_suspended, to_closed, TenantEventType, tenant_provisioned,
  tenant_activated, tenant_suspended, tenant_closed, TenantChange,
}
use sintius.Time.{Instant, Date}

pub record ProvisionTenantInput : Type 0 where
  pub tenant_id : Text
  pub display_name : Text
  pub initial_administrator_actor_id : Text

pub record TenantLifecycleInput : Type 0 where
  pub tenant_id : Text
  pub expected_version : ℕ
  pub reason : Option Text

-- The clocks and the fresh identifiers that one command reads.
pub record Readings : Type 0 where
  pub now : Date
  pub claim_now : Instant
  pub audit_clock : Date
  pub audit_id : Text
  pub event_id : Text

unfoldable pub event_type_text : TenantEventType → Text
event_type_text tenant_provisioned = text "tenant.provisioned.v1"
event_type_text tenant_activated = text "tenant.activated.v1"
event_type_text tenant_suspended = text "tenant.suspended.v1"
event_type_text tenant_closed = text "tenant.closed.v1"

-- `\.v[0-9]+$`
unfoldable pub is_version_suffix : Text → Bool
is_version_suffix (p ∷ v ∷ d ∷ digits) =
    p == 46 && v == 118 && all (λ c. leb 48 c && leb c 57) (d ∷ digits)
is_version_suffix s = false

-- `.replace(/\.v[0-9]+$/, "")`
unfoldable pub without_version : Text → Text
unfolding is_version_suffix
without_version [] = []
without_version (c ∷ s) =
    let rest = c ∷ without_version s in if is_version_suffix (c ∷ s) then [] else rest

-- `auditActionFor`
unfoldable pub audit_action_for : TenantChange → Text
unfolding without_version event_type_text
audit_action_for change = without_version (event_type_text change.event.event_type)

-- `eventInputFor`
unfoldable pub event_input_for : TenantChange → Members → BuildEventInput
unfolding event_type_text
event_input_for change members = record {
  event_type = event_type_text change.event.event_type;
  source_context = text "identity-tenant";
  aggregate_type = text "Tenant";
  aggregate_id = change.tenant.id;
  aggregate_version = integer (pos change.event.aggregate_version);
  occurred_at = some change.event.occurred_at;
  classification = some confidential_business;
  data_ = object members;
  dataschema = none;
  subject = none;
}

-- `DEFAULT_APPROVAL_POLICIES` (modules/identity-tenant/domain/approval-defaults.ts), for a tenant.
unfoldable pub default_approval_policies : Text → List ApprovalPolicy
default_approval_policies tenant_id =
    record {
      tenant_id = tenant_id;
      action_type = text "pricing:rate_card:activate";
      required_approvals = 2;
      separation_of_duties = true;
      expires_after_seconds = 604800;
      approver_requirements =
          record { permission = text "pricing:rate_card:activate"; count = 1 }
          ∷ record { permission = text "billing:invoice:finalize"; count = 1 }
          ∷ [];
    }
    ∷ []

-- The loop that inserts the default policies.
unfoldable pub insert_policies : Text → List ApprovalPolicy → Database → Outcome Database
insert_policies bound [] db = ok db
insert_policies bound (policy ∷ policies) db = do
  after ← insert_policy bound policy db
  insert_policies bound policies after

-- `reason?.trim()` where it is not empty.
unfoldable pub given_reason : Option Text → Option Text
given_reason none = none
given_reason (some reason) = if length (trim reason) == 0 then none else some (trim reason)

-- `REASON_REQUIRED.has(target)`
abbrev pub reason_required : TransitionTarget → Bool
reason_required to_active = false
reason_required to_suspended = true
reason_required to_closed = true

abbrev pub is_missing : Option Text → Bool
is_missing none = true
is_missing (some reason) = false

-- The idempotent request of a transition: its reason only where one is given.
unfoldable pub transition_payload : ℕ → Option Text → Json
transition_payload expected_version none =
    object (member (text "expected_version") (number (integer (pos expected_version))) no_member)
transition_payload expected_version (some reason) = object (
    member (text "expected_version") (number (integer (pos expected_version)))
      (member (text "reason") (string reason) no_member))

unfoldable pub scope_of : TransitionTarget → (reactivation : Bool) → Text
scope_of to_active false = text "tenant.activate"
scope_of to_active true = text "tenant.reactivate"
scope_of to_suspended reactivation = text "tenant.suspend"
scope_of to_closed reactivation = text "tenant.close"
