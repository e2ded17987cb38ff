-- ===== src/Tenant/Transitions.antt =====
-- The states of a tenant, `provisionTenant` and `transitionTenant`.
use sintius.Prelude.{ℕ, ◌+◌, ◌==◌, not, List, [], ◌∷◌, includes, length, Text, trim}
use sintius.Problem.{
  Outcome, ok, throw_if, ◌>>=◌, ◌>>◌, tenant_display_name_required, tenant_version_conflict,
  invalid_tenant_transition,
}
use sintius.Time.{Instant, Date, instant}

pub data TenantState : Type 0 where
  provisioning active suspended closed : TenantState

unfoldable pub TenantState-discrete : Discrete TenantState
TenantState-discrete = hlevel

-- The states that a command can ask for.
pub data TransitionTarget : Type 0 where
  to_active to_suspended to_closed : TransitionTarget

abbrev pub state_of : TransitionTarget → TenantState
state_of to_active = active
state_of to_suspended = suspended
state_of to_closed = closed

pub data TenantEventType : Type 0 where
  tenant_provisioned tenant_activated tenant_suspended tenant_closed : TenantEventType

pub record TenantSnapshot : Type 0 where
  pub id : Text
  pub display_name : Text
  pub state : TenantState
  pub version : ℕ
  pub created_at : Instant
  pub updated_at : Instant

pub record TenantDomainEvent : Type 0 where
  pub event_type : TenantEventType
  pub tenant_id : Text
  pub aggregate_version : ℕ
  pub occurred_at : Instant

pub record TenantChange : Type 0 where
  pub tenant : TenantSnapshot
  pub event : TenantDomainEvent

unfoldable pub transitions : TenantState → List TenantState
transitions provisioning = active ∷ []
transitions active = suspended ∷ closed ∷ []
transitions suspended = active ∷ closed ∷ []
transitions closed = []

unfoldable pub transition_events : TransitionTarget → TenantEventType
transition_events to_active = tenant_activated
transition_events to_suspended = tenant_suspended
transition_events to_closed = tenant_closed

unfoldable pub provision_tenant : Text → Text → Date → Outcome TenantChange
provision_tenant id display_name now = do
  let normalized_name = trim display_name
  throw_if (length normalized_name == 0) tenant_display_name_required
  occurred_at ← instant now
  ok (record {
    tenant = record {
      id = id;
      display_name = normalized_name;
      state = provisioning;
      version = 1;
      created_at = occurred_at;
      updated_at = occurred_at;
    };
    event = record {
      event_type = tenant_provisioned;
      tenant_id = id;
      aggregate_version = 1;
      occurred_at = occurred_at;
    };
  })

unfoldable pub transition_tenant :
    TenantSnapshot → TransitionTarget → ℕ → Date → Outcome TenantChange
unfolding transitions TenantState-discrete transition_events
transition_tenant current target expected_version now = do
  throw_if (not (current.version == expected_version)) tenant_version_conflict
  throw_if (not (includes TenantState-discrete (state_of target) (transitions current.state)))
      invalid_tenant_transition
  occurred_at ← instant now
  let next_version = current.version + 1
  ok (record {
    tenant = record current {
      state = state_of target;
      version = next_version;
      updated_at = occurred_at;
    };
    event = record {
      event_type = transition_events target;
      tenant_id = current.id;
      aggregate_version = next_version;
      occurred_at = occurred_at;
    };
  })
