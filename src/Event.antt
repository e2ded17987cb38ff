-- ===== src/Event.antt =====
-- Event envelopes (platform/event-envelope/src/index.ts): data, types and trusted scopes.
pub mod Uri
pub mod Build
pub mod Trusted
use sintius.Context.Principal.{PrincipalKind, TenantContext, PlatformCommandContext}
use sintius.Context.Resolver.{current_tenant_context}
use sintius.Idempotency.Payload.{Json, Number}
use sintius.Prelude.{Bool, not, Option, Text}
use sintius.Problem.{Outcome, ok, throw_if, ◌>>=◌, ◌>>◌, tenant_context_mismatch}
use sintius.Time.{Instant, Date}

pub data EventDataClassification : Type 0 where
  restricted_financial : EventDataClassification
  confidential_business : EventDataClassification
  internal_operational : EventDataClassification
  public : EventDataClassification

pub data EventActorType : Type 0 where
  user service system : EventActorType

pub record EventActor : Type 0 where
  pub actor_type : EventActorType
  pub id : Text
  pub delegated_by : Option Text

-- The fields `specversion` and `datacontenttype` have one value each, and `time` is `recorded_at`.
pub record EventEnvelope : Type 0 where
  pub id : Text
  pub source : Text
  pub event_type : Text
  pub time : Instant
  pub dataschema : Option Text
  pub subject : Option Text
  pub tenant_id : Text
  pub aggregate_type : Text
  pub aggregate_id : Text
  pub aggregate_version : Number
  pub correlation_id : Text
  pub causation_id : Option Text
  pub actor : EventActor
  pub occurred_at : Instant
  pub recorded_at : Instant
  pub data_classification : EventDataClassification
  pub data_ : Json

-- A classification outside the source's type is `none`.
pub record BuildEventInput : Type 0 where
  pub event_type : Text
  pub source_context : Text
  pub aggregate_type : Text
  pub aggregate_id : Text
  pub aggregate_version : Number
  pub occurred_at : Date
  pub classification : Option EventDataClassification
  pub data_ : Json
  pub dataschema : Option Text
  pub subject : Option Text

pub record EventScope : Type 0 where
  pub tenant_id : Text
  pub actor_id : Text
  pub principal_kind : PrincipalKind
  pub correlation_id : Text
  pub causation_id : Option Text

-- `eventScopeFromCurrentContext`
unfoldable pub event_scope_from_current_context : Option TenantContext → Outcome EventScope
event_scope_from_current_context current = do
  context ← current_tenant_context current
  ok (record {
    tenant_id = context.tenant_id;
    actor_id = context.actor_id;
    principal_kind = context.principal_kind;
    correlation_id = context.correlation_id;
    causation_id = context.causation_id;
  })

abbrev pub platform_scope : PlatformCommandContext → Text → EventScope
platform_scope context target = record {
  tenant_id = target;
  actor_id = context.actor_id;
  principal_kind = context.principal_kind;
  correlation_id = context.correlation_id;
  causation_id = context.causation_id;
}

-- `eventScopeForPlatformCommand`; `issued` is the answer of the weak set of platform contexts.
unfoldable pub event_scope_for_platform_command :
    Bool → PlatformCommandContext → Text → Outcome EventScope
event_scope_for_platform_command issued context target =
    throw_if (not issued) tenant_context_mismatch >> ok (platform_scope context target)
