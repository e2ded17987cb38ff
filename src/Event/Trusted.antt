-- ===== src/Event/Trusted.antt =====
-- What every built envelope satisfies.
use sintius.Context.Principal.{TenantContext}
use sintius.Context.Resolver.{current_tenant_context}
use sintius.Event.Build.{
  build_event_envelope, build_event_envelope_for, check_input, check_dates, actor_type,
  is_event_type, is_source_context, is_aggregate_version, json_compatible,
}
use sintius.Event.{EventEnvelope, BuildEventInput, EventScope, event_scope_from_current_context}
use sintius.Idempotency.Payload.{
  KeyIn, is_tenant_key, contains_tenant_identity, contains_tenant_identity_sound,
}
use sintius.Prelude.Tests.{clash}
use sintius.Prelude.{
  true, false, Option, none, some, Text, is_blank, ◌≡◌, ◌≤◌, ◌⊎◌, inl, inr, Bool-cases, arith, refl,
  sym, ◌∙◌,
}
use sintius.Problem.{ok}
use sintius.Time.{Instant, Date}

-- The trusted identity of an envelope.
pub record Stamped (scope : EventScope) (e : EventEnvelope) : Type 0 where
  pub tenant : e.tenant_id ≡ scope.tenant_id
  pub correlation : e.correlation_id ≡ scope.correlation_id
  pub causation : e.causation_id ≡ scope.causation_id
  pub acting : e.actor.id ≡ scope.actor_id
  pub kind : e.actor.actor_type ≡ actor_type scope.principal_kind

pub build-parts :
    (scope : EventScope) (input : BuildEventInput) (clock : Date) (new_id : Text)
    {e : EventEnvelope}
    → build_event_envelope_for scope input clock new_id ≡ ok e
    → Stamped scope e
      × (contains_tenant_identity input.data_ ≡ false)
      × (e.data_ ≡ input.data_)
      × (check_dates input.occurred_at clock ≡ ok (e.occurred_at, e.recorded_at))
unfolding build_event_envelope_for
build-parts scope input clock new_id h = ground arith

check_dates-le :
    (occurred recorded : Date) {dates : Instant × Instant}
    → check_dates occurred recorded ≡ ok dates
    → dates.0 ≤ dates.1
unfolding check_dates
check_dates-le none recorded h = ground arith
check_dates-le (some o) none h = ground arith
check_dates-le (some o) (some r) h = ground arith

check_input-parts :
    (scope : EventScope) (input : BuildEventInput) (clock : Date) (new_id : Text)
    {e : EventEnvelope}
    → build_event_envelope_for scope input clock new_id ≡ ok e
    → (is_event_type input.event_type ≡ true)
      × (is_source_context input.source_context ≡ true)
      × (is_aggregate_version e.aggregate_version ≡ true)
      × (json_compatible 0 e.data_ ≡ true)
      × (is_blank e.id ≡ false)
unfolding build_event_envelope_for check_input
check_input-parts scope input clock new_id h = ground arith

-- An envelope that is built carries the identity of its trusted scope alone: its tenant, correlation,
-- cause and actor are the scope's, and no key of any object in its data, at any depth, reads as a
-- tenant's identity.
pub build_event_envelope_for-Stamped :
    (scope : EventScope) (input : BuildEventInput) (clock : Date) (new_id key : Text)
    {e : EventEnvelope}
    → build_event_envelope_for scope input clock new_id ≡ ok e
    → Stamped scope e × ((is_tenant_key key ≡ false) ⊎ ¬ KeyIn key e.data_)
build_event_envelope_for-Stamped scope input clock new_id key {e} h =
    let (stamped, clean, same_data, dates) = build-parts scope input clock new_id h in
    let scanned : contains_tenant_identity e.data_ ≡ false = rw same_data clean in
    (
      stamped,
      elim (Bool-cases (is_tenant_key key)) [
        | inr other ↦ inl other
        | inl tenant ↦
            inr λ inside.
              clash (sym tenant ∙ contains_tenant_identity_sound key e.data_ scanned inside)
      ],
    )

-- An envelope that is built is well formed: the event did not occur after it was recorded, its type
-- and source match their patterns, its version is at least 1, its data is JSON of a bounded
-- depth, and its identifier is not blank.
pub build_event_envelope_for-ordered :
    (scope : EventScope) (input : BuildEventInput) (clock : Date) (new_id : Text)
    {e : EventEnvelope}
    → build_event_envelope_for scope input clock new_id ≡ ok e
    → (e.occurred_at ≤ e.recorded_at)
      × (is_event_type input.event_type ≡ true)
      × (is_source_context input.source_context ≡ true)
      × (is_aggregate_version e.aggregate_version ≡ true)
      × (json_compatible 0 e.data_ ≡ true)
      × (is_blank e.id ≡ false)
build_event_envelope_for-ordered scope input clock new_id h =
    let (stamped, clean, same_data, dates) = build-parts scope input clock new_id h in
    let (typed, sourced, versioned, compatible, named) =
      check_input-parts scope input clock new_id h in
    (check_dates-le input.occurred_at clock dates, typed, sourced, versioned, compatible, named)

-- Without an active tenant context no event is built, and with one the event is that tenant's.
pub build_event_envelope-tenant :
    (current : Option TenantContext) (input : BuildEventInput) (clock : Date) (new_id : Text)
    {e : EventEnvelope}
    → build_event_envelope current input clock new_id ≡ ok e
    → (context : TenantContext) × (current ≡ some context)
      × (e.tenant_id ≡ context.tenant_id)
      × (e.actor.id ≡ context.actor_id)
unfolding build_event_envelope event_scope_from_current_context current_tenant_context
build_event_envelope-tenant none input clock new_id h = ground arith
build_event_envelope-tenant (some context) input clock new_id {e} h =
    let scope : EventScope = record {
      tenant_id = context.tenant_id;
      actor_id = context.actor_id;
      principal_kind = context.principal_kind;
      correlation_id = context.correlation_id;
      causation_id = context.causation_id;
    } in
    let (stamped, clean, same_data, dates) = build-parts scope input clock new_id h in
    (context, refl, stamped.tenant, stamped.acting)
