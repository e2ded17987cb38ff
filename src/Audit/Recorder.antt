-- ===== src/Audit/Recorder.antt =====
-- The audit recorder (platform/audit/src/recorder.ts, platform/audit/src/model.ts). The redactor and the
-- evidence hash are parameters, and so is the writer's append, on a log of its own type. The clock's
-- date and the new event's identifier are arguments. Metrics and alerts change no data.
use sintius.Audit.Policy.{Fields, to_safe_snapshot}
use sintius.Context.Principal.{PrincipalKind, TenantContext, PlatformCommandContext}
use sintius.Event.{EventScope, event_scope_from_current_context, event_scope_for_platform_command}
use sintius.Idempotency.Payload.{Members}
use sintius.Prelude.Slices.{take}
use sintius.Prelude.{
  ℕ, Bool, true, false, ◌&&◌, ◌||◌, not, ltb, leb, ◌==◌, if◌then◌else◌, Option, none, some, Text,
  text_eq, trim, is_blank, length, [], ◌∷◌,
}
use sintius.Problem.{
  Outcome, ok, problem, ◌>>=◌, ◌>>◌, throw_if, audit_event_invalid, invalid_timestamp,
}
use sintius.Time.{Instant, Date, to_iso}

abbrev between : ℕ → ℕ → ℕ → Bool
between a b c = leb a c && leb c b

-- `ACTION_PATTERN`, from the start of a segment or from within one; `dotted` after a dot.
unfoldable pub action_from : (start dotted : Bool) → Text → Bool
action_from start dotted [] = not start && dotted
action_from true dotted (c ∷ s) = between 97 122 c && action_from false dotted s
action_from false dotted (c ∷ s) =
    let next_segment = action_from true true s in
    let same_segment = action_from false dotted s in
    if c == 46
    then next_segment
    else (between 97 122 c || between 48 57 c || c == 95) && same_segment

unfoldable pub is_action : Text → Bool
unfolding action_from
is_action action = action_from true false action

abbrev pub max_reason_length : ℕ
max_reason_length = 500

pub record AuditTarget : Type 0 where
  pub target_type : Text
  pub id : Text

pub record AuditActor : Type 0 where
  pub id : Text
  pub kind : PrincipalKind

pub record UnsealedAuditEvent : Type 0 where
  pub audit_event_id : Text
  pub tenant_id : Text
  pub occurred_at : Instant
  pub recorded_at : Instant
  pub actor : AuditActor
  pub action : Text
  pub target : AuditTarget
  pub reason : Option Text
  pub correlation_id : Text
  pub causation_id : Option Text
  pub approval_id : Option Text
  pub before : Option Members
  pub after : Option Members

pub record AuditEvent : Type 0 where
  pub unsealed : UnsealedAuditEvent
  pub evidence_hash : Text

pub record AuditRecordInput : Type 0 where
  pub action : Text
  pub target : AuditTarget
  pub reason : Option Text
  pub approval_id : Option Text
  pub before : Option Members
  pub after : Option Members
  pub occurred_at : Option Date

-- The dates of the event and of the record: `occurredAt ?? recorded`.
unfoldable pub audit_dates : Option Date → Date → Outcome (Instant × Instant)
audit_dates none none = problem invalid_timestamp
audit_dates none (some recorded) = ok (recorded, recorded)
audit_dates (some (some occurred)) (some recorded) =
    throw_if (ltb recorded occurred) invalid_timestamp >> ok (occurred, recorded)
audit_dates (some occurred) recorded = problem invalid_timestamp

module _ (redact_sensitive_text : Text → Text)
    (compute_evidence_hash : UnsealedAuditEvent → Text) where
  -- The reason that is kept: trimmed, redacted and cut.
  unfoldable pub kept_reason : Option Text → Option Text
  kept_reason none = none
  kept_reason (some given) =
      let reason = trim given in
      if length reason == 0
      then none
      else some (take max_reason_length (redact_sensitive_text reason))

  -- `verifyAuditEvent`
  unfoldable pub verify_audit_event : AuditEvent → Bool
  verify_audit_event event = text_eq (compute_evidence_hash event.unsealed) event.evidence_hash

  -- The event that `recordForScope` makes of its input.
  unfoldable pub sealed_event :
      Fields → EventScope → AuditRecordInput → (clock : Date) → (new_id : Text) → Outcome AuditEvent
  unfolding kept_reason
  sealed_event policy scope input clock new_id = do
    throw_if (not (is_action input.action)) audit_event_invalid
    throw_if (is_blank input.target.target_type || is_blank input.target.id) audit_event_invalid
    dates ← audit_dates input.occurred_at clock
    before ← to_safe_snapshot redact_sensitive_text policy input.target.target_type input.before
    after ← to_safe_snapshot redact_sensitive_text policy input.target.target_type input.after
    occurred_at ← to_iso dates.0
    recorded_at ← to_iso dates.1
    let unsealed : UnsealedAuditEvent = record {
      audit_event_id = new_id;
      tenant_id = scope.tenant_id;
      occurred_at = occurred_at;
      recorded_at = recorded_at;
      actor = record { id = scope.actor_id; kind = scope.principal_kind };
      action = input.action;
      target = input.target;
      reason = kept_reason input.reason;
      correlation_id = scope.correlation_id;
      causation_id = scope.causation_id;
      approval_id = input.approval_id;
      before = before;
      after = after;
    }
    ok (record { unsealed = unsealed; evidence_hash = compute_evidence_hash unsealed })

  module _ {Log : Type 0} (append : AuditEvent → Log → Outcome Log) where
    -- `recordForScope`: an append that throws is thrown again.
    unfoldable pub record_for_scope :
        Fields
        → EventScope
        → AuditRecordInput
        → (clock : Date) → (new_id : Text) → Log
        → Outcome (AuditEvent × Log)
    record_for_scope policy scope input clock new_id log = do
      event ← sealed_event policy scope input clock new_id
      after ← append event log
      ok (event, after)

    -- `recordForCurrentContext`
    unfoldable pub record_for_current_context :
        Fields
        → Option TenantContext
        → AuditRecordInput
        → (clock : Date) → (new_id : Text) → Log
        → Outcome (AuditEvent × Log)
    record_for_current_context policy current input clock new_id log =
        event_scope_from_current_context current >>= λ scope.
        record_for_scope policy scope input clock new_id log

    -- `recordForPlatformCommand`
    unfoldable pub record_for_platform_command :
        Fields
        → Bool
        → PlatformCommandContext
        → (target_tenant_id : Text) → AuditRecordInput
        → (clock : Date) → (new_id : Text) → Log
        → Outcome (AuditEvent × Log)
    record_for_platform_command policy issued context target_tenant_id input clock new_id log =
        event_scope_for_platform_command issued context target_tenant_id >>= λ scope.
        record_for_scope policy scope input clock new_id log
