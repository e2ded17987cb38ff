-- ===== src/Audit/Sealed.antt =====
-- What a recorded audit event satisfies.
use sintius.Audit.Policy.{Fields}
use sintius.Event.{EventScope}
use sintius.Prelude.Slices.{take}
use sintius.Prelude.{
  ℕ, true, Option, none, some, Text, trim, length, [], ◌∷◌, ◌≡◌, ◌≤◌, arith, Text-discrete,
  same_iff,
}
use sintius.Problem.{Outcome, ok}
use sintius.Time.{Instant, Date}
use sintius.Audit.Recorder.{
  AuditEvent, UnsealedAuditEvent, AuditRecordInput, max_reason_length, kept_reason, audit_dates,
  verify_audit_event, sealed_event, record_for_scope, is_action,
}

length-take-le : (n : ℕ) (s : Text) → length (take n s) ≤ n
length-take-le ℕ.zero s = omega arith
length-take-le (ℕ.suc n) [] = omega arith
length-take-le (ℕ.suc n) (c ∷ s) = omega (arith, length-take-le n s)

audit_dates-le :
    (occurred : Option Date) (recorded : Date) {dates : Instant × Instant}
    → audit_dates occurred recorded ≡ ok dates
    → dates.0 ≤ dates.1
unfolding audit_dates
audit_dates-le none none h = ground arith
audit_dates-le none (some r) h = ground arith
audit_dates-le (some none) r h = ground arith
audit_dates-le (some (some o)) none h = ground arith
audit_dates-le (some (some o)) (some r) h = ground arith

-- The identity of a recorded event, and its dates.
pub record Attributed (scope : EventScope) (e : UnsealedAuditEvent) : Type 0 where
  pub tenant : e.tenant_id ≡ scope.tenant_id
  pub acting : e.actor.id ≡ scope.actor_id
  pub kind : e.actor.kind ≡ scope.principal_kind
  pub correlation : e.correlation_id ≡ scope.correlation_id
  pub causation : e.causation_id ≡ scope.causation_id

abbrev pub reason_length : Option Text → ℕ
reason_length none = 0
reason_length (some reason) = length reason

module _ (redact : Text → Text) (hash : UnsealedAuditEvent → Text) where
  kept_reason-le :
      (given : Option Text) → reason_length (kept_reason redact hash given) ≤ max_reason_length
  unfolding kept_reason
  kept_reason-le none = omega arith
  kept_reason-le (some given) =
      ground (arith, length-take-le max_reason_length (redact (trim given)))

  sealed_event-parts :
      (policy : Fields) (scope : EventScope) (input : AuditRecordInput) (clock : Date)
      (new_id : Text) {event : AuditEvent}
      → sealed_event redact hash policy scope input clock new_id ≡ ok event
      → Attributed scope event.unsealed
        × (audit_dates input.occurred_at clock
            ≡ ok (event.unsealed.occurred_at, event.unsealed.recorded_at))
        × (hash event.unsealed ≡ event.evidence_hash)
        × (is_action event.unsealed.action ≡ true)
        × (event.unsealed.reason ≡ kept_reason redact hash input.reason)
  unfolding sealed_event
  sealed_event-parts policy scope input clock new_id h = ground arith

  module _ {Log : Type 0} (append : AuditEvent → Log → Outcome Log) where
    -- An event is returned only when it has been appended, and then it carries the identity of its
    -- trusted scope, is not dated after its record, has a reason of at most 500 code units if
    -- any, and has a seal that verifies. So a writer that throws stops the command.
    pub record_for_scope-Attributed :
        (policy : Fields) (scope : EventScope) (input : AuditRecordInput) (clock : Date)
        (new_id : Text) (log : Log) {event : AuditEvent} {after : Log}
        → record_for_scope redact hash append policy scope input clock new_id log
          ≡ ok (event, after)
        → Attributed scope event.unsealed
          × (event.unsealed.occurred_at ≤ event.unsealed.recorded_at)
          × (reason_length event.unsealed.reason ≤ max_reason_length)
          × (verify_audit_event redact hash event ≡ true)
          × (append event log ≡ ok after)
    unfolding record_for_scope verify_audit_event
    record_for_scope-Attributed policy scope input clock new_id log {event} {after} h =
        let made : sealed_event redact hash policy scope input clock new_id ≡ ok event =
          ground arith in
        let kept : append event log ≡ ok after = ground arith in
        let (identity, dates, seal, action, why) =
          sealed_event-parts policy scope input clock new_id made in
        (
          identity,
          audit_dates-le input.occurred_at clock dates,
          rw why (kept_reason-le input.reason),
          (same_iff Text-discrete (hash event.unsealed) event.evidence_hash).1 seal,
          kept,
        )
