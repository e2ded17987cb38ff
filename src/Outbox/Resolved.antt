-- ===== src/Outbox/Resolved.antt =====
-- Who resolves a dead letter, and what it leaves in the audit log.
use mathlib.Core.Path.{subst}
use sintius.Audit.Policy.{Fields}
use sintius.Audit.Recorder.{
  AuditEvent, UnsealedAuditEvent, AuditRecordInput, record_for_platform_command, record_for_scope,
}
use sintius.Audit.Sealed.{Attributed, record_for_scope-Attributed}
use sintius.Context.Principal.{PlatformCommandContext}
use sintius.Event.{EventScope, event_scope_for_platform_command, platform_scope}
use sintius.Outbox.Operations.{
  DeadLetterOperationInput, entry_number, resolve_entry, bound_append, trimmed, resolution_input,
  record_resolution, resolution_of, resolve_in_transaction, operate,
}
use sintius.Outbox.Queue.{
  Table, OutboxEntry, DeadLetterAction, DeadLetterResolution, is_dead, is_dead_letter,
  resolve_dead_letter,
}
use sintius.Prelude.{
  ℕ, Bool, true, false, ◌==◌, Option, none, some, Text, length, List, [], ◌∷◌, ◌++◌, find?,
  find?-holds, ◌≡◌, sym, ap, ◌∙◌, arith, Option-cases, inl, inr,
}
use sintius.Problem.{
  Outcome, ok, problem, throw_if, >>=-eq-ok, dead_letter_reason_required, invalid_trusted_context,
}
use sintius.Time.{Instant, Date, to_iso}

dead_status :
    (number : ℕ) (entry : OutboxEntry)
    → is_dead_letter number entry ≡ true
    → is_dead entry.status ≡ true
unfolding is_dead_letter
dead_status number entry h = ground arith

resolve_dead_letter-dead :
    (number : ℕ) (resolution : DeadLetterResolution) (table : Table) {entry : OutboxEntry}
    → (resolve_dead_letter number resolution table).0 ≡ some entry
    → is_dead entry.status ≡ true
unfolding resolve_dead_letter
resolve_dead_letter-dead number resolution table {entry} h =
    let found : find? (is_dead_letter number) table ≡ some entry = ground arith in
    dead_status number entry (find?-holds (is_dead_letter number) table found)

resolve_entry-dead :
    (entry_id : Text) (resolution : DeadLetterResolution) (table : Table) {entry : OutboxEntry}
    → (resolve_entry entry_id resolution table).0 ≡ some entry
    → is_dead entry.status ≡ true
unfolding resolve_entry
resolve_entry-dead entry_id resolution table {entry} h =
    elim (Option-cases (entry_number entry_id)) [
      | inl e ↦ absurd (ground arith)
      | inr (number, e) ↦
          resolve_dead_letter-dead number resolution table {entry = entry} (ground arith)
    ]

module _ (redact : Text → Text) (evidence_hash : UnsealedAuditEvent → Text) (policy : Fields)
    (issued : Bool) (context : PlatformCommandContext) (input : DeadLetterOperationInput)
    (audit_clock : Date) (audit_id : Text) where
  -- The one audit event of a resolution.
  pub record Resolved (entry : OutboxEntry) (log logged : List AuditEvent) : Type 0 where
    pub event : AuditEvent
    pub dead : is_dead entry.status ≡ true
    pub attributed : Attributed (platform_scope context entry.envelope.tenant_id) event.unsealed
    pub logged_once : logged ≡ log ++ event ∷ []

  bound_append-logs :
      (tenant : Text) (event : AuditEvent) (log logged : List AuditEvent)
      → bound_append tenant event log ≡ ok logged
      → logged ≡ log ++ event ∷ []
  unfolding bound_append
  bound_append-logs tenant event log logged h = ground arith

  scope-same :
      (tenant : Text) (scope : EventScope)
      → event_scope_for_platform_command issued context tenant ≡ ok scope
      → scope ≡ platform_scope context tenant
  unfolding event_scope_for_platform_command
  scope-same tenant scope h = ground arith

  once :
      (tenant : Text) (scope : EventScope) (audit_input : AuditRecordInput)
      (log logged : List AuditEvent) {event : AuditEvent}
      → event_scope_for_platform_command issued context tenant ≡ ok scope
      → record_for_scope redact evidence_hash
          (bound_append tenant)
          policy
          scope
          audit_input
          audit_clock
          audit_id
          log
        ≡ ok (event, logged)
      → Attributed (platform_scope context tenant) event.unsealed × (logged ≡ log ++ event ∷ [])
  once tenant scope audit_input log logged {event} scoped ran =
      let (identity, dated, short, verified, appended) =
        record_for_scope-Attributed redact evidence_hash (bound_append tenant) policy scope
          audit_input audit_clock audit_id log ran in
      (
        rw (← scope-same tenant scope scoped) identity,
        bound_append-logs tenant event log logged appended,
      )

  recorded-once :
      (tenant : Text) (audit_input : AuditRecordInput) (log logged : List AuditEvent)
      {event : AuditEvent}
      → record_for_platform_command redact evidence_hash
          (bound_append tenant)
          policy
          issued
          context
          tenant
          audit_input
          audit_clock
          audit_id
          log
        ≡ ok (event, logged)
      → Attributed (platform_scope context tenant) event.unsealed × (logged ≡ log ++ event ∷ [])
  unfolding record_for_platform_command
  recorded-once tenant audit_input log logged {event} h =
      let (scope, scoped, ran) =
        >>=-eq-ok (event_scope_for_platform_command issued context tenant) _ h in
      once tenant scope audit_input log logged scoped ran

  pair :
      (r : Option OutboxEntry × Table) {entry : OutboxEntry} {after : Table}
      → r.0 ≡ some entry
      → after ≡ r.1
      → r ≡ (some entry, after)
  pair r e f = ground arith

  recorded-Resolved :
      (action : DeadLetterAction) (resolved : Option OutboxEntry) (table after : Table)
      (log logged : List AuditEvent) {entry : OutboxEntry}
      → record_resolution redact evidence_hash policy issued context input action audit_clock
          audit_id resolved table log
        ≡ ok (entry, after, logged)
      → (resolved ≡ some entry)
        × (after ≡ table)
        × ((event : AuditEvent) × Attributed
              (platform_scope context entry.envelope.tenant_id)
              event.unsealed
            × (logged ≡ log ++ event ∷ []))
  unfolding record_resolution
  recorded-Resolved action none table after log logged h = absurd (ground arith)
  recorded-Resolved action (some found) table after log logged {entry} h =
      let tenant = found.envelope.tenant_id in
      let (recorded, ran, h1) =
        >>=-eq-ok
          (record_for_platform_command redact evidence_hash (bound_append tenant) policy issued
            context tenant (resolution_input input action found) audit_clock audit_id log)
          _ h in
      let (identity, once) =
        recorded-once tenant (resolution_input input action found) log recorded.1 ran in
      let same_entry : found ≡ entry = ground arith in
      let same_log : recorded.1 ≡ logged = ground arith in
      (
        ap (λ (e : OutboxEntry). some e) same_entry,
        ground arith,
        (
          recorded.0,
          subst
              (λ (e : OutboxEntry).
                Attributed (platform_scope context e.envelope.tenant_id) recorded.0.unsealed)
              same_entry identity,
          sym same_log ∙ once,
        ),
      )

  finish :
      (action : DeadLetterAction) (instant : Instant) (table after : Table)
      (log logged : List AuditEvent) {entry : OutboxEntry}
      → resolve_in_transaction redact evidence_hash policy issued context input action instant
          audit_clock audit_id table log
        ≡ ok (entry, after, logged)
      → (resolve_entry input.entry_id
            (resolution_of redact evidence_hash policy context input action instant)
            table
          ≡ (some entry, after))
        × Resolved entry log logged
  unfolding resolve_in_transaction
  finish action instant table after log logged {entry} h =
      let resolution = resolution_of redact evidence_hash policy context input action instant in
      let resolved = resolve_entry input.entry_id resolution table in
      let (found, rest, (event, identity, once)) =
        recorded-Resolved action resolved.0 resolved.1 after log logged h in
      (
        pair resolved found rest,
        record {
          event = event;
          dead = resolve_entry-dead input.entry_id resolution table found;
          attributed = identity;
          logged_once = once;
        },
      )

  known_action :
      (given : Option DeadLetterAction) {action : DeadLetterAction}
      → elim given [ none ↦ problem invalid_trusted_context | some a ↦ ok a ] ≡ ok action
      → given ≡ some action
  known_action none h = absurd (ground arith)
  known_action (some a) h = ground arith

  -- A dead letter is resolved only after the application's own check of the action has passed, for a
  -- stated reason and one of the two actions, and only where the entry is dead. The queue is then
  -- the one that the resolution leaves, and exactly one audit event is appended, in the operator's
  -- name and for the tenant of the entry.
  pub operate-Resolved :
      (authorize : Option DeadLetterAction → Outcome (Unit {0})) (now : Instant)
      (table after : Table) (log logged : List AuditEvent) {entry : OutboxEntry}
      → operate redact evidence_hash policy authorize issued context input now audit_clock audit_id
          table log
        ≡ ok (entry, after, logged)
      → (authorize input.action ≡ ok tt)
        × ((length (trimmed input.reason) == 0) ≡ false)
        × ((action : DeadLetterAction) × (instant : Instant) × (input.action ≡ some action)
            × (to_iso now ≡ ok instant)
            × (resolve_entry input.entry_id
                  (resolution_of redact evidence_hash policy context input action instant)
                  table
                ≡ (some entry, after)))
        × Resolved entry log logged
  unfolding operate
  operate-Resolved authorize now table after log logged {entry} h =
      let (allowed, checked, h1) = >>=-eq-ok (authorize input.action) _ h in
      let (reasoned, given, h2) =
        >>=-eq-ok (throw_if (length (trimmed input.reason) == 0) dead_letter_reason_required) _
          h1 in
      let (action, known, h3) =
        >>=-eq-ok (elim input.action [ none ↦ problem invalid_trusted_context | some a ↦ ok a ]) _
          h2 in
      let (instant, timed, h4) = >>=-eq-ok (to_iso now) _ h3 in
      let (found, done) = finish action instant table after log logged h4 in
      (
        checked,
        ground arith,
        (action, instant, known_action input.action known, timed, found),
        done,
      )
