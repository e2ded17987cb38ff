-- ===== src/Outbox/Operations.antt =====
-- The operator's resolution of a dead letter (platform/outbox/src/operations.ts), with the transaction of
-- `PostgresDeadLetterPersistence` (platform/outbox/infrastructure/postgres/store.ts): the entry is resolved first, and
-- the audit writer is then bound to that entry's tenant.
use sintius.Audit.Policy.{Fields}
use sintius.Audit.Recorder.{
  AuditEvent, UnsealedAuditEvent, AuditRecordInput, record_for_platform_command,
}
use sintius.Context.Principal.{PlatformCommandContext}
use sintius.Idempotency.Payload.{string, no_member, member}
use sintius.Money.Decimal.Text.{number_from}
use sintius.Outbox.Queue.{
  Table, OutboxEntry, DeadLetterAction, requeue, skip, DeadLetterResolution, resolve_dead_letter,
}
use sintius.Prelude.{
  ℕ, Bool, ◌&&◌, not, leb, ◌==◌, if◌then◌else◌, Option, none, some, Text, text, text_eq, trim,
  length, List, [], ◌∷◌, ◌++◌, all,
}
use sintius.Problem.{
  Outcome, ok, problem, ◌>>=◌, ◌>>◌, throw_if, dead_letter_reason_required,
  dead_letter_not_resolvable, invalid_trusted_context, tenant_context_mismatch,
}
use sintius.Time.{Instant, Date, to_iso}

-- An action outside the source's type is `none`.
pub record DeadLetterOperationInput : Type 0 where
  pub entry_id : Text
  pub action : Option DeadLetterAction
  pub reason : Option Text

-- `ENTRY_ID_PATTERN`, and the number that such a text names.
unfoldable pub entry_number : Text → Option ℕ
unfolding number_from
entry_number [] = none
entry_number (c ∷ s) =
    if leb 49 c && leb c 57 && leb (length s) 18 && all (λ d. leb 48 d && leb d 57) s
    then some (number_from 0 (c ∷ s))
    else none

-- `resolveDeadLetterWith`: the entry that was resolved, and the queue after it.
unfoldable pub resolve_entry : Text → DeadLetterResolution → Table → Option OutboxEntry × Table
unfolding entry_number
resolve_entry entry_id resolution table = elim (entry_number entry_id) [
  | none ↦ (none, table)
  | some number ↦ resolve_dead_letter number resolution table
]

-- `boundAuditWriter`, bound to the tenant of the resolved entry.
unfoldable pub bound_append : Text → AuditEvent → List AuditEvent → Outcome (List AuditEvent)
bound_append bound event log =
    throw_if (not (text_eq bound event.unsealed.tenant_id)) tenant_context_mismatch
    >> ok (log ++ event ∷ [])

abbrev pub action_text : DeadLetterAction → Text
action_text skip = text "skip"
action_text requeue = text "requeue"

abbrev pub audit_action : DeadLetterAction → Text
audit_action skip = text "outbox.dead_letter_skipped"
audit_action requeue = text "outbox.dead_letter_requeued"

-- `input.reason?.trim() ?? ""`
abbrev pub trimmed : Option Text → Text
trimmed none = []
trimmed (some reason) = trim reason

-- The evidence of a resolution.
unfoldable pub resolution_input :
    DeadLetterOperationInput → DeadLetterAction → OutboxEntry → AuditRecordInput
resolution_input input action entry = record {
  action = audit_action action;
  target = record { target_type = text "OutboxEntry"; id = input.entry_id };
  reason = some (trimmed input.reason);
  approval_id = none;
  before = some (member (text "previous_status") (string (text "dead")) no_member);
  after = some (
      member (text "event_id") (string entry.envelope.id) (
        member (text "event_type") (string entry.envelope.event_type) (
          member (text "aggregate_type") (string entry.envelope.aggregate_type) (
            member (text "aggregate_id") (string entry.envelope.aggregate_id)
              (member (text "resolution") (string (action_text action)) no_member)))));
  occurred_at = none;
}

module _ (redact : Text → Text) (evidence_hash : UnsealedAuditEvent → Text) (policy : Fields) where
  -- The audit event of the entry that was resolved, if one was; `table` is the queue after it.
  unfoldable pub record_resolution :
      Bool
      → PlatformCommandContext
      → DeadLetterOperationInput
      → DeadLetterAction
      → (audit_clock : Date) → (audit_id : Text) → (resolved : Option OutboxEntry) → Table
      → List AuditEvent
      → Outcome (OutboxEntry × Table × List AuditEvent)
  record_resolution issued context input action audit_clock audit_id none table log =
      problem dead_letter_not_resolvable
  record_resolution issued context input action audit_clock audit_id (some entry) table log = do
    recorded ←
        record_for_platform_command redact evidence_hash (bound_append entry.envelope.tenant_id)
          policy issued context entry.envelope.tenant_id (resolution_input input action entry)
          audit_clock audit_id log
    ok (entry, table, recorded.1)

  -- What an action is carried out with.
  unfoldable pub resolution_of :
      PlatformCommandContext
      → DeadLetterOperationInput
      → DeadLetterAction
      → Instant
      → DeadLetterResolution
  resolution_of context input action now = record {
    action = action;
    operator_id = context.actor_id;
    reason = trimmed input.reason;
    resolved_at = now;
  }

  -- The body of the transaction.
  unfoldable pub resolve_in_transaction :
      Bool
      → PlatformCommandContext
      → DeadLetterOperationInput
      → DeadLetterAction
      → (now : Instant) → (audit_clock : Date) → (audit_id : Text) → Table
      → List AuditEvent
      → Outcome (OutboxEntry × Table × List AuditEvent)
  resolve_in_transaction issued context input action now audit_clock audit_id table log =
      let resolved = resolve_entry input.entry_id (resolution_of context input action now) table in
      record_resolution issued context input action audit_clock audit_id resolved.0 resolved.1 log

  -- `resolveDeadLetter`; `authorize` is the application's own check of the action.
  unfoldable pub operate :
      (authorize : Option DeadLetterAction → Outcome (Unit {0}))
      → Bool
      → PlatformCommandContext
      → DeadLetterOperationInput
      → (now : Instant) → (audit_clock : Date) → (audit_id : Text) → Table
      → List AuditEvent
      → Outcome (OutboxEntry × Table × List AuditEvent)
  operate authorize issued context input now audit_clock audit_id table log = do
    authorize input.action
    throw_if (length (trimmed input.reason) == 0) dead_letter_reason_required
    action ← elim input.action [ none ↦ problem invalid_trusted_context | some known ↦ ok known ]
    instant ← to_iso now
    resolve_in_transaction issued context input action instant audit_clock audit_id table log
