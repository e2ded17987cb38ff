-- ===== src/Examples/Operations.antt =====
-- Reading the audit log, a consumer's inbox and an operator's resolution of a dead letter.
use sintius.Audit.Policy.{Fields, to_safe_snapshot}
use sintius.Audit.Reader.{
  AuditQuery, AuditPage, query_audit, checked_limit, is_cursor, is_instant, read_page, read_input,
}
use sintius.Audit.Reads.{Evidenced, query_audit-Evidenced}
use sintius.Audit.Recorder.{
  AuditEvent, UnsealedAuditEvent, record_for_current_context, record_for_platform_command,
  record_for_scope, sealed_event, is_action, audit_dates,
}
use sintius.Context.Principal.{interactive, mfa, TenantContext, PlatformCommandContext}
use sintius.Context.Resolver.{current_tenant_context}
use sintius.Event.{
  EventEnvelope, user, confidential_business, event_scope_from_current_context,
  event_scope_for_platform_command,
}
use sintius.Idempotency.Payload.{integer, object, no_member, member, string, number}
use sintius.Outbox.Inbox.{Inbox, InboxRecord, consume, consume_all, consume-consume_all}
use sintius.Outbox.Operations.{
  DeadLetterOperationInput, operate, resolve_in_transaction, record_resolution, resolution_input,
  bound_append, trimmed, resolve_entry, resolution_of,
}
use sintius.Outbox.Queue.{
  is_dead_letter, update_where, OutboxEntry, DeadLetterAction, dead, pending, requeue,
  resolve_dead_letter, resolve_row,
}
use sintius.Outbox.Resolved.{Resolved, operate-Resolved}
use sintius.Prelude.Int.{pos}
use sintius.Prelude.{
  ℕ, ◌+◌, ◌==◌, true, false, ◌≡◌, refl, Option, none, some, Text, text, Text-discrete, ℕ_discrete,
  trim, List, [], ◌∷◌, ◌++◌, length,
}
use sintius.Problem.{Outcome, ok}
use sintius.Time.{Date, to_iso}

abbrev redact : Text → Text
redact s = s

abbrev hash : UnsealedAuditEvent → Text
hash event = event.action

abbrev parse_date : Text → Date
parse_date s = none

abbrev append : AuditEvent → List AuditEvent → Outcome (List AuditEvent)
append event log = ok (log ++ event ∷ [])

abbrev policy : Fields
policy =
    (text "AuditQuery", text "result_count" ∷ [])
    ∷ (text "OutboxEntry", text "resolution" ∷ [])
    ∷ []

abbrev permitted : Outcome (Unit {0})
permitted = ok tt

abbrev reader : TenantContext
reader = record {
  tenant_id = text "acme";
  actor_id = text "ada";
  principal_kind = interactive;
  correlation_id = text "c-1";
  causation_id = none;
  assurance = mfa;
  credential_id = text "k-1";
  audiences = [];
  scopes = [];
}

abbrev query : AuditQuery
query = record {
  action = none;
  target_type = none;
  target_id = none;
  actor_id = none;
  correlation_id = none;
  from = none;
  to = none;
  cursor = none;
  limit = some (integer (pos 20));
}

abbrev read_evidence : AuditEvent
read_evidence = record {
  unsealed = record {
    audit_event_id = text "a-1";
    tenant_id = text "acme";
    occurred_at = 7;
    recorded_at = 7;
    actor = record { id = text "ada"; kind = interactive };
    action = text "audit.read";
    target = record { target_type = text "AuditQuery"; id = text "c-1" };
    reason = none;
    correlation_id = text "c-1";
    causation_id = none;
    approval_id = none;
    before = none;
    after = some (member (text "result_count") (number (integer (pos 0))) no_member);
  };
  evidence_hash = text "audit.read";
}

abbrev page : AuditPage
page = record { events = []; next_cursor = none }

abbrev reads : Text → AuditQuery → ℕ → Outcome AuditPage
reads tenant asked limit = ok page

was_read :
    query_audit redact hash parse_date append policy
      (some reader)
      permitted
      query
      reads
      (some 7)
      (text "a-1")
      []
    ≡ ok (page, read_evidence ∷ [])
unfolding query_audit current_tenant_context checked_limit is_cursor is_instant read_page
    record_for_current_context event_scope_from_current_context record_for_scope sealed_event
    is_action read_input trim audit_dates to_safe_snapshot Text-discrete ℕ_discrete
was_read = refl

query_audit-Evidenced_example :
    (context : TenantContext) × (some reader ≡ some context)
    × (permitted ≡ ok tt)
    × Evidenced redact hash parse_date append policy reads
        (some 7)
        (text "a-1")
        context
        page
        []
        (read_evidence ∷ [])
query_audit-Evidenced_example =
    query_audit-Evidenced redact hash parse_date append policy reads (some 7) (text "a-1")
      (some reader) permitted query [] was_read

abbrev envelope : EventEnvelope
envelope = record {
  id = text "e-1";
  source = text "urn";
  event_type = text "com.subrevos.tenant.activated.v1";
  time = 7;
  dataschema = none;
  subject = none;
  tenant_id = text "acme";
  aggregate_type = text "Tenant";
  aggregate_id = text "acme";
  aggregate_version = integer (pos 2);
  correlation_id = text "c-1";
  causation_id = none;
  actor = record { actor_type = user; id = text "ada"; delegated_by = none };
  occurred_at = 5;
  recorded_at = 7;
  data_classification = confidential_business;
  data_ = object no_member;
}

-- The consumer counts its events.
abbrev handle : EventEnvelope → ℕ → Outcome ℕ
handle e n = ok (n + 1)

abbrev row : InboxRecord
row = record { tenant_id = text "acme"; consumer = text "billing"; event_id = text "e-1" }

abbrev after : Inbox ℕ
after = record { rows = row ∷ []; own = 1 }

delivered :
    consume (text "billing") handle envelope (record { rows = []; own = 0 }) ≡ ok (true, after)
unfolding consume trim Text-discrete ℕ_discrete
delivered = refl

nothing_between : consume_all (text "billing") handle [] after ≡ ok after
unfolding consume_all
nothing_between = refl

consume-consume_all_example : consume (text "billing") handle envelope after ≡ ok (false, after)
consume-consume_all_example =
    consume-consume_all (text "billing") handle envelope [] (record { rows = []; own = 0 })
      delivered nothing_between

abbrev operator : PlatformCommandContext
operator = record {
  actor_id = text "olga";
  principal_kind = interactive;
  correlation_id = text "c-2";
  causation_id = none;
  assurance = mfa;
  credential_id = text "k-2";
  audiences = [];
  scopes = [];
}

abbrev dead_entry : OutboxEntry
dead_entry = record {
  entry_id = 3;
  envelope = record {
    id = text "e-1";
    event_type = text "t";
    tenant_id = text "acme";
    aggregate_type = text "Tenant";
    aggregate_id = text "acme";
  };
  status = dead;
  attempts = 5;
  next_attempt_at = 4;
  appended_at = 1;
  leased_by = none;
  lease_expires_at = none;
  last_error = some (text "boom");
  published_at = none;
  resolution = none;
}

abbrev operation : DeadLetterOperationInput
operation = record { entry_id = text "3"; action = some requeue; reason = some (text "fixed") }

abbrev authorize : Option DeadLetterAction → Outcome (Unit {0})
authorize action = ok tt

abbrev requeued : OutboxEntry
requeued = record dead_entry {
  status = pending;
  attempts = 0;
  next_attempt_at = 9;
  resolution = some (record {
    action = requeue;
    operator_id = text "olga";
    reason = text "fixed";
    resolved_at = 9;
  });
}

abbrev resolution_evidence : AuditEvent
resolution_evidence = record {
  unsealed = record {
    audit_event_id = text "a-2";
    tenant_id = text "acme";
    occurred_at = 9;
    recorded_at = 9;
    actor = record { id = text "olga"; kind = interactive };
    action = text "outbox.dead_letter_requeued";
    target = record { target_type = text "OutboxEntry"; id = text "3" };
    reason = some (text "fixed");
    correlation_id = text "c-2";
    causation_id = none;
    approval_id = none;
    before = some no_member;
    after = some (member (text "resolution") (string (text "requeue")) no_member);
  };
  evidence_hash = text "outbox.dead_letter_requeued";
}

operated :
    operate redact hash policy authorize true operator operation 9
      (some 9)
      (text "a-2")
      (dead_entry ∷ [])
      []
    ≡ ok (dead_entry, requeued ∷ [], resolution_evidence ∷ [])
unfolding operate trim resolve_in_transaction resolve_entry resolve_dead_letter is_dead_letter
    update_where resolution_of resolve_row record_resolution record_for_platform_command
    event_scope_for_platform_command record_for_scope sealed_event is_action resolution_input
    audit_dates to_safe_snapshot bound_append Text-discrete ℕ_discrete
operated = refl

operate-Resolved_example :
    (authorize (some requeue) ≡ ok tt)
    × ((length (trimmed (some (text "fixed"))) == 0) ≡ false)
    × ((action : DeadLetterAction) × (instant : ℕ) × (some requeue ≡ some action)
        × (to_iso 9 ≡ ok instant)
        × (resolve_entry
              (text "3")
              (resolution_of redact hash policy operator operation action instant)
              (dead_entry ∷ [])
            ≡ (some dead_entry, requeued ∷ [])))
    × Resolved redact hash policy true operator operation
        (some 9)
        (text "a-2")
        dead_entry
        []
        (resolution_evidence ∷ [])
operate-Resolved_example =
    operate-Resolved redact hash policy true operator operation (some 9) (text "a-2") authorize 9
      (dead_entry ∷ []) (requeued ∷ []) [] (resolution_evidence ∷ []) operated
