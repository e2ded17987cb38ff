-- ===== src/Audit/Reads.antt =====
-- Reading audit history leaves an audit event.
use sintius.Audit.Policy.{Fields}
use sintius.Audit.Recorder.{
  AuditEvent, UnsealedAuditEvent, AuditRecordInput, record_for_scope, record_for_current_context,
}
use sintius.Audit.Reader.{AuditQuery, AuditPage, read_input, read_page, query_audit, checked_limit}
use sintius.Audit.Sealed.{Attributed, record_for_scope-Attributed}
use sintius.Context.Principal.{TenantContext}
use sintius.Context.Resolver.{current_tenant_context}
use sintius.Event.{EventScope, event_scope_from_current_context}
use sintius.Prelude.{
  ℕ, true, Option, none, some, Text, text_eq, all, length, ◌≡◌, refl, arith, inl, inr,
}
use sintius.Problem.{Outcome, ok, Outcome-cases}
use sintius.Time.{Date}

abbrev context_scope : TenantContext → EventScope
context_scope context = record {
  tenant_id = context.tenant_id;
  actor_id = context.actor_id;
  principal_kind = context.principal_kind;
  correlation_id = context.correlation_id;
  causation_id = context.causation_id;
}

module _ (redact : Text → Text) (hash : UnsealedAuditEvent → Text) (parse_date : Text → Date)
    {Log : Type 0} (append : AuditEvent → Log → Outcome Log) (policy : Fields)
    (reads : Text → AuditQuery → ℕ → Outcome AuditPage) (clock : Date) (new_id : Text) where
  recorded_for :
      (context : TenantContext) (input : AuditRecordInput) (log : Log) {event : AuditEvent}
      {after : Log}
      → record_for_current_context redact hash append policy (some context) input clock new_id log
        ≡ ok (event, after)
      → record_for_scope redact hash append policy (context_scope context) input clock new_id log
        ≡ ok (event, after)
  unfolding record_for_current_context event_scope_from_current_context current_tenant_context
  recorded_for context input log h = h

  -- What a page that was read comes with.
  pub record Evidenced (context : TenantContext) (page : AuditPage) (log after : Log) : Type 0 where
    pub event : AuditEvent
    pub appended : append event log ≡ ok after
    pub attributed : Attributed (context_scope context) event.unsealed
    pub own_tenant :
        all (λ (e : AuditEvent). text_eq e.unsealed.tenant_id context.tenant_id) page.events ≡ true

  read_page-Evidenced :
      (context : TenantContext) (query : AuditQuery) (limit : ℕ) (log : Log) {page : AuditPage}
      {after : Log}
      → read_page redact hash parse_date append policy context query limit reads clock new_id log
        ≡ ok (page, after)
      → Evidenced context page log after
  unfolding read_page
  read_page-Evidenced context query limit log {page} {after} h =
      elim (Outcome-cases (reads context.tenant_id query limit)) [
        | inr lost ↦ absurd (ground arith)
        | inl (found, e) ↦
            let input = read_input context query (length found.events) in
            elim (Outcome-cases (
              record_for_current_context redact hash append policy (some context) input clock new_id
                log)) [
                  | inr lost ↦ absurd (ground arith)
                  | inl ((event, kept), r) ↦
                      let (identity, dated, short, verified, appended) =
                        record_for_scope-Attributed redact hash append policy
                          (context_scope context) input clock new_id log
                          (recorded_for context input log r) in
                      let same_log : kept ≡ after = ground arith in
                      record {
                        event = event;
                        appended = rw (← same_log) appended;
                        attributed = identity;
                        own_tenant = ground arith;
                      }
                ]
      ]

  module _ (context : TenantContext) (authorize : Outcome (Unit {0})) (query : AuditQuery)
      (log : Log) {page : AuditPage} {after : Log} where
    limited :
        query_audit redact hash parse_date append policy
            (some context)
            authorize
            query
            reads
            clock
            new_id
            log
          ≡ ok (page, after)
        → (limit : ℕ) × (read_page redact hash parse_date append policy context query limit reads
              clock new_id log
            ≡ ok (page, after))
    unfolding query_audit current_tenant_context
    limited h = elim (Outcome-cases (checked_limit query.limit)) [
      | inl (limit, e) ↦ (limit, ground arith)
      | inr lost ↦ absurd (ground arith)
    ]

    allowed :
        query_audit redact hash parse_date append policy
            (some context)
            authorize
            query
            reads
            clock
            new_id
            log
          ≡ ok (page, after)
        → authorize ≡ ok tt
    unfolding query_audit current_tenant_context
    allowed h = ground arith

  -- A query returns a page only in an established context, after the caller's own check has passed,
  -- and with an audit event of the context's tenant and actor appended in the same transaction;
  -- every event of the page is that tenant's.
  pub query_audit-Evidenced :
      (current : Option TenantContext) (authorize : Outcome (Unit {0})) (query : AuditQuery)
      (log : Log) {page : AuditPage} {after : Log}
      → query_audit redact hash parse_date append policy current authorize query reads clock new_id
          log
        ≡ ok (page, after)
      → (context : TenantContext) × (current ≡ some context)
        × (authorize ≡ ok tt)
        × Evidenced context page log after
  unfolding query_audit current_tenant_context
  query_audit-Evidenced none authorize query log h = absurd (ground arith)
  query_audit-Evidenced (some context) authorize query log {page} {after} h =
      let read : (limit : ℕ) × (read_page redact hash parse_date append policy context query limit
              reads clock new_id log
            ≡ ok (page, after)) =
        limited context authorize query log h in
      (
        context,
        refl,
        allowed context authorize query log h,
        read_page-Evidenced context query read.0 log read.1,
      )
