-- ===== src/Audit/Reader.antt =====
-- The audit reader (platform/audit/src/reader.ts). The read store, the writer's append and the checks
-- that the application supplies are parameters; an instant of a query is valid or not, as
-- `Date.parse` says.
use sintius.Audit.Policy.{Fields}
use sintius.Audit.Recorder.{
  AuditEvent, UnsealedAuditEvent, AuditRecordInput, record_for_current_context,
}
use sintius.Context.Principal.{TenantContext}
use sintius.Context.Resolver.{current_tenant_context}
use sintius.Idempotency.Payload.{Number, Members, integer, number, string, no_member, member}
use sintius.Prelude.Int.{pos}
use sintius.Prelude.{
  ℕ, Bool, true, false, ◌&&◌, not, leb, Option, none, some, Text, text, text_eq, List, all, length,
}
use sintius.Problem.{
  Outcome, ok, problem, ◌>>=◌, ◌>>◌, throw_if, invalid_trusted_context, tenant_context_mismatch,
}
use sintius.Time.{Date}

abbrev pub max_limit : ℕ
max_limit = 500

abbrev pub default_limit : ℕ
default_limit = 100

pub record AuditQuery : Type 0 where
  pub action : Option Text
  pub target_type : Option Text
  pub target_id : Option Text
  pub actor_id : Option Text
  pub correlation_id : Option Text
  pub from : Option Text
  pub to : Option Text
  pub cursor : Option Number
  pub limit : Option Number

-- `Number.isInteger(limit) && limit >= 1 && limit <= MAX_LIMIT`, of `query.limit ?? DEFAULT_LIMIT`.
unfoldable pub checked_limit : Option Number → Outcome ℕ
checked_limit none = ok default_limit
checked_limit (some (integer (pos limit))) =
    throw_if (not (leb 1 limit && leb limit max_limit)) invalid_trusted_context >> ok limit
checked_limit (some limit) = problem invalid_trusted_context

unfoldable pub is_cursor : Option Number → Bool
is_cursor none = true
is_cursor (some (integer (pos cursor))) = true
is_cursor (some cursor) = false

-- A field of the evidence, when the query has it.
abbrev with_field : Text → Option Text → Members → Members
with_field name none fields = fields
with_field name (some value) fields = member name (string value) fields

unfoldable pub query_evidence : AuditQuery → (result_count : ℕ) → Members
query_evidence query result_count = with_field (text "action") query.action (
    with_field (text "target_type") query.target_type (
      with_field (text "target_id") query.target_id (
        with_field (text "actor_id") query.actor_id (
          with_field (text "correlation_id") query.correlation_id
            (member (text "result_count") (number (integer (pos result_count))) no_member)))))

-- The `audit.read` event of a query.
unfoldable pub read_input : TenantContext → AuditQuery → (result_count : ℕ) → AuditRecordInput
unfolding query_evidence
read_input context query result_count = record {
  action = text "audit.read";
  target = record { target_type = text "AuditQuery"; id = context.correlation_id };
  reason = none;
  approval_id = none;
  before = none;
  after = some (query_evidence query (result_count));
  occurred_at = none;
}

pub record AuditPage : Type 0 where
  pub events : List AuditEvent
  pub next_cursor : Option ℕ

module _ (redact : Text → Text) (hash : UnsealedAuditEvent → Text) (parse_date : Text → Date)
    {Log : Type 0} (append : AuditEvent → Log → Outcome Log) where
  -- `instant` of a bound of the query.
  unfoldable pub is_instant : Option Text → Bool
  is_instant none = true
  is_instant (some value) = elim (parse_date value) [ none ↦ false | some t ↦ true ]

  -- The body of the transaction; `normalized` is the query with its limit.
  unfoldable pub read_page :
      Fields
      → TenantContext
      → AuditQuery
      → (limit : ℕ) → (reads : Text → AuditQuery → ℕ → Outcome AuditPage) → (clock : Date)
      → (new_id : Text) → Log
      → Outcome (AuditPage × Log)
  read_page policy context query limit reads clock new_id log = do
    page ← reads context.tenant_id query limit
    throw_if
        (not (
          all (λ (event : AuditEvent). text_eq event.unsealed.tenant_id context.tenant_id)
            page.events))
        tenant_context_mismatch
    recorded ←
        record_for_current_context redact hash append policy (some context)
          (read_input context query (length page.events)) clock new_id log
    ok (page, recorded.1)

  -- `queryAudit`
  unfoldable pub query_audit :
      Fields
      → Option TenantContext
      → Outcome (Unit {0})
      → AuditQuery
      → (reads : Text → AuditQuery → ℕ → Outcome AuditPage) → (clock : Date) → (new_id : Text) → Log
      → Outcome (AuditPage × Log)
  query_audit policy current authorize query reads clock new_id log = do
    context ← current_tenant_context current
    authorize
    limit ← checked_limit query.limit
    throw_if (not (is_cursor query.cursor)) invalid_trusted_context
    throw_if (not (is_instant query.from)) invalid_trusted_context
    throw_if (not (is_instant query.to)) invalid_trusted_context
    read_page policy context query limit reads clock new_id log
