-- ===== src/Tenant/Moved.antt =====
-- What the lifecycle commands change, and for whom.
use sintius.Audit.Policy.{Fields}
use sintius.Audit.Recorder.{AuditEvent, UnsealedAuditEvent}
use sintius.Audit.Sealed.{Attributed}
use sintius.Context.Principal.{PlatformCommandContext}
use sintius.Event.Build.{build_event_envelope_for}
use sintius.Event.Trusted.{build-parts}
use sintius.Event.{EventEnvelope, EventScope, event_scope_for_platform_command, platform_scope}
use sintius.Idempotency.Effects.{Replayed}
use sintius.Idempotency.Executor.{StoredResponse, Records}
use sintius.Idempotency.Payload.{Json}
use sintius.Prelude.{
  ℕ, Bool, if◌then◌else◌, Option, none, some, Text, List, [], ◌∷◌, ◌++◌, map, ◌≡◌, ◌∙◌, ap, sym,
  arith, ◌⊎◌, inl, inr,
}
use sintius.Problem.{ok, >>=-eq-ok}
use sintius.Tenant.Adds.{append_outbox-adds, update_tenant-sets, scope_issued, record_change-adds}
use sintius.Tenant.Commands.{record_change, moved_from, transition_work}
use sintius.Tenant.Requests.{
  scope_of, transition_payload, TenantLifecycleInput, Readings, given_reason,
}
use sintius.Tenant.Store.{Database, find_tenant, update_tenant, is_version, set_row, append_outbox}
use sintius.Tenant.Stored.{TenantView, tenant_from_stored}
use sintius.Tenant.Transitions.{TenantSnapshot, TenantChange, TransitionTarget, transition_tenant}
use sintius.Time.{Instant}

set_then_added :
    (d0 d1 d2 d3 : Database) (tenants : List TenantSnapshot) (event : AuditEvent)
    (envelope : EventEnvelope)
    → d1 ≡ record d0 { tenants = tenants }
    → d2 ≡ record d1 { audit = d1.audit ++ event ∷ [] }
    → d3 ≡ record d2 { outbox = d2.outbox ++ envelope ∷ [] }
    → d3 ≡ record d0 {
      tenants = tenants;
      audit = d0.audit ++ event ∷ [];
      outbox = d0.outbox ++ envelope ∷ [];
    }
set_then_added d0 d1 d2 d3 tenants event envelope p1 p2 p3 = rw (p3, p2, p1)

module _ (redact : Text → Text) (evidence_hash : UnsealedAuditEvent → Text) (policy : Fields)
    (request_hash : Text → Json → Text) (retention_seconds : ℕ) (iso : Instant → Text)
    (issued : Bool) (context : PlatformCommandContext) (r : Readings) where
  -- What `transition` changes: the tenant's row, moved as the aggregate allows at the version that
  -- the caller expected, with one audit event and one event of the tenant.
  pub record Moved (id : Text) (target : TransitionTarget) (expected_version : ℕ)
      (db after : Database) : Type 0 where
    pub current : TenantSnapshot
    pub change : TenantChange
    pub event : AuditEvent
    pub envelope : EventEnvelope
    pub found : find_tenant id id db ≡ ok (some current)
    pub allowed : transition_tenant current target expected_version r.now ≡ ok change
    pub attributed : Attributed (platform_scope context id) event.unsealed
    pub own_event : envelope.tenant_id ≡ id
    pub changed : after ≡ record db {
      tenants =
          map
            (λ (t : TenantSnapshot).
              if is_version id change.tenant current.version t
              then set_row id change.tenant t
              else t)
            db.tenants;
      audit = db.audit ++ event ∷ [];
      outbox = db.outbox ++ envelope ∷ [];
    }

  -- The same chain as the body of the work, from the tenant that was found.
  existing :
      (id : Text) (target : TransitionTarget) (expected_version : ℕ) (reason : Option Text)
      (db after : Database) (found : Option TenantSnapshot) {response : StoredResponse}
      → find_tenant id id db ≡ ok found
      → moved_from redact evidence_hash policy request_hash retention_seconds iso issued context id
          target expected_version reason r db found
        ≡ ok (response, after)
      → Moved id target expected_version db after
  unfolding moved_from
  existing id target expected_version reason db after none found h = absurd (ground arith)
  existing id target expected_version reason db after (some current) {response} found h =
      let (change, moved, h1) =
        >>=-eq-ok (transition_tenant current target expected_version r.now) _ h in
      let (with_tenant, tenant_call, h2) =
        >>=-eq-ok (update_tenant id change.tenant current.version db) _ h1 in
      let (with_audit, audit_call, h3) =
        >>=-eq-ok
          (record_change redact evidence_hash policy request_hash retention_seconds iso issued
            context id _ r with_tenant)
          _ h2 in
      let (scope, scoped, h4) =
        >>=-eq-ok (event_scope_for_platform_command issued context id) _ h3 in
      let (envelope, built, h5) =
        >>=-eq-ok (build_event_envelope_for scope _ r.now r.event_id) _ h4 in
      let (with_event, event_call, h6) = >>=-eq-ok (append_outbox id envelope with_audit) _ h5 in
      let (event, identity, audited) =
        record_change-adds redact evidence_hash policy request_hash retention_seconds iso issued
          context id r _ with_tenant audit_call in
      let (published, same_tenant) = append_outbox-adds id with_audit envelope event_call in
      let stamped = (build-parts scope _ r.now r.event_id built).0 in
      let trusted =
        (scope_issued redact evidence_hash policy request_hash retention_seconds iso issued context
          id r scoped).1 in
      let last : with_event ≡ after = ground arith in
      record {
        current = current;
        change = change;
        event = event;
        envelope = envelope;
        found = found;
        allowed = moved;
        attributed = identity;
        own_event = stamped.tenant ∙ ap (λ (s : EventScope). s.tenant_id) trusted;
        changed =
            sym last
            ∙ set_then_added db with_tenant with_audit with_event _ event envelope
                (update_tenant-sets id db change.tenant current.version tenant_call).1 audited
                published;
      }

  transition_work-Moved :
      (id : Text) (target : TransitionTarget) (expected_version : ℕ) (reason : Option Text)
      (db after : Database) {response : StoredResponse}
      → transition_work redact evidence_hash policy request_hash retention_seconds iso issued
          context id target expected_version reason r db
        ≡ ok (response, after)
      → Moved id target expected_version db after
  unfolding transition_work
  transition_work-Moved id target expected_version reason db after {response} h =
      let (found, find_call, h1) = >>=-eq-ok (find_tenant id id db) _ h in
      existing id target expected_version reason db after found find_call h1

  -- The hash of a lifecycle command's request.
  abbrev pub hash_of : TenantLifecycleInput → TransitionTarget → (reactivation : Bool) → Text
  hash_of input target reactivation =
      request_hash (scope_of target reactivation)
        (transition_payload input.expected_version (given_reason input.reason))

  -- The tables are as they were, and the tenant is the one of the answer that is stored under the
  -- command's key, for the same request.
  abbrev pub Answered :
      TenantLifecycleInput
      → TransitionTarget
      → (reactivation : Bool) → (key : Option Text)
      → (records stored : Records) (db after : Database) → TenantView
      → Type 0
  Answered input target reactivation key records stored db after tenant =
      (after ≡ db)
      × ((response : StoredResponse) × (tenant_from_stored response input.tenant_id ≡ ok tenant)
          × Replayed input.tenant_id (scope_of target reactivation) key
              (hash_of input target reactivation) r.claim_now records stored response)

  moved :
      (input : TenantLifecycleInput) (target : TransitionTarget) (reactivation : Bool) (id : Text)
      (reason : Option Text) (key : Option Text) (records kept stored : Records)
      (db left after : Database) (response : StoredResponse) (tenant : TenantView)
      → left ≡ after
      → kept ≡ stored
      → id ≡ input.tenant_id
      → tenant_from_stored response id ≡ ok tenant
      → ((left ≡ db)
          × Replayed id
              (scope_of target reactivation)
              key
              (hash_of input target reactivation)
              r.claim_now
              records
              kept
              response)
        ⊎ (transition_work redact evidence_hash policy request_hash retention_seconds iso issued
              context id target input.expected_version reason r db
            ≡ ok (response, left))
      → Answered input target reactivation key records stored db after tenant
        ⊎ Moved input.tenant_id target input.expected_version db after
  moved input target reactivation id reason key records kept stored db left after response tenant l
        k e read (inl (same_tables, replayed)) =
      inl (sym l ∙ same_tables, (response, rw (← e) read, rw (← k, ← e) replayed))
  moved input target reactivation id reason key records kept stored db left after response tenant l
        k e read (inr worked) =
      let done = transition_work-Moved id target input.expected_version reason db left worked in
      inr (rw (← e, ← l) done)
