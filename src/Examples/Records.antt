-- ===== src/Examples/Records.antt =====
-- Events, evidence, deliveries and roles: one tenant, one operator, one event.
use sintius.Access.Limits.{template_role-limited}
use sintius.Access.Permissions.{
  Attributes, attribute_of, granted_by_roles, role_grants, constraints_satisfied,
  constraint_satisfied, operator_holds, compare_finite, number, finite,
}
use sintius.Access.Personas.{template_role, billing_administrator}
use sintius.Audit.Evidence.{to_safe_snapshot-is_allowable}
use sintius.Audit.Secrets.{secrets, card_words}
use sintius.Audit.Policy.{is_field, Fields, create_audit_policy, to_safe_snapshot, is_allowable}
use sintius.Audit.Recorder.{
  AuditEvent, UnsealedAuditEvent, AuditRecordInput, sealed_event, is_action, audit_dates,
  record_for_scope, verify_audit_event, max_reason_length,
}
use sintius.Audit.Sealed.{Attributed, reason_length, record_for_scope-Attributed}
use sintius.Context.Principal.{unique_onto, interactive}
use sintius.Event.Build.{
  build_event_envelope_for, check_input, is_event_type, is_source_context, json_compatible,
  check_dates,
}
use sintius.Event.Uri.{encode_uri_component}
use sintius.Event.Trusted.{Stamped, build_event_envelope_for-Stamped}
use sintius.Event.{EventEnvelope, EventScope, BuildEventInput, confidential_business, user}
use sintius.Idempotency.Payload.{
  contains_tenant_identity, visit, normalize_key, lower, Members, integer, string, object,
  no_member, member, KeyIn, this_key, is_tenant_key,
}
use sintius.Prelude.Int.{ℤ, pos, ltb_ℤ}
use sintius.Prelude.{
  ◌≢◌, ◌++◌, includes, ◌≡◌, ◌≤◌, ◌*◌, ◌^◌, refl, true, false, none, some, Text, text, Text-discrete,
  ℕ_discrete, List, [], ◌∷◌, ◌⊎◌, text_lt, inr, trim,
}
use sintius.Problem.{Outcome, ok}

abbrev scope : EventScope
scope = record {
  tenant_id = text "acme";
  actor_id = text "ada";
  principal_kind = interactive;
  correlation_id = text "c-1";
  causation_id = none;
}

abbrev members : Members
members = member (text "display_name") (string (text "Acme")) no_member

abbrev input : BuildEventInput
input = record {
  event_type = text "tenant.activated.v1";
  source_context = text "identity-tenant";
  aggregate_type = text "Tenant";
  aggregate_id = text "acme";
  aggregate_version = integer (pos 2);
  occurred_at = some 5;
  classification = some confidential_business;
  data_ = object members;
  dataschema = none;
  subject = none;
}

abbrev envelope : EventEnvelope
envelope = record {
  id = text "e-1";
  source = text "urn:sub-rev-os:tenant:acme:context:identity-tenant";
  event_type = text "com.subrevos.tenant.activated.v1";
  time = 7;
  dataschema = none;
  subject = none;
  tenant_id = text "acme";
  aggregate_type = text "Tenant";
  aggregate_id = text "acme";
  aggregate_version = integer (pos 2);
  correlation_id = text "c-1";
  causation_id = none;
  actor = record { actor_type = user; id = text "ada"; delegated_by = none };
  occurred_at = 5;
  recorded_at = 7;
  data_classification = confidential_business;
  data_ = object members;
}

built : build_event_envelope_for scope input (some 7) (text "e-1") ≡ ok envelope
unfolding build_event_envelope_for check_input is_event_type is_source_context trim json_compatible
    contains_tenant_identity visit normalize_key lower check_dates encode_uri_component
    Text-discrete ℕ_discrete
built = refl

build_event_envelope_for-Stamped_example :
    Stamped scope envelope
    × ((is_tenant_key (text "display_name") ≡ false) ⊎ ¬ KeyIn (text "display_name") envelope.data_)
build_event_envelope_for-Stamped_example =
    build_event_envelope_for-Stamped scope input (some 7) (text "e-1") (text "display_name") built

abbrev fields : Fields
fields = (text "Tenant", text "state" ∷ text "display_name" ∷ []) ∷ []

abbrev policy : Fields
policy =
    (
      text "AuditQuery",
      text "action"
          ∷ text "actor_id"
          ∷ text "correlation_id"
          ∷ text "result_count"
          ∷ text "target_id"
          ∷ text "target_type"
          ∷ [],
    )
    ∷ (text "Tenant", text "display_name" ∷ text "state" ∷ [])
    ∷ []

created : create_audit_policy fields ≡ ok policy
unfolding create_audit_policy is_allowable unique_onto text_lt Text-discrete ℕ_discrete
created = refl

abbrev redact : Text → Text
redact s = s

abbrev hash : UnsealedAuditEvent → Text
hash event = event.action

shown : to_safe_snapshot redact policy (text "Tenant") (some members) ≡ ok (some members)
unfolding to_safe_snapshot Text-discrete ℕ_discrete
shown = refl

listed_secret : includes Text-discrete (text "token") secrets ≡ true
unfolding Text-discrete ℕ_discrete
listed_secret = refl

listed_card : includes Text-discrete (text "card") card_words ≡ true
unfolding Text-discrete ℕ_discrete
listed_card = refl

to_safe_snapshot-is_allowable_example :
    (is_field (text "display_name") ≡ true)
    × (text "display_name" ≢ text "display" ++ text "token" ++ text "name")
    × (95 ∷ text "display_name" ++ 95 ∷ []
        ≢ text "display" ++ (95 ∷ text "card" ++ 95 ∷ text "name"))
to_safe_snapshot-is_allowable_example =
    to_safe_snapshot-is_allowable redact fields policy (text "Tenant") members (text "display_name")
      (text "token") (text "card") (text "display") (text "name") created shown
      (this_key (text "display_name") (string (text "Acme")) no_member) listed_secret listed_card

abbrev change : AuditRecordInput
change = record {
  action = text "tenant.activated";
  target = record { target_type = text "Tenant"; id = text "acme" };
  reason = some (text " agreed ");
  approval_id = none;
  before = none;
  after = some members;
  occurred_at = some (some 5);
}

abbrev evidence : AuditEvent
evidence = record {
  unsealed = record {
    audit_event_id = text "a-1";
    tenant_id = text "acme";
    occurred_at = 5;
    recorded_at = 7;
    actor = record { id = text "ada"; kind = interactive };
    action = text "tenant.activated";
    target = record { target_type = text "Tenant"; id = text "acme" };
    reason = some (text "agreed");
    correlation_id = text "c-1";
    causation_id = none;
    approval_id = none;
    before = none;
    after = some members;
  };
  evidence_hash = text "tenant.activated";
}

abbrev append : AuditEvent → List AuditEvent → Outcome (List AuditEvent)
append event log = ok (log ++ event ∷ [])

recorded :
    record_for_scope redact hash append policy scope change (some 7) (text "a-1") []
    ≡ ok (evidence, evidence ∷ [])
unfolding record_for_scope sealed_event is_action trim audit_dates to_safe_snapshot Text-discrete
    ℕ_discrete
recorded = refl

record_for_scope-Attributed_example :
    Attributed scope evidence.unsealed
    × (5 ≤ 7)
    × (reason_length evidence.unsealed.reason ≤ max_reason_length)
    × (verify_audit_event redact hash evidence ≡ true)
    × (append evidence [] ≡ ok (evidence ∷ []))
record_for_scope-Attributed_example =
    record_for_scope-Attributed redact hash append policy scope change (some 7) (text "a-1") []
      recorded

abbrev amount : Attributes
amount = (text "amount_minor", number (finite (pos (5000 * 2 ^ 1074)))) ∷ []

granted :
    granted_by_roles
      (template_role billing_administrator ∷ [])
      (text "payments:payment:refund")
      amount
    ≡ true
unfolding granted_by_roles role_grants template_role Text-discrete ℕ_discrete constraints_satisfied
    constraint_satisfied attribute_of operator_holds compare_finite
granted = refl

template_role-limited_example :
    (a : ℤ) × (attribute_of (text "amount_minor") amount ≡ some (number (finite a)))
    × (ltb_ℤ (pos (1000000 * 2 ^ 1074)) a ≡ false)
template_role-limited_example =
    template_role-limited (text "payments:payment:refund") amount (inr refl) granted
