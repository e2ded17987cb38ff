-- ===== src/Event/Build.antt =====
-- `buildEventEnvelopeFor` and `buildEventEnvelope` of platform/event-envelope/src/index.ts. The clock's
-- date and the new event's identifier are arguments. Freezing and cloning keep the values.
use sintius.Context.Principal.{
  PrincipalKind, interactive, workload, TenantContext, require_non_blank,
}
use sintius.Event.Uri.{encode_uri_component}
use sintius.Event.{
  EventDataClassification, EventActorType, user, service, EventEnvelope, BuildEventInput,
  EventScope, event_scope_from_current_context,
}
use sintius.Idempotency.Payload.{
  Json, Items, Members, null, boolean, number, string, array, object, class_object, undefined,
  unsupported, no_item, item, no_member, member, Number, integer, is_finite,
  contains_tenant_identity,
}
use sintius.Prelude.Int.{pos}
use sintius.Prelude.{
  ℕ, suc, Bool, true, false, ◌&&◌, ◌||◌, not, ltb, leb, ◌==◌, if◌then◌else◌, Option, none, some,
  Text, text, [], ◌∷◌, ◌++◌, length, all,
}
use sintius.Problem.{
  Outcome, ok, problem, ◌>>=◌, ◌>>◌, throw_if, invalid_trusted_context, tenant_context_mismatch,
  invalid_timestamp,
}
use sintius.Time.{Instant, Date, to_iso}

abbrev between : ℕ → ℕ → ℕ → Bool
between a b c = leb a c && leb c b

-- `[a-z_]` and `[0-9]`
abbrev is_name_unit : ℕ → Bool
is_name_unit c = between 97 122 c || c == 95

abbrev is_digit : ℕ → Bool
is_digit c = between 48 57 c

-- `v[0-9]+$`
unfoldable pub is_version_part : Text → Bool
is_version_part [] = false
is_version_part (c ∷ s) = c == 118 && not (length s == 0) && all is_digit s

-- `[a-z_]*\.` and what follows the point, which no name contains.
unfoldable pub name_then : (Text → Bool) → Text → Bool
name_then rest [] = false
name_then rest (c ∷ s) =
    let more = name_then rest s in if c == 46 then rest s else is_name_unit c && more

-- `[a-z_]+\.` and what follows.
abbrev part_then : (Text → Bool) → Text → Bool
part_then rest [] = false
part_then rest (c ∷ s) = is_name_unit c && name_then rest s

-- `EVENT_TYPE_PATTERN`
unfoldable pub is_event_type : Text → Bool
unfolding name_then is_version_part
is_event_type s = part_then (part_then is_version_part) s

-- `SOURCE_CONTEXT_PATTERN`
unfoldable pub is_source_context : Text → Bool
is_source_context [] = false
is_source_context (c ∷ s) =
    between 97 122 c && leb (length s) 63 && all (λ u. between 97 122 u || is_digit u || u == 45) s

unfoldable mutual
  -- `assertJsonCompatible` passes.
  pub json_compatible : (depth : ℕ) → Json → Bool
  json_compatible depth null = leb depth 16
  json_compatible depth (boolean b) = leb depth 16
  json_compatible depth (number n) = leb depth 16 && is_finite n
  json_compatible depth (string s) = leb depth 16
  json_compatible depth (array items) = leb depth 16 && items_compatible depth items
  json_compatible depth (object members) = leb depth 16 && members_compatible depth members
  json_compatible depth (class_object members) = false
  json_compatible depth undefined = false
  json_compatible depth unsupported = false

  pub items_compatible : (depth : ℕ) → Items → Bool
  items_compatible depth no_item = true
  items_compatible depth (item v items) =
      json_compatible (suc depth) v && items_compatible depth items

  pub members_compatible : (depth : ℕ) → Members → Bool
  members_compatible depth no_member = true
  members_compatible depth (member key v members) =
      json_compatible (suc depth) v && members_compatible depth members

-- `typeof data !== "object" || data === null || Array.isArray(data)`, negated.
abbrev pub is_object : Json → Bool
is_object (object members) = true
is_object (class_object members) = true
is_object v = false

-- `Number.isInteger(version) && version >= 1`
abbrev pub is_aggregate_version : Number → Bool
is_aggregate_version (integer (pos n)) = leb 1 n
is_aggregate_version n = false

-- The checks on the input's own fields, in their order; all throw the same problem.
unfoldable pub check_input : BuildEventInput → Outcome EventDataClassification
check_input input = do
  throw_if (not (is_event_type input.event_type)) invalid_trusted_context
  throw_if (not (is_source_context input.source_context)) invalid_trusted_context
  classification ← elim input.classification [
    | none ↦ problem invalid_trusted_context
    | some known ↦ ok known
  ]
  throw_if (not (is_aggregate_version input.aggregate_version)) invalid_trusted_context
  aggregate_type ← require_non_blank input.aggregate_type
  aggregate_id ← require_non_blank input.aggregate_id
  throw_if (not (is_object input.data_)) invalid_trusted_context
  throw_if (not (json_compatible 0 input.data_)) invalid_trusted_context
  ok classification

-- The dates of the event and of the record, which must be valid and in order.
unfoldable pub check_dates : Date → Date → Outcome (Instant × Instant)
check_dates (some occurred) (some recorded) =
    throw_if (ltb recorded occurred) invalid_timestamp >> ok (occurred, recorded)
check_dates occurred recorded = problem invalid_timestamp

abbrev pub actor_type : PrincipalKind → EventActorType
actor_type workload = service
actor_type interactive = user

-- `buildEventEnvelopeFor`
unfoldable pub build_event_envelope_for :
    EventScope → BuildEventInput → (clock : Date) → (new_event_id : Text) → Outcome EventEnvelope
build_event_envelope_for context input clock new_event_id = do
  classification ← check_input input
  throw_if (contains_tenant_identity input.data_) tenant_context_mismatch
  dates ← check_dates input.occurred_at clock
  recorded_at ← to_iso dates.1
  id ← require_non_blank new_event_id
  encoded ← encode_uri_component context.tenant_id
  occurred_at ← to_iso dates.0
  ok (record {
    id = id;
    source = text "urn:sub-rev-os:tenant:" ++ encoded ++ text ":context:" ++ input.source_context;
    event_type = text "com.subrevos." ++ input.event_type;
    time = recorded_at;
    dataschema = input.dataschema;
    subject = input.subject;
    tenant_id = context.tenant_id;
    aggregate_type = input.aggregate_type;
    aggregate_id = input.aggregate_id;
    aggregate_version = input.aggregate_version;
    correlation_id = context.correlation_id;
    causation_id = context.causation_id;
    actor = record {
      actor_type = actor_type context.principal_kind;
      id = context.actor_id;
      delegated_by = none;
    };
    occurred_at = occurred_at;
    recorded_at = recorded_at;
    data_classification = classification;
    data_ = input.data_;
  })

-- `buildEventEnvelope`, in the active tenant's context.
unfoldable pub build_event_envelope :
    Option TenantContext
    → BuildEventInput
    → (clock : Date) → (new_event_id : Text) → Outcome EventEnvelope
build_event_envelope current input clock new_event_id =
    event_scope_from_current_context current >>= λ scope.
    build_event_envelope_for scope input clock new_event_id
