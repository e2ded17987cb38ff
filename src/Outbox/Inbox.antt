-- ===== src/Outbox/Inbox.antt =====
-- The idempotent consumer (platform/outbox/src/inbox.ts) on the inbox table of
-- platform/outbox/infrastructure/postgres/store.ts. The consumer's own data and its handler are parameters, and a
-- transaction that throws leaves both as they were. Spans change no data.
use sintius.Event.{EventEnvelope}
use sintius.Idempotency.Keys.{is_scope}
use sintius.Prelude.{
  Bool, true, false, ◌&&◌, ◌||◌, not, if◌then◌else◌, Text, Text-discrete, text_eq, is_blank, List,
  [], ◌∷◌, ◌++◌, any, ◌≡◌, refl, arith, same_iff, any-append, Bool-cases, inl, inr, ◌⊎◌,
}
use sintius.Problem.{
  Outcome, ok, ◌>>=◌, ◌>>◌, throw_if, invalid_trusted_context, tenant_context_mismatch,
  Outcome-cases,
}

-- A row of `inbox_record`, by its primary key.
pub record InboxRecord : Type 0 where
  pub tenant_id : Text
  pub consumer : Text
  pub event_id : Text

abbrev pub is_row : InboxRecord → InboxRecord → Bool
is_row row r =
    text_eq r.tenant_id row.tenant_id
    && text_eq r.consumer row.consumer
    && text_eq r.event_id row.event_id

-- `tryRecord`, in a transaction bound to a tenant: whether the row is new, and the table after it.
unfoldable pub try_record :
    (bound : Text) → InboxRecord → List InboxRecord → Outcome (Bool × List InboxRecord)
try_record bound row rows =
    throw_if (not (text_eq row.tenant_id bound)) tenant_context_mismatch
    >> ok (if any (is_row row) rows then (false, rows) else (true, rows ++ row ∷ []))

-- `createIdempotentConsumer` accepts the consumer's name (`CONSUMER_PATTERN`).
unfoldable pub create_consumer : Text → Outcome Text
create_consumer consumer = throw_if (not (is_scope consumer)) invalid_trusted_context >> ok consumer

-- The inbox and the consumer's own data.
pub record Inbox (U : Type 0) : Type 0 where
  pub rows : List InboxRecord
  pub own : U

module _ {U : Type 0} (consumer : Text) (handle : EventEnvelope → U → Outcome U) where
  abbrev row_of : EventEnvelope → InboxRecord
  row_of envelope = record {
    tenant_id = envelope.tenant_id;
    consumer = consumer;
    event_id = envelope.id;
  }

  -- The work of the transaction once the row was tried.
  unfoldable pub handle_new : EventEnvelope → U → Bool × List InboxRecord → Outcome (Bool × Inbox U)
  handle_new envelope own tried =
      if tried.0
      then (handle envelope own >>= λ after. ok (true, record { rows = tried.1; own = after }))
      else ok (false, record { rows = tried.1; own = own })

  -- `consume`: whether the event was processed, and the state after it.
  unfoldable pub consume : EventEnvelope → Inbox U → Outcome (Bool × Inbox U)
  unfolding handle_new try_record
  consume envelope s = do
    throw_if (is_blank envelope.id || is_blank envelope.tenant_id || is_blank envelope.event_type)
        invalid_trusted_context
    tried ← try_record envelope.tenant_id (row_of envelope) s.rows
    handle_new envelope s.own tried

  -- Deliveries one after the other.
  unfoldable pub consume_all : List EventEnvelope → Inbox U → Outcome (Inbox U)
  consume_all [] s = ok s
  consume_all (envelope ∷ envelopes) s = do done ← consume envelope s; consume_all envelopes done.1

  row-new :
      (row : InboxRecord) (rows : List InboxRecord) → any (is_row row) (rows ++ row ∷ []) ≡ true
  row-new row rows = ground (
    arith,
    any-append (is_row row) rows (row ∷ []),
    (same_iff Text-discrete row.tenant_id row.tenant_id).1 refl,
    (same_iff Text-discrete row.consumer row.consumer).1 refl,
    (same_iff Text-discrete row.event_id row.event_id).1 refl,
  )

  -- A delivery either finds its row and changes nothing, or adds it.
  consume-cases :
      (envelope : EventEnvelope) (s : Inbox U) {processed : Bool} {after : Inbox U}
      → consume envelope s ≡ ok (processed, after)
      → ((processed ≡ false) × (after ≡ s) × (any (is_row (row_of envelope)) s.rows ≡ true))
        ⊎ ((processed ≡ true)
            × (handle envelope s.own ≡ ok after.own)
            × (any (is_row (row_of envelope)) s.rows ≡ false)
            × (after.rows ≡ s.rows ++ row_of envelope ∷ []))
  unfolding consume
  consume-cases envelope s h = elim (Bool-cases (any (is_row (row_of envelope)) s.rows)) [
    | inl seen ↦ inl (ground arith, ground arith, seen)
    | inr fresh ↦ elim (Outcome-cases (handle envelope s.own)) [
      | inl (own, handled) ↦ inr (ground arith, ground arith, fresh, ground arith)
      | inr lost ↦ absurd (ground arith)
    ]
  ]

  consume-row :
      (envelope : EventEnvelope) (s : Inbox U) {processed : Bool} {after : Inbox U}
      → consume envelope s ≡ ok (processed, after)
      → any (is_row (row_of envelope)) after.rows ≡ true
  consume-row envelope s h = elim (consume-cases envelope s h) [
    | inl (no_work, same_state, seen) ↦ rw same_state seen
    | inr (worked, handled, fresh, added) ↦ rw added (row-new (row_of envelope) s.rows)
  ]

  -- A row that is there stays there.
  consume-keeps :
      (envelope : EventEnvelope) (row : InboxRecord) (s : Inbox U) {processed : Bool}
      {after : Inbox U}
      → consume envelope s ≡ ok (processed, after)
      → any (is_row row) s.rows ≡ true
      → any (is_row row) after.rows ≡ true
  consume-keeps envelope row s h there = elim (consume-cases envelope s h) [
    | inl (no_work, same_state, seen) ↦ rw same_state there
    | inr (worked, handled, fresh, added) ↦
        rw (added, any-append (is_row row) s.rows (row_of envelope ∷ []), there) refl
  ]

  rest :
      (envelope : EventEnvelope) (envelopes : List EventEnvelope) (s next : Inbox U)
      {processed : Bool} {after : Inbox U}
      → consume envelope s ≡ ok (processed, next)
      → consume_all (envelope ∷ envelopes) s ≡ ok after
      → consume_all envelopes next ≡ ok after
  unfolding consume_all
  rest envelope envelopes s next e h = ground arith

  consume_all-keeps :
      (envelopes : List EventEnvelope) (row : InboxRecord) (s : Inbox U) {after : Inbox U}
      → consume_all envelopes s ≡ ok after
      → any (is_row row) s.rows ≡ true
      → any (is_row row) after.rows ≡ true
  unfolding consume_all
  consume_all-keeps [] row s h there = ground arith
  consume_all-keeps (envelope ∷ envelopes) row s h there =
      elim (Outcome-cases (consume envelope s)) [
        | inr lost ↦ absurd (ground arith)
        | inl ((processed, next), e) ↦
            consume_all-keeps envelopes row next (rest envelope envelopes s next e h)
              (consume-keeps envelope row s e there)
      ]

  consume-seen :
      (envelope : EventEnvelope) (s : Inbox U)
      → (is_blank envelope.id || is_blank envelope.tenant_id || is_blank envelope.event_type)
        ≡ false
      → any (is_row (row_of envelope)) s.rows ≡ true
      → consume envelope s ≡ ok (false, s)
  unfolding consume
  consume-seen envelope s named there =
      let own_tenant : text_eq envelope.tenant_id envelope.tenant_id ≡ true =
        (same_iff Text-discrete envelope.tenant_id envelope.tenant_id).1 refl in
      rw (named, own_tenant, there)

  named :
      (envelope : EventEnvelope) (s : Inbox U) {processed : Bool} {after : Inbox U}
      → consume envelope s ≡ ok (processed, after)
      → (is_blank envelope.id || is_blank envelope.tenant_id || is_blank envelope.event_type)
        ≡ false
  unfolding consume
  named envelope s h = ground arith

  -- An event is processed once: after a delivery of it that returned, and whatever other deliveries
  -- follow, delivering it again changes nothing, neither the inbox nor the consumer's data.
  pub consume-consume_all :
      (envelope : EventEnvelope) (between : List EventEnvelope) (s : Inbox U) {processed : Bool}
      {first later : Inbox U}
      → consume envelope s ≡ ok (processed, first)
      → consume_all between first ≡ ok later
      → consume envelope later ≡ ok (false, later)
  consume-consume_all envelope between s {processed} {first} {later} h k =
      consume-seen envelope later (named envelope s h)
        (consume_all-keeps between (row_of envelope) first k (consume-row envelope s h))

  -- The handler runs exactly when the event is new to this consumer and tenant, and its row is added
  -- with what the handler did; if the handler throws, the delivery throws the same.
  pub consume-new :
      (envelope : EventEnvelope) (s : Inbox U)
      → (is_blank envelope.id || is_blank envelope.tenant_id || is_blank envelope.event_type)
        ≡ false
      → any (is_row (row_of envelope)) s.rows ≡ false
      → consume envelope s ≡ (
          handle envelope s.own >>= λ after.
          ok (true, record { rows = s.rows ++ row_of envelope ∷ []; own = after }))
  unfolding consume
  consume-new envelope s good fresh =
      let own_tenant : text_eq envelope.tenant_id envelope.tenant_id ≡ true =
        (same_iff Text-discrete envelope.tenant_id envelope.tenant_id).1 refl in
      rw (good, own_tenant, fresh)
