-- ===== src/Outbox/Queue.antt =====
-- The queue table and the operations of `PostgresOutboxStore`
-- (platform/outbox/infrastructure/postgres/store.ts, under the contract of platform/outbox/src/ports.ts).
-- A table is the list of its rows in the order of `entry_id`; for a delivery queue it holds the rows
-- of the one consumer. Each operation is one SQL statement, so it is one step.
use sintius.Prelude.Slices.{take}
use sintius.Prelude.{
  ℕ, zero, suc, ◌+◌, ◌*◌, Bool, true, false, ◌&&◌, not, ◌==◌, leb, ltb, if◌then◌else◌, Option, none,
  some, List, [], ◌∷◌, map, any, count_by, find?, Text, text_eq,
}
use sintius.Time.{Instant}

pub data OutboxStatus : Type 0 where
  pending leased published dead skipped : OutboxStatus

pub data DeadLetterAction : Type 0 where
  requeue skip : DeadLetterAction

pub record DeadLetterResolution : Type 0 where
  pub action : DeadLetterAction
  pub operator_id : Text
  pub reason : Text
  pub resolved_at : Instant

-- The parts of the stored envelope that the queue reads.
pub record Envelope : Type 0 where
  pub id : Text
  pub event_type : Text
  pub tenant_id : Text
  pub aggregate_type : Text
  pub aggregate_id : Text

pub record OutboxEntry : Type 0 where
  pub entry_id : ℕ
  pub envelope : Envelope
  pub status : OutboxStatus
  pub attempts : ℕ
  pub next_attempt_at : Instant
  pub appended_at : Instant
  pub leased_by : Option Text
  pub lease_expires_at : Option Instant
  pub last_error : Option Text
  pub published_at : Option Instant
  pub resolution : Option DeadLetterResolution

abbrev pub Table : Type 0
Table = List OutboxEntry

abbrev pub is_leased : OutboxStatus → Bool
is_leased leased = true
is_leased _ = false

abbrev pub is_dead : OutboxStatus → Bool
is_dead dead = true
is_dead _ = false

-- `status IN (done, 'skipped')`
abbrev pub is_finished : OutboxStatus → Bool
is_finished published = true
is_finished skipped = true
is_finished _ = false

-- A comparison with a column that may be NULL does not hold.
abbrev pub at_most : Option Instant → Instant → Bool
at_most none now = false
at_most (some t) now = leb t now

abbrev pub held_by : Option Text → Text → Bool
held_by none worker = false
held_by (some w) worker = text_eq w worker

-- The ordering scope: tenant, aggregate type and aggregate id.
unfoldable pub same_stream : Envelope → Envelope → Bool
same_stream a b =
    text_eq a.tenant_id b.tenant_id
    && text_eq a.aggregate_type b.aggregate_type
    && text_eq a.aggregate_id b.aggregate_id

pub record LeaseRequest : Type 0 where
  pub worker_id : Text
  pub now : Instant
  pub lease_seconds : ℕ
  pub limit : ℕ

-- The first conjunct of the candidates' WHERE clause.
unfoldable pub is_due : Instant → OutboxEntry → Bool
is_due now head = elim head.status [
  | pending ↦ leb head.next_attempt_at now
  | leased ↦ at_most head.lease_expires_at now
  | _ ↦ false
]

-- `earlier` holds the head back.
unfoldable pub holds_back : OutboxEntry → OutboxEntry → Bool
holds_back head earlier =
    same_stream earlier.envelope head.envelope
    && ltb earlier.entry_id head.entry_id
    && not (is_finished earlier.status)

-- A candidate of `leaseBatch`. `locked` tells the rows that concurrent statements hold, which
-- SKIP LOCKED passes over.
unfoldable pub is_candidate : Table → (ℕ → Bool) → LeaseRequest → OutboxEntry → Bool
is_candidate table locked request head =
    is_due request.now head && not (any (holds_back head) table) && not (locked head.entry_id)

-- The SET clause of `leaseBatch`.
unfoldable pub lease : LeaseRequest → OutboxEntry → OutboxEntry
lease request entry = record entry {
  status = leased;
  attempts = entry.attempts + 1;
  leased_by = some request.worker_id;
  lease_expires_at = some (request.now + request.lease_seconds * 1000);
}

module _ (table : Table) (locked : ℕ → Bool) (request : LeaseRequest) where
  -- The rows after the statement: the first `limit` candidates are leased.
  unfoldable pub lease_rows : ℕ → Table → Table
  lease_rows limit [] = []
  lease_rows zero (r ∷ rows) = r ∷ rows
  lease_rows (suc limit) (r ∷ rows) =
      let candidate = is_candidate table locked request r in
      (if candidate then lease request r else r)
      ∷ lease_rows (if candidate then limit else suc limit) rows

  -- The rows that the statement returns.
  unfoldable pub granted : ℕ → Table → List OutboxEntry
  granted limit [] = []
  granted zero (r ∷ rows) = []
  granted (suc limit) (r ∷ rows) =
      let candidate = is_candidate table locked request r in
      let rest = granted (if candidate then limit else suc limit) rows in
      if candidate then lease request r ∷ rest else rest

-- `leaseBatch`
unfoldable pub lease_batch : (ℕ → Bool) → LeaseRequest → Table → List OutboxEntry × Table
lease_batch locked request table = (
  granted table locked request request.limit table,
  lease_rows table locked request request.limit table,
)

-- An UPDATE with its WHERE clause, and whether it met exactly one row.
unfoldable pub update_where : (OutboxEntry → Bool) → (OutboxEntry → OutboxEntry) → Table → Table
update_where test f = map (λ r. if test r then f r else r)

abbrev pub met_one : (OutboxEntry → Bool) → Table → Bool
met_one test table = count_by test table == 1

-- `entry_id = $1 AND status = 'leased' AND leased_by = $2`
unfoldable pub is_held : ℕ → Text → OutboxEntry → Bool
is_held entry_id worker_id r =
    r.entry_id == entry_id && is_leased r.status && held_by r.leased_by worker_id

-- The SET clause of `markPublished`.
unfoldable pub publish_row : Instant → OutboxEntry → OutboxEntry
publish_row now r = record r {
  status = published;
  published_at = some now;
  leased_by = none;
  lease_expires_at = none;
}

-- `markPublished`
unfoldable pub mark_published : ℕ → Text → Instant → Table → Bool × Table
mark_published entry_id worker_id now table = (
  met_one (is_held entry_id worker_id) table,
  update_where (is_held entry_id worker_id) (publish_row now) table,
)

-- `MAX_ERROR_LENGTH`
abbrev pub max_error_length : ℕ
max_error_length = 2000

-- The SET clause of `recordFailure`, with the error cut to its stored length: dead without a time for a retry.
unfoldable pub fail_row : Text → Option Instant → OutboxEntry → OutboxEntry
fail_row error none r = record r {
  status = dead;
  leased_by = none;
  lease_expires_at = none;
  last_error = some (take max_error_length error);
}
fail_row error (some retry_at) r = record r {
  status = pending;
  next_attempt_at = retry_at;
  leased_by = none;
  lease_expires_at = none;
  last_error = some (take max_error_length error);
}

-- `recordFailure`
unfoldable pub record_failure : ℕ → Text → Text → Option Instant → Table → Bool × Table
record_failure entry_id worker_id error retry_at table = (
  met_one (is_held entry_id worker_id) table,
  update_where (is_held entry_id worker_id) (fail_row error retry_at) table,
)

-- `entry_id = $1 AND status = 'dead'`
unfoldable pub is_dead_letter : ℕ → OutboxEntry → Bool
is_dead_letter entry_id r = r.entry_id == entry_id && is_dead r.status

-- The SET clause of `resolveDeadLetterWith`.
unfoldable pub resolve_row : DeadLetterResolution → OutboxEntry → OutboxEntry
resolve_row resolution r = elim resolution.action [
  | skip ↦ record r { status = skipped; resolution = some resolution }
  | requeue ↦ record r {
    status = pending;
    attempts = 0;
    next_attempt_at = resolution.resolved_at;
    resolution = some resolution;
  }
]

-- `resolveDeadLetterWith`: the entry that was resolved, if one was.
unfoldable pub resolve_dead_letter : ℕ → DeadLetterResolution → Table → Option OutboxEntry × Table
resolve_dead_letter entry_id resolution table = (
  if met_one (is_dead_letter entry_id) table then find? (is_dead_letter entry_id) table else none,
  update_where (is_dead_letter entry_id) (resolve_row resolution) table,
)

-- The row that `append` inserts, under the next number of the sequence.
unfoldable pub appended : ℕ → Envelope → Instant → OutboxEntry
appended entry_id envelope now = record {
  entry_id = entry_id;
  envelope = envelope;
  status = pending;
  attempts = 0;
  next_attempt_at = now;
  appended_at = now;
  leased_by = none;
  lease_expires_at = none;
  last_error = none;
  published_at = none;
  resolution = none;
}
