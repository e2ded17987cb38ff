-- ===== src/Outbox/Dispatcher.antt =====
-- One dispatch pass: lease, publish, then mark (platform/outbox/src/dispatcher.ts). The publisher, the
-- clock and what other workers do to the table between two statements are parameters. Instants are
-- taken inside the range of Date; the text of a publisher's error is what `safeError` makes of it.
use sintius.Prelude.{
  ℕ, suc, ◌+◌, ◌-◌, ◌*◌, ◌^◌, min, Bool, ltb, leb, if◌then◌else◌, Option, none, some, List, [], ◌∷◌,
  length, Text,
}
use sintius.Time.{Instant}
use sintius.Outbox.Queue.{
  Envelope, OutboxEntry, Table, LeaseRequest, lease_batch, mark_published, record_failure,
}

pub record DispatchReport : Type 0 where
  pub leased : ℕ
  pub published : ℕ
  pub retried : ℕ
  pub dead_lettered : ℕ
  pub lease_lost : ℕ

pub record Dispatcher : Type 0 where
  pub worker_id : Text
  pub lease_seconds : ℕ
  pub batch_size : ℕ
  pub max_attempts : ℕ
  pub retry_delay_seconds : ℕ → ℕ

-- 5, 10, 20 ... seconds, capped at 15 minutes; `2 ** n` of a double is exact or above the cap.
unfoldable pub default_retry_delay_seconds : ℕ → ℕ
default_retry_delay_seconds failed_attempt = min (5 * 2 ^ (failed_attempt - 1)) 900

-- What the dispatcher calls, by the position of the entry in the batch: the publisher's answer (an
-- error's text when it throws), the time of the report, the changes to the table before the report
-- is stored, and, for the lease, its time and the rows that other statements lock.
pub record Surroundings : Type 0 where
  pub publish : ℕ → Envelope → Option Text
  pub clock : ℕ → Instant
  pub meanwhile : ℕ → Table → Table
  pub lease_now : Instant
  pub locked : ℕ → Bool
  pub exceeded : Text

pub data Outcome : Type 0 where
  delivered put_back buried lost : Outcome

unfoldable pub tally : Outcome → DispatchReport → DispatchReport
tally delivered r = record r { published = r.published + 1 }
tally put_back r = record r { retried = r.retried + 1 }
tally buried r = record r { dead_lettered = r.dead_lettered + 1 }
tally lost r = record r { lease_lost = r.lease_lost + 1 }

module _ (d : Dispatcher) (s : Surroundings) where
  -- The time of the next attempt, unless the attempts are used up.
  unfoldable pub retry_at : ℕ → Instant → Option Instant
  retry_at attempts now =
      if leb d.max_attempts attempts
      then none
      else some (now + d.retry_delay_seconds attempts * 1000)

  -- The body of the loop for one entry: its outcome and the table after its report.
  unfoldable pub dispatch_entry : ℕ → OutboxEntry → Table → Outcome × Table
  dispatch_entry i entry before =
      let table = s.meanwhile i before in
      if ltb d.max_attempts entry.attempts
      then (let stored = record_failure entry.entry_id d.worker_id s.exceeded none table in
          (if stored.0 then buried else lost, stored.1))
      else elim (s.publish i entry.envelope) [
        | none ↦
            let stored = mark_published entry.entry_id d.worker_id (s.clock i) table in
            (if stored.0 then delivered else lost, stored.1)
        | some error ↦
            let stored =
              record_failure entry.entry_id d.worker_id error (retry_at entry.attempts (s.clock i))
                table in
            (
              if stored.0
                  then (if leb d.max_attempts entry.attempts then buried else put_back)
                  else lost,
              stored.1,
            )
      ]

  unfoldable pub dispatch_entries :
      ℕ → List OutboxEntry → DispatchReport → Table → DispatchReport × Table
  dispatch_entries i [] report table = (report, table)
  dispatch_entries i (entry ∷ entries) report table =
      let done = dispatch_entry i entry table in
      dispatch_entries (suc i) entries (tally done.0 report) done.1

  unfoldable pub lease_request : LeaseRequest
  lease_request = record {
    worker_id = d.worker_id;
    now = s.lease_now;
    lease_seconds = d.lease_seconds;
    limit = d.batch_size;
  }

  -- The counters at the start of the loop.
  unfoldable pub no_outcomes : ℕ → DispatchReport
  no_outcomes leased = record {
    leased = leased;
    published = 0;
    retried = 0;
    dead_lettered = 0;
    lease_lost = 0;
  }

  -- `runOnce`
  unfoldable pub run_once : Table → DispatchReport × Table
  run_once table =
      let batch = lease_batch s.locked lease_request table in
      dispatch_entries 0 batch.0 (no_outcomes (length batch.0)) batch.1
