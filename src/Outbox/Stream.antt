-- ===== src/Outbox/Stream.antt =====
-- The reachable queue tables, and what the order of a stream gives to the consumers of its events.
use sintius.Prelude.{
  ℕ, zero, suc, ◌<◌, Bool, true, ltb, Option, none, some, [], ◌∷◌, ◌++◌, all, get_elem?, Text, ◌≡◌,
  refl, arith,
}
use sintius.Time.{Instant}
use sintius.Outbox.Queue.{
  OutboxEntry, Table, Envelope, is_leased, is_finished, same_stream, LeaseRequest, lease_batch,
  is_held, publish_row, mark_published, fail_row, record_failure, is_dead_letter,
  DeadLetterResolution, resolve_row, resolve_dead_letter, appended,
}
use sintius.Outbox.Order.{
  is_started, follows, in_order, Harmless, lease_batch-in_order, update_where-in_order,
  append-in_order,
}

-- One statement on the table: a lease under any set of locked rows, an outcome that any worker
-- reports, an operator's resolution, or an append under the next number of the sequence.
pub data Step : Table → Table → Type 0 where
  leases :
      (table : Table) (locked : ℕ → Bool) (request : LeaseRequest)
      → Step table ((lease_batch locked request table).1)
  publishes :
      (table : Table) (entry_id : ℕ) (worker : Text) (now : Instant)
      → Step table ((mark_published entry_id worker now table).1)
  fails :
      (table : Table) (entry_id : ℕ) (worker error : Text) (retry_at : Option Instant)
      → Step table ((record_failure entry_id worker error retry_at table).1)
  resolves :
      (table : Table) (entry_id : ℕ) (resolution : DeadLetterResolution)
      → Step table ((resolve_dead_letter entry_id resolution table).1)
  appends :
      (table : Table) (entry_id : ℕ) (envelope : Envelope) (now : Instant)
      → all (λ (r : OutboxEntry). ltb r.entry_id entry_id) table ≡ true
      → Step table (table ++ appended entry_id envelope now ∷ [])

pub data Reachable : Table → Type 0 where
  empty : Reachable []
  after : (before table : Table) → Reachable before → Step before table → Reachable table

publish-Harmless :
    (entry_id : ℕ) (worker : Text) (now : Instant) (r : OutboxEntry)
    → is_held entry_id worker r ≡ true
    → Harmless r (publish_row now r)
unfolding is_held publish_row Harmless is_started
publish-Harmless entry_id worker now r h = ground arith

fail-Harmless :
    (entry_id : ℕ) (worker error : Text) (retry_at : Option Instant) (r : OutboxEntry)
    → is_held entry_id worker r ≡ true
    → Harmless r (fail_row error retry_at r)
unfolding is_held fail_row Harmless is_started
fail-Harmless entry_id worker error none r h = ground arith
fail-Harmless entry_id worker error (some t) r h = ground arith

resolve-Harmless :
    (entry_id : ℕ) (resolution : DeadLetterResolution) (r : OutboxEntry)
    → is_dead_letter entry_id r ≡ true
    → Harmless r (resolve_row resolution r)
unfolding is_dead_letter resolve_row Harmless is_started
resolve-Harmless entry_id resolution r h = ground arith

Step-in_order : (s t : Table) → Step s t → in_order s ≡ true → in_order t ≡ true
unfolding mark_published record_failure resolve_dead_letter
Step-in_order s t (leases table locked request) h = lease_batch-in_order locked request table h
Step-in_order s t (publishes table i w now) h =
    update_where-in_order (is_held i w) (publish_row now) (publish-Harmless i w now) table h
Step-in_order s t (fails table i w e at) h =
    update_where-in_order (is_held i w) (fail_row e at) (fail-Harmless i w e at) table h
Step-in_order s t (resolves table i resolution) h =
    update_where-in_order (is_dead_letter i) (resolve_row resolution)
      (resolve-Harmless i resolution) table h
Step-in_order s t (appends table i envelope now fresh) h =
    append-in_order i envelope now table fresh h

-- Every reachable table is in order: the numbers ascend, and a row whose stream has an earlier
-- row that is neither published nor skipped is not leased and has no attempt on its count.
pub Reachable-in_order : (table : Table) → Reachable table → in_order table ≡ true
unfolding in_order
Reachable-in_order table empty = refl
Reachable-in_order table (after before t h step) =
    Step-in_order before table step (Reachable-in_order before h)

all-get :
    (p : OutboxEntry → Bool) (rows : Table) (i : ℕ) (x : OutboxEntry)
    → all p rows ≡ true
    → get_elem? rows i ≡ some x
    → p x ≡ true
all-get p [] i x h k = cc
all-get p (r ∷ rows) zero x h k = ground arith
all-get p (r ∷ rows) (suc i) x h k = ground (arith, all-get p rows i x)

pub in_order-follows :
    (rows : Table) (i j : ℕ) (r x : OutboxEntry)
    → in_order rows ≡ true
    → i < j
    → get_elem? rows i ≡ some r
    → get_elem? rows j ≡ some x
    → follows r x ≡ true
unfolding in_order
in_order-follows [] i j r x h lt a b = cc
in_order-follows (y ∷ rows) i zero r x h lt a b = ground (arith, lt)
in_order-follows (y ∷ rows) zero (suc j) r x h lt a b = ground (arith, all-get (follows y) rows j x)
in_order-follows (y ∷ rows) (suc i) (suc j) r x h lt a b =
    ground (arith, in_order-follows rows i j r x)

-- In a reachable table, when a row is leased, every earlier row of its stream is published or
-- skipped.
pub leased-alone :
    (table : Table) (i j : ℕ) (r x : OutboxEntry)
    → Reachable table
    → i < j
    → get_elem? table i ≡ some r
    → get_elem? table j ≡ some x
    → same_stream r.envelope x.envelope ≡ true
    → is_leased x.status ≡ true
    → is_finished r.status ≡ true
unfolding follows is_started
leased-alone table i j r x h lt a b stream l =
    ground (arith, in_order-follows table i j r x (Reachable-in_order table h) lt a b)
