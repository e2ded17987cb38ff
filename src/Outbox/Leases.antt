-- ===== src/Outbox/Leases.antt =====
-- What a lease gives to the worker that holds it, and to no other
-- (platform/outbox/infrastructure/postgres/store.ts).
use sintius.Prelude.{
  ℕ, zero, suc, ◌≤◌, Bool, true, false, ltb, ◌==◌, Option, some, [], ◌∷◌, any, all, count_by,
  length, get_elem?, Text, text_eq, ◌≡◌, refl, arith, ◌||◌, not, leb, ◌⊎◌, inl, inr, Bool-cases,
}
use sintius.Time.{Instant}
use sintius.Outbox.Queue.{
  pending, leased, is_due, is_finished, same_stream, holds_back, OutboxEntry, Table, LeaseRequest,
  is_candidate, lease, granted, lease_rows, lease_batch, update_where, is_held, publish_row,
  fail_row, mark_published, record_failure,
}
use sintius.Outbox.Order.{follows, in_order}

abbrev pub has_id : ℕ → OutboxEntry → Bool
has_id entry_id r = r.entry_id == entry_id

update_where-none :
    (test : OutboxEntry → Bool) (f : OutboxEntry → OutboxEntry) (rows : Table)
    → any test rows ≡ false
    → update_where test f rows ≡ rows
unfolding update_where
update_where-none test f [] h = refl
update_where-none test f (r ∷ rows) h = ground (arith, update_where-none test f rows)

pub count_by-none :
    (test : OutboxEntry → Bool) (rows : Table) → any test rows ≡ false → count_by test rows ≡ 0
count_by-none test [] h = refl
count_by-none test (r ∷ rows) h = ground (arith, count_by-none test rows)

-- A worker that holds no lease on the entry changes nothing by reporting a success or a failure,
-- and is told so.
pub unheld_unchanged :
    (table : Table) (entry_id : ℕ) (worker error : Text) (now : Instant) (retry_at : Option Instant)
    → any (is_held entry_id worker) table ≡ false
    → (mark_published entry_id worker now table ≡ (false, table))
      × (record_failure entry_id worker error retry_at table ≡ (false, table))
unfolding mark_published record_failure
unheld_unchanged table entry_id worker error now retry_at h = (
  ground (
    arith,
    count_by-none (is_held entry_id worker) table h,
    update_where-none (is_held entry_id worker) (publish_row now) table h,
  ),
  ground (
    arith,
    count_by-none (is_held entry_id worker) table h,
    update_where-none (is_held entry_id worker) (fail_row error retry_at) table h,
  ),
)

module _ (table : Table) (locked : ℕ → Bool) (request : LeaseRequest) where
  length-granted :
      (limit : ℕ) (rows : Table) → length (granted table locked request limit rows) ≤ limit
  unfolding granted
  length-granted limit [] = omega arith
  length-granted zero (r ∷ rows) = omega arith
  length-granted (suc limit) (r ∷ rows) =
      ground (arith, length-granted limit rows, length-granted (suc limit) rows)

  -- Every number above k stays above k.
  above-lease_rows :
      (k limit : ℕ) (rows : Table)
      → all (λ r. ltb k r.entry_id) rows ≡ true
      → any (has_id k) (granted table locked request limit rows) ≡ false
  unfolding granted lease
  above-lease_rows k limit [] h = refl
  above-lease_rows k zero (r ∷ rows) h = refl
  above-lease_rows k (suc limit) (r ∷ rows) h =
      ground (arith, above-lease_rows k limit rows, above-lease_rows k (suc limit) rows)

  above-unheld :
      (k : ℕ) (worker : Text) (rows : Table)
      → all (λ r. ltb k r.entry_id) rows ≡ true
      → any (is_held k worker) rows ≡ false
  unfolding is_held
  above-unheld k worker [] h = refl
  above-unheld k worker (r ∷ rows) h = ground (arith, above-unheld k worker rows)

  not_held-lease_rows :
      (k : ℕ) (worker : Text) (limit : ℕ) (rows : Table)
      → all (λ r. ltb k r.entry_id) rows ≡ true
      → any (is_held k worker) (lease_rows table locked request limit rows) ≡ false
  unfolding lease_rows lease is_held
  not_held-lease_rows k worker limit [] h = refl
  not_held-lease_rows k worker zero (r ∷ rows) h = above-unheld k worker (r ∷ rows) h
  not_held-lease_rows k worker (suc limit) (r ∷ rows) h = ground (
    arith,
    not_held-lease_rows k worker limit rows,
    not_held-lease_rows k worker (suc limit) rows,
  )

  all-above :
      (r : OutboxEntry) (rows : Table)
      → all (follows r) rows ≡ true
      → all (λ x. ltb r.entry_id x.entry_id) rows ≡ true
  unfolding follows
  all-above r [] h = refl
  all-above r (x ∷ rows) h = ground (arith, all-above r rows)

  fenced-lease_rows :
      (k : ℕ) (other : Text) (limit : ℕ) (rows : Table)
      → in_order rows ≡ true
      → text_eq request.worker_id other ≡ false
      → any (has_id k) (granted table locked request limit rows) ≡ true
      → any (is_held k other) (lease_rows table locked request limit rows) ≡ false
  unfolding lease_rows granted lease is_held in_order
  fenced-lease_rows k other limit [] h w g = refl
  fenced-lease_rows k other zero (r ∷ rows) h w g = cc
  fenced-lease_rows k other (suc limit) (r ∷ rows) h w g = ground (
    arith,
    all-above r rows,
    not_held-lease_rows r.entry_id other limit rows,
    above-lease_rows r.entry_id limit rows,
    above-lease_rows r.entry_id (suc limit) rows,
    fenced-lease_rows k other limit rows,
    fenced-lease_rows k other (suc limit) rows,
  )

  -- A candidate is granted, or the batch is full.
  candidate-granted :
      (limit : ℕ) (rows : Table) (i : ℕ) (head : OutboxEntry)
      → get_elem? rows i ≡ some head
      → is_candidate table locked request head ≡ true
      → (any (has_id head.entry_id) (granted table locked request limit rows) ≡ true)
        ⊎ (length (granted table locked request limit rows) ≡ limit)
  unfolding granted lease
  candidate-granted limit [] i head h c = cc
  candidate-granted zero (r ∷ rows) i head h c = inr refl
  candidate-granted (suc limit) (r ∷ rows) zero head h c = inl (ground arith)
  candidate-granted (suc limit) (r ∷ rows) (suc i) head h c =
      elim (Bool-cases (is_candidate table locked request r)) [
        | inl e ↦ elim (candidate-granted limit rows i head h c) [
          | inl there ↦ inl (rw e (ground arith))
          | inr full ↦ inr (rw e (ground arith))
        ]
        | inr e ↦ elim (candidate-granted (suc limit) rows i head h c) [
          | inl there ↦ inl (rw e there)
          | inr full ↦ inr (rw e full)
        ]
      ]

-- A row whose time has come: it waits and its next attempt is due, or the lease on it has run out.
pub data Due (now : Instant) (head : OutboxEntry) : Type 0 where
  waiting : head.status ≡ pending → head.next_attempt_at ≤ now → Due now head
  lapsed :
      (t : Instant) → head.status ≡ leased → head.lease_expires_at ≡ some t → t ≤ now → Due now head

Due-is_due : (now : Instant) (head : OutboxEntry) → Due now head → is_due now head ≡ true
unfolding is_due
Due-is_due now head (waiting s h) = rw s (ground arith)
Due-is_due now head (lapsed t s e h) = rw (s, e) (ground arith)

-- Whether `earlier` is no obstacle to `head`: it is published or skipped, of another stream, or not
-- before it.
abbrev pub makes_way : OutboxEntry → OutboxEntry → Bool
makes_way head earlier =
    is_finished earlier.status
    || not (same_stream earlier.envelope head.envelope)
    || leb head.entry_id earlier.entry_id

makes_way-holds_back :
    (head : OutboxEntry) (rows : Table)
    → all (makes_way head) rows ≡ true
    → any (holds_back head) rows ≡ false
unfolding holds_back
makes_way-holds_back head [] h = refl
makes_way-holds_back head (r ∷ rows) h = ground (arith, makes_way-holds_back head rows)

-- A lease grants every row whose time has come, also one whose lease has run out, that no unfinished
-- earlier row of its stream precedes and that no other statement has locked, unless the batch is
-- full; and it grants no more rows than the limit.
pub lease_batch-grants :
    (locked : ℕ → Bool) (request : LeaseRequest) (table : Table) (i : ℕ) (head : OutboxEntry)
    → get_elem? table i ≡ some head
    → Due request.now head
    → all (makes_way head) table ≡ true
    → locked head.entry_id ≡ false
    → (length (lease_batch locked request table).0 ≤ request.limit)
      × ((any (has_id head.entry_id) (lease_batch locked request table).0 ≡ true)
          ⊎ (length (lease_batch locked request table).0 ≡ request.limit))
unfolding lease_batch is_candidate
lease_batch-grants locked request table i head at due free unlocked =
    let timely = Due-is_due request.now head due in
    let unblocked = makes_way-holds_back head table free in
    (
      length-granted table locked request request.limit table,
      candidate-granted table locked request request.limit table i head at
          (rw (timely, unblocked, unlocked) refl),
    )

-- After a lease on an ordered table, no other worker can report on an entry that was granted: its
-- success or failure report changes nothing and returns false.
pub lease_batch-fences :
    (locked : ℕ → Bool) (request : LeaseRequest) (table : Table) (entry_id : ℕ) (other error : Text)
    (now : Instant) (retry_at : Option Instant)
    → in_order table ≡ true
    → any (has_id entry_id) (lease_batch locked request table).0 ≡ true
    → text_eq request.worker_id other ≡ false
    → (mark_published entry_id other now (lease_batch locked request table).1
        ≡ (false, (lease_batch locked request table).1))
      × (record_failure entry_id other error retry_at (lease_batch locked request table).1
          ≡ (false, (lease_batch locked request table).1))
unfolding lease_batch
lease_batch-fences locked request table entry_id other error now retry_at h g w =
    unheld_unchanged (lease_rows table locked request request.limit table) entry_id other error now
      retry_at (fenced-lease_rows table locked request entry_id other request.limit table h w g)
