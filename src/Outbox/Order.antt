-- ===== src/Outbox/Order.antt =====
-- The order that the queue keeps in each stream (platform/outbox/src/ports.ts, the contract of
-- `leaseBatch`), through every sequence of the store's operations.
use sintius.Prelude.{
  ℕ, zero, suc, Bool, true, false, ◌&&◌, ◌||◌, not, ltb, ◌==◌, if◌then◌else◌, [], ◌∷◌, ◌++◌, map,
  any, all, ◌≡◌, refl, arith, all-append, inl, inr, Bool-cases,
}
use sintius.Time.{Instant}
use sintius.Outbox.Queue.{
  OutboxEntry, Table, Envelope, is_leased, is_finished, same_stream, LeaseRequest, is_due,
  holds_back, is_candidate, lease, lease_rows, lease_batch, update_where, appended,
}

-- The row has been handed out since it was appended or requeued.
unfoldable pub is_started : OutboxEntry → Bool
is_started r = not (r.attempts == 0) || is_leased r.status

-- The later row x may stand behind r.
unfoldable pub follows : OutboxEntry → OutboxEntry → Bool
follows r x =
    ltb r.entry_id x.entry_id
    && (not (same_stream r.envelope x.envelope) || (is_finished r.status || not (is_started x)))

unfoldable pub in_order : Table → Bool
in_order [] = true
in_order (r ∷ rows) = all (follows r) rows && in_order rows

-- A head that nothing in the table holds back is held back by none of the rows.
abbrev HoldsAll : Table → Table → Type 0
HoldsAll table rows =
    (head : OutboxEntry) → any (holds_back head) table ≡ false → any (holds_back head) rows ≡ false

module _ (table : Table) (locked : ℕ → Bool) (request : LeaseRequest) where
  lease-follows :
      (r x : OutboxEntry)
      → follows r x ≡ true
      → is_finished r.status ≡ false
      → follows (lease request r) x ≡ true
  unfolding follows is_started lease
  lease-follows r x h k = ground arith

  due-unfinished :
      (now : Instant) (r : OutboxEntry) → is_due now r ≡ true → is_finished r.status ≡ false
  unfolding is_due
  due-unfinished now r h = ground arith

  follows-lease :
      (r x : OutboxEntry)
      → follows r x ≡ true
      → holds_back x r ≡ false
      → follows r (lease request x) ≡ true
  unfolding follows holds_back lease
  follows-lease r x h k = ground arith

  all-follows-lease_rows :
      (r : OutboxEntry) (limit : ℕ) (rows : Table)
      → ((head : OutboxEntry) → any (holds_back head) table ≡ false → holds_back head r ≡ false)
      → all (follows r) rows ≡ true
      → all (follows r) (lease_rows table locked request limit rows) ≡ true
  unfolding lease_rows is_candidate
  all-follows-lease_rows r limit [] h k = refl
  all-follows-lease_rows r zero (x ∷ rows) h k = k
  all-follows-lease_rows r (suc limit) (x ∷ rows) h k = ground (
    arith,
    h x,
    follows-lease r x,
    all-follows-lease_rows r limit rows h,
    all-follows-lease_rows r (suc limit) rows h,
  )

  all-follows-lease :
      (r : OutboxEntry) (rows : Table)
      → is_finished r.status ≡ false
      → all (follows r) rows ≡ true
      → all (follows (lease request r)) rows ≡ true
  all-follows-lease r [] k h = refl
  all-follows-lease r (x ∷ rows) k h = ground (arith, lease-follows r x, all-follows-lease r rows k)

  lease_rows-in_order :
      (limit : ℕ) (rows : Table)
      → HoldsAll table rows
      → in_order rows ≡ true
      → in_order (lease_rows table locked request limit rows) ≡ true
  unfolding in_order lease_rows is_candidate
  lease_rows-in_order limit [] h k = refl
  lease_rows-in_order zero (r ∷ rows) h k = k
  lease_rows-in_order (suc limit) (r ∷ rows) h k =
      let head_free : (head : OutboxEntry)
          → any (holds_back head) table ≡ false
          → holds_back head r ≡ false =
        λ head free. ground (arith, h head free) in
      let rest_free : HoldsAll table rows = λ head free. ground (arith, h head free) in
      ground (
        arith,
        due-unfinished request.now r,
        all-follows-lease r (lease_rows table locked request limit rows),
        all-follows-lease_rows r limit rows head_free,
        all-follows-lease_rows r (suc limit) rows head_free,
        lease_rows-in_order limit rows rest_free,
        lease_rows-in_order (suc limit) rows rest_free,
      )

pub lease_batch-in_order :
    (locked : ℕ → Bool) (request : LeaseRequest) (table : Table)
    → in_order table ≡ true
    → in_order ((lease_batch locked request table).1) ≡ true
unfolding lease_batch
lease_batch-in_order locked request table h =
    lease_rows-in_order table locked request request.limit table (λ head free. free) h

-- The change keeps the row's place, finishes no less and starts nothing.
unfoldable pub Harmless : OutboxEntry → OutboxEntry → Type 0
Harmless r s =
    (r.entry_id ≡ s.entry_id)
    × (r.envelope ≡ s.envelope)
    × (is_finished r.status ≡ true → is_finished s.status ≡ true)
    × (is_started r ≡ false → is_started s ≡ false)

follows-Harmless :
    (r s x y : OutboxEntry) → Harmless r s → Harmless x y → follows r x ≡ true → follows s y ≡ true
unfolding follows Harmless
follows-Harmless r s x y h k f = ground arith

module _ (test : OutboxEntry → Bool) (f : OutboxEntry → OutboxEntry)
    (harmless : (r : OutboxEntry) → test r ≡ true → Harmless r (f r)) where
  change : OutboxEntry → OutboxEntry
  change r = if test r then f r else r

  change-Harmless : (r : OutboxEntry) → Harmless r (change r)
  unfolding change Harmless
  change-Harmless r = elim (Bool-cases (test r)) [
    | inl e ↦ ground (arith, harmless r e)
    | inr e ↦ ground arith
  ]

  all-follows-change :
      (r : OutboxEntry) (rows : Table)
      → all (follows r) rows ≡ true
      → all (follows (change r)) (map change rows) ≡ true
  all-follows-change r [] h = refl
  all-follows-change r (x ∷ rows) h = ground (
    arith,
    follows-Harmless r (change r) x (change x) (change-Harmless r) (change-Harmless x),
    all-follows-change r rows,
  )

  pub update_where-in_order :
      (rows : Table) → in_order rows ≡ true → in_order (update_where test f rows) ≡ true
  unfolding in_order update_where change
  update_where-in_order [] h = refl
  update_where-in_order (r ∷ rows) h =
      ground (arith, all-follows-change r rows, update_where-in_order rows)

pub append-in_order :
    (entry_id : ℕ) (envelope : Envelope) (now : Instant) (rows : Table)
    → all (λ r. ltb r.entry_id entry_id) rows ≡ true
    → in_order rows ≡ true
    → in_order (rows ++ appended entry_id envelope now ∷ []) ≡ true
unfolding in_order appended follows is_started
append-in_order entry_id envelope now [] h k = refl
append-in_order entry_id envelope now (r ∷ rows) h k = ground (
  arith,
  all-append (follows r) rows (appended entry_id envelope now ∷ []),
  append-in_order entry_id envelope now rows,
)
