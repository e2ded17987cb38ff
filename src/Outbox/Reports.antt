-- ===== src/Outbox/Reports.antt =====
-- What one entry's row is after its report (platform/outbox/src/dispatcher.ts on
-- platform/outbox/infrastructure/postgres/store.ts).
use sintius.Outbox.Dispatcher.{
  Dispatcher, Surroundings, Outcome, delivered, put_back, buried, retry_at, dispatch_entry,
}
use sintius.Outbox.Leases.{count_by-none}
use sintius.Outbox.Order.{follows, in_order}
use sintius.Outbox.Queue.{
  OutboxEntry, Table, pending, published, dead, is_held, publish_row, fail_row, update_where,
  mark_published, record_failure,
}
use sintius.Outbox.Stream.{in_order-follows}
use sintius.Prelude.Slices.{take}
use sintius.Prelude.{
  ℕ, zero, suc, ◌+◌, ◌*◌, ◌<◌, ◌≤◌, Bool, true, false, ltb, leb, none, some, [], ◌∷◌, count_by, any,
  all, get_elem?, Text, ◌≡◌, refl, arith, Bool-cases, Option-cases, inl, inr,
}

module _ (d : Dispatcher) (s : Surroundings) where
  -- The row that a worker held, after the entry's report: published where the publisher took it; due
  -- again after the delay where it threw and attempts are left; else dead.
  pub data Reported (k : ℕ) (entry row : OutboxEntry) : Outcome → OutboxEntry → Type 0 where
    success :
        entry.attempts ≤ d.max_attempts
        → s.publish k entry.envelope ≡ none
        → Reported k entry row delivered (record row {
          status = published;
          published_at = some (s.clock k);
          leased_by = none;
          lease_expires_at = none;
        })
    retry :
        {error : Text}
        → entry.attempts < d.max_attempts
        → s.publish k entry.envelope ≡ some error
        → Reported k entry row put_back (record row {
          status = pending;
          next_attempt_at = s.clock k + d.retry_delay_seconds entry.attempts * 1000;
          leased_by = none;
          lease_expires_at = none;
          last_error = some (take 2000 error);
        })
    exhausted :
        {error : Text}
        → entry.attempts ≡ d.max_attempts
        → s.publish k entry.envelope ≡ some error
        → Reported k entry row buried (record row {
          status = dead;
          leased_by = none;
          lease_expires_at = none;
          last_error = some (take 2000 error);
        })
    exceeded :
        d.max_attempts < entry.attempts
        → Reported k entry row buried (record row {
          status = dead;
          leased_by = none;
          lease_expires_at = none;
          last_error = some (take 2000 s.exceeded);
        })

  held-id : (i : ℕ) (w : Text) (r : OutboxEntry) → is_held i w r ≡ true → r.entry_id ≡ i
  unfolding is_held
  held-id i w r h = ground arith

  unheld_before :
      (i : ℕ) (w : Text) (y r : OutboxEntry)
      → follows y r ≡ true
      → r.entry_id ≡ i
      → is_held i w y ≡ false
  unfolding is_held follows
  unheld_before i w y r f e = ground arith

  unheld_later :
      (i : ℕ) (w : Text) (r x : OutboxEntry)
      → follows r x ≡ true
      → r.entry_id ≡ i
      → is_held i w x ≡ false
  unfolding is_held follows
  unheld_later i w r x f e = ground arith

  unheld_after :
      (i : ℕ) (w : Text) (r : OutboxEntry) (rows : Table)
      → all (follows r) rows ≡ true
      → r.entry_id ≡ i
      → any (is_held i w) rows ≡ false
  unheld_after i w r [] f e = refl
  unheld_after i w r (x ∷ rows) f e =
      let later = unheld_after i w r rows (ground arith) e in
      let this : is_held i w x ≡ false = unheld_later i w r x (ground arith) e in ground arith

  tail_in_order :
      (y : OutboxEntry) (rows : Table) → in_order (y ∷ rows) ≡ true → in_order rows ≡ true
  unfolding in_order
  tail_in_order y rows h = ground arith

  head_in_order :
      (y : OutboxEntry) (rows : Table) → in_order (y ∷ rows) ≡ true → all (follows y) rows ≡ true
  unfolding in_order
  head_in_order y rows h = ground arith

  -- The numbers ascend, so one row at most is held under a number.
  held-once :
      (i : ℕ) (w : Text) (rows : Table) (j : ℕ) (r : OutboxEntry)
      → in_order rows ≡ true
      → get_elem? rows j ≡ some r
      → is_held i w r ≡ true
      → count_by (is_held i w) rows ≡ 1
  held-once i w [] j r h g k = cc
  held-once i w (y ∷ rows) zero r h g k =
      let same_row : y ≡ r = cc g in
      let held : is_held i w y ≡ true = rw same_row k in
      let others =
        count_by-none (is_held i w) rows
          (unheld_after i w y rows (head_in_order y rows h) (held-id i w y held)) in
      ground arith
  held-once i w (y ∷ rows) (suc j) r h g k =
      let first =
        unheld_before i w y r (in_order-follows (y ∷ rows) 0 (suc j) y r h (omega arith) refl g)
          (held-id i w r k) in
      let others = held-once i w rows j r (tail_in_order y rows h) g k in ground arith

  updated :
      (test : OutboxEntry → Bool) (f : OutboxEntry → OutboxEntry) (rows : Table) (j : ℕ)
      (r : OutboxEntry)
      → get_elem? rows j ≡ some r
      → test r ≡ true
      → get_elem? (update_where test f rows) j ≡ some (f r)
  unfolding update_where
  updated test f [] j r g k = cc
  updated test f (y ∷ rows) zero r g k = ground arith
  updated test f (y ∷ rows) (suc j) r g k = updated test f rows j r g k

  module _ (k : ℕ) (entry : OutboxEntry) (before : Table)
      (once : count_by (is_held entry.entry_id d.worker_id) (s.meanwhile k before) ≡ 1) where
    report_exceeded :
        ltb d.max_attempts entry.attempts ≡ true
        → dispatch_entry d s k entry before ≡ (
          buried,
          update_where
              (is_held entry.entry_id d.worker_id)
              (fail_row s.exceeded none)
              (s.meanwhile k before),
        )
    unfolding dispatch_entry record_failure
    report_exceeded e = ground arith

    report_success :
        ltb d.max_attempts entry.attempts ≡ false
        → s.publish k entry.envelope ≡ none
        → dispatch_entry d s k entry before ≡ (
          delivered,
          update_where
              (is_held entry.entry_id d.worker_id)
              (publish_row (s.clock k))
              (s.meanwhile k before),
        )
    unfolding dispatch_entry mark_published
    report_success e p = ground arith

    report_exhausted :
        {error : Text}
        → ltb d.max_attempts entry.attempts ≡ false
        → s.publish k entry.envelope ≡ some error
        → leb d.max_attempts entry.attempts ≡ true
        → dispatch_entry d s k entry before ≡ (
          buried,
          update_where
              (is_held entry.entry_id d.worker_id)
              (fail_row error none)
              (s.meanwhile k before),
        )
    unfolding dispatch_entry record_failure retry_at
    report_exhausted e p m = ground arith

    report_retry :
        {error : Text}
        → ltb d.max_attempts entry.attempts ≡ false
        → s.publish k entry.envelope ≡ some error
        → leb d.max_attempts entry.attempts ≡ false
        → dispatch_entry d s k entry before ≡ (
          put_back,
          update_where
              (is_held entry.entry_id d.worker_id)
              (fail_row error (some (s.clock k + d.retry_delay_seconds entry.attempts * 1000)))
              (s.meanwhile k before),
        )
    unfolding dispatch_entry record_failure retry_at
    report_retry e p m = ground arith

  -- In a table in order, the report on an entry whose row the worker still holds settles that row:
  -- published where the publisher took the event, due again after the retry delay where it threw and
  -- attempts are left, and dead where they are used up or exceeded; the outcome that is counted says
  -- which.
  pub dispatch_entry-Reported :
      (k : ℕ) (entry : OutboxEntry) (before : Table) (j : ℕ) (row : OutboxEntry)
      → in_order (s.meanwhile k before) ≡ true
      → get_elem? (s.meanwhile k before) j ≡ some row
      → is_held entry.entry_id d.worker_id row ≡ true
      → (next : OutboxEntry) × (get_elem? (dispatch_entry d s k entry before).1 j ≡ some next)
        × Reported k entry row (dispatch_entry d s k entry before).0 next
  unfolding fail_row publish_row
  dispatch_entry-Reported k entry before j row h g held =
      let test = is_held entry.entry_id d.worker_id in
      let table = s.meanwhile k before in
      let once = held-once entry.entry_id d.worker_id table j row h g held in
      elim (Bool-cases (ltb d.max_attempts entry.attempts)) [
        | inl e ↦
            rw (report_exceeded k entry before once e) (
              _,
              updated test (fail_row s.exceeded none) table j row g held,
              exceeded (ground arith),
            )
        | inr e ↦ elim (Option-cases (s.publish k entry.envelope)) [
          | inl p ↦ rw (report_success k entry before once e p) (
            _,
            updated test (publish_row (s.clock k)) table j row g held,
            success (ground arith) p,
          )
          | inr (error, p) ↦ elim (Bool-cases (leb d.max_attempts entry.attempts)) [
            | inl m ↦ rw (report_exhausted k entry before once e p m) (
              _,
              updated test (fail_row error none) table j row g held,
              exhausted (ground arith) p,
            )
            | inr m ↦ rw (report_retry k entry before once e p m) (
              _,
              updated test
                  (fail_row error (some (s.clock k + d.retry_delay_seconds entry.attempts * 1000)))
                  table j row g held,
              retry (ground arith) p,
            )
          ]
        ]
      ]
