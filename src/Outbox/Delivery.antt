-- ===== src/Outbox/Delivery.antt =====
-- What a dispatch pass guarantees (platform/outbox/src/dispatcher.ts).
use sintius.Prelude.{
  ℕ, zero, suc, ◌+◌, ◌-◌, ◌*◌, ◌^◌, ◌≤◌, min, ltb, none, List, [], ◌∷◌, length, Text, ◌≡◌, refl,
  arith, Bool-cases, inl, inr, ap, Option-cases,
}
use native.Mathlib.Nat.{pow-suc, pow-zero, suc-add, zero-add, add-zero}
use sintius.Outbox.Queue.{OutboxEntry, Table, lease_batch}
use sintius.Outbox.Stream.{leases, publishes, fails, Reachable, after}
use sintius.Outbox.Dispatcher.{
  DispatchReport, Dispatcher, Surroundings, default_retry_delay_seconds, Outcome, delivered,
  put_back, buried, lost, tally, retry_at, dispatch_entry, dispatch_entries, lease_request,
  no_outcomes, run_once,
}

two_pow-le : (m k : ℕ) → 2 ^ m ≤ 2 ^ (k + m)
two_pow-le m zero = omega (arith, ap (λ (k : ℕ). 2 ^ k) (zero-add m))
two_pow-le m (suc k) =
    omega (arith, ap (λ (k : ℕ). 2 ^ k) (suc-add k m), pow-suc 2 (k + m), two_pow-le m k)

two_pow-large : (m : ℕ) → 8 ≤ m → 256 ≤ 2 ^ m
two_pow-large m h =
    let total : (m - 8) + 8 ≡ m = omega (arith, h) in rw total at (two_pow-le 8 (m - 8))

delay-zero : default_retry_delay_seconds 0 ≡ 5
unfolding default_retry_delay_seconds
delay-zero = refl

delay-suc : (m : ℕ) → default_retry_delay_seconds (suc m) ≡ min (5 * 2 ^ m) 900
unfolding default_retry_delay_seconds
delay-suc m =
    let predecessor : suc m - 1 ≡ m = omega arith in ap (λ (k : ℕ). min (5 * 2 ^ k) 900) predecessor

delay-bounds : (n : ℕ) → (5 ≤ default_retry_delay_seconds n) × (default_retry_delay_seconds n ≤ 900)
delay-bounds zero = omega (arith, delay-zero)
delay-bounds (suc m) =
    let power = ap (λ (k : ℕ). 2 ^ k) (add-zero m) in
    omega (arith, delay-suc m, two_pow-le 0 m, power, pow-zero 2)

-- The default delay is between five seconds and fifteen minutes, doubles with each attempt up to
-- that cap, and stays at the cap from the ninth.
pub default_retry_delay_seconds-bounds :
    (n : ℕ)
    → (5 ≤ default_retry_delay_seconds n)
      × (default_retry_delay_seconds n ≤ 900)
      × (default_retry_delay_seconds (suc (suc n))
          ≡ min (2 * default_retry_delay_seconds (suc n)) 900)
      × (default_retry_delay_seconds (9 + n) ≡ 900)
default_retry_delay_seconds-bounds n =
    let doubled = pow-suc 2 n in
    let late : suc (8 + n) ≡ 9 + n = omega arith in
    let capped : default_retry_delay_seconds (suc (8 + n)) ≡ 900 =
      omega (arith, delay-suc (8 + n), two_pow-large (8 + n) (omega arith)) in
    (
      (delay-bounds n).0,
      (delay-bounds n).1,
      omega (arith, delay-suc n, delay-suc (suc n)),
      rw late at capped,
    )

abbrev counted : DispatchReport → ℕ
counted r = r.published + r.retried + r.dead_lettered + r.lease_lost

counted-tally : (o : Outcome) (r : DispatchReport) → counted (tally o r) ≡ suc (counted r)
unfolding tally
counted-tally delivered r = omega arith
counted-tally put_back r = omega arith
counted-tally buried r = omega arith
counted-tally lost r = omega arith

leased-tally : (o : Outcome) (r : DispatchReport) → (tally o r).leased ≡ r.leased
unfolding tally
leased-tally delivered r = refl
leased-tally put_back r = refl
leased-tally buried r = refl
leased-tally lost r = refl

module _ (d : Dispatcher) (s : Surroundings) where
  dispatch_entries-counts :
      (i : ℕ) (entries : List OutboxEntry) (report : DispatchReport) (table : Table)
      → (counted (dispatch_entries d s i entries report table).0 ≡ counted report + length entries)
        × ((dispatch_entries d s i entries report table).0.leased ≡ report.leased)
  unfolding dispatch_entries
  dispatch_entries-counts i [] report table = ground arith
  dispatch_entries-counts i (entry ∷ entries) report table =
      let o = (dispatch_entry d s i entry table).0 in
      ground (
        arith,
        counted-tally o report,
        leased-tally o report,
        dispatch_entries-counts (suc i) entries (tally o report)
            (dispatch_entry d s i entry table).1,
      )

  -- Every entry that a pass leased is counted once in its report, under one of the four outcomes.
  pub run_once-counts :
      (table : Table)
      → (run_once d s table).0.leased
        ≡ (run_once d s table).0.published
          + (run_once d s table).0.retried
          + (run_once d s table).0.dead_lettered
          + (run_once d s table).0.lease_lost
  unfolding run_once no_outcomes
  run_once-counts table =
      let batch = lease_batch s.locked (lease_request d s) table in
      ground (arith, dispatch_entries-counts 0 batch.0 (no_outcomes d s (length batch.0)) batch.1)

  -- The other workers' changes are the store's own operations.
  abbrev Steady : Type 0
  Steady = (i : ℕ) (table : Table) → Reachable table → Reachable (s.meanwhile i table)

  dispatch_entry-Reachable :
      (i : ℕ) (entry : OutboxEntry) (table : Table)
      → Reachable (s.meanwhile i table)
      → Reachable (dispatch_entry d s i entry table).1
  unfolding dispatch_entry
  dispatch_entry-Reachable i entry table h =
      let now = s.clock i in
      let w = d.worker_id in
      let id = entry.entry_id in
      let t = s.meanwhile i table in
      let exceeded = after t _ h (fails t id w s.exceeded none) in
      let done = after t _ h (publishes t id w now) in
      let failed = λ (e : Text). after t _ h (fails t id w e (retry_at d s entry.attempts now)) in
      elim (Bool-cases (ltb d.max_attempts entry.attempts)) [
        | inl e ↦ rw e exceeded
        | inr e ↦ rw e (elim (Option-cases (s.publish i entry.envelope)) [
          | inl n ↦ rw n done
          | inr n ↦ rw (n.1) (failed n.0)
        ])
      ]

  dispatch_entries-Reachable :
      (i : ℕ) (entries : List OutboxEntry) (report : DispatchReport) (table : Table)
      → Steady
      → Reachable table
      → Reachable (dispatch_entries d s i entries report table).1
  unfolding dispatch_entries
  dispatch_entries-Reachable i [] report table steady h = h
  dispatch_entries-Reachable i (entry ∷ entries) report table steady h =
      let done = dispatch_entry d s i entry table in
      dispatch_entries-Reachable (suc i) entries (tally done.0 report) done.1 steady
        (dispatch_entry-Reachable i entry table (steady i table h))

  -- A pass over a reachable table ends in a reachable table, so the order in each stream outlives
  -- it, provided that what other workers do in between keeps the table reachable.
  pub run_once-Reachable :
      ((i : ℕ) (table : Table) → Reachable table → Reachable (s.meanwhile i table))
      → (table : Table) → Reachable table
      → Reachable (run_once d s table).1
  unfolding run_once
  run_once-Reachable steady table h =
      let batch = lease_batch s.locked (lease_request d s) table in
      dispatch_entries-Reachable 0 batch.0 (no_outcomes d s (length batch.0)) batch.1 steady
        (after table batch.1 h (leases table s.locked (lease_request d s)))
