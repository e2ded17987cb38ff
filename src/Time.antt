-- ===== src/Time.antt =====
-- Dates. An instant counts the milliseconds from the earliest time that a `Date` holds, so that it is
-- a natural number; ISO strings have the same precision, and stand for the instant that they name.
use Prim.Native.Nat.{ℕ}
use mathlib.Core.Option.{Option, none, some}
use sintius.Prelude.Tests.{leb, if◌then◌else◌}
use sintius.Problem.{Outcome, ok, problem, fault, invalid_timestamp, range_error}

abbrev pub Instant : Type 0
Instant = ℕ

-- `none` is the invalid date, whose value is NaN.
abbrev pub Date : Type 0
Date = Option Instant

-- The last instant of a `Date`: 8.64e15 milliseconds on each side of the epoch.
abbrev pub max_instant : Instant
max_instant = 17280000000000000

-- `instant` of the approvals and `isoInstant` of the tenants.
abbrev pub instant : Date → Outcome Instant
instant none = problem invalid_timestamp
instant (some t) = ok t

-- `new Date(t).toISOString()`, which throws a RangeError past the last instant.
abbrev pub to_iso : Instant → Outcome Instant
to_iso t = if leb t max_instant then ok t else fault range_error
