-- ===== src/Cache/Store.antt =====
-- `InMemoryKeyValueStore` (platform/tenant-context/src/memory-store.ts). The entries of the Map are a list in the
-- order of insertion. A number of seconds is an exact fraction, an infinity or NaN; the clock counts
-- whole milliseconds.
use sintius.Prelude.Int.{ℤ, pos}
use sintius.Prelude.{
  ℕ, suc, ◌+◌, ◌*◌, Bool, false, not, leb, ltb, if◌then◌else◌, Option, none, some, List, [], ◌∷◌,
  ◌++◌, filter, find?, length, Text, text_eq,
}
use sintius.Problem.{Outcome, ok, fault, range_error, ◌>>=◌}

-- A JavaScript number: `numerator / (denominator + 1)`, an infinity or NaN.
pub data Seconds : Type 0 where
  fraction : (numerator : ℤ) (denominator : ℕ) → Seconds
  infinite : (negative : Bool) → Seconds
  nan : Seconds

-- An instant or a time span: `n / (d + 1)` milliseconds.
abbrev pub Milliseconds : Type 0
Milliseconds = ℕ × ℕ

abbrev pub Slot : Type 0 → Type 0
Slot V = Text × V × Option Milliseconds

abbrev pub Slots : Type 0 → Type 0
Slots V = List (Slot V)

-- `expiresAt <= now`
abbrev pub expired : Option Milliseconds → ℕ → Bool
expired none now = false
expired (some (n, d)) now = leb n (now * suc d)

-- `options.ttlSeconds ?? this.#defaultTtlSeconds`
abbrev pub ttl_or : Option Seconds → Option Seconds → Option Seconds
ttl_or none default_ttl = default_ttl
ttl_or (some ttl) default_ttl = some ttl

-- `ttl !== undefined && !(Number.isFinite(ttl) && ttl > 0)` throws; else `ttl * 1000`.
abbrev pub ttl_milliseconds : Option Seconds → Outcome (Option Milliseconds)
ttl_milliseconds none = ok none
ttl_milliseconds (some (fraction (pos (suc n)) d)) = ok (some (suc n * 1000, d))
ttl_milliseconds (some ttl) = fault range_error

-- `ttl === undefined ? undefined : now + ttl * 1000`
abbrev pub expiry : Option Milliseconds → ℕ → Option Milliseconds
expiry none now = none
expiry (some (n, d)) now = some (now * suc d + n, d)

module _ {V : Type 0} where
  abbrev pub has_key : Text → Slot V → Bool
  has_key key slot = text_eq slot.0 key

  -- `Map.delete`
  unfoldable pub delete : Text → Slots V → Slots V
  delete key slots = filter (λ slot. not (has_key key slot)) slots

  -- `get`: the value found and the entries after it, at a time.
  unfoldable pub get : Text → ℕ → Slots V → Option V × Slots V
  get key now slots = elim (find? (has_key key) slots) [
    | none ↦ (none, slots)
    | some (k, v, expires_at) ↦
        if expired expires_at now
        then (none, delete key slots)
        else (some v, delete key slots ++ (key, v, expires_at) ∷ [])
  ]

  -- The loop that drops the oldest entries while there are too many.
  unfoldable pub evict : ℕ → Slots V → Slots V
  evict max_entries [] = []
  evict max_entries (slot ∷ slots) =
      let rest = evict max_entries slots in
      if ltb max_entries (suc (length slots)) then rest else slot ∷ slots

  -- `set`
  unfoldable pub set :
      ℕ
      → (default_ttl_seconds : Option Seconds) → Text
      → V
      → (ttl_seconds : Option Seconds) → (now : ℕ) → Slots V
      → Outcome (Slots V)
  set max_entries default_ttl_seconds key value ttl_seconds now slots = do
    ttl ← ttl_milliseconds (ttl_or ttl_seconds default_ttl_seconds)
    ok (evict max_entries (delete key slots ++ (key, value, expiry ttl now) ∷ []))
