-- ===== src/Cache/Recency.antt =====
-- What the cache keeps (platform/tenant-context/src/memory-store.ts).
use sintius.Prelude.{
  ℕ, zero, suc, ◌+◌, ◌*◌, Bool, true, not, ltb, ◌≤◌, ◌<◌, false, if◌then◌else◌, Option, none, some,
  [], ◌∷◌, ◌++◌, find?, length, Text, Text-discrete, text_eq, same_iff, ◌≡◌, refl, arith,
  length-append, Bool-cases, inl, inr,
}
use sintius.Problem.{ok, Outcome-cases}
use sintius.Cache.Store.{
  Seconds, fraction, infinite, nan, Milliseconds, ttl_milliseconds, Slot, Slots, has_key, delete,
  expired, get, evict, ttl_or, expiry, set,
}
use sintius.Prelude.Int.{pos, negsuc}

-- A time to live that may be given: none, or a positive finite number.
abbrev pub is_lifetime : Option Seconds → Bool
is_lifetime none = true
is_lifetime (some (fraction (pos n) d)) = ltb 0 n
is_lifetime (some ttl) = false

-- Whether less than the time to live has passed: with n / (d + 1) seconds, the milliseconds since
-- `now`, times d + 1, are fewer than 1000 * n.
abbrev pub is_alive : Option Seconds → (now later : ℕ) → Bool
is_alive none now later = true
is_alive (some (fraction (pos n) d)) now later = ltb (later * (d + 1)) (now * (d + 1) + 1000 * n)
is_alive (some ttl) now later = false

expiry-is_alive :
    (ttl : Option Seconds) (now later : ℕ) (milliseconds : Option Milliseconds)
    → ttl_milliseconds ttl ≡ ok milliseconds
    → (is_lifetime ttl ≡ true)
      × (is_alive ttl now later ≡ not (expired (expiry milliseconds now) later))
expiry-is_alive none now later milliseconds h = (refl, ground arith)
expiry-is_alive (some (fraction (pos zero) d)) now later milliseconds h = cc
expiry-is_alive (some (fraction (pos (suc n)) d)) now later milliseconds h =
    (ground arith, grind arith)
expiry-is_alive (some (fraction (negsuc n) d)) now later milliseconds h = cc
expiry-is_alive (some (infinite b)) now later milliseconds h = cc
expiry-is_alive (some nan) now later milliseconds h = cc

module _ {V : Type 0} where
  find?-delete :
      (key other : Text) (slots : Slots V)
      → text_eq other key ≡ false
      → find? (has_key key) (delete other slots) ≡ find? (has_key key) slots
  unfolding delete
  find?-delete key other [] h = refl
  find?-delete key other (slot ∷ slots) h = ground (
    arith,
    same_iff Text-discrete slot.0 key,
    same_iff Text-discrete slot.0 other,
    same_iff Text-discrete other key,
    find?-delete key other slots h,
  )

  find?-deleted : (key : Text) (slots : Slots V) → find? (has_key key) (delete key slots) ≡ none
  unfolding delete
  find?-deleted key [] = refl
  find?-deleted key (slot ∷ slots) = ground (arith, find?-deleted key slots)

  find?-last :
      (key : Text) (slots : Slots V) (v : V) (e : Option Milliseconds)
      → find? (has_key key) slots ≡ none
      → find? (has_key key) (slots ++ (key, v, e) ∷ []) ≡ some (key, v, e)
  find?-last key [] v e h = ground (arith, same_iff Text-discrete key key)
  find?-last key (slot ∷ slots) v e h = ground (arith, find?-last key slots v e)

  length-evict :
      (max_entries : ℕ) (slots : Slots V) → length (evict max_entries slots) ≤ max_entries
  unfolding evict
  length-evict m [] = omega arith
  length-evict m (slot ∷ slots) = ground (arith, length-evict m slots)

  length-delete : (key : Text) (slots : Slots V) → length (delete key slots) ≤ length slots
  unfolding delete
  length-delete key [] = omega arith
  length-delete key (slot ∷ slots) = ground (arith, length-delete key slots)

  length-delete-found :
      (key : Text) (slots : Slots V) (slot : Slot V)
      → find? (has_key key) slots ≡ some slot
      → length (delete key slots) < length slots
  unfolding delete
  length-delete-found key [] slot h = cc
  length-delete-found key (s ∷ slots) slot h =
      ground (arith, length-delete key slots, length-delete-found key slots slot)

  -- The newest entry outlives every eviction of a cache that has room for one.
  evict-last :
      (max_entries : ℕ) (key : Text) (slots : Slots V) (v : V) (e : Option Milliseconds)
      → 1 ≤ max_entries
      → find? (has_key key) slots ≡ none
      → find? (has_key key) (evict max_entries (slots ++ (key, v, e) ∷ [])) ≡ some (key, v, e)
  unfolding evict
  evict-last m key [] v e le h = ground (arith, same_iff Text-discrete key key)
  evict-last m key (slot ∷ slots) v e le h =
      ground (arith, evict-last m key slots v e, find?-last key slots v e)

  stored_slots :
      (m : ℕ) (default_ttl : Option Seconds) (key : Text) (value : V) (ttl : Option Seconds)
      (now : ℕ) (slots stored : Slots V)
      → set m default_ttl key value ttl now slots ≡ ok stored
      → (milliseconds : Option Milliseconds) × (ttl_milliseconds (ttl_or ttl default_ttl)
          ≡ ok milliseconds)
        × (stored ≡ evict m (delete key slots ++ (key, value, expiry milliseconds now) ∷ []))
  unfolding set
  stored_slots m default_ttl key value ttl now slots stored h =
      elim (Outcome-cases (ttl_milliseconds (ttl_or ttl default_ttl))) [
        | inl (milliseconds, e) ↦ (milliseconds, e, ground arith)
        | inr e ↦ absurd (ground arith)
      ]

  -- A cache stays within its size, whatever it held before; a time to live that is accepted is a
  -- positive finite number of seconds; and a value that was stored is what the next read of its key
  -- gives as long as less than that time, in milliseconds, has passed, and nothing from then on.
  pub set-get :
      (max_entries : ℕ) (default_ttl : Option Seconds) (key : Text) (value : V)
      (ttl : Option Seconds) (now later : ℕ) (slots stored : Slots V)
      → 1 ≤ max_entries
      → set max_entries default_ttl key value ttl now slots ≡ ok stored
      → (length stored ≤ max_entries)
        × (is_lifetime (ttl_or ttl default_ttl) ≡ true)
        × ((get key later stored).0
            ≡ (if is_alive (ttl_or ttl default_ttl) now later then some value else none))
        × (length (get key later stored).1 ≤ max_entries)
  unfolding get
  set-get m default_ttl key value ttl now later slots stored le h =
      let (milliseconds, accepted, kept) =
        stored_slots m default_ttl key value ttl now slots stored h in
      let e = expiry milliseconds now in
      let others = delete key slots in
      let found = evict-last m key others value e le (find?-deleted key slots) in
      let size = length-evict m (others ++ (key, value, e) ∷ []) in
      let read : find? (has_key key) stored ≡ some (key, value, e) = rw kept found in
      let shrinks = length-delete-found key stored (key, value, e) read in
      let grown = length-append (delete key stored) ((key, value, e) ∷ []) in
      let within : length stored ≤ m = rw kept size in
      let (lifetime, alive) =
        expiry-is_alive (ttl_or ttl default_ttl) now later milliseconds accepted in
      elim (Bool-cases (expired e later)) [ inl x ↦ ground arith | inr x ↦ ground arith ]
