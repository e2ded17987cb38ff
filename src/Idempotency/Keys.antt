-- ===== src/Idempotency/Keys.antt =====
-- The patterns of scopes and keys (platform/idempotency/src/executor.ts).
use sintius.Prelude.{
  ℕ, Bool, true, false, ◌&&◌, ◌||◌, leb, ◌==◌, List, [], ◌∷◌, ◌++◌, map, all, length, Text,
}
use sintius.Idempotency.Payload.{lower}

abbrev between : ℕ → ℕ → ℕ → Bool
between a b c = leb a c && leb c b

abbrev is_lower : ℕ → Bool
is_lower = between 97 122

abbrev is_digit : ℕ → Bool
is_digit = between 48 57

-- `[a-z0-9_.:-]`
abbrev is_scope_unit : ℕ → Bool
is_scope_unit c = is_lower c || is_digit c || c == 95 || c == 46 || c == 58 || c == 45

-- `SCOPE_PATTERN`
unfoldable pub is_scope : Text → Bool
is_scope [] = false
is_scope (c ∷ s) = is_lower c && leb (length s) 63 && all is_scope_unit s

-- `[0-9a-f]` without case
abbrev is_hex : ℕ → Bool
is_hex c = is_digit c || between 97 102 c || between 65 70 c

-- `[1-8]`
abbrev is_version : ℕ → Bool
is_version = between 49 56

-- `[89ab]` without case
abbrev is_variant : ℕ → Bool
is_variant c = c == 56 || c == 57 || c == 97 || c == 98 || c == 65 || c == 66

abbrev is_dash : ℕ → Bool
is_dash c = c == 45

abbrev hex3 : List (ℕ → Bool)
hex3 = is_hex ∷ is_hex ∷ is_hex ∷ []

abbrev hex4 : List (ℕ → Bool)
hex4 = is_hex ∷ hex3

abbrev key_pattern : List (ℕ → Bool)
key_pattern =
    hex4
    ++ hex4
    ++ is_dash ∷ hex4
    ++ is_dash ∷ is_version ∷ hex3
    ++ is_dash ∷ is_variant ∷ hex3
    ++ is_dash ∷ hex4
    ++ hex4
    ++ hex4

unfoldable pub matches : List (ℕ → Bool) → Text → Bool
matches [] [] = true
matches (p ∷ ps) (c ∷ s) = p c && matches ps s
matches _ _ = false

-- `KEY_PATTERN`
unfoldable pub is_key : Text → Bool
is_key key = matches key_pattern key

-- `request.key.toLowerCase()`, of a key that matches the pattern
unfoldable pub to_lower_case : Text → Text
to_lower_case key = map lower key
