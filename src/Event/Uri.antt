-- ===== src/Event/Uri.antt =====
-- `encodeURIComponent` of ECMAScript, on UTF-16 code units: the UTF-8 bytes of a character that is not
-- unreserved are written `%XX`, and a surrogate without its partner throws.
use sintius.Prelude.{
  ℕ, ◌+◌, ◌-◌, ◌*◌, ◌/◌, ◌%◌, Bool, ◌&&◌, ◌||◌, ltb, leb, ◌==◌, if◌then◌else◌, Text, [], ◌∷◌, ◌++◌,
}
use sintius.Problem.{Outcome, ok, fault, uri_error, ◌>>=◌}

abbrev between : ℕ → ℕ → ℕ → Bool
between a b c = leb a c && leb c b

-- Letters, digits and the marks - _ . ! ~ * ' ( )
unfoldable pub is_unreserved : ℕ → Bool
is_unreserved c =
    between 97 122 c
    || between 65 90 c
    || between 48 57 c
    || c == 45
    || c == 95
    || c == 46
    || c == 33
    || c == 126
    || between 39 42 c

abbrev upper_hex : ℕ → ℕ
upper_hex d = if ltb d 10 then d + 48 else d + 55

abbrev percent : ℕ → Text
percent byte = 37 ∷ upper_hex (byte / 16) ∷ upper_hex (byte % 16) ∷ []

-- The escaped UTF-8 bytes of a code point.
unfoldable pub percent_point : ℕ → Text
percent_point p =
    if ltb p 0x80
    then percent p
    else if ltb p 0x800
    then percent (0xc0 + p / 64) ++ percent (0x80 + p % 64)
    else if ltb p 0x10000
    then percent (0xe0 + p / 4096) ++ percent (0x80 + p / 64 % 64) ++ percent (0x80 + p % 64)
    else percent (0xf0 + p / 262144)
      ++ percent (0x80 + p / 4096 % 64)
      ++ percent (0x80 + p / 64 % 64)
      ++ percent (0x80 + p % 64)

abbrev escaped : ℕ → Text
escaped c = if is_unreserved c then c ∷ [] else percent_point c

unfoldable pub encode_uri_component : Text → Outcome Text
unfolding is_unreserved percent_point
encode_uri_component [] = ok []
encode_uri_component (c ∷ []) = if between 0xd800 0xdfff c then fault uri_error else ok (escaped c)
encode_uri_component (c ∷ d ∷ s) =
    let after_pair = encode_uri_component s in
    let after_unit = encode_uri_component (d ∷ s) in
    if between 0xd800 0xdbff c && between 0xdc00 0xdfff d
    then (after_pair >>= λ rest.
        ok (percent_point (0x10000 + (c - 0xd800) * 1024 + (d - 0xdc00)) ++ rest))
    else if between 0xd800 0xdfff c
    then fault uri_error
    else after_unit >>= λ rest. ok (escaped c ++ rest)
