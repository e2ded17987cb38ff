-- ===== src/Audit/Secrets.antt =====
-- What the patterns of platform/audit/src/policy.ts keep out of a field's name, in terms of the name's text.
use sintius.Audit.Policy.{
  is_field, is_allowable, starts_with, contains, has_forbidden_fragment, word_at,
  word_after_underscore, has_forbidden_word,
}
use sintius.Prelude.{
  ℕ, Bool, true, false, ◌||◌, ◌&&◌, not, ◌==◌, any, Bool-cases, inl, inr, Text, Text-discrete, text,
  text_eq, List, [], ◌∷◌, ◌++◌, includes, ◌≡◌, refl, ap, ◌∙◌, arith, same_iff,
}

-- What no name of a field may contain.
abbrev pub secrets : List Text
secrets =
    text "password"
    ∷ text "passwd"
    ∷ text "secret"
    ∷ text "token"
    ∷ text "apikey"
    ∷ text "api_key"
    ∷ text "credential"
    ∷ text "privatekey"
    ∷ text "private_key"
    ∷ text "cvv"
    ∷ text "ssn"
    ∷ []

-- What no name of a field may have as a word between underscores.
abbrev pub card_words : List Text
card_words = text "pan" ∷ text "card" ∷ []

starts_with-append : (w s : Text) → starts_with w (w ++ s) ≡ true
unfolding starts_with
starts_with-append [] s = refl
starts_with-append (c ∷ w) s = ground (arith, starts_with-append w s)

contains_here : (w s : Text) → starts_with w s ≡ true → contains w s ≡ true
unfolding contains
contains_here w [] h = h
contains_here w (c ∷ s) h = ground arith

contains-append : (w before after : Text) → contains w (before ++ w ++ after) ≡ true
unfolding contains
contains-append w [] after = contains_here w (w ++ after) (starts_with-append w after)
contains-append w (c ∷ before) after = ground (arith, contains-append w before after)

any-includes :
    (p : Text → Bool) (w : Text) (words : List Text)
    → includes Text-discrete w words ≡ true
    → p w ≡ true
    → any p words ≡ true
any-includes p w [] h k = h
any-includes p w (x ∷ words) h k = elim (Bool-cases (text_eq x w)) [
  | inl e ↦ let first : p x ≡ true = ap p ((same_iff Text-discrete x w).0 e) ∙ k in ground arith
  | inr e ↦ ground (arith, any-includes p w words)
]

-- A secret anywhere in a name is found.
pub secret-forbidden :
    (w before after : Text)
    → includes Text-discrete w secrets ≡ true
    → has_forbidden_fragment (before ++ w ++ after) ≡ true
unfolding has_forbidden_fragment
secret-forbidden w before after h =
    any-includes (λ f. contains f (before ++ w ++ after)) w secrets h
      (contains-append w before after)

head_eq : {c d : ℕ} {s t : Text} → (c ∷ s) ≡ d ∷ t → c ≡ d
head_eq h = cc h

tail_eq : {c d : ℕ} {s t : Text} → (c ∷ s) ≡ d ∷ t → s ≡ t
tail_eq h = cc h

empty_end : (w : Text) (after : Text) → ¬ ([] ≡ w ++ 95 ∷ after)
empty_end [] after h = cc
empty_end (c ∷ w) after h = cc

-- A word that ends where the text ends or before an underscore.
word_at-found : (w s : Text) (after : Text) → s ++ 95 ∷ [] ≡ w ++ 95 ∷ after → word_at w s ≡ true
unfolding word_at
word_at-found [] [] after h = refl
word_at-found [] (c ∷ s) after h = let e = head_eq h in ground arith
word_at-found (p ∷ w) [] after h = absurd (empty_end w after (tail_eq h))
word_at-found (p ∷ w) (c ∷ s) after h =
    let e = head_eq h in ground (arith, word_at-found w s after (tail_eq h))

here-found :
    (w s : Text) (after : Text)
    → includes Text-discrete w card_words ≡ true
    → s ++ 95 ∷ [] ≡ w ++ 95 ∷ after
    → (word_at (text "pan") s || word_at (text "card") s) ≡ true
here-found w s after h e =
    let both = any-includes (λ v. word_at v s) w card_words h (word_at-found w s after e) in
    ground arith

under_here : (c : ℕ) (x y : Bool) → c ≡ 95 → x ≡ true → ((c == 95 && x) || y) ≡ true
under_here c x y h k = ground arith

or_later : (x y : Bool) → y ≡ true → (x || y) ≡ true
or_later x y h = ground arith

after-found :
    (w s before : Text) (after : Text)
    → includes Text-discrete w card_words ≡ true
    → s ++ 95 ∷ [] ≡ before ++ (95 ∷ w ++ 95 ∷ after)
    → word_after_underscore s ≡ true
unfolding word_after_underscore
after-found w [] [] after h e = absurd (empty_end w after (tail_eq e))
after-found w [] (b ∷ before) after h e = absurd (empty_end before (w ++ 95 ∷ after) (tail_eq e))
after-found w (c ∷ s) [] after h e =
    under_here c _ (word_after_underscore s) (head_eq e) (here-found w s after h (tail_eq e))
after-found w (c ∷ s) (b ∷ before) after h e =
    or_later _ (word_after_underscore s) (after-found w s before after h (tail_eq e))

-- A word for card data between underscores, or at an end of the name, is found.
pub card-forbidden :
    (w key before : Text) (after : Text)
    → includes Text-discrete w card_words ≡ true
    → 95 ∷ key ++ 95 ∷ [] ≡ before ++ (95 ∷ w ++ 95 ∷ after)
    → has_forbidden_word key ≡ true
unfolding has_forbidden_word
card-forbidden w key [] after h e = let here = here-found w key after h (tail_eq e) in ground arith
card-forbidden w key (b ∷ before) after h e =
    let later = after-found w key before after h (tail_eq e) in ground arith

three_parts : (a b c : Bool) → (a && not b && not c) ≡ true → (a ≡ true) × (b ≡ false) × (c ≡ false)
three_parts a b c h = (ground arith, ground arith, ground arith)

pub is_allowable-parts :
    (key : Text)
    → is_allowable key ≡ true
    → (is_field key ≡ true)
      × (has_forbidden_fragment key ≡ false)
      × (has_forbidden_word key ≡ false)
unfolding is_allowable
is_allowable-parts key h =
    three_parts (is_field key) (has_forbidden_fragment key) (has_forbidden_word key) h
