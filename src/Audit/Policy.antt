-- ===== src/Audit/Policy.antt =====
-- The allow-list of audit evidence (platform/audit/src/policy.ts). The shared redactor
-- `redactSensitiveText` is a parameter. The registry is an association list.
use sintius.Context.Principal.{unique_onto}
use sintius.Idempotency.Payload.{
  Json, Members, null, boolean, number, string, no_member, member, is_finite, own,
}
use sintius.Prelude.Sorting.{sort}
use sintius.Prelude.{
  ℕ, Bool, true, false, ◌&&◌, ◌||◌, not, leb, ◌==◌, if◌then◌else◌, Option, none, some, Text, text,
  text_eq, List, [], ◌∷◌, any, all, length,
}
use sintius.Problem.{Outcome, ok, problem, ◌>>=◌, ◌>>◌, throw_if, audit_policy_missing}

abbrev between : ℕ → ℕ → ℕ → Bool
between a b c = leb a c && leb c b

-- `FIELD_PATTERN`
unfoldable pub is_field : Text → Bool
is_field [] = false
is_field (c ∷ s) =
    between 97 122 c
    && leb (length s) 63
    && all (λ u. between 97 122 u || between 48 57 u || u == 95) s

unfoldable pub starts_with : Text → Text → Bool
starts_with [] s = true
starts_with (p ∷ prefix) [] = false
starts_with (p ∷ prefix) (c ∷ s) = p == c && starts_with prefix s

unfoldable pub contains : Text → Text → Bool
unfolding starts_with
contains fragment [] = starts_with fragment []
contains fragment (c ∷ s) = starts_with fragment (c ∷ s) || contains fragment s

-- The alternatives of `FORBIDDEN_FRAGMENTS`; an optional underscore makes two.
abbrev forbidden_fragments : List Text
forbidden_fragments =
    text "password"
    ∷ text "passwd"
    ∷ text "secret"
    ∷ text "token"
    ∷ text "apikey"
    ∷ text "api_key"
    ∷ text "credential"
    ∷ text "privatekey"
    ∷ text "private_key"
    ∷ text "cvv"
    ∷ text "ssn"
    ∷ []

unfoldable pub has_forbidden_fragment : Text → Bool
unfolding contains
has_forbidden_fragment field = any (λ fragment. contains fragment field) forbidden_fragments

-- `word(_|$)` at the start of a text.
unfoldable pub word_at : Text → Text → Bool
word_at [] [] = true
word_at [] (c ∷ s) = c == 95
word_at (p ∷ word) [] = false
word_at (p ∷ word) (c ∷ s) = p == c && word_at word s

abbrev word_here : Text → Bool
word_here s = word_at (text "pan") s || word_at (text "card") s

-- A forbidden word after some underscore.
unfoldable pub word_after_underscore : Text → Bool
unfolding word_at
word_after_underscore [] = false
word_after_underscore (c ∷ s) = (c == 95 && word_here s) || word_after_underscore s

-- `FORBIDDEN_WORDS`
unfoldable pub has_forbidden_word : Text → Bool
unfolding word_at word_after_underscore
has_forbidden_word field = word_here field || word_after_underscore field

unfoldable pub is_allowable : Text → Bool
unfolding is_field has_forbidden_fragment has_forbidden_word
is_allowable field =
    is_field field && not (has_forbidden_fragment field) && not (has_forbidden_word field)

abbrev pub Fields : Type 0
Fields = List (Text × List Text)

-- `BUILT_IN`
abbrev audit_query_fields : List Text
audit_query_fields =
    text "action"
    ∷ text "target_type"
    ∷ text "target_id"
    ∷ text "actor_id"
    ∷ text "correlation_id"
    ∷ text "result_count"
    ∷ []

unfoldable pub allowed_fields : Fields → Text → Option (List Text)
allowed_fields [] target_type = none
allowed_fields (entry ∷ entries) target_type =
    if text_eq entry.0 target_type then some entry.1 else allowed_fields entries target_type

-- `{ ...BUILT_IN, ...fields }`: an entry of the same name takes the built-in one's place.
unfoldable pub with_built_in : Fields → Fields
unfolding allowed_fields
with_built_in fields = elim (allowed_fields fields (text "AuditQuery")) [
  | none ↦ (text "AuditQuery", audit_query_fields) ∷ fields
  | some own ↦ fields
]

-- The loop of `createAuditPolicy`.
unfoldable pub register : Fields → Outcome Fields
unfolding sort
register [] = ok []
register (entry ∷ entries) = do
  throw_if (not (all is_allowable entry.1)) audit_policy_missing
  registry ← register entries
  ok ((entry.0, sort (unique_onto [] entry.1)) ∷ registry)

-- `createAuditPolicy`; the policy is its registry.
unfoldable pub create_audit_policy : Fields → Outcome Fields
unfolding register with_built_in
create_audit_policy fields = register (with_built_in fields)

module _ (redact_sensitive_text : Text → Text) where
  -- What a snapshot keeps of a value.
  unfoldable pub kept : Json → Option Json
  kept null = some null
  kept (boolean b) = some (boolean b)
  kept (string s) = some (string (redact_sensitive_text s))
  kept (number n) = if is_finite n then some (number n) else none
  kept other = none

  unfoldable pub project : List Text → Members → Members
  unfolding own kept
  project [] value = no_member
  project (field ∷ fields) value =
      let rest = project fields value in
      elim (own field value) [
        | none ↦ rest
        | some candidate ↦ elim (kept candidate) [
          | none ↦ rest
          | some safe ↦ member field safe rest
        ]
      ]

  -- `toSafeSnapshot`
  unfoldable pub to_safe_snapshot : Fields → Text → Option Members → Outcome (Option Members)
  unfolding project allowed_fields
  to_safe_snapshot policy target_type none = ok none
  to_safe_snapshot policy target_type (some value) = elim (allowed_fields policy target_type) [
    | none ↦ problem audit_policy_missing
    | some allowed ↦ ok (some (project allowed value))
  ]
