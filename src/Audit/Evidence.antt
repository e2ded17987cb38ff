-- ===== src/Audit/Evidence.antt =====
-- What can stand in audit evidence.
use sintius.Audit.Secrets.{
  secrets, card_words, secret-forbidden, card-forbidden, is_allowable-parts,
}
use sintius.Audit.Policy.{
  is_field, has_forbidden_fragment, Fields, is_allowable, register, with_built_in,
  create_audit_policy, allowed_fields, kept, project, to_safe_snapshot,
}
use sintius.Context.Principal.{unique_onto}
use sintius.Context.Trusted.{all-unique_onto}
use sintius.Idempotency.Payload.{
  Json, Members, KeyIn, KeyInMembers, null, number, array, object, class_object, member, own,
  this_key, under_key, later_member, in_array, in_object, in_class_object,
}
use sintius.Prelude.Sorting.{sort, all-sort}
use sintius.Prelude.Tests.{clash}
use sintius.Prelude.{
  ◌≢◌, ◌++◌, ap, sym, ◌∙◌, includes, Text-discrete, Bool, true, false, some, Text, text_eq, List,
  [], ◌∷◌, all, ◌≡◌, refl, arith, Bool-cases, Option-cases, inl, inr, ◌⊎◌,
}
use sintius.Problem.{ok, Outcome-cases}

register-parts :
    (entry : Text × List Text) (entries policy : Fields)
    → register (entry ∷ entries) ≡ ok policy
    → (all is_allowable entry.1 ≡ true)
      × ((rest : Fields) × (register entries ≡ ok rest)
          × (policy ≡ (entry.0, sort (unique_onto [] entry.1)) ∷ rest))
unfolding register
register-parts entry entries policy h = elim (Outcome-cases (register entries)) [
  | inl (rest, e) ↦ (ground arith, (rest, e, ground arith))
  | inr lost ↦ absurd (ground arith)
]

no_entry :
    (policy : Fields) (t : Text) {allowed : List Text}
    → register [] ≡ ok policy
    → allowed_fields policy t ≡ some allowed
    → all is_allowable allowed ≡ true
unfolding register allowed_fields
no_entry policy t h k = ground arith

module _ (name t : Text) (fields : List Text) (rest : Fields) {allowed : List Text} where
  this_entry :
      allowed_fields ((name, fields) ∷ rest) t ≡ some allowed
      → text_eq name t ≡ true
      → fields ≡ allowed
  unfolding allowed_fields
  this_entry h e = ground arith

  later_entry :
      allowed_fields ((name, fields) ∷ rest) t ≡ some allowed
      → text_eq name t ≡ false
      → allowed_fields rest t ≡ some allowed
  unfolding allowed_fields
  later_entry h e = ground arith

-- Every entry of a created policy allows only fields that may be allowed.
register-allowable :
    (fields policy : Fields) (target_type : Text) {allowed : List Text}
    → register fields ≡ ok policy
    → allowed_fields policy target_type ≡ some allowed
    → all is_allowable allowed ≡ true
register-allowable [] policy t h k = no_entry policy t h k
register-allowable (entry ∷ entries) policy t {allowed} h k =
    let (sound, (rest, others, whole)) = register-parts entry entries policy h in
    let found : allowed_fields ((entry.0, sort (unique_onto [] entry.1)) ∷ rest) t ≡ some allowed =
      rw (← whole) k in
    elim (Bool-cases (text_eq entry.0 t)) [
      | inl this ↦
          let same_fields : sort (unique_onto [] entry.1) ≡ allowed =
            this_entry entry.0 t (sort (unique_onto [] entry.1)) rest found this in
          rw (← same_fields) (
            all-sort is_allowable (unique_onto [] entry.1)
              (all-unique_onto is_allowable [] entry.1 refl sound))
      | inr other ↦
          register-allowable entries rest t others
            (later_entry entry.0 t (sort (unique_onto [] entry.1)) rest found other)
    ]

abbrev is_scalar : Json → Bool
is_scalar (array items) = false
is_scalar (object members) = false
is_scalar (class_object members) = false
is_scalar v = true

scalar-flat : (v : Json) (k : Text) → is_scalar v ≡ true → ¬ KeyIn k v
scalar-flat v k h (in_array key items inside) = ground arith
scalar-flat v k h (in_object key members inside) = ground arith
scalar-flat v k h (in_class_object key members inside) = ground arith

module _ (redact : Text → Text) where
  nothing :
      {C : Type 0} (value : Members) (key : Text) → KeyInMembers key (project redact [] value) → C
  unfolding project
  nothing value key inside = elim inside [ ]

  kept-scalar : (v : Json) {w : Json} → kept redact v ≡ some w → is_scalar w ≡ true
  unfolding kept
  kept-scalar null h = ground arith
  kept-scalar (number n) h = ground arith
  kept-scalar v h = ground arith

  project_step :
      (f : Text) (fields : List Text) (value : Members)
      → (project redact (f ∷ fields) value ≡ project redact fields value)
        ⊎ ((w : Json) × (is_scalar w ≡ true)
            × (project redact (f ∷ fields) value ≡ member f w (project redact fields value)))
  unfolding project
  project_step f fields value = elim (Option-cases (own f value)) [
    | inl e ↦ inl (rw (e, project))
    | inr (v, e) ↦ elim (Option-cases (kept redact v)) [
      | inl k ↦ inl (rw (e, k, project))
      | inr (w, k) ↦ inr (w, kept-scalar v k, rw (e, k, project))
    ]
  ]

  member-key :
      (f key : Text) (w : Json) (rest : Members)
      → is_scalar w ≡ true
      → KeyInMembers key (member f w rest)
      → (key ≡ f) ⊎ KeyInMembers key rest
  member-key f key w rest h (this_key k v members) = inl refl
  member-key f key w rest h (under_key k j v members inside) = absurd (scalar-flat v k h inside)
  member-key f key w rest h (later_member k j v members inside) = inr inside

  project-allowed :
      (p : Text → Bool) (fields : List Text) (value : Members) (key : Text)
      → all p fields ≡ true
      → KeyInMembers key (project redact fields value)
      → p key ≡ true
  project-allowed p [] value key h inside = nothing value key inside
  project-allowed p (f ∷ fields) value key h inside = elim (project_step f fields value) [
    | inl e ↦ project-allowed p fields value key (ground arith) (rw e at inside)
    | inr (w, scalar, e) ↦
        elim (member-key f key w (project redact fields value) scalar (rw e at inside)) [
          | inl this ↦ rw this (ground arith)
          | inr later ↦ project-allowed p fields value key (ground arith) later
        ]
  ]

  project-allowable :
      (fields policy : Fields) (target_type : Text) (value : Members) {snapshot : Members}
      (key : Text)
      → create_audit_policy fields ≡ ok policy
      → to_safe_snapshot redact policy target_type (some value) ≡ ok (some snapshot)
      → KeyInMembers key snapshot
      → is_allowable key ≡ true
  unfolding create_audit_policy to_safe_snapshot
  project-allowable fields policy t value {snapshot} key h k inside =
      elim (Option-cases (allowed_fields policy t)) [
        | inl e ↦ absurd (ground arith)
        | inr (allowed, e) ↦
            let whole : snapshot ≡ project redact allowed value = ground arith in
            project-allowed is_allowable allowed value key
              (register-allowable (with_built_in fields) policy t h e) (rw whole at inside)
      ]

  -- Under a policy that `createAuditPolicy` accepted, a key of an audit snapshot, at any depth, has
  -- the form of a field, contains none of the listed secrets, such as "password" or "token", anywhere
  -- in it, and has neither "pan" nor "card" as a word between underscores or at an end.
  pub to_safe_snapshot-is_allowable :
      (fields policy : Fields) (target_type : Text) (value : Members) {snapshot : Members}
      (key secret card before after : Text)
      → create_audit_policy fields ≡ ok policy
      → to_safe_snapshot redact policy target_type (some value) ≡ ok (some snapshot)
      → KeyInMembers key snapshot
      → includes Text-discrete secret secrets ≡ true
      → includes Text-discrete card card_words ≡ true
      → (is_field key ≡ true)
        × (key ≢ before ++ secret ++ after)
        × (95 ∷ key ++ 95 ∷ [] ≢ before ++ (95 ∷ card ++ 95 ∷ after))
  to_safe_snapshot-is_allowable fields policy t value key secret card before after h k inside s c =
      let (field, no_secret, no_card) =
        is_allowable-parts key (project-allowable fields policy t value key h k inside) in
      (
        field,
        λ e. clash (
            sym (ap has_forbidden_fragment e ∙ secret-forbidden secret before after s) ∙ no_secret),
        λ e. clash (sym (card-forbidden card key before after c e) ∙ no_card),
      )
