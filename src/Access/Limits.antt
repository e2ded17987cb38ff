-- ===== src/Access/Limits.antt =====
-- What the default roles of the personas allow.
use sintius.Access.Permissions.{
  PermissionConstraint, Attributes, number, finite, attribute_of, constraint_satisfied,
  constraints_satisfied, operator_holds, compare_finite, role_grants, granted_by_roles,
}
use sintius.Access.Personas.{
  billing_administrator, personas, template_role, template_permissions, usd_10000,
}
use sintius.Prelude.Int.{ℤ, pos, ltb_ℤ}
use sintius.Prelude.{
  ◌*◌, ◌^◌, true, false, ◌&&◌, not, some, Text, Text-discrete, ℕ_discrete, text, text_eq, List, [],
  ◌∷◌, all, filter, includes, ◌≡◌, ◌⊎◌, inl, inr, refl, arith, Option-cases,
}

-- An amount within the limit.
usd_10000-amount :
    (permission : Text) (attributes : Attributes)
    → constraint_satisfied attributes (usd_10000 permission) ≡ true
    → (amount : ℤ) × (attribute_of (text "amount_minor") attributes ≡ some (number (finite amount)))
      × (ltb_ℤ (pos (1000000 * 2 ^ 1074)) amount ≡ false)
unfolding constraint_satisfied operator_holds compare_finite
usd_10000-amount permission attributes h =
    elim (Option-cases (attribute_of (text "amount_minor") attributes)) [
      | inl e ↦ absurd (ground arith)
      | inr (number (finite a), e) ↦ (a, e, ground arith)
      | inr (v, e) ↦ absurd (ground arith)
    ]

abbrev limits_for : Text → List PermissionConstraint
limits_for permission =
    filter (λ (limit : PermissionConstraint). text_eq limit.permission permission)
      (template_role billing_administrator).limits

finalize_limit :
    limits_for (text "billing:invoice:finalize") ≡ usd_10000 (text "billing:invoice:finalize") ∷ []
unfolding template_role Text-discrete ℕ_discrete
finalize_limit = refl

refund_limit :
    limits_for (text "payments:payment:refund") ≡ usd_10000 (text "payments:payment:refund") ∷ []
unfolding template_role Text-discrete ℕ_discrete
refund_limit = refl

capped :
    (permission : Text) (attributes : Attributes)
    → limits_for permission ≡ usd_10000 permission ∷ []
    → granted_by_roles (template_role billing_administrator ∷ []) permission attributes ≡ true
    → constraint_satisfied attributes (usd_10000 permission) ≡ true
unfolding granted_by_roles role_grants constraints_satisfied
capped permission attributes e h = ground arith

-- A billing administrator who holds only the default role may finalize an invoice, or refund a
-- payment, only with an amount, a finite number, of at most 1,000,000 minor units.
pub template_role-limited :
    (permission : Text) (attributes : Attributes)
    → (permission ≡ text "billing:invoice:finalize") ⊎ (permission ≡ text "payments:payment:refund")
    → granted_by_roles (template_role billing_administrator ∷ []) permission attributes ≡ true
    → (amount : ℤ) × (attribute_of (text "amount_minor") attributes ≡ some (number (finite amount)))
      × (ltb_ℤ (pos (1000000 * 2 ^ 1074)) amount ≡ false)
template_role-limited permission attributes (inl e) h =
    let limited : limits_for permission ≡ usd_10000 permission ∷ [] = rw e finalize_limit in
    usd_10000-amount permission attributes (capped permission attributes limited h)
template_role-limited permission attributes (inr e) h =
    let limited : limits_for permission ≡ usd_10000 permission ∷ [] = rw e refund_limit in
    usd_10000-amount permission attributes (capped permission attributes limited h)

-- No persona's default role may both propose and decide an approval.
pub template_role-separated :
    all
      (λ persona. not (
        includes Text-discrete (text "approval:request:propose") (template_permissions persona)
        && includes Text-discrete (text "approval:request:decide") (template_permissions persona)))
      personas
    ≡ true
unfolding template_permissions Text-discrete ℕ_discrete
template_role-separated = refl
