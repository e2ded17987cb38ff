-- ===== src/Approval/Quorum.antt =====
-- An approved request has enough distinct approvers, also where each approval is credited to one named
-- permission.
use mathlib.Core.Path.{subst}
use sintius.Approval.Decide.{credits, credited_count, is_satisfied}
use sintius.Approval.Invariant.{IsValid, StatusFits, actors_of, has_rejection}
use sintius.Approval.Lifecycle.{Reachable, Reachable-IsValid}
use sintius.Approval.Types.{
  ApprovalRequest, ApprovalDecision, ApproverRequirement, ApprovalStatus, approved,
  ApprovalDecisionKind, approve, reject, is_approve, permissions_of,
}
use sintius.Prelude.{
  ℕ, ◌+◌, ◌≤◌, ◌≡◌, refl, true, false, ◌&&◌, leb, List, [], ◌∷◌, map, all, sum, count_by, length,
  distinct, includes, Text, Text-discrete, text_eq, arith, if◌then◌else◌, inl, inr,
  count_by-le-length, length-map, All, Option, none, some, ap, ◌⊎◌,
}

sum-map-add :
    {A : Type 0} (f g : A → ℕ) (xs : List A)
    → sum (map (λ x. f x + g x) xs) ≡ sum (map f xs) + sum (map g xs)
sum-map-add f g [] = refl
sum-map-add f g (x ∷ xs) = omega (arith, sum-map-add f g xs)

sum-map_mono :
    {A : Type 0} (f g : A → ℕ) (xs : List A)
    → All (λ x. f x ≤ g x) xs
    → sum (map f xs) ≤ sum (map g xs)
sum-map_mono f g [] h = omega arith
sum-map_mono f g (x ∷ xs) h = omega (arith, sum-map_mono f g xs h.1)

sum_zero : (ps : List Text) → sum (map (λ _. 0) ps) ≡ 0
sum_zero [] = refl
sum_zero (p ∷ ps) = omega (arith, sum_zero ps)

-- How often a permission occurs.
abbrev occurs : Text → List Text → ℕ
occurs c = λ ps. sum (map (λ p. if text_eq c p then 1 else 0) ps)

occurs_absent : (c : Text) (ps : List Text) → includes Text-discrete c ps ≡ false → occurs c ps ≡ 0
occurs_absent c [] h = refl
occurs_absent c (p ∷ ps) h = ground (arith, occurs_absent c ps)

occurs-le : (c : Text) (ps : List Text) → distinct Text-discrete ps ≡ true → occurs c ps ≤ 1
occurs-le c [] h = omega arith
occurs-le c (p ∷ ps) h = elim (Text-discrete c p) [
  | yes e ↦ ground (arith, occurs_absent p ps, ap (λ (x : Text). occurs x ps) e)
  | no n ↦ ground (arith, occurs-le c ps)
]

-- A decision counts toward at most one of several distinct permissions.
credit_of : ApprovalDecisionKind → Option Text → Text → ℕ
credit_of kind credited p = if is_approve kind && credits credited p then 1 else 0

sum-credit_of-le :
    (kind : ApprovalDecisionKind) (credited : Option Text) (ps : List Text)
    → distinct Text-discrete ps ≡ true
    → sum (map (credit_of kind credited) ps) ≤ (if is_approve kind then 1 else 0)
unfolding credit_of
sum-credit_of-le approve (some c) ps h = occurs-le c ps h
sum-credit_of-le approve none ps h = omega (arith, sum_zero ps)
sum-credit_of-le reject credited ps h = omega (arith, sum_zero ps)

sum-credited_count-le :
    (ps : List Text) (ds : List ApprovalDecision)
    → distinct Text-discrete ps ≡ true
    → sum (map (credited_count ds) ps) ≤ count_by (λ d. is_approve d.decision) ds
unfolding credit_of
sum-credited_count-le ps [] h = omega (arith, sum_zero ps)
sum-credited_count-le ps (d ∷ ds) h = omega (
  arith,
  sum-map-add (credit_of d.decision d.credited_permission) (credited_count ds) ps,
  sum-credit_of-le d.decision d.credited_permission ps h,
  sum-credited_count-le ps ds h,
)

counts_met :
    (ds : List ApprovalDecision) (qs : List ApproverRequirement)
    → all (λ r. leb r.count (credited_count ds r.permission)) qs ≡ true
    → sum (map (λ q. q.count) qs) ≤ sum (map (credited_count ds) (permissions_of qs))
counts_met ds [] h = omega arith
counts_met ds (q ∷ qs) h = ground (arith, counts_met ds qs)

-- Whatever satisfies a valid request are at least as many approvals as it requires.
satisfied_quorum :
    (r : ApprovalRequest)
    → IsValid r
    → is_satisfied r r.decisions ≡ true
    → r.required_approvals ≤ count_by (λ d. is_approve d.decision) r.decisions
unfolding is_satisfied
satisfied_quorum r v h = elim v.required [
  | inl e ↦ ground arith
  | inr e ↦ ground (
    arith,
    counts_met r.decisions r.approver_requirements,
    sum-credited_count-le (permissions_of r.approver_requirements) r.decisions
        v.distinct_permissions,
  )
]

-- A reachable approved request holds at least the required number of approvals, all by different
-- actors, none of them the maker where duties are separated, and no rejection. Under named
-- requirements the number is the sum of their counts, so nobody is counted for two of them.
pub approved_quorum :
    {r : ApprovalRequest}
    → Reachable r
    → r.status ≡ approved
    → (r.required_approvals ≤ length (actors_of r.decisions))
      × (distinct Text-discrete (actors_of r.decisions) ≡ true)
      × ((r.separation_of_duties && includes Text-discrete r.maker_id (actors_of r.decisions))
          ≡ false)
      × (has_rejection r.decisions ≡ false)
      × ((length r.approver_requirements ≡ 0)
          ⊎ (r.required_approvals ≡ sum (map (λ q. q.count) r.approver_requirements)))
approved_quorum {r} h e =
    let v = Reachable-IsValid h in
    let fits : StatusFits approved (has_rejection r.decisions) (is_satisfied r r.decisions) =
      subst
        (λ (s : ApprovalStatus).
          StatusFits s (has_rejection r.decisions) (is_satisfied r r.decisions))
        e v.status_fits in
    (
      omega (
        arith,
        satisfied_quorum r v fits.1,
        count_by-le-length (λ (d : ApprovalDecision). is_approve d.decision) r.decisions,
        length-map (λ (d : ApprovalDecision). d.actor_id) r.decisions,
      ),
      v.distinct_actors,
      v.maker_apart,
      fits.0,
      v.required,
    )
