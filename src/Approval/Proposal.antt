-- ===== src/Approval/Proposal.antt =====
-- A proposed request is valid.
use sintius.Approval.Invariant.{IsValid}
use sintius.Approval.Types.{
  ApproverRequirement, ApprovalRequest, ProposeApprovalInput, proposal, propose_approval,
  permissions_of, requirements_invalid,
}
use sintius.Approval.Decide.{credited_count, is_satisfied}
use sintius.Prelude.{
  ℕ, ◌+◌, ◌*◌, ◌<◌, ◌≡◌, refl, true, false, leb, none, some, List, [], ◌∷◌, map, all, sum, length,
  distinct, Text-discrete, arith, if◌then◌else◌, ◌==◌, inl, inr, ◌⊎◌,
}
use sintius.Problem.{ok}
use sintius.Time.{Instant, Date}

-- What holds where a request was proposed.
record Proposed (input : ProposeApprovalInput) (t : Instant) (next : ApprovalRequest) : Type 0 where
  required : (input.policy.required_approvals == 0) ≡ false
  requirements : requirements_invalid input.policy.approver_requirements ≡ false
  lifetime : (input.policy.expires_after_seconds == 0) ≡ false
  result : next ≡ proposal input t (t + input.policy.expires_after_seconds * 1000)

propose-Proposed :
    (input : ProposeApprovalInput) (t : Instant) {next : ApprovalRequest}
    → propose_approval input (some t) ≡ ok next
    → Proposed input t next
unfolding propose_approval
propose-Proposed input t e = record {
  required = ground arith;
  requirements = ground arith;
  lifetime = ground arith;
  result = ground arith;
}

-- No decision satisfies nothing: each requirement, or the number of approvals, is at least one.
unsatisfied_by :
    (n : ℕ) (requirements : List ApproverRequirement)
    → (n == 0) ≡ false
    → requirements_invalid requirements ≡ false
    → (if length requirements == 0
        then leb (if length requirements == 0 then n else sum (map (λ q. q.count) requirements)) 0
        else all (λ q. leb q.count (credited_count [] q.permission)) requirements)
      ≡ false
unfolding requirements_invalid
unsatisfied_by n [] h k = ground arith
unsatisfied_by n (q ∷ requirements) h k = ground arith

required_by :
    (n : ℕ) (requirements : List ApproverRequirement)
    → (length requirements ≡ 0)
      ⊎ ((if length requirements == 0 then n else sum (map (λ q. q.count) requirements))
          ≡ sum (map (λ q. q.count) requirements))
required_by n [] = inl refl
required_by n (q ∷ requirements) = inr (ground arith)

later : (n : ℕ) → (n == 0) ≡ false → 0 < n
later n h = ground arith

permissions_by :
    (requirements : List ApproverRequirement)
    → requirements_invalid requirements ≡ false
    → distinct Text-discrete (permissions_of requirements) ≡ true
unfolding requirements_invalid
permissions_by requirements h = ground arith

proposal-IsValid :
    (input : ProposeApprovalInput) (t u : Instant)
    → (input.policy.required_approvals == 0) ≡ false
    → requirements_invalid input.policy.approver_requirements ≡ false
    → IsValid (proposal input t u)
unfolding proposal is_satisfied
proposal-IsValid input t u h k =
    let policy = input.policy in
    record {
      distinct_actors = refl;
      maker_apart = ground arith;
      distinct_permissions = permissions_by policy.approver_requirements k;
      required = required_by policy.required_approvals policy.approver_requirements;
      status_fits =
          (refl, unsatisfied_by policy.required_approvals policy.approver_requirements h k);
      version_counts = refl;
    }

-- A request that is proposed is valid and expires after it was created.
pub propose-IsValid :
    (input : ProposeApprovalInput) (now : Date) {next : ApprovalRequest}
    → propose_approval input now ≡ ok next
    → IsValid next × (next.created_at < next.expires_at)
unfolding propose_approval proposal
propose-IsValid input none e = absurd (ground arith)
propose-IsValid input (some t) e =
    let p = propose-Proposed input t e in
    (
      rw p.result (proposal-IsValid input t _ p.required p.requirements),
      rw (p.result, proposal) (omega (arith, later input.policy.expires_after_seconds p.lifetime)),
    )
