-- ===== src/Approval/Lifecycle.antt =====
-- A request from its proposal on: the steps that the aggregate takes, and what they keep.
use sintius.Approval.Closing.{cancel-Closed, expire-Closed, cancel-IsValid, expire-IsValid}
use sintius.Approval.Decide.{
  DecideInput, decide_approval, cancel_approval, expire_approval, with_decision,
}
use sintius.Approval.Decision.{entry_of, decide-Decided}
use sintius.Approval.Invariant.{IsValid, decide-IsValid}
use sintius.Approval.Proposal.{propose-IsValid}
use sintius.Approval.Types.{
  ApprovalStatus, pending, expired, cancelled, is_pending, ApprovalDecision, ApprovalRequest,
  ProposeApprovalInput, propose_approval,
}
use sintius.Prelude.{
  ℕ, ◌+◌, ◌≡◌, ◌⊎◌, inl, inr, refl, false, none, some, List, [], ◌∷◌, ◌++◌, Text, arith, ◌==◌,
  if◌then◌else◌,
}
use sintius.Problem.{ok, problem, approval_version_conflict, approval_not_pending}
use sintius.Time.{Date}

-- One successful call on a request.
pub data Step : ApprovalRequest → ApprovalRequest → Type 0 where
  decides :
      {r next : ApprovalRequest} (input : DecideInput) (now : Date)
      → decide_approval r input now ≡ ok next
      → Step r next
  cancels :
      {r next : ApprovalRequest} (actor : Text) (n : ℕ)
      → cancel_approval r actor n ≡ ok next
      → Step r next
  expires :
      {r next : ApprovalRequest} (n : ℕ) (now : Date)
      → expire_approval r n now ≡ ok next
      → Step r next

-- The requests that some sequence of calls leads to.
pub data Reachable : ApprovalRequest → Type 0 where
  proposed :
      {r : ApprovalRequest} (input : ProposeApprovalInput) (now : Date)
      → propose_approval input now ≡ ok r
      → Reachable r
  then_step : {r next : ApprovalRequest} → Reachable r → Step r next → Reachable next

pub Step-IsValid : {r next : ApprovalRequest} → IsValid r → Step r next → IsValid next
Step-IsValid {r} v (decides input now e) = decide-IsValid r input now v e
Step-IsValid {r} v (cancels actor n e) = cancel-IsValid r actor n v e
Step-IsValid {r} v (expires n now e) = expire-IsValid r n now v e

-- Every reachable request is valid: no actor decided twice, the maker did not decide where duties are
-- separated, the version counts the transitions, and the status agrees with the decisions.
pub Reachable-IsValid : {r : ApprovalRequest} → Reachable r → IsValid r
Reachable-IsValid (proposed input now e) = (propose-IsValid input now e).0
Reachable-IsValid (then_step h s) = Step-IsValid (Reachable-IsValid h) s

-- Nothing expires at an invalid date.
expire_undated :
    (r : ApprovalRequest) (n : ℕ) {next : ApprovalRequest} → expire_approval r n none ≡ ok next → ⊥
unfolding expire_approval
expire_undated r n e = ground arith

-- What a request keeps: its identity, target and policy.
pub record SameTerms (r next : ApprovalRequest) : Type 0 where
  pub id : next.id ≡ r.id
  pub tenant_id : next.tenant_id ≡ r.tenant_id
  pub target : next.target ≡ r.target
  pub maker_id : next.maker_id ≡ r.maker_id
  pub required_approvals : next.required_approvals ≡ r.required_approvals
  pub separation_of_duties : next.separation_of_duties ≡ r.separation_of_duties
  pub approver_requirements : next.approver_requirements ≡ r.approver_requirements
  pub created_at : next.created_at ≡ r.created_at
  pub expires_at : next.expires_at ≡ r.expires_at

-- What a step does to a request.
pub record Extends (r next : ApprovalRequest) : Type 0 where
  pub was_pending : r.status ≡ pending
  pub version : next.version ≡ r.version + 1
  pub terms : SameTerms r next
  pub decisions :
      (next.decisions ≡ r.decisions)
      ⊎ ((d : ApprovalDecision) × (next.decisions ≡ r.decisions ++ d ∷ []))

same_terms :
    (r : ApprovalRequest) (s : ApprovalStatus) (ds : List ApprovalDecision) (n : ℕ)
    → SameTerms r (record r { status = s; decisions = ds; version = n })
same_terms r s ds n = record {
  id = refl;
  tenant_id = refl;
  target = refl;
  maker_id = refl;
  required_approvals = refl;
  separation_of_duties = refl;
  approver_requirements = refl;
  created_at = refl;
  expires_at = refl;
}

with_decision-Extends :
    (r : ApprovalRequest) (d : ApprovalDecision)
    → r.status ≡ pending
    → Extends r (with_decision r d)
unfolding with_decision
with_decision-Extends r d e = record {
  was_pending = e;
  version = refl;
  terms = same_terms r _ _ _;
  decisions = inr (d, refl);
}

closed-Extends :
    (r : ApprovalRequest) (s : ApprovalStatus)
    → r.status ≡ pending
    → Extends r (record r { status = s; version = r.version + 1 })
closed-Extends r s e = record {
  was_pending = e;
  version = refl;
  terms = same_terms r s r.decisions (r.version + 1);
  decisions = inl refl;
}

-- Each call that succeeds found the request pending, raises its version by one, keeps its identity,
-- target and policy, and keeps every decision made so far, with at most one more behind them.
pub Step-Extends : {r next : ApprovalRequest} → Step r next → Extends r next
Step-Extends {r} (decides input now e) =
    let d = decide-Decided r input now e in
    rw d.result (with_decision-Extends r (entry_of input d.decided_at d.credited) d.was_pending)
Step-Extends {r} (cancels actor n e) =
    let (c, _) = cancel-Closed r actor n e in rw c.2 (closed-Extends r cancelled c.0)
Step-Extends {r} {next} (expires n now e) = by_clock now e
  where
    by_clock : (now : Date) → expire_approval r n now ≡ ok next → Extends r next
    by_clock none h = absurd (expire_undated r n h)
    by_clock (some t) h =
        let (c, _) = expire-Closed r n t h in rw c.2 (closed-Extends r expired c.0)

-- A settled request is final: at its version each of the three calls is refused as not pending, and at
-- another version as a conflict, whatever the other arguments.
pub settled_final :
    (r : ApprovalRequest) (input : DecideInput) (actor : Text) (now : Date)
    → is_pending r.status ≡ false
    → let refusal =
        if r.version == input.expected_version
        then approval_not_pending
        else approval_version_conflict in
      (decide_approval r input now ≡ problem refusal)
      × (cancel_approval r actor input.expected_version ≡ problem refusal)
      × (expire_approval r input.expected_version now ≡ problem refusal)
unfolding decide_approval cancel_approval expire_approval
settled_final r input actor now h = (ground arith, ground arith, ground arith)
