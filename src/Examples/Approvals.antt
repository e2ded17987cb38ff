-- ===== src/Examples/Approvals.antt =====
-- A request that is proposed by one actor and approved by another (modules/audit-governance).
use sintius.Prelude.{
  ◌≡◌, ◌≤◌, ◌<◌, ◌⊎◌, refl, ◌&&◌, true, false, [], ◌∷◌, text, Text-discrete, ℕ_discrete, some, none,
  is_space, trim, trim_start, length, distinct, includes, sum, map,
}
use sintius.Problem.{ok, problem, approval_version_conflict}
use sintius.Approval.Types.{
  pending, approved, approve, ApproverRequirement, ApprovalPolicy, ApprovalTarget, ApprovalRequest,
  ProposeApprovalInput, requirements_invalid, proposal, propose_approval,
}
use sintius.Approval.Decide.{
  assert_pending, credit_for, is_satisfied, DecideInput, status_after, with_decision,
  decide_approval, cancel_approval, expire_approval,
}
use sintius.Approval.Decision.{entry_of, Decided, decide-Decided}
use sintius.Approval.Invariant.{IsValid, decide-IsValid, actors_of, has_rejection}
use sintius.Approval.Proposal.{propose-IsValid}
use sintius.Approval.Lifecycle.{
  Step, decides, Reachable, proposed, then_step, Reachable-IsValid, Extends, Step-Extends,
  settled_final,
}
use sintius.Approval.Quorum.{approved_quorum}

abbrev pub refund : ApprovalTarget
refund = record {
  action_type = text "refund";
  target_type = text "invoice";
  target_id = text "i1";
  target_version = 3;
}

abbrev policy : ApprovalPolicy
policy = record {
  tenant_id = text "t1";
  action_type = text "refund";
  required_approvals = 1;
  separation_of_duties = true;
  expires_after_seconds = 60;
  approver_requirements = [];
}

abbrev proposal_input : ProposeApprovalInput
proposal_input = record {
  id = text "a1";
  target = refund;
  policy = policy;
  maker_id = text "maker";
}

abbrev pub open_request : ApprovalRequest
open_request = record {
  id = text "a1";
  tenant_id = text "t1";
  target = refund;
  maker_id = text "maker";
  required_approvals = 1;
  separation_of_duties = true;
  approver_requirements = [];
  status = pending;
  decisions = [];
  version = 1;
  created_at = 1000;
  expires_at = 61000;
}

opened : propose_approval proposal_input (some 1000) ≡ ok open_request
unfolding propose_approval requirements_invalid proposal is_space trim trim_start Text-discrete
    ℕ_discrete
opened = refl

abbrev approval : DecideInput
approval = record {
  approver_id = text "checker";
  decision = approve;
  expected_version = 1;
  target = refund;
  reason = none;
  approver_permissions = [];
}

abbrev approved_request : ApprovalRequest
approved_request = record open_request {
  status = approved;
  decisions = entry_of approval 2000 none ∷ [];
  version = 2;
}

decided : decide_approval open_request approval (some 2000) ≡ ok approved_request
unfolding decide_approval assert_pending credit_for is_satisfied status_after with_decision
    Text-discrete ℕ_discrete
decided = refl

open-Reachable : Reachable open_request
open-Reachable = proposed proposal_input (some 1000) opened

approval-Step : Step open_request approved_request
approval-Step = decides approval (some 2000) decided

approved-Reachable : Reachable approved_request
approved-Reachable = then_step open-Reachable approval-Step

decide-Decided_example : Decided open_request approval (some 2000) approved_request
decide-Decided_example = decide-Decided open_request approval (some 2000) decided

opened-IsValid : IsValid open_request × (1000 < 61000)
opened-IsValid = propose-IsValid proposal_input (some 1000) opened

decide-IsValid_example : IsValid approved_request
decide-IsValid_example = decide-IsValid open_request approval (some 2000) opened-IsValid.0 decided

Reachable-IsValid_example : IsValid approved_request
Reachable-IsValid_example = Reachable-IsValid approved-Reachable

Step-Extends_example : Extends open_request approved_request
Step-Extends_example = Step-Extends approval-Step

settled_final_example :
    (decide_approval approved_request approval (some 3000) ≡ problem approval_version_conflict)
    × (cancel_approval approved_request (text "maker") 1 ≡ problem approval_version_conflict)
    × (expire_approval approved_request 1 (some 3000) ≡ problem approval_version_conflict)
settled_final_example = settled_final approved_request approval (text "maker") (some 3000) refl

approved_quorum_example :
    (1 ≤ length (actors_of approved_request.decisions))
    × (distinct Text-discrete (actors_of approved_request.decisions) ≡ true)
    × ((true && includes Text-discrete (text "maker") (actors_of approved_request.decisions))
        ≡ false)
    × (has_rejection approved_request.decisions ≡ false)
    × ((length approved_request.approver_requirements ≡ 0)
        ⊎ (approved_request.required_approvals
            ≡ sum (
                map (λ (q : ApproverRequirement). q.count) approved_request.approver_requirements)))
approved_quorum_example = approved_quorum approved-Reachable refl
