-- ===== src/Approval/Decide.antt =====
-- `decideApproval`, `cancelApproval` and `expireApproval`.
use sintius.Approval.Types.{
  ApprovalStatus, pending, approved, rejected, expired, cancelled, ApprovalDecisionKind, approve,
  reject, is_approve, is_pending, ApproverRequirement, ApprovalDecision, ApprovalTarget,
  ApprovalRequest,
}
use sintius.Prelude.{
  ℕ, ◌+◌, Bool, false, ◌&&◌, not, ◌==◌, ltb, leb, if◌then◌else◌, Option, none, some, List, [], ◌∷◌,
  ◌++◌, any, all, filter, find?, count_by, length, includes, Text, Text-discrete, text_eq, trim,
}
use sintius.Problem.{
  Outcome, ok, problem, throw_if, ◌>>=◌, ◌>>◌, approval_version_conflict, approval_not_pending,
  approval_expired, approval_target_mismatch, separation_of_duties_violation,
  approval_approver_not_eligible, permission_denied,
}
use sintius.Time.{Date, instant}

-- `assertPending`
unfoldable pub assert_pending : ApprovalRequest → ℕ → Outcome (Unit {0})
assert_pending request expected_version =
    throw_if (not (request.version == expected_version)) approval_version_conflict
    >> throw_if (not (is_pending request.status)) approval_not_pending

abbrev pub same_target : ApprovalTarget → ApprovalTarget → Bool
same_target a b =
    text_eq a.action_type b.action_type
    && text_eq a.target_type b.target_type
    && text_eq a.target_id b.target_id
    && a.target_version == b.target_version

-- `creditedPermission === permission`
abbrev pub credits : Option Text → Text → Bool
credits none permission = false
credits (some credited) permission = text_eq credited permission

-- `creditedCount`
abbrev pub credited_count : List ApprovalDecision → Text → ℕ
credited_count decisions permission =
    count_by (λ d. is_approve d.decision && credits d.credited_permission permission) decisions

-- The end of `creditFor`: the first eligible requirement that is not met.
unfoldable pub first_unmet :
    List ApprovalDecision → List ApproverRequirement → Outcome (Option Text)
first_unmet decisions eligible =
    elim (find? (λ r. ltb (credited_count decisions r.permission) r.count) eligible) [
      | some unmet ↦ ok (some unmet.permission)
      | none ↦ problem approval_approver_not_eligible
    ]

-- The part of `creditFor` after the list of eligible requirements.
unfoldable pub credit_among :
    List ApprovalDecision → ApprovalDecisionKind → List ApproverRequirement → Outcome (Option Text)
unfolding first_unmet
credit_among decisions kind [] = problem approval_approver_not_eligible
credit_among decisions reject (r ∷ eligible) = ok (some r.permission)
credit_among decisions approve (r ∷ eligible) = first_unmet decisions (r ∷ eligible)

-- `creditFor`
unfoldable pub credit_for :
    ApprovalRequest → ApprovalDecisionKind → List Text → Outcome (Option Text)
unfolding credit_among
credit_for request kind approver_permissions =
    if length request.approver_requirements == 0
    then ok none
    else credit_among request.decisions kind (
        filter (λ r. includes Text-discrete r.permission approver_permissions)
          request.approver_requirements)

-- `isSatisfied`
unfoldable pub is_satisfied : ApprovalRequest → List ApprovalDecision → Bool
is_satisfied request decisions =
    if length request.approver_requirements == 0
    then leb request.required_approvals (count_by (λ d. is_approve d.decision) decisions)
    else all (λ r. leb r.count (credited_count decisions r.permission))
        request.approver_requirements

-- The argument `input` of `decideApproval`.
pub record DecideInput : Type 0 where
  pub approver_id : Text
  pub decision : ApprovalDecisionKind
  pub expected_version : ℕ
  pub target : ApprovalTarget
  pub reason : Option Text
  pub approver_permissions : List Text

-- `input.reason?.trim()`, where a blank reason counts as absent.
abbrev pub stated_reason : Option Text → Option Text
stated_reason none = none
stated_reason (some reason) = if length (trim reason) == 0 then none else some (trim reason)

unfoldable pub status_after :
    ApprovalRequest → ApprovalDecisionKind → List ApprovalDecision → ApprovalStatus
status_after request reject decisions = rejected
status_after request approve decisions =
    if is_satisfied request decisions then approved else pending

-- The last lines of `decideApproval`: the new snapshot with one more decision.
unfoldable pub with_decision : ApprovalRequest → ApprovalDecision → ApprovalRequest
unfolding status_after
with_decision request entry =
    let decisions = request.decisions ++ entry ∷ [] in
    record request {
      status = status_after request entry.decision decisions;
      decisions = decisions;
      version = request.version + 1;
    }

unfoldable pub decide_approval : ApprovalRequest → DecideInput → Date → Outcome ApprovalRequest
unfolding assert_pending
decide_approval request input now = do
  assert_pending request input.expected_version
  decided_at ← instant now
  throw_if (leb request.expires_at decided_at) approval_expired
  throw_if (not (same_target input.target request.target)) approval_target_mismatch
  throw_if (request.separation_of_duties && text_eq input.approver_id request.maker_id)
      separation_of_duties_violation
  throw_if (any (λ d. text_eq d.actor_id input.approver_id) request.decisions)
      separation_of_duties_violation
  credited ← credit_for request input.decision input.approver_permissions
  ok (
      with_decision request (record {
        actor_id = input.approver_id;
        decision = input.decision;
        decided_at = decided_at;
        reason = stated_reason input.reason;
        credited_permission = credited;
      }))

unfoldable pub cancel_approval : ApprovalRequest → Text → ℕ → Outcome ApprovalRequest
unfolding assert_pending
cancel_approval request actor_id expected_version =
    assert_pending request expected_version
    >> throw_if (not (text_eq actor_id request.maker_id)) permission_denied
    >> ok (record request { status = cancelled; version = request.version + 1 })

unfoldable pub expire_approval : ApprovalRequest → ℕ → Date → Outcome ApprovalRequest
unfolding assert_pending
expire_approval request expected_version now = do
  assert_pending request expected_version
  at ← instant now
  throw_if (ltb at request.expires_at) approval_not_pending
  ok (record request { status = expired; version = request.version + 1 })
