-- ===== src/Approval/Types.antt =====
-- The data of approvals, and `proposeApproval`.
use sintius.Prelude.{
  ℕ, ◌+◌, ◌*◌, Bool, true, false, ◌||◌, not, ◌==◌, if◌then◌else◌, Option, List, [], map, any, sum,
  length, distinct, Text, Text-discrete, text_eq, is_blank,
}
use sintius.Problem.{
  Outcome, ok, throw_if, ◌>>=◌, ◌>>◌, invalid_trusted_context, approval_target_mismatch,
}
use sintius.Time.{Instant, Date, instant, to_iso}

pub data ApprovalStatus : Type 0 where
  pending approved rejected expired cancelled : ApprovalStatus

pub ApprovalStatus-discrete : Discrete ApprovalStatus
ApprovalStatus-discrete = hlevel

pub data ApprovalDecisionKind : Type 0 where
  approve reject : ApprovalDecisionKind

abbrev pub is_approve : ApprovalDecisionKind → Bool
is_approve approve = true
is_approve reject = false

abbrev pub is_pending : ApprovalStatus → Bool
is_pending pending = true
is_pending _ = false

pub record ApproverRequirement : Type 0 where
  pub permission : Text
  pub count : ℕ

pub record ApprovalPolicy : Type 0 where
  pub tenant_id : Text
  pub action_type : Text
  pub required_approvals : ℕ
  pub separation_of_duties : Bool
  pub expires_after_seconds : ℕ
  pub approver_requirements : List ApproverRequirement

pub record ApprovalDecision : Type 0 where
  pub actor_id : Text
  pub decision : ApprovalDecisionKind
  pub decided_at : Instant
  pub reason : Option Text
  -- The requirement that the decision was counted toward.
  pub credited_permission : Option Text

-- The action, resource and version that a decision applies to.
pub record ApprovalTarget : Type 0 where
  pub action_type : Text
  pub target_type : Text
  pub target_id : Text
  pub target_version : ℕ

pub record ApprovalRequest : Type 0 where
  pub id : Text
  pub tenant_id : Text
  pub target : ApprovalTarget
  pub maker_id : Text
  pub required_approvals : ℕ
  pub separation_of_duties : Bool
  pub approver_requirements : List ApproverRequirement
  pub status : ApprovalStatus
  pub decisions : List ApprovalDecision
  pub version : ℕ
  pub created_at : Instant
  pub expires_at : Instant

pub record ProposeApprovalInput : Type 0 where
  pub id : Text
  pub target : ApprovalTarget
  pub policy : ApprovalPolicy
  pub maker_id : Text

-- `requireNonBlank`
abbrev pub require_non_blank : Text → Outcome (Unit {0})
require_non_blank value = throw_if (is_blank value) invalid_trusted_context

abbrev pub permissions_of : List ApproverRequirement → List Text
permissions_of = map (λ r. r.permission)

-- The test that refuses a policy's approver requirements.
unfoldable pub requirements_invalid : List ApproverRequirement → Bool
requirements_invalid requirements =
    not (distinct Text-discrete (permissions_of requirements))
    || any (λ r. is_blank r.permission || r.count == 0) requirements

-- The request that `proposeApproval` returns.
unfoldable pub proposal : ProposeApprovalInput → Instant → Instant → ApprovalRequest
proposal input created expires_at =
    let policy = input.policy in
    let requirements = policy.approver_requirements in
    record {
      id = input.id;
      tenant_id = policy.tenant_id;
      target = input.target;
      maker_id = input.maker_id;
      required_approvals =
          if length requirements == 0
          then policy.required_approvals
          else sum (map (λ r. r.count) requirements);
      separation_of_duties = policy.separation_of_duties;
      approver_requirements = requirements;
      status = pending;
      decisions = [];
      version = 1;
      created_at = created;
      expires_at = expires_at;
    }

unfoldable pub propose_approval : ProposeApprovalInput → Date → Outcome ApprovalRequest
unfolding requirements_invalid
propose_approval input now = do
  let policy = input.policy
  let target = input.target
  require_non_blank input.id
  require_non_blank target.action_type
  require_non_blank target.target_type
  require_non_blank target.target_id
  throw_if (not (text_eq target.action_type policy.action_type)) approval_target_mismatch
  throw_if (target.target_version == 0) invalid_trusted_context
  throw_if (policy.required_approvals == 0 || policy.expires_after_seconds == 0)
      invalid_trusted_context
  let requirements = policy.approver_requirements
  throw_if (requirements_invalid requirements) invalid_trusted_context
  created ← instant now
  expires_at ← to_iso (created + policy.expires_after_seconds * 1000)
  ok (proposal input created expires_at)
