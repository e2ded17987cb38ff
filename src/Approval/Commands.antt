-- ===== src/Approval/Commands.antt =====
-- The maker-checker commands (modules/audit-governance/application/approval-commands.ts) on the requests of
-- modules/audit-governance/infrastructure/postgres/approval-persistence.ts. A command is one transaction: when it throws,
-- the requests stay. The policies, the roles behind the authorizer, and the call that records the
-- audit fact and the event are parameters.
use sintius.Prelude.{
  ℕ, not, ◌&&◌, ◌==◌, if◌then◌else◌, Option, none, some, List, [], ◌∷◌, Text, text, text_eq,
}
use sintius.Problem.{
  Outcome, ok, problem, fault, error, ◌>>=◌, ◌>>◌, throw_if, permission_denied,
  authentication_assurance_insufficient, approval_not_found, approval_policy_not_found,
  approval_version_conflict,
}
use sintius.Time.{Date}
use sintius.Context.Principal.{TenantContext}
use sintius.Context.Resolver.{current_tenant_context}
use sintius.Access.Authorizer.{
  Dependencies, has_permission, assert_permission, is_interactive, is_mfa,
}
use sintius.Approval.Types.{
  ApprovalDecisionKind, ApproverRequirement, ApprovalPolicy, ApprovalTarget, ApprovalRequest,
  propose_approval,
}
use sintius.Approval.Decide.{DecideInput, decide_approval, cancel_approval}

-- `approval_request`, under the key of tenant and id.
abbrev pub Requests : Type 0
Requests = Text → Text → Option ApprovalRequest

unfoldable pub put : ApprovalRequest → Requests → Requests
put request requests tenant id =
    if text_eq request.tenant_id tenant && text_eq request.id id
    then some request
    else requests tenant id

-- `approvals.insert`; a second row under a key violates the primary key.
unfoldable pub insert_request : ApprovalRequest → Requests → Outcome Requests
insert_request request requests = elim (requests request.tenant_id request.id) [
  | none ↦ ok (put request requests)
  | some found ↦ fault error
]

-- The SET clause of `update`.
abbrev pub changed_row : ApprovalRequest → ApprovalRequest → ApprovalRequest
changed_row found request = record found {
  status = request.status;
  decisions = request.decisions;
  version = request.version;
}

-- `approvals.update`, which compares the stored version.
unfoldable pub update_request : ApprovalRequest → ℕ → Requests → Outcome Requests
update_request request expected requests = elim (requests request.tenant_id request.id) [
  | none ↦ problem approval_version_conflict
  | some found ↦
      if found.version == expected
      then ok (put (changed_row found request) requests)
      else problem approval_version_conflict
]

pub record DecideApprovalCommand : Type 0 where
  pub approval_id : Text
  pub decision : ApprovalDecisionKind
  pub expected_version : ℕ
  pub target : ApprovalTarget
  pub reason : Option Text

-- `load`
unfoldable pub load : TenantContext → Text → Requests → Outcome ApprovalRequest
load context id requests = elim (requests context.tenant_id id) [
  | none ↦ problem approval_not_found
  | some request ↦
      throw_if (not (text_eq request.tenant_id context.tenant_id)) approval_not_found >> ok request
]

module _ (d : Dependencies) (note : ApprovalRequest → Outcome (Unit {0})) where
  -- The loop of `decide` over the requirements: the permissions that the approver holds now.
  unfoldable pub held_permissions :
      Option TenantContext → List ApproverRequirement → Outcome (List Text)
  held_permissions current [] = ok []
  held_permissions current (r ∷ requirements) = do
    holds ← has_permission d current r.permission []
    rest ← held_permissions current requirements
    ok (if holds then r.permission ∷ rest else rest)

  -- `propose`, with the id that the generator gives.
  unfoldable pub propose :
      (Text → Text → Option ApprovalPolicy)
      → Text
      → Option TenantContext
      → ApprovalTarget
      → Date
      → Requests
      → Outcome (ApprovalRequest × Requests)
  propose policies id current target now requests = do
    assert_permission d current (text "approval:request:propose") []
    context ← current_tenant_context current
    elim (policies context.tenant_id target.action_type) [
      | none ↦ problem approval_policy_not_found
      | some policy ↦
          throw_if (not (text_eq policy.tenant_id context.tenant_id)) approval_policy_not_found
          >> (propose_approval
                (record { id = id; target = target; policy = policy; maker_id = context.actor_id })
                now
              >>= λ request. insert_request request requests >>= λ stored.
                  note request >> ok (request, stored))
    ]

  unfoldable pub decide_input : TenantContext → DecideApprovalCommand → List Text → DecideInput
  decide_input context input permissions = record {
    approver_id = context.actor_id;
    decision = input.decision;
    expected_version = input.expected_version;
    target = input.target;
    reason = input.reason;
    approver_permissions = permissions;
  }

  -- `decide`
  unfoldable pub decide :
      Option TenantContext
      → DecideApprovalCommand
      → Date
      → Requests
      → Outcome (ApprovalRequest × Requests)
  decide current input now requests = do
    assert_permission d current (text "approval:request:decide") []
    context ← current_tenant_context current
    throw_if (not (is_interactive context.principal_kind)) permission_denied
    throw_if (not (is_mfa context.assurance)) authentication_assurance_insufficient
    request ← load context input.approval_id requests
    permissions ← held_permissions current request.approver_requirements
    next ← decide_approval request (decide_input context input permissions) now
    stored ← update_request next request.version requests
    note next
    ok (next, stored)

  -- `cancel`
  unfoldable pub cancel :
      Option TenantContext → Text → ℕ → Requests → Outcome (ApprovalRequest × Requests)
  cancel current approval_id expected_version requests = do
    assert_permission d current (text "approval:request:propose") []
    context ← current_tenant_context current
    request ← load context approval_id requests
    next ← cancel_approval request context.actor_id expected_version
    stored ← update_request next request.version requests
    note next
    ok (next, stored)
