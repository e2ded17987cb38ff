-- ===== src/Approval/Decision.antt =====
-- What a recorded decision needs and does.
use sintius.Approval.Types.{pending, ApprovalDecision, ApprovalRequest}
use sintius.Approval.Decide.{
  same_target, credit_for, DecideInput, stated_reason, with_decision, decide_approval,
}
use sintius.Prelude.{
  ◌<◌, ◌≡◌, refl, true, false, ◌&&◌, Option, none, some, any, Text, text_eq, arith, inl, inr,
}
use sintius.Problem.{ok, Outcome-cases}
use sintius.Time.{Instant, Date}

-- The decision that `decide_approval` records.
abbrev pub entry_of : DecideInput → Instant → Option Text → ApprovalDecision
entry_of input decided_at credited = record {
  actor_id = input.approver_id;
  decision = input.decision;
  decided_at = decided_at;
  reason = stated_reason input.reason;
  credited_permission = credited;
}

-- What holds where `decide_approval` returned `next`.
pub record Decided (request : ApprovalRequest) (input : DecideInput) (now : Date)
    (next : ApprovalRequest) : Type 0 where
  pub decided_at : Instant
  pub credited : Option Text
  pub clock : now ≡ some decided_at
  pub version : request.version ≡ input.expected_version
  pub was_pending : request.status ≡ pending
  pub in_time : decided_at < request.expires_at
  pub on_target : same_target input.target request.target ≡ true
  pub not_maker :
      (request.separation_of_duties && text_eq input.approver_id request.maker_id) ≡ false
  pub first_time : any (λ d. text_eq d.actor_id input.approver_id) request.decisions ≡ false
  pub credit : credit_for request input.decision input.approver_permissions ≡ ok credited
  pub result : next ≡ with_decision request (entry_of input decided_at credited)

-- A decision that is recorded was made on a pending request at the version and target it names,
-- before the expiry, by somebody who has not decided before and who is not the maker where duties are
-- separated; the result appends that one decision.
pub decide-Decided :
    (request : ApprovalRequest) (input : DecideInput) (now : Date) {next : ApprovalRequest}
    → decide_approval request input now ≡ ok next
    → Decided request input now next
unfolding decide_approval
decide-Decided request input none e = ground arith
decide-Decided request input (some t) {next} e =
    elim (Outcome-cases (credit_for request input.decision input.approver_permissions)) [
      | inl (credited, c) ↦ record {
        decided_at = t;
        credited = credited;
        clock = refl;
        version = ground arith;
        was_pending = ground arith;
        in_time = ground arith;
        on_target = ground arith;
        not_maker = ground arith;
        first_time = ground arith;
        credit = c;
        result = ground arith;
      }
      | inr c ↦ absurd (ground arith)
    ]
