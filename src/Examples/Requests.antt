-- ===== src/Examples/Requests.antt =====
-- Idempotent requests, the cache and a stored decision (platform/idempotency, platform/tenant-context,
-- modules/audit-governance).
use sintius.Prelude.{
  ℕ, suc, ◌≤◌, ◌≡◌, refl, arith, true, false, if◌then◌else◌, [], ◌∷◌, length, Text, text, text_eq,
  Text-discrete, ℕ_discrete, some, none,
}
use sintius.Problem.{Outcome, ok, problem, idempotency_key_reused_with_different_payload}
use sintius.Idempotency.Payload.{
  Json, null, string, object, member, no_member, normalize_key, lower, contains_tenant_identity,
  visit, within,
}
use sintius.Idempotency.Keys.{is_scope, is_key, matches, to_lower_case}
use sintius.Idempotency.Executor.{
  StoredResponse, Records, write, IdempotentRequest, IdempotentResult, checked_key, claim, complete,
  check_response, is_http_status, processing_record, carry_out, in_transaction, claim_input,
  execute,
}
use sintius.Idempotency.Replay.{Passed, execute-replays, claim_at, finished}
use sintius.Idempotency.Isolation.{execute-isolated}
use sintius.Cache.Store.{Slots, delete, evict, get, set}
use sintius.Prelude.Int.{pos}
use sintius.Cache.Store.{fraction}
use sintius.Cache.Recency.{is_lifetime, is_alive, set-get}
use sintius.Approval.Types.{ApprovalRequest}
use sintius.Approval.Decide.{
  assert_pending, credit_for, is_satisfied, status_after, with_decision, decide_approval,
}
use sintius.Approval.Commands.{
  Requests, put, update_request, DecideApprovalCommand, load, held_permissions, decide_input,
  decide,
}
use sintius.Approval.Authority.{Authorized, decide-Authorized}
use sintius.Approval.Types.{approve}
use sintius.Access.Permissions.{
  is_known_permission, role_grants, granted_by_roles, constraints_satisfied,
}
use sintius.Access.Authorizer.{granted_to, narrow, narrowed, has_permission, assert_permission}
use sintius.Context.Resolver.{current_tenant_context}
use sintius.Examples.Access.{stores, context}
use sintius.Examples.Approvals.{open_request, refund}

abbrev payload : Json
payload = object (member (text "name") (string (text "Acme")) no_member)

abbrev request : IdempotentRequest
request = record {
  scope = text "tenants";
  key = some (text "8f14e45f-ceea-467f-a0e6-1c2d3e4f5a6b");
  payload = payload;
}

abbrev response : StoredResponse
response = record { status = some 201; body = null }

-- The command counts how often it ran.
abbrev work : ℕ → Outcome (StoredResponse × ℕ)
work n = ok (response, suc n)

abbrev hash : Text → Json → Text
hash scope body = scope

abbrev no_records : Records
no_records tenant scope key = none

abbrev result : IdempotentResult
result = record { response = response; replayed = false }

abbrev stored : Records
stored =
    write
      (finished
        (claim_at ℕ hash 60 (text "t1") request (text "8f14e45f-ceea-467f-a0e6-1c2d3e4f5a6b") 1000)
        response)
      (write
        (processing_record (
          claim_at ℕ hash 60 (text "t1") request (text "8f14e45f-ceea-467f-a0e6-1c2d3e4f5a6b")
            1000))
        no_records)

ran : execute ℕ hash 60 (text "t1") request (ok tt) work 1000 no_records 0 ≡ ok (result, stored, 1)
unfolding execute is_scope checked_key is_key matches to_lower_case lower contains_tenant_identity
    visit normalize_key within in_transaction claim complete write carry_out check_response
    is_http_status processing_record claim_input Text-discrete ℕ_discrete
ran = refl

passed : Passed ℕ hash 60 request (ok tt) 2000 (text "8f14e45f-ceea-467f-a0e6-1c2d3e4f5a6b")
unfolding Passed is_scope checked_key is_key matches to_lower_case lower contains_tenant_identity
    visit normalize_key within Text-discrete ℕ_discrete
passed = (refl, refl, refl, refl, refl, omega arith)

execute-replays_example : execute ℕ hash 60 (text "t1") request (ok tt) work 2000 stored 1 ≡ (
    if text_eq (hash request.scope payload) (hash request.scope payload)
    then ok (record { response = response; replayed = true }, stored, 1)
    else problem idempotency_key_reused_with_different_payload)
execute-replays_example =
    execute-replays ℕ hash 60 (text "t1") request request (ok tt) (ok tt) work work 1000 2000
      no_records stored 0 1 result (text "8f14e45f-ceea-467f-a0e6-1c2d3e4f5a6b") ran refl refl refl
      passed (omega arith)

other_tenant : text_eq (text "t1") (text "t2") ≡ false
unfolding Text-discrete ℕ_discrete
other_tenant = refl

execute-isolated_example :
    (stored (text "t2") (text "tenants") (text "k")
      ≡ no_records (text "t2") (text "tenants") (text "k"))
    × (Outcome.ok tt ≡ ok (tt {0}))
execute-isolated_example =
    execute-isolated ℕ hash 60 (text "t1") request (ok tt) work 1000 no_records stored 0 1 result
      (text "t2") (text "tenants") (text "k") ran other_tenant

clean : contains_tenant_identity payload ≡ false
unfolding contains_tenant_identity visit normalize_key lower Text-discrete ℕ_discrete
clean = refl

abbrev full : Slots ℕ
full = (text "a", 1, none) ∷ (text "b", 2, none) ∷ []

abbrev renewed : Slots ℕ
renewed = (text "b", 2, none) ∷ (text "c", 3, some (5000, 0)) ∷ []

replaced : set 2 none (text "c") 3 (some (fraction (pos 5) 0)) 0 full ≡ ok renewed
unfolding set evict delete Text-discrete ℕ_discrete
replaced = refl

set-get_example :
    (length renewed ≤ 2)
    × (is_lifetime (some (fraction (pos 5) 0)) ≡ true)
    × ((get (text "c") 4999 renewed).0
        ≡ (if is_alive (some (fraction (pos 5) 0)) 0 4999 then some 3 else none))
    × (length (get (text "c") 4999 renewed).1 ≤ 2)
set-get_example =
    set-get 2 none (text "c") 3 (some (fraction (pos 5) 0)) 0 4999 full renewed (omega arith)
      replaced

abbrev requests : Requests
requests tenant id = some open_request

abbrev command : DecideApprovalCommand
command = record {
  approval_id = text "a1";
  decision = approve;
  expected_version = 1;
  target = refund;
  reason = none;
}

abbrev note : ApprovalRequest → Outcome (Unit {0})
note r = ok tt

abbrev next : ApprovalRequest
next = with_decision open_request (record {
  actor_id = text "ada";
  decision = approve;
  decided_at = 2000;
  reason = none;
  credited_permission = none;
})

decided :
    decide stores note (some context) command (some 2000) requests ≡ ok (next, put next requests)
unfolding decide decide_input load held_permissions update_request put decide_approval
    assert_pending credit_for is_satisfied status_after with_decision assert_permission
    has_permission granted_to narrow narrowed current_tenant_context granted_by_roles role_grants
    constraints_satisfied is_known_permission Text-discrete ℕ_discrete
decided = refl

decide-Authorized_example :
    Authorized stores note context command (some 2000) requests (put next requests) next
decide-Authorized_example =
    decide-Authorized stores note context command (some 2000) requests (put next requests) next
      decided
