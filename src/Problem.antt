-- ===== src/Problem.antt =====
-- The problem catalog (platform/problem-model/src/catalog.ts) and the outcome of a call that may
-- throw: a value, a cataloged problem, or another JavaScript error.
use sintius.Prelude.{ℕ, ◌≡◌, refl, ◌⊎◌, inl, inr, Bool, true, false, Text, text, List, [], ◌∷◌}

-- The keys of `PROBLEM_CATALOG`.
pub data ProblemCode : Type 0 where
  invalid_trusted_context : ProblemCode
  request_validation_failed : ProblemCode
  resource_not_found : ProblemCode
  precondition_failed : ProblemCode
  authentication_failed : ProblemCode
  authentication_assurance_insufficient : ProblemCode
  workload_scope_denied : ProblemCode
  untrusted_tenant_context : ProblemCode
  tenant_access_denied : ProblemCode
  tenant_not_active : ProblemCode
  invalid_timestamp : ProblemCode
  tenant_display_name_required : ProblemCode
  tenant_version_conflict : ProblemCode
  invalid_tenant_transition : ProblemCode
  platform_access_denied : ProblemCode
  tenant_not_found : ProblemCode
  tenant_already_exists : ProblemCode
  tenant_reason_required : ProblemCode
  permission_denied : ProblemCode
  unknown_permission : ProblemCode
  role_not_found : ProblemCode
  role_assignment_exists : ProblemCode
  role_assignment_not_found : ProblemCode
  separation_of_duties_violation : ProblemCode
  approval_policy_not_found : ProblemCode
  approval_not_found : ProblemCode
  approval_not_pending : ProblemCode
  approval_expired : ProblemCode
  approval_version_conflict : ProblemCode
  approval_target_mismatch : ProblemCode
  approval_approver_not_eligible : ProblemCode
  last_administrator_protected : ProblemCode
  idempotency_key_required : ProblemCode
  idempotency_key_invalid : ProblemCode
  idempotency_key_reused_with_different_payload : ProblemCode
  request_in_progress : ProblemCode
  dead_letter_not_resolvable : ProblemCode
  dead_letter_reason_required : ProblemCode
  audit_policy_missing : ProblemCode
  audit_event_invalid : ProblemCode
  tenant_context_missing : ProblemCode
  tenant_context_mismatch : ProblemCode
  invalid_decimal : ProblemCode
  calculation_rejected : ProblemCode
  unsupported_currency : ProblemCode
  currency_mismatch : ProblemCode
  internal_error : ProblemCode

pub ProblemCode-discrete : Discrete ProblemCode
ProblemCode-discrete = hlevel

-- `PROBLEM_CATALOG[code].status`
pub status : ProblemCode → ℕ
status invalid_trusted_context = 400
status request_validation_failed = 400
status resource_not_found = 404
status precondition_failed = 412
status authentication_failed = 401
status authentication_assurance_insufficient = 403
status workload_scope_denied = 403
status untrusted_tenant_context = 400
status tenant_access_denied = 403
status tenant_not_active = 403
status invalid_timestamp = 422
status tenant_display_name_required = 422
status tenant_version_conflict = 409
status invalid_tenant_transition = 409
status platform_access_denied = 403
status tenant_not_found = 404
status tenant_already_exists = 409
status tenant_reason_required = 422
status permission_denied = 403
status unknown_permission = 500
status role_not_found = 404
status role_assignment_exists = 409
status role_assignment_not_found = 404
status separation_of_duties_violation = 403
status approval_policy_not_found = 404
status approval_not_found = 404
status approval_not_pending = 409
status approval_expired = 409
status approval_version_conflict = 409
status approval_target_mismatch = 409
status approval_approver_not_eligible = 403
status last_administrator_protected = 409
status idempotency_key_required = 400
status idempotency_key_invalid = 400
status idempotency_key_reused_with_different_payload = 409
status request_in_progress = 409
status dead_letter_not_resolvable = 409
status dead_letter_reason_required = 422
status audit_policy_missing = 500
status audit_event_invalid = 500
status tenant_context_missing = 500
status tenant_context_mismatch = 500
status invalid_decimal = 422
status calculation_rejected = 422
status unsupported_currency = 422
status currency_mismatch = 422
status internal_error = 500

-- `PROBLEM_CATALOG[code].title`
pub title : ProblemCode → Text
title invalid_trusted_context = text "Invalid trusted context"
title request_validation_failed = text "Invalid request"
title resource_not_found = text "Resource not found"
title precondition_failed = text "Precondition failed"
title authentication_failed = text "Authentication failed"
title authentication_assurance_insufficient = text "Authentication assurance insufficient"
title workload_scope_denied = text "Workload scope denied"
title untrusted_tenant_context = text "Untrusted tenant context"
title tenant_access_denied = text "Tenant access denied"
title tenant_not_active = text "Tenant unavailable"
title invalid_timestamp = text "Invalid timestamp"
title tenant_display_name_required = text "Invalid tenant"
title tenant_version_conflict = text "Tenant version conflict"
title invalid_tenant_transition = text "Invalid tenant transition"
title platform_access_denied = text "Platform access denied"
title tenant_not_found = text "Tenant not found"
title tenant_already_exists = text "Tenant already exists"
title tenant_reason_required = text "Reason required"
title permission_denied = text "Permission denied"
title unknown_permission = text "Unknown permission"
title role_not_found = text "Role not found"
title role_assignment_exists = text "Role assignment exists"
title role_assignment_not_found = text "Role assignment not found"
title separation_of_duties_violation = text "Separation of duties violation"
title approval_policy_not_found = text "Approval policy not found"
title approval_not_found = text "Approval not found"
title approval_not_pending = text "Approval not pending"
title approval_expired = text "Approval expired"
title approval_version_conflict = text "Approval version conflict"
title approval_target_mismatch = text "Approval target mismatch"
title approval_approver_not_eligible = text "Approver not eligible"
title last_administrator_protected = text "Last administrator protected"
title idempotency_key_required = text "Idempotency key required"
title idempotency_key_invalid = text "Idempotency key invalid"
title idempotency_key_reused_with_different_payload =
    text "Idempotency key reused with different payload"
title request_in_progress = text "Request in progress"
title dead_letter_not_resolvable = text "Dead letter not resolvable"
title dead_letter_reason_required = text "Reason required"
title audit_policy_missing = text "Audit policy missing"
title audit_event_invalid = text "Audit event invalid"
title tenant_context_missing = text "Tenant context required"
title tenant_context_mismatch = text "Tenant context mismatch"
title invalid_decimal = text "Invalid decimal"
title calculation_rejected = text "Calculation rejected"
title unsupported_currency = text "Unsupported currency"
title currency_mismatch = text "Currency mismatch"
title internal_error = text "Internal error"

-- `PROBLEM_STATUSES`
abbrev pub problem_statuses : List ℕ
problem_statuses = 400 ∷ 401 ∷ 403 ∷ 404 ∷ 409 ∷ 412 ∷ 422 ∷ 429 ∷ 500 ∷ 503 ∷ []

-- Errors other than a `PlatformProblem`.
pub data Fault : Type 0 where
  type_error range_error uri_error error : Fault

-- How a call ends.
pub data Outcome {ℓ} (A : Type ℓ) : Type ℓ where
  ok : A → Outcome A
  problem : ProblemCode → Outcome A
  fault : Fault → Outcome A

module _ {ℓ κ} {A : Type ℓ} {B : Type κ} where
  infixl 5 ◌>>=◌
  -- The calls of a body one after the other: the first that throws ends it.
  abbrev pub ◌>>=◌ : Outcome A → (A → Outcome B) → Outcome B
  problem thrown >>= next = problem thrown
  fault thrown >>= next = fault thrown
  ok value >>= next = next value

-- `if (b) throw problem({ code: c })`
abbrev pub throw_if : Bool → ProblemCode → Outcome (Unit {0})
throw_if true c = problem c
throw_if false c = ok tt

-- Whether a call returned.
abbrev pub returns {ℓ} : {A : Type ℓ} → Outcome A → Bool
returns (ok a) = true
returns (problem c) = false
returns (fault e) = false

infixl 5 ◌>>◌
-- The same, for a check that returns nothing.
abbrev pub ◌>>◌ {κ} : {B : Type κ} → Outcome (Unit {0}) → Outcome B → Outcome B
check >> rest = check >>= λ nothing. rest

-- What a returned value satisfies.
abbrev pub Ensures {ℓ κ} : {A : Type ℓ} → (A → Type κ) → Outcome A → Type κ
Ensures P (ok a) = P a
Ensures P (problem c) = Unit
Ensures P (fault e) = Unit

pub ensured {ℓ κ} :
    {A : Type ℓ} (P : A → Type κ) (m : Outcome A) {a : A} → Ensures P m → m ≡ ok a → P a
ensured P m h e = rw e at h

-- A call returned, or it did not.
pub Outcome-cases {ℓ} : {A : Type ℓ} (m : Outcome A) → ((a : A) × (m ≡ ok a)) ⊎ (returns m ≡ false)
Outcome-cases (ok a) = inl (a, refl)
Outcome-cases (problem c) = inr refl
Outcome-cases (fault e) = inr refl

module _ {ℓ κ} {A : Type ℓ} {B : Type κ} where
  -- A chain that returned: the call at its head returned a value, and what follows went on from it.
  pub >>=-eq-ok :
      (call : Outcome A) (next : A → Outcome B) {answer : B}
      → (call >>= next) ≡ ok answer
      → (value : A) × (call ≡ ok value) × (next value ≡ ok answer)
  >>=-eq-ok (problem thrown) next returned = cc
  >>=-eq-ok (fault thrown) next returned = cc
  >>=-eq-ok (ok value) next returned = (value, refl, returned)
