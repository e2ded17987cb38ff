-- ===== src/Idempotency/Executor.antt =====
-- Idempotent execution (platform/idempotency/src/executor.ts) on the PostgreSQL store
-- (platform/idempotency/infrastructure/postgres/store.ts). The table is a function of its unique key. The command's
-- own data, the work on it, the authorizer and the request hash are parameters. The store waits for
-- a concurrent claim, so the claims of one key follow one another.
use sintius.Prelude.{
  ℕ, ◌+◌, ◌*◌, Bool, true, false, ◌&&◌, not, leb, if◌then◌else◌, Option, none, some, Text, text_eq,
  length, ◌==◌,
}
use sintius.Problem.{
  Outcome, ok, problem, fault, error, ◌>>=◌, ◌>>◌, throw_if, invalid_trusted_context,
  idempotency_key_required, idempotency_key_invalid, untrusted_tenant_context,
  tenant_context_mismatch, request_in_progress, idempotency_key_reused_with_different_payload,
}
use sintius.Time.{Instant, to_iso}
use sintius.Idempotency.Payload.{Json, contains_tenant_identity, within}
use sintius.Idempotency.Keys.{is_scope, is_key, to_lower_case}

pub data IdempotencyStatus : Type 0 where
  processing completed : IdempotencyStatus

-- A status that is no natural number is `none`.
pub record StoredResponse : Type 0 where
  pub status : Option ℕ
  pub body : Json

pub record IdempotencyRecord : Type 0 where
  pub tenant_id : Text
  pub scope : Text
  pub key : Text
  pub request_hash : Text
  pub status : IdempotencyStatus
  pub response : Option StoredResponse
  pub created_at : Instant
  pub expires_at : Instant

abbrev pub Records : Type 0
Records = Text → Text → Text → Option IdempotencyRecord

unfoldable pub write : IdempotencyRecord → Records → Records
write record_ records tenant scope key =
    if text_eq record_.tenant_id tenant && text_eq record_.scope scope && text_eq record_.key key
    then some record_
    else records tenant scope key

pub record ClaimInput : Type 0 where
  pub tenant_id : Text
  pub scope : Text
  pub key : Text
  pub request_hash : Text
  pub now : Instant
  pub expires_at : Instant

pub data ClaimResult : Type 0 where
  claimed : ClaimResult
  existing : IdempotencyRecord → ClaimResult
  -- Of an adapter that cannot wait; `claim` below waits and never gives it.
  in_progress : ℕ → ClaimResult

-- The row that INSERT adds and that UPDATE makes of an expired one.
unfoldable pub processing_record : ClaimInput → IdempotencyRecord
processing_record input = record {
  tenant_id = input.tenant_id;
  scope = input.scope;
  key = input.key;
  request_hash = input.request_hash;
  status = processing;
  response = none;
  created_at = input.now;
  expires_at = input.expires_at;
}

-- `claim`, in a transaction that is bound to the tenant.
unfoldable pub claim : Text → ClaimInput → Records → Outcome (ClaimResult × Records)
claim bound input records =
    throw_if (not (text_eq input.tenant_id bound)) tenant_context_mismatch
    >> elim (records input.tenant_id input.scope input.key) [
      | none ↦ ok (claimed, write (processing_record input) records)
      | some found ↦
          if leb found.expires_at input.now
          then ok (claimed, write (processing_record input) records)
          else if text_eq found.tenant_id bound
          then ok (existing found, records)
          else problem tenant_context_mismatch
    ]

-- `complete`: exactly one processing row must be there.
unfoldable pub complete : Text → Text → Text → Text → StoredResponse → Records → Outcome Records
complete bound tenant scope key response records =
    throw_if (not (text_eq tenant bound)) tenant_context_mismatch
    >> elim (records tenant scope key) [
      | none ↦ fault error
      | some found ↦ elim found.status [
        | completed ↦ fault error
        | processing ↦
            ok (write (record found { status = completed; response = some response }) records)
      ]
    ]

pub record IdempotentRequest : Type 0 where
  pub scope : Text
  pub key : Option Text
  pub payload : Json

pub record IdempotentResult : Type 0 where
  pub response : StoredResponse
  pub replayed : Bool

-- `!Number.isInteger(status) || status < 100 || status > 599`, negated.
unfoldable pub is_http_status : Option ℕ → Bool
is_http_status none = false
is_http_status (some status) = leb 100 status && leb status 599

-- The key of a request, after its checks.
unfoldable pub checked_key : Option Text → Outcome Text
checked_key none = problem idempotency_key_required
checked_key (some key) =
    throw_if (length key == 0) idempotency_key_required
    >> throw_if (not (is_key key)) idempotency_key_invalid
    >> ok (to_lower_case key)

-- The answer to a request whose key has a record.
unfoldable pub answer : Text → Text → IdempotencyRecord → Outcome IdempotentResult
answer tenant request_hash found = do
  throw_if (not (text_eq found.tenant_id tenant)) tenant_context_mismatch
  throw_if (not (text_eq found.request_hash request_hash))
      idempotency_key_reused_with_different_payload
  elim found.status [
    | processing ↦ problem request_in_progress
    | completed ↦ elim found.response [
      | none ↦ problem request_in_progress
      | some response ↦ ok (record { response = response; replayed = true })
    ]
  ]

-- `canonicalJson(response.body)` and the check of the status before it.
unfoldable pub check_response : StoredResponse → Outcome (Unit {0})
check_response response =
    throw_if (not (is_http_status response.status)) invalid_trusted_context
    >> throw_if (not (within 32 response.body)) invalid_trusted_context

module _ (W : Type 0) (request_hash : Text → Json → Text) (retention_seconds : ℕ) where
  -- The command itself, once its key is claimed in `claimed_records`.
  unfoldable pub carry_out :
      ClaimInput
      → (W → Outcome (StoredResponse × W))
      → Records
      → W
      → Outcome (IdempotentResult × Records × W)
  carry_out input work claimed_records world = do
    (response, after) ← work world
    check_response response
    stored ← complete input.tenant_id input.tenant_id input.scope input.key response claimed_records
    ok (record { response = response; replayed = false }, stored, after)

  -- The body of the transaction: the records and the command's data, committed together.
  unfoldable pub in_transaction :
      ClaimInput
      → (W → Outcome (StoredResponse × W))
      → Records
      → W
      → Outcome (IdempotentResult × Records × W)
  in_transaction input work records world = do
    (result, after) ← claim input.tenant_id input records
    elim result [
      | existing found ↦
          answer input.tenant_id input.request_hash found >>= λ replay. ok (replay, records, world)
      | in_progress retry_after_seconds ↦ problem request_in_progress
      | claimed ↦ carry_out input work after world
    ]

  -- The claim of a request that passed its checks.
  unfoldable pub claim_input : Text → IdempotentRequest → Text → Instant → Instant → ClaimInput
  claim_input tenant request key now expires_at = record {
    tenant_id = tenant;
    scope = request.scope;
    key = key;
    request_hash = request_hash request.scope request.payload;
    now = now;
    expires_at = expires_at;
  }

  -- `executeUntraced`; when it throws, the transaction is rolled back.
  unfoldable pub execute :
      Text
      → IdempotentRequest
      → Outcome (Unit {0})
      → (W → Outcome (StoredResponse × W))
      → Instant
      → Records
      → W
      → Outcome (IdempotentResult × Records × W)
  execute tenant request authorize work now records world = do
    throw_if (not (is_scope request.scope)) invalid_trusted_context
    key ← checked_key request.key
    throw_if (contains_tenant_identity request.payload) untrusted_tenant_context
    throw_if (not (within 31 request.payload)) invalid_trusted_context
    authorize
    expires_at ← to_iso (now + retention_seconds * 1000)
    in_transaction (claim_input tenant request key now expires_at) work records world
