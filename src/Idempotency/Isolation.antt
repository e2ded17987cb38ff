-- ===== src/Idempotency/Isolation.antt =====
-- Idempotent executions of different tenants (platform/idempotency/src/executor.ts).
use sintius.Prelude.{ℕ, true, false, Text, text_eq, ◌≡◌, refl, arith, Bool-cases, inl, inr}
use sintius.Problem.{Outcome, ok, Outcome-cases}
use sintius.Time.{Instant}
use sintius.Idempotency.Payload.{Json}
use sintius.Idempotency.Executor.{
  StoredResponse, IdempotencyRecord, Records, write, ClaimInput, claimed, existing, in_progress,
  processing_record, claim, IdempotentRequest, IdempotentResult, carry_out, in_transaction,
  claim_input, execute,
}
use sintius.Idempotency.Replay.{finished, in_transaction-stores, execute-Passed, claim_at, Passed}

write-other :
    (r : IdempotencyRecord) (records : Records) (tenant scope key : Text)
    → text_eq r.tenant_id tenant ≡ false
    → write r records tenant scope key ≡ records tenant scope key
unfolding write
write-other r records tenant scope key h = ground arith

module _ (W : Type 0) (request_hash : Text → Json → Text) (retention_seconds : ℕ) where
  claim-existing :
      (input : ClaimInput) (records after : Records) (found : IdempotencyRecord)
      → claim input.tenant_id input records ≡ ok (existing found, after)
      → after ≡ records
  unfolding claim
  claim-existing input records after found h = ground arith

  in_transaction-replayed :
      (input : ClaimInput) (work : W → Outcome (StoredResponse × W)) (records stored : Records)
      (before after : W) (result : IdempotentResult)
      → in_transaction W request_hash retention_seconds input work records before
        ≡ ok (result, stored, after)
      → result.replayed ≡ true
      → (stored ≡ records) × (after ≡ before)
  unfolding in_transaction carry_out
  in_transaction-replayed input work records stored before after result h replayed =
      elim (Outcome-cases (claim input.tenant_id input records)) [
        | inl ((claimed, after_claim), e) ↦ absurd (ground arith)
        | inl ((in_progress n, after_claim), e) ↦ absurd (ground arith)
        | inl ((existing found, after_claim), e) ↦ ground arith
        | inr e ↦ absurd (ground arith)
      ]

  -- An execution that returns was authorized, and never writes a record of another tenant.
  pub execute-isolated :
      (tenant : Text) (request : IdempotentRequest) (authorize : Outcome (Unit {0}))
      (work : W → Outcome (StoredResponse × W)) (now : Instant) (records stored : Records)
      (before after : W) (result : IdempotentResult) (other scope key : Text)
      → execute W request_hash retention_seconds tenant request authorize work now records before
        ≡ ok (result, stored, after)
      → text_eq tenant other ≡ false
      → (stored other scope key ≡ records other scope key) × (authorize ≡ ok tt)
  unfolding claim_input processing_record Passed
  execute-isolated tenant request authorize work now records stored before after result other scope
        key' h apart =
      let (key, passed, ran) =
        execute-Passed W request_hash retention_seconds tenant request authorize work now records
          before h in
      let input = claim_at W request_hash retention_seconds tenant request key now in
      let replayed = in_transaction-replayed input work records stored before after result ran in
      (
        elim (Bool-cases result.replayed) [
          | inl e ↦ rw ((replayed e).0) refl
          | inr e ↦
              let kept =
                in_transaction-stores W request_hash retention_seconds input work records stored
                  before after result ran e in
              ground (
                arith,
                write-other (finished input result.response)
                    (write (processing_record input) records) other scope key' apart,
                write-other (processing_record input) records other scope key' apart,
              )
        ],
        ground arith,
      )
