-- ===== src/Idempotency/Effects.antt =====
-- What a command's own data are after a call: those that its work left, or those from before.
use sintius.Idempotency.Executor.{
  completed, IdempotencyRecord, answer, checked_key, claim_input, StoredResponse, Records,
  ClaimInput, claimed, existing, in_progress, IdempotentRequest, IdempotentResult, carry_out,
  in_transaction, execute, claim,
}
use sintius.Idempotency.Payload.{Json}
use sintius.Idempotency.Replay.{execute-Passed, claim_at, Passed}
use sintius.Prelude.{
  ℕ, Option, Text, Text-discrete, text_eq, same_iff, true, false, some, Option-cases, ◌<◌, ◌≡◌, ◌⊎◌,
  inl, inr, arith,
}
use sintius.Problem.{Outcome, ok, returns, Outcome-cases}
use sintius.Time.{Instant}

-- The answer that is stored under a tenant's key: finished, for the same request, within its time.
pub record Replay (tenant scope key hash : Text) (now : Instant) (records stored : Records)
    (answered : StoredResponse) : Type 0 where
  pub found : IdempotencyRecord
  pub row : records tenant scope key ≡ some found
  pub finished : found.status ≡ completed
  pub response : found.response ≡ some answered
  pub same_request : found.request_hash ≡ hash
  pub retained : now < found.expires_at
  pub unchanged : stored ≡ records

-- The same, for the key as the request gives it.
abbrev pub Replayed :
    (tenant scope : Text) (key : Option Text) (hash : Text) (now : Instant)
    (records stored : Records)
    → StoredResponse
    → Type 0
Replayed tenant scope key hash now records stored answered =
    (k : Text) × (checked_key key ≡ ok k) × Replay tenant scope k hash now records stored answered

module _ {W : Type 0} (request_hash : Text → Json → Text) (retention_seconds : ℕ)
    (work : W → Outcome (StoredResponse × W)) where
  carry_out-world :
      (input : ClaimInput) (records stored : Records) (before after : W) (result : IdempotentResult)
      → carry_out W request_hash retention_seconds input work records before
        ≡ ok (result, stored, after)
      → work before ≡ ok (result.response, after)
  unfolding carry_out
  carry_out-world input records stored before after result h = elim (Outcome-cases (work before)) [
    | inr lost ↦ absurd (ground arith)
    | inl ((response, world), e) ↦ ground arith
  ]

  never :
      (input : ClaimInput) (records after : Records) (n : ℕ)
      → ¬ (claim input.tenant_id input records ≡ ok (in_progress n, after))
  unfolding claim
  never input records after n h = ground arith

  unclaimed :
      (input : ClaimInput) (records stored : Records) (before after : W) (result : IdempotentResult)
      → in_transaction W request_hash retention_seconds input work records before
        ≡ ok (result, stored, after)
      → ¬ (returns (claim input.tenant_id input records) ≡ false)
  unfolding in_transaction
  unclaimed input records stored before after result h lost = ground arith

  claim-existing :
      (input : ClaimInput) (records after : Records) (found : IdempotencyRecord)
      → claim input.tenant_id input records ≡ ok (existing found, after)
      → (records input.tenant_id input.scope input.key ≡ some found)
        × (input.now < found.expires_at)
  unfolding claim
  claim-existing input records after found h =
      elim (Option-cases (records input.tenant_id input.scope input.key)) [
        | inl e ↦ absurd (ground arith)
        | inr (other, e) ↦ (ground arith, ground arith)
      ]

  answer-parts :
      (tenant hash : Text) (found : IdempotencyRecord) (result : IdempotentResult)
      → answer tenant hash found ≡ ok result
      → (found.status ≡ completed)
        × (found.response ≡ some result.response)
        × (text_eq found.request_hash hash ≡ true)
  unfolding answer
  answer-parts tenant hash found result h = (ground arith, ground arith, ground arith)

  replay-parts :
      (input : ClaimInput) (records after_claim stored : Records) (before after : W)
      (found : IdempotencyRecord) (result : IdempotentResult)
      → in_transaction W request_hash retention_seconds input work records before
        ≡ ok (result, stored, after)
      → claim input.tenant_id input records ≡ ok (existing found, after_claim)
      → (answer input.tenant_id input.request_hash found ≡ ok result)
        × (stored ≡ records)
        × (after ≡ before)
  unfolding in_transaction
  replay-parts input records after_claim stored before after found result h e =
      (ground arith, ground arith, ground arith)

  fresh-parts :
      (input : ClaimInput) (records after_claim stored : Records) (before after : W)
      (result : IdempotentResult)
      → in_transaction W request_hash retention_seconds input work records before
        ≡ ok (result, stored, after)
      → claim input.tenant_id input records ≡ ok (claimed, after_claim)
      → carry_out W request_hash retention_seconds input work after_claim before
        ≡ ok (result, stored, after)
  unfolding in_transaction
  fresh-parts input records after_claim stored before after result h e = ground arith

  in_transaction-world :
      (input : ClaimInput) (records stored : Records) (before after : W) (result : IdempotentResult)
      → in_transaction W request_hash retention_seconds input work records before
        ≡ ok (result, stored, after)
      → ((after ≡ before)
          × Replay input.tenant_id input.scope input.key input.request_hash input.now records stored
              result.response)
        ⊎ (work before ≡ ok (result.response, after))
  in_transaction-world input records stored before after result h =
      elim (Outcome-cases (claim input.tenant_id input records)) [
        | inl ((claimed, after_claim), e) ↦ inr (
            carry_out-world input after_claim stored before after result
              (fresh-parts input records after_claim stored before after result h e))
        | inl ((in_progress n, after_claim), e) ↦ absurd (never input records after_claim n e)
        | inl ((existing found, after_claim), e) ↦
            let (answered, same_records, same_world) =
              replay-parts input records after_claim stored before after found result h e in
            let (row, retained) = claim-existing input records after_claim found e in
            let (finished, response, alike) =
              answer-parts input.tenant_id input.request_hash found result answered in
            inl (
              same_world,
              record {
                found = found;
                row = row;
                finished = finished;
                response = response;
                same_request =
                    (same_iff Text-discrete found.request_hash input.request_hash).0 alike;
                retained = retained;
                unchanged = same_records;
              },
            )
        | inr lost ↦ absurd (unclaimed input records stored before after result h lost)
      ]

  allowed :
      (request : IdempotentRequest) (authorize : Outcome (Unit {0})) (now : Instant) (key : Text)
      → Passed W request_hash retention_seconds request authorize now key
      → (authorize ≡ ok tt) × (checked_key request.key ≡ ok key)
  unfolding Passed
  allowed request authorize now key passed = (passed.4, passed.1)

  -- A call that returns has run its work once, on the data as they were, or it has replayed the
  -- answer that is stored under its key and changed nothing.
  pub execute-world :
      (tenant : Text) (request : IdempotentRequest) (authorize : Outcome (Unit {0})) (now : Instant)
      (records stored : Records) (before after : W) (result : IdempotentResult)
      → execute W request_hash retention_seconds tenant request authorize work now records before
        ≡ ok (result, stored, after)
      → (authorize ≡ ok tt)
        × (((after ≡ before)
              × Replayed tenant request.scope request.key
                  (request_hash request.scope request.payload)
                  now
                  records
                  stored
                  result.response)
            ⊎ (work before ≡ ok (result.response, after)))
  unfolding claim_input
  execute-world tenant request authorize now records stored before after result h =
      let (key, passed, ran) =
        execute-Passed W request_hash retention_seconds tenant request authorize work now records
          before h in
      let (granted, checked) = allowed request authorize now key passed in
      let input = claim_at W request_hash retention_seconds tenant request key now in
      (
        granted,
        elim (in_transaction-world input records stored before after result ran) [
          | inl (kept, replay) ↦ inl (kept, (key, checked, replay))
          | inr worked ↦ inr worked
        ],
      )
