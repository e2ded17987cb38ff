-- ===== src/Idempotency/Replay.antt =====
-- Replays, conflicts and isolation of idempotent executions (platform/idempotency/src/executor.ts).
use sintius.Prelude.{
  ℕ, ◌+◌, ◌*◌, ◌<◌, ◌≤◌, true, false, if◌then◌else◌, some, Text, Text-discrete, text_eq, ◌≡◌, refl,
  sym, ◌∙◌, le→leb, arith, same_iff, inl, inr,
}
use sintius.Problem.{
  Outcome, ok, problem, Outcome-cases, idempotency_key_reused_with_different_payload,
}
use sintius.Time.{Instant, max_instant}
use sintius.Idempotency.Payload.{Json, contains_tenant_identity, within}
use sintius.Idempotency.Keys.{is_scope}
use sintius.Idempotency.Executor.{
  completed, StoredResponse, IdempotencyRecord, Records, write, ClaimInput, claimed, existing,
  in_progress, processing_record, claim, complete, IdempotentRequest, IdempotentResult, checked_key,
  answer, carry_out, in_transaction, claim_input, execute,
}

text_eq_refl : (a : Text) → text_eq a a ≡ true
text_eq_refl a = (same_iff Text-discrete a a).1 refl

write-same :
    (r : IdempotencyRecord) (records : Records) → write r records r.tenant_id r.scope r.key ≡ some r
unfolding write
write-same r records =
    ground (arith, text_eq_refl r.tenant_id, text_eq_refl r.scope, text_eq_refl r.key)

-- The record of a request that was carried out.
abbrev pub finished : ClaimInput → StoredResponse → IdempotencyRecord
finished input response = record (processing_record input) {
  status = completed;
  response = some response;
}

module _ (W : Type 0) (request_hash : Text → Json → Text) (retention_seconds : ℕ) where
  complete-claimed :
      (input : ClaimInput) (response : StoredResponse) (records stored : Records)
      → complete input.tenant_id input.tenant_id input.scope input.key response
          (write (processing_record input) records)
        ≡ ok stored
      → stored ≡ write (finished input response) (write (processing_record input) records)
  unfolding complete processing_record
  complete-claimed input response records stored h =
      let found = write-same (processing_record input) records in ground arith

  claim-claimed :
      (input : ClaimInput) (records after : Records)
      → claim input.tenant_id input records ≡ ok (claimed, after)
      → after ≡ write (processing_record input) records
  unfolding claim
  claim-claimed input records after h = ground arith

  carry_out-stores :
      (input : ClaimInput) (work : W → Outcome (StoredResponse × W)) (records stored : Records)
      (before after : W) (result : IdempotentResult)
      → carry_out W request_hash retention_seconds input work
          (write (processing_record input) records)
          before
        ≡ ok (result, stored, after)
      → stored ≡ write (finished input result.response) (write (processing_record input) records)
  unfolding carry_out
  carry_out-stores input work records stored before after result h =
      elim (Outcome-cases (work before)) [
        | inl ((response, world), e) ↦
            ground (arith, complete-claimed input response records stored)
        | inr e ↦ absurd (ground arith)
      ]

  answer-replayed :
      (tenant hash : Text) (found : IdempotencyRecord) (result : IdempotentResult)
      → answer tenant hash found ≡ ok result
      → result.replayed ≡ true
  unfolding answer
  answer-replayed tenant hash found result h = ground arith

  pub in_transaction-stores :
      (input : ClaimInput) (work : W → Outcome (StoredResponse × W)) (records stored : Records)
      (before after : W) (result : IdempotentResult)
      → in_transaction W request_hash retention_seconds input work records before
        ≡ ok (result, stored, after)
      → result.replayed ≡ false
      → stored ≡ write (finished input result.response) (write (processing_record input) records)
  unfolding in_transaction
  in_transaction-stores input work records stored before after result h fresh =
      elim (Outcome-cases (claim input.tenant_id input records)) [
        | inl ((claimed, after_claim), e) ↦
            let written = claim-claimed input records after_claim e in
            carry_out-stores input work records stored before after result (ground arith)
        | inl ((in_progress n, after_claim), e) ↦ absurd (ground arith)
        | inl ((existing found, after_claim), e) ↦
            absurd (ground (arith, answer-replayed input.tenant_id input.request_hash found result))
        | inr e ↦ absurd (ground arith)
      ]

  -- The claim that a request makes at a time.
  abbrev pub claim_at : Text → IdempotentRequest → Text → Instant → ClaimInput
  claim_at tenant request key now =
      claim_input W request_hash retention_seconds tenant request key now
        (now + retention_seconds * 1000)

  -- The checks of `executeUntraced` that come before the transaction.
  unfoldable pub Passed : IdempotentRequest → Outcome (Unit {0}) → Instant → Text → Type 0
  Passed request authorize now key =
      (is_scope request.scope ≡ true)
      × (checked_key request.key ≡ ok key)
      × (contains_tenant_identity request.payload ≡ false)
      × (within 31 request.payload ≡ true)
      × (authorize ≡ ok tt)
      × (now + retention_seconds * 1000 ≤ max_instant)

  pub execute-Passed :
      (tenant : Text) (request : IdempotentRequest) (authorize : Outcome (Unit {0}))
      (work : W → Outcome (StoredResponse × W)) (now : Instant) (records : Records) (world : W)
      {r : IdempotentResult × Records × W}
      → execute W request_hash retention_seconds tenant request authorize work now records world
        ≡ ok r
      → (key : Text) × Passed request authorize now key
        × (in_transaction W request_hash retention_seconds
              (claim_at tenant request key now)
              work
              records
              world
            ≡ ok r)
  unfolding execute Passed
  execute-Passed tenant request authorize work now records world h =
      elim (Outcome-cases (checked_key request.key)) [
        | inl (key, e) ↦ (key, ground arith, ground arith)
        | inr e ↦ absurd (ground arith)
      ]

  execute-of-Passed :
      (tenant : Text) (request : IdempotentRequest) (authorize : Outcome (Unit {0}))
      (work : W → Outcome (StoredResponse × W)) (now : Instant) (records : Records) (world : W)
      (key : Text)
      → Passed request authorize now key
      → execute W request_hash retention_seconds tenant request authorize work now records world
        ≡ in_transaction W request_hash retention_seconds
            (claim_at tenant request key now)
            work
            records
            world
  unfolding execute Passed
  execute-of-Passed tenant request authorize work now records world key
        (scope, checked, clean, shallow, granted, le) =
      let in_range = le→leb (now + retention_seconds * 1000) max_instant le in
      rw (scope, checked, clean, shallow, granted, in_range) refl

  claim-finished :
      (earlier later : ClaimInput) (response : StoredResponse) (records : Records)
      → later.tenant_id ≡ earlier.tenant_id
      → later.scope ≡ earlier.scope
      → later.key ≡ earlier.key
      → later.now < earlier.expires_at
      → claim later.tenant_id later (write (finished earlier response) records)
        ≡ ok (existing (finished earlier response), write (finished earlier response) records)
  unfolding claim processing_record
  claim-finished earlier later response records t s k lt =
      let found = write-same (finished earlier response) records in
      ground (arith, text_eq_refl earlier.tenant_id)

  in_transaction-finished :
      (earlier later : ClaimInput) (response : StoredResponse) (records : Records)
      (work : W → Outcome (StoredResponse × W)) (world : W)
      → later.tenant_id ≡ earlier.tenant_id
      → later.scope ≡ earlier.scope
      → later.key ≡ earlier.key
      → later.now < earlier.expires_at
      → in_transaction W request_hash retention_seconds later work
          (write (finished earlier response) records)
          world
        ≡ (if text_eq earlier.request_hash later.request_hash
            then ok (
              record { response = response; replayed = true },
              write (finished earlier response) records,
              world,
            )
            else problem idempotency_key_reused_with_different_payload)
  unfolding in_transaction answer processing_record
  in_transaction-finished earlier later response records work world t s k lt = ground (
    arith,
    claim-finished earlier later response records t s k lt,
    text_eq_refl earlier.tenant_id,
  )

  -- A request that was carried out is replayed, not repeated: within the retention, an authorized
  -- request with the same scope and key gets the stored response if its hash is the same, and is
  -- refused if it is not. Whatever the work, the records and the command's data stay.
  pub execute-replays :
      (tenant : Text) (first second : IdempotentRequest)
      (authorize reauthorize : Outcome (Unit {0})) (work rework : W → Outcome (StoredResponse × W))
      (now later : Instant) (records stored : Records) (before after : W)
      (result : IdempotentResult) (key : Text)
      → execute W request_hash retention_seconds tenant first authorize work now records before
        ≡ ok (result, stored, after)
      → result.replayed ≡ false
      → second.scope ≡ first.scope
      → second.key ≡ first.key
      → Passed second reauthorize later key
      → later < now + retention_seconds * 1000
      → execute W request_hash retention_seconds tenant second reauthorize rework later stored after
        ≡ (if text_eq
              (request_hash first.scope first.payload)
              (request_hash second.scope second.payload)
            then ok (record { response = result.response; replayed = true }, stored, after)
            else problem idempotency_key_reused_with_different_payload)
  unfolding claim_input Passed
  execute-replays tenant first second authorize reauthorize work rework now later records stored
        before after result key h fresh scope_eq key_eq passed lt =
      let (key₁, passed₁, ran) = execute-Passed tenant first authorize work now records before h in
      let same_key : key₁ ≡ key = ground arith in
      let input = claim_at tenant first key₁ now in
      let again = claim_at tenant second key later in
      let kept = in_transaction-stores input work records stored before after result ran fresh in
      let replay =
        in_transaction-finished input again result.response
          (write (processing_record input) records) rework after refl scope_eq (sym same_key) lt in
      execute-of-Passed tenant second reauthorize rework later stored after key passed
      ∙ rw kept replay
