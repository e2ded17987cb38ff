-- ===== src/Approval/Invariant.antt =====
-- The invariant of a request, and that a decision keeps it.
use sintius.Approval.Decision.{entry_of, decide-Decided}
use mathlib.Core.List.{map-append}
use mathlib.Core.Path.{subst}
use sintius.Approval.Types.{
  ApprovalStatus, pending, approved, rejected, expired, cancelled, is_approve, ApprovalDecision,
  ApprovalRequest, permissions_of,
}
use sintius.Approval.Decide.{
  is_satisfied, DecideInput, status_after, with_decision, decide_approval,
}
use sintius.Prelude.{
  ℕ, ◌+◌, ◌≡◌, refl, Bool, true, false, ◌&&◌, not, List, [], ◌∷◌, ◌++◌, map, any, sum, length,
  distinct, includes, Text, Text-discrete, text_eq, arith, ◌⊎◌, any-append, length-append, any-map,
  distinct_snoc, ap, ◌∙◌,
}
use sintius.Problem.{ok}
use sintius.Time.{Date}

abbrev pub actors_of : List ApprovalDecision → List Text
actors_of = map (λ d. d.actor_id)

abbrev pub has_rejection : List ApprovalDecision → Bool
has_rejection = any (λ d. not (is_approve d.decision))

-- How a status goes with the decisions: whether one of them rejects, and whether they satisfy the
-- policy.
abbrev pub StatusFits : ApprovalStatus → Bool → Bool → Type 0
StatusFits pending rejection satisfied = (rejection ≡ false) × (satisfied ≡ false)
StatusFits approved rejection satisfied = (rejection ≡ false) × (satisfied ≡ true)
StatusFits rejected rejection satisfied = rejection ≡ true
StatusFits expired rejection satisfied = (rejection ≡ false) × (satisfied ≡ false)
StatusFits cancelled rejection satisfied = (rejection ≡ false) × (satisfied ≡ false)

-- The transitions that record no decision.
abbrev pub withdrawn : ApprovalStatus → ℕ
withdrawn expired = 1
withdrawn cancelled = 1
withdrawn _ = 0

pub record IsValid (r : ApprovalRequest) : Type 0 where
  pub distinct_actors : distinct Text-discrete (actors_of r.decisions) ≡ true
  pub maker_apart :
      (r.separation_of_duties && includes Text-discrete r.maker_id (actors_of r.decisions)) ≡ false
  pub distinct_permissions : distinct Text-discrete (permissions_of r.approver_requirements) ≡ true
  pub required :
      (length r.approver_requirements ≡ 0)
      ⊎ (r.required_approvals ≡ sum (map (λ q. q.count) r.approver_requirements))
  pub status_fits : StatusFits r.status (has_rejection r.decisions) (is_satisfied r r.decisions)
  pub version_counts : r.version ≡ 1 + length r.decisions + withdrawn r.status

module _ (request : ApprovalRequest) (entry : ApprovalDecision) (v : IsValid request) where
  next_actors :
      actors_of (request.decisions ++ entry ∷ [])
      ≡ actors_of request.decisions ++ entry.actor_id ∷ []
  next_actors = map-append (λ (d : ApprovalDecision). d.actor_id) request.decisions (entry ∷ [])

  open_fits :
      request.status ≡ pending
      → StatusFits pending
          (has_rejection request.decisions)
          (is_satisfied request request.decisions)
  open_fits e =
      subst
        (λ (s : ApprovalStatus).
          StatusFits s (has_rejection request.decisions) (is_satisfied request request.decisions))
        e v.status_fits

  status_after-Fits :
      request.status ≡ pending
      → let decisions = request.decisions ++ entry ∷ [] in
        StatusFits
          (status_after request entry.decision decisions)
          (has_rejection decisions)
          (is_satisfied request decisions)
  unfolding status_after
  status_after-Fits e = ground (
    arith,
    open_fits e,
    any-append (λ (d : ApprovalDecision). not (is_approve d.decision)) request.decisions
        (entry ∷ []),
  )

  status_after-recorded :
      (ds : List ApprovalDecision) → withdrawn (status_after request entry.decision ds) ≡ 0
  unfolding status_after
  status_after-recorded ds = ground arith

  is_satisfied-with_decision :
      (ds : List ApprovalDecision)
      → is_satisfied (with_decision request entry) ds ≡ is_satisfied request ds
  unfolding is_satisfied with_decision
  is_satisfied-with_decision ds = refl

  open_version : request.status ≡ pending → request.version ≡ 1 + length request.decisions
  open_version e = omega (arith, v.version_counts, ap withdrawn e)

  module _ (was_pending : request.status ≡ pending)
      (not_maker : (request.separation_of_duties && text_eq entry.actor_id request.maker_id)
        ≡ false)
      (first_time : any (λ d. text_eq d.actor_id entry.actor_id) request.decisions ≡ false) where
    maker_apart_next :
        (request.separation_of_duties
          && includes Text-discrete request.maker_id
              (actors_of request.decisions ++ entry.actor_id ∷ []))
        ≡ false
    maker_apart_next = ground (
      arith,
      any-append (λ (x : Text). text_eq x request.maker_id) (actors_of request.decisions)
          (entry.actor_id ∷ []),
    )

    with_decision-IsValid : IsValid (with_decision request entry)
    unfolding with_decision
    with_decision-IsValid = record {
      distinct_actors = rw next_actors (
          distinct_snoc Text-discrete entry.actor_id (actors_of request.decisions) v.distinct_actors
            (any-map (λ (x : Text). text_eq x entry.actor_id) (λ (d : ApprovalDecision). d.actor_id)
                request.decisions
              ∙ first_time));
      maker_apart = rw next_actors maker_apart_next;
      distinct_permissions = v.distinct_permissions;
      required = v.required;
      status_fits = rw is_satisfied-with_decision (status_after-Fits was_pending);
      version_counts = omega (
        arith,
        open_version was_pending,
        length-append request.decisions (entry ∷ []),
        status_after-recorded (request.decisions ++ entry ∷ []),
      );
    }

-- A decision leads from a valid request to a valid request.
pub decide-IsValid :
    (r : ApprovalRequest) (input : DecideInput) (now : Date) {next : ApprovalRequest}
    → IsValid r
    → decide_approval r input now ≡ ok next
    → IsValid next
decide-IsValid r input now v e =
    let d = decide-Decided r input now e in
    rw d.result (
      with_decision-IsValid r (entry_of input d.decided_at d.credited) v d.was_pending d.not_maker
        d.first_time)
