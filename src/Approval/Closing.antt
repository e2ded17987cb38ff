-- ===== src/Approval/Closing.antt =====
-- Cancelling and expiring a request keep the invariant.
use sintius.Approval.Invariant.{IsValid, StatusFits, withdrawn, has_rejection}
use mathlib.Core.Path.{subst}
use sintius.Approval.Types.{ApprovalStatus, pending, expired, cancelled, ApprovalRequest}
use sintius.Approval.Decide.{is_satisfied, cancel_approval, expire_approval}
use sintius.Prelude.{ℕ, ◌+◌, ◌≤◌, ◌≡◌, refl, none, some, length, Text, arith, inl, inr, ◌⊎◌, ap}
use sintius.Problem.{ok}
use sintius.Time.{Instant, Date}

is_satisfied-status :
    (r : ApprovalRequest) (s : ApprovalStatus) (n : ℕ)
    → is_satisfied (record r { status = s; version = n }) r.decisions ≡ is_satisfied r r.decisions
unfolding is_satisfied
is_satisfied-status r s n = refl

closed-IsValid :
    (r : ApprovalRequest) (s : ApprovalStatus)
    → IsValid r
    → r.status ≡ pending
    → (s ≡ cancelled) ⊎ (s ≡ expired)
    → IsValid (record r { status = s; version = r.version + 1 })
closed-IsValid r s v e closes = record {
  distinct_actors = v.distinct_actors;
  maker_apart = v.maker_apart;
  distinct_permissions = v.distinct_permissions;
  required = v.required;
  status_fits = rw is_satisfied-status (closing s closes);
  version_counts = counted closes;
}
  where
    open_now : StatusFits pending (has_rejection r.decisions) (is_satisfied r r.decisions)
    open_now =
        subst
          (λ (t : ApprovalStatus).
            StatusFits t (has_rejection r.decisions) (is_satisfied r r.decisions))
          e v.status_fits

    closing :
        (t : ApprovalStatus)
        → (t ≡ cancelled) ⊎ (t ≡ expired)
        → StatusFits t (has_rejection r.decisions) (is_satisfied r r.decisions)
    closing t (inl c) = rw c open_now
    closing t (inr c) = rw c open_now

    counted : (s ≡ cancelled) ⊎ (s ≡ expired) → r.version + 1 ≡ 1 + length r.decisions + withdrawn s
    counted (inl c) = rw c (omega (arith, v.version_counts, ap withdrawn e))
    counted (inr c) = rw c (omega (arith, v.version_counts, ap withdrawn e))

-- What holds where a call closed a request with no decision.
abbrev pub Closed : ApprovalStatus → ApprovalRequest → ℕ → ApprovalRequest → Type 0
Closed s r expected next =
    (r.status ≡ pending)
    × (r.version ≡ expected)
    × (next ≡ record r { status = s; version = r.version + 1 })

pub cancel-Closed :
    (r : ApprovalRequest) (actor : Text) (n : ℕ) {next : ApprovalRequest}
    → cancel_approval r actor n ≡ ok next
    → Closed cancelled r n next × (actor ≡ r.maker_id)
unfolding cancel_approval
cancel-Closed r actor n e = ((ground arith, ground arith, ground arith), ground arith)

pub expire-Closed :
    (r : ApprovalRequest) (n : ℕ) (t : Instant) {next : ApprovalRequest}
    → expire_approval r n (some t) ≡ ok next
    → Closed expired r n next × (r.expires_at ≤ t)
unfolding expire_approval
expire-Closed r n t e = ((ground arith, ground arith, ground arith), ground arith)

pub cancel-IsValid :
    (r : ApprovalRequest) (actor : Text) (n : ℕ) {next : ApprovalRequest}
    → IsValid r
    → cancel_approval r actor n ≡ ok next
    → IsValid next
cancel-IsValid r actor n v e =
    let (c, _) = cancel-Closed r actor n e in rw c.2 (closed-IsValid r cancelled v c.0 (inl refl))

pub expire-IsValid :
    (r : ApprovalRequest) (n : ℕ) (now : Date) {next : ApprovalRequest}
    → IsValid r
    → expire_approval r n now ≡ ok next
    → IsValid next
unfolding expire_approval
expire-IsValid r n none v e = absurd (ground arith)
expire-IsValid r n (some t) v e =
    let (c, _) = expire-Closed r n t e in rw c.2 (closed-IsValid r expired v c.0 (inr refl))
