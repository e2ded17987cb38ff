-- ===== src/Examples/Queue.antt =====
-- Two events of one stream on their way through the queue (platform/outbox).
use sintius.Prelude.{
  all, get_elem?, some, ◌⊎◌, ℕ, ◌≤◌, ◌≡◌, refl, arith, Bool, true, false, any, length, [], ◌∷◌,
  Text, text, text_eq, Text-discrete, ℕ_discrete, none,
}
use sintius.Outbox.Queue.{
  Envelope, OutboxEntry, Table, LeaseRequest, is_finished, is_due, holds_back, is_candidate,
  same_stream, lease, lease_rows, granted, lease_batch, is_held, publish_row, update_where,
  mark_published, record_failure, appended,
}
use sintius.Outbox.Stream.{Reachable, empty, after, appends, leases, publishes, leased-alone}
use sintius.Outbox.Order.{in_order}
use sintius.Outbox.Stream.{Reachable-in_order}
use sintius.Outbox.Leases.{has_id, Due, makes_way, lease_batch-grants, lease_batch-fences}
use sintius.Outbox.Dispatcher.{
  Dispatcher, Surroundings, default_retry_delay_seconds, dispatch_entry,
}
use sintius.Outbox.Reports.{Reported, dispatch_entry-Reported}

abbrev event : Envelope
event = record {
  id = text "e";
  event_type = text "x";
  tenant_id = text "t";
  aggregate_type = text "A";
  aggregate_id = text "1";
}

abbrev worker : Text
worker = text "w"

abbrev request : LeaseRequest
request = record { worker_id = worker; now = 10; lease_seconds = 60; limit = 5 }

abbrev first : OutboxEntry
first = appended 1 event 0

abbrev second : OutboxEntry
second = appended 2 event 0

abbrev waiting : Table
waiting = first ∷ second ∷ []

abbrev unlocked : ℕ → Bool
unlocked i = false

one-Reachable : Reachable (first ∷ [])
one-Reachable = after [] (first ∷ []) empty (appends [] 1 event 0 refl)

waiting-Reachable : Reachable waiting
unfolding appended
waiting-Reachable = after (first ∷ []) waiting one-Reachable (appends (first ∷ []) 2 event 0 refl)

abbrev in_flight : Table
in_flight = lease request first ∷ second ∷ []

leased_first : lease_batch unlocked request waiting ≡ (lease request first ∷ [], in_flight)
unfolding lease_batch granted lease_rows is_candidate is_due holds_back same_stream appended
    Text-discrete ℕ_discrete
leased_first = refl

abbrev delivered : Table
delivered = publish_row 20 (lease request first) ∷ second ∷ []

reported : mark_published 1 worker 20 in_flight ≡ (true, delivered)
unfolding mark_published update_where is_held lease appended Text-discrete ℕ_discrete
reported = refl

abbrev advanced : Table
advanced = publish_row 20 (lease request first) ∷ lease request second ∷ []

leased_second : lease_batch unlocked request delivered ≡ (lease request second ∷ [], advanced)
unfolding lease_batch granted lease_rows is_candidate is_due holds_back same_stream appended
    publish_row lease Text-discrete ℕ_discrete
leased_second = refl

advanced-Reachable : Reachable advanced
unfolding lease_batch granted lease_rows is_candidate is_due holds_back same_stream appended
    publish_row lease mark_published update_where is_held Text-discrete ℕ_discrete
advanced-Reachable =
    after delivered advanced
      (after in_flight delivered
        (after waiting in_flight waiting-Reachable (leases waiting unlocked request))
        (publishes in_flight 1 worker 20))
      (leases delivered unlocked request)

same_event : same_stream event event ≡ true
unfolding same_stream Text-discrete ℕ_discrete
same_event = refl

leased-alone_example : is_finished (publish_row 20 (lease request first)).status ≡ true
unfolding publish_row lease appended
leased-alone_example =
    leased-alone advanced 0 1 (publish_row 20 (lease request first)) (lease request second)
      advanced-Reachable (omega arith) refl refl same_event refl

unheld : any (is_held 1 worker) waiting ≡ false
unfolding is_held appended
unheld = refl

first_candidate : is_candidate waiting unlocked request first ≡ true
unfolding is_candidate is_due holds_back same_stream appended Text-discrete ℕ_discrete
first_candidate = refl

free : all (makes_way first) waiting ≡ true
unfolding same_stream appended Text-discrete ℕ_discrete
free = refl

lease_batch-grants_example :
    (length (lease_batch unlocked request waiting).0 ≤ 5)
    × ((any (has_id 1) (lease_batch unlocked request waiting).0 ≡ true)
        ⊎ (length (lease_batch unlocked request waiting).0 ≡ 5))
unfolding appended
lease_batch-grants_example =
    lease_batch-grants unlocked request waiting 0 first refl (Due.waiting refl (omega arith)) free
      refl

waiting-in_order : in_order waiting ≡ true
waiting-in_order = Reachable-in_order waiting waiting-Reachable

first_granted : any (has_id 1) (lease_batch unlocked request waiting).0 ≡ true
unfolding lease_batch granted is_candidate is_due holds_back same_stream lease appended
    Text-discrete ℕ_discrete
first_granted = refl

apart : text_eq worker (text "v") ≡ false
unfolding Text-discrete ℕ_discrete
apart = refl

lease_batch-fences_example :
    (mark_published 1 (text "v") 20 (lease_batch unlocked request waiting).1
      ≡ (false, (lease_batch unlocked request waiting).1))
    × (record_failure 1 (text "v") (text "down") none (lease_batch unlocked request waiting).1
        ≡ (false, (lease_batch unlocked request waiting).1))
lease_batch-fences_example =
    lease_batch-fences unlocked request waiting 1 (text "v") (text "down") 20 none waiting-in_order
      first_granted apart

abbrev dispatcher : Dispatcher
dispatcher = record {
  worker_id = worker;
  lease_seconds = 60;
  batch_size = 50;
  max_attempts = 8;
  retry_delay_seconds = default_retry_delay_seconds;
}

abbrev alone : Surroundings
alone = record {
  publish = λ i envelope. none;
  clock = λ i. 20;
  meanwhile = λ i table. table;
  lease_now = 10;
  locked = unlocked;
  exceeded = text "Exceeded maximum delivery attempts.";
}

leased-in_order : in_order (lease_batch unlocked request waiting).1 ≡ true
leased-in_order = Reachable-in_order (lease_batch unlocked request waiting).1 (
    after waiting (lease_batch unlocked request waiting).1 waiting-Reachable
      (leases waiting unlocked request))

leased_row : get_elem? (lease_batch unlocked request waiting).1 0 ≡ some (lease request first)
unfolding lease_batch lease_rows is_candidate is_due holds_back same_stream lease appended
    Text-discrete ℕ_discrete
leased_row = refl

first_held : is_held 1 worker (lease request first) ≡ true
unfolding is_held lease appended Text-discrete ℕ_discrete
first_held = refl

dispatch_entry-Reported_example :
    (next : OutboxEntry) × (get_elem?
        (dispatch_entry dispatcher alone 0
          (lease request first)
          (lease_batch unlocked request waiting).1).1
        0
      ≡ some next)
    × Reported dispatcher alone 0
        (lease request first)
        (lease request first)
        (dispatch_entry dispatcher alone 0
          (lease request first)
          (lease_batch unlocked request waiting).1).0
        next
unfolding lease appended
dispatch_entry-Reported_example =
    dispatch_entry-Reported dispatcher alone 0 (lease request first)
      (lease_batch unlocked request waiting).1 0 (lease request first) leased-in_order leased_row
      first_held
