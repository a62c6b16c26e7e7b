-- ===== src/Events/Processed.antt =====
-- processed-event.repository.ts: which consumer has handled which event. Times are in milliseconds.
-- The job, the queue and the correlation of a claim are not modelled.
use maintain_pro_backend.Shared.{
  ltb, ◌==◌, is_some, Result, ok, err, ℕ, ◌+◌, String, Bool, true, false, ◌&&◌, Option, none, some,
  List,
}
use maintain_pro_backend.Shared.Mongo.{WriteError, invalid_document, Mongo}
use maintain_pro_backend.Shared.Texts.{Text, codes, same}

pub data ProcessedEventStatus : Type 0 where
  in_progress completed failed : ProcessedEventStatus

pub record ProcessedEvent : Type 0 where
  pub event_id : ℕ
  pub consumer_name : Text
  pub event_name : String
  pub status : ProcessedEventStatus
  pub attempts : ℕ
  pub started_at : Option ℕ
  pub completed_at : Option ℕ
  pub last_error : Option String
  pub lease_until : Option ℕ

-- What is claimed: by default the consumer is `event-dispatcher`.
pub record EventClaim : Type 0 where
  pub id : ℕ
  pub consumer : Option Text
  pub name : String

abbrev pub or_dispatcher : Option Text → Text
or_dispatcher none = codes "event-dispatcher"
or_dispatcher (some c) = c

abbrev pub is_of : ℕ → Text → ProcessedEvent → Bool
is_of n consumer p = p.event_id == n && same p.consumer_name consumer

abbrev pub new_processed : ℕ → ℕ → EventClaim → ProcessedEvent
new_processed now lease input = record {
  event_id = input.id;
  consumer_name = or_dispatcher input.consumer;
  event_name = input.name;
  status = ProcessedEventStatus.in_progress;
  attempts = 1;
  started_at = some now;
  completed_at = none;
  last_error = none;
  lease_until = some (now + lease);
}

-- `leaseUntil < now`, false of a missing lease.
abbrev pub has_ended : Option ℕ → ℕ → Bool
has_ended none now = false
has_ended (some t) now = ltb t now

-- `status !== "completed" && (status === "failed" || leaseUntil < now)`.
abbrev pub is_claimable : ℕ → ProcessedEvent → Bool
is_claimable now p = elim (p.status) [
  | ProcessedEventStatus.completed ↦ false
  | ProcessedEventStatus.failed ↦ true
  | ProcessedEventStatus.in_progress ↦ has_ended p.lease_until now
]

abbrev pub reclaimed : ℕ → ℕ → EventClaim → ProcessedEvent → ProcessedEvent
reclaimed now lease input p = record p {
  event_name = input.name;
  status = ProcessedEventStatus.in_progress;
  started_at = some now;
  lease_until = some (now + lease);
  attempts = p.attempts + 1;
}

abbrev pub retaken :
    Option ProcessedEvent × List ProcessedEvent → Result WriteError Bool × List ProcessedEvent
retaken (found, ps) = (ok (is_some found), ps)

-- After the insertion, or the duplicate key that it met. Another error is thrown on.
abbrev pub claim_outcome :
    Mongo
    → ℕ
    → ℕ
    → EventClaim
    → Result WriteError (List ProcessedEvent)
    → List ProcessedEvent
    → Result WriteError Bool × List ProcessedEvent
claim_outcome m now lease input (ok ps') ps = (ok true, ps')
claim_outcome m now lease input (err WriteError.invalid_document) ps = (err invalid_document, ps)
claim_outcome m now lease input (err WriteError.duplicate_key) ps = retaken (
    m.find_one_and_update
      (λ p. is_of input.id (or_dispatcher input.consumer) p && is_claimable now p)
      (reclaimed now lease input) ps)

unfoldable pub claim :
    Mongo → ℕ → ℕ → EventClaim → List ProcessedEvent → Result WriteError Bool × List ProcessedEvent
claim m now lease input ps =
    claim_outcome m now lease input
      (m.create true (is_of input.id (or_dispatcher input.consumer)) (new_processed now lease input)
        ps)
      ps

abbrev pub completed_at_time : ℕ → ProcessedEvent → ProcessedEvent
completed_at_time now p = record p {
  status = ProcessedEventStatus.completed;
  completed_at = some now;
  lease_until = none;
}

unfoldable pub complete : Mongo → ℕ → ℕ → Text → List ProcessedEvent → List ProcessedEvent
complete m now n consumer ps =
    (m.find_one_and_update (is_of n consumer) (completed_at_time now) ps).1

abbrev pub failed_with : String → ProcessedEvent → ProcessedEvent
failed_with error p = record p {
  status = ProcessedEventStatus.failed;
  last_error = some error;
  lease_until = none;
}

-- Whatever the status was.
unfoldable pub fail : Mongo → ℕ → String → Text → List ProcessedEvent → List ProcessedEvent
fail m n error consumer ps = (m.find_one_and_update (is_of n consumer) (failed_with error) ps).1
