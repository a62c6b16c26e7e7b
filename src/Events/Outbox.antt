-- ===== src/Events/Outbox.antt =====
-- outbox-event.repository.ts and outbox-event.worker.ts: the outbox and its relay. Times are in
-- milliseconds; the steps of one operation read the same time.
use maintain_pro_backend.Shared.{
  ltb, leb, ◌==◌, if◌then◌else◌, ℤ, pos, negsuc, ◌-ℤ◌, Result, ok, err, ℕ, ◌+◌, ◌*◌, ◌/◌, ◌^◌, min,
  String, Bool, true, false, ◌&&◌, ◌||◌, Option, none, some, List,
}
use maintain_pro_backend.Shared.Mongo.{WriteError, Mongo}

pub data OutboxEventStatus : Type 0 where
  pending processing published dead_letter : OutboxEventStatus

pub record OutboxEvent : Type 0 where
  pub event_id : ℕ
  pub event_type : String
  pub payload : String
  pub status : OutboxEventStatus
  pub attempts : ℕ
  pub available_at : ℕ
  pub created_at : ℕ
  pub processed_at : Option ℕ
  pub last_error : Option String
  pub lease_until : Option ℕ

-- What `append` is given.
pub record NewEvent : Type 0 where
  pub id : ℕ
  pub type : String
  pub body : String
  pub available : Option ℕ

abbrev pub or_now : Option ℕ → ℕ → ℕ
or_now none now = now
or_now (some t) now = t

-- With the schema's defaults.
abbrev pub new_event : ℕ → NewEvent → OutboxEvent
new_event now input = record {
  event_id = input.id;
  event_type = input.type;
  payload = input.body;
  status = OutboxEventStatus.pending;
  attempts = 0;
  available_at = or_now input.available now;
  created_at = now;
  processed_at = none;
  last_error = none;
  lease_until = none;
}

abbrev pub has_id : ℕ → OutboxEvent → Bool
has_id n e = e.event_id == n

-- The event identifier is unique.
unfoldable pub append :
    Mongo → ℕ → NewEvent → List OutboxEvent → Result WriteError (List OutboxEvent)
append m now input es = m.create true (has_id input.id) (new_event now input) es

-- `lease < now`, false of a missing lease.
abbrev pub is_before : Option ℕ → ℕ → Bool
is_before none now = false
is_before (some t) now = ltb t now

abbrev pub is_due : ℕ → OutboxEvent → Bool
is_due now e = elim (e.status) [
  | OutboxEventStatus.pending ↦ leb e.available_at now
  | OutboxEventStatus.processing ↦ is_before e.lease_until now
  | OutboxEventStatus.published ↦ false
  | OutboxEventStatus.dead_letter ↦ false
]

-- `sort: { availableAt: 1, createdAt: 1 }`.
abbrev pub is_earlier : OutboxEvent → OutboxEvent → Bool
is_earlier d e =
    ltb d.available_at e.available_at
    || (d.available_at == e.available_at && ltb d.created_at e.created_at)

abbrev pub claimed : ℕ → ℕ → OutboxEvent → OutboxEvent
claimed now lease e = record e {
  status = OutboxEventStatus.processing;
  lease_until = some (now + lease);
  attempts = e.attempts + 1;
}

unfoldable pub claim_next : Mongo → ℕ → ℕ → List OutboxEvent → Option OutboxEvent × List OutboxEvent
claim_next m now lease es =
    m.find_sorted_and_update OutboxEvent.event_id (is_due now) is_earlier (claimed now lease) es

abbrev pub is_processing : OutboxEvent → Bool
is_processing e = elim (e.status) [ OutboxEventStatus.processing ↦ true | _ ↦ false ]

abbrev pub published_at : ℕ → OutboxEvent → OutboxEvent
published_at now e = record e {
  status = OutboxEventStatus.published;
  processed_at = some now;
  lease_until = none;
}

unfoldable pub mark_published : Mongo → ℕ → ℕ → List OutboxEvent → List OutboxEvent
mark_published m now n es =
    (m.find_one_and_update (λ e. has_id n e && is_processing e) (published_at now) es).1

abbrev pub failed_at : String → ℕ → Bool → OutboxEvent → OutboxEvent
failed_at error retry_at dead e = record e {
  status = if dead then OutboxEventStatus.dead_letter else OutboxEventStatus.pending;
  available_at = retry_at;
  last_error = some error;
  lease_until = none;
}

unfoldable pub mark_failed : Mongo → ℕ → String → ℕ → Bool → List OutboxEvent → List OutboxEvent
mark_failed m n error retry_at dead es =
    (m.find_one_and_update (λ e. has_id n e && is_processing e) (failed_at error retry_at dead)
      es).1

abbrev pub max_attempts : ℕ
max_attempts = 8

abbrev pub default_lease : ℕ
default_lease = 120000

-- `Math.max(0, n)`
abbrev pub or_zero : ℤ → ℤ
or_zero (pos n) = pos n
or_zero (negsuc n) = pos 0

-- `n * 2 ** k`, up to a fraction where `k` is negative.
abbrev pub times_two_to : ℕ → ℤ → ℕ
times_two_to n (pos k) = n * 2 ^ k
times_two_to n (negsuc k) = n / 2 ^ (k + 1)

-- `Math.min(300_000, 2_000 * 2 ** Math.max(0, attempts - 1))`.
unfoldable pub retry_delay : ℕ → ℕ
unfolding ◌-ℤ◌
retry_delay attempts = min 300000 (times_two_to 2000 (or_zero (pos attempts -ℤ pos 1)))

-- What the queue is given, and whether it took it.
abbrev pub Enqueue : Type 0 → Type 0
Enqueue Q = OutboxEvent → Q → Result String (Unit {0}) × Q

-- After the queue has answered.
unfoldable pub relay :
    {Q : Type 0}
    → Mongo
    → ℕ
    → OutboxEvent
    → Result String (Unit {0}) × Q
    → List OutboxEvent
    → Bool × (List OutboxEvent × Q)
relay m now e (ok x, q) es = (true, (mark_published m now e.event_id es, q))
relay m now e (err error, q) es =
    let dead = leb max_attempts e.attempts in
    (false, (mark_failed m e.event_id error (now + retry_delay e.attempts) dead es, q))

abbrev pub run_found :
    {Q : Type 0}
    → Mongo
    → Enqueue Q
    → ℕ
    → Q
    → Option OutboxEvent × List OutboxEvent
    → Bool × (List OutboxEvent × Q)
run_found m enqueue now q (none, es) = (false, (es, q))
run_found m enqueue now q (some e, es) = relay m now e (enqueue e q) es

unfoldable pub run_once :
    {Q : Type 0} → Mongo → Enqueue Q → ℕ → List OutboxEvent → Q → Bool × (List OutboxEvent × Q)
run_once m enqueue now es q = run_found m enqueue now q (claim_next m now default_lease es)
