-- ===== src/Events/Relay.antt =====
-- outbox-event.worker.ts: the relay that takes one event at a time to the queue.
use maintain_pro_backend.Shared.{
  leb, Bool-cases, find?, update_first, All, pos, ◌-ℤ◌, Result, ok, err, find?-head,
  All-update_first, All-find?, Distinct, ℕ, ◌+◌, ◌-◌, ◌*◌, ◌^◌, ◌≤◌, ◌<◌, min, String, ◌≡◌, refl,
  sym, ap, ◌∙◌, subst, ◌⊎◌, inl, inr, Bool, true, false, ◌&&◌, some, List, [], ◌∷◌, arith,
}
use native.Mathlib.Nat.{one-le-pow, pow-le-pow_right}
use maintain_pro_backend.Shared.Mongo.{Mongo}
use maintain_pro_backend.Events.Outbox.{
  OutboxEventStatus, OutboxEvent, has_id, is_due, claimed, published_at, failed_at, max_attempts,
  default_lease, retry_delay, Enqueue, relay, run_once, is_processing, run_found, or_zero,
}
use maintain_pro_backend.Events.Claims.{mark_published_lem, claim_next-cases, mark_failed_lem}
use maintain_pro_backend.Shared.Sorted.{update_first-twice}

-- Between runs nothing is in progress; what waits has tries left, and what was given up has none.
abbrev pub IsRelayed : OutboxEvent → Type 0
IsRelayed e = elim (e.status) [
  | OutboxEventStatus.pending ↦ e.attempts < max_attempts
  | OutboxEventStatus.processing ↦ ⊥
  | OutboxEventStatus.published ↦ e.attempts ≤ max_attempts
  | OutboxEventStatus.dead_letter ↦ e.attempts ≡ max_attempts
]

-- The tries that an event has left.
abbrev pub tries_left : OutboxEvent → ℕ
tries_left e = elim (e.status) [
  | OutboxEventStatus.pending ↦ max_attempts - e.attempts
  | OutboxEventStatus.processing ↦ 0
  | OutboxEventStatus.published ↦ 0
  | OutboxEventStatus.dead_letter ↦ 0
]

abbrev pub work : List OutboxEvent → ℕ
work [] = 0
work (e ∷ es) = tries_left e + work es

work-update_first :
    (p : OutboxEvent → Bool) (f : OutboxEvent → OutboxEvent) (es : List OutboxEvent)
    (e : OutboxEvent)
    → find? p es ≡ some e
    → work (update_first p f es) + tries_left e ≡ work es + tries_left (f e)
work-update_first p f [] e h = absurd cc
work-update_first p f (x ∷ es) e h = elim (Bool-cases (p x)) [
  | inl b ↦ let found : x ≡ e = find?-head p x es e b h in rw (b, found) (omega arith)
  | inr b ↦ rw b (omega (arith, work-update_first p f es e (rw b at h)))
]

-- What happens to the event that a run takes.
abbrev pub relayed : ℕ → Result String (Unit {0}) → OutboxEvent → OutboxEvent → OutboxEvent
relayed now (ok x) d e = published_at now (claimed now default_lease e)
relayed now (err error) d e =
    failed_at error (now + retry_delay (d.attempts + 1)) (leb max_attempts (d.attempts + 1))
      (claimed now default_lease e)

waiting : (now : ℕ) (e : OutboxEvent) → IsRelayed e → is_due now e ≡ true → 0 < tries_left e
waiting now e h k = ground arith

tried :
    (now : ℕ) (e : OutboxEvent) → IsRelayed e → is_due now e ≡ true → e.attempts + 1 ≤ max_attempts
tried now e h k = ground arith

one_less :
    (now : ℕ) (e : OutboxEvent)
    → IsRelayed e
    → is_due now e ≡ true
    → max_attempts - (e.attempts + 1) < tries_left e
one_less now e h k = ground arith

relayed-IsRelayed :
    (now : ℕ) (r : Result String (Unit {0})) (e : OutboxEvent)
    → IsRelayed e
    → is_due now e ≡ true
    → IsRelayed (relayed now r e e) × (tries_left (relayed now r e e) < tries_left e)
relayed-IsRelayed now (ok x) e h k = let left = waiting now e h k in (tried now e h k, left)
relayed-IsRelayed now (err error) e h k =
    let few = tried now e h k in
    elim (Bool-cases (leb max_attempts (e.attempts + 1))) [
      | inl b ↦ rw b ((ground arith), waiting now e h k)
      | inr b ↦ rw b ((ground arith), one_less now e h k)
    ]

module _ {Q : Type 0} (m : Mongo) (enqueue : Enqueue Q) (now : ℕ) (q : Q) where
  -- The outbox after a run.
  abbrev pub after_run : List OutboxEvent → List OutboxEvent
  after_run es = (run_once m enqueue now es q).1.0

  relay_update :
      (es : List OutboxEvent) (d : OutboxEvent) (r : Result String (Unit {0}) × Q)
      → (relay m now
          (claimed now default_lease d)
          r
          (update_first (has_id d.event_id) (claimed now default_lease) es)).1.0
        ≡ update_first (has_id d.event_id) (relayed now r.0 d) es
  unfolding relay
  relay_update es d (ok x, q') =
      mark_published_lem m now d.event_id
        (update_first (has_id d.event_id) (claimed now default_lease) es)
      ∙ update_first-twice (has_id d.event_id) (λ e. has_id d.event_id e && is_processing e)
          (claimed now default_lease) (published_at now) es (λ e h. rw h refl) (λ e h. rw h refl)
  relay_update es d (err error, q') =
      let dead = leb max_attempts (d.attempts + 1) in
      let retry_at = now + retry_delay (d.attempts + 1) in
      mark_failed_lem m d.event_id error retry_at dead
        (update_first (has_id d.event_id) (claimed now default_lease) es)
      ∙ update_first-twice (has_id d.event_id) (λ e. has_id d.event_id e && is_processing e)
          (claimed now default_lease) (failed_at error retry_at dead) es (λ e h. rw h refl)
          (λ e h. rw h refl)

  run_once-cases :
      (es : List OutboxEvent)
      → Distinct OutboxEvent.event_id es
      → (All (λ e. is_due now e ≡ false) es × (after_run es ≡ es))
        ⊎ ((d : OutboxEvent) × (r : Result String (Unit {0})) × (is_due now d ≡ true)
            × (find? (has_id d.event_id) es ≡ some d)
            × (after_run es ≡ update_first (has_id d.event_id) (relayed now r d) es))
  unfolding run_once
  run_once-cases es u = elim (claim_next-cases m now default_lease es u) [
    | inl (idle, k) ↦ inl (idle, ap (λ c. (run_found m enqueue now q c).1.0) k)
    | inr (d, due, found, k) ↦
        let answer = enqueue (claimed now default_lease d) q in
        inr (
          d,
          answer.0,
          due,
          found,
          ap (λ c. (run_found m enqueue now q c).1.0) k ∙ relay_update es d answer,
        )
  ]

  -- A run of the relay, over events with distinct identifiers that are between their tries, keeps
  -- them so (what waits has had fewer than eight, a dead letter has had eight, and none is in
  -- progress), and leaves fewer tries, or no event was due and the events are the same.
  pub run_once-IsRelayed :
      (es : List OutboxEvent)
      → Distinct OutboxEvent.event_id es
      → All IsRelayed es
      → All IsRelayed (after_run es)
        × ((All (λ e. is_due now e ≡ false) es × (after_run es ≡ es))
            ⊎ (work (after_run es) < work es))
  run_once-IsRelayed es u a = elim (run_once-cases es u) [
    | inl (idle, k) ↦ (subst (All IsRelayed) (sym k) a, inl (idle, k))
    | inr (d, r, due, found, k) ↦
        let relayed_d =
          relayed-IsRelayed now r d (All-find? (has_id d.event_id) IsRelayed es d a found) due in
        let less = work-update_first (has_id d.event_id) (relayed now r d) es d found in
        rw k (
          All-update_first (has_id d.event_id) IsRelayed (relayed now r d) es d a found
              (λ h. relayed_d.0),
          inr (omega (arith, less, relayed_d.1)),
        )
  ]

capped :
    (a b : ℕ)
    → 1 ≤ a
    → a ≤ b
    → (2000 ≤ min 300000 (2000 * a))
      × (min 300000 (2000 * a) ≤ 300000)
      × (min 300000 (2000 * a) ≤ min 300000 (2000 * b))
capped a b h k = ((omega arith), (omega arith), (omega arith))

-- The exponent of a delay is no negative number.
exponent : (n : ℕ) → or_zero (pos n -ℤ pos 1) ≡ pos (n - 1)
unfolding ◌-ℤ◌
exponent n = ground arith

-- The delay after a number of tries is from two seconds to five minutes, and not longer than after
-- one more try.
pub retry_delay-bounds :
    (n : ℕ)
    → (2000 ≤ retry_delay n) × (retry_delay n ≤ 300000) × (retry_delay n ≤ retry_delay (n + 1))
unfolding retry_delay
retry_delay-bounds n =
    rw (exponent n, exponent (n + 1))
      (capped (2 ^ (n - 1)) (2 ^ (n + 1 - 1)) (one-le-pow (n - 1) 2 (omega arith))
        (pow-le-pow_right (omega arith) (omega arith)))
