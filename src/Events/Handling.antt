-- ===== src/Events/Handling.antt =====
-- processed-event.repository.ts: several consumers over one collection. Their steps come in any
-- order.
use maintain_pro_backend.Shared.{
  ◌==◌, Bool-cases, is_some, find?, update_first, any, Result, ok, err, ℕ, ◌+◌, ◌≤◌, String, ◌≡◌,
  refl, sym, ap, ◌∙◌, ◌⊎◌, inl, inr, Bool, true, false, ◌&&◌, ◌||◌, Option, none, some, List, [],
  ◌∷◌, ◌++◌, arith,
}
use mathlib.Core.Option
use maintain_pro_backend.Shared.Mongo.{WriteError, Mongo, duplicate_key}
use maintain_pro_backend.Shared.Texts.{Text, same, same_sound, same_refl}
use maintain_pro_backend.Events.Processed.{
  ProcessedEvent, EventClaim, or_dispatcher, is_of, is_claimable, claim, completed_at_time,
  complete, failed_with, fail, new_processed, reclaimed, claim_outcome, retaken, has_ended,
}

pub data HandlingStep : Type 0 where
  claim_handling : ℕ → EventClaim → HandlingStep
  complete_handling : ℕ → Text → HandlingStep
  fail_handling : ℕ → String → Text → HandlingStep

-- The step is not a failure of the consumer on the event.
abbrev pub IsNoFailure : ℕ → Text → HandlingStep → Type 0
IsNoFailure n consumer (HandlingStep.fail_handling k error other) =
    (k == n && same other consumer) ≡ false
IsNoFailure n consumer _ = Unit

-- A granted claim of the consumer on the event.
abbrev pub is_granted : ℕ → Text → HandlingStep → Result WriteError Bool → Bool
is_granted n consumer (HandlingStep.claim_handling lease input) (ok true) =
    input.id == n && same (or_dispatcher input.consumer) consumer
is_granted n consumer _ _ = false

-- A document has one key.
pub keys_apart :
    (k n : ℕ) (other consumer : Text) (d : ProcessedEvent)
    → (k == n && same other consumer) ≡ false
    → is_of k other d ≡ true
    → is_of n consumer d ≡ true
    → ⊥
keys_apart k n other consumer d h g o =
    let left : d.event_id ≡ k = ground arith in
    let right : d.event_id ≡ n = ground arith in
    let first = same_sound d.consumer_name other (ground arith) in
    let second = same_sound d.consumer_name consumer (ground arith) in
    let one : other ≡ consumer = sym first ∙ second in
    let key : k ≡ n = sym left ∙ right in
    let equal : same other consumer ≡ true = rw one (same_refl consumer) in
    ground (arith, key, equal, h)

pub and_false : (b : Bool) → (b && false) ≡ false
and_false true = refl
and_false false = refl

pub one_key :
    (k n : ℕ) (other consumer : Text) (d : ProcessedEvent)
    → (k == n && same other consumer) ≡ true
    → is_of k other d ≡ true
    → is_of n consumer d ≡ true
one_key k n other consumer d h g =
    let key : d.event_id ≡ n = ground arith in
    let first = same_sound d.consumer_name other (ground arith) in
    let second = same_sound other consumer (ground arith) in
    let equal : same d.consumer_name consumer ≡ true = rw (first, second) (same_refl consumer) in
    ground (arith, key, equal)

-- An event that was not there is another one.
pub other_key :
    (n : ℕ) (consumer : Text) (input : EventClaim) (ps : List ProcessedEvent)
    → any (is_of input.id (or_dispatcher input.consumer)) ps ≡ false
    → any (is_of n consumer) ps ≡ true
    → (input.id == n && same (or_dispatcher input.consumer) consumer) ≡ false
other_key n consumer input [] h k = absurd (let no : false ≡ true = k in cc)
other_key n consumer input (p ∷ ps) h k =
    elim (Bool-cases (input.id == n && same (or_dispatcher input.consumer) consumer)) [
      | inr e ↦ e
      | inl e ↦ elim (Bool-cases (is_of input.id (or_dispatcher input.consumer) p)) [
        | inl g ↦ absurd (let no : true ≡ false = rw g at h in cc)
        | inr g ↦ elim (Bool-cases (is_of n consumer p)) [
          | inl f ↦
              let ids : input.id ≡ n = ground arith in
              let names = same_sound (or_dispatcher input.consumer) consumer (ground arith) in
              let both : is_of input.id (or_dispatcher input.consumer) p ≡ is_of n consumer p =
                rw (ids, names) refl in
              absurd (let no : false ≡ true = sym g ∙ both ∙ f in cc)
          | inr f ↦ other_key n consumer input ps (rw g at h) (rw f at k)
        ]
      ]
    ]

pub fresh_lease : (now lease t : ℕ) → t ≤ now + lease → has_ended (some (now + lease)) t ≡ false
fresh_lease now lease t h = ground arith

pub map_some :
    (f : ProcessedEvent → ProcessedEvent) (o : Option ProcessedEvent)
    → is_some (Option.map f o) ≡ true
    → is_some o ≡ true
map_some f none h = absurd (let no : false ≡ true = h in cc)
map_some f (some p) h = refl

abbrev pub key_of : EventClaim → ProcessedEvent → Bool
key_of input p = is_of input.id (or_dispatcher input.consumer) p

abbrev pub open_to : ℕ → EventClaim → ProcessedEvent → Bool
open_to now input p = key_of input p && is_claimable now p

module _ (m : Mongo) where
  pub complete_lem :
      (now k : ℕ) (other : Text) (ps : List ProcessedEvent)
      → complete m now k other ps ≡ update_first (is_of k other) (completed_at_time now) ps
  unfolding complete
  complete_lem now k other ps =
      ap (λ r. r.1) (m.find_one_and_update_lem (is_of k other) (completed_at_time now) ps)

  pub fail_lem :
      (k : ℕ) (error : String) (other : Text) (ps : List ProcessedEvent)
      → fail m k error other ps ≡ update_first (is_of k other) (failed_with error) ps
  unfolding fail
  fail_lem k error other ps =
      ap (λ r. r.1) (m.find_one_and_update_lem (is_of k other) (failed_with error) ps)

  -- A claim inserts the event, or takes the one that is there if it may be claimed.
  pub claim-cases :
      (now lease : ℕ) (input : EventClaim) (ps : List ProcessedEvent)
      → ((any (key_of input) ps ≡ false)
          × (claim m now lease input ps ≡ (ok true, ps ++ new_processed now lease input ∷ [])))
        ⊎ ((any (key_of input) ps ≡ true)
            × (claim m now lease input ps ≡ (
              ok (is_some (Option.map (reclaimed now lease input) (find? (open_to now input) ps))),
              update_first (open_to now input) (reclaimed now lease input) ps,
            )))
  unfolding claim
  claim-cases now lease input ps =
      let inserted = m.create_lem true (key_of input) (new_processed now lease input) ps in
      let again = m.find_one_and_update_lem (open_to now input) (reclaimed now lease input) ps in
      elim (Bool-cases (any (key_of input) ps)) [
        | inl e ↦
            let clash : m.create true (key_of input) (new_processed now lease input) ps
                ≡ err duplicate_key =
              inserted ∙ rw e refl in
            inr (e, ap (λ r. claim_outcome m now lease input r ps) clash ∙ ap retaken again)
        | inr e ↦
            let new : m.create true (key_of input) (new_processed now lease input) ps
                ≡ ok (ps ++ new_processed now lease input ∷ []) =
              inserted ∙ rw e refl in
            inl (e, ap (λ r. claim_outcome m now lease input r ps) new)
      ]

  -- What a claim answers; other steps answer false.
  unfoldable pub handle_step :
      ℕ → HandlingStep → List ProcessedEvent → Result WriteError Bool × List ProcessedEvent
  handle_step now (HandlingStep.claim_handling lease input) ps = claim m now lease input ps
  handle_step now (HandlingStep.complete_handling n consumer) ps =
      (ok false, complete m now n consumer ps)
  handle_step now (HandlingStep.fail_handling n error consumer) ps =
      (ok false, fail m n error consumer ps)

  unfoldable pub handle_all : List (ℕ × HandlingStep) → List ProcessedEvent → List ProcessedEvent
  handle_all [] ps = ps
  handle_all ((now, c) ∷ cs) ps = handle_all cs (handle_step now c ps).1

  -- Whether a run grants the consumer a claim on the event.
  unfoldable pub grants : ℕ → Text → List (ℕ × HandlingStep) → List ProcessedEvent → Bool
  grants n consumer [] ps = false
  grants n consumer ((now, c) ∷ cs) ps =
      let (answer, ps') = handle_step now c ps in
      is_granted n consumer c answer || grants n consumer cs ps'
