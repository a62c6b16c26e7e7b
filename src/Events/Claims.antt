-- ===== src/Events/Claims.antt =====
-- outbox-event.repository.ts: several relays over one outbox. Their steps come in any order.
use maintain_pro_backend.Shared.{
  Bool-cases, Option-cases, find?, select, update_first, any, All, Result, ok, err, Fresh, Distinct,
  ℕ, ◌≤◌, String, ◌≡◌, refl, ap, ◌∙◌, ◌≢◌, ◌⊎◌, inl, inr, Bool, true, false, ◌&&◌, Option, none,
  some, List, [], ◌∷◌, ◌++◌,
}
use maintain_pro_backend.Shared.Mongo.{Mongo}
use maintain_pro_backend.Shared.Sorted.{first_by, chosen, Fresh-any, first_by-none}
use maintain_pro_backend.Events.Outbox.{
  OutboxEventStatus, OutboxEvent, NewEvent, new_event, has_id, append, is_due, is_earlier, claimed,
  claim_next, is_processing, published_at, mark_published, failed_at, mark_failed,
}

pub data OutboxStep : Type 0 where
  append_step : NewEvent → OutboxStep
  claim_step : ℕ → OutboxStep
  publish_step : ℕ → OutboxStep
  fail_step : ℕ → String → ℕ → Bool → OutboxStep

-- The times do not go beyond a limit.
abbrev pub Within : {A : Type 0} → ℕ → List (ℕ × A) → Type 0
Within limit xs = All (λ x. x.0 ≤ limit) xs

-- The step is not about the event.
abbrev pub Apart : ℕ → OutboxStep → Type 0
Apart n (OutboxStep.append_step input) = input.id ≢ n
Apart n (OutboxStep.claim_step lease) = Unit
Apart n (OutboxStep.publish_step k) = k ≢ n
Apart n (OutboxStep.fail_step k error retry_at dead) = k ≢ n

abbrev pub is_settled : OutboxEvent → Bool
is_settled e = elim (e.status) [
  | OutboxEventStatus.pending ↦ false
  | OutboxEventStatus.processing ↦ false
  | OutboxEventStatus.published ↦ true
  | OutboxEventStatus.dead_letter ↦ true
]

-- A write that is rejected leaves the collection as it was.
abbrev pub kept_or : {E A : Type 0} → A → Result E A → A
kept_or a (ok b) = b
kept_or a (err e) = a

module _ (m : Mongo) where
  -- The event that a step claims, and the outbox after it.
  unfoldable pub take_step :
      ℕ → OutboxStep → List OutboxEvent → Option OutboxEvent × List OutboxEvent
  take_step now (OutboxStep.append_step input) es = (none, kept_or es (append m now input es))
  take_step now (OutboxStep.claim_step lease) es = claim_next m now lease es
  take_step now (OutboxStep.publish_step n) es = (none, mark_published m now n es)
  take_step now (OutboxStep.fail_step n error retry_at dead) es =
      (none, mark_failed m n error retry_at dead es)

  unfoldable pub take_all : List (ℕ × OutboxStep) → List OutboxEvent → List OutboxEvent
  take_all [] es = es
  take_all ((now, c) ∷ cs) es = take_all cs (take_step now c es).1

  -- What is claimed in a run, in order.
  unfoldable pub claims : List (ℕ × OutboxStep) → List OutboxEvent → List (Option OutboxEvent)
  claims [] es = []
  claims ((now, c) ∷ cs) es = let (found, es') = take_step now c es in found ∷ claims cs es'

  -- A claim is of an event that is due, the only one with its identifier, or no event is due.
  pub claim_next-cases :
      (now lease : ℕ) (es : List OutboxEvent)
      → Distinct OutboxEvent.event_id es
      → (All (λ e. is_due now e ≡ false) es × (claim_next m now lease es ≡ (none, es)))
        ⊎ ((d : OutboxEvent) × (is_due now d ≡ true)
            × (find? (has_id d.event_id) es ≡ some d)
            × (claim_next m now lease es ≡ (
              some (claimed now lease d),
              update_first (has_id d.event_id) (claimed now lease) es,
            )))
  unfolding claim_next
  claim_next-cases now lease es u =
      elim (Option-cases (first_by is_earlier (select (is_due now) es))) [
        | inl e ↦ inl (
          first_by-none (is_due now) is_earlier es e,
          m.find_sorted_and_update_lem OutboxEvent.event_id (is_due now) is_earlier
                (claimed now lease) es
              ∙ rw e refl,
        )
        | inr (d, e) ↦
            let best = chosen OutboxEvent.event_id (is_due now) is_earlier es d u e in
            inr (
              d,
              best.0,
              best.1,
              m.find_sorted_and_update_lem OutboxEvent.event_id (is_due now) is_earlier
                    (claimed now lease) es
                  ∙ rw e refl,
            )
      ]

  pub append-cases :
      (now : ℕ) (input : NewEvent) (es : List OutboxEvent)
      → (kept_or es (append m now input es) ≡ es)
        ⊎ (Fresh OutboxEvent.event_id input.id es
            × (kept_or es (append m now input es) ≡ es ++ new_event now input ∷ []))
  unfolding append
  append-cases now input es = elim (Bool-cases (any (has_id input.id) es)) [
    | inl e ↦
        inl (
          ap (kept_or es) (m.create_lem true (has_id input.id) (new_event now input) es)
          ∙ rw e refl)
    | inr e ↦ inr (
      Fresh-any OutboxEvent.event_id input.id es e,
      ap (kept_or es) (m.create_lem true (has_id input.id) (new_event now input) es) ∙ rw e refl,
    )
  ]

  pub mark_published_lem :
      (now n : ℕ) (es : List OutboxEvent)
      → mark_published m now n es
        ≡ update_first (λ e. has_id n e && is_processing e) (published_at now) es
  unfolding mark_published
  mark_published_lem now n es =
      ap (λ r. r.1)
        (m.find_one_and_update_lem (λ e. has_id n e && is_processing e) (published_at now) es)

  pub mark_failed_lem :
      (n : ℕ) (error : String) (retry_at : ℕ) (dead : Bool) (es : List OutboxEvent)
      → mark_failed m n error retry_at dead es
        ≡ update_first (λ e. has_id n e && is_processing e) (failed_at error retry_at dead) es
  unfolding mark_failed
  mark_failed_lem n error retry_at dead es =
      ap (λ r. r.1)
        (m.find_one_and_update_lem (λ e. has_id n e && is_processing e)
          (failed_at error retry_at dead) es)
