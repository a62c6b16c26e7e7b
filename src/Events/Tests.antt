-- ===== src/Events/Tests.antt =====
-- The outbox and the processed events over a database that behaves as documented.
use maintain_pro_backend.Shared.Sorted.{first_by}
use maintain_pro_backend.Shared.{
  find?, All, ok, err, Distinct, ℕ, ◌+◌, ◌≤◌, ◌<◌, ◌≡◌, refl, ◌⊎◌, true, false, none, some, List,
  [], ◌∷◌, arith,
}
use maintain_pro_backend.Shared.Mongo.{documented}
use maintain_pro_backend.Shared.Texts.{codes}
use maintain_pro_backend.Events.Outbox.{
  OutboxEvent, NewEvent, new_event, has_id, claimed, claim_next, published_at, default_lease,
  retry_delay, Enqueue, is_due,
}
use maintain_pro_backend.Events.Claims.{OutboxStep, Within, Apart, take_all, claims}
use maintain_pro_backend.Events.Leases.{Spares, claim_next-exclusive, take_all-keeps_settled}
use maintain_pro_backend.Events.Relay.{
  IsRelayed, work, after_run, run_once-IsRelayed, retry_delay-bounds,
}
use maintain_pro_backend.Events.Processed.{
  ProcessedEvent, EventClaim, new_processed, claim, complete, fail,
}
use maintain_pro_backend.Events.Handling.{HandlingStep, IsNoFailure, handle_step, grants}
use maintain_pro_backend.Events.Granting.{claim-exclusive, complete-final}

abbrev created : NewEvent
created = record { id = 1; type = "asset.created"; body = "{}"; available = none }

abbrev moved : NewEvent
moved = record { id = 2; type = "asset.moved"; body = "{}"; available = some 50 }

abbrev outbox : List OutboxEvent
outbox = new_event 10 created ∷ new_event 20 moved ∷ []

abbrev outbox_after : List OutboxEvent
outbox_after = claimed 100 default_lease (new_event 10 created) ∷ new_event 20 moved ∷ []

outbox-Distinct : Distinct OutboxEvent.event_id outbox
outbox-Distinct = ground arith

first_claimed :
    claim_next documented 100 default_lease outbox
    ≡ (some (claimed 100 default_lease (new_event 10 created)), outbox_after)
unfolding claim_next first_by
first_claimed = refl

abbrev others : List (ℕ × OutboxStep)
others =
    (110, OutboxStep.claim_step 5)
    ∷ (120, OutboxStep.publish_step 2)
    ∷ (130, OutboxStep.claim_step 5)
    ∷ []

others-Apart : All (λ c. Apart 1 c.1) others
others-Apart = ground arith

claim_next-exclusive_example : All (Spares 1) (claims documented others outbox_after)
claim_next-exclusive_example =
    claim_next-exclusive documented 100 default_lease outbox
      (claimed 100 default_lease (new_event 10 created)) outbox_after others outbox-Distinct
      first_claimed (ground arith) others-Apart

abbrev settled : List OutboxEvent
settled =
    published_at 200 (claimed 100 default_lease (new_event 10 created)) ∷ new_event 20 moved ∷ []

settled-Distinct : Distinct OutboxEvent.event_id settled
settled-Distinct = ground arith

take_all-keeps_settled_example :
    find?
      (has_id 1)
      (take_all documented ((300, OutboxStep.fail_step 1 "late" 400 true) ∷ others) settled)
    ≡ some (published_at 200 (claimed 100 default_lease (new_event 10 created)))
take_all-keeps_settled_example =
    take_all-keeps_settled documented 1 ((300, OutboxStep.fail_step 1 "late" 400 true) ∷ others)
      settled (published_at 200 (claimed 100 default_lease (new_event 10 created))) settled-Distinct
      refl refl

abbrev down : Enqueue (List ℕ)
down e q = (err "queue down", q)

outbox-IsRelayed : All IsRelayed outbox
outbox-IsRelayed = ground arith

run_once-IsRelayed_example :
    All IsRelayed (after_run documented down 100 [] outbox)
    × ((All (λ e. is_due 100 e ≡ false) outbox × (after_run documented down 100 [] outbox ≡ outbox))
        ⊎ (work (after_run documented down 100 [] outbox) < work outbox))
run_once-IsRelayed_example =
    run_once-IsRelayed documented down 100 [] outbox outbox-Distinct outbox-IsRelayed

retry_delay-bounds_example :
    (2000 ≤ retry_delay 9) × (retry_delay 9 ≤ 300000) × (retry_delay 9 ≤ retry_delay (9 + 1))
retry_delay-bounds_example = retry_delay-bounds 9

abbrev mail : EventClaim
mail = record { id = 1; consumer = none; name = "asset.created" }

abbrev steps : List (ℕ × HandlingStep)
steps =
    (20, HandlingStep.claim_handling 50 mail)
    ∷ (30, HandlingStep.complete_handling 1 (codes "event-dispatcher"))
    ∷ (40, HandlingStep.claim_handling 50 mail)
    ∷ []

steps-Within : Within 110 steps
steps-Within = ground arith

steps-IsNoFailure : All (λ c. IsNoFailure 1 (codes "event-dispatcher") c.1) steps
steps-IsNoFailure = (tt, (tt, (tt, tt)))

mail_granted : (claim documented 10 100 mail []).0 ≡ ok true
unfolding claim
mail_granted = refl

claim-exclusive_example :
    grants documented 1 (codes "event-dispatcher") steps (claim documented 10 100 mail []).1 ≡ false
claim-exclusive_example =
    claim-exclusive documented 10 100 mail [] steps tt mail_granted steps-Within steps-IsNoFailure

abbrev handled : List ProcessedEvent
handled = new_processed 10 100 mail ∷ []

complete-final_example :
    grants documented 1
      (codes "event-dispatcher")
      steps
      (complete documented 15 1 (codes "event-dispatcher") handled)
    ≡ false
complete-final_example =
    complete-final documented 15 1 110 (codes "event-dispatcher") handled steps ((λ _. refl), tt)
      refl steps-Within steps-IsNoFailure

-- A failure that is stored late opens a completed event again.
reopened :
    grants documented 1
      (codes "event-dispatcher")
      ((40, HandlingStep.claim_handling 50 mail) ∷ [])
      (fail documented 1 "lease lost"
        (codes "event-dispatcher")
        (complete documented 15 1 (codes "event-dispatcher") handled))
    ≡ true
unfolding grants fail complete handle_step claim
reopened = refl
