-- ===== src/WorkOrders/Stages.antt =====
-- work-order.service.ts: the actions, and the life of a work order.
use maintain_pro_backend.Shared.{
  ◌==◌, if◌then◌else◌, same_id, find?, update_first, Result, ok, throw_if, or_throw, Exception,
  business, validation, err≢ok, >>=-eq-ok, ℕ, String, ◌≡◌, Bool, true, false, not, ◌&&◌, ◌||◌,
  Option, some, [], ◌∷◌, ◌++◌, arith,
}
use maintain_pro_backend.Shared.Mongo.{Mongo}
use maintain_pro_backend.WorkOrders.Model.{
  WorkOrderStatus, is_pending, is_in_progress, WorkOrder, Actor, is_assigned, FactName, Office,
  is_open, is_technician, FacilityField, is_vendor_role, facility_document, facility_reference,
}
use maintain_pro_backend.WorkOrders.Actions.{
  Progress, allowed, assign, is_to_progress, target, assert_internal_technician, is_to_completion,
  assert_manager, has_number, archive, fact_of, get, update_progress, transition,
  approve_completion, reject_completion, request_information,
}
use maintain_pro_backend.Inventory.Service.Model.{Role}

-- The calls of the service's actions on one work order.
pub data Action : Type 0 where
  archive_action approve_action : Action
  progress_action : Progress → Action
  transition_action : Progress → Option String → Action
  assign_action : ℕ → Action
  reject_action request_information_action : String → Action

unfoldable pub perform : Mongo → Action → ℕ → Actor → Office → Result Exception (WorkOrder × Office)
perform m archive_action n actor s = archive m n actor s
perform m (progress_action p) n actor s = update_progress m n p actor s
perform m (transition_action p r) n actor s = transition m n p r actor s
perform m (assign_action t) n actor s = assign m n t actor s
perform m approve_action n actor s = approve_completion m n actor s
perform m (reject_action r) n actor s = reject_completion m n r actor s
perform m (request_information_action r) n actor s = request_information m n r actor s

-- `updateProgressSchema`: progress is to the work or to its completion.
abbrev pub IsSubmittable : Action → Type 0
IsSubmittable (progress_action Progress.to_on_hold) = ⊥
IsSubmittable _ = Unit

-- The steps of a work order's life.
abbrev pub is_step : WorkOrderStatus → WorkOrderStatus → Bool
is_step WorkOrderStatus.opened WorkOrderStatus.assigned = true
is_step WorkOrderStatus.assigned WorkOrderStatus.assigned = true
is_step WorkOrderStatus.assigned WorkOrderStatus.in_progress = true
is_step WorkOrderStatus.in_progress WorkOrderStatus.on_hold = true
is_step WorkOrderStatus.on_hold WorkOrderStatus.in_progress = true
is_step WorkOrderStatus.in_progress WorkOrderStatus.pending_completion = true
is_step WorkOrderStatus.pending_completion WorkOrderStatus.pending_completion = true
is_step WorkOrderStatus.pending_completion WorkOrderStatus.in_progress = true
is_step WorkOrderStatus.pending_completion WorkOrderStatus.completed = true
is_step WorkOrderStatus.opened WorkOrderStatus.cancelled = true
is_step WorkOrderStatus.assigned WorkOrderStatus.cancelled = true
is_step WorkOrderStatus.on_hold WorkOrderStatus.cancelled = true
is_step WorkOrderStatus.completed WorkOrderStatus.cancelled = true
is_step WorkOrderStatus.cancelled WorkOrderStatus.cancelled = true
is_step _ _ = false

abbrev pub number : WorkOrder → ℕ
number w = w.id

-- What the fact of an actor has for a facility.
abbrev pub facility_for : Role → ℕ → FacilityField
facility_for role n = if is_vendor_role role then facility_document n else facility_reference n

abbrev pub replaced : WorkOrder → FacilityField → FactName → ℕ → Office → Office
replaced w facility name actor_id s = record s {
  work_orders = update_first (has_number w.id) (λ _. w) s.work_orders;
  outbox = s.outbox ++ fact_of name actor_id w facility ∷ [];
}

-- What an action that succeeds has done: the work order of the number has made a step of its life and
-- is replaced, and one fact about it is in the outbox, whose facility is a document if the actor is of a vendor.
pub record HasStepped (n : ℕ) (actor : Actor) (s : Office) (r : WorkOrder × Office) : Type 0 where
  pub before : WorkOrder
  pub name : FactName
  pub found : find? (has_number n) s.work_orders ≡ some before
  pub same_organization : r.0.organization_id ≡ before.organization_id
  pub stepped : is_step before.status r.0.status ≡ true
  pub left : r.1 ≡ replaced r.0 (facility_for actor.role r.0.facility_id) name actor.user_id s

pub archivable :
    (w : WorkOrderStatus)
    → (is_in_progress w || is_pending w) ≡ false
    → is_step w WorkOrderStatus.cancelled ≡ true
archivable w h = ground arith

pub progressing :
    (p : Progress) (w : WorkOrderStatus)
    → IsSubmittable (progress_action p)
    → (is_to_progress p && not (is_assigned w)) ≡ false
    → (is_to_completion p && not (is_in_progress w)) ≡ false
    → is_step w (target p) ≡ true
progressing Progress.to_in_progress w a h k = ground arith
progressing Progress.to_on_hold w a h k = absurd a
progressing Progress.to_pending_completion w a h k = ground arith

pub allowed_step :
    (p : Progress) (w : WorkOrderStatus) → not (allowed w p) ≡ false → is_step w (target p) ≡ true
allowed_step p w h = ground arith

pub reviewed :
    (w : WorkOrderStatus)
    → is_pending w ≡ true
    → (is_step w WorkOrderStatus.completed ≡ true)
      × (is_step w WorkOrderStatus.in_progress ≡ true)
      × (is_step w WorkOrderStatus.pending_completion ≡ true)
reviewed w h = ground arith

-- No internal assignment succeeds: the technician's status is not among the fields that are read.
pub assign-fails :
    (m : Mongo) (n t : ℕ) (actor : Actor) (s : Office) (r : WorkOrder × Office)
    → ¬ (assign m n t actor s ≡ ok r)
unfolding assign assert_internal_technician
assign-fails m n t actor s r h =
    let (_, _, h1) = >>=-eq-ok (assert_manager m actor) _ r h in
    let (g, _, h2) = >>=-eq-ok (get m n actor s) _ r h1 in
    let (_, _, h3) =
      >>=-eq-ok
        (throw_if (not (is_open g.1.status) && not (is_assigned g.1.status))
          (business "Work order is not available for internal assignment"))
        _ r h2 in
    let (_, e, _) = >>=-eq-ok (assert_internal_technician m t actor.organization_id s) _ r h3 in
    let (u, _, k1) =
      >>=-eq-ok
        (or_throw (m.find_one (λ u. u.id == t) s.users)
          (validation "Only internal technicians can be assigned"))
        _ tt e in
    let (_, _, k2) =
      >>=-eq-ok
        (throw_if (not (is_technician u.role))
          (validation "Only internal technicians can be assigned"))
        _ tt k1 in
    let (_, _, k3) =
      >>=-eq-ok
        (throw_if (not (same_id u.organization_id actor.organization_id))
          (validation "Technician does not belong to this organization"))
        _ tt k2 in
    err≢ok (validation "Technician is not active") tt k3
