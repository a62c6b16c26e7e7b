-- ===== src/WorkOrders/Transitions.antt =====
-- work-order.service.ts, transition: which moves of the status the assigned technician makes.
use maintain_pro_backend.Shared.{
  ◌==◌, Bool-cases, same_id, find?, ok, err, business, ℕ, String, ◌≡◌, refl, ◌⊎◌, inl, inr, true,
  false, ◌&&◌, Option, some, [], ◌∷◌, ◌++◌, arith,
}
use maintain_pro_backend.Inventory.Service.Model.{Role}
use maintain_pro_backend.Shared.Mongo.{Mongo}
use maintain_pro_backend.WorkOrders.Model.{
  Actor, Office, WorkOrder, work_order_status_changed, facility_reference, WorkOrderStatus,
}
use maintain_pro_backend.WorkOrders.Stages.{replaced}
use maintain_pro_backend.WorkOrders.Actions.{
  transition, get, has_number, Progress, get_for_organization, allowed, target,
}
use maintain_pro_backend.WorkOrders.Lifecycle.{save_with_outbox_lem}

-- The transitions that the assigned worker may make.
pub data IsMove : WorkOrderStatus → Progress → Type 0 where
  start : IsMove WorkOrderStatus.assigned Progress.to_in_progress
  hold : IsMove WorkOrderStatus.in_progress Progress.to_on_hold
  resume : IsMove WorkOrderStatus.on_hold Progress.to_in_progress
  finish : IsMove WorkOrderStatus.in_progress Progress.to_pending_completion

IsMove-allowed : (w : WorkOrderStatus) (p : Progress) → IsMove w p → allowed w p ≡ true
IsMove-allowed _ _ IsMove.start = refl
IsMove-allowed _ _ IsMove.hold = refl
IsMove-allowed _ _ IsMove.resume = refl
IsMove-allowed _ _ IsMove.finish = refl

allowed-IsMove : (w : WorkOrderStatus) (p : Progress) → allowed w p ≡ true → IsMove w p
allowed-IsMove WorkOrderStatus.opened Progress.to_in_progress h = absurd cc
allowed-IsMove WorkOrderStatus.opened Progress.to_on_hold h = absurd cc
allowed-IsMove WorkOrderStatus.opened Progress.to_pending_completion h = absurd cc
allowed-IsMove WorkOrderStatus.assigned Progress.to_in_progress h = IsMove.start
allowed-IsMove WorkOrderStatus.assigned Progress.to_on_hold h = absurd cc
allowed-IsMove WorkOrderStatus.assigned Progress.to_pending_completion h = absurd cc
allowed-IsMove WorkOrderStatus.in_progress Progress.to_in_progress h = absurd cc
allowed-IsMove WorkOrderStatus.in_progress Progress.to_on_hold h = IsMove.hold
allowed-IsMove WorkOrderStatus.in_progress Progress.to_pending_completion h = IsMove.finish
allowed-IsMove WorkOrderStatus.pending_completion Progress.to_in_progress h = absurd cc
allowed-IsMove WorkOrderStatus.pending_completion Progress.to_on_hold h = absurd cc
allowed-IsMove WorkOrderStatus.pending_completion Progress.to_pending_completion h = absurd cc
allowed-IsMove WorkOrderStatus.completed Progress.to_in_progress h = absurd cc
allowed-IsMove WorkOrderStatus.completed Progress.to_on_hold h = absurd cc
allowed-IsMove WorkOrderStatus.completed Progress.to_pending_completion h = absurd cc
allowed-IsMove WorkOrderStatus.cancelled Progress.to_in_progress h = absurd cc
allowed-IsMove WorkOrderStatus.cancelled Progress.to_on_hold h = absurd cc
allowed-IsMove WorkOrderStatus.cancelled Progress.to_pending_completion h = absurd cc
allowed-IsMove WorkOrderStatus.on_hold Progress.to_in_progress h = IsMove.resume
allowed-IsMove WorkOrderStatus.on_hold Progress.to_on_hold h = absurd cc
allowed-IsMove WorkOrderStatus.on_hold Progress.to_pending_completion h = absurd cc

pub IsMove-cases :
    (w : WorkOrderStatus) (p : Progress)
    → (IsMove w p × (allowed w p ≡ true)) ⊎ ((¬ IsMove w p) × (allowed w p ≡ false))
IsMove-cases w p = elim (Bool-cases (allowed w p)) [
  | inl e ↦ inl (allowed-IsMove w p e, e)
  | inr e ↦ inr ((λ k. let no = IsMove-allowed w p k in absurd cc), e)
]

module _ (m : Mongo) (n : ℕ) (p : Progress) (t : Option String) (actor : Actor) (s : Office) where
  -- The work order after the transition.
  abbrev pub moved : WorkOrder → WorkOrder
  moved w = record w {
    status = target p;
    status_history =
        w.status_history
        ++ record { status = target p; changed_by = actor.user_id; reason = t } ∷ [];
  }

  -- The assigned technician of the organization makes the transitions from assigned or on hold to
  -- in progress, and from in progress to on hold or to pending completion: the status, its history
  -- and the outbox have the change. Every other transition of theirs is refused.
  pub transition-moves :
      (o : ℕ) (w : WorkOrder)
      → actor.role ≡ Role.technician
      → actor.organization_id ≡ some o
      → find? (λ x. has_number n x && x.organization_id == o) s.work_orders ≡ some w
      → w.assigned_technician_id ≡ some actor.user_id
      → (IsMove w.status p
          × (transition m n p t actor s
              ≡ ok (
                moved w,
                replaced
                    (moved w)
                    (facility_reference w.facility_id)
                    work_order_status_changed
                    actor.user_id
                    s,
              )))
        ⊎ ((¬ IsMove w.status p)
            × (transition m n p t actor s ≡ err (business "Invalid work order status transition")))
  unfolding transition get get_for_organization
  transition-moves o w r e f a =
      let own : same_id w.assigned_technician_id (some actor.user_id) ≡ true =
        rw a (ground arith) in
      let found = m.find_one_lem (λ x. has_number n x && x.organization_id == o) s.work_orders in
      elim (IsMove-cases w.status p) [
        | inl (move, k) ↦ inl (
          move,
          rw (r, e, found, f, own, k)
              (save_with_outbox_lem m (moved w) (facility_reference w.facility_id)
                work_order_status_changed actor.user_id s refl),
        )
        | inr (no_move, k) ↦ inr (no_move, rw (r, e, found, f, own, k) refl)
      ]
