-- ===== src/WorkOrders/Authority.antt =====
-- work-order.service.ts: whom an action on a work order succeeds for.
use maintain_pro_backend.Shared.{
  ◌==◌, Bool-cases, same_id, find?, ok, throw_if, or_throw, Exception, authorization, business,
  not_found, ok-injective, err≢ok, >>=-eq-ok, or_throw-eq-ok, Distinct, ℕ, String, ◌≡◌, refl, sym,
  ◌∙◌, inl, inr, Bool, true, false, not, ◌&&◌, ◌||◌, Option, some, arith,
}
use maintain_pro_backend.Shared.Mongo.{Mongo}
use maintain_pro_backend.WorkOrders.Stages.{
  Action, archive_action, progress_action, transition_action, assign_action, number, perform,
  assign-fails, reject_action, request_information_action,
}
use maintain_pro_backend.Inventory.Service.Model.{Role}
use maintain_pro_backend.WorkOrders.Model.{
  Actor, Office, is_vendor_role, WorkOrder, is_vendor_manager, is_manager, is_reviewer, is_pending,
  is_vendor_technician, FacilityField, facility_reference,
}
use maintain_pro_backend.WorkOrders.Actions.{
  get, get_for_vendor, is_assigned_worker, has_number, vendor_of, get_for_organization,
  may_transition, update_progress, find_reviewed, transition, archive, assert_manager,
  assert_approval_actor, approve_completion, Progress, reject_completion, request_information,
  populated,
}
use maintain_pro_backend.WorkOrders.Lifecycle.{get-eq-ok}

-- The assigned worker, or a manager of the assigned vendor, which may be looked up.
abbrev pub is_mover : Mongo → Actor → Office → WorkOrder → Bool
is_mover m actor s w =
    is_assigned_worker w actor
    || (is_vendor_manager actor.role && same_id w.assigned_vendor_id (vendor_of m actor s))

-- Who may do what to a work order.
abbrev pub IsPermitted : Mongo → Action → Actor → Office → WorkOrder → Type 0
IsPermitted m Action.archive_action actor s w = is_manager actor.role ≡ true
IsPermitted m (progress_action _) actor s w = is_assigned_worker w actor ≡ true
IsPermitted m (transition_action _ _) actor s w = is_mover m actor s w ≡ true
IsPermitted m (assign_action _) actor s w = is_manager actor.role ≡ true
IsPermitted m _ actor s w =
    (is_reviewer actor.role ≡ true)
    × (same_id (some w.organization_id) actor.organization_id ≡ true)

not_thrown : (b : Bool) (e : Exception) (x : Unit {0}) → throw_if (not b) e ≡ ok x → b ≡ true
not_thrown true e x h = refl
not_thrown false e x h = absurd (err≢ok e x h)

no_vendor : (r : Role) → is_vendor_role r ≡ false → is_vendor_manager r ≡ false
no_vendor r h = ground arith

module _ (m : Mongo) (n : ℕ) (actor : Actor) (s : Office) where
  abbrev Agrees : Actor × WorkOrder × FacilityField → Type 0
  Agrees g =
      (is_assigned_worker g.1 g.0 ≡ is_assigned_worker g.1 actor)
      × (may_transition m g.1 g.0 ≡ is_mover m actor s g.1)

  vendor-Agrees :
      (v : ℕ) (w : WorkOrder) (facility : FacilityField) (g : Actor × WorkOrder × FacilityField)
      → (record actor { vendor_id = some v }, w, facility) ≡ g
      → vendor_of m actor s ≡ some v
      → Agrees g
  vendor-Agrees v w facility g e k = rw (← e, k) (refl, refl)

  worker-Agrees :
      (w : WorkOrder) (g : Actor × WorkOrder × FacilityField)
      → (actor, w, facility_reference w.facility_id) ≡ g
      → is_vendor_role actor.role ≡ false
      → Agrees g
  worker-Agrees w g e k = rw (← e, no_vendor actor.role k) (refl, refl)

  -- The actor that `get` returns may do what the actor may, with the vendor looked up.
  get-may : (g : Actor × WorkOrder × FacilityField) → get m n actor s ≡ ok g → Agrees g
  unfolding get get_for_vendor get_for_organization
  get-may g h = elim (Bool-cases (is_vendor_role actor.role)) [
    | inl yes' ↦
        let (v, e, h1) =
          >>=-eq-ok (or_throw (vendor_of m actor s) (authorization "Vendor context required")) _ g
            (rw yes' at h) in
        let (w, _, h2) =
          >>=-eq-ok
            (or_throw
              (m.find_one
                (λ x.
                  has_number n x
                  && (same_id x.assigned_vendor_id (some v)
                      && (not (is_vendor_technician actor.role)
                          || same_id x.assigned_vendor_technician_id (some actor.user_id))))
                s.work_orders)
              (not_found "Work order not found"))
            _ g h1 in
        let k = or_throw-eq-ok _ _ v e in
        let facility =
          populated w.facility_id (m.find_one (λ f. f == w.facility_id) s.facilities) in
        let same = ok-injective (record actor { vendor_id = some v }, w, facility) g h2 in
        vendor-Agrees v w facility g same k
    | inr no' ↦
        let (o, _, h1) =
          >>=-eq-ok (or_throw actor.organization_id (authorization "Organization context required"))
            _ g (rw no' at h) in
        let (w, _, h2) =
          >>=-eq-ok
            (or_throw (m.find_one (λ x. has_number n x && x.organization_id == o) s.work_orders)
              (not_found "Work order not found"))
            _ g h1 in
        let same = ok-injective (actor, w, facility_reference w.facility_id) g h2 in
        worker-Agrees w g same no'
  ]

  module _ (u : Distinct number s.work_orders) where
    -- A permission on the work order of the number.
    Permitted : Action → Type 0
    Permitted a =
        (w : WorkOrder) × (find? (has_number n) s.work_orders ≡ some w) × IsPermitted m a actor s w

    reviewed-Permitted :
        (refusal : String) (w : WorkOrder)
        → find_reviewed m refusal n actor s ≡ ok w
        → (find? (has_number n) s.work_orders ≡ some w)
          × (is_reviewer actor.role ≡ true)
          × (same_id (some w.organization_id) actor.organization_id ≡ true)
    unfolding find_reviewed assert_approval_actor
    reviewed-Permitted refusal w h =
        let (x, e, h1) =
          >>=-eq-ok
            (throw_if (not (is_reviewer actor.role))
              (authorization "Only finance, admin, or facility manager can review completion"))
            _ w h in
        let (w', f, h2) =
          >>=-eq-ok
            (or_throw (m.find_one (has_number n) s.work_orders) (not_found "Work order not found"))
            _ w h1 in
        let (y, e', h3) =
          >>=-eq-ok
            (throw_if (not (same_id (some w'.organization_id) actor.organization_id))
              (not_found "Work order not found"))
            _ w h2 in
        let (_, _, h4) =
          >>=-eq-ok (throw_if (not (is_pending w'.status)) (business refusal)) _ w h3 in
        let same = ok-injective w' w h4 in
        let found = rw (m.find_one_lem (has_number n) s.work_orders) at (or_throw-eq-ok _ _ w' f) in
        rw (← same) (found, not_thrown _ _ x e, not_thrown _ _ y e')

    archive-Permitted :
        (r : WorkOrder × Office) → archive m n actor s ≡ ok r → Permitted archive_action
    unfolding archive assert_manager Permitted
    archive-Permitted r h =
        let (x, e, h1) =
          >>=-eq-ok
            (throw_if (not (is_manager actor.role))
              (authorization "Only admin or facility manager can perform this action"))
            _ r h in
        let (g, f, _) = >>=-eq-ok (get m n actor s) _ r h1 in
        (g.1, (get-eq-ok m n actor s u g f).0, not_thrown _ _ x e)

    progress-Permitted :
        (p : Progress) (r : WorkOrder × Office)
        → update_progress m n p actor s ≡ ok r
        → Permitted (progress_action p)
    unfolding update_progress Permitted
    progress-Permitted p r h =
        let (g, f, h1) = >>=-eq-ok (get m n actor s) _ r h in
        let (x, e, _) =
          >>=-eq-ok
            (throw_if (not (is_assigned_worker g.1 g.0))
              (authorization "Only the assigned worker can update progress"))
            _ r h1 in
        (g.1, (get-eq-ok m n actor s u g f).0, sym (get-may g f).0 ∙ not_thrown _ _ x e)

    transition-Permitted :
        (p : Progress) (t : Option String) (r : WorkOrder × Office)
        → transition m n p t actor s ≡ ok r
        → Permitted (transition_action p t)
    unfolding transition Permitted
    transition-Permitted p t r h =
        let (g, f, h1) = >>=-eq-ok (get m n actor s) _ r h in
        let (x, e, _) =
          >>=-eq-ok
            (throw_if (not (may_transition m g.1 g.0))
              (authorization "Only the assigned worker can update progress"))
            _ r h1 in
        (g.1, (get-eq-ok m n actor s u g f).0, sym (get-may g f).1 ∙ not_thrown _ _ x e)

    -- An action that succeeds, on work orders with distinct numbers, is by someone who may do it: a manager archives, the assigned worker reports progress, that worker or a manager of the assigned vendor makes a transition, and a reviewer of the organization reviews.
    pub perform-Permitted :
        (a : Action) (r : WorkOrder × Office)
        → perform m a n actor s ≡ ok r
        → (w : WorkOrder) × (find? (has_number n) s.work_orders ≡ some w)
          × IsPermitted m a actor s w
    unfolding perform Permitted approve_completion reject_completion request_information
    perform-Permitted Action.archive_action r h = archive-Permitted r h
    perform-Permitted (progress_action p) r h = progress-Permitted p r h
    perform-Permitted (transition_action p t) r h = transition-Permitted p t r h
    perform-Permitted (assign_action t) r h = absurd (assign-fails m n t actor s r h)
    perform-Permitted Action.approve_action r h =
        let (w, e, _) =
          >>=-eq-ok
            (find_reviewed m "Only pending completion work orders can be approved" n actor s) _ r
            h in
        let (f, a, b) = reviewed-Permitted _ w e in (w, f, (a, b))
    perform-Permitted (reject_action t) r h =
        let (w, e, _) =
          >>=-eq-ok
            (find_reviewed m "Only pending completion work orders can be rejected" n actor s) _ r
            h in
        let (f, a, b) = reviewed-Permitted _ w e in (w, f, (a, b))
    perform-Permitted (request_information_action t) r h =
        let (w, e, _) =
          >>=-eq-ok
            (find_reviewed m "Only pending completion work orders can request information" n actor
              s)
            _ r h in
        let (f, a, b) = reviewed-Permitted _ w e in (w, f, (a, b))
