-- ===== src/WorkOrders/Actions.antt =====
-- work-order.service.ts: the actions on one work order, with their checks and the outbox.
use maintain_pro_backend.Shared.{
  ◌==◌, if◌then◌else◌, same_id, Result, ok, err, ◌>>=◌, ◌>>◌, throw_if, or_throw, Exception,
  authorization, business, not_found, validation, internal, ℕ, String, Bool, true, false, not, ◌&&◌,
  ◌||◌, Option, none, some, [], ◌∷◌, ◌++◌,
}
use maintain_pro_backend.Shared.Mongo.{Mongo}
use maintain_pro_backend.WorkOrders.Model.{
  WorkOrderStatus, WorkOrder, AccountStatus, User, FactName, Actor, Office, is_technician,
  is_assigned, is_reviewer, is_manager, work_order_status_changed, is_pending, is_in_progress,
  is_vendor_manager, BusinessFact, is_open, is_vendor_role, is_vendor_technician,
  work_order_assigned, facility_reference, FacilityField, facility_document, null_field,
}

abbrev pub has_number : ℕ → WorkOrder → Bool
has_number n w = w.id == n

-- The outcome of a transaction: an exception, or the result and the new state.
abbrev saved : {A : Type 0} → Result Exception A × Office → Result Exception (A × Office)
saved (ok a, s) = ok (a, s)
saved (err e, s) = err e

abbrev pub fact_of : FactName → ℕ → WorkOrder → FacilityField → BusinessFact
fact_of name actor_id w facility = record {
  name = name;
  work_order_id = w.id;
  facility_id = facility;
  assigned_vendor_id = w.assigned_vendor_id;
  assigned_technician_id = w.assigned_technician_id;
  organization_id = w.organization_id;
  actor_id = actor_id;
}

-- A field that is null has no `toString`.
abbrev pub serialized : FacilityField → BusinessFact → Result Exception BusinessFact
serialized (facility_reference n) fact = ok fact
serialized (facility_document n) fact = ok fact
serialized null_field fact = err (internal "Cannot read properties of null")

-- `populate("facilityId")`
abbrev pub populated : ℕ → Option ℕ → FacilityField
populated n none = null_field
populated n (some _) = facility_document n

-- `isAssignedWorker`
abbrev pub is_assigned_worker : WorkOrder → Actor → Bool
is_assigned_worker w actor =
    if is_technician actor.role
    then same_id w.assigned_technician_id (some actor.user_id)
    else is_vendor_technician actor.role
      && same_id w.assigned_vendor_technician_id (some actor.user_id)

-- The statuses that `updateProgress` and `transition` take.
pub data Progress : Type 0 where
  to_in_progress to_on_hold to_pending_completion : Progress

abbrev pub target : Progress → WorkOrderStatus
target to_in_progress = WorkOrderStatus.in_progress
target to_on_hold = WorkOrderStatus.on_hold
target to_pending_completion = WorkOrderStatus.pending_completion

-- The table `allowed` of `transition`.
abbrev pub allowed : WorkOrderStatus → Progress → Bool
allowed WorkOrderStatus.assigned to_in_progress = true
allowed WorkOrderStatus.in_progress to_on_hold = true
allowed WorkOrderStatus.in_progress to_pending_completion = true
allowed WorkOrderStatus.on_hold to_in_progress = true
allowed _ _ = false

abbrev pub is_to_progress : Progress → Bool
is_to_progress to_in_progress = true
is_to_progress _ = false

abbrev pub is_to_completion : Progress → Bool
is_to_completion to_pending_completion = true
is_to_completion _ = false

module _ (m : Mongo) where
  -- `save` replaces the document that was read (a populated field is saved as its reference), and
  -- the fact is appended.
  unfoldable pub save_body :
      WorkOrder → FacilityField → FactName → ℕ → Office → Result Exception (WorkOrder × Office)
  save_body w facility name actor_id s =
      serialized facility (fact_of name actor_id w facility) >>= λ fact. ok (
        w,
        record s {
          work_orders = (m.find_one_and_update (has_number w.id) (λ _. w) s.work_orders).1;
          outbox = s.outbox ++ fact ∷ [];
        },
      )

  unfoldable pub save_with_outbox :
      WorkOrder → FacilityField → FactName → ℕ → Office → Result Exception (WorkOrder × Office)
  unfolding save_body
  save_with_outbox w facility name actor_id s =
      saved (m.with_transaction (save_body w facility name actor_id) s)

  -- `User.findById(id).select("vendorId")`
  unfoldable pub vendor_of : Actor → Office → Option ℕ
  vendor_of actor s = elim actor.vendor_id [
    | some v ↦ some v
    | none ↦ elim (m.find_one (λ u. u.id == actor.user_id) s.users) [
      | none ↦ none
      | some u ↦ u.vendor_id
    ]
  ]

  -- The query populates the facility.
  unfoldable pub get_for_vendor :
      ℕ → Actor → Office → Result Exception (Actor × WorkOrder × FacilityField)
  get_for_vendor n actor s = do
    v ← or_throw (vendor_of actor s) (authorization "Vendor context required")
    w ←
        or_throw
          (m.find_one
            (λ w.
              has_number n w
              && (same_id w.assigned_vendor_id (some v)
                  && (not (is_vendor_technician actor.role)
                      || same_id w.assigned_vendor_technician_id (some actor.user_id))))
            s.work_orders)
          (not_found "Work order not found")
    ok (
      record actor { vendor_id = some v },
      w,
      populated w.facility_id (m.find_one (λ f. f == w.facility_id) s.facilities),
    )

  unfoldable pub get_for_organization :
      ℕ → Actor → Office → Result Exception (Actor × WorkOrder × FacilityField)
  get_for_organization n actor s = do
    o ← or_throw actor.organization_id (authorization "Organization context required")
    w ←
        or_throw (m.find_one (λ w. has_number n w && w.organization_id == o) s.work_orders)
          (not_found "Work order not found")
    ok (actor, w, facility_reference w.facility_id)

  -- `get` keeps the vendor that it has looked up in the actor.
  unfoldable pub get : ℕ → Actor → Office → Result Exception (Actor × WorkOrder × FacilityField)
  unfolding get_for_vendor get_for_organization
  get n actor s =
      if is_vendor_role actor.role then get_for_vendor n actor s else get_for_organization n actor s

  unfoldable pub assert_manager : Actor → Result Exception (Unit {0})
  assert_manager actor =
      throw_if (not (is_manager actor.role))
        (authorization "Only admin or facility manager can perform this action")

  unfoldable pub assert_approval_actor : Actor → Result Exception (Unit {0})
  assert_approval_actor actor =
      throw_if (not (is_reviewer actor.role))
        (authorization "Only finance, admin, or facility manager can review completion")

  unfoldable pub archive : ℕ → Actor → Office → Result Exception (WorkOrder × Office)
  archive n actor s = do
    assert_manager actor
    found ← get n actor s
    let w = found.1
    let facility = found.2
    throw_if (is_in_progress w.status || is_pending w.status)
        (business "Active work orders cannot be archived")
    save_with_outbox (record w { status = WorkOrderStatus.cancelled }) facility
        work_order_status_changed actor.user_id s

  unfoldable pub update_progress :
      ℕ → Progress → Actor → Office → Result Exception (WorkOrder × Office)
  update_progress n p actor s = do
    found ← get n actor s
    let w = found.1
    let facility = found.2
    throw_if (not (is_assigned_worker w found.0))
        (authorization "Only the assigned worker can update progress")
    throw_if (is_to_progress p && not (is_assigned w.status))
        (business "Work order must be assigned before progress starts")
    throw_if (is_to_completion p && not (is_in_progress w.status))
        (business "Work order must be in progress before completion review")
    save_with_outbox (record w { status = target p }) facility work_order_status_changed
        actor.user_id s

  -- The assigned worker, or a manager of the assigned vendor.
  abbrev pub may_transition : WorkOrder → Actor → Bool
  may_transition w actor =
      is_assigned_worker w actor
      || (is_vendor_manager actor.role && same_id w.assigned_vendor_id actor.vendor_id)

  unfoldable pub transition :
      ℕ → Progress → Option String → Actor → Office → Result Exception (WorkOrder × Office)
  transition n p reason' actor s = do
    found ← get n actor s
    let w = found.1
    let facility = found.2
    throw_if (not (may_transition w found.0))
        (authorization "Only the assigned worker can update progress")
    throw_if (not (allowed w.status p)) (business "Invalid work order status transition")
    save_with_outbox
        (record w {
          status = target p;
          status_history =
              w.status_history
              ++ record { status = target p; changed_by = actor.user_id; reason = reason' } ∷ [];
        })
        facility work_order_status_changed actor.user_id s

  -- `.select("role organizationId")` leaves out every other field.
  abbrev pub select_role_organization : User → User
  select_role_organization u = record u { vendor_id = none; status = none }

  abbrev pub is_active_account : Option AccountStatus → Bool
  is_active_account (some AccountStatus.active_account) = true
  is_active_account _ = false

  unfoldable pub assert_internal_technician : ℕ → Option ℕ → Office → Result Exception (Unit {0})
  assert_internal_technician n o s = do
    u ←
        or_throw (m.find_one (λ u. u.id == n) s.users)
          (validation "Only internal technicians can be assigned")
    let technician = select_role_organization u
    throw_if (not (is_technician technician.role))
        (validation "Only internal technicians can be assigned")
    throw_if (not (same_id technician.organization_id o))
        (validation "Technician does not belong to this organization")
    throw_if (not (is_active_account technician.status)) (validation "Technician is not active")

  unfoldable pub assign : ℕ → ℕ → Actor → Office → Result Exception (WorkOrder × Office)
  assign n technician_id actor s = do
    assert_manager actor
    found ← get n actor s
    let w = found.1
    let facility = found.2
    throw_if (not (is_open w.status) && not (is_assigned w.status))
        (business "Work order is not available for internal assignment")
    assert_internal_technician technician_id actor.organization_id s
    save_with_outbox
        (record w {
          assigned_technician_id = some technician_id;
          assigned_vendor_id = none;
          assigned_vendor_technician_id = none;
          status = WorkOrderStatus.assigned;
        })
        facility work_order_assigned actor.user_id s

  -- The work order of a review: one of the actor's organization that is pending completion.
  unfoldable pub find_reviewed : String → ℕ → Actor → Office → Result Exception WorkOrder
  find_reviewed refusal n actor s = do
    assert_approval_actor actor
    w ← or_throw (m.find_one (has_number n) s.work_orders) (not_found "Work order not found")
    throw_if (not (same_id (some w.organization_id) actor.organization_id))
        (not_found "Work order not found")
    throw_if (not (is_pending w.status)) (business refusal)
    ok w

  unfoldable pub approve_completion : ℕ → Actor → Office → Result Exception (WorkOrder × Office)
  approve_completion n actor s = do
    w ← find_reviewed "Only pending completion work orders can be approved" n actor s
    save_with_outbox
        (record w { status = WorkOrderStatus.completed; approved_by = some actor.user_id })
        (facility_reference w.facility_id) work_order_status_changed actor.user_id s

  unfoldable pub reject_completion :
      ℕ → String → Actor → Office → Result Exception (WorkOrder × Office)
  reject_completion n reason' actor s = do
    w ← find_reviewed "Only pending completion work orders can be rejected" n actor s
    save_with_outbox
        (record w {
          status = WorkOrderStatus.in_progress;
          rejection_reason = some reason';
          reviewed_by = some actor.user_id;
        })
        (facility_reference w.facility_id) work_order_status_changed actor.user_id s

  unfoldable pub request_information :
      ℕ → String → Actor → Office → Result Exception (WorkOrder × Office)
  request_information n note actor s = do
    w ← find_reviewed "Only pending completion work orders can request information" n actor s
    save_with_outbox
        (record w {
          status = WorkOrderStatus.pending_completion;
          approval_notes = some note;
          reviewed_by = some actor.user_id;
        })
        (facility_reference w.facility_id) work_order_status_changed actor.user_id s
