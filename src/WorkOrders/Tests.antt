-- ===== src/WorkOrders/Tests.antt =====
-- A work order on its way, over a database that behaves as documented.
use maintain_pro_backend.Shared.{
  find?, ok, err, ◌>>=◌, business, internal, ◌≡◌, refl, ◌⊎◌, none, some, [], ◌∷◌, map,
}
use maintain_pro_backend.Shared.Mongo.{documented}
use maintain_pro_backend.WorkOrders.Actions.{
  Progress, transition, assign, get, get_for_organization, save_with_outbox, save_body, has_number,
  get_for_vendor, vendor_of,
}
use maintain_pro_backend.WorkOrders.Model.{
  facility_reference, facility_document, WorkOrderStatus, AccountStatus, Office, Actor, WorkOrder,
  work_order_status_changed,
}
use maintain_pro_backend.Inventory.Service.Model.{Role}
use maintain_pro_backend.WorkOrders.Stages.{
  HasStepped, perform, assign-fails, transition_action, replaced,
}
use maintain_pro_backend.WorkOrders.Lifecycle.{perform-HasStepped}
use maintain_pro_backend.WorkOrders.Transitions.{IsMove, transition-moves, moved}
use maintain_pro_backend.WorkOrders.Authority.{IsPermitted, perform-Permitted}

abbrev leak : WorkOrder
leak = record {
  id = 4;
  organization_id = 1;
  facility_id = 7;
  status = WorkOrderStatus.assigned;
  assigned_technician_id = some 9;
  assigned_vendor_id = none;
  assigned_vendor_technician_id = none;
  approved_by = none;
  rejection_reason = none;
  approval_notes = none;
  reviewed_by = none;
  status_history = [];
}

abbrev plumber : Actor
plumber = record { user_id = 9; role = Role.technician; organization_id = some 1; vendor_id = none }

abbrev manager : Actor
manager = record plumber { user_id = 2; role = Role.admin }

abbrev office : Office
office = record {
  work_orders = leak ∷ [];
  users =
      record {
        id = 9;
        role = Role.technician;
        organization_id = some 1;
        vendor_id = none;
        status = some AccountStatus.active_account;
      }
      ∷ [];
  facilities = 7 ∷ [];
  outbox = [];
}

abbrev started : WorkOrder × Office
started =
    let w = moved documented 4 Progress.to_in_progress none plumber office leak in
    (w, replaced w (facility_reference 7) work_order_status_changed 9 office)

start_works :
    perform documented (transition_action Progress.to_in_progress none) 4 plumber office
    ≡ ok started
unfolding perform transition get get_for_organization save_with_outbox save_body
start_works = refl

perform-HasStepped_example : HasStepped 4 plumber office started
perform-HasStepped_example =
    perform-HasStepped documented 4 plumber office (tt, tt)
      (transition_action Progress.to_in_progress none) started tt start_works

-- A transition of the vendor's technician is announced with the document of the facility.
abbrev vendor_plumber : Actor
vendor_plumber = record plumber { role = Role.vendor_technician; vendor_id = some 3 }

abbrev vendor_office : Office
vendor_office = record office {
  work_orders =
      record leak {
        assigned_technician_id = none;
        assigned_vendor_id = some 3;
        assigned_vendor_technician_id = some 9;
      }
      ∷ [];
}

vendor_fact :
    (transition documented 4 Progress.to_in_progress none vendor_plumber vendor_office >>= λ r.
    ok (map (λ f. f.facility_id) r.1.outbox))
    ≡ ok (facility_document 7 ∷ [])
unfolding transition get get_for_vendor vendor_of save_with_outbox save_body
vendor_fact = refl

-- Without the facility the transition throws, and nothing is written.
vendor_fact_lost :
    transition documented 4 Progress.to_in_progress none vendor_plumber
      (record vendor_office { facilities = [] })
    ≡ err (internal "Cannot read properties of null")
unfolding transition get get_for_vendor vendor_of save_with_outbox save_body
vendor_fact_lost = refl

transition-moves_example :
    (IsMove WorkOrderStatus.assigned Progress.to_in_progress
      × (transition documented 4 Progress.to_in_progress none plumber office ≡ ok started))
    ⊎ ((¬ IsMove WorkOrderStatus.assigned Progress.to_in_progress)
        × (transition documented 4 Progress.to_in_progress none plumber office
            ≡ err (business "Invalid work order status transition")))
transition-moves_example =
    transition-moves documented 4 Progress.to_in_progress none plumber office 1 leak refl refl refl
      refl

assign-fails_example : ¬ (assign documented 4 9 manager office ≡ ok (leak, office))
assign-fails_example = assign-fails documented 4 9 manager office (leak, office)

perform-Permitted_example :
    (w : WorkOrder) × (find? (has_number 4) office.work_orders ≡ some w)
    × IsPermitted documented (transition_action Progress.to_in_progress none) plumber office w
perform-Permitted_example =
    perform-Permitted documented 4 plumber office (tt, tt)
      (transition_action Progress.to_in_progress none) started start_works
