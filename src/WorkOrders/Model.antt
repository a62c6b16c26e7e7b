-- ===== src/WorkOrders/Model.antt =====
-- modules/work-orders: the documents that the work order service reads and writes.
use maintain_pro_backend.Shared.{ℕ, String, Bool, true, false, Option, List}
use maintain_pro_backend.Inventory.Service.Model.{Role}

pub data WorkOrderStatus : Type 0 where
  opened assigned in_progress pending_completion completed cancelled on_hold : WorkOrderStatus

pub record StatusChange : Type 0 where
  pub status : WorkOrderStatus
  pub changed_by : ℕ
  pub reason : Option String

-- The fields that the actions below read or write; the dates are left out.
pub record WorkOrder : Type 0 where
  pub id : ℕ
  pub organization_id : ℕ
  pub facility_id : ℕ
  pub status : WorkOrderStatus
  pub assigned_technician_id : Option ℕ
  pub assigned_vendor_id : Option ℕ
  pub assigned_vendor_technician_id : Option ℕ
  pub approved_by : Option ℕ
  pub rejection_reason : Option String
  pub approval_notes : Option String
  pub reviewed_by : Option ℕ
  pub status_history : List StatusChange

pub record Actor : Type 0 where
  pub user_id : ℕ
  pub role : Role
  pub organization_id : Option ℕ
  pub vendor_id : Option ℕ

pub data AccountStatus : Type 0 where
  active_account other_account : AccountStatus

-- A user, as far as it is read: a field that a query leaves out is `none`.
pub record User : Type 0 where
  pub id : ℕ
  pub role : Role
  pub organization_id : Option ℕ
  pub vendor_id : Option ℕ
  pub status : Option AccountStatus

pub data FactName : Type 0 where
  work_order_assigned work_order_status_changed : FactName

-- A facility field in memory: the reference that is stored, or the document that a query with
-- `populate` has put in its place, which is null if there is none.
pub data FacilityField : Type 0 where
  facility_reference facility_document : ℕ → FacilityField
  null_field : FacilityField

-- The payload is made by `toString`: `facility_id` is the text of the reference or of the document.
pub record BusinessFact : Type 0 where
  pub name : FactName
  pub work_order_id : ℕ
  pub facility_id : FacilityField
  pub assigned_vendor_id : Option ℕ
  pub assigned_technician_id : Option ℕ
  pub organization_id : ℕ
  pub actor_id : ℕ

-- The collections: work orders, users, the identifiers of the facilities, and the outbox.
pub record Office : Type 0 where
  pub work_orders : List WorkOrder
  pub users : List User
  pub facilities : List ℕ
  pub outbox : List BusinessFact

-- `managerRoles`
abbrev pub is_manager : Role → Bool
is_manager Role.admin = true
is_manager Role.facility_manager = true
is_manager _ = false

abbrev pub is_reviewer : Role → Bool
is_reviewer Role.finance = true
is_reviewer r = is_manager r

abbrev pub is_vendor_role : Role → Bool
is_vendor_role Role.vendor_lead = true
is_vendor_role Role.vendor_manager = true
is_vendor_role Role.vendor_technician = true
is_vendor_role _ = false

abbrev pub is_vendor_manager : Role → Bool
is_vendor_manager Role.vendor_lead = true
is_vendor_manager Role.vendor_manager = true
is_vendor_manager _ = false

abbrev pub is_vendor_technician : Role → Bool
is_vendor_technician Role.vendor_technician = true
is_vendor_technician _ = false

abbrev pub is_technician : Role → Bool
is_technician Role.technician = true
is_technician _ = false

abbrev pub is_open : WorkOrderStatus → Bool
is_open opened = true
is_open _ = false

abbrev pub is_assigned : WorkOrderStatus → Bool
is_assigned assigned = true
is_assigned _ = false

abbrev pub is_in_progress : WorkOrderStatus → Bool
is_in_progress in_progress = true
is_in_progress _ = false

abbrev pub is_pending : WorkOrderStatus → Bool
is_pending pending_completion = true
is_pending _ = false
