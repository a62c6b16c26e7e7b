-- ===== src/Inventory/Service/Model.antt =====
-- inventory.service.ts: what the service reads and writes, and its arguments.
use maintain_pro_backend.Shared.{ℤ, ◌-ℤ◌, Exception, ℕ, String, Bool, true, false, Option, List}
use maintain_pro_backend.Inventory.Model.{RepositoryError, StockBalance, Store}

pub data Role : Type 0 where
  admin facility_manager technician vendor_lead vendor_manager : Role
  vendor_technician finance staff : Role

-- `stockRoles`
abbrev pub is_stock_role : Role → Bool
is_stock_role admin = true
is_stock_role facility_manager = true
is_stock_role technician = true
is_stock_role _ = false

pub data InventoryStatus : Type 0 where
  active inactive : InventoryStatus

abbrev pub is_active : InventoryStatus → Bool
is_active active = true
is_active inactive = false

pub record InventoryActor : Type 0 where
  pub user_id : ℕ
  pub role : Role
  pub organization_id : Option ℕ
  pub facility_id : Option ℕ

-- The fields of an item that the stock operations read.
pub record InventoryItem : Type 0 where
  pub id : ℕ
  pub organization_id : ℕ
  pub facility_id : ℕ
  pub name : String
  pub unit_of_measure : String
  pub status : InventoryStatus
  pub reorder_level : ℤ

pub record StockLocation : Type 0 where
  pub id : ℕ
  pub organization_id : ℕ
  pub facility_id : Option ℕ
  pub status : InventoryStatus

pub data AuditAction : Type 0 where
  stock_received stock_reserved reservation_released stock_issued stock_consumed : AuditAction
  stock_returned stock_adjusted stock_transferred : AuditAction

-- The facts that the service publishes.
pub data InventoryEvent : Type 0 where
  audit_event : AuditAction → ℕ → ℕ → ℕ → InventoryEvent
  low_stock : ℕ → ℕ → ℕ → String → ℤ → InventoryEvent

-- The collections in the database, the identifiers of the work orders with their organization, and
-- the facts published so far.
pub record World : Type 0 where
  pub store : Store
  pub items : List InventoryItem
  pub locations : List StockLocation
  pub work_orders : List (ℕ × ℕ)
  pub events : List InventoryEvent

-- An exception that the service throws, or an error of the repository that it passes on.
pub data ServiceError : Type 0 where
  thrown : Exception → ServiceError
  failed : RepositoryError → ServiceError

-- The body of a request to receive, reserve, issue or adjust; `none` stands in a field that a
-- request does not have.
pub record StockRequest : Type 0 where
  pub item_id : ℕ
  pub stock_location_id : ℕ
  pub quantity : ℤ
  pub work_order_id : Option ℕ
  pub reservation_id : Option ℕ
  pub source_transaction_id : Option ℕ
  pub reference : Option String
  pub reason : Option String
  pub idempotency_key : Option ℕ

pub record TransferRequest : Type 0 where
  pub item_id : ℕ
  pub source_location_id : ℕ
  pub destination_location_id : ℕ
  pub quantity : ℤ
  pub reference : Option String
  pub notes : Option String
  pub idempotency_key : Option ℕ

pub record ReturnRequest : Type 0 where
  pub original_transaction_id : ℕ
  pub quantity : ℤ
  pub reason : Option String
  pub idempotency_key : Option ℕ

pub record BalanceResponse : Type 0 where
  pub id : ℕ
  pub item_id : ℕ
  pub stock_location_id : ℕ
  pub quantity : ℤ
  pub reserved_quantity : ℤ
  pub available_quantity : ℤ

abbrev pub balance_response : StockBalance → BalanceResponse
balance_response b = record {
  id = b.id;
  item_id = b.item_id;
  stock_location_id = b.stock_location_id;
  quantity = b.quantity;
  reserved_quantity = b.reserved_quantity;
  available_quantity = b.quantity -ℤ b.reserved_quantity;
}
