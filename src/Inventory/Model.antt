-- ===== src/Inventory/Model.antt =====
-- The documents of modules/inventory (stock-balance, inventory-reservation and
-- inventory-transaction models) and the arguments of the repository's atomic operations.
-- Identifiers and idempotency keys are only compared, so they are numbers. Quantities are whole
-- numbers, whose sums the doubles of the program have exactly up to 2 ^ 53. The schemas of the routes
-- admit fractions too, whose sums are rounded: those are not modelled.
use maintain_pro_backend.Shared.{ℕ, ℤ, Bool, true, false, ◌&&◌, ◌==◌, Option, List, String}
use maintain_pro_backend.Shared.Mongo.{WriteError}

pub record StockBalance : Type 0 where
  pub id : ℕ
  pub organization_id : ℕ
  pub item_id : ℕ
  pub stock_location_id : ℕ
  pub quantity : ℤ
  pub reserved_quantity : ℤ

pub data ReservationStatus : Type 0 where
  requested reserved consumed released rejected : ReservationStatus

abbrev pub is_reserved : ReservationStatus → Bool
is_reserved reserved = true
is_reserved _ = false

pub record InventoryReservation : Type 0 where
  pub id : ℕ
  pub organization_id : ℕ
  pub item_id : ℕ
  pub stock_location_id : ℕ
  pub quantity : ℤ
  pub consumed_quantity : ℤ
  pub work_order_id : Option ℕ
  pub status : ReservationStatus
  pub requested_by : ℕ

pub data InventoryTransactionType : Type 0 where
  receipt issue consumption adjustment transfer return reservation release :
      InventoryTransactionType

abbrev pub is_issue : InventoryTransactionType → Bool
is_issue issue = true
is_issue _ = false

abbrev pub is_consumption : InventoryTransactionType → Bool
is_consumption consumption = true
is_consumption _ = false

abbrev pub is_return : InventoryTransactionType → Bool
is_return return = true
is_return _ = false

abbrev pub is_transfer : InventoryTransactionType → Bool
is_transfer transfer = true
is_transfer _ = false

pub record InventoryTransaction : Type 0 where
  pub id : ℕ
  pub organization_id : ℕ
  pub item_id : ℕ
  pub stock_location_id : ℕ
  pub type : InventoryTransactionType
  pub quantity : ℤ
  pub unit_of_measure : String
  pub work_order_id : Option ℕ
  pub reservation_id : Option ℕ
  pub related_transaction_id : Option ℕ
  pub source_transaction_id : Option ℕ
  pub source_location_id : Option ℕ
  pub destination_location_id : Option ℕ
  pub reference : Option String
  pub reason : Option String
  pub performed_by : ℕ
  pub idempotency_key : Option ℕ

-- The three collections that an inventory transaction writes.
pub record Store : Type 0 where
  pub balances : List StockBalance
  pub reservations : List InventoryReservation
  pub transactions : List InventoryTransaction

-- The identifiers that the database gives to the documents that an operation may create.
pub record NewIds : Type 0 where
  pub balance_id : ℕ
  pub reservation_id : ℕ
  pub transaction_id : ℕ

-- The messages of the errors that the repository throws, and the database's own.
pub data RepositoryError : Type 0 where
  insufficient_stock invalid_reservation inconsistent_reservation_balance : RepositoryError
  source_transaction_not_found consumption_exceeds_source return_exceeds_source : RepositoryError
  receipt_balance_update_failed return_balance_update_failed : RepositoryError
  write : WriteError → RepositoryError

-- The arguments of receiveAtomic, reserveAtomic, issueAtomic, adjustAtomic and
-- consumeSourceAtomic;
-- `none` stands in a field that an operation does not take.
pub record StockData : Type 0 where
  pub organization_id : ℕ
  pub item_id : ℕ
  pub stock_location_id : ℕ
  pub quantity : ℤ
  pub unit_of_measure : String
  pub work_order_id : Option ℕ
  pub reference : Option String
  pub reason : Option String
  pub idempotency_key : Option ℕ
  pub performed_by : ℕ

pub record ReleaseData : Type 0 where
  pub organization_id : ℕ
  pub reservation_id : ℕ
  pub performed_by : ℕ

pub record ReturnData : Type 0 where
  pub organization_id : ℕ
  pub original_transaction_id : ℕ
  pub quantity : ℤ
  pub reason : Option String
  pub idempotency_key : Option ℕ
  pub performed_by : ℕ

pub record TransferData : Type 0 where
  pub organization_id : ℕ
  pub item_id : ℕ
  pub source_location_id : ℕ
  pub destination_location_id : ℕ
  pub quantity : ℤ
  pub unit_of_measure : String
  pub reference : Option String
  pub reason : Option String
  pub idempotency_key : Option ℕ
  pub performed_by : ℕ

-- The filter `{ organizationId, itemId, stockLocationId }` of a balance.
abbrev pub is_at : ℕ → ℕ → ℕ → StockBalance → Bool
is_at o i l b = b.organization_id == o && b.item_id == i && b.stock_location_id == l
