-- ===== src/Inventory/Service/Guards.antt =====
-- inventory.service.ts: `organization`, `requireRole`, `context` and the reads that a retry makes.
use maintain_pro_backend.Shared.{
  ◌==◌, if◌then◌else◌, is_some, same_id, authorization, business, not_found, ℕ, Bool, true, false,
  ◌&&◌, Option, none, some, List, [], ◌∷◌,
}
use maintain_pro_backend.Shared.Mongo.{Mongo, WriteError}
use maintain_pro_backend.Inventory.Service.Monad.{
  ◌>>=◌, ◌>>◌, Service, require, pure, required, reading,
}
use maintain_pro_backend.Inventory.Model.{
  RepositoryError, StockBalance, InventoryTransaction, StockData, is_at,
}
use maintain_pro_backend.Inventory.Service.Model.{
  World, InventoryActor, InventoryItem, StockLocation, StockRequest, is_stock_role, is_active,
}
use maintain_pro_backend.Inventory.Balances.{find_transaction_by_idempotency_key}

unfoldable pub organization : InventoryActor → Service ℕ
organization actor =
    required actor.organization_id (authorization "Organization context is required")

-- `requireRole(actor, stockRoles)`
unfoldable pub require_stock_role : InventoryActor → Service ℕ
require_stock_role actor = do
  require (is_stock_role actor.role) (authorization "Inventory permission required")
  organization actor

-- `actor.facilityId && item.facilityId !== actor.facilityId`, negated.
abbrev pub is_open_to : InventoryActor → InventoryItem → Bool
is_open_to actor item = elim actor.facility_id [ none ↦ true | some f ↦ item.facility_id == f ]

abbrev pub holds_item : InventoryItem → StockLocation → Bool
holds_item item l = is_active l.status && same_id (some item.facility_id) l.facility_id

-- `transactions` and `reservations` of a retry are looked up by the key of the request.
abbrev pub found_by : {A : Type 0} → Option ℕ → (ℕ → Option A) → Option A
found_by none f = none
found_by (some k) f = f k

abbrev pub head? : {A : Type 0} → List A → Option A
head? [] = none
head? (a ∷ _) = some a

-- `!!error.code`, for the code of a duplicate key.
abbrev pub is_duplicate : RepositoryError → Bool
is_duplicate (RepositoryError.write WriteError.duplicate_key) = true
is_duplicate _ = false

module _ (m : Mongo) where
  unfoldable pub find_item : ℕ → ℕ → World → Option InventoryItem
  find_item n o w = m.find_one (λ i. i.id == n && i.organization_id == o) w.items

  unfoldable pub find_location : ℕ → ℕ → World → Option StockLocation
  find_location n o w = m.find_one (λ l. l.id == n && l.organization_id == o) w.locations

  unfoldable pub context : ℕ → ℕ → InventoryActor → Service (ℕ × (InventoryItem × StockLocation))
  context item_id location_id actor = do
    o ← organization actor
    found ← reading (find_item item_id o)
    place ← reading (find_location location_id o)
    item ← required found (not_found "Inventory item not found")
    require (is_active item.status) (business "Inventory item is inactive")
    location ← required place (not_found "Stock location is not assigned to this inventory item")
    require (holds_item item location)
        (not_found "Stock location is not assigned to this inventory item")
    require (is_open_to actor item) (authorization "Facility access denied")
    pure (o, (item, location))

  -- `findBalances(organizationId, itemId, stockLocationId)[0]`
  unfoldable pub first_balance : ℕ → ℕ → ℕ → World → Option StockBalance
  first_balance o i l w = head? (m.find (is_at o i l) w.store.balances)

  unfoldable pub existing_transaction : Option ℕ → ℕ → World → Option InventoryTransaction
  existing_transaction key o w =
      found_by key (λ k. find_transaction_by_idempotency_key m k o w.store.transactions)

  -- The balance that a retry returns, if the key is known.
  unfoldable pub repeated_balance : Option ℕ → ℕ → ℕ → ℕ → World → Option StockBalance
  unfolding existing_transaction first_balance
  repeated_balance key o i l w = elim (existing_transaction key o w) [
    | none ↦ none
    | some _ ↦ first_balance o i l w
  ]

  -- `if (data.idempotencyKey && code === 11000)`, and then the balance of the key.
  unfoldable pub clashing_balance :
      RepositoryError → Option ℕ → ℕ → ℕ → ℕ → World → Option StockBalance
  unfolding first_balance
  clashing_balance e key o i l w =
      if is_some key && is_duplicate e then first_balance o i l w else none

  -- `if (data.workOrderId && !(await WorkOrder.exists(…))) throw …`
  unfoldable pub require_work_order : Option ℕ → ℕ → Service (Unit {0})
  require_work_order none o = pure tt
  require_work_order (some n) o = do
    found ← reading (λ w. m.find_one (λ k. k.0 == n && k.1 == o) w.work_orders)
    require (is_some found) (not_found "Work Order not found")

-- `{ organizationId, …data, unitOfMeasure: item.unitOfMeasure, performedBy: actor.userId }`
abbrev pub stock_data : ℕ → InventoryItem → StockRequest → InventoryActor → StockData
stock_data o item d actor = record {
  organization_id = o;
  item_id = d.item_id;
  stock_location_id = d.stock_location_id;
  quantity = d.quantity;
  unit_of_measure = item.unit_of_measure;
  work_order_id = d.work_order_id;
  reference = d.reference;
  reason = d.reason;
  idempotency_key = d.idempotency_key;
  performed_by = actor.user_id;
}
