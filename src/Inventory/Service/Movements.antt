-- ===== src/Inventory/Service/Movements.antt =====
-- inventory.service.ts: `release`, `transfer` and `returnStock`.
use maintain_pro_backend.Shared.{
  ◌==◌, if◌then◌else◌, is_some, Exception, business, conflict, not_found, ℕ, not, ◌&&◌, Option,
  none, some,
}
use maintain_pro_backend.Shared.Mongo.{Mongo}
use maintain_pro_backend.Inventory.Model.{RepositoryError}
use maintain_pro_backend.Inventory.Service.Monad.{
  ◌>>=◌, ◌>>◌, Service, pure, require, reading, throw, publish,
}
use maintain_pro_backend.Inventory.Service.Model.{
  InventoryItem, ReturnRequest, ServiceError, TransferRequest, InventoryActor, thrown,
  BalanceResponse, World, failed, audit_event, stock_returned, reservation_released,
  stock_transferred, balance_response,
}
use maintain_pro_backend.Inventory.Model.{
  InventoryTransaction, RepositoryError, Store, NewIds, StockBalance, TransferData, ReturnData,
}
use maintain_pro_backend.Inventory.Service.Receipts.{atomically, settle, answer_or}
use maintain_pro_backend.Inventory.Service.Guards.{
  require_stock_role, existing_transaction, organization, context, first_balance, is_duplicate,
}
use maintain_pro_backend.Inventory.Atomic.Movements.{return_atomic, transfer_atomic}
use maintain_pro_backend.Inventory.Atomic.Reservations.{release_atomic}
use maintain_pro_backend.Inventory.Service.Issues.{throw_or}

abbrev pub refused_release : RepositoryError → ServiceError
refused_release RepositoryError.invalid_reservation =
    thrown (not_found "Active reservation not found")
refused_release RepositoryError.inconsistent_reservation_balance =
    thrown (conflict "Reservation balance is inconsistent")
refused_release e = failed e

abbrev pub refused_return : RepositoryError → Option Exception
refused_return RepositoryError.source_transaction_not_found =
    some (not_found "Issue transaction not found")
refused_return RepositoryError.return_exceeds_source =
    some (conflict "Return exceeds issued quantity")
refused_return _ = none

unfoldable pub transaction_or :
    Option InventoryTransaction → Service InventoryTransaction → Service InventoryTransaction
transaction_or (some t) c = pure t
transaction_or none c = c

abbrev pub transfer_data : ℕ → InventoryItem → TransferRequest → InventoryActor → TransferData
transfer_data o item d actor = record {
  organization_id = o;
  item_id = d.item_id;
  source_location_id = d.source_location_id;
  destination_location_id = d.destination_location_id;
  quantity = d.quantity;
  unit_of_measure = item.unit_of_measure;
  reference = d.reference;
  reason = d.notes;
  idempotency_key = d.idempotency_key;
  performed_by = actor.user_id;
}

abbrev pub return_data : ℕ → ReturnRequest → InventoryActor → ReturnData
return_data o d actor = record {
  organization_id = o;
  original_transaction_id = d.original_transaction_id;
  quantity = d.quantity;
  reason = d.reason;
  idempotency_key = d.idempotency_key;
  performed_by = actor.user_id;
}

module _ (m : Mongo) (fresh : Store → NewIds) where
  unfoldable pub release : ℕ → InventoryActor → Service StockBalance
  release n actor = do
    o ← organization actor
    result ← atomically m fresh (λ new.
        release_atomic m new
          (record { organization_id = o; reservation_id = n; performed_by = actor.user_id }))
    settle result (λ e. throw (refused_release e))
        (λ r. do publish (audit_event reservation_released actor.user_id o r.1.id); pure r.0)

  unfoldable pub transfer_new :
      ℕ → InventoryItem → TransferRequest → InventoryActor → Service InventoryTransaction
  transfer_new o item d actor = do
    result ← atomically m fresh (λ new. transfer_atomic m new (transfer_data o item d actor))
    settle result
        (λ e. do
          clashing ← reading (λ w.
              if is_some d.idempotency_key && is_duplicate e
              then existing_transaction m d.idempotency_key o w
              else none)
          transaction_or clashing (throw (failed e)))
        (λ t. do publish (audit_event stock_transferred actor.user_id o t.id); pure t)

  unfoldable pub transfer : TransferRequest → InventoryActor → Service InventoryTransaction
  unfolding transfer_new
  transfer d actor = do
    o ← require_stock_role actor
    require (not (d.source_location_id == d.destination_location_id))
        (business "Transfer locations must differ")
    found ← context m d.item_id d.source_location_id actor
    context m d.item_id d.destination_location_id actor
    repeated ← reading (existing_transaction m d.idempotency_key o)
    transaction_or repeated (transfer_new o found.1.0 d actor)

  -- The balance at the item and location of the transaction that bears the key.
  unfoldable pub returned_balance : Option ℕ → ℕ → World → Option StockBalance
  returned_balance key o w = elim (existing_transaction m key o w) [
    | none ↦ none
    | some t ↦ first_balance m o t.item_id t.stock_location_id w
  ]

  unfoldable pub return_new : ℕ → ReturnRequest → InventoryActor → Service BalanceResponse
  unfolding returned_balance
  return_new o d actor = do
    result ← atomically m fresh (λ new. return_atomic m new (return_data o d actor))
    settle result
        (λ e. throw_or m fresh (refused_return e) (do
          clashing ← reading (λ w.
              if is_some d.idempotency_key && is_duplicate e
              then returned_balance d.idempotency_key o w
              else none)
          answer_or clashing (throw (failed e))))
        (λ r. do
          publish (audit_event stock_returned actor.user_id o r.1.id)
          pure (balance_response r.0))

  unfoldable pub return_stock : ReturnRequest → InventoryActor → Service BalanceResponse
  unfolding returned_balance return_new
  return_stock d actor = do
    o ← organization actor
    repeated ← reading (returned_balance d.idempotency_key o)
    answer_or repeated (return_new o d actor)
