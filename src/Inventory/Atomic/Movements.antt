-- ===== src/Inventory/Atomic/Movements.antt =====
-- inventory.repository.ts: receiveAtomic, adjustAtomic, returnAtomic and transferAtomic.
use maintain_pro_backend.Shared.{
  if◌then◌else◌, ℤ, pos, ◌+ℤ◌, ltb_ℤ, abs_ℤ, Result, ok, ◌>>=◌, ◌>>◌, throw_if, or_throw, total, ℕ,
  Bool, not, ◌&&◌, ◌||◌, Option, none, some, List,
}
use maintain_pro_backend.Shared.Mongo.{Mongo}
use maintain_pro_backend.Inventory.Model.{
  StockBalance, InventoryTransactionType, is_issue, is_consumption, InventoryTransaction, Store,
  NewIds, RepositoryError, insufficient_stock, source_transaction_not_found, return_exceeds_source,
  receipt_balance_update_failed, return_balance_update_failed, StockData, ReturnData, TransferData,
  is_at,
}
use maintain_pro_backend.Inventory.Balances.{
  add_quantity, subtract_quantity, has_available, create_transaction, increase_balance,
  decrease_available, find_transaction, find_returns,
}
use maintain_pro_backend.Inventory.Atomic.Common.{
  Recorded, updated_or, stock_transaction, quantity_of, balance_of, record_transaction,
}

module _ (m : Mongo) (new : NewIds) where
  unfoldable pub receive_atomic : StockData → Store → Result RepositoryError (Recorded × Store)
  unfolding balance_of record_transaction
  receive_atomic d s = do
    let (balance, bs) = balance_of m new d.organization_id d.item_id d.stock_location_id s
    updated ← updated_or receipt_balance_update_failed (increase_balance m balance.id d.quantity bs)
    record_transaction m new updated
        (stock_transaction new.transaction_id d InventoryTransactionType.receipt) s

  -- `data.quantity > 0 ? increaseBalance(…) : decreaseAvailable(…, Math.abs(data.quantity))`
  unfoldable pub adjust_balance :
      ℤ → ℕ → List StockBalance → Option StockBalance × List StockBalance
  adjust_balance q n bs =
      if ltb_ℤ (pos 0) q then increase_balance m n q bs else decrease_available m n (abs_ℤ q) bs

  unfoldable pub adjust_atomic : StockData → Store → Result RepositoryError (Recorded × Store)
  unfolding balance_of adjust_balance record_transaction
  adjust_atomic d s = do
    let (balance, bs) = balance_of m new d.organization_id d.item_id d.stock_location_id s
    updated ← updated_or insufficient_stock (adjust_balance d.quantity balance.id bs)
    record_transaction m new updated
        (stock_transaction new.transaction_id d InventoryTransactionType.adjustment) s

  -- `["issue", "consumption"].includes(original.type)`
  abbrev pub is_returnable : InventoryTransaction → Bool
  is_returnable t = is_issue t.type || is_consumption t.type

  abbrev pub return_transaction : ReturnData → InventoryTransaction → InventoryTransaction
  return_transaction d t = record {
    id = new.transaction_id;
    organization_id = d.organization_id;
    item_id = t.item_id;
    stock_location_id = t.stock_location_id;
    type = InventoryTransactionType.return;
    quantity = d.quantity;
    unit_of_measure = t.unit_of_measure;
    work_order_id = t.work_order_id;
    reservation_id = none;
    related_transaction_id = some t.id;
    source_transaction_id = none;
    source_location_id = none;
    destination_location_id = none;
    reference = none;
    reason = d.reason;
    performed_by = d.performed_by;
    idempotency_key = d.idempotency_key;
  }

  unfoldable pub return_atomic : ReturnData → Store → Result RepositoryError (Recorded × Store)
  unfolding balance_of record_transaction
  return_atomic d s = do
    original ←
        or_throw (find_transaction m d.original_transaction_id d.organization_id s.transactions)
          source_transaction_not_found
    throw_if (not (is_returnable original)) source_transaction_not_found
    let returned =
        total quantity_of
          (find_returns m d.original_transaction_id d.organization_id s.transactions)
    throw_if (ltb_ℤ original.quantity (returned +ℤ d.quantity)) return_exceeds_source
    let (balance, bs) =
        balance_of m new d.organization_id original.item_id original.stock_location_id s
    updated ← updated_or return_balance_update_failed (increase_balance m balance.id d.quantity bs)
    record_transaction m new updated (return_transaction d original) s

  abbrev pub transfer_transaction : TransferData → InventoryTransaction
  transfer_transaction d = record {
    id = new.transaction_id;
    organization_id = d.organization_id;
    item_id = d.item_id;
    stock_location_id = d.source_location_id;
    type = InventoryTransactionType.transfer;
    quantity = d.quantity;
    unit_of_measure = d.unit_of_measure;
    work_order_id = none;
    reservation_id = none;
    related_transaction_id = none;
    source_transaction_id = none;
    source_location_id = some d.source_location_id;
    destination_location_id = some d.destination_location_id;
    reference = d.reference;
    reason = d.reason;
    performed_by = d.performed_by;
    idempotency_key = d.idempotency_key;
  }

  -- The balance that an upsert of the destination starts from.
  abbrev pub empty_balance : ℕ → ℕ → ℕ → StockBalance
  empty_balance o i l = record {
    id = new.balance_id;
    organization_id = o;
    item_id = i;
    stock_location_id = l;
    quantity = pos 0;
    reserved_quantity = pos 0;
  }

  unfoldable pub transfer_atomic :
      TransferData → Store → Result RepositoryError (InventoryTransaction × Store)
  transfer_atomic d s = do
    (source, bs) ← updated_or insufficient_stock (
        m.find_one_and_update
          (λ b.
            is_at d.organization_id d.item_id d.source_location_id b && has_available d.quantity b)
          (subtract_quantity d.quantity) s.balances)
    let (destination, bs') =
        m.find_one_and_upsert (is_at d.organization_id d.item_id d.destination_location_id)
          (add_quantity d.quantity)
          (empty_balance d.organization_id d.item_id d.destination_location_id) bs
    ts ← create_transaction m (transfer_transaction d) s.transactions
    ok (transfer_transaction d, record s { balances = bs'; transactions = ts })
