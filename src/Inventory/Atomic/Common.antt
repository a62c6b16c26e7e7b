-- ===== src/Inventory/Atomic/Common.antt =====
-- inventory.repository.ts: what the atomic operations share.
use maintain_pro_backend.Shared.{ℤ, Result, ok, err, ◌>>=◌, ℕ, Option, none, some, List}
use maintain_pro_backend.Shared.Mongo.{Mongo}
use maintain_pro_backend.Inventory.Model.{
  StockBalance, InventoryTransactionType, InventoryTransaction, Store, NewIds, RepositoryError,
  StockData,
}
use maintain_pro_backend.Inventory.Balances.{create_transaction, ensure_balance}

-- What an operation returns: the balance after it, and the transaction that records it.
abbrev pub Recorded : Type 0
Recorded = StockBalance × InventoryTransaction

-- `if (!updated) throw e`
abbrev pub updated_or :
    RepositoryError
    → Option StockBalance × List StockBalance
    → Result RepositoryError (StockBalance × List StockBalance)
updated_or e (none, _) = err e
updated_or e (some b, bs) = ok (b, bs)

-- `{ ...data, type }`
abbrev pub stock_transaction : ℕ → StockData → InventoryTransactionType → InventoryTransaction
stock_transaction new data' type' = record {
  id = new;
  organization_id = data'.organization_id;
  item_id = data'.item_id;
  stock_location_id = data'.stock_location_id;
  type = type';
  quantity = data'.quantity;
  unit_of_measure = data'.unit_of_measure;
  work_order_id = data'.work_order_id;
  reservation_id = none;
  related_transaction_id = none;
  source_transaction_id = none;
  source_location_id = none;
  destination_location_id = none;
  reference = data'.reference;
  reason = data'.reason;
  performed_by = data'.performed_by;
  idempotency_key = data'.idempotency_key;
}

abbrev pub quantity_of : InventoryTransaction → ℤ
quantity_of t = t.quantity

module _ (m : Mongo) (new : NewIds) where
  -- The balance of a key, created empty if it is missing.
  unfoldable pub balance_of : ℕ → ℕ → ℕ → Store → StockBalance × List StockBalance
  balance_of o i l s = ensure_balance m new.balance_id o i l s.balances

  -- The new balances and the new ledger, when the transaction is accepted.
  unfoldable pub record_transaction :
      StockBalance × List StockBalance
      → InventoryTransaction
      → Store
      → Result RepositoryError (Recorded × Store)
  record_transaction (b, bs) t s = do
    ts ← create_transaction m t s.transactions
    ok ((b, t), record s { balances = bs; transactions = ts })
