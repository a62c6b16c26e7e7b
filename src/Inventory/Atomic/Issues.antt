-- ===== src/Inventory/Atomic/Issues.antt =====
-- inventory.repository.ts: issueAtomic and consumeSourceAtomic.
use maintain_pro_backend.Shared.{
  ◌==◌, if◌then◌else◌, ℤ, ◌+ℤ◌, ◌-ℤ◌, ltb_ℤ, eq_ℤ, Result, ok, ◌>>=◌, ◌>>◌, throw_if, or_throw,
  total, ℕ, Bool, not, ◌||◌, Option, none, some, List,
}
use maintain_pro_backend.Shared.Mongo.{Mongo}
use maintain_pro_backend.Inventory.Model.{
  StockBalance, ReservationStatus, is_reserved, InventoryReservation, InventoryTransactionType,
  is_issue, InventoryTransaction, Store, NewIds, RepositoryError, insufficient_stock,
  invalid_reservation, source_transaction_not_found, consumption_exceeds_source, StockData,
}
use maintain_pro_backend.Inventory.Balances.{
  decrease_available, consume_reserved, find_reservation, update_reservation, find_transaction,
  find_consumptions,
}
use maintain_pro_backend.Inventory.Atomic.Common.{
  Recorded, updated_or, stock_transaction, quantity_of, balance_of, record_transaction,
}

module _ (m : Mongo) (new : NewIds) where
  -- What `issueAtomic` refuses: no reservation, one that is closed or of another balance, or too
  -- small a remainder.
  abbrev pub refuses_issue : StockData → InventoryReservation → Bool
  refuses_issue d r =
      not (is_reserved r.status)
      || (not (r.item_id == d.item_id)
          || (not (r.stock_location_id == d.stock_location_id)
              || ltb_ℤ (r.quantity -ℤ r.consumed_quantity) d.quantity))

  -- `status: consumedQuantity === reservation.quantity ? "consumed" : "reserved"`
  abbrev pub consume : ℤ → ℤ → InventoryReservation → InventoryReservation
  consume consumed' whole r = record r {
    consumed_quantity = consumed';
    status =
        if eq_ℤ consumed' whole then ReservationStatus.consumed else ReservationStatus.reserved;
  }

  unfoldable pub issue_reserved :
      ℕ
      → StockData
      → StockBalance × List StockBalance
      → Store
      → Result RepositoryError ((StockBalance × List StockBalance) × List InventoryReservation)
  issue_reserved n d (balance, bs) s = do
    r ← or_throw (find_reservation m n d.organization_id s.reservations) invalid_reservation
    throw_if (refuses_issue d r) invalid_reservation
    updated ← updated_or insufficient_stock (consume_reserved m balance.id d.quantity bs)
    ok (
      updated,
      update_reservation m n d.organization_id
          (consume (r.consumed_quantity +ℤ d.quantity) r.quantity) s.reservations,
    )

  unfoldable pub issue_available :
      StockData
      → StockBalance × List StockBalance
      → Store
      → Result RepositoryError ((StockBalance × List StockBalance) × List InventoryReservation)
  issue_available d (balance, bs) s = do
    updated ← updated_or insufficient_stock (decrease_available m balance.id d.quantity bs)
    ok (updated, s.reservations)

  -- `if (data.reservationId) { … } else { … }`
  unfoldable pub withdraw_for_issue :
      Option ℕ
      → StockData
      → StockBalance × List StockBalance
      → Store
      → Result RepositoryError ((StockBalance × List StockBalance) × List InventoryReservation)
  unfolding issue_reserved issue_available
  withdraw_for_issue (some n) d found s = issue_reserved n d found s
  withdraw_for_issue none d found s = issue_available d found s

  unfoldable pub issue_atomic :
      InventoryTransactionType
      → Option ℕ
      → StockData
      → Store
      → Result RepositoryError (Recorded × Store)
  unfolding balance_of withdraw_for_issue record_transaction
  issue_atomic type' reserved_id d s = do
    let found = balance_of m new d.organization_id d.item_id d.stock_location_id s
    withdrawn ← withdraw_for_issue reserved_id d found s
    let t = stock_transaction new.transaction_id d type'
    record_transaction m new withdrawn.0 (record t { reservation_id = reserved_id })
        (record s { reservations = withdrawn.1 })

  abbrev pub consumption_transaction : StockData → ℕ → InventoryTransaction
  consumption_transaction d n =
      let t = stock_transaction new.transaction_id d InventoryTransactionType.consumption in
      record t { source_transaction_id = some n }

  -- The transaction that a consumption names must be an issue of the same balance.
  abbrev pub is_not_source : StockData → InventoryTransaction → Bool
  is_not_source d t =
      not (is_issue t.type)
      || (not (t.item_id == d.item_id) || not (t.stock_location_id == d.stock_location_id))

  unfoldable pub consume_source_atomic :
      ℕ → StockData → Store → Result RepositoryError (Recorded × Store)
  unfolding balance_of record_transaction
  consume_source_atomic n d s = do
    source ←
        or_throw (find_transaction m n d.organization_id s.transactions)
          source_transaction_not_found
    throw_if (is_not_source d source) source_transaction_not_found
    let consumed = total quantity_of (find_consumptions m n d.organization_id s.transactions)
    throw_if (ltb_ℤ source.quantity (consumed +ℤ d.quantity)) consumption_exceeds_source
    let (balance, bs) = balance_of m new d.organization_id d.item_id d.stock_location_id s
    updated ← updated_or insufficient_stock (decrease_available m balance.id d.quantity bs)
    record_transaction m new updated (consumption_transaction d source.id) s
