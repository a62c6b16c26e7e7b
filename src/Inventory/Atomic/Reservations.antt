-- ===== src/Inventory/Atomic/Reservations.antt =====
-- inventory.repository.ts: reserveAtomic and releaseAtomic.
use maintain_pro_backend.Shared.{
  pos, ◌-ℤ◌, Result, ok, ◌>>=◌, ◌>>◌, throw_if, or_throw, not, none, some, [], ◌∷◌, ◌++◌,
}
use maintain_pro_backend.Shared.Mongo.{Mongo}
use maintain_pro_backend.Inventory.Model.{
  ReservationStatus, is_reserved, InventoryReservation, InventoryTransactionType,
  InventoryTransaction, Store, NewIds, RepositoryError, insufficient_stock, invalid_reservation,
  inconsistent_reservation_balance, StockData, ReleaseData,
}
use maintain_pro_backend.Inventory.Balances.{
  create_transaction, reserve_balance, release_balance, find_reservation, update_reservation,
}
use maintain_pro_backend.Inventory.Atomic.Common.{
  Recorded, updated_or, stock_transaction, balance_of, record_transaction,
}

module _ (m : Mongo) (new : NewIds) where
  abbrev pub reservation_of : StockData → InventoryReservation
  reservation_of d = record {
    id = new.reservation_id;
    organization_id = d.organization_id;
    item_id = d.item_id;
    stock_location_id = d.stock_location_id;
    quantity = d.quantity;
    consumed_quantity = pos 0;
    work_order_id = d.work_order_id;
    status = ReservationStatus.reserved;
    requested_by = d.performed_by;
  }

  abbrev pub reservation_transaction : StockData → InventoryTransaction
  reservation_transaction d =
      let t = stock_transaction new.transaction_id d InventoryTransactionType.reservation in
      record t { reservation_id = some new.reservation_id }

  unfoldable pub reserve_atomic :
      StockData
      → Store
      → Result RepositoryError ((InventoryReservation × InventoryTransaction) × Store)
  unfolding balance_of
  reserve_atomic d s = do
    let (balance, bs) = balance_of m new d.organization_id d.item_id d.stock_location_id s
    updated ← updated_or insufficient_stock (reserve_balance m balance.id d.quantity bs)
    ts ← create_transaction m (reservation_transaction d) s.transactions
    ok (
      (reservation_of d, reservation_transaction d),
      record {
        balances = updated.1;
        reservations = s.reservations ++ reservation_of d ∷ [];
        transactions = ts;
      },
    )

  abbrev pub release_transaction : ReleaseData → InventoryReservation → InventoryTransaction
  release_transaction d r = record {
    id = new.transaction_id;
    organization_id = d.organization_id;
    item_id = r.item_id;
    stock_location_id = r.stock_location_id;
    type = InventoryTransactionType.release;
    quantity = r.quantity -ℤ r.consumed_quantity;
    unit_of_measure = "";
    work_order_id = r.work_order_id;
    reservation_id = some r.id;
    related_transaction_id = none;
    source_transaction_id = none;
    source_location_id = none;
    destination_location_id = none;
    reference = none;
    reason = none;
    performed_by = d.performed_by;
    idempotency_key = none;
  }

  abbrev pub set_released : InventoryReservation → InventoryReservation
  set_released r = record r { status = ReservationStatus.released }

  unfoldable pub release_atomic : ReleaseData → Store → Result RepositoryError (Recorded × Store)
  unfolding balance_of record_transaction
  release_atomic d s = do
    r ←
        or_throw (find_reservation m d.reservation_id d.organization_id s.reservations)
          invalid_reservation
    throw_if (not (is_reserved r.status)) invalid_reservation
    let (balance, bs) = balance_of m new d.organization_id r.item_id r.stock_location_id s
    updated ←
        updated_or inconsistent_reservation_balance
          (release_balance m balance.id (r.quantity -ℤ r.consumed_quantity) bs)
    record_transaction m new updated (release_transaction d r) (record s {
      reservations =
          update_reservation m d.reservation_id d.organization_id set_released s.reservations;
    })
