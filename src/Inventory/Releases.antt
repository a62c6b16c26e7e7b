-- ===== src/Inventory/Releases.antt =====
-- inventory.repository.ts, `releaseAtomic`: the transaction it writes has no unit of measure.
use maintain_pro_backend.Shared.{
  ◌-ℤ◌, ok, err, throw_if, or_throw, err≢ok, >>=-eq-ok, ◌≡◌, refl, true, not, List,
}
use maintain_pro_backend.Shared.Mongo.{Mongo, invalid_document}
use maintain_pro_backend.Inventory.Balances.{
  create_transaction, is_empty, same_key, find_reservation, release_balance,
}
use maintain_pro_backend.Inventory.Model.{
  NewIds, ReleaseData, InventoryTransaction, Store, write, invalid_reservation, is_reserved,
  inconsistent_reservation_balance,
}
use maintain_pro_backend.Inventory.Atomic.Reservations.{release_atomic, release_transaction}
use maintain_pro_backend.Inventory.Atomic.Common.{
  record_transaction, Recorded, updated_or, balance_of,
}

no_unit :
    (m : Mongo) (t : InventoryTransaction) (ts : List InventoryTransaction)
    → is_empty t.unit_of_measure ≡ true
    → create_transaction m t ts ≡ err (write invalid_document)
unfolding create_transaction
no_unit m t ts h = rw (m.create_lem (not (is_empty t.unit_of_measure)) (same_key t) t ts, h) refl

module _ (m : Mongo) (new : NewIds) (d : ReleaseData) (s : Store) where
  -- A release of a reservation never succeeds.
  pub release_atomic-fails : (r : Recorded × Store) → ¬ (release_atomic m new d s ≡ ok r)
  unfolding release_atomic record_transaction
  release_atomic-fails r h =
      let (w, _, h1) =
        >>=-eq-ok
          (or_throw (find_reservation m d.reservation_id d.organization_id s.reservations)
            invalid_reservation)
          _ r h in
      let (_, _, h2) =
        >>=-eq-ok (throw_if (not (is_reserved w.status)) invalid_reservation) _ r h1 in
      let ((b, bs), _, h3) =
        >>=-eq-ok
          (updated_or inconsistent_reservation_balance (
            release_balance m
              (balance_of m new d.organization_id w.item_id w.stock_location_id s).0.id
              (w.quantity -ℤ w.consumed_quantity)
              (balance_of m new d.organization_id w.item_id w.stock_location_id s).1))
          _ r h2 in
      err≢ok (write invalid_document) r
        (rw (no_unit m (release_transaction m new d w) s.transactions refl) at h3)
