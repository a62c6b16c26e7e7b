-- ===== src/Inventory/Preservation/Receipts.antt =====
-- receiveAtomic, returnAtomic and the growing case of adjustAtomic: a balance gains a quantity.
use maintain_pro_backend.Shared.{
  ℤ, pos, ◌+ℤ◌, ◌≤ℤ◌, ltb_ℤ, int_laws, ok, throw_if, or_throw, >>=-eq-ok, find?-holds, total, ◌≡◌,
  refl, false, not, List,
}
use maintain_pro_backend.Shared.Mongo.{Mongo}
use maintain_pro_backend.Inventory.Model.{
  StockBalance, InventoryTransaction, Store, NewIds, RepositoryError, StockData, is_transfer,
  InventoryTransactionType, receipt_balance_update_failed, is_at, ReturnData,
  return_balance_update_failed, source_transaction_not_found, return_exceeds_source,
}
use maintain_pro_backend.Inventory.Balances.{
  add_quantity, increase_balance, ensure_balance, find_transaction, find_returns,
}
use maintain_pro_backend.Inventory.Atomic.Common.{
  Recorded, record_transaction, balance_of, stock_transaction, updated_or, quantity_of,
}
use maintain_pro_backend.Inventory.Valid.{IsValid, IsBounded}
use maintain_pro_backend.Inventory.Steps.{KeepsKey, ensure_balance-Extends}
use maintain_pro_backend.Inventory.Preservation.Commits.{IsNew, record_transaction-eq-ok}
use maintain_pro_backend.Inventory.Atomic.Movements.{
  receive_atomic, return_atomic, return_transaction, is_returnable,
}
use maintain_pro_backend.Inventory.Ledger.{signed_quantity}
use maintain_pro_backend.Inventory.Updates.{update_ok, record-IsValid}
use maintain_pro_backend.Inventory.Preservation.Deltas.{is_at-SharesKey, quantity-ledger_delta}

keeps_add : (q : ℤ) → KeepsKey (add_quantity q)
keeps_add q = record {
  keeps_id = λ b. refl;
  keeps_organization = λ b. refl;
  keeps_item = λ b. refl;
  keeps_location = λ b. refl;
}

add_quantity-IsBounded :
    (q : ℤ) (b : StockBalance) → pos 0 ≤ℤ q → IsBounded b → IsBounded (add_quantity q b)
add_quantity-IsBounded q b h v = record {
  reserved_nonneg = v.reserved_nonneg;
  reserved_within = omega int_laws;
}

module _ (m : Mongo) (new : NewIds) (s : Store) (v : IsValid s) (n : IsNew new s) where
  -- A balance that gains what its transaction adds.
  pub gain-IsValid :
      (t : InventoryTransaction) (q : ℤ) (e : RepositoryError)
      → (u : StockBalance × List StockBalance) (r : Recorded × Store) → pos 0 ≤ℤ q
      → is_transfer t.type ≡ false
      → signed_quantity t.type t.quantity ≡ q
      → (let found = balance_of m new t.organization_id t.item_id t.stock_location_id s in
          updated_or e (increase_balance m found.0.id q found.1) ≡ ok u)
      → record_transaction m new u t s ≡ ok r
      → IsValid r.1
  unfolding balance_of increase_balance
  gain-IsValid t q e u r p h a j k =
      let o = t.organization_id in
      let i = t.item_id in
      let l = t.stock_location_id in
      let found = ensure_balance m new.balance_id o i l s.balances in
      let x = ensure_balance-Extends m new.balance_id o i l s.balances v.sound n.new_balance in
      let j' = update_ok m o i l found.1 found.0 x.sound.ids x.here (add_quantity q) e u j in
      let shared = is_at-SharesKey found.0 t (find?-holds (is_at o i l) found.1 found.0 x.here) in
      rw (record_transaction-eq-ok m new u t s r k, j')
        (record-IsValid s o i l found.0 found.1 (add_quantity q) t s.reservations v x (keeps_add q)
          (add_quantity-IsBounded q found.0 p) v.reservation_ids
          (λ o' i' l'.
            quantity-ledger_delta o' i' l' found.0 t (found.0.quantity +ℤ q) shared h (rw a))
          (λ o' i' l'. refl))

  -- A receipt.
  pub receive_atomic-IsValid :
      (d : StockData) (r : Recorded × Store)
      → pos 0 ≤ℤ d.quantity
      → receive_atomic m new d s ≡ ok r
      → IsValid r.1
  unfolding receive_atomic signed_quantity
  receive_atomic-IsValid d r p h =
      let (u, j, k) = >>=-eq-ok _ _ r h in
      gain-IsValid (stock_transaction new.transaction_id d InventoryTransactionType.receipt)
        d.quantity receipt_balance_update_failed u r p refl refl j k

  -- A return of an issue or of a consumption.
  pub return_atomic-IsValid :
      (d : ReturnData) (r : Recorded × Store)
      → pos 0 ≤ℤ d.quantity
      → return_atomic m new d s ≡ ok r
      → IsValid r.1
  unfolding return_atomic signed_quantity
  return_atomic-IsValid d r p h =
      let (original, _, h1) =
        >>=-eq-ok
          (or_throw (find_transaction m d.original_transaction_id d.organization_id s.transactions)
            source_transaction_not_found)
          _ r h in
      let (_, _, h2) =
        >>=-eq-ok (throw_if (not (is_returnable m new original)) source_transaction_not_found) _ r
          h1 in
      let (_, _, h3) =
        >>=-eq-ok
          (throw_if
            (ltb_ℤ original.quantity (
              total quantity_of
                (find_returns m d.original_transaction_id d.organization_id s.transactions)
              +ℤ d.quantity))
            return_exceeds_source)
          _ r h2 in
      let (u, j, k) = >>=-eq-ok _ _ r h3 in
      gain-IsValid (return_transaction m new d original) d.quantity return_balance_update_failed u r
        p refl refl j k
