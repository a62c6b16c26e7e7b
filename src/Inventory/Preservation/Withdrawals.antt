-- ===== src/Inventory/Preservation/Withdrawals.antt =====
-- issueAtomic without a reservation, consumeSourceAtomic and adjustAtomic: a quantity that is
-- available leaves a balance.
use maintain_pro_backend.Shared.{
  Bool-cases, ℤ, pos, ◌+ℤ◌, ◌-ℤ◌, ltb_ℤ, int_laws, abs_ℤ, ok, throw_if, or_throw, >>=-eq-ok,
  find?-holds, total, ℕ, ◌≡◌, refl, inl, inr, true, false, List, arith,
}
use maintain_pro_backend.Shared.Mongo.{Mongo}
use maintain_pro_backend.Inventory.Model.{
  StockBalance, NewIds, Store, StockData, InventoryTransaction, RepositoryError, insufficient_stock,
  is_transfer, InventoryTransactionType, is_at, source_transaction_not_found,
  consumption_exceeds_source,
}
use maintain_pro_backend.Inventory.Steps.{KeepsKey, ensure_balance-Extends}
use maintain_pro_backend.Inventory.Balances.{
  subtract_quantity, has_available, decrease_available, ensure_balance, increase_balance,
  find_transaction, find_consumptions,
}
use maintain_pro_backend.Inventory.Valid.{IsBounded, IsValid}
use maintain_pro_backend.Inventory.Preservation.Commits.{IsNew, record_transaction-eq-ok}
use maintain_pro_backend.Inventory.Atomic.Common.{
  balance_of, Recorded, updated_or, record_transaction, stock_transaction, quantity_of,
}
use maintain_pro_backend.Inventory.Atomic.Issues.{
  consume_source_atomic, consumption_transaction, is_not_source,
}
use maintain_pro_backend.Inventory.Ledger.{signed_quantity}
use maintain_pro_backend.Inventory.Atomic.Movements.{adjust_atomic}
use maintain_pro_backend.Inventory.Updates.{guarded_update_ok, record-IsValid}
use maintain_pro_backend.Inventory.Preservation.Receipts.{gain-IsValid}
use maintain_pro_backend.Inventory.Preservation.Deltas.{is_at-SharesKey, quantity-ledger_delta}

keeps_subtract : (q : ℤ) → KeepsKey (subtract_quantity q)
keeps_subtract q = record {
  keeps_id = λ b. refl;
  keeps_organization = λ b. refl;
  keeps_item = λ b. refl;
  keeps_location = λ b. refl;
}

-- The guard on the available quantity leaves enough for what is reserved.
subtract_quantity-IsBounded :
    (q : ℤ) (b : StockBalance)
    → has_available q b ≡ true
    → IsBounded b
    → IsBounded (subtract_quantity q b)
subtract_quantity-IsBounded q b h v = record {
  reserved_nonneg = v.reserved_nonneg;
  reserved_within = grind (int_laws, v.reserved_within);
}

minus_abs : (q : ℤ) → ltb_ℤ (pos 0) q ≡ false → q ≡ pos 0 -ℤ abs_ℤ q
unfolding ◌-ℤ◌
minus_abs q h = ground arith

module _ (m : Mongo) (new : NewIds) (s : Store) (v : IsValid s) (n : IsNew new s) where
  -- A balance that loses what its transaction takes.
  pub lose-IsValid :
      (t : InventoryTransaction) (q : ℤ) (e : RepositoryError)
      → (u : StockBalance × List StockBalance) (r : Recorded × Store) → is_transfer t.type ≡ false
      → signed_quantity t.type t.quantity ≡ pos 0 -ℤ q
      → (let found = balance_of m new t.organization_id t.item_id t.stock_location_id s in
          updated_or e (decrease_available m found.0.id q found.1) ≡ ok u)
      → record_transaction m new u t s ≡ ok r
      → IsValid r.1
  unfolding balance_of decrease_available
  lose-IsValid t q e u r h a j k =
      let o = t.organization_id in
      let i = t.item_id in
      let l = t.stock_location_id in
      let found = ensure_balance m new.balance_id o i l s.balances in
      let x = ensure_balance-Extends m new.balance_id o i l s.balances v.sound n.new_balance in
      let (p, j') =
        guarded_update_ok m o i l found.1 found.0 x.sound.ids x.here (subtract_quantity q) e
          (has_available q) u j in
      let shared = is_at-SharesKey found.0 t (find?-holds (is_at o i l) found.1 found.0 x.here) in
      rw (record_transaction-eq-ok m new u t s r k, j')
        (record-IsValid s o i l found.0 found.1 (subtract_quantity q) t s.reservations v x
          (keeps_subtract q) (subtract_quantity-IsBounded q found.0 p) v.reservation_ids
          (λ o' i' l'.
            quantity-ledger_delta o' i' l' found.0 t (found.0.quantity -ℤ q) shared h
              (rw a (omega int_laws)))
          (λ o' i' l'. refl))

  pub consume_source_atomic-IsValid :
      (c : ℕ) (d : StockData) (r : Recorded × Store)
      → consume_source_atomic m new c d s ≡ ok r
      → IsValid r.1
  unfolding consume_source_atomic signed_quantity
  consume_source_atomic-IsValid c d r h =
      let (source, _, h1) =
        >>=-eq-ok
          (or_throw (find_transaction m c d.organization_id s.transactions)
            source_transaction_not_found)
          _ r h in
      let (_, _, h2) =
        >>=-eq-ok (throw_if (is_not_source m new d source) source_transaction_not_found) _ r h1 in
      let (_, _, h3) =
        >>=-eq-ok
          (throw_if
            (ltb_ℤ source.quantity (
              total quantity_of (find_consumptions m c d.organization_id s.transactions)
              +ℤ d.quantity))
            consumption_exceeds_source)
          _ r h2 in
      let (u, j, k) = >>=-eq-ok _ _ r h3 in
      lose-IsValid (consumption_transaction m new d source.id) d.quantity insufficient_stock u r
        refl refl j k

  grow-IsValid :
      (d : StockData) (u : StockBalance × List StockBalance) (r : Recorded × Store)
      → ltb_ℤ (pos 0) d.quantity ≡ true
      → (let found = balance_of m new d.organization_id d.item_id d.stock_location_id s in
          updated_or insufficient_stock (increase_balance m found.0.id d.quantity found.1) ≡ ok u)
      → record_transaction m new u
          (stock_transaction new.transaction_id d InventoryTransactionType.adjustment)
          s
        ≡ ok r
      → IsValid r.1
  unfolding signed_quantity
  grow-IsValid d u r p j k =
      gain-IsValid m new s v n
        (stock_transaction new.transaction_id d InventoryTransactionType.adjustment) d.quantity
        insufficient_stock u r (ground arith) refl refl j k

  shrink-IsValid :
      (d : StockData) (u : StockBalance × List StockBalance) (r : Recorded × Store)
      → ltb_ℤ (pos 0) d.quantity ≡ false
      → (let found = balance_of m new d.organization_id d.item_id d.stock_location_id s in
          updated_or insufficient_stock (decrease_available m found.0.id (abs_ℤ d.quantity) found.1)
          ≡ ok u)
      → record_transaction m new u
          (stock_transaction new.transaction_id d InventoryTransactionType.adjustment)
          s
        ≡ ok r
      → IsValid r.1
  unfolding signed_quantity
  shrink-IsValid d u r p j k =
      lose-IsValid (stock_transaction new.transaction_id d InventoryTransactionType.adjustment)
        (abs_ℤ d.quantity) insufficient_stock u r refl (minus_abs d.quantity p) j k

  pub adjust_atomic-IsValid :
      (d : StockData) (r : Recorded × Store) → adjust_atomic m new d s ≡ ok r → IsValid r.1
  unfolding adjust_atomic
  adjust_atomic-IsValid d r h = elim (Bool-cases (ltb_ℤ (pos 0) d.quantity)) [
    | inl yes' ↦ let (u, j, k) = >>=-eq-ok _ _ r (rw yes' at h) in grow-IsValid d u r yes' j k
    | inr no' ↦ let (u, j, k) = >>=-eq-ok _ _ r (rw no' at h) in shrink-IsValid d u r no' j k
  ]
