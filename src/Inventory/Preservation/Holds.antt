-- ===== src/Inventory/Preservation/Holds.antt =====
-- reserveAtomic: a part of the available stock is set aside.
use maintain_pro_backend.Shared.{
  ◌==◌, Bool-cases, ℤ, pos, ◌+ℤ◌, ◌-ℤ◌, ◌≤ℤ◌, int_laws, ok, ok-injective, >>=-eq-ok, find?-holds,
  total, total-append, Distinct-append, ℕ, ◌≡◌, refl, subst, inl, inr, Bool, true, ◌&&◌, List, [],
  ◌∷◌, ◌++◌, arith,
}
use maintain_pro_backend.Shared.Mongo.{Mongo}
use maintain_pro_backend.Inventory.Model.{
  StockBalance, NewIds, InventoryReservation, is_at, Store, is_reserved, StockData,
  InventoryTransaction, insufficient_stock,
}
use maintain_pro_backend.Inventory.Ledger.{open_quantity, signed_quantity}
use maintain_pro_backend.Inventory.Steps.{KeepsKey, ensure_balance-Extends}
use maintain_pro_backend.Inventory.Balances.{
  add_reserved, has_available, reserve_balance, create_transaction, ensure_balance,
}
use maintain_pro_backend.Inventory.Valid.{IsBounded, IsValid, reserved_at, reservation_id}
use maintain_pro_backend.Inventory.Preservation.Commits.{IsNew, create_transaction-eq-ok}
use maintain_pro_backend.Inventory.Atomic.Reservations.{
  reserve_atomic, reservation_transaction, reservation_of,
}
use maintain_pro_backend.Inventory.Atomic.Common.{balance_of, updated_or}
use maintain_pro_backend.Inventory.Updates.{guarded_update_ok, record-IsValid}
use maintain_pro_backend.Inventory.Preservation.Deltas.{is_at-SharesKey, quantity-ledger_delta}

add_reserved-KeepsKey : (q : ℤ) → KeepsKey (add_reserved q)
add_reserved-KeepsKey q = record {
  keeps_id = λ b. refl;
  keeps_organization = λ b. refl;
  keeps_item = λ b. refl;
  keeps_location = λ b. refl;
}

add_reserved-IsBounded :
    (q : ℤ) (b : StockBalance)
    → pos 0 ≤ℤ q
    → has_available q b ≡ true
    → IsBounded b
    → IsBounded (add_reserved q b)
add_reserved-IsBounded q b p h v = record {
  reserved_nonneg = omega (int_laws, v.reserved_nonneg);
  reserved_within = grind (int_laws, v.reserved_within);
}

-- A reservation and a balance of one key.
abbrev pub is_open_at : ℕ → ℕ → ℕ → InventoryReservation → Bool
is_open_at o i l r = r.organization_id == o && (r.item_id == i && r.stock_location_id == l)

pub is_open_at-is_at :
    (o i l : ℕ) (b : StockBalance) (r : InventoryReservation)
    → b.organization_id ≡ r.organization_id
    → b.item_id ≡ r.item_id
    → b.stock_location_id ≡ r.stock_location_id
    → is_open_at o i l r ≡ is_at o i l b
is_open_at-is_at o i l b r p q k = rw (p, q, k) (ground arith)

-- A new reservation holds what the balance has set aside for it.
reserved-open_quantity :
    (o i l : ℕ) (b : StockBalance) (r : InventoryReservation) (q t : ℤ)
    → is_open_at o i l r ≡ is_at o i l b
    → is_reserved r.status ≡ true
    → r.quantity -ℤ r.consumed_quantity ≡ q
    → reserved_at o i l (add_reserved q b) +ℤ t
      ≡ reserved_at o i l b +ℤ (t +ℤ open_quantity o i l r)
unfolding open_quantity
reserved-open_quantity o i l b r q t k h e =
    rw (h, k)
      (elim (Bool-cases (is_at o i l b)) [
        | inl yes' ↦ rw (yes', e) (omega int_laws)
        | inr no' ↦ rw no' (omega int_laws)
      ])

module _ (m : Mongo) (new : NewIds) (s : Store) (v : IsValid s) (n : IsNew new s) where
  hold-IsValid :
      (d : StockData) (u : StockBalance × List StockBalance)
      → pos 0 ≤ℤ d.quantity
      → (let found = balance_of m new d.organization_id d.item_id d.stock_location_id s in
          updated_or insufficient_stock (reserve_balance m found.0.id d.quantity found.1) ≡ ok u)
      → IsValid (record {
        balances = u.1;
        reservations = s.reservations ++ reservation_of m new d ∷ [];
        transactions = s.transactions ++ reservation_transaction m new d ∷ [];
      })
  unfolding balance_of reserve_balance signed_quantity
  hold-IsValid d u p j =
      let o = d.organization_id in
      let i = d.item_id in
      let l = d.stock_location_id in
      let t = reservation_transaction m new d in
      let w = reservation_of m new d in
      let q = d.quantity in
      let found = ensure_balance m new.balance_id o i l s.balances in
      let x = ensure_balance-Extends m new.balance_id o i l s.balances v.sound n.new_balance in
      let (g, j') =
        guarded_update_ok m o i l found.1 found.0 x.sound.ids x.here (add_reserved q)
          insufficient_stock (has_available q) u j in
      let shared = is_at-SharesKey found.0 t (find?-holds (is_at o i l) found.1 found.0 x.here) in
      rw j' (
        record-IsValid s o i l found.0 found.1 (add_reserved q) t (s.reservations ++ w ∷ []) v x
          (add_reserved-KeepsKey q) (add_reserved-IsBounded q found.0 p g)
          (Distinct-append reservation_id s.reservations w v.reservation_ids n.new_reservation)
          (λ o' i' l'.
            quantity-ledger_delta o' i' l' found.0 t found.0.quantity shared refl (omega int_laws))
          (λ o' i' l'. rw (total-append (open_quantity o' i' l') s.reservations w) (
            reserved-open_quantity o' i' l' found.0 w q
              (total (open_quantity o' i' l') s.reservations)
              (is_open_at-is_at o' i' l' found.0 w shared.same_organization shared.same_item
                shared.same_location)
              refl (omega int_laws))))

  pub reserve_atomic-IsValid :
      (d : StockData) (r : (InventoryReservation × InventoryTransaction) × Store)
      → pos 0 ≤ℤ d.quantity
      → reserve_atomic m new d s ≡ ok r
      → IsValid r.1
  unfolding reserve_atomic
  reserve_atomic-IsValid d r p h =
      let (u, j, h1) =
        >>=-eq-ok
          (updated_or insufficient_stock (
            reserve_balance m
              (balance_of m new d.organization_id d.item_id d.stock_location_id s).0.id d.quantity
              (balance_of m new d.organization_id d.item_id d.stock_location_id s).1))
          _ r h in
      let (ts, k, h2) =
        >>=-eq-ok (create_transaction m (reservation_transaction m new d) s.transactions) _ r h1 in
      let written_ts =
        create_transaction-eq-ok m (reservation_transaction m new d) s.transactions ts k in
      let h3 = rw written_ts at h2 in
      subst (λ (y : (InventoryReservation × InventoryTransaction) × Store). IsValid y.1)
        (ok-injective _ _ h3) (hold-IsValid d u p j)
