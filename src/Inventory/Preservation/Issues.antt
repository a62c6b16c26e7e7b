-- ===== src/Inventory/Preservation/Issues.antt =====
-- issueAtomic: from the available stock, or from a reservation.
use maintain_pro_backend.Shared.{
  if◌then◌else◌, Bool-cases, find?, update_first, ℤ, pos, ◌+ℤ◌, ◌-ℤ◌, leb_ℤ, int_laws, eq_ℤ, Result,
  ok, throw_if, or_throw, ok-injective, >>=-eq-ok, throw_if-eq-ok, or_throw-eq-ok, find?-holds,
  total, total-update_first, Distinct-update_first, ℕ, ◌≡◌, refl, sym, ap, ◌∙◌, subst, inl, inr,
  Bool, true, false, ◌&&◌, ◌||◌, Option, none, some, List, [], ◌∷◌, ◌++◌, arith,
}
use maintain_pro_backend.Shared.Mongo.{Mongo}
use maintain_pro_backend.Inventory.Ledger.{signed_quantity, open_quantity}
use maintain_pro_backend.Inventory.Model.{
  NewIds, InventoryTransactionType, StockBalance, Store, is_issue, InventoryReservation,
  is_transfer, is_reserved, is_consumption, is_at, StockData, InventoryTransaction,
  insufficient_stock, invalid_reservation, RepositoryError,
}
use maintain_pro_backend.Inventory.Steps.{KeepsKey, ensure_balance-Extends}
use maintain_pro_backend.Inventory.Valid.{IsBounded, IsValid, reserved_at, reservation_id}
use maintain_pro_backend.Inventory.Balances.{
  subtract_reserved, subtract_quantity, consume_reserved, is_reservation, ensure_balance,
  find_reservation, update_reservation, decrease_available,
}
use maintain_pro_backend.Inventory.Preservation.Holds.{is_open_at, is_open_at-is_at}
use maintain_pro_backend.Inventory.Preservation.Commits.{IsNew, record_transaction-eq-ok}
use maintain_pro_backend.Inventory.Atomic.Issues.{
  consume, refuses_issue, issue_atomic, withdraw_for_issue,
}
use maintain_pro_backend.Inventory.Atomic.Common.{
  balance_of, updated_or, Recorded, stock_transaction, record_transaction,
}
use maintain_pro_backend.Inventory.Updates.{guarded_update_ok, record-IsValid}
use maintain_pro_backend.Inventory.Preservation.Deltas.{is_at-SharesKey, quantity-ledger_delta}
use maintain_pro_backend.Inventory.Preservation.Withdrawals.{lose-IsValid}

-- The two types that an issue is recorded with.
abbrev pub IsWithdrawal : InventoryTransactionType → Type 0
IsWithdrawal t = (is_issue t || is_consumption t) ≡ true

IsWithdrawal-transfer : (t : InventoryTransactionType) → IsWithdrawal t → is_transfer t ≡ false
IsWithdrawal-transfer t h = ground arith

IsWithdrawal-signed :
    (t : InventoryTransactionType) (q : ℤ) → IsWithdrawal t → signed_quantity t q ≡ pos 0 -ℤ q
unfolding signed_quantity
IsWithdrawal-signed t q h = ground arith

abbrev take_reserved : ℤ → StockBalance → StockBalance
take_reserved q b = subtract_reserved q (subtract_quantity q b)

take_reserved-KeepsKey : (q : ℤ) → KeepsKey (take_reserved q)
take_reserved-KeepsKey q = record {
  keeps_id = λ b. refl;
  keeps_organization = λ b. refl;
  keeps_item = λ b. refl;
  keeps_location = λ b. refl;
}

abbrev covers : ℤ → StockBalance → Bool
covers q b = leb_ℤ q b.quantity && leb_ℤ q b.reserved_quantity

take_reserved-IsBounded :
    (q : ℤ) (b : StockBalance) → covers q b ≡ true → IsBounded b → IsBounded (take_reserved q b)
take_reserved-IsBounded q b h v = record {
  reserved_nonneg = grind int_laws;
  reserved_within = omega (int_laws, v.reserved_within);
}

eq_ℤ-eq : (a b : ℤ) → eq_ℤ a b ≡ true → a ≡ b
eq_ℤ-eq a b h = ground arith

-- What a reservation holds open falls by what is consumed, also when that closes it.
consume-open_quantity :
    (m : Mongo) (new : NewIds) (o i l : ℕ) (r : InventoryReservation) (q : ℤ)
    → is_reserved r.status ≡ true
    → open_quantity o i l (consume m new (r.consumed_quantity +ℤ q) r.quantity r)
      ≡ (if is_open_at o i l r then r.quantity -ℤ (r.consumed_quantity +ℤ q) else pos 0)
unfolding open_quantity
consume-open_quantity m new o i l r q h =
    elim (Bool-cases (eq_ℤ (r.consumed_quantity +ℤ q) r.quantity)) [
      | inl e ↦
          let gone : r.quantity -ℤ (r.consumed_quantity +ℤ q) ≡ pos 0 =
            rw (eq_ℤ-eq (r.consumed_quantity +ℤ q) r.quantity e) (omega int_laws) in
          rw e (elim (Bool-cases (is_open_at o i l r)) [
            | inl yes' ↦ rw (yes', gone)
            | inr no' ↦ rw no'
          ])
      | inr e ↦ rw e
    ]

open_quantity-reserved :
    (o i l : ℕ) (r : InventoryReservation)
    → is_reserved r.status ≡ true
    → open_quantity o i l r
      ≡ (if is_open_at o i l r then r.quantity -ℤ r.consumed_quantity else pos 0)
unfolding open_quantity
open_quantity-reserved o i l r h = rw h

give_up : (b w c q t t' : ℤ) → t' +ℤ (w -ℤ c) ≡ t +ℤ (w -ℤ (c +ℤ q)) → (b -ℤ q) +ℤ t ≡ b +ℤ t'
give_up b w c q t t' e = grind int_laws

keep_apart : (t t' : ℤ) → t' +ℤ pos 0 ≡ t +ℤ pos 0 → pos 0 +ℤ t ≡ pos 0 +ℤ t'
keep_apart t t' e = grind int_laws

-- The balance and the reservation give up the same quantity.
reserved-consume :
    (m : Mongo) (new : NewIds) (o i l : ℕ) (b : StockBalance) (r : InventoryReservation)
    (q t t' : ℤ)
    → is_open_at o i l r ≡ is_at o i l b
    → is_reserved r.status ≡ true
    → t' +ℤ open_quantity o i l r
      ≡ t +ℤ open_quantity o i l (consume m new (r.consumed_quantity +ℤ q) r.quantity r)
    → reserved_at o i l (take_reserved q b) +ℤ t ≡ reserved_at o i l b +ℤ t'
reserved-consume m new o i l b r q t t' k h e =
    let e' =
      rw (consume-open_quantity m new o i l r q h, open_quantity-reserved o i l r h, k) at e in
    elim (Bool-cases (is_at o i l b)) [
      | inl yes' ↦
          rw yes'
            (give_up b.reserved_quantity r.quantity r.consumed_quantity q t t' (rw yes' at e'))
      | inr no' ↦ rw no' (keep_apart t t' (rw no' at e'))
    ]

refuses_issue-none :
    (m : Mongo) (new : NewIds) (d : StockData) (w : InventoryReservation)
    → refuses_issue m new d w ≡ false
    → (is_reserved w.status ≡ true)
      × (d.item_id ≡ w.item_id)
      × (d.stock_location_id ≡ w.stock_location_id)
refuses_issue-none m new d w h = ground arith

is_reservation-organization :
    (c o : ℕ) (w : InventoryReservation) → is_reservation c o w ≡ true → o ≡ w.organization_id
is_reservation-organization c o w h = ground arith

module _ (m : Mongo) (new : NewIds) (s : Store) (v : IsValid s) (n : IsNew new s) where
  consume-IsValid :
      (c : ℕ) (d : StockData) (w : InventoryReservation) (u : StockBalance × List StockBalance)
      (t : InventoryTransaction)
      → IsWithdrawal t.type
      → t.quantity ≡ d.quantity
      → t.organization_id ≡ d.organization_id
      → t.item_id ≡ d.item_id
      → t.stock_location_id ≡ d.stock_location_id
      → find? (is_reservation c d.organization_id) s.reservations ≡ some w
      → refuses_issue m new d w ≡ false
      → (let found = balance_of m new d.organization_id d.item_id d.stock_location_id s in
          updated_or insufficient_stock (consume_reserved m found.0.id d.quantity found.1) ≡ ok u)
      → IsValid (record {
        balances = u.1;
        reservations =
            update_first
              (is_reservation c d.organization_id)
              (consume m new (w.consumed_quantity +ℤ d.quantity) w.quantity)
              s.reservations;
        transactions = s.transactions ++ t ∷ [];
      })
  unfolding balance_of consume_reserved
  consume-IsValid c d w u t a eq eo ei el f g j =
      let o = d.organization_id in
      let i = d.item_id in
      let l = d.stock_location_id in
      let q = d.quantity in
      let change = consume m new (w.consumed_quantity +ℤ q) w.quantity in
      let rs = update_first (is_reservation c o) change s.reservations in
      let found = ensure_balance m new.balance_id o i l s.balances in
      let x = ensure_balance-Extends m new.balance_id o i l s.balances v.sound n.new_balance in
      let (h, j') =
        guarded_update_ok m o i l found.1 found.0 x.sound.ids x.here (take_reserved q)
          insufficient_stock (covers q) u j in
      let at_key = find?-holds (is_at o i l) found.1 found.0 x.here in
      let shared = is_at-SharesKey found.0 t (rw (eo, ei, el) at_key) in
      let (still, same_i, same_l) = refuses_issue-none m new d w g in
      let same_o =
        is_reservation-organization c o w (find?-holds (is_reservation c o) s.reservations w f) in
      rw j' (
        record-IsValid s o i l found.0 found.1 (take_reserved q) t rs v x (take_reserved-KeepsKey q)
          (take_reserved-IsBounded q found.0 h)
          (Distinct-update_first reservation_id (is_reservation c o) change s.reservations
            (λ r. refl) v.reservation_ids)
          (λ o' i' l'.
            quantity-ledger_delta o' i' l' found.0 t (found.0.quantity -ℤ q) shared
              (IsWithdrawal-transfer t.type a)
              (rw (IsWithdrawal-signed t.type t.quantity a, eq) (omega int_laws)))
          (λ o' i' l'.
            reserved-consume m new o' i' l' found.0 w q
              (total (open_quantity o' i' l') s.reservations) (total (open_quantity o' i' l') rs)
              (is_open_at-is_at o' i' l' found.0 w (shared.same_organization ∙ eo ∙ same_o)
                (shared.same_item ∙ ei ∙ same_i) (shared.same_location ∙ el ∙ same_l))
              still
              (total-update_first (open_quantity o' i' l') (is_reservation c o) change
                s.reservations w f)))

  -- What is left when the withdrawn balances and reservations are recorded with the issue.
  recorded-IsValid :
      (w : (StockBalance × List StockBalance) × List InventoryReservation)
      (t : InventoryTransaction) (r : Recorded × Store)
      → record_transaction m new w.0 t (record s { reservations = w.1 }) ≡ ok r
      → IsValid
          (record { balances = w.0.1; reservations = w.1; transactions = s.transactions ++ t ∷ [] })
      → IsValid r.1
  recorded-IsValid w t r k h =
      rw (record_transaction-eq-ok m new w.0 t (record s { reservations = w.1 }) r k) h

  abbrev issue_transaction : InventoryTransactionType → Option ℕ → StockData → InventoryTransaction
  issue_transaction type' reserved_id d =
      let t = stock_transaction new.transaction_id d type' in
      record t { reservation_id = reserved_id }

  update_reservation_lem :
      (c o : ℕ) (f : InventoryReservation → InventoryReservation) (rs : List InventoryReservation)
      → update_reservation m c o f rs ≡ update_first (is_reservation c o) f rs
  unfolding update_reservation
  update_reservation_lem c o f rs =
      ap (λ (p : Option InventoryReservation × List InventoryReservation). p.1)
        (m.find_one_and_update_lem (is_reservation c o) f rs)

  find_reservation_lem :
      (c o : ℕ) (rs : List InventoryReservation)
      → find_reservation m c o rs ≡ find? (is_reservation c o) rs
  unfolding find_reservation
  find_reservation_lem c o rs = m.find_one_lem (is_reservation c o) rs

  withdrawn-IsValid :
      (c : ℕ) (d : StockData) (w : InventoryReservation) (u : StockBalance × List StockBalance)
      (t : InventoryTransaction)
      → (y : (StockBalance × List StockBalance) × List InventoryReservation)
      → ◌≡◌
          {A = Result RepositoryError
            ((StockBalance × List StockBalance) × List InventoryReservation)}
          (ok (
            u,
            update_reservation m c d.organization_id
                (consume m new (w.consumed_quantity +ℤ d.quantity) w.quantity)
                s.reservations,
          ))
          (ok y)
      → IsValid (record {
        balances = u.1;
        reservations =
            update_first
              (is_reservation c d.organization_id)
              (consume m new (w.consumed_quantity +ℤ d.quantity) w.quantity)
              s.reservations;
        transactions = s.transactions ++ t ∷ [];
      })
      → IsValid
          (record { balances = y.0.1; reservations = y.1; transactions = s.transactions ++ t ∷ [] })
  withdrawn-IsValid c d w u t y e h =
      let change = consume m new (w.consumed_quantity +ℤ d.quantity) w.quantity in
      let e' = rw (update_reservation_lem c d.organization_id change s.reservations) at e in
      subst
        (λ (x : (StockBalance × List StockBalance) × List InventoryReservation). IsValid (record {
          balances = x.0.1;
          reservations = x.1;
          transactions = s.transactions ++ t ∷ [];
        }))
        (ok-injective _ _ e') h

  issue_reserved-IsValid :
      (type' : InventoryTransactionType) (c : ℕ) (d : StockData)
      → (y : (StockBalance × List StockBalance) × List InventoryReservation) → IsWithdrawal type'
      → (let found = balance_of m new d.organization_id d.item_id d.stock_location_id s in
          withdraw_for_issue m new (some c) d found s ≡ ok y)
      → IsValid (record {
        balances = y.0.1;
        reservations = y.1;
        transactions = s.transactions ++ issue_transaction type' (some c) d ∷ [];
      })
  unfolding withdraw_for_issue
  issue_reserved-IsValid type' c d y a j =
      let o = d.organization_id in
      let t = issue_transaction type' (some c) d in
      let found = balance_of m new o d.item_id d.stock_location_id s in
      let (w, f, j1) =
        >>=-eq-ok (or_throw (find_reservation m c o s.reservations) invalid_reservation) _ y j in
      let f' = or_throw-eq-ok (find_reservation m c o s.reservations) invalid_reservation w f in
      let (z, g, j2) = >>=-eq-ok (throw_if (refuses_issue m new d w) invalid_reservation) _ y j1 in
      let g' = throw_if-eq-ok (refuses_issue m new d w) invalid_reservation z g in
      let (u, j3, e) =
        >>=-eq-ok (updated_or insufficient_stock (consume_reserved m found.0.id d.quantity found.1))
          _ y j2 in
      withdrawn-IsValid c d w u t y e (
        consume-IsValid c d w u t a refl refl refl refl
          (sym (find_reservation_lem c o s.reservations) ∙ f') g' j3)

  available_issue-IsValid :
      (type' : InventoryTransactionType) (d : StockData) (r : Recorded × Store)
      → IsWithdrawal type'
      → issue_atomic m new type' none d s ≡ ok r
      → IsValid r.1
  unfolding issue_atomic
  available_issue-IsValid type' d r a h =
      let found = balance_of m new d.organization_id d.item_id d.stock_location_id s in
      let (y, j, k) = >>=-eq-ok (withdraw_for_issue m new none d found s) _ r h in
      let (u, j1, e) =
        >>=-eq-ok
          (updated_or insufficient_stock (decrease_available m found.0.id d.quantity found.1)) _ y
          j in
      let k' = rw (← ok-injective _ _ e) at k in
      lose-IsValid m new s v n (issue_transaction type' none d) d.quantity insufficient_stock u r
        (IsWithdrawal-transfer type' a) (IsWithdrawal-signed type' d.quantity a) j1 k'

  -- An issue or a consumption, from the available stock or from a reservation.
  pub issue_atomic-IsValid :
      (type' : InventoryTransactionType) (reserved_id : Option ℕ) (d : StockData)
      (r : Recorded × Store)
      → IsWithdrawal type'
      → issue_atomic m new type' reserved_id d s ≡ ok r
      → IsValid r.1
  unfolding issue_atomic
  issue_atomic-IsValid type' none d r a h = available_issue-IsValid type' d r a h
  issue_atomic-IsValid type' (some c) d r a h =
      let found = balance_of m new d.organization_id d.item_id d.stock_location_id s in
      let (y, j, k) = >>=-eq-ok (withdraw_for_issue m new (some c) d found s) _ r h in
      recorded-IsValid y (issue_transaction type' (some c) d) r k
        (issue_reserved-IsValid type' c d y a j)
