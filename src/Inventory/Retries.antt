-- ===== src/Inventory/Retries.antt =====
-- inventory.repository.ts: a repeated idempotency key, which the ledger's unique index refuses.
use maintain_pro_backend.Shared.{
  same_id, any, ◌+ℤ◌, ltb_ℤ, Result, ok, err, ◌>>=◌, throw_if, or_throw, total, ℕ, ◌≡◌, refl, Bool,
  true, false, not, ◌&&◌, Option, none, List, [], ◌∷◌, arith,
}
use maintain_pro_backend.Shared.Mongo.{
  Mongo, insert_checked, commit, duplicate_key, invalid_document,
}
use maintain_pro_backend.Inventory.Model.{
  InventoryTransaction, Store, NewIds, RepositoryError, InventoryReservation, ReturnData,
  InventoryTransactionType, StockBalance, StockData, TransferData, write, insufficient_stock,
  receipt_balance_update_failed, is_at, source_transaction_not_found, consumption_exceeds_source,
  return_exceeds_source, return_balance_update_failed,
}
use maintain_pro_backend.Inventory.Operations.{Operation, run, body, held, recorded}
use maintain_pro_backend.Inventory.Balances.{
  written, create_transaction, same_key, is_empty, find_returns, find_consumptions,
  find_transaction, reserve_balance, increase_balance, has_available, subtract_quantity,
  decrease_available,
}
use maintain_pro_backend.Inventory.Atomic.Issues.{
  consume_source_atomic, issue_atomic, withdraw_for_issue, is_not_source, consumption_transaction,
}
use maintain_pro_backend.Inventory.Atomic.Reservations.{reserve_atomic, reservation_transaction}
use maintain_pro_backend.Inventory.Atomic.Movements.{
  transfer_atomic, return_atomic, receive_atomic, adjust_atomic, transfer_transaction,
  adjust_balance, is_returnable, return_transaction,
}
use maintain_pro_backend.Inventory.Atomic.Common.{
  Recorded, record_transaction, balance_of, updated_or, stock_transaction, quantity_of,
}

abbrev pub IsErr : {A : Type 0} → Result RepositoryError A → Type 0
IsErr r = (e : RepositoryError) × (r ≡ err e)

>>=-IsErr :
    {A B : Type 0} (r : Result RepositoryError A) (f : A → Result RepositoryError B)
    → ((a : A) → IsErr (f a))
    → IsErr (r >>= f)
>>=-IsErr (ok a) f k = k a
>>=-IsErr (err e) f k = (e, refl)

first-IsErr :
    {A B : Type 0} (r : Result RepositoryError A) (f : A → Result RepositoryError B)
    → IsErr r
    → IsErr (r >>= f)
first-IsErr r f (e, h) = (e, rw h refl)

refused_insert :
    {D : Type 0} (valid : Bool) (clashes : D → Bool) (d : D) (ds : List D)
    → any clashes ds ≡ true
    → IsErr (written (insert_checked valid clashes d ds))
refused_insert true clashes d ds h = (write duplicate_key, ground arith)
refused_insert false clashes d ds h = (write invalid_document, ground arith)

refused :
    (m : Mongo) (t : InventoryTransaction) (ts : List InventoryTransaction)
    → any (same_key t) ts ≡ true
    → IsErr (create_transaction m t ts)
unfolding create_transaction
refused m t ts h =
    rw (m.create_lem (not (is_empty t.unit_of_measure)) (same_key t) t ts)
      (refused_insert (not (is_empty t.unit_of_measure)) (same_key t) t ts h)

-- The idempotency key that an operation writes.
abbrev pub key_of : Operation → Option ℕ
key_of (Operation.receive d) = d.idempotency_key
key_of (Operation.adjust d) = d.idempotency_key
key_of (Operation.reserve d) = d.idempotency_key
key_of (Operation.issue _ _ d) = d.idempotency_key
key_of (Operation.consume_source _ d) = d.idempotency_key
key_of (Operation.release _) = none
key_of (Operation.return d) = d.idempotency_key
key_of (Operation.transfer d) = d.idempotency_key

-- A transaction of the ledger bears the key.
abbrev pub is_used : Option ℕ → List InventoryTransaction → Bool
is_used k ts = any (λ t. same_id k t.idempotency_key) ts

recorded-IsErr : (x : Result RepositoryError (Recorded × Store)) → IsErr x → IsErr (recorded x)
recorded-IsErr x (e, h) = (e, rw h refl)

held-IsErr :
    (x : Result RepositoryError ((InventoryReservation × InventoryTransaction) × Store))
    → IsErr x
    → IsErr (held x)
held-IsErr x (e, h) = (e, rw h refl)

commit-IsErr :
    {A : Type 0} (s : Store) (x : Result RepositoryError (A × Store))
    → IsErr x
    → (e : RepositoryError) × (commit s x ≡ (err e, s))
commit-IsErr s x (e, h) = (e, rw h refl)

pub transaction-IsErr :
    {A : Type 0} (m : Mongo) (f : Store → Result RepositoryError (A × Store)) (s : Store)
    → IsErr (f s)
    → (m.with_transaction f s).1 ≡ s
transaction-IsErr m f s (e, h) = rw (m.with_transaction_lem f s, h) refl

pub unused_key : (ts : List InventoryTransaction) → ¬ (is_used none ts ≡ true)
unused_key [] h = cc
unused_key (t ∷ ts) h = unused_key ts h

module _ (m : Mongo) (new : NewIds) where
  record-IsErr :
      (u : StockBalance × List StockBalance) (t : InventoryTransaction) (s : Store)
      → any (same_key t) s.transactions ≡ true
      → IsErr (record_transaction m new u t s)
  unfolding record_transaction
  record-IsErr (b, bs) t s h =
      first-IsErr (create_transaction m t s.transactions) _ (refused m t s.transactions h)

  pub withdrawn-IsErr :
      (type' : InventoryTransactionType) (n : Option ℕ) (d : StockData) (s : Store)
      → is_used d.idempotency_key s.transactions ≡ true
      → IsErr (issue_atomic m new type' n d s)
  unfolding issue_atomic
  withdrawn-IsErr type' n d s h =
      >>=-IsErr
        (withdraw_for_issue m new n d
          (balance_of m new d.organization_id d.item_id d.stock_location_id s) s)
        _
        (λ w.
          record-IsErr w.0
            (record (stock_transaction new.transaction_id d type') { reservation_id = n })
            (record s { reservations = w.1 }) h)

  pub stock-IsErr :
      (d : StockData) (s : Store)
      → is_used d.idempotency_key s.transactions ≡ true
      → IsErr (receive_atomic m new d s) × IsErr (adjust_atomic m new d s)
  unfolding receive_atomic adjust_atomic
  stock-IsErr d s h =
      let found = balance_of m new d.organization_id d.item_id d.stock_location_id s in
      (
        >>=-IsErr
            (updated_or receipt_balance_update_failed
              (increase_balance m found.0.id d.quantity found.1))
            _
            (λ u.
              record-IsErr u
                (stock_transaction new.transaction_id d InventoryTransactionType.receipt) s h),
        >>=-IsErr
            (updated_or insufficient_stock (adjust_balance m new d.quantity found.0.id found.1)) _
            (λ u.
              record-IsErr u
                (stock_transaction new.transaction_id d InventoryTransactionType.adjustment) s h),
      )

  pub reserve-IsErr :
      (d : StockData) (s : Store)
      → is_used d.idempotency_key s.transactions ≡ true
      → IsErr (reserve_atomic m new d s)
  unfolding reserve_atomic
  reserve-IsErr d s h =
      let found = balance_of m new d.organization_id d.item_id d.stock_location_id s in
      >>=-IsErr (updated_or insufficient_stock (reserve_balance m found.0.id d.quantity found.1)) _
        (λ u.
          first-IsErr (create_transaction m (reservation_transaction m new d) s.transactions) _
            (refused m (reservation_transaction m new d) s.transactions h))

  pub consume-IsErr :
      (n : ℕ) (d : StockData) (s : Store)
      → is_used d.idempotency_key s.transactions ≡ true
      → IsErr (consume_source_atomic m new n d s)
  unfolding consume_source_atomic
  consume-IsErr n d s h =
      let found = balance_of m new d.organization_id d.item_id d.stock_location_id s in
      let consumed = total quantity_of (find_consumptions m n d.organization_id s.transactions) in
      >>=-IsErr
        (or_throw (find_transaction m n d.organization_id s.transactions)
          source_transaction_not_found)
        _
        (λ source.
          >>=-IsErr (throw_if (is_not_source m new d source) source_transaction_not_found) _ (λ _.
            >>=-IsErr
              (throw_if (ltb_ℤ source.quantity (consumed +ℤ d.quantity)) consumption_exceeds_source)
              _
              (λ _.
                >>=-IsErr
                  (updated_or insufficient_stock
                    (decrease_available m found.0.id d.quantity found.1))
                  _ (λ u. record-IsErr u (consumption_transaction m new d source.id) s h))))

  pub return-IsErr :
      (d : ReturnData) (s : Store)
      → is_used d.idempotency_key s.transactions ≡ true
      → IsErr (return_atomic m new d s)
  unfolding return_atomic
  return-IsErr d s h =
      let returned =
        total quantity_of
          (find_returns m d.original_transaction_id d.organization_id s.transactions) in
      >>=-IsErr
        (or_throw (find_transaction m d.original_transaction_id d.organization_id s.transactions)
          source_transaction_not_found)
        _
        (λ original.
          let found =
            balance_of m new d.organization_id original.item_id original.stock_location_id s in
          >>=-IsErr (throw_if (not (is_returnable m new original)) source_transaction_not_found) _
            (λ _.
              >>=-IsErr
                (throw_if (ltb_ℤ original.quantity (returned +ℤ d.quantity)) return_exceeds_source)
                _
                (λ _.
                  >>=-IsErr
                    (updated_or return_balance_update_failed
                      (increase_balance m found.0.id d.quantity found.1))
                    _ (λ u. record-IsErr u (return_transaction m new d original) s h))))

  pub transfer-IsErr :
      (d : TransferData) (s : Store)
      → is_used d.idempotency_key s.transactions ≡ true
      → IsErr (transfer_atomic m new d s)
  unfolding transfer_atomic
  transfer-IsErr d s h =
      >>=-IsErr
        (updated_or insufficient_stock (
          m.find_one_and_update
            (λ b.
              is_at d.organization_id d.item_id d.source_location_id b
              && has_available d.quantity b)
            (subtract_quantity d.quantity) s.balances))
        _
        (λ u.
          first-IsErr (create_transaction m (transfer_transaction m new d) s.transactions) _
            (refused m (transfer_transaction m new d) s.transactions h))

  body-IsErr :
      (op : Operation) (s : Store)
      → is_used (key_of op) s.transactions ≡ true
      → IsErr (body m new op s)
  unfolding body
  body-IsErr (Operation.receive d) s h = recorded-IsErr _ (stock-IsErr d s h).0
  body-IsErr (Operation.adjust d) s h = recorded-IsErr _ (stock-IsErr d s h).1
  body-IsErr (Operation.reserve d) s h = held-IsErr _ (reserve-IsErr d s h)
  body-IsErr (Operation.issue type' n d) s h = recorded-IsErr _ (withdrawn-IsErr type' n d s h)
  body-IsErr (Operation.consume_source n d) s h = recorded-IsErr _ (consume-IsErr n d s h)
  body-IsErr (Operation.release d) s h = absurd (unused_key s.transactions h)
  body-IsErr (Operation.return d) s h = recorded-IsErr _ (return-IsErr d s h)
  body-IsErr (Operation.transfer d) s h = transfer-IsErr d s h

  -- An operation whose idempotency key the ledger already bears throws, and leaves the store as it was.
  pub repeated-no_change :
      (op : Operation) (s : Store)
      → is_used (key_of op) s.transactions ≡ true
      → (e : RepositoryError) × (run m new op s ≡ (err e, s))
  unfolding run
  repeated-no_change op s h =
      rw (m.with_transaction_lem (body m new op) s)
        (commit-IsErr s (body m new op s) (body-IsErr op s h))
