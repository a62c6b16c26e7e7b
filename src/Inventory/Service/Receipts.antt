-- ===== src/Inventory/Service/Receipts.antt =====
-- inventory.service.ts: `receive`, `reserve` and `adjust`.
use maintain_pro_backend.Shared.{
  if◌then◌else◌, is_some, Result, ok, err, authorization, conflict, ℕ, Bool, true, false, ◌&&◌,
  Option, none, some,
}
use maintain_pro_backend.Shared.Mongo.{Mongo}
use maintain_pro_backend.Inventory.Model.{RepositoryError}
use maintain_pro_backend.Inventory.Service.Monad.{
  ◌>>=◌, ◌>>◌, Service, attempt, throw, pure, reading, require, publish,
}
use maintain_pro_backend.Inventory.Model.{
  RepositoryError, Store, StockBalance, InventoryReservation, NewIds,
}
use maintain_pro_backend.Inventory.Service.Model.{
  StockRequest, World, InventoryItem, BalanceResponse, balance_response, thrown, InventoryActor,
  failed, is_stock_role, audit_event, stock_received, stock_reserved, stock_adjusted,
}
use maintain_pro_backend.Inventory.Service.Guards.{
  existing_transaction, is_duplicate, clashing_balance, require_work_order, found_by, context,
  stock_data, repeated_balance,
}
use maintain_pro_backend.Inventory.Atomic.Movements.{receive_atomic, adjust_atomic}
use maintain_pro_backend.Inventory.Balances.{find_reservation}
use maintain_pro_backend.Inventory.Atomic.Reservations.{reserve_atomic}

-- `if (balance) return this.balanceResponse(balance)`
unfoldable pub answer_or : Option StockBalance → Service BalanceResponse → Service BalanceResponse
answer_or (some b) c = pure (balance_response b)
answer_or none c = c

unfoldable pub reservation_or :
    Option InventoryReservation → Service InventoryReservation → Service InventoryReservation
reservation_or (some r) c = pure r
reservation_or none c = c

-- `try { result = … } catch (error) { … }`
unfoldable pub settle :
    {A B : Type 0}
    → Result RepositoryError A
    → (RepositoryError → Service B)
    → (A → Service B)
    → Service B
settle (ok a) f g = g a
settle (err e) f g = f e

abbrev pub is_insufficient : RepositoryError → Bool
is_insufficient RepositoryError.insufficient_stock = true
is_insufficient _ = false

module _ (m : Mongo) (fresh : Store → NewIds) where
  -- The body of an atomic operation in its transaction.
  abbrev pub atomically :
      {A : Type 0}
      → (NewIds → Store → Result RepositoryError (A × Store))
      → Service (Result RepositoryError A)
  atomically f = attempt (λ s. m.with_transaction (f (fresh s)) s)

  -- The answer to a clash of keys, or else the error itself.
  unfoldable pub answer_clash : RepositoryError → Option ℕ → ℕ → ℕ → ℕ → Service BalanceResponse
  answer_clash e key o i l = do
    clashing ← reading (clashing_balance m e key o i l)
    answer_or clashing (throw (failed e))

  unfoldable pub receive_new :
      ℕ → InventoryItem → StockRequest → InventoryActor → Service BalanceResponse
  unfolding answer_clash
  receive_new o item d actor = do
    result ← atomically (λ new. receive_atomic m new (stock_data o item d actor))
    settle result (λ e. answer_clash e d.idempotency_key o d.item_id d.stock_location_id)
        (λ r. do
          publish (audit_event stock_received actor.user_id o r.1.id)
          pure (balance_response r.0))

  unfoldable pub receive : StockRequest → InventoryActor → Service BalanceResponse
  unfolding receive_new
  receive d actor = do
    found ← context m d.item_id d.stock_location_id actor
    repeated ← reading (repeated_balance m d.idempotency_key found.0 d.item_id d.stock_location_id)
    answer_or repeated (receive_new found.0 found.1.0 d actor)

  -- The reservation of the transaction that bears the key.
  unfoldable pub repeated_reservation : Option ℕ → ℕ → World → Option InventoryReservation
  repeated_reservation key o w = elim (existing_transaction m key o w) [
    | none ↦ none
    | some t ↦ found_by t.reservation_id (λ n. find_reservation m n o w.store.reservations)
  ]

  unfoldable pub refuse_reservation : RepositoryError → Option ℕ → ℕ → Service InventoryReservation
  unfolding repeated_reservation
  refuse_reservation e key o =
      if is_insufficient e
      then throw (thrown (conflict "Insufficient available inventory"))
      else (do
        clashing ←
            reading
              (λ w. if is_some key && is_duplicate e then repeated_reservation key o w else none)
        reservation_or clashing (throw (failed e)))

  unfoldable pub reserve_new :
      ℕ → InventoryItem → StockRequest → InventoryActor → Service InventoryReservation
  unfolding refuse_reservation
  reserve_new o item d actor = do
    require_work_order m d.work_order_id o
    result ← atomically (λ new. reserve_atomic m new (stock_data o item d actor))
    settle result (λ e. refuse_reservation e d.idempotency_key o)
        (λ r. do publish (audit_event stock_reserved actor.user_id o r.1.id); pure r.0)

  unfoldable pub reserve : StockRequest → InventoryActor → Service InventoryReservation
  unfolding repeated_reservation reserve_new
  reserve d actor = do
    require (is_stock_role actor.role) (authorization "Inventory reservation permission required")
    found ← context m d.item_id d.stock_location_id actor
    repeated ← reading (repeated_reservation d.idempotency_key found.0)
    reservation_or repeated (reserve_new found.0 found.1.0 d actor)

  unfoldable pub adjust_new :
      ℕ → InventoryItem → StockRequest → InventoryActor → Service BalanceResponse
  unfolding answer_clash
  adjust_new o item d actor = do
    result ← atomically (λ new. adjust_atomic m new (stock_data o item d actor))
    settle result
        (λ e.
          if is_insufficient e
          then throw (thrown (conflict "Adjustment would create negative available stock"))
          else answer_clash e d.idempotency_key o d.item_id d.stock_location_id)
        (λ r. do
          publish (audit_event stock_adjusted actor.user_id o r.1.id)
          pure (balance_response r.0))

  unfoldable pub adjust : StockRequest → InventoryActor → Service BalanceResponse
  unfolding adjust_new
  adjust d actor = do
    found ← context m d.item_id d.stock_location_id actor
    repeated ← reading (repeated_balance m d.idempotency_key found.0 d.item_id d.stock_location_id)
    answer_or repeated (adjust_new found.0 found.1.0 d actor)
