-- ===== src/Inventory/Service/Issues.antt =====
-- inventory.service.ts: `issue`, for issues and consumptions.
use maintain_pro_backend.Shared.{
  if◌then◌else◌, is_some, leb_ℤ, Exception, authorization, business, conflict, not_found, ℕ, refl,
  Bool, true, false, not, ◌&&◌, ◌||◌, Option, none, some,
}
use maintain_pro_backend.Shared.Mongo.{Mongo}
use maintain_pro_backend.Inventory.Model.{RepositoryError}
use maintain_pro_backend.Inventory.Service.Monad.{
  ◌>>=◌, ◌>>◌, Service, throw, reading, require, publish, pure,
}
use maintain_pro_backend.Inventory.Model.{InventoryTransactionType, Store, RepositoryError, NewIds}
use maintain_pro_backend.Inventory.Service.Model.{
  AuditAction, stock_issued, StockRequest, InventoryItem, stock_consumed, InventoryActor,
  BalanceResponse, thrown, is_stock_role, low_stock, failed, audit_event, balance_response,
}
use maintain_pro_backend.Inventory.Service.Guards.{
  require_work_order, is_duplicate, context, stock_data, repeated_balance,
}
use maintain_pro_backend.Inventory.Service.Receipts.{atomically, answer_or, settle}
use maintain_pro_backend.Inventory.Atomic.Issues.{issue_atomic, consume_source_atomic}
use maintain_pro_backend.Inventory.Preservation.Issues.{IsWithdrawal}

-- The exceptions of the errors of consumeSourceAtomic.
abbrev pub refused_consumption : RepositoryError → Option Exception
refused_consumption RepositoryError.source_transaction_not_found =
    some (not_found "Issue transaction not found")
refused_consumption RepositoryError.consumption_exceeds_source =
    some (conflict "Consumption exceeds issued quantity")
refused_consumption RepositoryError.insufficient_stock =
    some (conflict "Insufficient available inventory")
refused_consumption _ = none

-- The exceptions of the errors of issueAtomic.
abbrev pub refused_issue : RepositoryError → Option Exception
refused_issue RepositoryError.insufficient_stock =
    some (conflict "Insufficient available inventory")
refused_issue RepositoryError.invalid_reservation =
    some (conflict "Reservation is invalid or already completed")
refused_issue _ = none

-- `type: "issue" | "consumption"`
pub data IssueType : Type 0 where
  issue consumption : IssueType

abbrev pub transaction_type : IssueType → InventoryTransactionType
transaction_type IssueType.issue = InventoryTransactionType.issue
transaction_type IssueType.consumption = InventoryTransactionType.consumption

abbrev pub is_consuming : IssueType → Bool
is_consuming IssueType.issue = false
is_consuming IssueType.consumption = true

abbrev pub issue_action : IssueType → AuditAction
issue_action IssueType.issue = stock_issued
issue_action IssueType.consumption = stock_consumed

module _ (m : Mongo) (fresh : Store → NewIds) where
  -- After the mapped errors: the balance of a clashing key, if the transaction is there.
  unfoldable pub answer_repeated : RepositoryError → Option ℕ → ℕ → ℕ → ℕ → Service BalanceResponse
  answer_repeated e key o i l = do
    clashing ←
        reading
          (λ w. if is_some key && is_duplicate e then repeated_balance m key o i l w else none)
    answer_or clashing (throw (failed e))

  unfoldable pub throw_or : Option Exception → Service BalanceResponse → Service BalanceResponse
  throw_or (some e) c = throw (thrown e)
  throw_or none c = c

  unfoldable pub issue_from_source :
      ℕ → ℕ → InventoryItem → StockRequest → InventoryActor → Service BalanceResponse
  unfolding answer_repeated throw_or
  issue_from_source n o item d actor = do
    result ← atomically m fresh (λ new. consume_source_atomic m new n (stock_data o item d actor))
    settle result
        (λ e.
          throw_or (refused_consumption e)
            (answer_repeated e d.idempotency_key o d.item_id d.stock_location_id))
        (λ r. do
          publish (audit_event stock_consumed actor.user_id o r.1.id)
          pure (balance_response r.0))

  -- `if (response.availableQuantity <= item.reorderLevel) await this.events.lowStock(…)`
  unfoldable pub warn_low_stock :
      ℕ → InventoryItem → InventoryActor → BalanceResponse → Service (Unit {0})
  warn_low_stock o item actor r =
      if leb_ℤ r.available_quantity item.reorder_level
      then publish (low_stock o actor.user_id item.id item.name r.available_quantity)
      else pure tt

  unfoldable pub issue_stock :
      IssueType → ℕ → InventoryItem → StockRequest → InventoryActor → Service BalanceResponse
  unfolding answer_repeated throw_or warn_low_stock
  issue_stock type' o item d actor = do
    result ← atomically m fresh (λ new.
        issue_atomic m new (transaction_type type') d.reservation_id (stock_data o item d actor))
    settle result
        (λ e.
          throw_or (refused_issue e)
            (answer_repeated e d.idempotency_key o d.item_id d.stock_location_id))
        (λ r. do
          publish (audit_event (issue_action type') actor.user_id o r.1.id)
          warn_low_stock o item actor (balance_response r.0)
          pure (balance_response r.0))

  -- A consumption of an issue that is named, or else an issue or consumption from the stock.
  unfoldable pub withdraw :
      IssueType
      → Option ℕ
      → ℕ
      → InventoryItem
      → StockRequest
      → InventoryActor
      → Service BalanceResponse
  unfolding issue_from_source issue_stock
  withdraw IssueType.consumption (some n) o item d actor = issue_from_source n o item d actor
  withdraw IssueType.consumption none o item d actor =
      issue_stock IssueType.consumption o item d actor
  withdraw IssueType.issue _ o item d actor = issue_stock IssueType.issue o item d actor

  unfoldable pub issue_new :
      IssueType → ℕ → InventoryItem → StockRequest → InventoryActor → Service BalanceResponse
  unfolding withdraw
  issue_new type' o item d actor = do
    require_work_order m d.work_order_id o
    require
        (not (is_consuming type') || (is_some d.reservation_id || is_some d.source_transaction_id))
        (business "Consumption must reference a reservation or issue transaction")
    withdraw type' d.source_transaction_id o item d actor

  unfoldable pub issue_items : IssueType → StockRequest → InventoryActor → Service BalanceResponse
  unfolding issue_new
  issue_items type' d actor = do
    require (is_stock_role actor.role) (authorization "Inventory issue permission required")
    found ← context m d.item_id d.stock_location_id actor
    repeated ← reading (repeated_balance m d.idempotency_key found.0 d.item_id d.stock_location_id)
    answer_or repeated (issue_new type' found.0 found.1.0 d actor)

pub withdraws : (type' : IssueType) → IsWithdrawal (transaction_type type')
withdraws IssueType.issue = refl
withdraws IssueType.consumption = refl
