-- ===== src/Inventory/Service/Requests.antt =====
-- inventory.service.ts: the calls of the service's stock operations, each with its arguments.
use maintain_pro_backend.Shared.{pos, ◌≤ℤ◌, ℕ, Bool, true, false, Option, none}
use maintain_pro_backend.Shared.Mongo.{Mongo}
use maintain_pro_backend.Inventory.Service.Monad.{◌>>◌, Service, pure}
use maintain_pro_backend.Inventory.Service.Model.{
  StockRequest, InventoryActor, TransferRequest, ReturnRequest,
}
use maintain_pro_backend.Inventory.Model.{Store, NewIds}
use maintain_pro_backend.Inventory.Service.Issues.{IssueType, issue_items}
use maintain_pro_backend.Inventory.Service.Movements.{return_stock}
use maintain_pro_backend.Inventory.Service.Receipts
use maintain_pro_backend.Inventory.Service.Movements

pub data Request : Type 0 where
  receive_request reserve_request adjust_request : StockRequest → Request
  issue_request : IssueType → StockRequest → Request
  release_request : ℕ → Request
  transfer_request : TransferRequest → Request
  return_request : ReturnRequest → Request

module _ (m : Mongo) (fresh : Store → NewIds) where
  -- The service's method, its response forgotten.
  unfoldable pub handle : Request → InventoryActor → Service (Unit {0})
  handle (receive_request d) actor = Receipts.receive m fresh d actor >> pure tt
  handle (reserve_request d) actor = Receipts.reserve m fresh d actor >> pure tt
  handle (adjust_request d) actor = Receipts.adjust m fresh d actor >> pure tt
  handle (issue_request type' d) actor = issue_items m fresh type' d actor >> pure tt
  handle (release_request n) actor = Movements.release m fresh n actor >> pure tt
  handle (transfer_request d) actor = Movements.transfer m fresh d actor >> pure tt
  handle (return_request d) actor = return_stock m fresh d actor >> pure tt

-- A request for whole quantities that the schemas of the routes let pass: a positive quantity, or any
-- adjustment. (The schemas admit fractions as well.)
abbrev pub IsWellFormed : Request → Type 0
IsWellFormed (receive_request d) = pos 1 ≤ℤ d.quantity
IsWellFormed (reserve_request d) = pos 1 ≤ℤ d.quantity
IsWellFormed (issue_request _ d) = pos 1 ≤ℤ d.quantity
IsWellFormed (transfer_request d) = pos 1 ≤ℤ d.quantity
IsWellFormed (return_request d) = pos 1 ≤ℤ d.quantity
IsWellFormed (adjust_request _) = Unit
IsWellFormed (release_request _) = Unit

abbrev pub is_transfer_request : Request → Bool
is_transfer_request (transfer_request _) = true
is_transfer_request _ = false

-- The idempotency key of a request.
abbrev pub request_key : Request → Option ℕ
request_key (receive_request d) = d.idempotency_key
request_key (reserve_request d) = d.idempotency_key
request_key (adjust_request d) = d.idempotency_key
request_key (issue_request _ d) = d.idempotency_key
request_key (release_request _) = none
request_key (transfer_request d) = d.idempotency_key
request_key (return_request d) = d.idempotency_key
