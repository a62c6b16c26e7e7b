-- ===== src/Inventory/Service.antt =====
-- inventory.service.ts: the stock operations around the repository, with their guards, the retry by
-- idempotency key, the errors they throw and the facts they publish.
pub mod Model
pub mod Monad
pub mod Guards
pub mod Receipts
pub mod Issues
pub mod Movements
pub mod Requests
pub mod Keeps
pub mod Sound
pub mod Handled
pub mod Access
pub mod Tests
