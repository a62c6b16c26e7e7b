-- ===== src/Inventory.antt =====
-- modules/inventory: stock balances, reservations and the ledger of transactions.
pub mod Model
pub mod Balances
pub mod Atomic
pub mod Ledger
pub mod Valid
pub mod Steps
pub mod Updates
pub mod Preservation
pub mod Reconciliation
pub mod Transfers
pub mod Releases
pub mod Operations
pub mod Retries
pub mod Service
pub mod Tests
