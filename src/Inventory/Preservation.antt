-- ===== src/Inventory/Preservation.antt =====
-- Every atomic operation that succeeds keeps the balances in step with the ledger.
pub mod Deltas
pub mod Commits
pub mod Receipts
pub mod Withdrawals
pub mod Holds
pub mod Issues
