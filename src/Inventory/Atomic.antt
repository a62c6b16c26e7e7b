-- ===== src/Inventory/Atomic.antt =====
-- inventory.repository.ts: the atomic operations. Each is the body of a `withTransaction`, run from
-- the collections as they stand: an error keeps nothing of what the body wrote.
pub mod Common
pub mod Reservations
pub mod Issues
pub mod Movements
