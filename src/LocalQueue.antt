-- ===== src/LocalQueue.antt =====
-- infrastructure/local-queue/local-task-queue.ts: a buffer of tasks of which a few run at once.
pub mod Queue
pub mod Order
pub mod Tests
