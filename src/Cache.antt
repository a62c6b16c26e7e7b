-- ===== src/Cache.antt =====
-- shared/services/redis.service.ts: the key-value store with expiry that the services keep codes,
-- links and counters in.
pub mod Model
pub mod Local
pub mod Views
pub mod Interface
pub mod Commands
pub mod Refinement
pub mod Tests
