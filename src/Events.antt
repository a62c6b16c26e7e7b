-- ===== src/Events.antt =====
-- infrastructure/events/: events that are stored with the change they tell of, relayed to a queue,
-- and handled once.
pub mod Outbox
pub mod Claims
pub mod Leases
pub mod Relay
pub mod Processed
pub mod Handling
pub mod Granting
pub mod Tests
