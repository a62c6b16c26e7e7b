-- ===== src/Billing.antt =====
-- modules/billing/: the life of a subscription.
pub mod Model
pub mod Service
pub mod Lifecycle
pub mod Webhooks
pub mod Tests
