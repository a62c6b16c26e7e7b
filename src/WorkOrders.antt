-- ===== src/WorkOrders.antt =====
-- modules/work-orders: the life of a work order.
pub mod Model
pub mod Actions
pub mod Stages
pub mod Lifecycle
pub mod Transitions
pub mod Authority
pub mod Tests
