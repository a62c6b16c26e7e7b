-- ===== src/Money.antt =====
-- shared/money/money.ts: amounts in minor units and as decimals.
pub mod Currency
pub mod Floating
pub mod Conversion
pub mod RoundTrip
pub mod Tests
