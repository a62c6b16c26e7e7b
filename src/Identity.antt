-- ===== src/Identity.antt =====
-- modules/identity/: one-time codes and verification links.
pub mod Otp
pub mod Counters
pub mod OtpLimits
pub mod Links
pub mod LinkLimits
pub mod RateLimit
pub mod RateLimitLaws
pub mod Resends
pub mod Tests
