-- ===== src/RateLimiter.antt =====
-- The rate limiter (intelliroute/rate_limiter/).
pub mod Bucket
pub mod Key
pub mod Store
pub mod Election
pub mod Service
mod Tests
