-- ===== src/RateLimit.antt =====
-- Rate limiting: the policies, the token bucket that Redis runs, and the middleware in front.
pub mod Policy
pub mod Bucket
pub mod Middleware
mod Tests
