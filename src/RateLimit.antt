-- ===== src/RateLimit.antt =====
-- internal/ratelimit: the two limiters and the middleware that asks them.
pub mod Limiter
pub mod Calls
pub mod TokenBucket
pub mod SlidingWindow
pub mod FixedWindow
pub mod Middleware
