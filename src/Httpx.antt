-- ===== src/Httpx.antt =====
-- internal/httpx: the rate limiter.
pub mod RateLimiter
