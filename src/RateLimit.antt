-- ===== src/RateLimit.antt =====
-- The fixed-window rate limiter of system-design/fixed-window-counter: one module for each of its
-- internal packages.
pub mod Limiter
pub mod Store
pub mod Breaker
pub mod Service
pub mod Middleware
pub mod Config
mod Tests
