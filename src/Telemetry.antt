-- ===== src/Telemetry.antt =====
-- pkg/telemetry: what a vehicle may send, what is worth sending, when, and the service that asks.
pub mod RateLimiter
pub mod Delta
pub mod Scheduler
pub mod Service
