-- ===== src/Ratelimit.antt =====
-- pkg/ratelimit: the rate limiting of the API.
pub mod Config
pub mod Memory
