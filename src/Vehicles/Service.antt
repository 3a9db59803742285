-- ===== src/Vehicles/Service.antt =====
-- internal/services/vehicle.go: the handlers, and what the cache does to their answers.
pub mod Defs
pub mod Fresh
pub mod Handle
pub mod Reads
pub mod Changes
pub mod Transparent
pub mod OnRedis
