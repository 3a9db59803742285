-- ===== src/Vehicles.antt =====
-- internal/services/vehicle.go.
pub mod Requests
pub mod Alerts
pub mod Caching
pub mod Service
