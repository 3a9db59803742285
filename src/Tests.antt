-- ===== src/Tests.antt =====
-- Runs on concrete inputs, and the theorems at inputs that meet their hypotheses.
mod Numbers
mod Redis
mod Fleet
mod Vehicles
mod Alerts
mod Users
mod Limiter
mod Delta
mod Scheduler
mod Batch
mod Socket
mod Maintenance
mod Due
mod Ratelimit
mod Service
