-- ===== src/Maintenance.antt =====
-- internal/services/maintenance.go: the service intervals, the schedules and the reminders.
pub mod Types
pub mod Intervals
pub mod Reminders
pub mod Schedules
pub mod Records
pub mod Due
