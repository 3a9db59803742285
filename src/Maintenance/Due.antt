-- ===== src/Maintenance/Due.antt =====
-- internal/services/maintenance.go: `GetNextServiceDue`.
pub mod Reported
use vehicle_telematics.Base.{
  ℕ, ◌+◌, ◌-◌, ◌^◌, ◌%◌, ◌≤◌, ◌<◌, String, ◌≡◌, refl, sym, ap, ◌∙◌, inl, inr, Bool, true, false,
  List, [], ◌∷◌, map, Option, none, some, if◌then◌else◌, select, All, Bool-cases, Option-cases,
  arith,
}
use vehicle_telematics.Base.Int.{
  ℤ, pos, negsuc, pos_part, neg_part, ◌+ℤ◌, ◌-ℤ◌, ◌≤ℤ◌, leb_ℤ, wrap64,
}
use vehicle_telematics.Base.Float.{Float}
use vehicle_telematics.Base.Time.{Time}
use vehicle_telematics.Models.{Vehicle}
use vehicle_telematics.Maintenance.Types.{MaintenanceRecord, ServiceReminder, priority_medium}
use vehicle_telematics.Maintenance.Reminders.{calculate_priority}
use vehicle_telematics.Maintenance.Schedules.{Repositories}
use vehicle_telematics.Maintenance.Records.{RecordRepository}

module _ {F : Float} where
  -- The reminder for a vehicle without records.
  unfoldable pub first_reminder : Vehicle F → ServiceReminder
  first_reminder vehicle = record {
    id = "";
    vehicle_id = vehicle.id;
    types = "inspection" ∷ [];
    due_date = none;
    due_odometer = none;
    current_odometer = vehicle.odometer;
    days_until_due = none;
    odometer_until_due = none;
    priority = priority_medium;
    is_overdue = false;
    created_at = 0;
    updated_at = 0;
  }

  unfoldable pub due_reminder : Time → Vehicle F → MaintenanceRecord F → ServiceReminder
  due_reminder now vehicle latest =
      let due = latest.next_service_odometer in
      let km_until_service = wrap64 (due -ℤ vehicle.odometer) in
      record {
        id = "";
        vehicle_id = vehicle.id;
        types = latest.types;
        due_date = none;
        due_odometer = some due;
        current_odometer = vehicle.odometer;
        days_until_due = none;
        odometer_until_due = some km_until_service;
        priority = calculate_priority F latest.next_service_date (some due) vehicle.odometer now;
        is_overdue = leb_ℤ km_until_service (pos 0);
        created_at = now;
        updated_at = now;
      }

  -- A round of the loop, by the records of the vehicle.
  unfoldable pub add_due :
      ℤ
      → Time
      → Vehicle F
      → Option (List (MaintenanceRecord F))
      → List ServiceReminder
      → List ServiceReminder
  add_due threshold_km now vehicle none rest = rest
  add_due threshold_km now vehicle (some []) rest = first_reminder vehicle ∷ rest
  add_due threshold_km now vehicle (some (latest ∷ _)) rest =
      if leb_ℤ (wrap64 (latest.next_service_odometer -ℤ threshold_km)) vehicle.odometer
      then due_reminder now vehicle latest ∷ rest
      else rest

  module _ {W : Type 0} (repo : Repositories F W) (records : RecordRepository F W) where
    unfoldable pub due_each : ℤ → Time → W → List (Vehicle F) → List ServiceReminder
    due_each threshold_km now w [] = []
    due_each threshold_km now w (vehicle ∷ vehicles) =
        add_due threshold_km now vehicle (repo.find_by_vehicle_id vehicle.id w)
          (due_each threshold_km now w vehicles)

    unfoldable pub get_next_service_due : ℤ → Time → W → Option (List ServiceReminder)
    get_next_service_due threshold_km now w = elim (records.find_all_vehicles w) [
      | none ↦ none
      | some vehicles ↦ some (due_each threshold_km now w vehicles)
    ]
