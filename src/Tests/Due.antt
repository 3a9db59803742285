-- ===== src/Tests/Due.antt =====
-- Tests of the vehicles whose service is due.
use vehicle_telematics.Base.{
  lookup, String, ◌≡◌, refl, true, false, List, [], ◌∷◌, map, none, some, if◌then◌else◌, str_eq,
  arith,
}
use vehicle_telematics.Base.Int.{pos, ◌+ℤ◌, ◌-ℤ◌}
use vehicle_telematics.Base.Time.{hour}
use vehicle_telematics.Models.{Vehicle}
use vehicle_telematics.Maintenance.Types.{
  MaintenanceRecord, ServiceReminder, default_service_intervals,
}
use vehicle_telematics.Maintenance.Intervals.{
  shortest_from, shortest_interval, get_service_interval_for_types,
}
use vehicle_telematics.Maintenance.Reminders.{
  hours, days_until, odometer_priority, calculate_priority, count_days, count_odometer,
  update_reminder_status,
}
use vehicle_telematics.Maintenance.Schedules.{
  Repositories, add_pair, add_pairs, calculate_average_daily_mileage, estimate_next_service_date,
}
use vehicle_telematics.Maintenance.Records.{
  RecordRepository, CreateMaintenanceRequest, apply_maintenance_request, create_service_reminder,
  new_record, remind, create_maintenance_record, update_maintenance_record,
  delete_maintenance_record,
}
use vehicle_telematics.Maintenance.Due.{
  first_reminder, due_reminder, add_due, due_each, get_next_service_due,
}
use vehicle_telematics.Maintenance.Due.Reported.{report, get_next_service_due_lem}
use vehicle_telematics.Tests.Numbers.{fixed}
use vehicle_telematics.Tests.Redis.{van}

-- The records, the newest first, and the reminders.
record Files : Type 0 where
  records : List (MaintenanceRecord fixed)
  reminders : List ServiceReminder

abbrev bus : Vehicle fixed
bus = record van { id = "64f1"; odometer = pos 20_300 }

abbrev new_car : Vehicle fixed
new_car = record van { id = "64f2" }

abbrev fleet : List (Vehicle fixed)
fleet = record van { odometer = pos 9_000 } ∷ bus ∷ new_car ∷ []

abbrev of_vehicle : String → List (MaintenanceRecord fixed) → List (MaintenanceRecord fixed)
of_vehicle id [] = []
of_vehicle id (r ∷ rs) = if str_eq r.vehicle_id id then r ∷ of_vehicle id rs else of_vehicle id rs

abbrev repo : Repositories fixed Files
repo = record {
  find_vehicle_by_id = λ id w. some bus;
  object_id_from_hex = λ id. some id;
  find_by_vehicle_id = λ id w. some (of_vehicle id w.records);
  find_schedule_by_id = λ id w. none;
  create = λ s w. (w, true);
  update = λ id s w. (w, true);
  delete = λ id w. (w, true);
}

abbrev files_repo : RecordRepository fixed Files
files_repo = record {
  find_all_vehicles = λ w. some fleet;
  find_by_id = λ id w. none;
  create = λ r w. (record w { records = r ∷ w.records }, some r);
  update = λ id r w. (w, some r);
  delete = λ id w. (w, true);
  create_reminder = λ r w. (record w { reminders = r ∷ w.reminders }, true);
  find_reminders_by_vehicle_id = λ id w. some w.reminders;
}

abbrev oil : CreateMaintenanceRequest fixed
oil = record {
  vehicle_id = "64f1";
  types = "oil_change" ∷ [];
  description = "oil";
  cost = pos 0;
  currency = "KES";
  service_center = "A";
  performed_at = hour;
  odometer = pos 10_000;
  service_interval = none;
  parts_replaced = [];
  notes = "";
  status = "completed";
}

program : Unit {0}
unfolding lookup default_service_intervals shortest_from shortest_interval
    get_service_interval_for_types hours days_until odometer_priority calculate_priority count_days
    count_odometer update_reminder_status add_pair add_pairs calculate_average_daily_mileage
    estimate_next_service_date apply_maintenance_request create_service_reminder new_record remind
    create_maintenance_record update_maintenance_record delete_maintenance_record first_reminder
    due_reminder add_due due_each get_next_service_due ◌+ℤ◌ ◌-ℤ◌
program = tt

abbrev no_files : Files
no_files = record { records = []; reminders = [] }

abbrev filed : Files
filed = (create_maintenance_record repo files_repo oil 0 no_files).0

-- The next service is an interval after the last one, and there is a reminder of it.
next_service :
    map (λ (r : MaintenanceRecord fixed). r.next_service_odometer) filed.records ≡ pos 20_000 ∷ []
unfolding program
next_service = refl

reminded : map (λ (r : ServiceReminder). r.due_odometer) filed.reminders ≡ some (pos 20_000) ∷ []
unfolding program
reminded = refl

abbrev last_oil : MaintenanceRecord fixed
last_oil = record {
  id = "r1";
  vehicle_id = "64f1";
  types = "oil_change" ∷ [];
  description = "oil";
  cost = pos 0;
  currency = "KES";
  service_center = "A";
  performed_at = hour;
  odometer = pos 10_000;
  service_interval = pos 10_000;
  next_service_odometer = pos 20_000;
  next_service_date = none;
  parts_replaced = [];
  notes = "";
  status = "completed";
  created_at = 0;
  updated_at = 0;
}

abbrev older_van : MaintenanceRecord fixed
older_van = record last_oil { vehicle_id = "64f0" }

abbrev world : Files
world = record { records = last_oil ∷ older_van ∷ []; reminders = [] }

-- The van has 11000 km left, the bus is 300 km over, and the new car was never serviced.
get_next_service_due_lem_example :
    (reminders : List ServiceReminder) × (get_next_service_due repo files_repo (pos 1_000) 0 world
      ≡ some reminders)
    × (map report reminders ≡ ("64f1", true) ∷ ("64f2", false) ∷ [])
unfolding ◌+ℤ◌
get_next_service_due_lem_example =
    get_next_service_due_lem repo files_repo (pos 1_000) 0 world fleet refl (refl, omega arith)
      (
        ((refl, omega arith), (refl, omega arith)),
        (((refl, omega arith), (refl, omega arith)), ((refl, omega arith), tt)),
      )
