-- ===== src/Tests/Maintenance.antt =====
-- Tests of the maintenance service, over a repository that is an association list.
use vehicle_telematics.Base.{
  ◌*◌, String, ◌≡◌, refl, sym, ◌∙◌, ◌⊎◌, inl, inr, true, false, List, [], ◌∷◌, none, some, lookup,
  insert, remove, lookup-insert, lookup-remove, str_eq, arith, Bool-cases,
}
use vehicle_telematics.Base.Int.{pos, ◌≤ℤ◌, ◌+ℤ◌, ◌-ℤ◌, ◌*ℤ◌}
use vehicle_telematics.Base.Time.{hour}
use vehicle_telematics.Maintenance.Types.{
  MaintenanceSchedule, ServiceReminder, default_service_intervals,
}
use vehicle_telematics.Maintenance.Intervals.{
  shortest_from, shortest_interval, get_service_interval_for_types, service_interval_lem,
}
use vehicle_telematics.Maintenance.Reminders.{
  hours, days_until, odometer_priority, calculate_priority, count_days, count_odometer,
  update_reminder_status, soon, update_reminder_status_lem,
}
use vehicle_telematics.Maintenance.Schedules.{
  Repositories, UpdateScheduleRequest, set_description, set_interval_km, set_interval_days,
  set_last_odometer, set_last_date, set_service_center, set_active, apply_update, update_schedule,
  delete_schedule,
}
use vehicle_telematics.Maintenance.Schedules.Aligned.{
  updates, deletes, handle, handle_all, SameKm, Stores, AllAligned, handle_all-AllAligned,
  apply_update-date,
}
use vehicle_telematics.Tests.Numbers.{fixed}

program : Unit {0}
unfolding lookup insert remove default_service_intervals shortest_from shortest_interval
    get_service_interval_for_types hours days_until odometer_priority calculate_priority count_days
    count_odometer update_reminder_status soon set_description set_interval_km set_interval_days
    set_last_odometer set_last_date set_service_center set_active apply_update update_schedule
    delete_schedule handle handle_all ◌+ℤ◌ ◌-ℤ◌ ◌*ℤ◌
program = tt

two_types :
    get_service_interval_for_types ("air_filter" ∷ "oil_change" ∷ "repair" ∷ []) none ≡ pos 10_000
unfolding program
two_types = refl

-- The one type whose interval is as long as the start of the search gets the interval of unknown types.
belt_only : get_service_interval_for_types ("belt_replacement" ∷ []) none ≡ pos 10_000
unfolding program
belt_only = refl

service_interval_lem_example :
    get_service_interval_for_types ("air_filter" ∷ "oil_change" ∷ []) none ≤ℤ pos 20_000
unfolding program
service_interval_lem_example =
    ((service_interval_lem ("air_filter" ∷ "oil_change" ∷ []) none).1 (λ c e. absurd (cc))).0.0
      (pos 20_000) refl

-- Its date is 20 days ahead, and its odometer is 500 km over.
abbrev reminder : ServiceReminder
reminder = record {
  id = "";
  vehicle_id = "v1";
  types = [];
  due_date = some (480 * hour);
  due_odometer = some (pos 10_000);
  current_odometer = pos 10_500;
  days_until_due = none;
  odometer_until_due = none;
  priority = "";
  is_overdue = false;
  created_at = 0;
  updated_at = 0;
}

overdue : (update_reminder_status fixed 0 reminder).is_overdue ≡ true
unfolding program
overdue = refl

medium : (update_reminder_status fixed 0 reminder).priority ≡ "medium"
unfolding program
medium = refl

update_reminder_status_lem_example :
    str_eq (update_reminder_status fixed 0 reminder).priority "urgent" ≡ false
unfolding program
update_reminder_status_lem_example = update_reminder_status_lem fixed 0 reminder refl

abbrev Table : Type 0
Table = List (String × MaintenanceSchedule)

abbrev repo : Repositories fixed Table
repo = record {
  find_vehicle_by_id = λ k w. none;
  object_id_from_hex = λ k. some k;
  find_by_vehicle_id = λ k w. some [];
  find_schedule_by_id = λ id w. lookup id w;
  create = λ s w. (insert "new" s w, true);
  update = λ id s w. (insert id s w, true);
  delete = λ id w. (remove id w, true);
}

new_or_old :
    (j : String) (s : MaintenanceSchedule) (w : Table) (id : String) (t : MaintenanceSchedule)
    → lookup id (insert j s w) ≡ some t
    → SameKm repo s t ⊎ (lookup id w ≡ some t)
new_or_old j s w id t e = elim (Bool-cases (str_eq j id)) [
  | inl same ↦ inl (
      let found = lookup-insert j id s w in
      let is : some s ≡ some t = sym (rw same at found) ∙ e in
      let s_t : s ≡ t = cc in rw s_t (refl, refl, refl))
  | inr other ↦ inr (let found = lookup-insert j id s w in sym (rw other at found) ∙ e)
]

repo-Stores : Stores repo
repo-Stores = record {
  create_found = new_or_old "new";
  update_found = new_or_old;
  delete_found = λ j w id t e. ground (arith, lookup-remove j id w);
}

abbrev schedule : MaintenanceSchedule
schedule = record {
  id = "s1";
  vehicle_id = "v1";
  types = [];
  description = "";
  interval_km = pos 10_000;
  interval_days = none;
  last_service_odometer = pos 5_000;
  last_service_date = hour;
  next_service_odometer = pos 15_000;
  next_service_date = some (480 * hour);
  service_center_name = "";
  is_active = true;
  created_at = 0;
  updated_at = 0;
}

abbrev longer : UpdateScheduleRequest
longer = record {
  description = "";
  interval_km = some (pos 20_000);
  interval_days = some (pos 30);
  last_service_odometer = some (pos 6_000);
  last_service_date = none;
  service_center_name = "";
  is_active = none;
}

start : AllAligned repo (("s1", schedule) ∷ [])
unfolding program
start id s e = elim (Bool-cases (str_eq "s1" id)) [
  | inl same ↦
      let is : some schedule ≡ some s = rw same at e in let s_t : schedule ≡ s = cc in rw⁻¹ s_t refl
  | inr other ↦ absurd (let no = rw other at e in cc)
]

handle_all-AllAligned_example :
    AllAligned repo
      (handle_all repo (updates "s1" longer ∷ deletes "s2" ∷ []) (("s1", schedule) ∷ []))
handle_all-AllAligned_example =
    handle_all-AllAligned repo repo-Stores (updates "s1" longer ∷ deletes "s2" ∷ [])
      (("s1", schedule) ∷ []) start

apply_update-date_example : (apply_update longer schedule).next_service_date ≡ some (480 * hour)
unfolding program
apply_update-date_example = apply_update-date longer schedule
