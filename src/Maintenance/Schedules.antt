-- ===== src/Maintenance/Schedules.antt =====
-- internal/services/maintenance.go: the schedules, and the estimate of the next service's date. The
-- repositories are a parameter, on a state W of the database.
pub mod Aligned
use vehicle_telematics.Base.{
  ℕ, ◌*◌, String, Bool, true, false, ◌&&◌, List, [], ◌∷◌, Option, none, some, if◌then◌else◌, ltb,
  length, str_eq,
}
use vehicle_telematics.Base.Int.{ℤ, pos, pos_part, ◌+ℤ◌, ◌-ℤ◌, ◌*ℤ◌, ltb_ℤ, wrap64}
use vehicle_telematics.Base.Float.{Float}
use vehicle_telematics.Base.Time.{Time, hour}
use vehicle_telematics.Models.{Vehicle}
use vehicle_telematics.Maintenance.Types.{MaintenanceRecord, MaintenanceSchedule}
use vehicle_telematics.Maintenance.Reminders.{hours}

-- What the service calls. A look-up answers `none`, and a change `false`, where the source's error
-- is not nil.
pub record Repositories (F : Float) (W : Type 0) : Type 0 where
  pub find_vehicle_by_id : String → W → Option (Vehicle F)
  pub object_id_from_hex : String → Option String
  pub find_by_vehicle_id : String → W → Option (List (MaintenanceRecord F))
  pub find_schedule_by_id : String → W → Option MaintenanceSchedule
  pub create : MaintenanceSchedule → W → W × Bool
  pub update : String → MaintenanceSchedule → W → W × Bool
  pub delete : String → W → W × Bool

pub data ServiceError : Type 0 where
  vehicle_not_found invalid_vehicle_id schedule_not_found repository_failed : ServiceError

pub data Result (A : Type 0) : Type 0 where
  ok : A → Result A
  failed : ServiceError → Result A

pub record CreateScheduleRequest : Type 0 where
  pub vehicle_id : String
  pub types : List String
  pub description : String
  pub interval_km : ℤ
  pub interval_days : Option ℤ
  pub last_service_odometer : ℤ
  pub last_service_date : Time
  pub service_center_name : String

pub record UpdateScheduleRequest : Type 0 where
  pub description : String
  pub interval_km : Option ℤ
  pub interval_days : Option ℤ
  pub last_service_odometer : Option ℤ
  pub last_service_date : Option Time
  pub service_center_name : String
  pub is_active : Option Bool

-- `AddDate(0, 0, days)`, for a time zone whose days all have 24 hours, and no earlier than time 0.
abbrev pub add_days : Time → ℤ → Time
add_days t days = pos_part (pos t +ℤ days *ℤ pos (24 * hour))

module _ {F : Float} where
  -- The body of the loop of `calculateAverageDailyMileage`.
  unfoldable pub add_pair :
      MaintenanceRecord F → MaintenanceRecord F → ℤ × F.Carrier → ℤ × F.Carrier
  add_pair current previous (total_mileage, total_days) =
      let mileage_diff = wrap64 (current.odometer -ℤ previous.odometer) in
      let days_diff =
        F.div (hours F (pos current.performed_at -ℤ pos previous.performed_at)) (F.lit 24 0) in
      if ltb_ℤ (pos 0) mileage_diff && F.lt (F.lit 0 0) days_diff
      then (wrap64 (total_mileage +ℤ mileage_diff), F.add total_days days_diff)
      else (total_mileage, total_days)

  unfoldable pub add_pairs : List (MaintenanceRecord F) → ℤ × F.Carrier → ℤ × F.Carrier
  unfolding add_pair
  add_pairs [] totals = totals
  add_pairs (current ∷ []) totals = totals
  add_pairs (current ∷ previous ∷ records) totals =
      add_pairs (previous ∷ records) (add_pair current previous totals)

module _ {F : Float} {W : Type 0} (repo : Repositories F W) where
  unfoldable pub calculate_average_daily_mileage : String → W → F.Carrier
  unfolding add_pairs
  calculate_average_daily_mileage vehicle_id w = elim (repo.find_by_vehicle_id vehicle_id w) [
    | none ↦ F.lit 0 0
    | some records ↦
        let (total_mileage, total_days) = add_pairs records (pos 0, F.lit 0 0) in
        if ltb (length records) 2
        then F.lit 0 0
        else if F.lt (F.lit 0 0) total_days
        then F.div (F.of_int total_mileage) total_days
        else F.lit 0 0
  ]

  unfoldable pub estimate_next_service_date : Vehicle F → ℤ → ℤ → Time → W → Time
  unfolding calculate_average_daily_mileage
  estimate_next_service_date vehicle current_odometer next_service_odometer now w =
      let km_until_service = wrap64 (next_service_odometer -ℤ current_odometer) in
      let average = calculate_average_daily_mileage vehicle.id w in
      let avg_daily_mileage = if F.le average (F.lit 0 0) then F.lit 50 0 else average in
      let days = F.mul (F.div (F.of_int km_until_service) avg_daily_mileage) (F.lit 11 1) in
      add_days now (F.trunc days)

  unfoldable pub create_schedule : CreateScheduleRequest → Time → W → W × Result MaintenanceSchedule
  unfolding estimate_next_service_date
  create_schedule req now w = elim (repo.find_vehicle_by_id req.vehicle_id w) [
    | none ↦ (w, failed vehicle_not_found)
    | some vehicle ↦ elim (repo.object_id_from_hex req.vehicle_id) [
      | none ↦ (w, failed invalid_vehicle_id)
      | some vehicle_id ↦
          let next_service_odometer = wrap64 (req.last_service_odometer +ℤ req.interval_km) in
          let schedule : MaintenanceSchedule = record {
            id = "";
            vehicle_id = vehicle_id;
            types = req.types;
            description = req.description;
            interval_km = req.interval_km;
            interval_days = req.interval_days;
            last_service_odometer = req.last_service_odometer;
            last_service_date = req.last_service_date;
            next_service_odometer = next_service_odometer;
            next_service_date = elim req.interval_days [
              | some days ↦ some (add_days req.last_service_date days)
              | none ↦ some (
                  estimate_next_service_date vehicle req.last_service_odometer next_service_odometer
                    now w)
            ];
            service_center_name = req.service_center_name;
            is_active = true;
            created_at = 0;
            updated_at = 0;
          } in
          let (w', created) = repo.create schedule w in
          (w', if created then ok schedule else failed repository_failed)
    ]
  ]

-- The blocks of `UpdateSchedule`, in their order.
unfoldable pub set_description : String → MaintenanceSchedule → MaintenanceSchedule
set_description description s =
    if str_eq description "" then s else record s { description = description }

unfoldable pub set_interval_km : Option ℤ → MaintenanceSchedule → MaintenanceSchedule
set_interval_km none s = s
set_interval_km (some interval_km) s = record s {
  interval_km = interval_km;
  next_service_odometer = wrap64 (s.last_service_odometer +ℤ interval_km);
}

unfoldable pub set_interval_days : Option ℤ → MaintenanceSchedule → MaintenanceSchedule
set_interval_days none s = s
set_interval_days (some days) s = record s { interval_days = some days }

unfoldable pub set_last_odometer : Option ℤ → MaintenanceSchedule → MaintenanceSchedule
set_last_odometer none s = s
set_last_odometer (some odometer) s = record s {
  last_service_odometer = odometer;
  next_service_odometer = wrap64 (odometer +ℤ s.interval_km);
}

unfoldable pub set_last_date : Option Time → MaintenanceSchedule → MaintenanceSchedule
set_last_date none s = s
set_last_date (some date) s = elim s.interval_days [
  | none ↦ record s { last_service_date = date }
  | some days ↦ record s { last_service_date = date; next_service_date = some (add_days date days) }
]

unfoldable pub set_service_center : String → MaintenanceSchedule → MaintenanceSchedule
set_service_center name s = if str_eq name "" then s else record s { service_center_name = name }

unfoldable pub set_active : Option Bool → MaintenanceSchedule → MaintenanceSchedule
set_active none s = s
set_active (some is_active) s = record s { is_active = is_active }

unfoldable pub apply_update : UpdateScheduleRequest → MaintenanceSchedule → MaintenanceSchedule
unfolding set_description set_interval_km set_interval_days set_last_odometer set_last_date
    set_service_center set_active
apply_update req s = set_active req.is_active (
    set_service_center req.service_center_name (
      set_last_date req.last_service_date (
        set_last_odometer req.last_service_odometer (
          set_interval_days req.interval_days
            (set_interval_km req.interval_km (set_description req.description s))))))

module _ {F : Float} {W : Type 0} (repo : Repositories F W) where
  unfoldable pub update_schedule :
      String → UpdateScheduleRequest → W → W × Result MaintenanceSchedule
  unfolding apply_update
  update_schedule id req w = elim (repo.find_schedule_by_id id w) [
    | none ↦ (w, failed schedule_not_found)
    | some found ↦
        let schedule = apply_update req found in
        let (w', updated) = repo.update id schedule w in
        (w', if updated then ok schedule else failed repository_failed)
  ]

  unfoldable pub delete_schedule : String → W → W × Result Unit
  delete_schedule id w = elim (repo.find_schedule_by_id id w) [
    | none ↦ (w, failed schedule_not_found)
    | some _ ↦
        let (w', deleted) = repo.delete id w in
        (w', if deleted then ok tt else failed repository_failed)
  ]
