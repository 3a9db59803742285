-- ===== src/Maintenance/Types.antt =====
-- internal/models/maintenance.go. An ObjectID stands as its hex text, and an optional field is an
-- Option.
use vehicle_telematics.Base.{String, Bool, List, [], ◌∷◌, Option}
use vehicle_telematics.Base.Int.{ℤ, pos}
use vehicle_telematics.Base.Float.{Float}
use vehicle_telematics.Base.Time.{Time}

pub record MaintenanceRecord (F : Float) : Type 0 where
  pub id : String
  pub vehicle_id : String
  pub types : List String
  pub description : String
  pub cost : F.Carrier
  pub currency : String
  pub service_center : String
  pub performed_at : Time
  pub odometer : ℤ
  pub service_interval : ℤ
  pub next_service_odometer : ℤ
  pub next_service_date : Option Time
  pub parts_replaced : List String
  pub notes : String
  pub status : String
  pub created_at : Time
  pub updated_at : Time

pub record MaintenanceSchedule : Type 0 where
  pub id : String
  pub vehicle_id : String
  pub types : List String
  pub description : String
  pub interval_km : ℤ
  pub interval_days : Option ℤ
  pub last_service_odometer : ℤ
  pub last_service_date : Time
  pub next_service_odometer : ℤ
  pub next_service_date : Option Time
  pub service_center_name : String
  pub is_active : Bool
  pub created_at : Time
  pub updated_at : Time

pub record ServiceReminder : Type 0 where
  pub id : String
  pub vehicle_id : String
  pub types : List String
  pub due_date : Option Time
  pub due_odometer : Option ℤ
  pub current_odometer : ℤ
  pub days_until_due : Option ℤ
  pub odometer_until_due : Option ℤ
  pub priority : String
  pub is_overdue : Bool
  pub created_at : Time
  pub updated_at : Time

abbrev pub priority_low : String
priority_low = "low"

abbrev pub priority_medium : String
priority_medium = "medium"

abbrev pub priority_high : String
priority_high = "high"

abbrev pub priority_urgent : String
priority_urgent = "urgent"

-- In kilometres.
unfoldable pub default_service_intervals : List (String × ℤ)
default_service_intervals =
    ("oil_change", pos 10_000)
    ∷ ("tire_rotation", pos 15_000)
    ∷ ("brake_service", pos 30_000)
    ∷ ("transmission_service", pos 60_000)
    ∷ ("engine_tune_up", pos 40_000)
    ∷ ("battery_replacement", pos 50_000)
    ∷ ("air_filter", pos 20_000)
    ∷ ("fuel_filter", pos 40_000)
    ∷ ("coolant_flush", pos 80_000)
    ∷ ("spark_plugs", pos 30_000)
    ∷ ("belt_replacement", pos 100_000)
    ∷ ("inspection", pos 20_000)
    ∷ []
