-- ===== src/Socket/Types.antt =====
-- internal/websocket/types.go.
use vehicle_telematics.Base.{String, List}
use vehicle_telematics.Base.Float.{Float}
use vehicle_telematics.Base.Time.{Time}
use vehicle_telematics.Models.{Changes}

pub record VehicleFilters : Type 0 where
  pub vehicle_ids : List String
  pub statuses : List String
  pub drivers : List String
  pub alert_types : List String

pub record VehicleUpdate (F : Float) : Type 0 where
  pub vehicle_id : String
  pub update_type : String
  pub fields : Changes F
  pub timestamp : Time
  pub priority : String

abbrev pub priority_low : String
priority_low = "low"

abbrev pub priority_medium : String
priority_medium = "medium"

abbrev pub priority_high : String
priority_high = "high"

abbrev pub priority_critical : String
priority_critical = "critical"
