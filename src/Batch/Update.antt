-- ===== src/Batch/Update.antt =====
-- pkg/batch/interfaces.go: what an update carries. A nil pointer is `none`.
use vehicle_telematics.Base.{String, Option}
use vehicle_telematics.Base.Int.{ℤ}
use vehicle_telematics.Base.Float.{Float}
use vehicle_telematics.Base.Time.{Time}
use vehicle_telematics.Models.{Location}

pub record VehicleUpdateData (F : Float) : Type 0 where
  pub fuel_level : Option F.Carrier
  pub location : Option (Location F)
  pub speed : Option ℤ
  pub status : Option String
  pub odometer : Option ℤ
  pub timestamp : Time
