-- ===== src/Telemetry/Service/Direct.antt =====
-- A report that goes to the vehicle service directly: what becomes of the readings that it leaves
-- out.
use vehicle_telematics.Base.{◌≡◌, refl, false, none, lookup}
use vehicle_telematics.Base.Int.{pos}
use vehicle_telematics.Base.Float.{Float}
use vehicle_telematics.Models.{Vehicle, Changes}
use vehicle_telematics.Telemetry.Service.{direct_request}
use vehicle_telematics.Vehicles.Requests.{apply_request}

-- When the changes that the delta tracker found go to `UpdateVehicle` directly, the fuel level, the
-- place, the status and the odometer stay as they are where they are not among the changes, and so do
-- the name, the driver and the plate number; but a speed that is not among them becomes 0. In float64
-- no number is below itself.
pub direct_request-omitted :
    {F : Float} (changes : Changes F) (v : Vehicle F)
    → F.lt (F.lit 0 0) (F.lit 0 0) ≡ false
    → let after = apply_request (direct_request changes) v in
      (lookup "fuelLevel" changes ≡ none → after.fuel_level ≡ v.fuel_level)
      × (lookup "location" changes ≡ none → after.location ≡ v.location)
      × (lookup "status" changes ≡ none → after.status ≡ v.status)
      × (lookup "odometer" changes ≡ none → after.odometer ≡ v.odometer)
      × (lookup "speed" changes ≡ none → after.speed ≡ pos 0)
      × (after.name ≡ v.name)
      × (after.driver ≡ v.driver)
      × (after.plate_number ≡ v.plate_number)
unfolding apply_request direct_request
direct_request-omitted changes v irreflexive = (
  λ h. rw (h, irreflexive) refl,
  λ h. rw (h) refl,
  λ h. rw (h) refl,
  λ h. rw (h) refl,
  λ h. rw (h) refl,
  refl,
  refl,
  refl,
)
