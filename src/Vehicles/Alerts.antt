-- ===== src/Vehicles/Alerts.antt =====
-- internal/services/vehicle.go: the alerts that `UpdateVehicle` raises. A is the state of the
-- alerts' collection and of the source of new ids.
pub mod Raised
pub mod Open
use vehicle_telematics.Base.{
  String, Bool, true, false, not, ◌&&◌, ◌||◌, List, [], ◌∷◌, ◌++◌, Option, none, some,
  if◌then◌else◌, str_eq,
}
use vehicle_telematics.Base.Int.{ℤ, pos, ltb_ℤ}
use vehicle_telematics.Base.Float.{Float}
use vehicle_telematics.Base.Time.{Time}
use vehicle_telematics.Models.{Vehicle, Alert}

-- `primitive.NewObjectID`, as hex text, and `alertRepo.Create`, whose error the checks ignore.
pub record AlertStore (A : Type 0) : Type 0 where
  pub new_object_id : A → A × String
  pub create : Alert → A → A × Bool

module _ {F : Float} {A : Type 0} (store : AlertStore A) where
  -- The lines that the three checks share: the alert is created and added to the vehicle.
  unfoldable pub raise_alert : String → String → String → Time → Vehicle F → A → A × Vehicle F
  raise_alert type message severity now vehicle a =
      let (a', id) = store.new_object_id a in
      let alert : Alert = record {
        id = id;
        vehicle_id = vehicle.id;
        type = type;
        message = message;
        severity = severity;
        timestamp = now;
        resolved = false;
        resolved_at = none;
      } in
      ((store.create alert a').0, record vehicle { alerts = vehicle.alerts ++ (alert ∷ []) })

  unfoldable pub check_fuel_theft : F.Carrier → Time → Vehicle F → A → A × Vehicle F
  unfolding raise_alert
  check_fuel_theft previous_level now vehicle a =
      let fuel_drop = F.sub previous_level vehicle.fuel_level in
      if F.lt (F.lit 15 0) fuel_drop
      then raise_alert "fuel_theft" "Abnormal fuel drop detected - Possible theft" "critical" now
          vehicle a
      else (a, vehicle)

-- The loop of `checkLowFuel`.
unfoldable pub has_low_fuel_alert : List Alert → Bool
has_low_fuel_alert [] = false
has_low_fuel_alert (alert ∷ alerts) =
    if str_eq alert.type "low_fuel" && not alert.resolved then true else has_low_fuel_alert alerts

module _ {F : Float} {A : Type 0} (store : AlertStore A) where
  unfoldable pub check_low_fuel : Time → Vehicle F → A → A × Vehicle F
  unfolding raise_alert has_low_fuel_alert
  check_low_fuel now vehicle a =
      let fuel_percentage =
        F.mul (F.div vehicle.fuel_level vehicle.max_fuel_capacity) (F.lit 100 0) in
      if F.lt fuel_percentage (F.lit 20 0)
      then if not (has_low_fuel_alert vehicle.alerts)
        then raise_alert store "low_fuel" "Low fuel level detected" "medium" now vehicle a
        else (a, vehicle)
      else (a, vehicle)

  unfoldable pub check_speeding : Time → Vehicle F → A → A × Vehicle F
  unfolding raise_alert
  check_speeding now vehicle a =
      if ltb_ℤ (pos 80) vehicle.speed
      then raise_alert store "speeding" "Vehicle exceeding speed limit" "high" now vehicle a
      else (a, vehicle)

  -- The three checks, as `UpdateVehicle` runs them after it has changed the vehicle.
  unfoldable pub run_checks : F.Carrier → Time → Vehicle F → A → A × Vehicle F
  run_checks previous_level now vehicle a =
      let (a1, v1) = check_fuel_theft store previous_level now vehicle a in
      let (a2, v2) = check_low_fuel now v1 a1 in check_speeding now v2 a2
