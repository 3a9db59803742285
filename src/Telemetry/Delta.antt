-- ===== src/Telemetry/Delta.antt =====
-- pkg/telemetry/delta_tracker.go: which updates of a vehicle are worth sending.
-- Each call reads the clock once, as its argument `now`.
pub mod Payload
use vehicle_telematics.Base.{
  ℕ, ◌*◌, String, Bool, true, false, not, List, [], ◌∷◌, Option, none, some, ltb, leb,
  if◌then◌else◌, lookup, insert, str_eq,
}
use vehicle_telematics.Base.Int.{ℤ, pos, ◌-ℤ◌, leb_ℤ, wrap64}
use vehicle_telematics.Base.Float.{Float, Math}
use vehicle_telematics.Base.Time.{Time, Duration, minute, since}
use vehicle_telematics.Models.{Vehicle, Location, Value, real, place, int, text, instant, Changes}

pub record VehicleSnapshot (F : Float) : Type 0 where
  pub fuel_level : F.Carrier
  pub location : Location F
  pub speed : ℤ
  pub status : String
  pub odometer : ℤ
  pub last_update : Time

pub record DeltaThresholds (F : Float) : Type 0 where
  pub fuel_level_percent : F.Carrier
  pub location_meters : F.Carrier
  pub speed_kmh : ℤ
  pub odometer_km : ℤ
  pub time_threshold : Duration

pub record DeltaTracker (F : Float) : Type 0 where
  pub last_states : List (String × VehicleSnapshot F)
  pub thresholds : DeltaThresholds F

unfoldable pub new_delta_tracker : (F : Float) → DeltaTracker F
new_delta_tracker F = record {
  last_states = [];
  thresholds = record {
    fuel_level_percent = F.lit 50 1;
    location_meters = F.lit 1000 1;
    speed_kmh = pos 10;
    odometer_km = pos 1;
    time_threshold = 15 * minute;
  };
}

module _ {F : Float} where
  unfoldable pub create_snapshot : Vehicle F → Time → VehicleSnapshot F
  create_snapshot vehicle now = record {
    fuel_level = vehicle.fuel_level;
    location = vehicle.location;
    speed = vehicle.speed;
    status = vehicle.status;
    odometer = vehicle.odometer;
    last_update = now;
  }

  unfoldable pub create_full_update : Vehicle F → Time → Changes F
  create_full_update vehicle now =
      ("vehicleId", text vehicle.id)
      ∷ ("fuelLevel", real vehicle.fuel_level)
      ∷ ("location", place vehicle.location)
      ∷ ("speed", int vehicle.speed)
      ∷ ("status", text vehicle.status)
      ∷ ("odometer", int vehicle.odometer)
      ∷ ("timestamp", instant now)
      ∷ ("updateType", text "full")
      ∷ []

  -- Tests of `ShouldUpdate`, with `place_moved` below.
  unfoldable pub fuel_moved : DeltaThresholds F → VehicleSnapshot F → Vehicle F → Bool
  fuel_moved th last current =
      F.le th.fuel_level_percent (F.abs (F.sub current.fuel_level last.fuel_level))

  unfoldable pub speed_moved : DeltaThresholds F → VehicleSnapshot F → Vehicle F → Bool
  speed_moved th last current =
      leb_ℤ th.speed_kmh (F.trunc (F.abs (F.of_int (wrap64 (current.speed -ℤ last.speed)))))

  unfoldable pub status_moved : DeltaThresholds F → VehicleSnapshot F → Vehicle F → Bool
  status_moved th last current = not (str_eq current.status last.status)

  unfoldable pub odometer_moved : DeltaThresholds F → VehicleSnapshot F → Vehicle F → Bool
  odometer_moved th last current =
      leb_ℤ th.odometer_km (F.trunc (F.abs (F.of_int (wrap64 (current.odometer -ℤ last.odometer)))))

  -- `changes[k1] = v1; changes[k2] = v2; hasSignificantChange = true`, if the test passes.
  unfoldable pub note :
      Bool → String × Value F → String × Value F → Changes F × Bool → Changes F × Bool
  note test (k1, v1) (k2, v2) (changes, significant) =
      if test then (insert k2 v2 (insert k1 v1 changes), true) else (changes, significant)

  unfoldable pub store : DeltaTracker F → String → Vehicle F → Time → DeltaTracker F
  store dt vehicle_id current now = record dt {
    last_states = insert vehicle_id (create_snapshot current now) dt.last_states;
  }

  -- The end of `ShouldUpdate`, with what the comparison found.
  unfoldable pub finish :
      DeltaTracker F
      → String
      → Vehicle F
      → Time
      → Changes F × Bool
      → DeltaTracker F × Bool × Changes F
  finish dt vehicle_id current now (changes, significant) =
      if significant
      then (
        store dt vehicle_id current now,
        true,
        insert "timestamp" (instant now) (insert "vehicleId" (text vehicle_id) changes),
      )
      else (dt, false, changes)

  unfoldable pub set_thresholds : DeltaTracker F → DeltaThresholds F → DeltaTracker F
  set_thresholds dt thresholds = record dt { thresholds = thresholds }

  unfoldable pub get_last_state : DeltaTracker F → String → Option (VehicleSnapshot F)
  get_last_state dt vehicle_id = lookup vehicle_id dt.last_states

module _ {F : Float} (math : Math F) where
  unfoldable pub calculate_distance : Location F → Location F → F.Carrier
  calculate_distance loc1 loc2 =
      let rad = λ (x : F.Carrier). F.div (F.mul x math.pi) (F.lit 180 0) in
      let delta_lat = rad (F.sub loc2.lat loc1.lat) in
      let delta_lng = rad (F.sub loc2.lng loc1.lng) in
      let sin_lat = math.sin (F.div delta_lat (F.lit 2 0)) in
      let sin_lng = math.sin (F.div delta_lng (F.lit 2 0)) in
      let a = F.add (F.mul sin_lat sin_lat) (
        F.mul (F.mul (F.mul (math.cos (rad loc1.lat)) (math.cos (rad loc2.lat))) sin_lng)
          sin_lng) in
      let c = F.mul (F.lit 2 0) (math.atan2 (math.sqrt a) (math.sqrt (F.sub (F.lit 1 0) a))) in
      F.mul (F.lit 6_371_000 0) c

  unfoldable pub place_moved : DeltaThresholds F → VehicleSnapshot F → Vehicle F → Bool
  place_moved th last current =
      F.le th.location_meters (calculate_distance last.location current.location)

  unfoldable pub compare_states :
      DeltaThresholds F → VehicleSnapshot F → Vehicle F → Changes F × Bool
  compare_states th last current =
      note (odometer_moved th last current) ("odometer", int current.odometer)
        ("odometerChange", int (wrap64 (current.odometer -ℤ last.odometer)))
        (note (status_moved th last current) ("status", text current.status)
          ("previousStatus", text last.status)
          (note (speed_moved th last current) ("speed", int current.speed)
            ("speedChange", int (wrap64 (current.speed -ℤ last.speed)))
            (note (place_moved th last current) ("location", place current.location)
              ("distanceMoved", real (calculate_distance last.location current.location))
              (note (fuel_moved th last current) ("fuelLevel", real current.fuel_level)
                ("fuelChange", real (F.sub current.fuel_level last.fuel_level)) ([], false)))))

  -- `ShouldUpdate` for a vehicle with a last state.
  unfoldable pub update_known :
      DeltaTracker F
      → String
      → VehicleSnapshot F
      → Vehicle F
      → Time
      → DeltaTracker F × Bool × Changes F
  update_known dt vehicle_id last current now =
      if ltb dt.thresholds.time_threshold (since now last.last_update)
      then (store dt vehicle_id current now, true, create_full_update current now)
      else finish dt vehicle_id current now (compare_states dt.thresholds last current)

  unfoldable pub should_update :
      DeltaTracker F → String → Vehicle F → Time → DeltaTracker F × Bool × Changes F
  should_update dt vehicle_id current now = elim (lookup vehicle_id dt.last_states) [
    | none ↦ (store dt vehicle_id current now, true, create_full_update current now)
    | some last ↦ update_known dt vehicle_id last current now
  ]
