-- ===== src/Telemetry/Delta/Payload.antt =====
-- The payload of an update, as `convertToBatchUpdate` of pkg/telemetry/optimized_service.go reads
-- it back for the batch processor.
pub mod Fresh
use vehicle_telematics.Base.{
  suc, ◌≤◌, String, ◌≡◌, refl, ap, ◌∙◌, Bool, true, false, ◌||◌, Option, none, some, ltb, arith,
  if◌then◌else◌, lookup, insert, str_eq, lookup-insert, Bool-cases, inl, inr, lookup-insert_self,
  List, [], ◌∷◌, length,
}
use vehicle_telematics.Base.Int.{ℤ}
use vehicle_telematics.Base.Float.{Float, Math}
use vehicle_telematics.Base.Time.{Time, since}
use vehicle_telematics.Models.{Vehicle, Location, Value, real, place, int, text, instant, Changes}
use vehicle_telematics.Batch.Update.{VehicleUpdateData}
use vehicle_telematics.Telemetry.Delta.{
  VehicleSnapshot, DeltaThresholds, DeltaTracker, create_full_update, create_snapshot, note,
  fuel_moved, place_moved, speed_moved, status_moved, odometer_moved, compare_states, store, finish,
  update_known, should_update,
}

if_same {ℓ} : {A : Type ℓ} (b : Bool) (x : A) → (if b then x else x) ≡ x
if_same true x = refl
if_same false x = refl

module _ {F : Float} where
  -- The type assertions `changes[k].(T)`.
  abbrev pub as_real : Option (Value F) → Option F.Carrier
  as_real (some (real x)) = some x
  as_real _ = none

  abbrev pub as_place : Option (Value F) → Option (Location F)
  as_place (some (place x)) = some x
  as_place _ = none

  abbrev pub as_int : Option (Value F) → Option ℤ
  as_int (some (int x)) = some x
  as_int _ = none

  abbrev pub as_text : Option (Value F) → Option String
  as_text (some (text x)) = some x
  as_text _ = none

  unfoldable pub convert_to_batch_update : Changes F → Time → VehicleUpdateData F
  convert_to_batch_update changes now = record {
    fuel_level = as_real (lookup "fuelLevel" changes);
    location = as_place (lookup "location" changes);
    speed = as_int (lookup "speed" changes);
    status = as_text (lookup "status" changes);
    odometer = as_int (lookup "odometer" changes);
    timestamp = now;
  }

  -- Every reading of the vehicle.
  unfoldable pub all_readings : Vehicle F → Time → VehicleUpdateData F
  all_readings vehicle now = record {
    fuel_level = some vehicle.fuel_level;
    location = some vehicle.location;
    speed = some vehicle.speed;
    status = some vehicle.status;
    odometer = some vehicle.odometer;
    timestamp = now;
  }

  lookup-note :
      (test : Bool) (k1 k2 k : String) (v1 v2 : Value F) (d : Changes F × Bool)
      → lookup k (note test (k1, v1) (k2, v2) d).0 ≡ (
          if test
          then (if str_eq k2 k then some v2 else if str_eq k1 k then some v1 else lookup k d.0)
          else lookup k d.0)
  unfolding note
  lookup-note true k1 k2 k v1 v2 d = simp lookup-insert
  lookup-note false k1 k2 k v1 v2 d = refl

  note-significant :
      (test : Bool) (a b : String × Value F) (d : Changes F × Bool)
      → (note test a b d).1 ≡ (test || d.1)
  unfolding note
  note-significant true a b d = refl
  note-significant false a b d = refl

  pub convert-create_full_update :
      (vehicle : Vehicle F) (now : Time)
      → convert_to_batch_update (create_full_update vehicle now) now ≡ all_readings vehicle now
  unfolding convert_to_batch_update create_full_update all_readings lookup
  convert-create_full_update vehicle now = refl

module _ {F : Float} (math : Math F) (th : DeltaThresholds F) (last : VehicleSnapshot F)
    (current : Vehicle F) where
  -- Some reading has moved by its threshold.
  unfoldable pub has_moved : Bool
  has_moved =
      odometer_moved th last current
      || (status_moved th last current
          || (speed_moved th last current
              || (place_moved math th last current || (fuel_moved th last current || false))))

  -- The readings that have moved by their thresholds.
  unfoldable pub moved_readings : Time → VehicleUpdateData F
  moved_readings now = record {
    fuel_level = if fuel_moved th last current then some current.fuel_level else none;
    location = if place_moved math th last current then some current.location else none;
    speed = if speed_moved th last current then some current.speed else none;
    status = if status_moved th last current then some current.status else none;
    odometer = if odometer_moved th last current then some current.odometer else none;
    timestamp = now;
  }

  compare_states-significant : (compare_states math th last current).1 ≡ has_moved
  unfolding compare_states has_moved
  compare_states-significant = simp note-significant

  convert-compare_states :
      (vehicle_id : String) (now : Time)
      → convert_to_batch_update
          (insert "timestamp"
            (instant now)
            (insert "vehicleId" (text vehicle_id) (compare_states math th last current).0))
          now
        ≡ moved_readings now
  unfolding convert_to_batch_update moved_readings compare_states lookup
  convert-compare_states vehicle_id now = simp (lookup-insert, lookup-note, if_same) (ground arith)

module _ {F : Float} (math : Math F) (dt : DeltaTracker F) (vehicle_id : String)
    (last : VehicleSnapshot F) (current : Vehicle F) (now : Time) where
  open dt use {thresholds}

  -- What `ShouldUpdate` sends of a vehicle that it knows and heard of within the time threshold: if
  -- any reading has moved by its threshold, the readings that have, and those only, as
  -- `convertToBatchUpdate` reads them back, and the whole vehicle becomes the last state; if none
  -- has, nothing is sent, and the last state stays.
  pub should_update_known :
      lookup vehicle_id dt.last_states ≡ some last
      → since now last.last_update ≤ thresholds.time_threshold
      → let (after, sends, changes) = should_update math dt vehicle_id current now in
        (sends ≡ has_moved math thresholds last current)
        × (sends ≡ true
            → convert_to_batch_update changes now ≡ moved_readings math thresholds last current now)
        × (after ≡ (if sends then store dt vehicle_id current now else dt))
  unfolding should_update update_known finish
  should_update_known e h =
      rw (e, should_update, over_false)
        (rw (compare_states-significant math thresholds last current)
          (elim (Bool-cases (has_moved math thresholds last current)) [
            | inl moved ↦ rw moved (
              refl,
              λ _. convert-compare_states math thresholds last current vehicle_id now,
              refl,
            )
            | inr still ↦ rw still (refl, λ p. absurd (cc), refl)
          ]))
    where
      over_false : ltb thresholds.time_threshold (since now last.last_update) ≡ false
      over_false = ground arith

module _ {F : Float} where
  -- No update carries a fuel level.
  abbrev pub NoFuel : List (VehicleUpdateData F) → Type 0
  NoFuel [] = Unit
  NoFuel (u ∷ us) = (u.fuel_level ≡ none) × NoFuel us

module _ {F : Float} (math : Math F) where
  -- What `ShouldUpdate` sends of a vehicle over some reports of it, as the batch processor reads it.
  pub sent : DeltaTracker F → String → List (Vehicle F × Time) → List (VehicleUpdateData F)
  sent dt vehicle_id [] = []
  sent dt vehicle_id ((current, now) ∷ reports) =
      let (after, sends, changes) = should_update math dt vehicle_id current now in
      let rest = sent after vehicle_id reports in
      if sends then convert_to_batch_update changes now ∷ rest else rest

  -- Each report comes within the time threshold of the one before, and next to it the fuel level is
  -- within its threshold, while some other reading is not.
  abbrev pub Creeps : DeltaThresholds F → VehicleSnapshot F → List (Vehicle F × Time) → Type 0
  Creeps th last [] = Unit
  Creeps th last ((current, now) ∷ reports) =
      (since now last.last_update ≤ th.time_threshold)
      × (fuel_moved th last current ≡ false)
      × (has_moved math th last current ≡ true)
      × Creeps th
          (record {
            fuel_level = current.fuel_level;
            location = current.location;
            speed = current.speed;
            status = current.status;
            odometer = current.odometer;
            last_update = now;
          })
          reports

  -- The defect of partial updates: while each report of a vehicle moves some reading by its
  -- threshold, but never the fuel level, each within the time threshold of the report before, every
  -- report is sent and none carries the fuel level, however far the level falls over all of them.
  pub fuel_forgotten :
      (dt : DeltaTracker F) (vehicle_id : String) (last : VehicleSnapshot F)
      (reports : List (Vehicle F × Time))
      → lookup vehicle_id dt.last_states ≡ some last
      → Creeps dt.thresholds last reports
      → (length (sent dt vehicle_id reports) ≡ length reports) × NoFuel (sent dt vehicle_id reports)
  unfolding sent store create_snapshot moved_readings
  fuel_forgotten dt vehicle_id last [] known h = (refl, tt)
  fuel_forgotten dt vehicle_id last ((current, now) ∷ reports) known (h, fuel, moved, rest) =
      let k = should_update_known math dt vehicle_id last current now known h in
      let sends = k.0 ∙ moved in
      let next =
        fuel_forgotten (store dt vehicle_id current now) vehicle_id (create_snapshot current now)
          reports (lookup-insert_self _ _ _) rest in
      rw (sent, k.2, sends)
        (ap (λ n. suc n) next.0, (ap (λ u. u.fuel_level) (k.1 sends) ∙ rw fuel, next.1))
