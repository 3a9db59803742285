-- ===== src/Tests/Delta.antt =====
-- Tests of the delta tracker.
use vehicle_telematics.Base.{
  ◌≤◌, ◌+◌, ◌*◌, ◌≡◌, refl, true, [], lookup, insert, arith, some, none, List, ◌∷◌, length,
}
use vehicle_telematics.Base.Int.{pos, negsuc, ◌+ℤ◌, ◌-ℤ◌, ◌*ℤ◌, abs}
use vehicle_telematics.Base.Float.{Math}
use vehicle_telematics.Base.Time.{Time, since, minute, hour}
use vehicle_telematics.Models.{Vehicle, Location}
use vehicle_telematics.Batch.Update.{VehicleUpdateData}
use vehicle_telematics.Telemetry.Delta.{
  DeltaTracker, VehicleSnapshot, new_delta_tracker, create_snapshot, create_full_update, note,
  fuel_moved, speed_moved, status_moved, odometer_moved, place_moved, calculate_distance,
  compare_states, store, finish, update_known, should_update,
}
use vehicle_telematics.Telemetry.Delta.Payload.{
  has_moved, moved_readings, all_readings, convert_to_batch_update, should_update_known, sent,
  NoFuel, fuel_forgotten,
}
use vehicle_telematics.Telemetry.Delta.Payload.Fresh.{last_reported, last_sent, sent_fresh}
use vehicle_telematics.Tests.Numbers.{fixed}

-- A stand-in for the functions of Go's math package, good near zero.
abbrev pub flat_earth : Math fixed
flat_earth = record {
  pi = pos 3_141_593;
  sin = λ x. x;
  cos = λ _. pos 1_000_000;
  sqrt = λ x. x;
  atan2 = λ y _. y;
}

program : Unit {0}
unfolding create_snapshot create_full_update note fuel_moved speed_moved status_moved odometer_moved
    place_moved calculate_distance compare_states store finish update_known should_update has_moved
    moved_readings all_readings convert_to_batch_update lookup insert abs ◌+ℤ◌ ◌-ℤ◌ ◌*ℤ◌
    new_delta_tracker
program = tt

abbrev pub depot : Location fixed
depot = record { lat = pos 40_712_800; lng = negsuc 74_005_999; address = "New York, NY" }

abbrev pub van : Vehicle fixed
van = record {
  id = "v1";
  name = "Van";
  plate_number = "KAA 1";
  driver = "Ann";
  fuel_level = pos 60_000_000;
  max_fuel_capacity = pos 80_000_000;
  location = depot;
  speed = pos 30;
  status = "active";
  last_update = 0;
  odometer = pos 100;
  fuel_consumption = pos 8_000_000;
  alerts = [];
  make = "";
  model = "";
  year = pos 2020;
  vin = "";
  created_at = 0;
  updated_at = 0;
}

abbrev seen : DeltaTracker fixed
seen = (should_update flat_earth (new_delta_tracker fixed) "v1" van hour).0

abbrev snapshot : VehicleSnapshot fixed
snapshot = create_snapshot van hour

-- The fuel is down by 4, which is below the threshold, and the speed is up by 20.
abbrev faster : Vehicle fixed
faster = record van { fuel_level = pos 56_000_000; speed = pos 50 }

sent_faster :
    convert_to_batch_update
      (should_update flat_earth seen "v1" faster (hour + minute)).2
      (hour + minute)
    ≡ record {
      fuel_level = none;
      location = none;
      speed = some (pos 50);
      status = none;
      odometer = none;
      timestamp = hour + minute;
    }
unfolding program
sent_faster = refl

seen_known : lookup "v1" seen.last_states ≡ some snapshot
unfolding program
seen_known = refl

should_update_known_example : (should_update flat_earth seen "v1" faster (hour + minute)).1 ≡ true
unfolding program
should_update_known_example =
    (should_update_known flat_earth seen "v1" snapshot faster (hour + minute) refl (omega arith)).0

-- Three reports, each 4 below the fuel level before it, and 20 above the speed.
abbrev run_dry : List (Vehicle fixed × Time)
run_dry =
    (faster, hour + minute)
    ∷ (record faster { fuel_level = pos 52_000_000; speed = pos 70 }, hour + 2 * minute)
    ∷ (record faster { fuel_level = pos 48_000_000; speed = pos 90 }, hour + 3 * minute)
    ∷ []

fuel_forgotten_example :
    (length (sent flat_earth seen "v1" run_dry) ≡ 3) × NoFuel (sent flat_earth seen "v1" run_dry)
unfolding program
fuel_forgotten_example =
    fuel_forgotten flat_earth seen "v1" snapshot run_dry refl
      (omega arith, refl, refl, (omega arith, refl, refl, (omega arith, refl, refl, tt)))

-- The second report changes nothing, and the third, after an hour, is sent whole.
abbrev quiet : List (Vehicle fixed × Time)
quiet = (van, hour + minute) ∷ (van, 2 * hour) ∷ []

sent_fresh_example :
    (us : List (VehicleUpdateData fixed)) × (sent flat_earth
        (new_delta_tracker fixed)
        "v1"
        ((van, hour) ∷ quiet)
      ≡ record {
        fuel_level = some (pos 60_000_000);
        location = some depot;
        speed = some (pos 30);
        status = some "active";
        odometer = some (pos 100);
        timestamp = hour;
      }
        ∷ us)
    × (since (last_reported hour quiet) (last_sent hour us) ≤ 15 * minute)
unfolding program
sent_fresh_example = sent_fresh flat_earth (new_delta_tracker fixed) "v1" van hour quiet refl
