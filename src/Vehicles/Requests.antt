-- ===== src/Vehicles/Requests.antt =====
-- internal/services/vehicle.go: the requests, and how one of them changes a vehicle.
use vehicle_telematics.Base.{String, Option, none, some, if◌then◌else◌, str_eq}
use vehicle_telematics.Base.Int.{ℤ, pos, ltb_ℤ, leb_ℤ}
use vehicle_telematics.Base.Float.{Float}
use vehicle_telematics.Models.{Vehicle, Location}

pub record CreateVehicleRequest (F : Float) : Type 0 where
  pub name : String
  pub plate_number : String
  pub driver : String
  pub make : String
  pub model : String
  pub year : ℤ
  pub vin : String
  pub max_fuel_capacity : F.Carrier
  pub fuel_consumption : F.Carrier

-- What a vehicle is to become, where an empty
-- field leaves it as it is.
pub record UpdateVehicleRequest (F : Float) : Type 0 where
  pub name : String
  pub plate_number : String
  pub driver : String
  pub fuel_level : F.Carrier
  pub location : Option (Location F)
  pub speed : ℤ
  pub status : String
  pub odometer : ℤ
  pub make : String
  pub model : String
  pub year : ℤ
  pub vin : String
  pub max_fuel_capacity : F.Carrier
  pub fuel_consumption : F.Carrier

-- `if new != "" { field = new }`, and the like for the numbers that have to be positive.
abbrev pub given_text : String → String → String
given_text new old = if str_eq new "" then old else new

abbrev pub given_int : ℤ → ℤ → ℤ
given_int new old = if ltb_ℤ (pos 0) new then new else old

abbrev pub given_real : (F : Float) → F.Carrier → F.Carrier → F.Carrier
given_real F new old = if F.lt (F.lit 0 0) new then new else old

module _ {F : Float} where
  -- The block of `UpdateVehicle` that begins "Update fields if provided", less the test of the plate
  -- number.
  unfoldable pub apply_request : UpdateVehicleRequest F → Vehicle F → Vehicle F
  apply_request req v = record v {
    name = given_text req.name v.name;
    plate_number = given_text req.plate_number v.plate_number;
    driver = given_text req.driver v.driver;
    fuel_level = given_real F req.fuel_level v.fuel_level;
    location = elim req.location [ some place ↦ place | none ↦ v.location ];
    speed = if leb_ℤ (pos 0) req.speed then req.speed else v.speed;
    status = given_text req.status v.status;
    odometer = given_int req.odometer v.odometer;
    make = given_text req.make v.make;
    model = given_text req.model v.model;
    year = given_int req.year v.year;
    vin = given_text req.vin v.vin;
    max_fuel_capacity = given_real F req.max_fuel_capacity v.max_fuel_capacity;
    fuel_consumption = given_real F req.fuel_consumption v.fuel_consumption;
  }
