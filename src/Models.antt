-- ===== src/Models.antt =====
-- internal/models: the documents of the fleet. An ObjectID stands as its hex text.
use vehicle_telematics.Base.{String, Bool, List, Option}
use vehicle_telematics.Base.Int.{ℤ}
use vehicle_telematics.Base.Float.{Float}
use vehicle_telematics.Base.Time.{Time}

pub record Alert : Type 0 where
  pub id : String
  pub vehicle_id : String
  pub type : String
  pub message : String
  pub severity : String
  pub timestamp : Time
  pub resolved : Bool
  pub resolved_at : Option Time

pub record Location (F : Float) : Type 0 where
  pub lat : F.Carrier
  pub lng : F.Carrier
  pub address : String

pub record Vehicle (F : Float) : Type 0 where
  pub id : String
  pub name : String
  pub plate_number : String
  pub driver : String
  pub fuel_level : F.Carrier
  pub max_fuel_capacity : F.Carrier
  pub location : Location F
  pub speed : ℤ
  pub status : String
  pub last_update : Time
  pub odometer : ℤ
  pub fuel_consumption : F.Carrier
  pub alerts : List Alert
  pub make : String
  pub model : String
  pub year : ℤ
  pub vin : String
  pub created_at : Time
  pub updated_at : Time

-- The values of a `map[string]interface{}`.
pub data Value (F : Float) : Type 0 where
  real : F.Carrier → Value F
  place : Location F → Value F
  int : ℤ → Value F
  text : String → Value F
  instant : Time → Value F

abbrev pub Changes : Float → Type 0
Changes F = List (String × Value F)
