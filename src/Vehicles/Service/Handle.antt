-- ===== src/Vehicles/Service/Handle.antt =====
-- The requests to the vehicle service.
use vehicle_telematics.Base.{String, ◌≡◌, List, [], ◌∷◌, Option}
use vehicle_telematics.Base.Float.{Float}
use vehicle_telematics.Base.Time.{Time}
use vehicle_telematics.Base.Results.{Result}
use vehicle_telematics.Models.{Vehicle}
use vehicle_telematics.Vehicles.Requests.{UpdateVehicleRequest}
use vehicle_telematics.Vehicles.Service.Defs.{
  VehicleService, World, VehicleError, get_all_vehicles, get_vehicles_by_status,
  get_vehicles_by_driver, get_vehicle_by_id, update_vehicle, delete_vehicle,
}

-- The requests that read the cache or change what it holds, but for the creation of a vehicle.
pub data Request (F : Float) : Type 0 where
  all : Request F
  by_status : String → Request F
  by_driver : String → Request F
  by_id : String → Request F
  update : String → UpdateVehicleRequest F → Time → Request F
  delete : String → Request F

pub data Answer (F : Float) : Type 0 where
  vehicles : Option (List (Vehicle F)) → Answer F
  vehicle : Option (Vehicle F) → Answer F
  updated : Result VehicleError (Vehicle F) → Answer F
  deleted : Result VehicleError (Unit {0}) → Answer F

module _ {F : Float} {D A C : Type 0} (s : VehicleService F D A C) where
  unfoldable pub handle : Request F → World D A C → World D A C × Answer F
  handle all w = let (w', answer) = get_all_vehicles s w in (w', vehicles answer)
  handle (by_status status) w =
      let (w', answer) = get_vehicles_by_status s status w in (w', vehicles answer)
  handle (by_driver driver) w =
      let (w', answer) = get_vehicles_by_driver s driver w in (w', vehicles answer)
  handle (by_id id) w = let (w', answer) = get_vehicle_by_id s id w in (w', vehicle answer)
  handle (update id req now) w =
      let (w', answer) = update_vehicle s id req now w in (w', updated answer)
  handle (delete id) w = let (w', answer) = delete_vehicle s id w in (w', deleted answer)

  unfoldable pub handle_all : List (Request F) → World D A C → World D A C × List (Answer F)
  unfolding handle
  handle_all [] w = (w, [])
  handle_all (r ∷ rs) w =
      let (w', answer) = handle r w in
      let (w'', answers) = handle_all rs w' in (w'', answer ∷ answers)

-- A vehicle is asked for under the hex text of its id.
abbrev pub UsesHex : {F : Float} → (String → String) → Request F → Type 0
UsesHex normal (by_id id) = normal id ≡ id
UsesHex normal _ = Unit
