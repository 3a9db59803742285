-- ===== src/Vehicles/Service/Transparent.antt =====
-- The service with a cache answers as the service without one.
use vehicle_telematics.Base.{String, ◌≡◌, sym, refl, ap, List, [], ◌∷◌, none, some, All}
use vehicle_telematics.Base.Float.{Float}
use vehicle_telematics.Base.Results.{Result}
use vehicle_telematics.Models.{Vehicle}
use vehicle_telematics.Cache.{CacheManager}
use vehicle_telematics.Cache.View.{View}
use vehicle_telematics.Vehicles.Caching.{status_list, driver_list}
use vehicle_telematics.Vehicles.Caching.Keys.{
  status_list_inj, driver_list_inj, status-ne-driver, all-ne-status, all-ne-driver,
}
use vehicle_telematics.Vehicles.Service.Defs.{
  VehicleService, World, VehicleError, get_all_vehicles, get_vehicles_by_status,
  get_vehicles_by_driver, get_vehicle_by_id,
}
use vehicle_telematics.Vehicles.Service.Fresh.{IsFresh}
use vehicle_telematics.Vehicles.Service.Handle.{
  Request, all, by_status, by_driver, by_id, update, delete, Answer, vehicles, vehicle, updated,
  deleted, handle, handle_all, UsesHex,
}
use vehicle_telematics.Vehicles.Service.Reads.{IsSound, IsGood, get_list-good, get_one-good}
use vehicle_telematics.Vehicles.Service.Changes.{
  cached, uncached, Same, update_vehicle-Same, delete_vehicle-Same,
}

-- One answer in two places.
answers :
    {F : Float} {D A C X : Type 0} (w : World D A C) (make : X → Answer F) {answer found : X}
    → answer ≡ found
    → (let pair : World D A C × Answer F = (w, make found) in pair) ≡ (w, make answer)
answers w make e = ap (λ x. (w, make x)) (sym e)

module _ {F : Float} {D A C : Type 0} (s : VehicleService F D A C)
    (cache : CacheManager (Vehicle F) C) (normal : String → String) (view : View (Vehicle F) C)
    (sound : IsSound s cache normal view) where
  handle-Same :
      (c0 : C) (r : Request F) (w : World D A C)
      → UsesHex normal r
      → IsGood s normal view w
      → Same s normal view c0
          (handle (cached s cache) r w)
          (handle (uncached s) r (record w { cache = c0 }))
  unfolding handle get_all_vehicles get_vehicles_by_status get_vehicles_by_driver get_vehicle_by_id
  handle-Same c0 all w hex good =
      let (answer, fresh) =
        get_list-good s cache normal view sound "all_vehicles" (s.vehicle_repo.find_all w.vehicles)
          w good.all
          (
            λ e. refl,
            λ status e. absurd (all-ne-status status (sym e)),
            λ driver e. absurd (all-ne-driver driver (sym e)),
          )
          good in
      (answers (record w { cache = c0 }) vehicles answer, fresh)
  handle-Same c0 (by_status status) w hex good =
      let query = λ (status : String). s.vehicle_repo.find_by_status status w.vehicles in
      let (answer, fresh) =
        get_list-good s cache normal view sound (status_list status) (query status) w
          (good.by_status status)
          (
            λ e. absurd (all-ne-status status e),
            λ other e. ap query (status_list_inj other status e),
            λ driver e. absurd (status-ne-driver status driver (sym e)),
          )
          good in
      (answers (record w { cache = c0 }) vehicles answer, fresh)
  handle-Same c0 (by_driver driver) w hex good =
      let query = λ (driver : String). s.vehicle_repo.find_by_driver driver w.vehicles in
      let (answer, fresh) =
        get_list-good s cache normal view sound (driver_list driver) (query driver) w
          (good.by_driver driver)
          (
            λ e. absurd (all-ne-driver driver e),
            λ status e. absurd (status-ne-driver status driver e),
            λ other e. ap query (driver_list_inj other driver e),
          )
          good in
      (answers (record w { cache = c0 }) vehicles answer, fresh)
  handle-Same c0 (by_id id) w hex good =
      let (answer, fresh) = get_one-good s cache normal view sound id w hex good in
      (answers (record w { cache = c0 }) vehicle answer, fresh)
  handle-Same c0 (update id req now) w hex good =
      let (same, fresh) = update_vehicle-Same s cache normal view sound c0 id req now w good in
      (ap (λ (x : World D A C × Result VehicleError (Vehicle F)). (x.0, updated x.1)) same, fresh)
  handle-Same c0 (delete id) w hex good =
      let (same, fresh) = delete_vehicle-Same s cache normal view sound c0 id w good in
      (ap (λ (x : World D A C × Result VehicleError (Unit {0})). (x.0, deleted x.1)) same, fresh)

  -- The service with a cache does to the vehicles and the alerts what the service without one does,
  -- and gives the same answers, whatever requests come in: for a cache that holds nothing stale at
  -- first and that can be reached, which takes its keys from the prefix that the service writes into
  -- its keys, and a repository as `KeepsVehicles` says, when a vehicle is asked for under the hex
  -- text of its id. The creation of vehicles is not among the requests.
  pub handle_all-Same :
      (c0 : C) (rs : List (Request F)) (w : World D A C)
      → All (UsesHex normal) rs
      → IsFresh s.vehicle_repo normal view w.vehicles w.cache
      → let (w', answers) = handle_all (record s { cache_manager = some cache }) rs w in
        (handle_all (record s { cache_manager = none }) rs (record w { cache = c0 })
          ≡ (record w' { cache = c0 }, answers))
        × IsFresh s.vehicle_repo normal view w'.vehicles w'.cache
  unfolding handle_all
  handle_all-Same c0 [] w hex good = (refl, good)
  handle_all-Same c0 (r ∷ rs) w hex good =
      let (same, fresh) = handle-Same c0 r w hex.0 good in
      let (w', answer) = handle (cached s cache) r w in
      let (later, still) = handle_all-Same c0 rs w' hex.1 fresh in
      (rw (same) (rw later refl), still)
