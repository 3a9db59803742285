-- ===== src/Vehicles/Service/Defs.antt =====
-- internal/services/vehicle.go: the handlers. The repository of the vehicles is a parameter on a
-- state D, that of the alerts on A, and the cache on C; each handler reads the clock once, as `now`.
use vehicle_telematics.Base.{
  String, Bool, true, false, not, List, [], Option, none, some, if◌then◌else◌, str_eq,
}
use vehicle_telematics.Base.Int.{pos}
use vehicle_telematics.Base.Float.{Float}
use vehicle_telematics.Base.Time.{Time}
use vehicle_telematics.Base.Results.{Result, ok, failed}
use vehicle_telematics.Models.{Vehicle}
use vehicle_telematics.Cache.{CacheConfig, CacheManager}
use vehicle_telematics.Vehicles.Requests.{CreateVehicleRequest, UpdateVehicleRequest, apply_request}
use vehicle_telematics.Vehicles.Alerts.{AlertStore, run_checks}
use vehicle_telematics.Vehicles.Caching.{
  status_list, driver_list, get_list, get_one, invalidate_cache_on_create,
  invalidate_cache_on_update, invalidate_cache_on_delete,
}

-- A look-up answers `none`, and a deletion `false`, where the source's error is not nil.
pub record VehicleRepository (F : Float) (D : Type 0) : Type 0 where
  pub find_by_id : String → D → Option (Vehicle F)
  pub find_by_plate_number : String → D → Option (Vehicle F)
  pub find_all : D → Option (List (Vehicle F))
  pub find_by_status : String → D → Option (List (Vehicle F))
  pub find_by_driver : String → D → Option (List (Vehicle F))
  pub create : Vehicle F → D → D × Option (Vehicle F)
  pub update : String → Vehicle F → D → D × Option (Vehicle F)
  pub delete : String → D → D × Bool

-- `batchProcessor` and `wsManager` serve the simulation only.
pub record VehicleService (F : Float) (D A C : Type 0) : Type 0 where
  pub vehicle_repo : VehicleRepository F D
  pub new_object_id : A → A × String
  pub alert_repo : Option (AlertStore A)
  pub cache_manager : Option (CacheManager (Vehicle F) C)
  pub cache_config : CacheConfig

pub record World (D A C : Type 0) : Type 0 where
  pub vehicles : D
  pub alerts : A
  pub cache : C

pub data VehicleError : Type 0 where
  vehicle_not_found plate_number_exists repository_failed : VehicleError

module _ {F : Float} {D A C : Type 0} (s : VehicleService F D A C) where
  unfoldable pub get_all_vehicles : World D A C → World D A C × Option (List (Vehicle F))
  unfolding get_list
  get_all_vehicles w =
      let (c, answer) =
        get_list s.cache_config s.cache_manager "all_vehicles" (s.vehicle_repo.find_all w.vehicles)
          w.cache in
      (record w { cache = c }, answer)

  unfoldable pub get_vehicles_by_status :
      String → World D A C → World D A C × Option (List (Vehicle F))
  unfolding get_list
  get_vehicles_by_status status w =
      let (c, answer) =
        get_list s.cache_config s.cache_manager (status_list status)
          (s.vehicle_repo.find_by_status status w.vehicles) w.cache in
      (record w { cache = c }, answer)

  unfoldable pub get_vehicles_by_driver :
      String → World D A C → World D A C × Option (List (Vehicle F))
  unfolding get_list
  get_vehicles_by_driver driver w =
      let (c, answer) =
        get_list s.cache_config s.cache_manager (driver_list driver)
          (s.vehicle_repo.find_by_driver driver w.vehicles) w.cache in
      (record w { cache = c }, answer)

  unfoldable pub get_vehicle_by_id : String → World D A C → World D A C × Option (Vehicle F)
  unfolding get_one
  get_vehicle_by_id id w =
      let (c, answer) =
        get_one s.cache_config s.cache_manager id (s.vehicle_repo.find_by_id id w.vehicles)
          w.cache in
      (record w { cache = c }, answer)

  unfoldable pub get_vehicle_updates : World D A C → Option (List (Vehicle F))
  get_vehicle_updates w = s.vehicle_repo.find_all w.vehicles

  -- The vehicle that `CreateVehicle` stores.
  unfoldable pub new_vehicle : String → CreateVehicleRequest F → Time → Vehicle F
  new_vehicle id req now = record {
    id = id;
    name = req.name;
    plate_number = req.plate_number;
    driver = req.driver;
    fuel_level = F.lit 100 0;
    max_fuel_capacity = req.max_fuel_capacity;
    location = record {
      lat = F.lit 407_128 4;
      lng = F.sub (F.lit 0 0) (F.lit 740_060 4);
      address = "New York, NY";
    };
    speed = pos 0;
    status = "idle";
    last_update = now;
    odometer = pos 0;
    fuel_consumption = req.fuel_consumption;
    alerts = [];
    make = req.make;
    model = req.model;
    year = req.year;
    vin = req.vin;
    created_at = now;
    updated_at = now;
  }

  abbrev after_create : Vehicle F → C → C
  after_create v c = elim s.cache_manager [
    | none ↦ c
    | some cache ↦ invalidate_cache_on_create s.cache_config cache v c
  ]

  unfoldable pub create_vehicle :
      CreateVehicleRequest F → Time → World D A C → World D A C × Result VehicleError (Vehicle F)
  unfolding new_vehicle invalidate_cache_on_create
  create_vehicle req now w =
      elim (s.vehicle_repo.find_by_plate_number req.plate_number w.vehicles) [
        | some _ ↦ (w, failed plate_number_exists)
        | none ↦
            let (a, id) = s.new_object_id w.alerts in
            let (d, created) = s.vehicle_repo.create (new_vehicle id req now) w.vehicles in
            elim created [
              | none ↦ (record w { vehicles = d; alerts = a }, failed repository_failed)
              | some v ↦ (record { vehicles = d; alerts = a; cache = after_create v w.cache }, ok v)
            ]
      ]

  -- `existingVehicle != nil && existingVehicle.ID.Hex() != id`, where a plate number is given.
  unfoldable pub plate_taken : String → UpdateVehicleRequest F → D → Bool
  plate_taken id req d =
      if str_eq req.plate_number ""
      then false
      else elim (s.vehicle_repo.find_by_plate_number req.plate_number d) [
        | none ↦ false
        | some existing ↦ not (str_eq existing.id id)
      ]

  -- The checks run when the request has a fuel level and the alerts are stored.
  unfoldable pub raise_alerts :
      UpdateVehicleRequest F → F.Carrier → Time → Vehicle F → A → A × Vehicle F
  unfolding run_checks
  raise_alerts req previous_level now v a = elim s.alert_repo [
    | none ↦ (a, v)
    | some store ↦
        if F.lt (F.lit 0 0) req.fuel_level then run_checks store previous_level now v a else (a, v)
  ]

  abbrev pub after_update : Vehicle F → String → String → C → C
  after_update v previous_driver previous_status c = elim s.cache_manager [
    | none ↦ c
    | some cache ↦
        invalidate_cache_on_update s.cache_config cache v previous_driver previous_status c
  ]

  -- What `UpdateVehicle` does with the answer of the repository, for the vehicle that it has found
  -- and the alerts that it has raised.
  unfoldable pub finish_update :
      Vehicle F
      → A
      → World D A C
      → D × Option (Vehicle F)
      → World D A C × Result VehicleError (Vehicle F)
  finish_update found a w (d, none) =
      (record w { vehicles = d; alerts = a }, failed repository_failed)
  finish_update found a w (d, some u) = (
    record { vehicles = d; alerts = a; cache = after_update u found.driver found.status w.cache },
    ok u,
  )

  -- The rest of `UpdateVehicle` for the vehicle that it has found.
  unfoldable pub update_found :
      String
      → UpdateVehicleRequest F
      → Time
      → Vehicle F
      → World D A C
      → World D A C × Result VehicleError (Vehicle F)
  update_found id req now found w =
      let changed = record (apply_request req found) { last_update = now; updated_at = now } in
      let (a, v) = raise_alerts req found.fuel_level now changed w.alerts in
      finish_update found a w (s.vehicle_repo.update id v w.vehicles)

  unfoldable pub update_vehicle :
      String
      → UpdateVehicleRequest F
      → Time
      → World D A C
      → World D A C × Result VehicleError (Vehicle F)
  update_vehicle id req now w = elim (s.vehicle_repo.find_by_id id w.vehicles) [
    | none ↦ (w, failed vehicle_not_found)
    | some found ↦
        if plate_taken id req w.vehicles
        then (w, failed plate_number_exists)
        else update_found id req now found w
  ]

  abbrev pub after_delete : Vehicle F → C → C
  after_delete v c = elim s.cache_manager [
    | none ↦ c
    | some cache ↦ invalidate_cache_on_delete s.cache_config cache v c
  ]

  -- What `DeleteVehicle` does with the answer of the repository.
  unfoldable pub finish_delete :
      Vehicle F → World D A C → D × Bool → World D A C × Result VehicleError (Unit {0})
  finish_delete v w (d, true) = (record w { vehicles = d; cache = after_delete v w.cache }, ok tt)
  finish_delete v w (d, false) = (record w { vehicles = d }, failed repository_failed)

  unfoldable pub delete_vehicle :
      String → World D A C → World D A C × Result VehicleError (Unit {0})
  delete_vehicle id w = elim (s.vehicle_repo.find_by_id id w.vehicles) [
    | none ↦ (w, failed vehicle_not_found)
    | some v ↦ finish_delete v w (s.vehicle_repo.delete id w.vehicles)
  ]
