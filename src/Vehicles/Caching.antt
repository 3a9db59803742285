-- ===== src/Vehicles/Caching.antt =====
-- internal/services/vehicle.go: the keys of the cached lists, the reading through the cache, and
-- what the handlers drop from the cache. The errors of the cache are logged only.
pub mod Keys
pub mod Dropped
use vehicle_telematics.Base.{
  String, Bool, true, false, not, List, [], ◌∷◌, Option, none, some, if◌then◌else◌, str_eq,
}
use Prim.Native.String.{◌++◌ as ◌+++◌}
use vehicle_telematics.Base.Float.{Float}
use vehicle_telematics.Models.{Vehicle}
use vehicle_telematics.Cache.{
  CacheConfig, get_ttl_for_data_type, Cached, hit, miss, unavailable, CacheManager,
}

abbrev pub status_list : String → String
status_list status = "vehicles_by_status_" +++ status

abbrev pub driver_list : String → String
driver_list driver = "vehicles_by_driver_" +++ driver

-- The key under which the handlers drop a list: the prefix of the default configuration is written
-- into it.
abbrev pub dropped_key : String → String
dropped_key list = "fleet:vehicle_list:" +++ list

module _ {X C : Type 0} (put : X → C → C) where
  -- The part of a getter that begins "Fallback to database": what is found is put into the cache.
  unfoldable pub from_database : Option X → C → C × Option X
  from_database none c = (c, none)
  from_database (some x) c = (put x c, some x)

  -- A getter after it has asked the cache, where `found` is what the database answers.
  unfoldable pub read_through : Option X → C × Cached X → C × Option X
  unfolding from_database
  read_through found (c, hit x) = (c, some x)
  read_through found (c, miss) = from_database found c
  read_through found (c, unavailable) = from_database found c

-- `err == nil && cachedVehicles != nil`: a list of no vehicles is a nil slice, also when it is read
-- back.
abbrev pub not_nil : {V : Type 0} → Cached (List V) → Cached (List V)
not_nil (hit []) = miss
not_nil (hit (v ∷ vs)) = hit (v ∷ vs)
not_nil miss = miss
not_nil unavailable = unavailable

module _ {V C : Type 0} (config : CacheConfig) where
  -- The three getters of lists, which differ in the key and in the query.
  unfoldable pub get_list :
      Option (CacheManager V C) → String → Option (List V) → C → C × Option (List V)
  unfolding read_through
  get_list none key found c = (c, found)
  get_list (some cache) key found c =
      let ttl = get_ttl_for_data_type config "vehicle_list" in
      let (c1, cached) = cache.get_vehicle_list key c in
      read_through (λ vehicles c'. (cache.set_vehicle_list key vehicles ttl c').0) found
        (c1, not_nil cached)

  -- `GetVehicleByID`
  unfoldable pub get_one : Option (CacheManager V C) → String → Option V → C → C × Option V
  unfolding read_through
  get_one none id found c = (c, found)
  get_one (some cache) id found c =
      let ttl = get_ttl_for_data_type config "vehicle" in
      read_through (λ vehicle c'. (cache.set_vehicle id vehicle ttl c').0) found
        (cache.get_vehicle id c)

module _ {F : Float} {C : Type 0} (config : CacheConfig) (cache : CacheManager (Vehicle F) C) where
  -- Deletes the cached list.
  abbrev pub drop : String → C → C
  drop list c = (cache.delete (dropped_key list) c).0

  -- The block that deletes the list of a previous value, when the value has changed.
  abbrev pub drop_changed : String → String → String → C → C
  drop_changed previous current list c = if not (str_eq previous current) then drop list c else c

  abbrev pub keep : Vehicle F → C → C
  keep v c = (cache.set_vehicle v.id v (get_ttl_for_data_type config "vehicle") c).0

  unfoldable pub invalidate_cache_on_create : Vehicle F → C → C
  invalidate_cache_on_create v c =
      keep v (drop (driver_list v.driver) (drop (status_list v.status) (drop "all_vehicles" c)))

  unfoldable pub invalidate_cache_on_update : Vehicle F → String → String → C → C
  invalidate_cache_on_update v previous_driver previous_status c =
      let c1 = drop "all_vehicles" (cache.invalidate_vehicle v.id c).0 in
      let c2 = drop (status_list v.status) c1 in
      let c3 = drop_changed previous_status v.status (status_list previous_status) c2 in
      let c4 = drop (driver_list v.driver) c3 in
      let c5 = drop_changed previous_driver v.driver (driver_list previous_driver) c4 in keep v c5

  unfoldable pub invalidate_cache_on_delete : Vehicle F → C → C
  invalidate_cache_on_delete v c =
      drop (driver_list v.driver)
        (drop (status_list v.status) (drop "all_vehicles" (cache.invalidate_vehicle v.id c).0))
