-- ===== src/Cache/Redis/Manager.antt =====
-- pkg/cache/redis_cache.go: the operations on vehicles, and the interface that they implement.
use vehicle_telematics.Base.{String, Bool, List, [], ◌∷◌, map}
use Prim.Native.String.{◌++◌ as ◌+++◌}
use vehicle_telematics.Base.Float.{Float}
use vehicle_telematics.Base.Time.{Duration}
use vehicle_telematics.Models.{Vehicle}
use vehicle_telematics.Cache.{CacheConfig, Cached, CacheManager}
use vehicle_telematics.Cache.Redis.{Redis, Json, RedisCacheManager, build_key, fetch, put, delete}

-- The tags of a vehicle, and of a list of vehicles.
unfoldable pub vehicle_tags : {F : Float} → String → Vehicle F → List String
vehicle_tags vehicle_id v =
    ("vehicle:" +++ vehicle_id) ∷ ("driver:" +++ v.driver) ∷ ("status:" +++ v.status) ∷ []

unfoldable pub list_tags : {F : Float} → List (Vehicle F) → List String
list_tags {F} vehicles = map (λ (v : Vehicle F). "vehicle:" +++ v.id) vehicles

module _ {F : Float} {J R : Type 0} (config : CacheConfig) (redis : Redis J R)
    (json : Json (Vehicle F) J) (json_list : Json (List (Vehicle F)) J) where
  unfoldable pub get_vehicle :
      String → RedisCacheManager R → RedisCacheManager R × Cached (Vehicle F)
  get_vehicle id m = fetch config redis json (build_key config "vehicle" id) m

  unfoldable pub set_vehicle :
      String → Vehicle F → Duration → RedisCacheManager R → RedisCacheManager R × Bool
  set_vehicle id v ttl m =
      put config redis json (build_key config "vehicle" id) v (vehicle_tags id v) ttl m

  unfoldable pub invalidate_vehicle : String → RedisCacheManager R → RedisCacheManager R × Bool
  invalidate_vehicle id m = delete config redis (build_key config "vehicle" id) m

  unfoldable pub get_vehicle_list :
      String → RedisCacheManager R → RedisCacheManager R × Cached (List (Vehicle F))
  get_vehicle_list key m = fetch config redis json_list (build_key config "vehicle_list" key) m

  unfoldable pub set_vehicle_list :
      String → List (Vehicle F) → Duration → RedisCacheManager R → RedisCacheManager R × Bool
  set_vehicle_list key vs ttl m =
      put config redis json_list (build_key config "vehicle_list" key) vs (list_tags vs) ttl m

  -- `RedisCacheManager` as a `CacheManager`.
  unfoldable pub redis_cache : CacheManager (Vehicle F) (RedisCacheManager R)
  redis_cache = record {
    get_vehicle = get_vehicle;
    set_vehicle = set_vehicle;
    invalidate_vehicle = invalidate_vehicle;
    get_vehicle_list = get_vehicle_list;
    set_vehicle_list = set_vehicle_list;
    delete = delete config redis;
  }
