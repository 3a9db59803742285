-- ===== src/Vehicles/Service/OnRedis.antt =====
-- The service with the cache on Redis.
use vehicle_telematics.Base.{String, ◌≡◌, sym, ◌∙◌, true, List, some, none, All}
use Prim.Native.String.{◌++◌ as ◌+++◌}
use text.Mathlib.TextLemmas.{append_assoc}
use vehicle_telematics.Base.Float.{Float}
use vehicle_telematics.Models.{Vehicle}
use vehicle_telematics.Cache.{CacheConfig}
use vehicle_telematics.Cache.View.{IsReachable}
use vehicle_telematics.Cache.Redis.{Redis, Json, RedisCacheManager, build_key, delete}
use vehicle_telematics.Cache.Redis.Manager.{invalidate_vehicle, redis_cache}
use vehicle_telematics.Cache.Redis.Lawful.{KeepsText, ReadsBack, redis_view, redis_cache-IsLawful}
use vehicle_telematics.Vehicles.Caching.{dropped_key}
use vehicle_telematics.Vehicles.Service.Defs.{VehicleService, World}
use vehicle_telematics.Vehicles.Service.Fresh.{KeepsVehicles, IsFresh}
use vehicle_telematics.Vehicles.Service.Handle.{Request, UsesHex, handle_all}
use vehicle_telematics.Vehicles.Service.Transparent.{handle_all-Same}

-- The service drops its lists under the keys under which the cache manager keeps them, if the
-- prefix of the keys is that of the default configuration.
list_key-dropped :
    (config : CacheConfig) (list : String)
    → config.key_prefix ≡ "fleet:"
    → build_key config "vehicle_list" list ≡ dropped_key list
unfolding build_key
list_key-dropped config list e = rw e (
    sym (append_assoc "fleet:" "vehicle_list" (":" +++ list))
    ∙ sym (append_assoc "fleet:vehicle_list" ":" list))

module _ {F : Float} {D A J R : Type 0} (s : VehicleService F D A (RedisCacheManager R))
    (config : CacheConfig) (redis : Redis J R) (keeps : KeepsText redis) (json : Json (Vehicle F) J)
    (json_list : Json (List (Vehicle F)) J) where
  redis_cache-IsReachable :
      ((key : String) (r : R) → (redis.delete key r).1 ≡ true)
      → IsReachable (redis_cache config redis json json_list)
  unfolding redis_cache invalidate_vehicle delete
  redis_cache-IsReachable deletes = record {
    deletes = λ key m. deletes key _;
    invalidates = λ id m. deletes _ _;
  }

  -- With its cache on Redis the service does to the vehicles and the alerts what it does without a
  -- cache, and gives the same answers, whatever requests come in one after another, the creation of
  -- a vehicle apart; and the cache never comes to hold a vehicle or a list that the repository would
  -- not answer. The cache holds none at first, Redis deletes what it is told to, json reads back
  -- what it writes, the prefix of the keys is that of the default configuration, and a vehicle is
  -- asked for under the hex text of its id.
  pub handle_all-on_redis :
      (normal : String → String)
      → KeepsVehicles s.vehicle_repo normal
      → ReadsBack json
      → ReadsBack json_list
      → ((key : String) (r : R) → (redis.delete key r).1 ≡ true)
      → config.key_prefix ≡ "fleet:"
      → (c0 : RedisCacheManager R) (rs : List (Request F)) (w : World D A (RedisCacheManager R))
      → All (UsesHex normal) rs
      → IsFresh s.vehicle_repo normal (redis_view config keeps json json_list) w.vehicles w.cache
      → let cache = redis_cache config redis json json_list in
        let (w', answers) = handle_all (record s { cache_manager = some cache }) rs w in
        (handle_all (record s { cache_manager = none }) rs (record w { cache = c0 })
          ≡ (record w' { cache = c0 }, answers))
        × IsFresh s.vehicle_repo normal
            (redis_view config keeps json json_list)
            w'.vehicles
            w'.cache
  handle_all-on_redis normal vehicles reads reads_list deletes prefix c0 rs w hex fresh =
      handle_all-Same s (redis_cache config redis json json_list) normal
        (redis_view config keeps json json_list)
        (record {
          lawful = redis_cache-IsLawful config keeps json json_list reads reads_list;
          reachable = redis_cache-IsReachable deletes;
          same_keys = λ list. list_key-dropped config list prefix;
          keeps = vehicles;
        })
        c0 rs w hex fresh
