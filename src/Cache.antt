-- ===== src/Cache.antt =====
-- pkg/cache: the configuration (config.go), and the interface of a cache manager (interfaces.go) as
-- the services use it, on a state W of the program around it.
pub mod View
pub mod Redis
use vehicle_telematics.Base.{◌*◌, String, ◌≡◌, Bool, true, List, Option, if◌then◌else◌, str_eq}
use vehicle_telematics.Base.Int.{ℤ, pos}
use vehicle_telematics.Base.Time.{Duration, second, minute}
use vehicle_telematics.Models.{Vehicle}

pub record CacheConfig : Type 0 where
  pub vehicle_data_ttl : Duration
  pub vehicle_list_ttl : Duration
  pub alert_data_ttl : Duration
  pub historical_data_ttl : Duration
  pub max_memory_usage : ℤ
  pub eviction_policy : String
  pub key_prefix : String
  pub tag_prefix : String

unfoldable pub default_cache_config : CacheConfig
default_cache_config = record {
  vehicle_data_ttl = 30 * second;
  vehicle_list_ttl = 2 * minute;
  alert_data_ttl = 10 * second;
  historical_data_ttl = 10 * minute;
  max_memory_usage = pos (100 * 1024 * 1024);
  eviction_policy = "lru";
  key_prefix = "fleet:";
  tag_prefix = "tag:";
}

unfoldable pub get_ttl_for_data_type : CacheConfig → String → Duration
get_ttl_for_data_type c data_type =
    if str_eq data_type "vehicle"
    then c.vehicle_data_ttl
    else if str_eq data_type "vehicle_list"
    then c.vehicle_list_ttl
    else if str_eq data_type "alert"
    then c.alert_data_ttl
    else if str_eq data_type "historical"
    then c.historical_data_ttl
    else c.vehicle_data_ttl

-- The value and the error of a look-up: a value, `nil, nil`, or an error.
pub data Cached (A : Type 0) : Type 0 where
  hit : A → Cached A
  miss : Cached A
  unavailable : Cached A

-- A change answers `true` where the source's error is nil.
pub record CacheManager (V W : Type 0) : Type 0 where
  pub get_vehicle : String → W → W × Cached V
  pub set_vehicle : String → V → Duration → W → W × Bool
  pub invalidate_vehicle : String → W → W × Bool
  pub get_vehicle_list : String → W → W × Cached (List V)
  pub set_vehicle_list : String → List V → Duration → W → W × Bool
  pub delete : String → W → W × Bool
