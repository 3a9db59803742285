-- ===== src/Ratelimit/Config.antt =====
-- pkg/ratelimit/config.go, and the records of pkg/ratelimit/interfaces.go.
pub mod Lookup
use vehicle_telematics.Base.{
  ℕ, ◌-◌, ◌*◌, String, ◌≡◌, refl, Bool, true, false, List, [], ◌∷◌, Option, none, some,
  if◌then◌else◌, lookup, str_eq,
}
use vehicle_telematics.Base.Int.{ℤ, pos}
use vehicle_telematics.Base.Time.{Time, Duration, minute}
use Prim.Native.String.{◌++◌ as ◌+++◌, len, slice}
use text.Mathlib.Text.{starts_with}

pub record RateLimit : Type 0 where
  pub requests_per_minute : ℤ
  pub burst_size : ℤ
  pub window_size : Duration

pub record Config : Type 0 where
  pub default_limits : List (String × RateLimit)
  pub redis_key_prefix : String
  pub cleanup_interval : Duration
  pub enabled : Bool

abbrev per_minute : ℕ → ℕ → RateLimit
per_minute requests burst = record {
  requests_per_minute = pos requests;
  burst_size = pos burst;
  window_size = minute;
}

unfoldable pub default_config : Config
default_config = record {
  default_limits =
      ("auth", per_minute 10 5)
      ∷ ("auth_login", per_minute 5 2)
      ∷ ("auth_logout", per_minute 10 5)
      ∷ ("vehicles", per_minute 100 20)
      ∷ ("vehicles_create", per_minute 20 5)
      ∷ ("vehicles_update", per_minute 50 10)
      ∷ ("vehicles_delete", per_minute 10 3)
      ∷ ("alerts", per_minute 200 50)
      ∷ ("alerts_create", per_minute 100 20)
      ∷ ("users", per_minute 50 10)
      ∷ ("users_create", per_minute 10 3)
      ∷ ("users_update", per_minute 20 5)
      ∷ ("users_delete", per_minute 5 2)
      ∷ ("maintenance", per_minute 100 20)
      ∷ ("maintenance_create", per_minute 30 10)
      ∷ ("health", per_minute 1000 100)
      ∷ ("default", per_minute 60 15)
      ∷ [];
  redis_key_prefix = "ratelimit:";
  cleanup_interval = 5 * minute;
  enabled = true;
}

-- `pattern[len(pattern)-1] == '*'`
unfoldable pub matches_pattern : String → String → Bool
matches_pattern key pattern =
    if str_eq (slice pattern (len pattern - 1) (len pattern)) "*"
    then starts_with key (slice pattern 0 (len pattern - 1))
    else str_eq key pattern

unfoldable pub endpoint_map : List (String × String)
endpoint_map =
    ("POST:/api/v1/auth/login", "auth_login")
    ∷ ("POST:/api/v1/auth/logout", "auth_logout")
    ∷ ("POST:/api/v1/auth/register", "auth")
    ∷ ("GET:/api/v1/auth/profile", "auth")
    ∷ ("GET:/api/v1/vehicles", "vehicles")
    ∷ ("POST:/api/v1/vehicles", "vehicles_create")
    ∷ ("PATCH:/api/v1/vehicles/*", "vehicles_update")
    ∷ ("DELETE:/api/v1/vehicles/*", "vehicles_delete")
    ∷ ("GET:/api/v1/alerts", "alerts")
    ∷ ("POST:/api/v1/alerts", "alerts_create")
    ∷ ("GET:/api/v1/users", "users")
    ∷ ("POST:/api/v1/users", "users_create")
    ∷ ("PATCH:/api/v1/users/*", "users_update")
    ∷ ("DELETE:/api/v1/users/*", "users_delete")
    ∷ ("GET:/api/v1/maintenance", "maintenance")
    ∷ ("POST:/api/v1/maintenance", "maintenance_create")
    ∷ ("GET:/api/v1/health", "health")
    ∷ []

-- The loop over the patterns; no key matches two of them.
unfoldable pub first_match : String → List (String × String) → String
first_match key [] = "default"
first_match key ((pattern, category) ∷ entries) =
    let later = first_match key entries in if matches_pattern key pattern then category else later

unfoldable pub get_endpoint_key : String → String → String
unfolding endpoint_map first_match
get_endpoint_key endpoint method =
    let key = method +++ ":" +++ endpoint in
    elim (lookup key endpoint_map) [
      | some category ↦ category
      | none ↦ first_match key endpoint_map
    ]
