-- ===== src/Tests/Ratelimit.antt =====
-- Tests of the rate limiting of the API.
use vehicle_telematics.Base.{
  ℕ, ◌+◌, ◌*◌, ◌-◌, ◌/◌, ◌%◌, ◌^◌, ◌≤◌, ◌≡◌, refl, [], ◌∷◌, lookup, insert, arith,
}
use native.Mathlib.Nat.{mul-le-mul_left}
use vehicle_telematics.Base.Int.{pos, ◌+ℤ◌, ◌-ℤ◌, ◌*ℤ◌}
use vehicle_telematics.Base.Time.{second, minute, hour}
use vehicle_telematics.Ratelimit.Config.{
  default_config, matches_pattern, endpoint_map, first_match, get_endpoint_key,
}
use vehicle_telematics.Ratelimit.Config.Lookup.{get_endpoint_key-default}
use vehicle_telematics.Ratelimit.Memory.{
  MemoryRateLimiter, new_memory_rate_limiter, min_ℤ, max_ℤ, minutes, tokens_to_add, refill,
  take_token, category_limit, get_rate_limit, get_or_create_token_bucket, bucket_key, store, allow,
}
use vehicle_telematics.Ratelimit.Memory.Grants.{Refills, allow_each, allow_each-granted}
use vehicle_telematics.Tests.Numbers.{fixed, one}

program : Unit {0}
unfolding lookup insert default_config matches_pattern endpoint_map first_match get_endpoint_key
    new_memory_rate_limiter min_ℤ max_ℤ minutes tokens_to_add refill take_token category_limit
    get_rate_limit get_or_create_token_bucket bucket_key store allow allow_each ◌+ℤ◌ ◌-ℤ◌ ◌*ℤ◌
program = tt

get_endpoint_key-default_example : get_endpoint_key "POST:/api/v1/auth/login" "" ≡ "default"
get_endpoint_key-default_example = get_endpoint_key-default "POST:/api/v1/auth/login"

-- With its method, the endpoint has a category of its own.
with_method : get_endpoint_key "/api/v1/vehicles/17" "PATCH" ≡ "vehicles_update"
unfolding program
with_method = refl

-- The minutes of a duration, in millionths, rounded down.
abbrev millionths : ℕ → ℕ
millionths d = d / minute * one + d % minute * one * one / (minute * one / 10 ^ 0)

fixed-minutes : (d : ℕ) → minutes fixed d ≡ pos (millionths d)
unfolding minutes ◌+ℤ◌
fixed-minutes d = ground arith

millionths-le : (d : ℕ) → millionths d * minute ≤ d * one
millionths-le d = omega arith

scale :
    (rate m d : ℕ)
    → rate * (m * minute) ≤ rate * (d * one)
    → rate * one * m / one / one ≤ rate * d / minute
scale rate m d h = omega arith

scaled : (rate d : ℕ) → rate * one * millionths d / one / one ≤ rate * d / minute
scaled rate d = scale rate (millionths d) d (mul-le-mul_left rate (millionths-le d))

fixed-Refills : Refills fixed
unfolding tokens_to_add
fixed-Refills = record {
  add_le = λ limit rate d e h k.
      rw (e, fixed-minutes d) (omega arith, let bound = scaled rate d in omega (arith, bound));
}

abbrev limiter : MemoryRateLimiter fixed
limiter = new_memory_rate_limiter fixed default_config

-- The limit of the category `default`, not that of `auth_login`.
login_limit :
    get_rate_limit limiter "c1" "POST:/api/v1/auth/login"
    ≡ record { requests_per_minute = pos 60; burst_size = pos 15; window_size = minute }
unfolding program
login_limit = refl

allow_each-granted_example :
    (allow_each "c1" "POST:/api/v1/auth/login" (second ∷ second ∷ 2 * second ∷ []) limiter).1
      * minute
    ≤ 15 * minute + 60 * (hour - second)
unfolding program
allow_each-granted_example =
    allow_each-granted "c1" "POST:/api/v1/auth/login" fixed-Refills limiter
      (record { requests_per_minute = pos 60; burst_size = pos 15; window_size = minute }) 60 14
      second hour (second ∷ 2 * second ∷ []) refl login_limit refl refl (omega arith) refl
      (omega arith) (omega arith) (omega arith, (omega arith, omega arith))
