-- ===== src/Telemetry/RateLimiter.antt =====
-- pkg/telemetry/smart_rate_limiter.go: a request window for each vehicle, with exponential backoff.
-- Each call reads the clock once, as its argument `now`.
pub mod Backoff
pub mod Quota
pub mod Windows
pub mod Allowance
use vehicle_telematics.Base.{
  ℕ, zero, suc, ◌+◌, ◌*◌, ◌≤◌, ◌<◌, String, ◌≡◌, refl, Bool, true, false, List, [], ◌∷◌, Option,
  none, some, arith, ltb, leb, if◌then◌else◌, lookup, insert,
}
use vehicle_telematics.Base.Int.{ℤ, pos, ◌+ℤ◌, ◌*ℤ◌, ltb_ℤ, wrap64}
use vehicle_telematics.Base.Float.{Float}
use vehicle_telematics.Base.Time.{Time, Duration, second, minute, hour, since}

pub data Priority : Type 0 where
  low medium high critical : Priority

abbrev is_critical : Priority → Bool
is_critical critical = true
is_critical _ = false

pub record VehicleRateLimit : Type 0 where
  pub vehicle_id : String
  pub requests_per_hour : ℕ
  pub current_requests : ℕ
  pub window_start : Time
  pub backoff_level : ℕ
  pub last_rejection : Time
  pub consecutive_rejects : ℕ

pub record RateLimitConfig (F : Float) : Type 0 where
  pub base_requests_per_hour : ℕ
  pub max_requests_per_hour : ℕ
  pub backoff_multiplier : F.Carrier
  pub backoff_reset_duration : Duration
  pub burst_allowance : ℕ
  pub window_duration : Duration

pub record SmartRateLimiter (F : Float) : Type 0 where
  pub vehicle_limits : List (String × VehicleRateLimit)
  pub global_config : RateLimitConfig F

unfoldable pub new_smart_rate_limiter : (F : Float) → SmartRateLimiter F
new_smart_rate_limiter F = record {
  vehicle_limits = [];
  global_config = record {
    base_requests_per_hour = 120;
    max_requests_per_hour = 720;
    backoff_multiplier = F.lit 15 1;
    backoff_reset_duration = 30 * minute;
    burst_allowance = 5;
    window_duration = hour;
  };
}

unfoldable pub reject : Time → VehicleRateLimit → VehicleRateLimit
reject now limit = record limit {
  consecutive_rejects = limit.consecutive_rejects + 1;
  last_rejection = now;
  backoff_level =
      if ltb limit.backoff_level 5 then limit.backoff_level + 1 else limit.backoff_level;
}

module _ {F : Float} where
  -- The two loops over the backoff level.
  unfoldable pub reduce : RateLimitConfig F → ℕ → F.Carrier → F.Carrier
  reduce cfg zero reduction = reduction
  reduce cfg (suc n) reduction = reduce cfg n (F.div reduction cfg.backoff_multiplier)

  unfoldable pub amplify : RateLimitConfig F → ℕ → F.Carrier → F.Carrier
  amplify cfg zero multiplier = multiplier
  amplify cfg (suc n) multiplier = amplify cfg n (F.mul multiplier cfg.backoff_multiplier)

  unfoldable pub calculate_current_limit : RateLimitConfig F → VehicleRateLimit → ℤ
  calculate_current_limit cfg limit =
      if ltb 0 limit.backoff_level
      then F.trunc (
          F.mul (F.of_int (pos cfg.base_requests_per_hour))
            (reduce cfg limit.backoff_level (F.lit 1 0)))
      else pos cfg.base_requests_per_hour

  unfoldable pub calculate_retry_after : RateLimitConfig F → VehicleRateLimit → ℤ
  calculate_retry_after cfg limit =
      let base_retry = wrap64 (pos (limit.consecutive_rejects * (30 * second))) in
      let retry =
        F.trunc (F.mul (F.of_int base_retry) (amplify cfg limit.backoff_level (F.lit 1 0))) in
      if ltb_ℤ (pos (15 * minute)) retry then pos (15 * minute) else retry

  unfoldable pub reset_window : RateLimitConfig F → Time → VehicleRateLimit → VehicleRateLimit
  reset_window cfg now limit =
      if leb cfg.window_duration (since now limit.window_start)
      then record limit { current_requests = 0; window_start = now }
      else limit

  unfoldable pub reset_backoff : RateLimitConfig F → Time → VehicleRateLimit → VehicleRateLimit
  reset_backoff cfg now limit =
      if leb cfg.backoff_reset_duration (since now limit.last_rejection)
      then record limit { backoff_level = 0; consecutive_rejects = 0 }
      else limit

  unfoldable pub current_limit : RateLimitConfig F → Priority → VehicleRateLimit → ℤ
  current_limit cfg priority limit =
      let base = calculate_current_limit cfg limit in
      if is_critical priority then base +ℤ pos cfg.burst_allowance else base

  -- The part of `CanMakeRequest` that works on the vehicle's entry.
  unfoldable pub check_limit :
      RateLimitConfig F → Priority → Time → VehicleRateLimit → VehicleRateLimit × Bool × ℤ
  check_limit cfg priority now entry =
      let limit = reset_backoff cfg now (reset_window cfg now entry) in
      if ltb_ℤ (pos limit.current_requests) (current_limit cfg priority limit)
      then (record limit { current_requests = limit.current_requests + 1 }, true, pos 0)
      else (reject now limit, false, calculate_retry_after cfg (reject now limit))

  unfoldable pub new_limit : RateLimitConfig F → String → Time → VehicleRateLimit
  new_limit cfg vehicle_id now = record {
    vehicle_id = vehicle_id;
    requests_per_hour = cfg.base_requests_per_hour;
    current_requests = 0;
    window_start = now;
    backoff_level = 0;
    last_rejection = 0;
    consecutive_rejects = 0;
  }

  -- The vehicle's entry, made when it is missing.
  unfoldable pub limit_for : SmartRateLimiter F → String → Time → VehicleRateLimit
  limit_for srl vehicle_id now = elim (lookup vehicle_id srl.vehicle_limits) [
    | some limit ↦ limit
    | none ↦ new_limit srl.global_config vehicle_id now
  ]

  unfoldable pub can_make_request :
      SmartRateLimiter F → String → Priority → Time → SmartRateLimiter F × Bool × ℤ
  can_make_request srl vehicle_id priority now =
      let (limit, allowed, retry_after) =
        check_limit srl.global_config priority now (limit_for srl vehicle_id now) in
      (
        record srl { vehicle_limits = insert vehicle_id limit srl.vehicle_limits },
        allowed,
        retry_after,
      )

  unfoldable pub get_vehicle_stats : SmartRateLimiter F → String → Option VehicleRateLimit
  get_vehicle_stats srl vehicle_id = lookup vehicle_id srl.vehicle_limits
