-- ===== src/Telemetry/RateLimiter/Quota.antt =====
-- How many requests `CanMakeRequest` grants to a vehicle.
use vehicle_telematics.Base.{ℕ, zero, suc, ◌+◌, ◌^◌, ◌<◌, ◌≤◌, ◌≡◌, true, arith, if◌then◌else◌}
use vehicle_telematics.Base.Int.{pos, +ℤ_parts, ◌≤ℤ◌}
use vehicle_telematics.Base.Float.{Float}
use vehicle_telematics.Base.Time.{Time}
use vehicle_telematics.Telemetry.RateLimiter.{
  Priority, VehicleRateLimit, RateLimitConfig, reduce, calculate_current_limit, reset_window,
  reset_backoff, current_limit, reject, check_limit,
}

-- What the bound takes from float64 arithmetic: dividing a number from 0 to 1 by one that is at
-- least 1 leaves it there, and scaling an integer below 2 ^ 53, which float64 represents, by such a
-- factor and dropping the fraction does not raise it.
pub record Shrinks (F : Float) : Type 0 where
  pub zero_le_one : F.le (F.lit 0 0) (F.lit 1 0) ≡ true
  pub one_le : F.le (F.lit 1 0) (F.lit 1 0) ≡ true
  pub div_le :
      (x m : F.Carrier)
      → F.le (F.lit 1 0) m ≡ true
      → F.le (F.lit 0 0) x ≡ true
      → F.le x (F.lit 1 0) ≡ true
      → (F.le (F.lit 0 0) (F.div x m) ≡ true) × (F.le (F.div x m) (F.lit 1 0) ≡ true)
  pub trunc_mul_le :
      (n : ℕ) (x : F.Carrier)
      → n < 2 ^ 53
      → F.le (F.lit 0 0) x ≡ true
      → F.le x (F.lit 1 0) ≡ true
      → F.trunc (F.mul (F.of_int (pos n)) x) ≤ℤ pos n

module _ {F : Float} where
  -- The most that one window grants.
  abbrev pub quota : RateLimitConfig F → ℕ
  quota cfg = cfg.base_requests_per_hour + cfg.burst_allowance

module _ {F : Float} (laws : Shrinks F) (cfg : RateLimitConfig F)
    (backs_off : F.le (F.lit 1 0) cfg.backoff_multiplier ≡ true)
    (exact : cfg.base_requests_per_hour < 2 ^ 53) where
  reduce_bounds :
      (level : ℕ) (x : F.Carrier)
      → F.le (F.lit 0 0) x ≡ true
      → F.le x (F.lit 1 0) ≡ true
      → (F.le (F.lit 0 0) (reduce cfg level x) ≡ true)
        × (F.le (reduce cfg level x) (F.lit 1 0) ≡ true)
  unfolding reduce
  reduce_bounds zero x h k = (h, k)
  reduce_bounds (suc n) x h k =
      let (h', k') = laws.div_le x cfg.backoff_multiplier backs_off h k in
      reduce_bounds n (F.div x cfg.backoff_multiplier) h' k'

  pub calculate_current_limit-le :
      (limit : VehicleRateLimit)
      → calculate_current_limit cfg limit ≤ℤ pos cfg.base_requests_per_hour
  unfolding calculate_current_limit
  calculate_current_limit-le limit =
      let (h, k) = reduce_bounds limit.backoff_level (F.lit 1 0) laws.zero_le_one laws.one_le in
      ground (
        arith,
        laws.trunc_mul_le cfg.base_requests_per_hour (reduce cfg limit.backoff_level (F.lit 1 0))
            exact h k,
      )

  pub current_limit-le :
      (priority : Priority) (limit : VehicleRateLimit)
      → current_limit cfg priority limit ≤ℤ pos (quota cfg)
  unfolding current_limit
  current_limit-le priority limit = ground (
    arith,
    calculate_current_limit-le limit,
    +ℤ_parts (calculate_current_limit cfg limit) (pos cfg.burst_allowance),
  )

  -- A granted request is counted within the quota.
  pub check_limit-quota :
      (priority : Priority) (now : Time) (entry : VehicleRateLimit)
      → (check_limit cfg priority now entry).1 ≡ true
      → (check_limit cfg priority now entry).0.current_requests ≤ quota cfg
  unfolding check_limit
  check_limit-quota priority now entry =
      ground (arith, current_limit-le priority (reset_backoff cfg now (reset_window cfg now entry)))

module _ {F : Float} (cfg : RateLimitConfig F) where
  pub check_limit-count :
      (priority : Priority) (now : Time) (entry : VehicleRateLimit)
      → (check_limit cfg priority now entry).0.current_requests
        ≡ (reset_window cfg now entry).current_requests
          + (if (check_limit cfg priority now entry).1 then 1 else 0)
  unfolding check_limit reset_backoff reject
  check_limit-count priority now entry = ground arith

  pub check_limit-window :
      (priority : Priority) (now : Time) (entry : VehicleRateLimit)
      → (check_limit cfg priority now entry).0.window_start
        ≡ (reset_window cfg now entry).window_start
  unfolding check_limit reset_backoff reject
  check_limit-window priority now entry = ground arith
