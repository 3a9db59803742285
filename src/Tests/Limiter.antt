-- ===== src/Tests/Limiter.antt =====
-- Tests of the vehicle rate limiter.
use vehicle_telematics.Base.{
  ℕ, String, Option, none, some, ◌+◌, ◌*◌, ◌/◌, ◌≤◌, ◌≡◌, refl, true, List, [], ◌∷◌, lookup, insert,
  arith, min, eq_iff,
}
use vehicle_telematics.Base.Int.{ℤ, pos, ◌+ℤ◌, ◌-ℤ◌, ◌*ℤ◌}
use vehicle_telematics.Base.Time.{Time, second, minute, hour}
use vehicle_telematics.Telemetry.RateLimiter.{
  SmartRateLimiter, VehicleRateLimit, low, high, critical, new_smart_rate_limiter, reduce, amplify,
  calculate_current_limit, calculate_retry_after, reset_window, reset_backoff, current_limit,
  reject, check_limit, new_limit, limit_for, can_make_request,
}
use vehicle_telematics.Telemetry.RateLimiter.Backoff.{
  returned, exceeded, max_retries, attempt, request_with_backoff,
}
use vehicle_telematics.Telemetry.RateLimiter.Backoff.Attempts.{Ends, request_with_backoff-Ends}
use vehicle_telematics.Telemetry.RateLimiter.Allowance.{asked, granted-exact}
use vehicle_telematics.Telemetry.RateLimiter.Windows.{Request, granted, two_windows}
use vehicle_telematics.Tests.Numbers.{fixed, fixed-Shrinks}

program : Unit {0}
unfolding new_smart_rate_limiter reduce amplify calculate_current_limit calculate_retry_after
    reset_window reset_backoff current_limit reject check_limit new_limit limit_for can_make_request
    attempt request_with_backoff granted lookup insert ◌+ℤ◌ ◌-ℤ◌ ◌*ℤ◌
program = tt

abbrev start : Time
start = 2_000_000 * hour

abbrev worn : VehicleRateLimit
worn = record {
  vehicle_id = "v1";
  requests_per_hour = 120;
  current_requests = 53;
  window_start = start;
  backoff_level = 2;
  last_rejection = start;
  consecutive_rejects = 2;
}

abbrev limiter : SmartRateLimiter fixed
limiter = record {
  vehicle_limits = ("v1", worn) ∷ [];
  global_config = record {
    base_requests_per_hour = 120;
    max_requests_per_hour = 720;
    backoff_multiplier = pos 1_500_000;
    backoff_reset_duration = 30 * minute;
    burst_allowance = 5;
    window_duration = hour;
  };
}

-- At backoff level 2 the hourly limit of 120 is down to 53.
limit_at_level_two : calculate_current_limit limiter.global_config worn ≡ pos 53
unfolding program
limit_at_level_two = refl

-- The third refusal in a row: wait 90 seconds, scaled by 1.5 three times.
refused : (can_make_request limiter "v1" high (start + minute)).2 ≡ pos (90 * second * 3375 / 1000)
unfolding program
refused = refl

history : List Request
history =
    record { vehicle_id = "v1"; priority = critical; at = start + minute }
    ∷ record { vehicle_id = "v2"; priority = low; at = start + minute }
    ∷ record { vehicle_id = "v1"; priority = high; at = start + 2 * minute }
    ∷ []

history-granted : granted "v1" limiter history ≡ 1
unfolding program history
history-granted = refl

two_windows_example : granted "v1" limiter history ≤ 250
unfolding history
two_windows_example =
    two_windows fixed-Shrinks limiter "v1" start history refl (omega arith) (omega arith)

-- A limiter that grants two requests, or three critical ones.
abbrev strict : SmartRateLimiter fixed
strict = record {
  vehicle_limits = [];
  global_config = record limiter.global_config { base_requests_per_hour = 2; burst_allowance = 1 };
}

abbrev burst : List Request
burst =
    record { vehicle_id = "v1"; priority = critical; at = start }
    ∷ record { vehicle_id = "v1"; priority = critical; at = start + 2 * minute }
    ∷ record { vehicle_id = "v2"; priority = low; at = start + 2 * minute }
    ∷ record { vehicle_id = "v1"; priority = critical; at = start + 3 * minute }
    ∷ record { vehicle_id = "v1"; priority = critical; at = start + 50 * minute }
    ∷ []

granted-exact_example : granted "v1" strict burst ≡ min (asked "v1" burst) 3
unfolding program
granted-exact_example =
    granted-exact fixed-Shrinks strict "v1" start true burst refl (omega arith) refl (
      (omega arith, omega arith, λ _. refl),
      (
        (omega arith, omega arith, λ _. refl),
        (
          (omega arith, omega arith, λ p. (eq_iff "v2" "v1").1 p),
          ((omega arith, omega arith, λ _. refl), ((omega arith, omega arith, λ _. refl), tt)),
        ),
      ),
    )

burst-granted : granted "v1" strict burst ≡ 3
unfolding program
burst-granted = refl

-- The world is the clock and the number of the requests made.
abbrev Clock : Type 0
Clock = Time × ℕ

abbrev sleep : Time → ℤ → Clock → Clock × Option Time
sleep d retry_after (t, n) = ((t + d, n), some (t + d))

abbrev count : Clock → Clock × Option String
count (t, n) = ((t, n + 1), none)

abbrev noon : Clock
noon = (start + minute, 0)

-- After half an hour the backoff level is forgotten, and the second attempt is allowed.
second_attempt :
    (request_with_backoff (sleep (30 * minute)) "v1" high count limiter (start + minute) noon).2
    ≡ returned none
unfolding program
second_attempt = refl

never_allowed :
    (request_with_backoff (sleep minute) "v1" high count limiter (start + minute) noon).2 ≡ exceeded
unfolding program
never_allowed = refl

request_with_backoff-Ends_example :
    Ends
      (sleep (30 * minute))
      "v1"
      high
      count
      max_retries
      (limiter, start + minute, noon)
      (request_with_backoff (sleep (30 * minute)) "v1" high count limiter (start + minute) noon)
request_with_backoff-Ends_example =
    request_with_backoff-Ends (sleep (30 * minute)) "v1" high count limiter (start + minute) noon
