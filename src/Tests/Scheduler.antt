-- ===== src/Tests/Scheduler.antt =====
-- Tests of the adaptive scheduler.
use vehicle_telematics.Base.{
  ℕ, ◌+◌, ◌*◌, ◌^◌, ◌≤◌, ◌<◌, ◌≡◌, refl, true, List, [], ◌∷◌, lookup, insert, arith, some, none,
  false, ◌++◌,
}
use vehicle_telematics.Base.Int.{ℤ, pos, negsuc, ◌≤ℤ◌, leb_ℤ, ◌+ℤ◌}
use vehicle_telematics.Base.Time.{Time, second, hour}
use native.Mathlib.Nat.{mul-le-mul_left}
use vehicle_telematics.Telemetry.Scheduler.{
  active, idle, frequencies, new_adaptive_scheduler, start_scheduler, new_schedule, stretched,
  adjust_update_frequency, change_state, update_vehicle_state, fire, tick, stop, Event, reports,
  fires, stops, tick_every, put_schedule, stop_each, AdaptiveScheduler, run,
}
use vehicle_telematics.Telemetry.Scheduler.Bounds.{Expands}
use vehicle_telematics.Telemetry.Scheduler.Intervals.{Ends, run-IsPaced, repeat, unscheduled}
use vehicle_telematics.Tests.Numbers.{fixed, one, times, truncate}

program : Unit {0}
unfolding frequencies new_adaptive_scheduler tick_every start_scheduler new_schedule stretched
    adjust_update_frequency change_state update_vehicle_state put_schedule fire tick stop_each stop
    run lookup insert ◌+ℤ◌
program = tt

fixed-factor_bounds :
    (rounds : ℕ)
    → rounds < 2 ^ 20
    → let factor =
        fixed.add (fixed.lit 10 1) (fixed.mul (fixed.of_int (pos rounds)) (fixed.lit 2 1)) in
      (fixed.le (fixed.lit 1 0) factor ≡ true) × (fixed.le factor (fixed.lit 262_144 0) ≡ true)
unfolding ◌+ℤ◌
fixed-factor_bounds rounds few = (ground arith, ground arith)

fixed-trunc_mul_ge :
    (n : ℕ) (x : ℤ)
    → n < 2 ^ 42
    → leb_ℤ (pos one) x ≡ true
    → leb_ℤ x (pos (262_144 * one)) ≡ true
    → pos n ≤ℤ truncate (times (pos (n * one)) x)
fixed-trunc_mul_ge n (negsuc x) h k few = absurd (ground arith)
fixed-trunc_mul_ge n (pos x) h k few = grown x (ground arith)
  where
    grown : (x : ℕ) → one ≤ x → pos n ≤ℤ truncate (times (pos (n * one)) (pos x))
    grown x k = let more : n * one * one ≤ n * one * x = mul-le-mul_left (n * one) k in omega arith

fixed-Expands : Expands fixed
fixed-Expands = record { factor_bounds = fixed-factor_bounds; trunc_mul_ge = fixed-trunc_mul_ge }

abbrev history : List (Event × Time)
history =
    (reports "v1" active, hour)
    ∷ (reports "v1" idle, 2 * hour)
    ∷ (fires "v1", 2 * hour + 144 * second)
    ∷ []

-- The first idle interval is 144 seconds, the next 168.
second_interval :
    run fixed new_adaptive_scheduler history
    ≡ some (record {
      vehicles =
          (
            "v1",
            record {
              vehicle_id = "v1";
              current_state = idle;
              last_update = 2 * hour + 144 * second;
              next_update = pos (2 * hour + 312 * second);
              update_interval = pos (168 * second);
              consecutive_idle = 2;
              ticker = some (pos (168 * second));
              closed = false;
            },
          )
          ∷ [];
      stopped = false;
    })
unfolding program
second_interval = refl

-- Stopped twice, the scheduler panics.
stopped_twice :
    run fixed new_adaptive_scheduler (history ++ (stops, 3 * hour) ∷ (stops, 3 * hour) ∷ []) ≡ none
unfolding program
stopped_twice = refl

-- So does a change of state after a stop.
changed_after_stop :
    run fixed new_adaptive_scheduler
      (history ++ (stops, 3 * hour) ∷ (reports "v1" active, 3 * hour) ∷ [])
    ≡ none
unfolding program
changed_after_stop = refl

run-IsPaced_example : Ends false (run fixed new_adaptive_scheduler history)
run-IsPaced_example = run-IsPaced fixed-Expands history (omega arith)

unscheduled_example :
    (after : AdaptiveScheduler) × (run fixed new_adaptive_scheduler
        (repeat fixed "v1" active (hour ∷ 2 * hour ∷ []))
      ≡ some after)
    × (lookup "v1" after.vehicles
        ≡ some (record {
          vehicle_id = "v1";
          current_state = active;
          last_update = hour;
          next_update = pos 0;
          update_interval = pos 0;
          consecutive_idle = 0;
          ticker = none;
          closed = false;
        }))
unfolding lookup new_adaptive_scheduler
unscheduled_example = unscheduled fixed new_adaptive_scheduler "v1" active hour (2 * hour ∷ []) refl
