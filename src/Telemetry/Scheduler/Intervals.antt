-- ===== src/Telemetry/Scheduler/Intervals.antt =====
-- The intervals at which the running tickers fire.
use vehicle_telematics.Base.{
  ℕ, suc, length, ◌||◌, ◌+◌, ◌^◌, ◌<◌, String, ◌≡◌, refl, Bool, true, false, List, [], ◌∷◌, Option,
  none, some, arith, lookup, insert, Values, lookup-insert_self,
}
use vehicle_telematics.Base.Int.{pos}
use vehicle_telematics.Base.Float.{Float}
use vehicle_telematics.Base.Time.{Time}
use vehicle_telematics.Telemetry.Scheduler.{
  VehicleState, active, idle, parked, maintenance, offline, same_state, VehicleSchedule,
  AdaptiveScheduler, new_adaptive_scheduler, put_schedule, new_schedule, stop, change_state,
  update_vehicle_state, tick, Event, reports, fires, stops, step, run,
}
use vehicle_telematics.Telemetry.Scheduler.Bounds.{Expands, IsPaced, Holds, Gives}
use vehicle_telematics.Telemetry.Scheduler.Moves.{tick-Holds, update-Holds}
use vehicle_telematics.Telemetry.Scheduler.Halts.{stop-Holds}

-- A history has a stop.
abbrev pub has_stop : List (Event × Time) → Bool
has_stop [] = false
has_stop ((stops, now) ∷ es) = true
has_stop ((fires vehicle_id, now) ∷ es) = has_stop es
has_stop ((reports vehicle_id state, now) ∷ es) = has_stop es

-- A run either panics, which takes a stop, or leaves every ticker paced.
abbrev pub Ends : Bool → Option AdaptiveScheduler → Type 0
Ends halted none = halted ≡ true
Ends halted (some sched) = Values IsPaced sched.vehicles

or_true : (b : Bool) → (b || true) ≡ true
or_true true = refl
or_true false = refl

any_end : (b : Bool) (o : Option AdaptiveScheduler) → b ≡ true → Ends true o → Ends b o
any_end b none e h = e
any_end b (some sched) e h = h

Values-IsPaced :
    (k : ℕ) (halted : Bool) (m : List (String × VehicleSchedule))
    → Values (Holds k halted) m
    → Values IsPaced m
Values-IsPaced k halted [] h = tt
Values-IsPaced k halted (e ∷ m) h = (h.0.paced, Values-IsPaced k halted m h.1)

module _ {F : Float} (laws : Expands F) where
  -- What follows an event.
  run_next :
      (k : ℕ) (halted later ends : Bool) (es : List (Event × Time)) (o : Option AdaptiveScheduler)
      → (halted ≡ true → ends ≡ true)
      → ((next : AdaptiveScheduler)
          → Values (Holds k later) next.vehicles
          → Ends ends (run F next es))
      → Gives halted (λ (x : AdaptiveScheduler). Values (Holds k later) x.vehicles) o
      → Ends ends (elim o [ none ↦ none | some next ↦ run F next es ])
  run_next k halted later ends es none h rest g = h g
  run_next k halted later ends es (some next) h rest g = rest next g

  run_on :
      (k : ℕ) (halted : Bool) (sched : AdaptiveScheduler) (es : List (Event × Time))
      → Values (Holds k halted) sched.vehicles
      → k + length es < 2 ^ 20
      → Ends (halted || has_stop es) (run F sched es)
  unfolding run step stop
  run_on k halted sched [] h few = Values-IsPaced k halted sched.vehicles h
  run_on k halted sched ((reports vehicle_id state, now) ∷ es) h few =
      run_next (suc k) halted halted (halted || has_stop es) es
        (update_vehicle_state F sched vehicle_id state now) (λ e. rw e refl)
        (λ next v. run_on (suc k) halted next es v (omega arith))
        (update-Holds laws k halted sched vehicle_id state now (omega arith) h)
  run_on k halted sched ((fires vehicle_id, now) ∷ es) h few =
      run_next (suc k) halted halted (halted || has_stop es) es (tick F sched vehicle_id now)
        (λ e. rw e refl) (λ next v. run_on (suc k) halted next es v (omega arith))
        (tick-Holds laws k halted sched vehicle_id now (omega arith) h)
  run_on k halted sched ((stops, now) ∷ es) h few =
      run_next (suc k) halted true (halted || true) es (stop sched) (λ e. or_true halted)
        (λ next v.
          any_end (halted || true) (run F next es) (or_true halted)
            (run_on (suc k) true next es v (omega arith)))
        (stop-Holds k halted sched h)

-- After any history of fewer than 2 ^ 20 reported states, ticks and stops: without a stop nothing
-- panics; and whenever nothing has panicked, every ticker fires at its vehicle's update interval, and
-- that lies between the base interval and the maximum interval of the vehicle's state. float64
-- arithmetic expands as `Expands` says.
pub run-IsPaced :
    {F : Float} (laws : Expands F) (es : List (Event × Time))
    → length es < 2 ^ 20
    → Ends (has_stop es) (run F new_adaptive_scheduler es)
unfolding new_adaptive_scheduler
run-IsPaced laws es few = run_on laws 0 false new_adaptive_scheduler es tt (omega (arith, few))

module _ (F : Float) where
  same_state_refl : (s : VehicleState) → same_state s s ≡ true
  same_state_refl active = refl
  same_state_refl idle = refl
  same_state_refl parked = refl
  same_state_refl maintenance = refl
  same_state_refl offline = refl

  -- Reports of one state for one vehicle, at some times.
  pub repeat : String → VehicleState → List Time → List (Event × Time)
  repeat vehicle_id state [] = []
  repeat vehicle_id state (now ∷ times) =
      (reports vehicle_id state, now) ∷ repeat vehicle_id state times

  change_state_same :
      (s : VehicleSchedule) (now : Time) → change_state F s s.current_state now ≡ some s
  unfolding change_state
  change_state_same s now = rw (same_state_refl s.current_state)

  -- What a report of the state that the vehicle has makes of the scheduler.
  abbrev kept : AdaptiveScheduler → String → VehicleSchedule → AdaptiveScheduler
  kept sched vehicle_id s = record sched { vehicles = insert vehicle_id s sched.vehicles }

  report_known :
      (sched : AdaptiveScheduler) (vehicle_id : String) (s : VehicleSchedule) (now : Time)
      → lookup vehicle_id sched.vehicles ≡ some s
      → step F sched (reports vehicle_id s.current_state, now) ≡ some (kept sched vehicle_id s)
  unfolding step update_vehicle_state put_schedule
  report_known sched vehicle_id s now e =
      rw (update_vehicle_state, e, change_state_same s now, put_schedule) refl

  report_new :
      (sched : AdaptiveScheduler) (vehicle_id : String) (state : VehicleState) (now : Time)
      → lookup vehicle_id sched.vehicles ≡ none
      → step F sched (reports vehicle_id state, now)
        ≡ some (kept sched vehicle_id (new_schedule vehicle_id state now))
  unfolding step update_vehicle_state new_schedule put_schedule
  report_new sched vehicle_id state now e =
      rw
        (
          update_vehicle_state,
          e,
          change_state_same (new_schedule vehicle_id state now) now,
          put_schedule,
        )
        refl

  unscheduled_known :
      (sched : AdaptiveScheduler) (vehicle_id : String) (s : VehicleSchedule) (times : List Time)
      → lookup vehicle_id sched.vehicles ≡ some s
      → (after : AdaptiveScheduler) × (run F sched (repeat vehicle_id s.current_state times)
          ≡ some after)
        × (lookup vehicle_id after.vehicles ≡ some s)
  unfolding run repeat
  unscheduled_known sched vehicle_id s [] e = (sched, refl, e)
  unscheduled_known sched vehicle_id s (now ∷ times) e =
      rw (run, report_known sched vehicle_id s now e)
        (unscheduled_known (kept sched vehicle_id s) vehicle_id s times (lookup-insert_self _ _ _))

  -- The defect of the first report: a vehicle that the scheduler does not know gets a schedule with
  -- no ticker and a zero interval, and reports of the same state, however many, leave it so. Only a
  -- change of state starts a ticker.
  pub unscheduled :
      (sched : AdaptiveScheduler) (vehicle_id : String) (state : VehicleState) (now : Time)
      (times : List Time)
      → lookup vehicle_id sched.vehicles ≡ none
      → (after : AdaptiveScheduler) × (run F sched (repeat vehicle_id state (now ∷ times))
          ≡ some after)
        × (lookup vehicle_id after.vehicles
            ≡ some (record {
              vehicle_id = vehicle_id;
              current_state = state;
              last_update = now;
              next_update = pos 0;
              update_interval = pos 0;
              consecutive_idle = 0;
              ticker = none;
              closed = false;
            }))
  unfolding run repeat new_schedule
  unscheduled sched vehicle_id state now times e =
      rw (run, report_new sched vehicle_id state now e)
        (unscheduled_known (kept sched vehicle_id (new_schedule vehicle_id state now)) vehicle_id
          (new_schedule vehicle_id state now) times (lookup-insert_self _ _ _))
