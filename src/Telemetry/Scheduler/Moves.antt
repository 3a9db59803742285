-- ===== src/Telemetry/Scheduler/Moves.antt =====
-- What a reported state and a tick make of the schedules.
use vehicle_telematics.Base.{
  ℕ, suc, Bool-cases, ◌^◌, ◌≤◌, ◌<◌, String, ◌≡◌, refl, inl, inr, Bool, true, false, Option, none,
  some, arith, lookup, Values, Values-insert, Values-lookup, Option-cases,
}
use vehicle_telematics.Base.Int.{pos, ltb_ℤ}
use vehicle_telematics.Base.Float.{Float}
use vehicle_telematics.Base.Time.{Time}
use vehicle_telematics.Telemetry.Scheduler.{
  VehicleState, same_state, VehicleSchedule, AdaptiveScheduler, tick_every, start_scheduler,
  put_schedule, new_schedule, adjust_update_frequency, change_state, update_vehicle_state, fire,
  tick,
}
use vehicle_telematics.Telemetry.Scheduler.Bounds.{
  Expands, frequencies-Regular, Holds, Gives, weaken, after_stop, if_closed, adjust_bounds,
}

module _ {F : Float} (laws : Expands F) where
  -- A ticker that is started or reset after the interval has been adjusted.
  tick_every-Holds :
      (k : ℕ) (halted : Bool) (s : VehicleSchedule) (now : Time)
      → s.consecutive_idle ≤ k
      → suc k < 2 ^ 20
      → (halted ≡ false → s.closed ≡ false)
      → let after = adjust_update_frequency F s now in
        Gives halted (Holds (suc k) halted) (tick_every after.update_interval after)
  unfolding tick_every adjust_update_frequency
  tick_every-Holds k halted s now rested few opened =
      let after = adjust_update_frequency F s now in
      let (low, high, rests) = adjust_bounds laws s now (omega arith) in
      let r = frequencies-Regular s.current_state in
      let positive : ltb_ℤ (pos 0) after.update_interval ≡ true = ground arith in
      rw positive (record { paced = inr (refl, low, high); rested = omega arith; opened = opened })

  start_scheduler-Holds :
      (k : ℕ) (halted : Bool) (s : VehicleSchedule) (now : Time)
      → s.consecutive_idle ≤ k
      → suc k < 2 ^ 20
      → (halted ≡ false → s.closed ≡ false)
      → Gives halted (Holds (suc k) halted) (start_scheduler (adjust_update_frequency F s now))
  unfolding start_scheduler adjust_update_frequency
  start_scheduler-Holds k halted s now rested few opened = elim (Option-cases s.ticker) [
    | inl new ↦ rw (start_scheduler, new) (tick_every-Holds k halted s now rested few opened)
    | inr (p, old) ↦
        rw (start_scheduler, old)
          (if_closed (Holds (suc k) halted) halted s.closed
            (tick_every (adjust_update_frequency F s now).update_interval
              (adjust_update_frequency F s now))
            (λ closed. after_stop halted (λ e. let no = opened e in cc))
            (tick_every-Holds k halted s now rested few opened))
  ]

  change_state-Holds :
      (k : ℕ) (halted : Bool) (s : VehicleSchedule) (state : VehicleState) (now : Time)
      → suc k < 2 ^ 20
      → Holds k halted s
      → Gives halted (Holds (suc k) halted) (change_state F s state now)
  unfolding change_state
  change_state-Holds k halted s state now few h =
      elim (Bool-cases (same_state s.current_state state)) [
        | inl same ↦
            rw (change_state, same)
              (record { paced = h.paced; rested = omega (arith, h.rested); opened = h.opened })
        | inr other ↦
            rw (change_state, other)
              (start_scheduler-Holds k halted
                (record s { current_state = state; consecutive_idle = 0 }) now (omega arith) few
                h.opened)
      ]

  put_schedule-Holds :
      (k : ℕ) (halted : Bool) (sched : AdaptiveScheduler) (vehicle_id : String)
      (o : Option VehicleSchedule)
      → Values (Holds k halted) sched.vehicles
      → Gives halted (Holds (suc k) halted) o
      → Gives halted
          (λ (x : AdaptiveScheduler). Values (Holds (suc k) halted) x.vehicles)
          (put_schedule sched vehicle_id o)
  unfolding put_schedule
  put_schedule-Holds k halted sched vehicle_id none h g = g
  put_schedule-Holds k halted sched vehicle_id (some s) h g =
      Values-insert (Holds (suc k) halted) vehicle_id s sched.vehicles g
        (weaken k halted sched.vehicles h)

  pub tick-Holds :
      (k : ℕ) (halted : Bool) (sched : AdaptiveScheduler) (vehicle_id : String) (now : Time)
      → suc k < 2 ^ 20
      → Values (Holds k halted) sched.vehicles
      → Gives halted
          (λ (x : AdaptiveScheduler). Values (Holds (suc k) halted) x.vehicles)
          (tick F sched vehicle_id now)
  unfolding tick fire
  tick-Holds k halted sched vehicle_id now few h =
      elim (Option-cases (lookup vehicle_id sched.vehicles)) [
        | inl missing ↦ rw (tick, missing) (weaken k halted sched.vehicles h)
        | inr (s, known) ↦ elim (Option-cases s.ticker) [
          | inl silent ↦ rw (tick, known, silent) (weaken k halted sched.vehicles h)
          | inr (p, ticks) ↦
              let v = Values-lookup (Holds k halted) vehicle_id s sched.vehicles h known in
              rw (tick, known, ticks)
                (put_schedule-Holds k halted sched vehicle_id (fire F s now) h (
                  tick_every-Holds k halted (record s { last_update = now }) now v.rested few
                    v.opened))
        ]
      ]

  pub update-Holds :
      (k : ℕ) (halted : Bool) (sched : AdaptiveScheduler) (vehicle_id : String)
      (state : VehicleState) (now : Time)
      → suc k < 2 ^ 20
      → Values (Holds k halted) sched.vehicles
      → Gives halted
          (λ (x : AdaptiveScheduler). Values (Holds (suc k) halted) x.vehicles)
          (update_vehicle_state F sched vehicle_id state now)
  unfolding update_vehicle_state new_schedule
  update-Holds k halted sched vehicle_id state now few h =
      elim (Option-cases (lookup vehicle_id sched.vehicles)) [
        | inl missing ↦
            rw (update_vehicle_state, missing)
              (put_schedule-Holds k halted sched vehicle_id _ h (
                change_state-Holds k halted (new_schedule vehicle_id state now) state now few
                  (record { paced = inl refl; rested = omega arith; opened = λ e. refl })))
        | inr (s, known) ↦
            rw (update_vehicle_state, known)
              (put_schedule-Holds k halted sched vehicle_id _ h (
                change_state-Holds k halted s state now few
                  (Values-lookup (Holds k halted) vehicle_id s sched.vehicles h known)))
      ]
