-- ===== src/Telemetry/Scheduler/Halts.antt =====
-- What a stop makes of the schedules.
use vehicle_telematics.Base.{
  ℕ, suc, Bool-cases, String, ◌≡◌, refl, inl, inr, Bool, true, List, [], ◌∷◌, Option, none, some,
  arith, Values, Option-cases,
}
use vehicle_telematics.Telemetry.Scheduler.{VehicleSchedule, AdaptiveScheduler, stop_each, stop}
use vehicle_telematics.Telemetry.Scheduler.Bounds.{Holds, Gives, after_stop}

-- A round of the loop, by what the rest gives.
stop_each_lem :
    (k : ℕ) (halted : Bool) (vehicle_id : String) (s : VehicleSchedule)
    (m : List (String × VehicleSchedule))
    → Holds k halted s
    → (o : Option (List (String × VehicleSchedule))) → stop_each m ≡ o
    → Gives halted (λ (x : List (String × VehicleSchedule)). Values (Holds (suc k) true) x) o
    → Gives halted
        (λ (x : List (String × VehicleSchedule)). Values (Holds (suc k) true) x)
        (stop_each ((vehicle_id, s) ∷ m))
unfolding stop_each
stop_each_lem k halted vehicle_id s m h none e g = rw (stop_each, e) g
stop_each_lem k halted vehicle_id s m h (some stopped) e g = elim (Option-cases s.ticker) [
  | inl silent ↦
      rw (stop_each, e, silent)
        (record { paced = h.paced; rested = omega (arith, h.rested); opened = λ e. absurd (cc) }, g)
  | inr (p, ticks) ↦ elim (Bool-cases s.closed) [
    | inl closed ↦
        rw (stop_each, e, ticks, closed) (after_stop halted (λ no. let fresh = h.opened no in cc))
    | inr fresh ↦
        rw (stop_each, e, ticks, fresh)
          (
            record { paced = h.paced; rested = omega (arith, h.rested); opened = λ e. absurd (cc) },
            g,
          )
  ]
]

stop_each-Holds :
    (k : ℕ) (halted : Bool) (m : List (String × VehicleSchedule))
    → Values (Holds k halted) m
    → Gives halted
        (λ (x : List (String × VehicleSchedule)). Values (Holds (suc k) true) x)
        (stop_each m)
unfolding stop_each
stop_each-Holds k halted [] h = tt
stop_each-Holds k halted ((vehicle_id, s) ∷ m) h =
    stop_each_lem k halted vehicle_id s m h.0 (stop_each m) refl (stop_each-Holds k halted m h.1)

pub stop-Holds :
    (k : ℕ) (halted : Bool) (sched : AdaptiveScheduler)
    → Values (Holds k halted) sched.vehicles
    → Gives halted (λ (x : AdaptiveScheduler). Values (Holds (suc k) true) x.vehicles) (stop sched)
unfolding stop
stop-Holds k halted sched h =
    go (stop_each sched.vehicles) (stop_each-Holds k halted sched.vehicles h)
  where
    go :
        (o : Option (List (String × VehicleSchedule)))
        → Gives halted (λ (x : List (String × VehicleSchedule)). Values (Holds (suc k) true) x) o
        → Gives halted
            (λ (x : AdaptiveScheduler). Values (Holds (suc k) true) x.vehicles)
            (let r : Option AdaptiveScheduler = elim o [
              | none ↦ none
              | some vehicles ↦ some (record { vehicles = vehicles; stopped = true })
            ] in
              r)
    go none g = g
    go (some vehicles) g = g
