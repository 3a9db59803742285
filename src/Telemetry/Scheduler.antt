-- ===== src/Telemetry/Scheduler.antt =====
-- pkg/telemetry/adaptive_scheduler.go: how often each vehicle is asked, by its state. A ticker is its
-- period. Each call reads the clock once, as `now`, and a result `none` is a panic: of a ticker with
-- no positive period, or of a channel that is closed twice.
pub mod Bounds
pub mod Moves
pub mod Halts
pub mod Intervals
use vehicle_telematics.Base.{
  ℕ, suc, ◌+◌, ◌*◌, String, Bool, true, false, not, ◌||◌, List, [], ◌∷◌, Option, none, some, map,
  if◌then◌else◌, lookup, insert,
}
use vehicle_telematics.Base.Int.{ℤ, pos, ◌+ℤ◌, ltb_ℤ}
use vehicle_telematics.Base.Float.{Float}
use vehicle_telematics.Base.Time.{Time, Duration, second, minute, hour}

pub data VehicleState : Type 0 where
  active idle parked maintenance offline : VehicleState

abbrev pub same_state : VehicleState → VehicleState → Bool
same_state active active = true
same_state idle idle = true
same_state parked parked = true
same_state maintenance maintenance = true
same_state offline offline = true
same_state _ _ = false

pub record UpdateFrequency : Type 0 where
  pub interval : Duration
  pub max_interval : Duration
  pub min_interval : Duration

pub record VehicleSchedule : Type 0 where
  pub vehicle_id : String
  pub current_state : VehicleState
  pub last_update : Time
  pub next_update : ℤ
  pub update_interval : ℤ
  pub consecutive_idle : ℕ
  -- The period of the ticker, once there is one: `Stop` leaves the field as it is.
  pub ticker : Option ℤ
  -- `stopChan` is closed.
  pub closed : Bool

unfoldable pub frequencies : VehicleState → UpdateFrequency
frequencies active = record {
  interval = 30 * second;
  min_interval = 15 * second;
  max_interval = 2 * minute;
}
frequencies idle = record {
  interval = 2 * minute;
  min_interval = minute;
  max_interval = 5 * minute;
}
frequencies parked = record {
  interval = 10 * minute;
  min_interval = 5 * minute;
  max_interval = 30 * minute;
}
frequencies maintenance = record {
  interval = 30 * minute;
  min_interval = 15 * minute;
  max_interval = 2 * hour;
}
frequencies offline = record {
  interval = hour;
  min_interval = 30 * minute;
  max_interval = 6 * hour;
}

pub record AdaptiveScheduler : Type 0 where
  pub vehicles : List (String × VehicleSchedule)
  pub stopped : Bool

unfoldable pub new_adaptive_scheduler : AdaptiveScheduler
new_adaptive_scheduler = record { vehicles = []; stopped = false }

-- `NewTicker`, and `Reset` of a ticker.
unfoldable pub tick_every : ℤ → VehicleSchedule → Option VehicleSchedule
tick_every period schedule =
    if ltb_ℤ (pos 0) period then some (record schedule { ticker = some period }) else none

-- A ticker that is there is stopped and its channel closed, and a new channel made.
unfoldable pub start_scheduler : VehicleSchedule → Option VehicleSchedule
start_scheduler schedule = elim schedule.ticker [
  | none ↦ tick_every schedule.update_interval schedule
  | some _ ↦ if schedule.closed then none else tick_every schedule.update_interval schedule
]

unfoldable pub new_schedule : String → VehicleState → Time → VehicleSchedule
new_schedule vehicle_id state now = record {
  vehicle_id = vehicle_id;
  current_state = state;
  last_update = now;
  next_update = pos 0;
  update_interval = pos 0;
  consecutive_idle = 0;
  ticker = none;
  closed = false;
}

unfoldable pub get_vehicle_schedule : AdaptiveScheduler → String → Option VehicleSchedule
get_vehicle_schedule sched vehicle_id = lookup vehicle_id sched.vehicles

-- The loop of `Stop`: each ticker is stopped and its channel closed.
unfoldable pub stop_each :
    List (String × VehicleSchedule) → Option (List (String × VehicleSchedule))
stop_each [] = some []
stop_each ((vehicle_id, schedule) ∷ vehicles) = elim (stop_each vehicles) [
  | none ↦ none
  | some stopped ↦ elim schedule.ticker [
    | none ↦ some ((vehicle_id, schedule) ∷ stopped)
    | some _ ↦
        if schedule.closed
        then none
        else some ((vehicle_id, record schedule { closed = true }) ∷ stopped)
  ]
]

-- The context is cancelled first.
unfoldable pub stop : AdaptiveScheduler → Option AdaptiveScheduler
stop sched = elim (stop_each sched.vehicles) [
  | none ↦ none
  | some vehicles ↦ some (record { vehicles = vehicles; stopped = true })
]

-- `as.vehicles[vehicleID] = schedule`, unless its change has panicked.
unfoldable pub put_schedule :
    AdaptiveScheduler → String → Option VehicleSchedule → Option AdaptiveScheduler
put_schedule sched vehicle_id none = none
put_schedule sched vehicle_id (some schedule) =
    some (record sched { vehicles = insert vehicle_id schedule sched.vehicles })

module _ (F : Float) where
  -- The interval after some idle rounds in a row: a fifth of the base interval more for each.
  unfoldable pub stretched : UpdateFrequency → ℕ → ℤ
  stretched freq rounds =
      let multiplier = F.add (F.lit 10 1) (F.mul (F.of_int (pos rounds)) (F.lit 2 1)) in
      let new_interval = F.trunc (F.mul (F.of_int (pos freq.interval)) multiplier) in
      if ltb_ℤ (pos freq.max_interval) new_interval then pos freq.max_interval else new_interval

  unfoldable pub adjust_update_frequency : VehicleSchedule → Time → VehicleSchedule
  adjust_update_frequency schedule now =
      let freq = frequencies schedule.current_state in
      let is_resting =
        same_state schedule.current_state idle || same_state schedule.current_state parked in
      let idle_rounds =
        if is_resting then schedule.consecutive_idle + 1 else schedule.consecutive_idle in
      let update_interval = if is_resting then stretched freq idle_rounds else pos freq.interval in
      record schedule {
        consecutive_idle = idle_rounds;
        update_interval = update_interval;
        next_update = pos now +ℤ update_interval;
      }

  -- The change of state inside `UpdateVehicleState`.
  unfoldable pub change_state : VehicleSchedule → VehicleState → Time → Option VehicleSchedule
  change_state schedule new_state now =
      if same_state schedule.current_state new_state
      then some schedule
      else start_scheduler (
          adjust_update_frequency
            (record schedule { current_state = new_state; consecutive_idle = 0 }) now)

  unfoldable pub update_vehicle_state :
      AdaptiveScheduler → String → VehicleState → Time → Option AdaptiveScheduler
  update_vehicle_state sched vehicle_id new_state now =
      let schedule : VehicleSchedule = elim (lookup vehicle_id sched.vehicles) [
        | some known ↦ known
        | none ↦ new_schedule vehicle_id new_state now
      ] in
      put_schedule sched vehicle_id (change_state schedule new_state now)

  -- A round of the goroutine: the ticker fires, the callback has run, the ticker is reset.
  unfoldable pub fire : VehicleSchedule → Time → Option VehicleSchedule
  fire schedule now =
      let after = adjust_update_frequency (record schedule { last_update = now }) now in
      tick_every after.update_interval after

  -- It runs for a vehicle with a ticker. The select may still take a tick that is pending when the
  -- scheduler is stopped.
  unfoldable pub tick : AdaptiveScheduler → String → Time → Option AdaptiveScheduler
  tick sched vehicle_id now = elim (lookup vehicle_id sched.vehicles) [
    | none ↦ some sched
    | some schedule ↦ elim schedule.ticker [
      | none ↦ some sched
      | some _ ↦ put_schedule sched vehicle_id (fire schedule now)
    ]
  ]

-- What happens to a scheduler: a state is reported, a ticker fires, it is stopped.
pub data Event : Type 0 where
  reports : String → VehicleState → Event
  fires : String → Event
  stops : Event

module _ (F : Float) where
  pub step : AdaptiveScheduler → Event × Time → Option AdaptiveScheduler
  step sched (reports vehicle_id state, now) = update_vehicle_state F sched vehicle_id state now
  step sched (fires vehicle_id, now) = tick F sched vehicle_id now
  step sched (stops, now) = stop sched

  unfoldable pub run : AdaptiveScheduler → List (Event × Time) → Option AdaptiveScheduler
  unfolding step
  run sched [] = some sched
  run sched (e ∷ es) = elim (step sched e) [ none ↦ none | some next ↦ run next es ]
