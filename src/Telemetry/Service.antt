-- ===== src/Telemetry/Service.antt =====
-- pkg/telemetry/optimized_service.go. The vehicle service is a parameter, on a state W of the
-- program around this one; each call reads the clock once, as `now`.
pub mod Outcomes
pub mod Counts
pub mod Lost
pub mod Direct
use vehicle_telematics.Base.{
  ℕ, ◌+◌, ◌*◌, String, Bool, true, false, ◌&&◌, ◌||◌, List, [], ◌∷◌, Option, none, some,
  if◌then◌else◌, ltb, length, lookup, insert, str_eq,
}
use vehicle_telematics.Base.Int.{ℤ, pos, ltb_ℤ}
use vehicle_telematics.Base.Float.{Float, Math}
use vehicle_telematics.Base.Time.{Time, Duration, minute}
use vehicle_telematics.Models.{Vehicle, Location, Value, Changes}
use vehicle_telematics.Vehicles.Requests.{UpdateVehicleRequest}
use vehicle_telematics.Batch.Update.{VehicleUpdateData}
use vehicle_telematics.Batch.Processor.{BatchProcessor, QueueError, add_update}
use vehicle_telematics.Telemetry.RateLimiter.{
  Priority, SmartRateLimiter, new_smart_rate_limiter, can_make_request,
}
use vehicle_telematics.Telemetry.Delta.{DeltaTracker, new_delta_tracker, should_update}
use vehicle_telematics.Telemetry.Delta.Payload.{
  as_real, as_place, as_int, as_text, convert_to_batch_update,
}
use vehicle_telematics.Telemetry.Scheduler.{
  VehicleState, AdaptiveScheduler, new_adaptive_scheduler, update_vehicle_state,
}

pub record TelemetryConfig : Type 0 where
  pub enable_adaptive_scheduling : Bool
  pub enable_delta_updates : Bool
  pub enable_rate_limiting : Bool
  pub enable_batching : Bool
  pub max_concurrent_updates : ℤ
  pub health_check_interval : Duration

pub record TelemetryStats (F : Float) : Type 0 where
  pub total_updates_requested : ℕ
  pub updates_skipped : ℕ
  pub updates_sent : ℕ
  pub rate_limit_rejects : ℕ
  pub delta_skips : ℕ
  pub average_update_size : F.Carrier
  pub last_update_time : Time
  pub active_vehicle_count : ℕ

pub record OptimizedTelemetryService (F : Float) : Type 0 where
  pub scheduler : AdaptiveScheduler
  pub delta_tracker : DeltaTracker F
  pub rate_limiter : SmartRateLimiter F
  pub batch_processor : Option (BatchProcessor F)
  pub config : TelemetryConfig
  pub active_vehicles : List (String × Bool)
  pub stats : TelemetryStats F

-- What the service calls. A change answers `true` where the source's error is nil.
pub record VehicleService (F : Float) (W : Type 0) : Type 0 where
  pub get_vehicle_by_id : String → W → W × Option (Vehicle F)
  pub get_all_vehicles : W → W × Option (List (Vehicle F))
  pub update_vehicle : String → UpdateVehicleRequest F → W → W × Bool

pub data ProcessError : Type 0 where
  rate_limit_exceeded : ℤ → ProcessError
  not_queued : QueueError → ProcessError
  update_failed : ProcessError

abbrev no_stats : (F : Float) → TelemetryStats F
no_stats F = record {
  total_updates_requested = 0;
  updates_skipped = 0;
  updates_sent = 0;
  rate_limit_rejects = 0;
  delta_skips = 0;
  average_update_size = F.lit 0 0;
  last_update_time = 0;
  active_vehicle_count = 0;
}

unfoldable pub new_optimized_telemetry_service :
    (F : Float) → Option (BatchProcessor F) → OptimizedTelemetryService F
new_optimized_telemetry_service F batch_processor = record {
  scheduler = new_adaptive_scheduler;
  delta_tracker = new_delta_tracker F;
  rate_limiter = new_smart_rate_limiter F;
  batch_processor = batch_processor;
  config = record {
    enable_adaptive_scheduling = true;
    enable_delta_updates = true;
    enable_rate_limiting = true;
    enable_batching = true;
    max_concurrent_updates = pos 10;
    health_check_interval = 5 * minute;
  };
  active_vehicles = [];
  stats = no_stats F;
}

unfoldable pub map_status_to_state : String → VehicleState
map_status_to_state status =
    if str_eq status "active"
    then VehicleState.active
    else if str_eq status "idle"
    then VehicleState.idle
    else if str_eq status "maintenance"
    then VehicleState.maintenance
    else if str_eq status "offline"
    then VehicleState.offline
    else VehicleState.parked

abbrev or_else : {A : Type 0} → Option A → A → A
or_else o default = elim o [ some a ↦ a | none ↦ default ]

module _ {F : Float} where
  unfoldable pub determine_priority : Vehicle F → Priority
  determine_priority v =
      if F.lt v.fuel_level (F.lit 10 0)
        || (str_eq v.status "maintenance" || ltb 0 (length v.alerts))
      then Priority.critical
      else if ltb_ℤ (pos 80) v.speed || str_eq v.status "active"
      then Priority.high
      else if str_eq v.status "idle"
      then Priority.medium
      else Priority.low

  unfoldable pub increment_total_requests : TelemetryStats F → TelemetryStats F
  increment_total_requests s = record s { total_updates_requested = s.total_updates_requested + 1 }

  unfoldable pub increment_updates_sent : Time → TelemetryStats F → TelemetryStats F
  increment_updates_sent now s = record s {
    updates_sent = s.updates_sent + 1;
    last_update_time = now;
  }

  unfoldable pub increment_rate_limit_rejects : TelemetryStats F → TelemetryStats F
  increment_rate_limit_rejects s = record s { rate_limit_rejects = s.rate_limit_rejects + 1 }

  unfoldable pub increment_delta_skips : TelemetryStats F → TelemetryStats F
  increment_delta_skips s = record s { delta_skips = s.delta_skips + 1 }

  unfoldable pub get_stats : OptimizedTelemetryService F → TelemetryStats F
  get_stats ots = record (ots.stats) { active_vehicle_count = length ots.active_vehicles }

  -- A result `none` is a panic of the scheduler.
  unfoldable pub update_state :
      OptimizedTelemetryService F
      → String
      → VehicleState
      → Time
      → Option (OptimizedTelemetryService F)
  update_state ots vehicle_id state now =
      let scheduled : Option AdaptiveScheduler =
        if ots.config.enable_adaptive_scheduling
        then update_vehicle_state F ots.scheduler vehicle_id state now
        else some ots.scheduler in
      elim scheduled [
        | none ↦ none
        | some scheduler ↦ some (record ots {
          scheduler = scheduler;
          active_vehicles = insert vehicle_id (is_used state) ots.active_vehicles;
        })
      ]
    where
      is_used : VehicleState → Bool
      is_used VehicleState.active = true
      is_used VehicleState.idle = true
      is_used _ = false

  -- An update of nothing but the readings.
  abbrev reading_request : F.Carrier → Option (Location F) → ℤ → String → ℤ → UpdateVehicleRequest F
  reading_request fuel_level location speed status odometer = record {
    name = "";
    plate_number = "";
    driver = "";
    fuel_level = fuel_level;
    location = location;
    speed = speed;
    status = status;
    odometer = odometer;
    make = "";
    model = "";
    year = pos 0;
    vin = "";
    max_fuel_capacity = F.lit 0 0;
    fuel_consumption = F.lit 0 0;
  }

  unfoldable pub direct_request : Changes F → UpdateVehicleRequest F
  direct_request changes =
      reading_request (or_else (as_real (lookup "fuelLevel" changes)) (F.lit 0 0))
        (as_place (lookup "location" changes)) (or_else (as_int (lookup "speed" changes)) (pos 0))
        (or_else (as_text (lookup "status" changes)) "")
        (or_else (as_int (lookup "odometer" changes)) (pos 0))

module _ {F : Float} {W : Type 0} (math : Math F) (vehicles : VehicleService F W) where
  -- `UpdateVehicle` of the vehicle service, with the count of what was sent.
  unfoldable pub send_directly :
      OptimizedTelemetryService F
      → String
      → UpdateVehicleRequest F
      → Time
      → W
      → OptimizedTelemetryService F × W × Option ProcessError
  unfolding increment_updates_sent
  send_directly ots vehicle_id req now w =
      let (w', updated) = vehicles.update_vehicle vehicle_id req w in
      if updated
      then (record ots { stats = increment_updates_sent now ots.stats }, w', none)
      else (ots, w', some update_failed)

  -- `AddUpdate` if batching is on and there is a processor, and the direct update otherwise.
  unfoldable pub pass_on :
      OptimizedTelemetryService F
      → Bool
      → String
      → VehicleUpdateData F
      → UpdateVehicleRequest F
      → Time
      → W
      → OptimizedTelemetryService F × W × Option ProcessError
  unfolding send_directly
  pass_on ots prefer_done vehicle_id update req now w = elim ots.batch_processor [
    | none ↦ send_directly ots vehicle_id req now w
    | some bp ↦
        let (bp', failed) = add_update bp prefer_done vehicle_id update in
        if ots.config.enable_batching
        then (
          record ots { batch_processor = some bp' },
          w,
          elim failed [ none ↦ none | some e ↦ some (not_queued e) ],
        )
        else send_directly ots vehicle_id req now w
  ]

  unfoldable pub process_delta_update :
      OptimizedTelemetryService F
      → Bool
      → String
      → Changes F
      → Time
      → W
      → OptimizedTelemetryService F × W × Option ProcessError
  unfolding pass_on direct_request
  process_delta_update ots prefer_done vehicle_id changes now w =
      pass_on ots prefer_done vehicle_id (convert_to_batch_update changes now)
        (direct_request changes) now w

  unfoldable pub process_full_update :
      OptimizedTelemetryService F
      → Bool
      → String
      → Vehicle F
      → Time
      → W
      → OptimizedTelemetryService F × W × Option ProcessError
  unfolding pass_on
  process_full_update ots prefer_done vehicle_id v now w =
      pass_on ots prefer_done vehicle_id
        (record {
          fuel_level = some v.fuel_level;
          location = some v.location;
          speed = some v.speed;
          status = some v.status;
          odometer = some v.odometer;
          timestamp = now;
        })
        (reading_request v.fuel_level (some v.location) v.speed v.status v.odometer) now w

  -- `ProcessVehicleUpdate` once the rate limiter has let the report pass.
  unfoldable pub process_allowed :
      OptimizedTelemetryService F
      → Bool
      → String
      → Vehicle F
      → Time
      → W
      → OptimizedTelemetryService F × W × Option ProcessError
  unfolding process_delta_update process_full_update increment_delta_skips
  process_allowed ots prefer_done vehicle_id v now w =
      let (tracker, sends, changes) = should_update math ots.delta_tracker vehicle_id v now in
      let tracked = record ots { delta_tracker = tracker } in
      let full = process_full_update ots prefer_done vehicle_id v now w in
      let delta = process_delta_update tracked prefer_done vehicle_id changes now w in
      if ots.config.enable_delta_updates
      then (if sends
          then delta
          else (record tracked { stats = increment_delta_skips ots.stats }, w, none))
      else full

  unfoldable pub process_vehicle_update :
      OptimizedTelemetryService F
      → Bool
      → String
      → Vehicle F
      → Time
      → W
      → OptimizedTelemetryService F × W × Option ProcessError
  unfolding process_allowed determine_priority increment_total_requests increment_rate_limit_rejects
  process_vehicle_update ots prefer_done vehicle_id v now w =
      let counted : OptimizedTelemetryService F = record ots {
        stats = increment_total_requests ots.stats;
      } in
      let (limiter, allowed, retry_after) =
        can_make_request ots.rate_limiter vehicle_id (determine_priority v) now in
      let asked : OptimizedTelemetryService F = record counted { rate_limiter = limiter } in
      if ots.config.enable_rate_limiting
      then (if allowed then process_allowed asked prefer_done vehicle_id v now w else (
        record asked { stats = increment_rate_limit_rejects counted.stats },
        w,
        some (rate_limit_exceeded retry_after),
      ))
      else process_allowed counted prefer_done vehicle_id v now w

  unfoldable pub schedule_vehicle_update :
      OptimizedTelemetryService F → Bool → String → Time → W → OptimizedTelemetryService F × W
  unfolding process_vehicle_update
  schedule_vehicle_update ots prefer_done vehicle_id now w =
      let (w', found) = vehicles.get_vehicle_by_id vehicle_id w in
      elim found [
        | none ↦ (ots, w')
        | some v ↦
            let (ots', w'', _) = process_vehicle_update ots prefer_done vehicle_id v now w' in
            (ots', w'')
      ]

  unfoldable pub schedule_each :
      OptimizedTelemetryService F → List (Vehicle F) → Time → Option (OptimizedTelemetryService F)
  unfolding update_state map_status_to_state
  schedule_each ots [] now = some ots
  schedule_each ots (v ∷ vs) now = elim (update_state ots v.id (map_status_to_state v.status) now) [
    | none ↦ none
    | some ots' ↦ schedule_each ots' vs now
  ]

  -- With whether the vehicles could be read.
  unfoldable pub initialize_vehicle_schedules :
      OptimizedTelemetryService F → Time → W → W × Option (OptimizedTelemetryService F × Bool)
  unfolding schedule_each
  initialize_vehicle_schedules ots now w =
      let (w', found) = vehicles.get_all_vehicles w in
      (
        w',
        elim found [
          | none ↦ some (ots, false)
          | some vs ↦ elim (schedule_each ots vs now) [
            | none ↦ none
            | some ots' ↦ some (ots', true)
          ]
        ],
      )
