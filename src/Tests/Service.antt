-- ===== src/Tests/Service.antt =====
-- Tests of the telemetry service.
use vehicle_telematics.Base.{
  ◌+◌, ◌≡◌, refl, true, false, [], ◌∷◌, none, some, lookup, insert, arith,
}
use vehicle_telematics.Base.Int.{pos, abs, ◌+ℤ◌, ◌-ℤ◌, ◌*ℤ◌}
use vehicle_telematics.Base.Time.{second, minute, hour}
use vehicle_telematics.Models.{Changes, text}
use vehicle_telematics.Vehicles.Requests.{apply_request}
use vehicle_telematics.Batch.Config.{default_batch_config}
use vehicle_telematics.Batch.Processor.{BatchProcessor, new_batch_processor, queue_full}
use vehicle_telematics.Telemetry.RateLimiter.{
  new_smart_rate_limiter, calculate_current_limit, reset_window, reset_backoff, current_limit,
  check_limit, new_limit, limit_for, can_make_request, reject,
}
use vehicle_telematics.Telemetry.Delta.{
  new_delta_tracker, create_snapshot, create_full_update, note, fuel_moved, speed_moved,
  status_moved, odometer_moved, place_moved, calculate_distance, compare_states, store, finish,
  update_known, should_update,
}
use vehicle_telematics.Telemetry.Delta.Payload.{has_moved}
use vehicle_telematics.Telemetry.Service.{
  OptimizedTelemetryService, VehicleService, not_queued, new_optimized_telemetry_service,
  determine_priority, process_vehicle_update, direct_request,
}
use vehicle_telematics.Telemetry.Service.Outcomes.{AllOn}
use vehicle_telematics.Telemetry.Service.Counts.{process_each, sent-uncounted}
use vehicle_telematics.Telemetry.Service.Direct.{direct_request-omitted}
use vehicle_telematics.Telemetry.Service.Lost.{lost_when_full}
use vehicle_telematics.Tests.Numbers.{fixed}
use vehicle_telematics.Tests.Delta.{flat_earth, van}

program : Unit {0}
unfolding new_optimized_telemetry_service new_smart_rate_limiter new_delta_tracker
    new_batch_processor determine_priority calculate_current_limit reset_window reset_backoff
    current_limit check_limit new_limit limit_for can_make_request reject create_snapshot
    create_full_update note fuel_moved speed_moved status_moved odometer_moved place_moved
    calculate_distance compare_states store finish update_known should_update has_moved lookup
    insert abs ◌+ℤ◌ ◌-ℤ◌ ◌*ℤ◌ default_batch_config
program = tt

abbrev vehicles : VehicleService fixed Unit
vehicles = record {
  get_vehicle_by_id = λ k w. (w, none);
  get_all_vehicles = λ w. (w, none);
  update_vehicle = λ k r w. (w, true);
}

-- A processor without room.
abbrev no_room : BatchProcessor fixed
no_room = new_batch_processor fixed (record (default_batch_config) { max_batch_size = pos 0 }) 0

abbrev with_room : BatchProcessor fixed
with_room = new_batch_processor fixed default_batch_config 0

abbrev service : OptimizedTelemetryService fixed
service = new_optimized_telemetry_service fixed (some no_room)

service-AllOn : AllOn service no_room
unfolding program
service-AllOn = record { limits = refl; tracks = refl; batches = refl; processor = refl }

sent-uncounted_example :
    (process_each flat_earth vehicles
      ((false, "v1", van, hour) ∷ (false, "v1", van, hour + second) ∷ [])
      service
      tt).0.stats.updates_sent
    ≡ 0
unfolding program
sent-uncounted_example =
    (sent-uncounted flat_earth vehicles
      ((false, "v1", van, hour) ∷ (false, "v1", van, hour + second) ∷ []) service no_room tt
      service-AllOn).1

lost_when_full_example :
    (process_vehicle_update flat_earth vehicles service false "v1" van hour tt).2
    ≡ some (not_queued queue_full)
unfolding program
lost_when_full_example =
    (lost_when_full flat_earth vehicles service no_room with_room false "v1" van hour
      (hour + minute) tt tt service-AllOn refl refl refl refl (omega arith) refl).0

abbrev only_status : Changes fixed
only_status = ("status", text "idle") ∷ []

-- The van drives, and a report that only its status has changed stops it.
direct_request-omitted_example :
    (apply_request (direct_request only_status) (record van { speed = pos 50 })).speed ≡ pos 0
unfolding lookup
direct_request-omitted_example =
    (direct_request-omitted only_status (record van { speed = pos 50 }) refl).4 refl
