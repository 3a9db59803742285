-- ===== src/Tests/Batch.antt =====
-- Tests of the batch processor, over a repository that is a log of what it has written.
use vehicle_telematics.Base.{
  ◌<◌, ◌≡◌, refl, true, false, List, [], ◌∷◌, lookup, insert, arith, String, some, none, inl, inr,
  if◌then◌else◌, ◌⊎◌, length, flat, All, str_eq,
}
use vehicle_telematics.Base.Int.{ℤ, pos, negsuc, ◌*ℤ◌}
use vehicle_telematics.Base.Time.{second, minute, hour}
use vehicle_telematics.Batch.Update.{VehicleUpdateData}
use vehicle_telematics.Batch.Config.{
  BatchConfig, Parsers, validate_config, load_batch_config_from_env, default_batch_config,
}
use vehicle_telematics.Batch.Convert.{
  convert_to_web_socket_update, add_fuel, add_location, add_speed, add_status, add_odometer, draft,
  is_speeding, is_away, fuel_priority, first_reading,
}
use vehicle_telematics.Batch.Convert.Priority.{convert-priority}
use vehicle_telematics.Batch.Convert.Kind.{convert-type}
use vehicle_telematics.Batch.Split.{split_from, split_into_batches, split_into_batches_lem}
use vehicle_telematics.Batch.Processor.{
  Updates, Outside, BatchProcessor, new_batch_processor, add_update, add_to_current_batch,
  get_current_batch_size, update_stats, increment_failed_updates, broadcast_batch, update_each,
  fallback_to_individual_updates, attempt_write, retry_from, process_single_batch, process_each,
  process_batch, worker_step, received, Event, queues, wakes, step, run,
}
use vehicle_telematics.Batch.Processor.Saves.{Durable, process_batch-saves}
use vehicle_telematics.Batch.Processor.Worker.{run_bounded}
use vehicle_telematics.Tests.Numbers.{fixed}

program : Unit {0}
unfolding new_batch_processor add_update add_to_current_batch get_current_batch_size update_stats
    increment_failed_updates broadcast_batch update_each fallback_to_individual_updates
    attempt_write retry_from process_single_batch process_each process_batch worker_step step run
    is_speeding is_away fuel_priority first_reading split_from split_into_batches
    convert_to_web_socket_update add_fuel add_location add_speed add_status add_odometer draft
    insert lookup ◌*ℤ◌ default_batch_config validate_config load_batch_config_from_env
program = tt

abbrev Log : Type 0
Log = Updates fixed

-- A repository whose batch writes fail, and whose single writes succeed.
abbrev out : Outside fixed Log
out = record {
  update_vehicles_batch = λ b w. (w, false);
  update_vehicle = λ k u w. ((k, u) ∷ w, true);
  wait_or_done = λ d w. (w, false);
  broadcast_batch_updates = λ us w. w;
}

abbrev Written : String → VehicleUpdateData fixed → Log → Type 0
Written k u [] = ⊥
Written k u (e ∷ w) = ((k, u) ≡ e) ⊎ Written k u w

out-Durable : Durable out Written
out-Durable = record {
  batch_saved = λ b w h. absurd (cc);
  one_saved = λ k u w h. inl refl;
  batch_keeps = λ b w k u h. h;
  one_keeps = λ j v w k u h. inr h;
  wait_keeps = λ d w k u h. h;
  broadcast_keeps = λ us w k u h. h;
}

abbrev reading : ℤ → VehicleUpdateData fixed
reading speed = record {
  fuel_level = some (pos 5_000_000);
  location = none;
  speed = some speed;
  status = none;
  odometer = none;
  timestamp = hour;
}

abbrev by_two : BatchConfig
by_two = record {
  max_batch_size = pos 2;
  batch_interval = pos second;
  max_wait_time = pos minute;
  retry_attempts = pos 1;
  retry_backoff = pos 0;
}

abbrev three : Log
three = ("v1", reading (pos 30)) ∷ ("v2", reading (pos 90)) ∷ ("v3", reading (pos 50)) ∷ []

abbrev waiting : BatchProcessor fixed
waiting = record (new_batch_processor fixed by_two 0) { updates = three }

by_two_passes : validate_config by_two ≡ none
unfolding program
by_two_passes = refl

-- The text of a refused batch size, and an unreadable number of attempts.
abbrev parsers : Parsers
parsers = record {
  atoi = λ s. if str_eq s "-5" then some (negsuc 4) else none;
  parse_duration = λ s. none;
}

abbrev environment : String → String
environment name =
    if str_eq name "BATCH_MAX_SIZE"
    then "-5"
    else if str_eq name "BATCH_RETRY_ATTEMPTS"
    then "many"
    else ""

kept_size : (load_batch_config_from_env parsers environment).max_batch_size ≡ pos 50
unfolding program
kept_size = refl

convert-priority_example : (convert_to_web_socket_update "v2" (reading (pos 90))).priority ≡ "high"
unfolding program
convert-priority_example = convert-priority "v2" (reading (pos 90))

convert-type_example : (convert_to_web_socket_update "v1" (reading (pos 30))).update_type ≡ "fuel"
unfolding program
convert-type_example = convert-type "v1" (reading (pos 30))

split_into_batches_lem_example : flat (split_into_batches (pos 2) three) ≡ three
unfolding program
split_into_batches_lem_example =
    (split_into_batches_lem 2 three (omega arith) (omega arith) (refl, (refl, (refl, tt)))).0

-- Both batches fail twice, and then each update is written by itself.
log_of_three :
    (process_batch out waiting hour second []).1
    ≡ ("v3", reading (pos 50)) ∷ ("v2", reading (pos 90)) ∷ ("v1", reading (pos 30)) ∷ []
unfolding program
log_of_three = refl

process_batch-saves_example :
    All (λ e. Written e.0 e.1 (process_batch out waiting hour second []).1) three
unfolding program
process_batch-saves_example =
    (process_batch-saves out Written out-Durable 2 waiting hour second [] refl (omega arith)
        (refl, (refl, (refl, tt)))).0
      refl

abbrev history : List (Event fixed)
history =
    queues false "v1" (reading (pos 30))
    ∷ queues false "v2" (reading (pos 90))
    ∷ queues false "v3" (reading (pos 50))
    ∷ wakes received hour second
    ∷ wakes received hour second
    ∷ wakes received hour second
    ∷ []

pending :
    (run out history (new_batch_processor fixed by_two 0) []).0.updates
    ≡ ("v3", reading (pos 50)) ∷ []
unfolding program
pending = refl

run_bounded_example : length (run out history (new_batch_processor fixed by_two 0) []).0.updates < 2
run_bounded_example = (run_bounded out 2 by_two 0 history [] (omega arith) refl).below
