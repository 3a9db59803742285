-- ===== src/Batch/Processor.antt =====
-- pkg/batch/processor.go: the queue, the worker, and the writing of a batch with its retries.
-- `W` is the state of what the processor writes to: the repository and the WebSocket manager.
pub mod Saves
pub mod Worker
use vehicle_telematics.Base.{
  ℕ, zero, suc, ◌+◌, ◌-◌, ◌*◌, ◌^◌, String, Bool, true, false, not, List, [], ◌∷◌, ◌++◌, Option,
  none, some, if◌then◌else◌, ltb, leb, ◌==◌, insert, length, map,
}
use vehicle_telematics.Base.Int.{ℤ, pos, ◌*ℤ◌, ltb_ℤ, leb_ℤ, wrap64, pos_part}
use vehicle_telematics.Base.Float.{Float}
use vehicle_telematics.Base.Time.{Time, Duration}
use vehicle_telematics.Batch.Update.{VehicleUpdateData}
use vehicle_telematics.Batch.Config.{BatchConfig}
use vehicle_telematics.Batch.Convert.{convert_to_web_socket_update}
use vehicle_telematics.Batch.Split.{split_into_batches}
use vehicle_telematics.Socket.Types.{VehicleUpdate}

abbrev pub Updates : Float → Type 0
Updates F = List (String × VehicleUpdateData F)

-- What the processor calls. A write answers `true` where the source's error is nil.
pub record Outside (F : Float) (W : Type 0) : Type 0 where
  -- `repository.UpdateVehiclesBatch`, `repository.UpdateVehicle`.
  pub update_vehicles_batch : Updates F → W → W × Bool
  pub update_vehicle : String → VehicleUpdateData F → W → W × Bool
  -- The wait for a retry; `true` if the processor's context ends first.
  pub wait_or_done : ℤ → W → W × Bool
  -- `wsManager.BroadcastBatchUpdates`, or nothing where there is no manager.
  pub broadcast_batch_updates : List (VehicleUpdate F) → W → W

pub record BatchStats (F : Float) : Type 0 where
  pub batches_processed : ℕ
  pub average_size : F.Carrier
  pub processing_time : Duration
  pub error_rate : F.Carrier
  pub total_updates : ℕ
  pub failed_updates : ℕ
  pub last_processed_at : Time

pub record BatchProcessor (F : Float) : Type 0 where
  pub config : BatchConfig
  pub updates : Updates F
  pub stats : BatchStats F
  -- The buffered channel, oldest first, and its capacity.
  pub update_chan : Updates F
  pub chan_capacity : ℤ
  -- The context has been cancelled.
  pub cancelled : Bool

pub data BatchError : Type 0 where
  -- The processor stopped during a retry's wait.
  stopped_in_retry : BatchError
  -- The vehicles whose individual updates failed.
  individual_failures : List String → BatchError
  unexpected : BatchError

pub data ProcessError : Type 0 where
  -- So many batches failed, out of so many.
  failed_batches : ℕ → ℕ → ProcessError

pub data QueueError : Type 0 where
  processor_stopped queue_full : QueueError

unfoldable pub new_batch_processor : (F : Float) → BatchConfig → Time → BatchProcessor F
new_batch_processor F config now = record {
  config = config;
  updates = [];
  stats = record {
    batches_processed = 0;
    average_size = F.lit 0 0;
    processing_time = 0;
    error_rate = F.lit 0 0;
    total_updates = 0;
    failed_updates = 0;
    last_processed_at = now;
  };
  update_chan = [];
  chan_capacity = config.max_batch_size *ℤ pos 2;
  cancelled = false;
}

module _ {F : Float} where
  -- `AddUpdate`. The channel has room while the context may also be done: then Go's `select` picks
  -- either case, and `prefer_done` is its choice.
  unfoldable pub add_update :
      BatchProcessor F → Bool → String → VehicleUpdateData F → BatchProcessor F × Option QueueError
  add_update bp prefer_done vehicle_id update =
      let has_room = ltb_ℤ (pos (length bp.update_chan)) bp.chan_capacity in
      let sent : BatchProcessor F × Option QueueError =
        (record bp { update_chan = bp.update_chan ++ (vehicle_id, update) ∷ [] }, none) in
      if bp.cancelled
      then (if has_room
          then (if prefer_done then (bp, some processor_stopped) else sent)
          else (bp, some processor_stopped))
      else if has_room
      then sent
      else (bp, some queue_full)

  -- `Stop` cancels the context, and waits for the worker.
  unfoldable pub stop : BatchProcessor F → BatchProcessor F
  stop bp = record bp { cancelled = true }

  unfoldable pub add_to_current_batch :
      BatchProcessor F → String → VehicleUpdateData F → BatchProcessor F
  add_to_current_batch bp vehicle_id update = record bp {
    updates = insert vehicle_id update bp.updates;
  }

  unfoldable pub get_current_batch_size : BatchProcessor F → ℕ
  get_current_batch_size bp = length bp.updates

  unfoldable pub set_batch_size : BatchProcessor F → ℤ → BatchProcessor F
  set_batch_size bp size = record bp { config = record (bp.config) { max_batch_size = size } }

  unfoldable pub set_batch_interval : BatchProcessor F → ℤ → BatchProcessor F
  set_batch_interval bp interval = record bp {
    config = record (bp.config) { batch_interval = interval };
  }

  unfoldable pub get_batch_stats : BatchProcessor F → BatchStats F
  get_batch_stats bp = bp.stats

  unfoldable pub update_stats : BatchStats F → ℕ → ℕ → Time → Duration → BatchStats F
  update_stats stats batch_count update_count now processing_time =
      let batches = stats.batches_processed + batch_count in
      let total = stats.total_updates + update_count in
      record {
        batches_processed = batches;
        average_size =
            if ltb 0 batches
            then F.div (F.of_int (pos total)) (F.of_int (pos batches))
            else stats.average_size;
        processing_time = processing_time;
        error_rate =
            if ltb 0 total
            then F.div (F.of_int (pos stats.failed_updates)) (F.of_int (pos total))
            else stats.error_rate;
        total_updates = total;
        failed_updates = stats.failed_updates;
        last_processed_at = now;
      }

  unfoldable pub increment_failed_updates : BatchStats F → BatchStats F
  increment_failed_updates stats = record stats { failed_updates = stats.failed_updates + 1 }

-- `time.Duration(math.Pow(2, float64(attempt-1))) * RetryBackoff`
abbrev pub backoff_duration : BatchConfig → ℕ → ℤ
backoff_duration config attempt = wrap64 (pos (2 ^ (attempt - 1)) *ℤ config.retry_backoff)

-- What wakes the worker. The timers and the context fire when the environment says so.
pub data WorkerEvent : Type 0 where
  received interval max_wait ctx_done : WorkerEvent

module _ {F : Float} {W : Type 0} (out : Outside F W) where
  unfoldable pub broadcast_batch : Updates F → W → W
  broadcast_batch batch w =
      out.broadcast_batch_updates
        (map (λ (e : String × VehicleUpdateData F). convert_to_web_socket_update e.0 e.1) batch) w

  -- The loop of `fallbackToIndividualUpdates`: the statistics, the world, and the failed vehicles.
  unfoldable pub update_each : Updates F → BatchStats F → W → BatchStats F × W × List String
  update_each [] stats w = (stats, w, [])
  update_each ((k, u) ∷ batch) stats w =
      let (w', saved) = out.update_vehicle k u w in
      let (stats', w'', failed) =
        update_each batch (if saved then stats else increment_failed_updates stats) w' in
      (stats', w'', if saved then failed else k ∷ failed)

  unfoldable pub fallback_to_individual_updates :
      Updates F → BatchStats F → W → BatchStats F × W × Option BatchError
  unfolding update_each
  fallback_to_individual_updates batch stats w =
      let (stats', w', failed) = update_each batch stats w in
      (stats', w', if ltb 0 (length failed) then some (individual_failures failed) else none)

  -- One round of the loop of `processSingleBatch` after its wait, with `left` rounds to follow;
  -- `retry` is the next round.
  unfoldable pub attempt_write :
      ℕ
      → Updates F
      → BatchStats F
      → (W → BatchStats F × W × Option BatchError)
      → W
      → BatchStats F × W × Option BatchError
  unfolding broadcast_batch
  attempt_write left batch stats retry w =
      let (w', saved) = out.update_vehicles_batch batch w in
      if saved
      then (stats, broadcast_batch batch w', none)
      else if left == 0
      then fallback_to_individual_updates batch stats w'
      else retry w'

  -- The rounds from `attempt` on.
  unfoldable pub retry_from :
      BatchConfig → ℕ → ℕ → Updates F → BatchStats F → W → BatchStats F × W × Option BatchError
  unfolding attempt_write
  retry_from config zero attempt batch stats w =
      let (w', done) = out.wait_or_done (backoff_duration config attempt) w in
      if done
      then (stats, w', some stopped_in_retry)
      else attempt_write 0 batch stats (λ w. (stats, w, some unexpected)) w'
  retry_from config (suc left) attempt batch stats w =
      let (w', done) = out.wait_or_done (backoff_duration config attempt) w in
      if done
      then (stats, w', some stopped_in_retry)
      else attempt_write (suc left) batch stats (retry_from config left (attempt + 1) batch stats)
          w'

  unfoldable pub process_single_batch :
      BatchConfig → Updates F → BatchStats F → W → BatchStats F × W × Option BatchError
  unfolding attempt_write retry_from
  process_single_batch config batch stats w =
      let retries = pos_part config.retry_attempts in
      if ltb_ℤ config.retry_attempts (pos 0)
      then (stats, w, some unexpected)
      else attempt_write retries batch stats (retry_from config (retries - 1) 1 batch stats) w

  -- The loop of `ProcessBatch` over the batches, with the number that failed.
  unfoldable pub process_each :
      BatchConfig → List (Updates F) → BatchStats F → W → BatchStats F × W × ℕ
  process_each config [] stats w = (stats, w, 0)
  process_each config (batch ∷ batches) stats w =
      let (stats', w', result) = process_single_batch config batch stats w in
      let (stats'', w'', errors) = process_each config batches stats' w' in
      (stats'', w'', elim result [ none ↦ errors | some _ ↦ errors + 1 ])

  -- `ProcessBatch`, at time `now` and taking `elapsed`.
  unfoldable pub process_batch :
      BatchProcessor F → Time → Duration → W → BatchProcessor F × W × Option ProcessError
  unfolding process_each
  process_batch bp now elapsed w =
      let batches = split_into_batches bp.config.max_batch_size bp.updates in
      let (stats, w', errors) = process_each bp.config batches bp.stats w in
      if length bp.updates == 0 then (bp, w, none) else (
        record bp {
          updates = [];
          stats = update_stats stats (length batches) (length bp.updates) now elapsed;
        },
        w',
        if ltb 0 errors then some (failed_batches errors (length batches)) else none,
      )

  -- One round of the worker's `select`; the last event ends it. A `received` with nothing in the
  -- channel does not occur, and changes nothing.
  unfoldable pub worker_step :
      BatchProcessor F → WorkerEvent → Time → Duration → W → BatchProcessor F × W
  worker_step bp received now elapsed w = elim bp.update_chan [
    | [] ↦ (bp, w)
    | (k, u) ∷ rest ↦
        let grown = add_to_current_batch (record bp { update_chan = rest }) k u in
        let (bp', w', _) = process_batch grown now elapsed w in
        if leb_ℤ grown.config.max_batch_size (pos (get_current_batch_size grown))
        then (bp', w')
        else (grown, w)
  ]
  worker_step bp _ now elapsed w = let (bp', w', _) = process_batch bp now elapsed w in (bp', w')

-- What happens to a running processor: a caller queues an update or stops it, or the worker wakes.
pub data Event (F : Float) : Type 0 where
  queues : Bool → String → VehicleUpdateData F → Event F
  wakes : WorkerEvent → Time → Duration → Event F
  stops : Event F

module _ {F : Float} {W : Type 0} (out : Outside F W) where
  unfoldable pub step : BatchProcessor F → Event F → W → BatchProcessor F × W
  step bp (queues prefer_done k u) w = ((add_update bp prefer_done k u).0, w)
  step bp (wakes e now elapsed) w = worker_step out bp e now elapsed w
  step bp stops w = (stop bp, w)

  unfoldable pub run : List (Event F) → BatchProcessor F → W → BatchProcessor F × W
  run [] bp w = (bp, w)
  run (e ∷ es) bp w = let (bp', w') = step bp e w in run es bp' w'
