-- ===== src/Telemetry/Service/Outcomes.antt =====
-- What becomes of a report that comes to the service with all of its optimisations on.
use vehicle_telematics.Base.{
  ◌≤◌, String, ◌≡◌, refl, ap, ◌∙◌, inl, inr, Bool, true, false, Option, none, some, if◌then◌else◌,
  if_either, if_accepted, if_refused, ltb, length, lookup, lookup-insert_self, Bool-cases,
  Option-cases,
}
use vehicle_telematics.Base.Int.{ℤ, pos, ltb_ℤ}
use vehicle_telematics.Base.Float.{Float, Math}
use vehicle_telematics.Base.Time.{Time, since}
use vehicle_telematics.Models.{Vehicle, Changes}
use vehicle_telematics.Batch.Update.{VehicleUpdateData}
use vehicle_telematics.Batch.Processor.{BatchProcessor, queue_full, add_update}
use vehicle_telematics.Telemetry.RateLimiter.{can_make_request}
use vehicle_telematics.Telemetry.Delta.{
  DeltaTracker, create_snapshot, should_update, update_known, finish, store, compare_states,
}
use vehicle_telematics.Telemetry.Delta.Payload.{
  convert_to_batch_update, has_moved, should_update_known,
}
use vehicle_telematics.Vehicles.Requests.{UpdateVehicleRequest}
use vehicle_telematics.Telemetry.Service.{
  OptimizedTelemetryService, VehicleService, ProcessError, not_queued, rate_limit_exceeded,
  determine_priority, direct_request, increment_total_requests, increment_rate_limit_rejects,
  increment_delta_skips, pass_on, process_delta_update, process_allowed, process_vehicle_update,
}

-- The service with its rate limiter, its delta tracker and its batch processor.
pub record AllOn {F : Float} (ots : OptimizedTelemetryService F) (bp : BatchProcessor F)
    : Type 0 where
  pub limits : ots.config.enable_rate_limiting ≡ true
  pub tracks : ots.config.enable_delta_updates ≡ true
  pub batches : ots.config.enable_batching ≡ true
  pub processor : ots.batch_processor ≡ some bp

module _ {F : Float} (math : Math F) where
  -- What is sent becomes the last state.
  abbrev pub Stores :
      DeltaTracker F → String → Vehicle F → Time → DeltaTracker F × Bool × Changes F → Type 0
  Stores dt vehicle_id v now x = x.1 ≡ true → x.0 ≡ store dt vehicle_id v now

  pub should_update-Stores :
      (dt : DeltaTracker F) (vehicle_id : String) (v : Vehicle F) (now : Time)
      → Stores dt vehicle_id v now (should_update math dt vehicle_id v now)
  unfolding should_update update_known finish
  should_update-Stores dt vehicle_id v now =
      elim (Option-cases (lookup vehicle_id dt.last_states)) [
        | inl unknown ↦ rw (unknown, should_update) (λ h. refl)
        | inr (last, known) ↦
            rw (known, should_update)
              (if_either (Stores dt vehicle_id v now)
                (ltb dt.thresholds.time_threshold (since now last.last_update)) (λ h. refl)
                (if_either (Stores dt vehicle_id v now) (compare_states math dt.thresholds last v).1
                  (λ h. refl) (λ h. absurd (cc))))
      ]

  -- The same report again, soon enough.
  pub unmoved :
      (dt after : DeltaTracker F) (vehicle_id : String) (v : Vehicle F) (now later : Time)
      → after ≡ store dt vehicle_id v now
      → since later now ≤ dt.thresholds.time_threshold
      → has_moved math dt.thresholds (create_snapshot v now) v ≡ false
      → (should_update math after vehicle_id v later).1 ≡ false
  unfolding store create_snapshot
  unmoved dt after vehicle_id v now later is soon still =
      ap (λ (t : DeltaTracker F). (should_update math t vehicle_id v later).1) is
      ∙ (should_update_known math (store dt vehicle_id v now) vehicle_id (create_snapshot v now) v
          later (lookup-insert_self vehicle_id (create_snapshot v now) dt.last_states) soon).0
      ∙ still

pub full_queue :
    {F : Float} (bp : BatchProcessor F) (prefer_done : Bool) (vehicle_id : String)
    (update : VehicleUpdateData F)
    → bp.cancelled ≡ false
    → ltb_ℤ (pos (length bp.update_chan)) bp.chan_capacity ≡ false
    → (add_update bp prefer_done vehicle_id update).1 ≡ some queue_full
unfolding add_update
full_queue bp prefer_done vehicle_id update running full = rw (running, full, add_update) refl

module _ {F : Float} {W : Type 0} (math : Math F) (vehicles : VehicleService F W) where
  -- The batch processor takes what is passed on.
  pass_on-queued :
      (ots : OptimizedTelemetryService F) (bp : BatchProcessor F) (prefer_done : Bool)
      (vehicle_id : String) (update : VehicleUpdateData F) (req : UpdateVehicleRequest F)
      (now : Time) (w : W)
      → AllOn ots bp
      → pass_on math vehicles ots prefer_done vehicle_id update req now w ≡ (
        record ots { batch_processor = some (add_update bp prefer_done vehicle_id update).0 },
        w,
        elim (add_update bp prefer_done vehicle_id update).1 [
          | none ↦ none
          | some e ↦ some (not_queued e)
        ],
      )
  unfolding pass_on
  pass_on-queued ots bp prefer_done vehicle_id update req now w on =
      rw (on.processor, pass_on)
        (if_accepted
          (λ x. x ≡ (
            record ots { batch_processor = some (add_update bp prefer_done vehicle_id update).0 },
            w,
            elim (add_update bp prefer_done vehicle_id update).1 [
              | none ↦ none
              | some e ↦ some (not_queued e)
            ],
          ))
          ots.config.enable_batching _ on.batches refl)

  -- The outcome of a report, by the two decisions.
  pub allowed_lem :
      (ots : OptimizedTelemetryService F) (bp : BatchProcessor F) (prefer_done : Bool)
      (vehicle_id : String) (v : Vehicle F) (now : Time) (w : W)
      (P : OptimizedTelemetryService F × W × Option ProcessError → Type 0)
      → AllOn ots bp
      → ((should_update math ots.delta_tracker vehicle_id v now).1 ≡ false
          → P (
            record ots {
              delta_tracker = (should_update math ots.delta_tracker vehicle_id v now).0;
              stats = increment_delta_skips ots.stats;
            },
            w,
            none,
          ))
      → ((update : VehicleUpdateData F)
          → (should_update math ots.delta_tracker vehicle_id v now).1 ≡ true
          → P (
            record ots {
              delta_tracker = (should_update math ots.delta_tracker vehicle_id v now).0;
              batch_processor = some (add_update bp prefer_done vehicle_id update).0;
            },
            w,
            elim (add_update bp prefer_done vehicle_id update).1 [
              | none ↦ none
              | some e ↦ some (not_queued e)
            ],
          ))
      → P (process_allowed math vehicles ots prefer_done vehicle_id v now w)
  unfolding process_allowed process_delta_update
  allowed_lem ots bp prefer_done vehicle_id v now w P on skipped passed =
      if_accepted P ots.config.enable_delta_updates _ on.tracks
        (go (should_update math ots.delta_tracker vehicle_id v now) skipped passed)
    where
      go :
          (r : DeltaTracker F × Bool × Changes F)
          → (r.1 ≡ false
              → P (
                record ots { delta_tracker = r.0; stats = increment_delta_skips ots.stats },
                w,
                none,
              ))
          → ((update : VehicleUpdateData F)
              → r.1 ≡ true
              → P (
                record ots {
                  delta_tracker = r.0;
                  batch_processor = some (add_update bp prefer_done vehicle_id update).0;
                },
                w,
                elim (add_update bp prefer_done vehicle_id update).1 [
                  | none ↦ none
                  | some e ↦ some (not_queued e)
                ],
              ))
          → P (
              if r.1
              then process_delta_update math vehicles
                  (record ots { delta_tracker = r.0 })
                  prefer_done
                  vehicle_id
                  r.2
                  now
                  w
              else (
                record ots { delta_tracker = r.0; stats = increment_delta_skips ots.stats },
                w,
                none,
              ))
      go (tracker, true, changes) skipped passed =
          rw
            (pass_on-queued (record ots { delta_tracker = tracker }) bp prefer_done vehicle_id
              (convert_to_batch_update changes now) (direct_request changes) now w
              (record {
                limits = on.limits;
                tracks = on.tracks;
                batches = on.batches;
                processor = on.processor;
              }))
            (passed (convert_to_batch_update changes now) refl)
      go (tracker, false, changes) skipped passed = skipped refl

  -- The service once the report is counted and the rate limiter has been asked.
  abbrev pub asked :
      OptimizedTelemetryService F → String → Vehicle F → Time → OptimizedTelemetryService F
  asked ots vehicle_id v now = record ots {
    stats = increment_total_requests ots.stats;
    rate_limiter = (can_make_request ots.rate_limiter vehicle_id (determine_priority v) now).0;
  }

  pub asked-AllOn :
      (ots : OptimizedTelemetryService F) (bp : BatchProcessor F) (vehicle_id : String)
      (v : Vehicle F) (now : Time)
      → AllOn ots bp
      → AllOn (asked ots vehicle_id v now) bp
  asked-AllOn ots bp vehicle_id v now on = record {
    limits = on.limits;
    tracks = on.tracks;
    batches = on.batches;
    processor = on.processor;
  }

  pub report_lem :
      (ots : OptimizedTelemetryService F) (bp : BatchProcessor F) (prefer_done : Bool)
      (vehicle_id : String) (v : Vehicle F) (now : Time) (w : W)
      (P : OptimizedTelemetryService F × W × Option ProcessError → Type 0)
      → AllOn ots bp
      → ((wait : ℤ)
          → (can_make_request ots.rate_limiter vehicle_id (determine_priority v) now).1 ≡ false
          → P (
            record (asked ots vehicle_id v now) {
              stats = increment_rate_limit_rejects (increment_total_requests ots.stats);
            },
            w,
            some (rate_limit_exceeded wait),
          ))
      → ((can_make_request ots.rate_limiter vehicle_id (determine_priority v) now).1 ≡ true
          → P (
              process_allowed math vehicles
                (asked ots vehicle_id v now)
                prefer_done
                vehicle_id
                v
                now
                w))
      → P (process_vehicle_update math vehicles ots prefer_done vehicle_id v now w)
  unfolding process_vehicle_update
  report_lem ots bp prefer_done vehicle_id v now w P on rejected allowed =
      if_accepted P ots.config.enable_rate_limiting _ on.limits
        (elim (Bool-cases
          (can_make_request ots.rate_limiter vehicle_id (determine_priority v) now).1) [
            | inl yes_now ↦
                if_accepted P
                  (can_make_request ots.rate_limiter vehicle_id (determine_priority v) now).1 _
                  yes_now (allowed yes_now)
            | inr not_now ↦
                if_refused P
                  (can_make_request ots.rate_limiter vehicle_id (determine_priority v) now).1 _
                  not_now (rejected _ not_now)
          ])
