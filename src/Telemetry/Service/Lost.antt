-- ===== src/Telemetry/Service/Lost.antt =====
-- What becomes of a report for which the queue has no room.
use vehicle_telematics.Base.{
  ◌≤◌, String, ◌≡◌, refl, sym, ◌∙◌, Bool, true, false, Option, some, length,
}
use vehicle_telematics.Base.Int.{pos, ltb_ℤ}
use vehicle_telematics.Base.Float.{Float, Math}
use vehicle_telematics.Base.Time.{Time, since}
use vehicle_telematics.Models.{Vehicle}
use vehicle_telematics.Batch.Update.{VehicleUpdateData}
use vehicle_telematics.Batch.Processor.{BatchProcessor, queue_full, add_update}
use vehicle_telematics.Telemetry.RateLimiter.{can_make_request}
use vehicle_telematics.Telemetry.Delta.{create_snapshot, should_update}
use vehicle_telematics.Telemetry.Delta.Payload.{has_moved}
use vehicle_telematics.Telemetry.Service.{
  OptimizedTelemetryService, VehicleService, ProcessError, not_queued, determine_priority,
  process_vehicle_update,
}
use vehicle_telematics.Telemetry.Service.Outcomes.{
  AllOn, should_update-Stores, unmoved, full_queue, allowed_lem, asked, asked-AllOn, report_lem,
}

module _ {F : Float} {W : Type 0} (math : Math F) (vehicles : VehicleService F W) where
  -- A report that is refused or skipped does not reach the batch processor.
  unsent :
      (ots : OptimizedTelemetryService F) (bp : BatchProcessor F) (prefer_done : Bool)
      (vehicle_id : String) (v : Vehicle F) (now : Time) (w : W)
      → AllOn ots bp
      → (should_update math ots.delta_tracker vehicle_id v now).1 ≡ false
      → (process_vehicle_update math vehicles ots prefer_done vehicle_id v now w).0.batch_processor
        ≡ some bp
  unsent ots bp prefer_done vehicle_id v now w on unmoved =
      report_lem math vehicles ots bp prefer_done vehicle_id v now w P on (λ wait h. on.processor)
        (λ h.
          allowed_lem math vehicles (asked math vehicles ots vehicle_id v now) bp prefer_done
            vehicle_id v now w P (asked-AllOn math vehicles ots bp vehicle_id v now on)
            (λ s. on.processor)
            (λ update s. absurd (let clash : false ≡ true = sym unmoved ∙ s in cc)))
    where
      P : OptimizedTelemetryService F × W × Option ProcessError → Type 0
      P r = r.0.batch_processor ≡ some bp

  -- A report that the full queue of the batch processor turns away is lost: if the vehicle has been
  -- found to have moved, `ProcessVehicleUpdate` fails, and when the same report comes again within
  -- the time threshold, it is not queued, even if the queue has room by then. A vehicle that is
  -- compared with itself has not moved.
  pub lost_when_full :
      (ots : OptimizedTelemetryService F) (bp later_bp : BatchProcessor F) (prefer_done : Bool)
      (vehicle_id : String) (v : Vehicle F) (now later : Time) (w w' : W)
      → AllOn ots bp
      → bp.cancelled ≡ false
      → ltb_ℤ (pos (length bp.update_chan)) bp.chan_capacity ≡ false
      → (can_make_request ots.rate_limiter vehicle_id (determine_priority v) now).1 ≡ true
      → (should_update math ots.delta_tracker vehicle_id v now).1 ≡ true
      → since later now ≤ ots.delta_tracker.thresholds.time_threshold
      → has_moved math ots.delta_tracker.thresholds (create_snapshot v now) v ≡ false
      → let (after, _, failed) =
          process_vehicle_update math vehicles ots prefer_done vehicle_id v now w in
        let again =
          process_vehicle_update math vehicles
            (record after { batch_processor = some later_bp })
            prefer_done
            vehicle_id
            v
            later
            w' in
        (failed ≡ some (not_queued queue_full)) × (again.0.batch_processor ≡ some later_bp)
  lost_when_full ots bp later_bp prefer_done vehicle_id v now later w w' on running full allowed
        moved soon still =
      report_lem math vehicles ots bp prefer_done vehicle_id v now w P on
        (λ wait h. absurd (let clash : true ≡ false = sym allowed ∙ h in cc))
        (λ h.
          allowed_lem math vehicles (asked math vehicles ots vehicle_id v now) bp prefer_done
            vehicle_id v now w P (asked-AllOn math vehicles ots bp vehicle_id v now on)
            (λ s. absurd (let clash : true ≡ false = sym moved ∙ s in cc))
            (λ update s. (
              rw (refused update) refl,
              unsent _ later_bp prefer_done vehicle_id v later w'
                  (record {
                    limits = on.limits;
                    tracks = on.tracks;
                    batches = on.batches;
                    processor = refl;
                  })
                  (unmoved math ots.delta_tracker _ vehicle_id v now later
                    (should_update-Stores math ots.delta_tracker vehicle_id v now moved) soon
                    still),
            )))
    where
      refused :
          (update : VehicleUpdateData F)
          → (add_update bp prefer_done vehicle_id update).1 ≡ some queue_full
      refused update = full_queue bp prefer_done vehicle_id update running full

      P : OptimizedTelemetryService F × W × Option ProcessError → Type 0
      P r =
          (r.2 ≡ some (not_queued queue_full))
          × ((process_vehicle_update math vehicles
                (record (r.0) { batch_processor = some later_bp }) prefer_done vehicle_id v later
                w').0.batch_processor
              ≡ some later_bp)
