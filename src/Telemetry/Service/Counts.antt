-- ===== src/Telemetry/Service/Counts.antt =====
-- The counters of the service, over any number of reports.
use vehicle_telematics.Base.{
  ℕ, ◌+◌, ◌≤◌, String, ◌≡◌, refl, ◌∙◌, Bool, List, [], ◌∷◌, Option, length, arith,
}
use vehicle_telematics.Base.Float.{Float, Math}
use vehicle_telematics.Base.Time.{Time}
use vehicle_telematics.Models.{Vehicle}
use vehicle_telematics.Batch.Processor.{BatchProcessor, add_update}
use vehicle_telematics.Telemetry.Service.{
  OptimizedTelemetryService, TelemetryStats, VehicleService, ProcessError, increment_total_requests,
  increment_rate_limit_rejects, increment_delta_skips, process_vehicle_update,
}
use vehicle_telematics.Telemetry.Service.Outcomes.{
  AllOn, allowed_lem, asked, asked-AllOn, report_lem,
}

-- A report of a vehicle, with what `AddUpdate` prefers.
abbrev pub Report : Float → Type 0
Report F = Bool × String × Vehicle F × Time

module _ {F : Float} {W : Type 0} (math : Math F) (vehicles : VehicleService F W) where
  unfoldable pub process_each :
      List (Report F) → OptimizedTelemetryService F → W → OptimizedTelemetryService F × W
  process_each [] ots w = (ots, w)
  process_each ((prefer_done, vehicle_id, v, now) ∷ reports) ots w =
      let (ots', w', _) = process_vehicle_update math vehicles ots prefer_done vehicle_id v now w in
      process_each reports ots' w'

  -- What the counters say after some reports, from counters `s`.
  record IsCounted (n : ℕ) (s : TelemetryStats F) (ots : OptimizedTelemetryService F) : Type 0 where
    total : ots.stats.total_updates_requested ≡ s.total_updates_requested + n
    sent : ots.stats.updates_sent ≡ s.updates_sent
    stopped :
        ots.stats.rate_limit_rejects + ots.stats.delta_skips
        ≤ s.rate_limit_rejects + s.delta_skips + n

  -- One report, from a service with everything on.
  process-IsCounted :
      (ots : OptimizedTelemetryService F) (bp : BatchProcessor F) (prefer_done : Bool)
      (vehicle_id : String) (v : Vehicle F) (now : Time) (w : W)
      → AllOn ots bp
      → let r = process_vehicle_update math vehicles ots prefer_done vehicle_id v now w in
        IsCounted 1 ots.stats r.0 × ((bp' : BatchProcessor F) × AllOn r.0 bp') × (r.1 ≡ w)
  unfolding increment_total_requests increment_rate_limit_rejects increment_delta_skips
  process-IsCounted ots bp prefer_done vehicle_id v now w on =
      report_lem math vehicles ots bp prefer_done vehicle_id v now w P on
        (λ wait h. (
          record { total = refl; sent = refl; stopped = omega arith },
          (
            bp,
            record {
              limits = on.limits;
              tracks = on.tracks;
              batches = on.batches;
              processor = on.processor;
            },
          ),
          refl,
        ))
        (λ h.
          allowed_lem math vehicles (asked math vehicles ots vehicle_id v now) bp prefer_done
            vehicle_id v now w P (asked-AllOn math vehicles ots bp vehicle_id v now on)
            (λ s. (
              record { total = refl; sent = refl; stopped = omega arith },
              (
                bp,
                record {
                  limits = on.limits;
                  tracks = on.tracks;
                  batches = on.batches;
                  processor = on.processor;
                },
              ),
              refl,
            ))
            (λ update s. (
              record { total = refl; sent = refl; stopped = omega arith },
              (
                (add_update bp prefer_done vehicle_id update).0,
                record {
                  limits = on.limits;
                  tracks = on.tracks;
                  batches = on.batches;
                  processor = refl;
                },
              ),
              refl,
            )))
    where
      P : OptimizedTelemetryService F × W × Option ProcessError → Type 0
      P r = IsCounted 1 ots.stats r.0 × ((bp' : BatchProcessor F) × AllOn r.0 bp') × (r.1 ≡ w)

  process_each-IsCounted :
      (reports : List (Report F)) (ots : OptimizedTelemetryService F) (bp : BatchProcessor F)
      (w : W)
      → AllOn ots bp
      → IsCounted (length reports) ots.stats (process_each reports ots w).0
        × ((process_each reports ots w).1 ≡ w)
  unfolding process_each
  process_each-IsCounted [] ots bp w on =
      (record { total = omega arith; sent = refl; stopped = omega arith }, refl)
  process_each-IsCounted ((prefer_done, vehicle_id, v, now) ∷ reports) ots bp w on =
      let (one_more, (bp', on'), same_w) =
        process-IsCounted ots bp prefer_done vehicle_id v now w on in
      let ots' = (process_vehicle_update math vehicles ots prefer_done vehicle_id v now w).0 in
      let w' = (process_vehicle_update math vehicles ots prefer_done vehicle_id v now w).1 in
      let (rest, kept) = process_each-IsCounted reports ots' bp' w' on' in
      (
        record {
          total = omega (arith, one_more.total, rest.total);
          sent = rest.sent ∙ one_more.sent;
          stopped = omega (arith, one_more.stopped, rest.stopped);
        },
        kept ∙ same_w,
      )

  -- With rate limiting, delta updates and batching on, after any number of reports each has been
  -- counted as requested, those that were refused or skipped are at most as many, the vehicle
  -- service has not been called, and the count of updates sent is as it was: what goes to the batch
  -- processor is never counted as sent.
  pub sent-uncounted :
      (reports : List (Report F)) (ots : OptimizedTelemetryService F) (bp : BatchProcessor F)
      (w : W)
      → AllOn ots bp
      → let (after, w') = process_each reports ots w in
        (after.stats.total_updates_requested ≡ ots.stats.total_updates_requested + length reports)
        × (after.stats.updates_sent ≡ ots.stats.updates_sent)
        × (after.stats.rate_limit_rejects + after.stats.delta_skips
            ≤ ots.stats.rate_limit_rejects + ots.stats.delta_skips + length reports)
        × (w' ≡ w)
  sent-uncounted reports ots bp w on =
      let (v, same) = process_each-IsCounted reports ots bp w on in
      (v.total, v.sent, v.stopped, same)
