-- ===== src/Batch/Processor/Worker.antt =====
-- The worker over any history of queued updates and wake-ups.
use vehicle_telematics.Base.{
  Distinct, Distinct-insert, ℕ, ◌≤◌, ◌<◌, String, ◌≡◌, refl, ap, ◌∙◌, inl, inr, Bool, false, List,
  [], ◌∷◌, ◌++◌, Option, ◌==◌, length, length-append, arith, insert, Bool-cases, if_either,
}
use vehicle_telematics.Base.Int.{pos, ltb_ℤ, leb_ℤ, ◌≤ℤ◌, ◌*ℤ◌}
use vehicle_telematics.Base.Float.{Float}
use vehicle_telematics.Base.Time.{Time, Duration}
use vehicle_telematics.Batch.Update.{VehicleUpdateData}
use vehicle_telematics.Batch.Config.{BatchConfig}
use vehicle_telematics.Batch.Processor.{
  Updates, Outside, BatchProcessor, QueueError, process_batch, new_batch_processor, add_update,
  add_to_current_batch, get_current_batch_size, WorkerEvent, received, worker_step, Event, queues,
  wakes, stops, stop, step, run,
}

-- The processor between two rounds of its worker, for the batch size `n`.
pub record IsRunning {F : Float} (n : ℕ) (bp : BatchProcessor F) : Type 0 where
  pub positive : 1 ≤ n
  pub sized : bp.config.max_batch_size ≡ pos n
  -- A full batch never waits.
  pub below : length bp.updates < n
  -- A vehicle has at most one pending update, and the queue never outgrows its buffer.
  pub distinct : Distinct bp.updates
  pub queued : pos (length bp.update_chan) ≤ℤ bp.chan_capacity

module _ {F : Float} {W : Type 0} (out : Outside F W) where
  process_batch-config :
      (bp : BatchProcessor F) (now : Time) (elapsed : Duration) (w : W)
      → let after = (process_batch out bp now elapsed w).0 in
        (after.config ≡ bp.config)
        × (after.update_chan ≡ bp.update_chan)
        × (after.chan_capacity ≡ bp.chan_capacity)
        × (length after.updates ≡ 0)
        × (Distinct bp.updates → Distinct after.updates)
  unfolding process_batch
  process_batch-config bp now elapsed w = elim (Bool-cases (length bp.updates == 0)) [
    | inl empty ↦ rw (empty, process_batch) (refl, refl, refl, ground arith, λ d. d)
    | inr more ↦ rw (more, process_batch) (refl, refl, refl, refl, λ d. tt)
  ]

  process_batch-IsRunning :
      (n : ℕ) (bp : BatchProcessor F) (now : Time) (elapsed : Duration) (w : W)
      → 1 ≤ n
      → bp.config.max_batch_size ≡ pos n
      → Distinct bp.updates
      → pos (length bp.update_chan) ≤ℤ bp.chan_capacity
      → IsRunning n (process_batch out bp now elapsed w).0
  process_batch-IsRunning n bp now elapsed w h s d q =
      let c = process_batch-config bp now elapsed w in
      record {
        positive = h;
        sized = ap (λ (k : BatchConfig). k.max_batch_size) c.0 ∙ s;
        below = omega (arith, c.3);
        distinct = c.4 d;
        queued = rw (c.1, c.2) q;
      }

  worker_step-IsRunning :
      (n : ℕ) (bp : BatchProcessor F) (e : WorkerEvent) (now : Time) (elapsed : Duration) (w : W)
      → IsRunning n bp
      → IsRunning n (worker_step out bp e now elapsed w).0
  unfolding worker_step add_to_current_batch get_current_batch_size
  worker_step-IsRunning n bp received now elapsed w v = go bp.update_chan refl
    where
      below_size : {m : ℕ} → leb_ℤ bp.config.max_batch_size (pos m) ≡ false → m < n
      below_size h = ground (arith, v.sized)

      go :
          (q : Updates F)
          → bp.update_chan ≡ q
          → IsRunning n (worker_step out bp received now elapsed w).0
      go [] e = rw (e, worker_step) v
      go ((k, u) ∷ rest) e =
          let distinct = Distinct-insert k u bp.updates v.distinct in
          let fits : pos (length rest) ≤ℤ bp.chan_capacity = omega (arith, v.queued, ap length e) in
          let grown : BatchProcessor F = record bp {
            update_chan = rest;
            updates = insert k u bp.updates;
          } in
          rw (e, worker_step)
            (elim (Bool-cases
              (leb_ℤ bp.config.max_batch_size (pos (length (insert k u bp.updates))))) [
                | inl full ↦
                    rw full (
                      process_batch-IsRunning n grown now elapsed w v.positive v.sized distinct
                        fits)
                | inr room ↦
                    let small : length (insert k u bp.updates) < n = below_size room in
                    rw room (record {
                      positive = v.positive;
                      sized = v.sized;
                      below = small;
                      distinct = distinct;
                      queued = fits;
                    })
              ])
  worker_step-IsRunning n bp _ now elapsed w v =
      process_batch-IsRunning n bp now elapsed w v.positive v.sized v.distinct v.queued

add_update-IsRunning :
    {F : Float} (n : ℕ) (bp : BatchProcessor F) (prefer_done : Bool) (k : String)
    (u : VehicleUpdateData F)
    → IsRunning n bp
    → IsRunning n (add_update bp prefer_done k u).0
unfolding add_update
add_update-IsRunning {F} n bp prefer_done k u v =
    elim (Bool-cases (ltb_ℤ (pos (length bp.update_chan)) bp.chan_capacity)) [
      | inl room ↦
          let sent : IsRunning n (record bp { update_chan = bp.update_chan ++ (k, u) ∷ [] }) =
            record {
              positive = v.positive;
              sized = v.sized;
              below = v.below;
              distinct = v.distinct;
              queued = ground (arith, length-append bp.update_chan ((k, u) ∷ []));
            } in
          rw (room, add_update)
            (if_either (λ (r : BatchProcessor F × Option QueueError). IsRunning n r.0) bp.cancelled
              (if_either (λ (r : BatchProcessor F × Option QueueError). IsRunning n r.0) prefer_done
                v sent)
              sent)
      | inr full ↦
          rw (full, add_update)
            (if_either (λ (r : BatchProcessor F × Option QueueError). IsRunning n r.0) bp.cancelled
              v v)
    ]

new-IsRunning :
    {F : Float} (n : ℕ) (config : BatchConfig) (now : Time)
    → 1 ≤ n
    → config.max_batch_size ≡ pos n
    → IsRunning n (new_batch_processor F config now)
unfolding new_batch_processor ◌*ℤ◌
new-IsRunning n config now h s = record {
  positive = h;
  sized = s;
  below = h;
  distinct = tt;
  queued = rw s (ground arith);
}

run-IsRunning :
    {F : Float} {W : Type 0} (out : Outside F W) (n : ℕ) (es : List (Event F))
    (bp : BatchProcessor F) (w : W)
    → IsRunning n bp
    → IsRunning n (run out es bp w).0
unfolding run step stop
run-IsRunning out n [] bp w v = v
run-IsRunning out n (queues prefer_done k u ∷ es) bp w v =
    run-IsRunning out n es (step out bp (queues prefer_done k u) w).0
      (step out bp (queues prefer_done k u) w).1 (add_update-IsRunning n bp prefer_done k u v)
run-IsRunning out n (wakes e now elapsed ∷ es) bp w v =
    run-IsRunning out n es (step out bp (wakes e now elapsed) w).0
      (step out bp (wakes e now elapsed) w).1 (worker_step-IsRunning out n bp e now elapsed w v)
run-IsRunning out n (stops ∷ es) bp w v = run-IsRunning out n es (stop bp) w (record {
  positive = v.positive;
  sized = v.sized;
  below = v.below;
  distinct = v.distinct;
  queued = v.queued;
})

-- A processor that starts with a positive batch size keeps its invariant over any history of
-- queued updates and wake-ups, whatever the repository answers: after each event fewer updates are
-- pending than make a batch, at most one for each vehicle, and the queue is within its capacity.
pub run_bounded :
    {F : Float} {W : Type 0} (out : Outside F W) (n : ℕ) (config : BatchConfig) (now : Time)
    (es : List (Event F)) (w : W)
    → 1 ≤ n
    → config.max_batch_size ≡ pos n
    → IsRunning n (run out es (new_batch_processor F config now) w).0
run_bounded {F} out n config now es w h s =
    run-IsRunning out n es (new_batch_processor F config now) w (new-IsRunning n config now h s)
