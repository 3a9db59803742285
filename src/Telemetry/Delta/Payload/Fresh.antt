-- ===== src/Telemetry/Delta/Payload/Fresh.antt =====
-- How old the update sent last may be, of what `ShouldUpdate` of pkg/telemetry/delta_tracker.go sends.
use vehicle_telematics.Base.{
  ◌≤◌, String, ◌≡◌, refl, sym, ◌∙◌, ◌⊎◌, inl, inr, true, false, List, [], ◌∷◌, none, some, ltb,
  arith, lookup, Option-cases, Bool-cases, lookup-insert_self,
}
use vehicle_telematics.Base.Float.{Float, Math}
use vehicle_telematics.Base.Time.{Time, since}
use vehicle_telematics.Models.{Vehicle}
use vehicle_telematics.Batch.Update.{VehicleUpdateData}
use vehicle_telematics.Telemetry.Delta.{
  VehicleSnapshot, DeltaTracker, create_snapshot, create_full_update, store, update_known,
  should_update,
}
use vehicle_telematics.Telemetry.Delta.Payload.{
  has_moved, convert_to_batch_update, convert-create_full_update, all_readings, should_update_known,
  sent,
}

module _ {F : Float} where
  -- The time of the last report.
  abbrev pub last_reported : Time → List (Vehicle F × Time) → Time
  last_reported t [] = t
  last_reported t ((current, now) ∷ reports) = last_reported now reports

  -- The time of the update sent last.
  abbrev pub last_sent : Time → List (VehicleUpdateData F) → Time
  last_sent t [] = t
  last_sent t (u ∷ us) = last_sent u.timestamp us

module _ {F : Float} (math : Math F) (vehicle_id : String) where
  -- One report: it is sent and stored, or the last state stays and is recent enough.
  abbrev Settled : DeltaTracker F → Vehicle F → Time → Type 0
  Settled dt current now =
      let (after, sends, changes) = should_update math dt vehicle_id current now in
      ((sends ≡ true) × (after ≡ store dt vehicle_id current now))
      ⊎ ((sends ≡ false)
          × (after ≡ dt)
          × ((s : VehicleSnapshot F)
              → lookup vehicle_id dt.last_states ≡ some s
              → since now s.last_update ≤ dt.thresholds.time_threshold))

  settled : (dt : DeltaTracker F) (current : Vehicle F) (now : Time) → Settled dt current now
  unfolding should_update update_known
  settled dt current now = elim (Option-cases (lookup vehicle_id dt.last_states)) [
    | inl new ↦ rw (new, should_update) (inl (refl, refl))
    | inr (s, known) ↦
        elim (Bool-cases (ltb dt.thresholds.time_threshold (since now s.last_update))) [
          | inl late ↦ rw (known, should_update, late) (inl (refl, refl))
          | inr soon ↦
              let near : since now s.last_update ≤ dt.thresholds.time_threshold = ground arith in
              let (sends, payload, after) =
                should_update_known math dt vehicle_id s current now known near in
              elim (Bool-cases (has_moved math dt.thresholds s current)) [
                | inl moved ↦ inl (sends ∙ moved, rw (sends, moved) at after)
                | inr still ↦ inr (
                  sends ∙ still,
                  rw (sends, still) at after,
                  λ r e.
                      let same : s ≡ r = let both : some s ≡ some r = sym known ∙ e in cc in
                      rw same at near,
                )
              ]
        ]
  ]

  -- From a state stored at `u`, and a report at `t`.
  sent_from :
      (dt : DeltaTracker F) (s : VehicleSnapshot F) (t : Time) (reports : List (Vehicle F × Time))
      → lookup vehicle_id dt.last_states ≡ some s
      → since t s.last_update ≤ dt.thresholds.time_threshold
      → since (last_reported t reports) (last_sent s.last_update (sent math dt vehicle_id reports))
        ≤ dt.thresholds.time_threshold
  unfolding sent convert_to_batch_update store create_snapshot
  sent_from dt s t [] known near = near
  sent_from dt s t ((current, now) ∷ reports) known near = elim (settled dt current now) [
    | inl (sends, after) ↦
        rw (sent, after, sends)
          (sent_from (store dt vehicle_id current now) (create_snapshot current now) now reports
            (lookup-insert_self _ _ _) (omega arith))
    | inr (sends, after, recent) ↦
        rw (sent, after, sends) (sent_from dt s now reports known (recent s known))
  ]

-- Over any reports of a vehicle that the tracker does not know, at any times, the first report is
-- sent with every reading of the vehicle, and at the last report the update sent last is no older
-- than the time threshold, whatever the readings are.
pub sent_fresh :
    {F : Float} (math : Math F) (dt : DeltaTracker F) (vehicle_id : String) (current : Vehicle F)
    (first : Time) (reports : List (Vehicle F × Time))
    → lookup vehicle_id dt.last_states ≡ none
    → (us : List (VehicleUpdateData F)) × (sent math dt vehicle_id ((current, first) ∷ reports)
        ≡ record {
          fuel_level = some current.fuel_level;
          location = some current.location;
          speed = some current.speed;
          status = some current.status;
          odometer = some current.odometer;
          timestamp = first;
        }
          ∷ us)
      × (since (last_reported first reports) (last_sent first us) ≤ dt.thresholds.time_threshold)
unfolding sent should_update store create_snapshot all_readings
sent_fresh math dt vehicle_id current first reports new =
    let sends : should_update math dt vehicle_id current first
        ≡ (store dt vehicle_id current first, true, create_full_update current first) =
      rw (new, should_update) refl in
    rw (sent, sends, convert-create_full_update current first)
      (
        sent math (store dt vehicle_id current first) vehicle_id reports,
        refl,
        sent_from math vehicle_id (store dt vehicle_id current first)
            (create_snapshot current first) first reports (lookup-insert_self _ _ _) (omega arith),
      )
