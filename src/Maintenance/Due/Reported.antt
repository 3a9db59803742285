-- ===== src/Maintenance/Due/Reported.antt =====
-- Which vehicles `GetNextServiceDue` reports.
use vehicle_telematics.Base.{
  ◌^◌, ◌<◌, String, ◌≡◌, refl, ap, ◌∙◌, inl, inr, Bool, true, false, List, [], ◌∷◌, map, Option,
  none, some, if◌then◌else◌, select, All, Bool-cases, arith,
}
use vehicle_telematics.Base.Int.{ℤ, pos, negsuc, pos_part, neg_part, ◌+ℤ◌, ◌-ℤ◌, leb_ℤ, wrap64}
use vehicle_telematics.Base.Float.{Float}
use vehicle_telematics.Base.Time.{Time}
use vehicle_telematics.Models.{Vehicle}
use vehicle_telematics.Maintenance.Types.{MaintenanceRecord, ServiceReminder}
use vehicle_telematics.Maintenance.Schedules.{Repositories}
use vehicle_telematics.Maintenance.Records.{RecordRepository}
use vehicle_telematics.Maintenance.Due.{
  first_reminder, due_reminder, add_due, due_each, get_next_service_due,
}

-- A reading from 0 to 2 ^ 62.
abbrev pub IsReading : ℤ → Type 0
IsReading a = (neg_part a ≡ 0) × (pos_part a < 2 ^ 62)

wrap64-sub : (a b : ℤ) → IsReading a → IsReading b → wrap64 (a -ℤ b) ≡ a -ℤ b
unfolding ◌-ℤ◌
wrap64-sub (pos m) (pos n) h1 h2 = ground arith
wrap64-sub (pos m) (negsuc n) h1 h2 = absurd (omega arith)
wrap64-sub (negsuc m) b h1 h2 = absurd (omega arith)

due_within :
    (next threshold odometer : ℤ)
    → IsReading next
    → IsReading threshold
    → IsReading odometer
    → leb_ℤ (wrap64 (next -ℤ threshold)) odometer ≡ leb_ℤ next (odometer +ℤ threshold)
unfolding ◌-ℤ◌ ◌+ℤ◌
due_within next threshold odometer h1 h2 h3 = rw (wrap64-sub next threshold h1 h2) (ground arith)

over_zero :
    (next odometer : ℤ)
    → IsReading next
    → IsReading odometer
    → leb_ℤ (wrap64 (next -ℤ odometer)) (pos 0) ≡ leb_ℤ next odometer
unfolding ◌-ℤ◌
over_zero next odometer h1 h2 = rw (wrap64-sub next odometer h1 h2) (ground arith)

-- The vehicle of a reminder, and whether it is overdue.
abbrev pub report : ServiceReminder → String × Bool
report r = (r.vehicle_id, r.is_overdue)

module _ {F : Float} where
  -- The readings of a vehicle and of its last record.
  abbrev pub HasReadings : Vehicle F → Option (List (MaintenanceRecord F)) → Type 0
  HasReadings v none = IsReading v.odometer
  HasReadings v (some []) = IsReading v.odometer
  HasReadings v (some (r ∷ _)) = IsReading v.odometer × IsReading r.next_service_odometer

  -- A vehicle is due when it has no record, or when its odometer is at most the threshold before the
  -- next service of its first record; it is overdue when it has come to that.
  abbrev pub is_due : ℤ → Vehicle F → Option (List (MaintenanceRecord F)) → Bool
  is_due threshold v none = false
  is_due threshold v (some []) = true
  is_due threshold v (some (r ∷ _)) = leb_ℤ r.next_service_odometer (v.odometer +ℤ threshold)

  abbrev pub is_over : Vehicle F → Option (List (MaintenanceRecord F)) → Bool
  is_over v none = false
  is_over v (some []) = false
  is_over v (some (r ∷ _)) = leb_ℤ r.next_service_odometer v.odometer

  add_due_lem :
      (threshold : ℤ) (now : Time) (v : Vehicle F) (rs : Option (List (MaintenanceRecord F)))
      (rest : List ServiceReminder)
      → IsReading threshold
      → HasReadings v rs
      → map report (add_due threshold now v rs rest) ≡ (
          if is_due threshold v rs then (v.id, is_over v rs) ∷ map report rest else map report rest)
  unfolding add_due first_reminder due_reminder
  add_due_lem threshold now v none rest h1 h2 = refl
  add_due_lem threshold now v (some []) rest h1 h2 = refl
  add_due_lem threshold now v (some (r ∷ rs)) rest h1 (h2, h3) =
      rw (add_due, due_within r.next_service_odometer threshold v.odometer h3 h1 h2)
        (elim (Bool-cases (leb_ℤ r.next_service_odometer (v.odometer +ℤ threshold))) [
          | inr later ↦ rw later refl
          | inl due ↦ rw due (
              ap (λ b. (v.id, b) ∷ map report rest)
                (over_zero r.next_service_odometer v.odometer h3 h2))
        ])

  module _ {W : Type 0} (repo : Repositories F W) (records : RecordRepository F W) where
    due_each_lem :
        (threshold : ℤ) (now : Time) (w : W) (vs : List (Vehicle F))
        → IsReading threshold
        → All (λ (v : Vehicle F). HasReadings v (repo.find_by_vehicle_id v.id w)) vs
        → map report (due_each repo records threshold now w vs)
          ≡ map
              (λ (v : Vehicle F). (v.id, is_over v (repo.find_by_vehicle_id v.id w)))
              (select (λ v. is_due threshold v (repo.find_by_vehicle_id v.id w)) vs)
    unfolding due_each
    due_each_lem threshold now w [] h hs = refl
    due_each_lem threshold now w (v ∷ vs) h hs =
        add_due_lem threshold now v (repo.find_by_vehicle_id v.id w)
          (due_each repo records threshold now w vs) h hs.0
        ∙ rw (due_each_lem threshold now w vs h hs.1)
            (elim (Bool-cases (is_due threshold v (repo.find_by_vehicle_id v.id w))) [
              | inl due ↦ rw due refl
              | inr later ↦ rw later refl
            ])

    -- While the vehicles can be read and all readings lie from 0 to 2 ^ 62, `GetNextServiceDue`
    -- reports exactly the vehicles that are due, in their order and once each, as overdue exactly
    -- when the odometer has come to the next service of the first record. A vehicle whose records
    -- cannot be read is left out.
    pub get_next_service_due_lem :
        (threshold : ℤ) (now : Time) (w : W) (vs : List (Vehicle F))
        → records.find_all_vehicles w ≡ some vs
        → IsReading threshold
        → All (λ (v : Vehicle F). HasReadings v (repo.find_by_vehicle_id v.id w)) vs
        → (reminders : List ServiceReminder) × (get_next_service_due repo records threshold now w
            ≡ some reminders)
          × (map report reminders
              ≡ map
                  (λ (v : Vehicle F). (v.id, is_over v (repo.find_by_vehicle_id v.id w)))
                  (select (λ v. is_due threshold v (repo.find_by_vehicle_id v.id w)) vs))
    unfolding get_next_service_due
    get_next_service_due_lem threshold now w vs e h hs = (
      due_each repo records threshold now w vs,
      rw (e, get_next_service_due) refl,
      due_each_lem threshold now w vs h hs,
    )
