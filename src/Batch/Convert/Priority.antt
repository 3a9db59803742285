-- ===== src/Batch/Convert/Priority.antt =====
-- The priority of what the clients are told.
use vehicle_telematics.Base.{
  String, ◌≡◌, refl, ap, ◌∙◌, false, ◌||◌, [], Option, none, some, arith, if◌then◌else◌, str_eq,
}
use vehicle_telematics.Base.Int.{ℤ, pos, ltb_ℤ}
use vehicle_telematics.Base.Float.{Float}
use vehicle_telematics.Models.{Value}
use vehicle_telematics.Batch.Update.{VehicleUpdateData}
use vehicle_telematics.Socket.Types.{priority_medium, priority_high, priority_critical}
use vehicle_telematics.Batch.Convert.{
  Draft, location_value, add_fuel, add_location, add_speed, add_status, add_odometer,
  convert_to_web_socket_update, is_speeding, is_away, fuel_priority,
}

module _ {F : Float} where
  add_odometer-priority : (o : Option ℤ) (d : Draft F) → (add_odometer o d).priority ≡ d.priority
  unfolding add_odometer
  add_odometer-priority none d = refl
  add_odometer-priority (some o) d = refl

  -- The priority that an update gets: high if it speeds or reports the status `maintenance` or
  -- `offline`, whatever its fuel level; otherwise critical for a level below 10, high below 20, and
  -- medium for the rest. So an update with a critical fuel level is sent as merely high when the
  -- vehicle also speeds.
  pub convert-priority :
      (vehicle_id : String) (u : VehicleUpdateData F)
      → (convert_to_web_socket_update vehicle_id u).priority ≡ (
          if is_away u
          then priority_high
          else if is_speeding u
          then priority_high
          else fuel_priority u)
  unfolding convert_to_web_socket_update add_status add_speed add_location add_fuel is_speeding
      is_away fuel_priority
  convert-priority vehicle_id u = rw add_odometer-priority (by_fields u.fuel_level u.speed u.status)
    where
      start : Draft F
      start = record { fields = []; update_type = "batch_update"; priority = priority_medium }

      with_speed :
          (speed : Option ℤ) (d : Draft F)
          → (add_speed speed d).priority ≡ (
              if elim speed [ none ↦ false | some s ↦ ltb_ℤ (pos 80) s ]
              then priority_high
              else d.priority)
      with_speed none d = refl
      with_speed (some s) d = ground arith

      with_location :
          (l : Option (Value F)) (d : Draft F) → (add_location l d).priority ≡ d.priority
      with_location none d = refl
      with_location (some l) d = refl

      with_status :
          (status : Option String) (d : Draft F)
          → (add_status status d).priority ≡ (
              if elim status [
                | none ↦ false
                | some s ↦ str_eq s "maintenance" || str_eq s "offline"
              ]
              then priority_high
              else d.priority)
      with_status none d = refl
      with_status (some s) d = refl

      with_fuel :
          (fuel : Option F.Carrier)
          → (add_fuel fuel start).priority ≡ elim fuel [
            | none ↦ priority_medium
            | some level ↦
                if F.lt level (F.lit 10 0)
                then priority_critical
                else if F.lt level (F.lit 20 0)
                then priority_high
                else priority_medium
          ]
      with_fuel none = refl
      with_fuel (some level) = refl

      by_fields :
          (fuel : Option F.Carrier) (speed : Option ℤ) (status : Option String)
          → (add_status status
              (add_speed speed (add_location (location_value u) (add_fuel fuel start)))).priority
            ≡ (if elim status [
              | none ↦ false
              | some s ↦ str_eq s "maintenance" || str_eq s "offline"
            ]
                then priority_high
                else if elim speed [ none ↦ false | some s ↦ ltb_ℤ (pos 80) s ]
                then priority_high
                else elim fuel [
                  | none ↦ priority_medium
                  | some level ↦
                      if F.lt level (F.lit 10 0)
                      then priority_critical
                      else if F.lt level (F.lit 20 0)
                      then priority_high
                      else priority_medium
                ])
      by_fields fuel speed status =
          with_status status _
          ∙ ap
              (λ p.
                if elim status [
                  | none ↦ false
                  | some s ↦ str_eq s "maintenance" || str_eq s "offline"
                ]
                then priority_high
                else p)
              (with_speed speed _
                ∙ ap
                    (λ p.
                      if elim speed [ none ↦ false | some s ↦ ltb_ℤ (pos 80) s ]
                      then priority_high
                      else p)
                    (with_location (location_value u) (add_fuel fuel start) ∙ with_fuel fuel))
