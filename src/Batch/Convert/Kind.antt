-- ===== src/Batch/Convert/Kind.antt =====
-- The type of what the clients are told.
use vehicle_telematics.Base.{
  String, ◌≡◌, refl, ◌∙◌, inl, inr, false, [], Option, none, some, if◌then◌else◌, str_eq,
  Bool-cases,
}
use vehicle_telematics.Base.Int.{ℤ, pos, ltb_ℤ}
use vehicle_telematics.Base.Float.{Float}
use vehicle_telematics.Base.Time.{Time}
use vehicle_telematics.Models.{Location}
use vehicle_telematics.Batch.Update.{VehicleUpdateData}
use vehicle_telematics.Socket.Types.{priority_medium}
use vehicle_telematics.Batch.Convert.{
  Draft, or_type, location_value, add_fuel, add_location, add_speed, add_status, add_odometer,
  draft, convert_to_web_socket_update, is_speeding, first_reading,
}

module _ {F : Float} where
  -- The status and the odometer leave a type that is set.
  set_type :
      (d : Draft F) (status : Option String) (o : Option ℤ)
      → str_eq d.update_type "batch_update" ≡ false
      → (add_odometer o (add_status status d)).update_type ≡ d.update_type
  unfolding add_odometer add_status
  set_type d none none h = refl
  set_type d none (some o) h = rw h
  set_type d (some s) none h = rw h
  set_type d (some s) (some o) h = simp h

  -- The type of an update with a speed, where the readings before it give `x`.
  speed_type :
      (v : ℤ) (d : Draft F) (x : String) (status : Option String) (o : Option ℤ)
      → or_type d "speed" ≡ x
      → str_eq x "batch_update" ≡ false
      → (add_odometer o (add_status status (add_speed (some v) d))).update_type
        ≡ (if ltb_ℤ (pos 80) v then "alert" else x)
  unfolding add_speed
  speed_type v d x status o e h =
      set_type (add_speed (some v) d) status o (elim (Bool-cases (ltb_ℤ (pos 80) v)) [
        | inl fast ↦ rw (fast, add_speed) refl
        | inr slow ↦ rw (slow, add_speed, e) h
      ])
      ∙ elim (Bool-cases (ltb_ℤ (pos 80) v)) [
        | inl fast ↦ rw (fast, add_speed) refl
        | inr slow ↦ rw (slow, add_speed) e
      ]

  abbrev typed :
      Time
      → Option F.Carrier
      → Option (Location F)
      → Option ℤ
      → Option String
      → Option ℤ
      → VehicleUpdateData F
  typed now fuel position speed status odometer = record {
    fuel_level = fuel;
    location = position;
    speed = speed;
    status = status;
    odometer = odometer;
    timestamp = now;
  }

  -- The draft before the speed.
  abbrev placed : VehicleUpdateData F → Draft F
  placed u = add_location (location_value u) (
      add_fuel u.fuel_level
        (record { fields = []; update_type = "batch_update"; priority = priority_medium }))

  draft-type :
      (now : Time) (fuel : Option F.Carrier) (l : Option (Location F)) (speed : Option ℤ)
      (status : Option String) (o : Option ℤ)
      → (draft (typed now fuel l speed status o)).update_type ≡ (
          if is_speeding (typed now fuel l speed status o)
          then "alert"
          else first_reading (typed now fuel l speed status o))
  unfolding draft add_odometer add_status add_speed add_location add_fuel is_speeding first_reading
  draft-type now none none (some v) status o =
      speed_type v (placed (typed now none none (some v) status o)) "speed" status o refl refl
  draft-type now none (some l) (some v) status o =
      speed_type v (placed (typed now none (some l) (some v) status o)) "location" status o refl
        refl
  draft-type now (some f) none (some v) status o =
      speed_type v (placed (typed now (some f) none (some v) status o)) "fuel" status o refl refl
  draft-type now (some f) (some l) (some v) status o =
      speed_type v (placed (typed now (some f) (some l) (some v) status o)) "fuel" status o refl
        refl
  draft-type now (some f) none none status o = set_type _ status o refl
  draft-type now (some f) (some l) none status o = set_type _ status o refl
  draft-type now none (some l) none status o = set_type _ status o refl
  draft-type now none none none none none = refl
  draft-type now none none none none (some o) = refl
  draft-type now none none none (some s) none = refl
  draft-type now none none none (some s) (some o) = refl

  -- The type that an update gets: `alert` if it speeds, and otherwise the first reading that it
  -- carries.
  pub convert-type :
      (vehicle_id : String) (u : VehicleUpdateData F)
      → (convert_to_web_socket_update vehicle_id u).update_type
        ≡ (if is_speeding u then "alert" else first_reading u)
  unfolding convert_to_web_socket_update
  convert-type vehicle_id u =
      draft-type u.timestamp u.fuel_level u.location u.speed u.status u.odometer
