-- ===== src/Batch/Convert.antt =====
-- pkg/batch/processor.go, `convertToWebSocketUpdate`: what the clients are told of an update.
pub mod Priority
pub mod Kind
use vehicle_telematics.Base.{
  String, ◌≡◌, refl, ◌∙◌, inl, inr, Bool, false, ◌||◌, [], Option, none, some, arith, if◌then◌else◌,
  insert, str_eq, Bool-cases,
}
use vehicle_telematics.Base.Int.{ℤ, pos, ltb_ℤ}
use vehicle_telematics.Base.Float.{Float}
use vehicle_telematics.Base.Time.{Time}
use vehicle_telematics.Models.{Location, Value, real, place, int, text, Changes}
use vehicle_telematics.Batch.Update.{VehicleUpdateData}
use vehicle_telematics.Socket.Types.{
  VehicleUpdate, priority_medium, priority_high, priority_critical,
}

-- The local variables `data`, `updateType` and `priority`.
pub record Draft (F : Float) : Type 0 where
  pub fields : Changes F
  pub update_type : String
  pub priority : String

module _ {F : Float} where
  -- `if updateType == "batch_update" { updateType = t }`
  abbrev pub or_type : Draft F → String → String
  or_type d t = if str_eq d.update_type "batch_update" then t else d.update_type

  unfoldable pub add_fuel : Option F.Carrier → Draft F → Draft F
  add_fuel none d = d
  add_fuel (some level) d = record {
    fields = insert "fuelLevel" (real level) d.fields;
    update_type = "fuel";
    priority =
        if F.lt level (F.lit 10 0)
        then priority_critical
        else if F.lt level (F.lit 20 0)
        then priority_high
        else d.priority;
  }

  unfoldable pub add_location : Option (Value F) → Draft F → Draft F
  add_location none d = d
  add_location (some p) d = record d {
    fields = insert "location" p d.fields;
    update_type = or_type d "location";
  }

  unfoldable pub add_speed : Option ℤ → Draft F → Draft F
  add_speed none d = d
  add_speed (some speed) d =
      let fields = insert "speed" (int speed) d.fields in
      if ltb_ℤ (pos 80) speed
      then record {
        fields = insert "alertType" (text "speeding") fields;
        update_type = "alert";
        priority = priority_high;
      }
      else record d { fields = fields; update_type = or_type d "speed" }

  unfoldable pub add_status : Option String → Draft F → Draft F
  add_status none d = d
  add_status (some status) d = record {
    fields = insert "status" (text status) d.fields;
    update_type = or_type d "status";
    priority =
        if str_eq status "maintenance" || str_eq status "offline"
        then priority_high
        else d.priority;
  }

  unfoldable pub add_odometer : Option ℤ → Draft F → Draft F
  add_odometer none d = d
  add_odometer (some odometer) d = record d {
    fields = insert "odometer" (int odometer) d.fields;
    update_type = or_type d "odometer";
  }

  abbrev pub location_value : VehicleUpdateData F → Option (Value F)
  location_value u = elim u.location [ none ↦ none | some l ↦ some (place l) ]

  unfoldable pub draft : VehicleUpdateData F → Draft F
  draft u = add_odometer u.odometer (
      add_status u.status (
        add_speed u.speed (
          add_location (location_value u) (
            add_fuel u.fuel_level
              (record { fields = []; update_type = "batch_update"; priority = priority_medium })))))

  unfoldable pub convert_to_web_socket_update : String → VehicleUpdateData F → VehicleUpdate F
  unfolding draft
  convert_to_web_socket_update vehicle_id u = record {
    vehicle_id = vehicle_id;
    update_type = (draft u).update_type;
    fields = (draft u).fields;
    timestamp = u.timestamp;
    priority = (draft u).priority;
  }

  unfoldable pub is_speeding : VehicleUpdateData F → Bool
  is_speeding u = elim u.speed [ none ↦ false | some speed ↦ ltb_ℤ (pos 80) speed ]

  unfoldable pub is_away : VehicleUpdateData F → Bool
  is_away u = elim u.status [
    | none ↦ false
    | some status ↦ str_eq status "maintenance" || str_eq status "offline"
  ]

  unfoldable pub fuel_priority : VehicleUpdateData F → String
  fuel_priority u = elim u.fuel_level [
    | none ↦ priority_medium
    | some level ↦
        if F.lt level (F.lit 10 0)
        then priority_critical
        else if F.lt level (F.lit 20 0)
        then priority_high
        else priority_medium
  ]

  -- The first reading that the update carries, in the order of the source.
  unfoldable pub first_reading : VehicleUpdateData F → String
  first_reading u = elim u.fuel_level [
    | some _ ↦ "fuel"
    | none ↦ elim u.location [
      | some _ ↦ "location"
      | none ↦ elim u.speed [
        | some _ ↦ "speed"
        | none ↦ elim u.status [
          | some _ ↦ "status"
          | none ↦ elim u.odometer [ some _ ↦ "odometer" | none ↦ "batch_update" ]
        ]
      ]
    ]
  ]
