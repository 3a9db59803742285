-- ===== src/Socket/Filters.antt =====
-- internal/websocket/manager.go, `shouldSendToClient`.
use vehicle_telematics.Base.{
  String, ◌≡◌, Bool, true, false, not, ◌&&◌, ◌||◌, List, [], ◌∷◌, Option, none, some, if◌then◌else◌,
  ltb, ◌==◌, length, lookup, str_eq, arith,
}
use vehicle_telematics.Base.Float.{Float}
use vehicle_telematics.Models.{text, Changes}
use vehicle_telematics.Socket.Types.{VehicleFilters, VehicleUpdate}

-- The search loops: `found`.
unfoldable pub found_in : String → List String → Bool
found_in s [] = false
found_in s (x ∷ xs) = if str_eq x s then true else found_in s xs

-- A list filter lets a text through that it names, and an absent text.
abbrev pub passes : List String → Option String → Bool
passes names o = elim o [ none ↦ true | some s ↦ found_in s names ]

-- A filter that names nothing lets everything through.
unfoldable pub allows : List String → Bool → Bool
allows [] b = true
allows (x ∷ xs) b = b

module _ {F : Float} where
  -- `data[key].(string)`
  unfoldable pub text_at : String → Changes F → Option String
  text_at key fields = elim (lookup key fields) [ some (text s) ↦ some s | _ ↦ none ]

  unfoldable pub should_send_to_client : VehicleFilters → VehicleUpdate F → Bool
  unfolding found_in text_at
  should_send_to_client filters update =
      if (length filters.vehicle_ids == 0)
        && ((length filters.statuses == 0)
            && ((length filters.drivers == 0) && (length filters.alert_types == 0)))
      then true
      else if ltb 0 (length filters.vehicle_ids)
          && not (found_in update.vehicle_id filters.vehicle_ids)
      then false
      else if ltb 0 (length filters.statuses)
          && not (passes filters.statuses (text_at "status" update.fields))
      then false
      else if (ltb 0 (length filters.alert_types) && str_eq update.update_type "alert")
          && not (passes filters.alert_types (text_at "alertType" update.fields))
      then false
      else true

  -- An update goes to a client exactly if each of three filters lets it through: the vehicle's
  -- identifier is listed, a status that it carries is listed, and, for an alert, the type that it
  -- carries is listed, where a filter that lists nothing lets everything through. The filter on
  -- drivers takes no part.
  pub should_send_to_client_lem :
      (filters : VehicleFilters) (update : VehicleUpdate F)
      → should_send_to_client filters update ≡ (
          allows filters.vehicle_ids (found_in update.vehicle_id filters.vehicle_ids)
          && (allows filters.statuses (passes filters.statuses (text_at "status" update.fields))
              && (not (str_eq update.update_type "alert")
                  || allows filters.alert_types
                      (passes filters.alert_types (text_at "alertType" update.fields)))))
  unfolding should_send_to_client allows
  should_send_to_client_lem filters update =
      go filters.vehicle_ids filters.statuses filters.drivers filters.alert_types
        (found_in update.vehicle_id filters.vehicle_ids)
        (passes filters.statuses (text_at "status" update.fields))
        (str_eq update.update_type "alert")
        (passes filters.alert_types (text_at "alertType" update.fields))
    where
      go :
          (ids statuses drivers alerts : List String) (a b c d : Bool)
          → (if (length ids == 0)
                && ((length statuses == 0) && ((length drivers == 0) && (length alerts == 0)))
              then true
              else if ltb 0 (length ids) && not a
              then false
              else if ltb 0 (length statuses) && not b
              then false
              else if (ltb 0 (length alerts) && c) && not d
              then false
              else true)
            ≡ (allows ids a && (allows statuses b && (not c || allows alerts d)))
      go [] [] [] [] a b c d = ground arith
      go [] [] [] (x ∷ alerts) a b c d = ground arith
      go [] [] (x ∷ drivers) [] a b c d = ground arith
      go [] [] (x ∷ drivers) (y ∷ alerts) a b c d = ground arith
      go [] (x ∷ statuses) drivers [] a b c d = ground arith
      go [] (x ∷ statuses) drivers (y ∷ alerts) a b c d = ground arith
      go (x ∷ ids) [] drivers [] a b c d = ground arith
      go (x ∷ ids) [] drivers (y ∷ alerts) a b c d = ground arith
      go (x ∷ ids) (z ∷ statuses) drivers [] a b c d = ground arith
      go (x ∷ ids) (z ∷ statuses) drivers (y ∷ alerts) a b c d = ground arith
