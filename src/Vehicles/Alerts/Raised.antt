-- ===== src/Vehicles/Alerts/Raised.antt =====
-- Which alerts an update raises: the checks against a list of what is wrong with the vehicle.
use vehicle_telematics.Base.{
  String, ◌≡◌, refl, Bool, true, false, not, ◌&&◌, List, [], ◌∷◌, ◌++◌, inl, inr, none,
  if◌then◌else◌, str_eq, Bool-cases,
}
use mathlib.Core.List.{append_assoc, append-nil}
use vehicle_telematics.Base.Int.{pos, ltb_ℤ}
use vehicle_telematics.Base.Float.{Float}
use vehicle_telematics.Base.Time.{Time}
use vehicle_telematics.Models.{Vehicle, Alert}
use vehicle_telematics.Vehicles.Alerts.{
  AlertStore, raise_alert, check_fuel_theft, has_low_fuel_alert, check_low_fuel, check_speeding,
  run_checks,
}

-- What is wrong with a vehicle, as the type, the message and the severity of an alert.
abbrev pub Trouble : Type 0
Trouble = String × String × String

abbrev theft : Trouble
theft = ("fuel_theft", "Abnormal fuel drop detected - Possible theft", "critical")

abbrev low_fuel : Trouble
low_fuel = ("low_fuel", "Low fuel level detected", "medium")

abbrev speeding : Trouble
speeding = ("speeding", "Vehicle exceeding speed limit", "high")

-- The alert is about low fuel, and is not resolved.
abbrev pub is_open_low : Alert → Bool
is_open_low alert = str_eq alert.type "low_fuel" && not alert.resolved

abbrev when : Bool → Trouble → List Trouble
when b trouble = if b then trouble ∷ [] else []

module _ {F : Float} where
  abbrev pub is_low : Vehicle F → Bool
  is_low v = F.lt (F.mul (F.div v.fuel_level v.max_fuel_capacity) (F.lit 100 0)) (F.lit 20 0)

  -- More than 15 lost; less than a fifth left and no open alert about it yet; faster than 80.
  abbrev pub troubles : F.Carrier → Vehicle F → List Trouble
  troubles previous_level v =
      when (F.lt (F.lit 15 0) (F.sub previous_level v.fuel_level)) theft
      ++ (when (is_low v && not (has_low_fuel_alert v.alerts)) low_fuel
          ++ when (ltb_ℤ (pos 80) v.speed) speeding)

module _ {A : Type 0} (store : AlertStore A) where
  -- One alert for each trouble: created in the store, in this order, and listed.
  abbrev pub file_all : String → Time → List Trouble → A → A × List Alert
  file_all vehicle_id now [] a = (a, [])
  file_all vehicle_id now ((type, message, severity) ∷ rest) a =
      let (a', id) = store.new_object_id a in
      let alert : Alert = record {
        id = id;
        vehicle_id = vehicle_id;
        type = type;
        message = message;
        severity = severity;
        timestamp = now;
        resolved = false;
        resolved_at = none;
      } in
      let (a'', alerts) = file_all vehicle_id now rest (store.create alert a').0 in
      (a'', alert ∷ alerts)

has_low-append :
    (alerts : List Alert) (alert : Alert)
    → is_open_low alert ≡ false
    → has_low_fuel_alert (alerts ++ alert ∷ []) ≡ has_low_fuel_alert alerts
unfolding has_low_fuel_alert
has_low-append [] alert h = rw h
has_low-append (first ∷ alerts) alert h = rw (has_low-append alerts alert h)

module _ {A : Type 0} (store : AlertStore A) (now : Time) where
  file_all-append :
      (id : String) (xs ys : List Trouble) (a : A)
      → file_all store id now (xs ++ ys) a ≡ (
          let (a', alerts) = file_all store id now xs a in
          let (a'', more) = file_all store id now ys a' in (a'', alerts ++ more))
  file_all-append id [] ys a = refl
  file_all-append id (x ∷ xs) ys a =
      let (a', new) = store.new_object_id a in
      rw (file_all-append id xs ys (store.create (first_alert new) a').0)
    where
      first_alert : String → Alert
      first_alert new = record {
        id = new;
        vehicle_id = id;
        type = x.0;
        message = x.1;
        severity = x.2;
        timestamp = now;
        resolved = false;
        resolved_at = none;
      }

  has_low-theft :
      (b : Bool) (id : String) (alerts : List Alert) (a : A)
      → has_low_fuel_alert (alerts ++ (file_all store id now (when b theft) a).1)
        ≡ has_low_fuel_alert alerts
  has_low-theft true id alerts a = has_low-append alerts _ refl
  has_low-theft false id alerts a = rw (append-nil alerts)

module _ {F : Float} {A : Type 0} (store : AlertStore A) (now : Time) where
  -- What the checks return when the troubles of the vehicle are `found`.
  abbrev reports : List Trouble → Vehicle F → A → A × Vehicle F
  reports found v a =
      let (a', alerts) = file_all store v.id now found a in
      (a', record v { alerts = v.alerts ++ alerts })

  -- One check after another is the check of both lists.
  reports_twice :
      (xs ys : List Trouble) (v : Vehicle F) (a : A)
      → (let (a', v') = reports xs v a in reports ys v' a') ≡ reports (xs ++ ys) v a
  reports_twice xs ys v a = rw (file_all-append store now v.id xs ys a, append_assoc v.alerts)

  theft_lem :
      (previous_level : F.Carrier) (v : Vehicle F) (a : A)
      → check_fuel_theft store previous_level now v a
        ≡ reports (when (F.lt (F.lit 15 0) (F.sub previous_level v.fuel_level)) theft) v a
  unfolding check_fuel_theft
  theft_lem previous_level v a =
      elim (F.lt (F.lit 15 0) (F.sub previous_level v.fuel_level))
        as (λ b.
          (if b
            then raise_alert store "fuel_theft" "Abnormal fuel drop detected - Possible theft"
                "critical" now v a
            else (a, v))
          ≡ reports (when b theft) v a) [
            | true ↦ unfold raise_alert in refl
            | false ↦ rw (append-nil v.alerts)
          ]

  low_lem :
      (v : Vehicle F) (a : A)
      → check_low_fuel store now v a
        ≡ reports (when (is_low v && not (has_low_fuel_alert v.alerts)) low_fuel) v a
  unfolding check_low_fuel raise_alert
  low_lem v a = elim (Bool-cases (is_low v)) [
    | inr fine ↦ rw (fine, append-nil v.alerts)
    | inl low ↦ elim (Bool-cases (has_low_fuel_alert v.alerts)) [
      | inl open_one ↦ rw (low, open_one, append-nil v.alerts)
      | inr new ↦ rw (low, new)
    ]
  ]

  speeding_lem :
      (v : Vehicle F) (a : A)
      → check_speeding store now v a ≡ reports (when (ltb_ℤ (pos 80) v.speed) speeding) v a
  unfolding check_speeding raise_alert
  speeding_lem v a =
      elim (ltb_ℤ (pos 80) v.speed)
        as (λ b.
          (if b
            then raise_alert store "speeding" "Vehicle exceeding speed limit" "high" now v a
            else (a, v))
          ≡ reports (when b speeding) v a) [ true ↦ refl | false ↦ rw (append-nil v.alerts) ]

  -- The checks of `UpdateVehicle` create an alert for each trouble of the vehicle, in the order
  -- theft, low fuel, speeding, and append these alerts, and no others, to the vehicle's, which stays
  -- as it is otherwise. The troubles are read off the vehicle as it was before the first check.
  pub run_checks_lem :
      (previous_level : F.Carrier) (v : Vehicle F) (a : A)
      → run_checks store previous_level now v a ≡ (
          let (a', alerts) = file_all store v.id now (troubles previous_level v) a in
          (a', record v { alerts = v.alerts ++ alerts }))
  unfolding run_checks
  run_checks_lem previous_level v a =
      let stolen = F.lt (F.lit 15 0) (F.sub previous_level v.fuel_level) in
      let low = is_low v && not (has_low_fuel_alert v.alerts) in
      let first = reports (when stolen theft) v a in
      let second = reports (when low low_fuel) first.1 first.0 in
      rw
        (
          theft_lem previous_level v a,
          low_lem first.1 first.0,
          has_low-theft store now stolen v.id v.alerts a,
          speeding_lem second.1 second.0,
          reports_twice (when low low_fuel) (when (ltb_ℤ (pos 80) v.speed) speeding) first.1
              first.0,
        )
        (reports_twice (when stolen theft)
          (when low low_fuel ++ when (ltb_ℤ (pos 80) v.speed) speeding) v a)
