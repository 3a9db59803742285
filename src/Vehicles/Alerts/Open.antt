-- ===== src/Vehicles/Alerts/Open.antt =====
-- The open alerts about low fuel that a vehicle carries.
use vehicle_telematics.Base.{
  ℕ, ◌+◌, ◌≤◌, String, ◌≡◌, refl, true, false, not, ◌&&◌, List, [], ◌∷◌, ◌++◌, none, if◌then◌else◌,
  str_eq, arith, ◌==◌,
}
use vehicle_telematics.Base.Float.{Float}
use vehicle_telematics.Base.Time.{Time}
use vehicle_telematics.Models.{Vehicle, Alert}
use vehicle_telematics.Vehicles.Alerts.{AlertStore, has_low_fuel_alert, run_checks}
use vehicle_telematics.Vehicles.Alerts.Raised.{
  Trouble, is_open_low, is_low, troubles, file_all, run_checks_lem,
}

abbrev pub open_alerts : List Alert → ℕ
open_alerts [] = 0
open_alerts (alert ∷ alerts) = (if is_open_low alert then 1 else 0) + open_alerts alerts

open-append : (xs ys : List Alert) → open_alerts (xs ++ ys) ≡ open_alerts xs + open_alerts ys
open-append [] ys = omega arith
open-append (x ∷ xs) ys = omega (arith, open-append xs ys)

-- The test of `checkLowFuel` is whether there is one.
has_low_lem :
    (xs : List Alert) → has_low_fuel_alert xs ≡ (if open_alerts xs == 0 then false else true)
unfolding has_low_fuel_alert
has_low_lem [] = refl
has_low_lem (x ∷ xs) = ground (arith, has_low_lem xs)

abbrev low_troubles : List Trouble → ℕ
low_troubles [] = 0
low_troubles ((type, message, severity) ∷ rest) =
    (if str_eq type "low_fuel" then 1 else 0) + low_troubles rest

abbrev filed : String → Time → Trouble → String → Alert
filed id now t new = record {
  id = new;
  vehicle_id = id;
  type = t.0;
  message = t.1;
  severity = t.2;
  timestamp = now;
  resolved = false;
  resolved_at = none;
}

open-file_all :
    {A : Type 0} (store : AlertStore A) (id : String) (now : Time) (ts : List Trouble) (a : A)
    → open_alerts (file_all store id now ts a).1 ≡ low_troubles ts
open-file_all store id now [] a = refl
open-file_all store id now (t ∷ ts) a =
    let (a', new) = store.new_object_id a in
    ground (arith, open-file_all store id now ts (store.create (filed id now t new) a').0)

module _ {F : Float} {A : Type 0} (store : AlertStore A) (now : Time) where
  low-troubles :
      (previous_level : F.Carrier) (v : Vehicle F)
      → low_troubles (troubles previous_level v)
        ≡ (if is_low v && not (has_low_fuel_alert v.alerts) then 1 else 0)
  low-troubles previous_level v = ground arith

  -- A vehicle with at most one open alert about low fuel has at most one after the checks of an
  -- update, and exactly one when less than a fifth of its fuel is left.
  pub run_checks-open :
      (previous_level : F.Carrier) (v : Vehicle F) (a : A)
      → open_alerts v.alerts ≤ 1
      → let after = open_alerts (run_checks store previous_level now v a).1.alerts in
        (after ≤ 1) × (is_low v ≡ true → after ≡ 1)
  run_checks-open previous_level v a h =
      let found = troubles previous_level v in
      let after = file_all store v.id now found a in
      rw (run_checks_lem store now previous_level v a) (
        ground (
          arith,
          open-append v.alerts after.1,
          open-file_all store v.id now found a,
          low-troubles previous_level v,
          has_low_lem v.alerts,
        ))
