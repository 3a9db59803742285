-- ===== src/Alerts.antt =====
-- internal/services/alert.go. The alerts' repository is a parameter on a state A, and that of the
-- vehicles, which may be missing, on D; each handler reads the clock once, as `now`.
pub mod Statistics
pub mod Resolved
use vehicle_telematics.Base.{
  ℕ, ◌+◌, String, Bool, true, false, not, ◌&&◌, List, [], ◌∷◌, ◌++◌, Option, none, some,
  if◌then◌else◌, length, lookup, insert, str_eq,
}
use vehicle_telematics.Base.Int.{ℤ, pos, ◌-ℤ◌}
use vehicle_telematics.Base.Float.{Float}
use vehicle_telematics.Base.Time.{Time}
use vehicle_telematics.Base.Results.{Result, ok, failed}
use vehicle_telematics.Models.{Vehicle, Alert}
use vehicle_telematics.Maintenance.Schedules.{add_days}
use vehicle_telematics.Vehicles.Service.Defs.{VehicleRepository}

-- A look-up answers `none`, and a deletion `false`, where the source's error is not nil.
pub record AlertRepository (A : Type 0) : Type 0 where
  pub new_object_id : A → A × String
  pub find_by_id : String → A → Option Alert
  pub find_all : A → Option (List Alert)
  pub find_by_vehicle_id : String → A → Option (List Alert)
  pub find_by_type : String → A → Option (List Alert)
  pub find_by_severity : String → A → Option (List Alert)
  pub find_unresolved : A → Option (List Alert)
  pub create : Alert → A → A × Option Alert
  pub update : String → Alert → A → A × Option Alert
  pub delete : String → A → A × Bool
  pub delete_resolved_before : Time → A → A × Bool

pub record AlertService (F : Float) (D A : Type 0) : Type 0 where
  pub alert_repo : AlertRepository A
  pub vehicle_repo : Option (VehicleRepository F D)

pub record Stores (D A : Type 0) : Type 0 where
  pub vehicles : D
  pub alerts : A

pub record CreateAlertRequest : Type 0 where
  pub vehicle_id : String
  pub type : String
  pub message : String
  pub severity : String

pub record UpdateAlertRequest : Type 0 where
  pub message : String
  pub severity : String
  pub resolved : Bool

pub data AlertError : Type 0 where
  vehicle_not_found alert_not_found repository_failed : AlertError

-- The loops of `updateVehicleAlert` and `removeAlertFromVehicle`, up to their `break`.
unfoldable pub replace_alert : Alert → List Alert → List Alert
replace_alert alert [] = []
replace_alert alert (first ∷ alerts) =
    if str_eq first.id alert.id then alert ∷ alerts else first ∷ replace_alert alert alerts

unfoldable pub remove_alert : String → List Alert → List Alert
remove_alert alert_id [] = []
remove_alert alert_id (first ∷ alerts) =
    if str_eq first.id alert_id then alerts else first ∷ remove_alert alert_id alerts

-- "Update fields if provided", and "Handle resolution".
unfoldable pub apply_alert_request : UpdateAlertRequest → Time → Alert → Alert
apply_alert_request req now alert =
    let changed = record alert {
      message = if str_eq req.message "" then alert.message else req.message;
      severity = if str_eq req.severity "" then alert.severity else req.severity;
    } in
    if req.resolved && not alert.resolved
    then record changed { resolved = true; resolved_at = some now }
    else if not req.resolved && alert.resolved
    then record changed { resolved = false; resolved_at = none }
    else changed

module _ {F : Float} {D A : Type 0} (s : AlertService F D A) where
  -- The shape of the three helpers that keep a vehicle's alerts: the error of `Update` is ignored.
  unfoldable pub change_alerts : VehicleRepository F D → String → (List Alert → List Alert) → D → D
  change_alerts repo vehicle_id change d = elim (repo.find_by_id vehicle_id d) [
    | none ↦ d
    | some v ↦ (repo.update vehicle_id (record v { alerts = change v.alerts }) d).0
  ]

  abbrev pub sync : String → (List Alert → List Alert) → D → D
  sync vehicle_id change d = elim s.vehicle_repo [
    | none ↦ d
    | some repo ↦ change_alerts repo vehicle_id change d
  ]

  unfoldable pub add_alert_to_vehicle : String → Alert → D → D
  add_alert_to_vehicle vehicle_id alert = sync vehicle_id (λ alerts. alerts ++ (alert ∷ []))

  unfoldable pub update_vehicle_alert : String → Alert → D → D
  update_vehicle_alert vehicle_id alert = sync vehicle_id (replace_alert alert)

  unfoldable pub remove_alert_from_vehicle : String → String → D → D
  remove_alert_from_vehicle vehicle_id alert_id = sync vehicle_id (remove_alert alert_id)

  -- `s.vehicleRepo != nil` and `FindByID` fails.
  unfoldable pub vehicle_missing : String → D → Bool
  vehicle_missing vehicle_id d = elim s.vehicle_repo [
    | none ↦ false
    | some repo ↦ elim (repo.find_by_id vehicle_id d) [ none ↦ true | some _ ↦ false ]
  ]

  unfoldable pub create_alert :
      CreateAlertRequest → Time → Stores D A → Stores D A × Result AlertError Alert
  create_alert req now w =
      let (a1, id) = s.alert_repo.new_object_id w.alerts in
      let alert : Alert = record {
        id = id;
        vehicle_id = req.vehicle_id;
        type = req.type;
        message = req.message;
        severity = req.severity;
        timestamp = now;
        resolved = false;
        resolved_at = none;
      } in
      let (a2, created) = s.alert_repo.create alert a1 in
      if vehicle_missing req.vehicle_id w.vehicles
      then (w, failed vehicle_not_found)
      else elim created [
        | none ↦ (record w { alerts = a2 }, failed repository_failed)
        | some stored ↦ (
          record { vehicles = add_alert_to_vehicle req.vehicle_id stored w.vehicles; alerts = a2 },
          ok stored,
        )
      ]

  -- What `UpdateAlert` and `ResolveAlert` do with the changed alert, and the answer of `Update`.
  unfoldable pub finish_alert :
      Alert → Stores D A → A × Option Alert → Stores D A × Result AlertError Alert
  finish_alert alert w (a, none) = (record w { alerts = a }, failed repository_failed)
  finish_alert alert w (a, some stored) = (
    record { vehicles = update_vehicle_alert alert.vehicle_id stored w.vehicles; alerts = a },
    ok stored,
  )

  unfoldable pub store_alert : String → Alert → Stores D A → Stores D A × Result AlertError Alert
  store_alert id alert w = finish_alert alert w (s.alert_repo.update id alert w.alerts)

  unfoldable pub update_alert :
      String → UpdateAlertRequest → Time → Stores D A → Stores D A × Result AlertError Alert
  update_alert id req now w = elim (s.alert_repo.find_by_id id w.alerts) [
    | none ↦ (w, failed alert_not_found)
    | some alert ↦ store_alert id (apply_alert_request req now alert) w
  ]

  unfoldable pub resolve_found :
      String → Time → Option Alert → Stores D A → Stores D A × Result AlertError Alert
  resolve_found id now none w = (w, failed alert_not_found)
  resolve_found id now (some alert) w =
      if alert.resolved
      then (w, ok alert)
      else store_alert id (record alert { resolved = true; resolved_at = some now }) w

  unfoldable pub resolve_alert : String → Time → Stores D A → Stores D A × Result AlertError Alert
  resolve_alert id now w = resolve_found id now (s.alert_repo.find_by_id id w.alerts) w

  -- `DeleteAlert`, and `DismissAlert`, which does the same.
  unfoldable pub delete_alert : String → Stores D A → Stores D A × Result AlertError (Unit {0})
  delete_alert id w = elim (s.alert_repo.find_by_id id w.alerts) [
    | none ↦ (w, failed alert_not_found)
    | some alert ↦
        let (a, deleted) = s.alert_repo.delete id w.alerts in
        (
          record {
            vehicles = remove_alert_from_vehicle alert.vehicle_id id w.vehicles;
            alerts = a;
          },
          if deleted then ok tt else failed repository_failed,
        )
  ]

  -- The loop of the two bulk operations.
  unfoldable pub resolve_each : Time → List Alert → Stores D A → Stores D A
  resolve_each now [] w = w
  resolve_each now (alert ∷ alerts) w =
      resolve_each now alerts (if not alert.resolved then (resolve_alert alert.id now w).0 else w)

  unfoldable pub resolve_all : Time → Option (List Alert) → Stores D A → Stores D A × Bool
  resolve_all now none w = (w, false)
  resolve_all now (some alerts) w = (resolve_each now alerts w, true)

  unfoldable pub resolve_alerts_by_vehicle : String → Time → Stores D A → Stores D A × Bool
  resolve_alerts_by_vehicle vehicle_id now w =
      resolve_all now (s.alert_repo.find_by_vehicle_id vehicle_id w.alerts) w

  unfoldable pub resolve_alerts_by_type : String → Time → Stores D A → Stores D A × Bool
  resolve_alerts_by_type type now w = resolve_all now (s.alert_repo.find_by_type type w.alerts) w

  unfoldable pub cleanup_old_resolved_alerts : ℤ → Time → Stores D A → Stores D A × Bool
  cleanup_old_resolved_alerts days_old now w =
      let (a, done) =
        s.alert_repo.delete_resolved_before (add_days now (pos 0 -ℤ days_old)) w.alerts in
      (record w { alerts = a }, done)
