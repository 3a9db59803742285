-- ===== src/Maintenance/Records.antt =====
-- internal/services/maintenance.go: the maintenance records, their reminders, and the vehicles whose
-- service is due. The repositories are parameters on a state W; each handler reads the clock once.
use vehicle_telematics.Base.{
  String, Bool, false, List, [], ◌∷◌, map, Option, none, some, if◌then◌else◌, str_eq,
}
use vehicle_telematics.Base.Int.{ℤ, ◌+ℤ◌, wrap64}
use vehicle_telematics.Base.Float.{Float}
use vehicle_telematics.Base.Time.{Time}
use vehicle_telematics.Base.Results.{Result, ok, failed}
use vehicle_telematics.Models.{Vehicle}
use vehicle_telematics.Maintenance.Types.{MaintenanceRecord, ServiceReminder}
use vehicle_telematics.Maintenance.Intervals.{get_service_interval_for_types}
use vehicle_telematics.Maintenance.Reminders.{calculate_priority, update_reminder_status}
use vehicle_telematics.Maintenance.Schedules.{Repositories, estimate_next_service_date}

-- What the service calls for records and reminders, besides `Repositories`. A look-up answers
-- `none`, and a deletion `false`, where the source's error is not nil; a change answers with the record
-- as the repository leaves it.
pub record RecordRepository (F : Float) (W : Type 0) : Type 0 where
  pub find_all_vehicles : W → Option (List (Vehicle F))
  pub find_by_id : String → W → Option (MaintenanceRecord F)
  pub create : MaintenanceRecord F → W → W × Option (MaintenanceRecord F)
  pub update : String → MaintenanceRecord F → W → W × Option (MaintenanceRecord F)
  pub delete : String → W → W × Bool
  pub create_reminder : ServiceReminder → W → W × Bool
  pub find_reminders_by_vehicle_id : String → W → Option (List ServiceReminder)

pub data RecordError : Type 0 where
  vehicle_not_found invalid_vehicle_id record_not_found repository_failed : RecordError

pub record CreateMaintenanceRequest (F : Float) : Type 0 where
  pub vehicle_id : String
  pub types : List String
  pub description : String
  pub cost : F.Carrier
  pub currency : String
  pub service_center : String
  pub performed_at : Time
  pub odometer : ℤ
  pub service_interval : Option ℤ
  pub parts_replaced : List String
  pub notes : String
  pub status : String

pub record UpdateMaintenanceRequest (F : Float) : Type 0 where
  pub types : List String
  pub description : String
  pub cost : Option F.Carrier
  pub currency : String
  pub service_center : String
  pub performed_at : Option Time
  pub odometer : Option ℤ
  pub next_service_odometer : Option ℤ
  pub next_service_date : Option Time
  pub parts_replaced : Option (List String)
  pub notes : String
  pub status : String

-- `if field != ""`, and `if field != nil` for a pointer.
abbrev pub or_text : String → String → String
or_text new old = if str_eq new "" then old else new

abbrev pub or_old : {X : Type 0} → Option X → X → X
or_old none old = old
or_old (some new) old = new

abbrev pub or_list : List String → List String → List String
or_list [] old = old
or_list (x ∷ xs) old = x ∷ xs

module _ {F : Float} where
  unfoldable pub apply_maintenance_request :
      UpdateMaintenanceRequest F → MaintenanceRecord F → MaintenanceRecord F
  apply_maintenance_request req r = record r {
    types = or_list req.types r.types;
    description = or_text req.description r.description;
    cost = or_old req.cost r.cost;
    currency = or_text req.currency r.currency;
    service_center = or_text req.service_center r.service_center;
    performed_at = or_old req.performed_at r.performed_at;
    odometer = or_old req.odometer r.odometer;
    next_service_odometer = or_old req.next_service_odometer r.next_service_odometer;
    next_service_date = elim req.next_service_date [
      | none ↦ r.next_service_date
      | some date ↦ some date
    ];
    parts_replaced = or_old req.parts_replaced r.parts_replaced;
    notes = or_text req.notes r.notes;
    status = or_text req.status r.status;
  }

module _ {F : Float} {W : Type 0} (repo : Repositories F W) (records : RecordRepository F W) where
  unfoldable pub create_service_reminder :
      String → List String → Option Time → Option ℤ → ℤ → Time → W → W
  create_service_reminder vehicle_id types date due odometer now w =
      elim (repo.object_id_from_hex vehicle_id) [
        | none ↦ w
        | some id ↦
            let reminder : ServiceReminder = record {
              id = "";
              vehicle_id = id;
              types = types;
              due_date = date;
              due_odometer = due;
              current_odometer = odometer;
              days_until_due = none;
              odometer_until_due = none;
              priority = calculate_priority F date due odometer now;
              is_overdue = false;
              created_at = 0;
              updated_at = 0;
            } in
            (records.create_reminder (update_reminder_status F now reminder) w).0
      ]

  -- The record that `CreateMaintenanceRecord` stores.
  unfoldable pub new_record :
      CreateMaintenanceRequest F → Vehicle F → String → Time → W → MaintenanceRecord F
  new_record req vehicle vehicle_id now w =
      let interval = get_service_interval_for_types req.types req.service_interval in
      let next_service_odometer = wrap64 (req.odometer +ℤ interval) in
      record {
        id = "";
        vehicle_id = vehicle_id;
        types = req.types;
        description = req.description;
        cost = req.cost;
        currency = req.currency;
        service_center = req.service_center;
        performed_at = req.performed_at;
        odometer = req.odometer;
        service_interval = interval;
        next_service_odometer = next_service_odometer;
        next_service_date =
            some (estimate_next_service_date repo vehicle req.odometer next_service_odometer now w);
        parts_replaced = req.parts_replaced;
        notes = req.notes;
        status = req.status;
        created_at = 0;
        updated_at = 0;
      }

  -- After the call of `Create`.
  unfoldable pub remind :
      CreateMaintenanceRequest F
      → MaintenanceRecord F
      → Time
      → W × Option (MaintenanceRecord F)
      → W × Result RecordError (MaintenanceRecord F)
  remind req r now (w, none) = (w, failed repository_failed)
  remind req r now (w, some stored) = (
    create_service_reminder req.vehicle_id req.types r.next_service_date
        (some r.next_service_odometer) req.odometer now w,
    ok stored,
  )

  unfoldable pub create_maintenance_record :
      CreateMaintenanceRequest F → Time → W → W × Result RecordError (MaintenanceRecord F)
  create_maintenance_record req now w = elim (repo.find_vehicle_by_id req.vehicle_id w) [
    | none ↦ (w, failed vehicle_not_found)
    | some vehicle ↦ elim (repo.object_id_from_hex req.vehicle_id) [
      | none ↦ (w, failed invalid_vehicle_id)
      | some id ↦ let r = new_record req vehicle id now w in remind req r now (records.create r w)
    ]
  ]

  unfoldable pub get_maintenance_records_by_vehicle :
      String → W → Result RecordError (List (MaintenanceRecord F))
  get_maintenance_records_by_vehicle vehicle_id w = elim (repo.find_vehicle_by_id vehicle_id w) [
    | none ↦ failed vehicle_not_found
    | some _ ↦ elim (repo.find_by_vehicle_id vehicle_id w) [
      | none ↦ failed repository_failed
      | some found ↦ ok found
    ]
  ]

  unfoldable pub update_maintenance_record :
      String → UpdateMaintenanceRequest F → W → W × Result RecordError (MaintenanceRecord F)
  update_maintenance_record id req w = elim (records.find_by_id id w) [
    | none ↦ (w, failed record_not_found)
    | some r ↦
        let (w', updated) = records.update id (apply_maintenance_request req r) w in
        (w', elim updated [ none ↦ failed repository_failed | some stored ↦ ok stored ])
  ]

  unfoldable pub delete_maintenance_record : String → W → W × Result RecordError (Unit {0})
  delete_maintenance_record id w = elim (records.find_by_id id w) [
    | none ↦ (w, failed record_not_found)
    | some _ ↦
        let (w', deleted) = records.delete id w in
        (w', if deleted then ok tt else failed repository_failed)
  ]

  unfoldable pub get_service_reminders :
      String → Time → W → Result RecordError (List ServiceReminder)
  get_service_reminders vehicle_id now w = elim (repo.find_vehicle_by_id vehicle_id w) [
    | none ↦ failed vehicle_not_found
    | some _ ↦ elim (records.find_reminders_by_vehicle_id vehicle_id w) [
      | none ↦ failed repository_failed
      | some reminders ↦ ok (map (update_reminder_status F now) reminders)
    ]
  ]
