-- ===== src/Maintenance/Schedules/Aligned.antt =====
-- The odometer at which a schedule falls due, over any history of requests.
use vehicle_telematics.Base.{
  String, ◌≡◌, refl, ap, ◌∙◌, ◌⊎◌, inl, inr, Bool, List, [], ◌∷◌, Option, none, some, str_eq,
  Option-cases, if_either,
}
use vehicle_telematics.Base.Int.{ℤ, ◌+ℤ◌, wrap64}
use vehicle_telematics.Base.Float.{Float}
use vehicle_telematics.Base.Time.{Time}
use vehicle_telematics.Maintenance.Types.{MaintenanceSchedule}
use vehicle_telematics.Maintenance.Schedules.{
  Repositories, CreateScheduleRequest, UpdateScheduleRequest, add_days, create_schedule,
  set_description, set_interval_km, set_interval_days, set_last_odometer, set_last_date,
  set_service_center, set_active, apply_update, update_schedule, delete_schedule,
}

-- The next service is the interval after the last.
abbrev pub IsAligned : MaintenanceSchedule → Type 0
IsAligned s = s.next_service_odometer ≡ wrap64 (s.last_service_odometer +ℤ s.interval_km)

apply_update-IsAligned :
    (req : UpdateScheduleRequest) (s : MaintenanceSchedule)
    → IsAligned s
    → IsAligned (apply_update req s)
unfolding apply_update
apply_update-IsAligned req s v = active req.is_active _ (
    center req.service_center_name _ (
      date req.last_service_date _ (
        odometer req.last_service_odometer _
          (days req.interval_days _ (km req.interval_km _ (description req.description s v))))))
  where
    description :
        (d : String) (s : MaintenanceSchedule) → IsAligned s → IsAligned (set_description d s)
    description d s v = if_either IsAligned (str_eq d "") v v

    km : (o : Option ℤ) (s : MaintenanceSchedule) → IsAligned s → IsAligned (set_interval_km o s)
    km none s v = v
    km (some n) s v = refl

    days :
        (o : Option ℤ) (s : MaintenanceSchedule) → IsAligned s → IsAligned (set_interval_days o s)
    days none s v = v
    days (some n) s v = v

    odometer :
        (o : Option ℤ) (s : MaintenanceSchedule) → IsAligned s → IsAligned (set_last_odometer o s)
    odometer none s v = v
    odometer (some n) s v = refl

    date : (o : Option Time) (s : MaintenanceSchedule) → IsAligned s → IsAligned (set_last_date o s)
    date none s v = v
    date (some d) s v = by_days s.interval_days
      where
        by_days :
            (o : Option ℤ)
            → IsAligned (elim o [
              | none ↦ record s { last_service_date = d }
              | some n ↦ record s { last_service_date = d; next_service_date = some (add_days d n) }
            ])
        by_days none = v
        by_days (some n) = v

    center :
        (d : String) (s : MaintenanceSchedule) → IsAligned s → IsAligned (set_service_center d s)
    center d s v = if_either IsAligned (str_eq d "") v v

    active : (o : Option Bool) (s : MaintenanceSchedule) → IsAligned s → IsAligned (set_active o s)
    active none s v = v
    active (some b) s v = v

-- What comes to the service.
pub data Request : Type 0 where
  creates : CreateScheduleRequest → Time → Request
  updates : String → UpdateScheduleRequest → Request
  deletes : String → Request

module _ {F : Float} {W : Type 0} (repo : Repositories F W) where
  unfoldable pub handle : Request → W → W
  handle (creates req now) w = (create_schedule repo req now w).0
  handle (updates id req) w = (update_schedule repo id req w).0
  handle (deletes id) w = (delete_schedule repo id w).0

  unfoldable pub handle_all : List Request → W → W
  unfolding handle
  handle_all [] w = w
  handle_all (r ∷ rs) w = handle_all rs (handle r w)

  -- Two schedules with the same intervals and odometers.
  abbrev pub SameKm : MaintenanceSchedule → MaintenanceSchedule → Type 0
  SameKm s t =
      (t.next_service_odometer ≡ s.next_service_odometer)
      × (t.last_service_odometer ≡ s.last_service_odometer)
      × (t.interval_km ≡ s.interval_km)

  -- What is relied on of the repository: what is found after a change is what was written, up to
  -- its identifier and time stamps, or was found before.
  pub record Stores : Type 0 where
    pub create_found :
        (s : MaintenanceSchedule) (w : W) (id : String) (t : MaintenanceSchedule)
        → repo.find_schedule_by_id id (repo.create s w).0 ≡ some t
        → SameKm s t ⊎ (repo.find_schedule_by_id id w ≡ some t)
    pub update_found :
        (j : String) (s : MaintenanceSchedule) (w : W) (id : String) (t : MaintenanceSchedule)
        → repo.find_schedule_by_id id (repo.update j s w).0 ≡ some t
        → SameKm s t ⊎ (repo.find_schedule_by_id id w ≡ some t)
    pub delete_found :
        (j : String) (w : W) (id : String) (t : MaintenanceSchedule)
        → repo.find_schedule_by_id id (repo.delete j w).0 ≡ some t
        → repo.find_schedule_by_id id w ≡ some t

  abbrev pub AllAligned : W → Type 0
  AllAligned w =
      (id : String) (s : MaintenanceSchedule) → repo.find_schedule_by_id id w ≡ some s → IsAligned s

  same-IsAligned : (s t : MaintenanceSchedule) → SameKm s t → IsAligned s → IsAligned t
  same-IsAligned s t same v = rw (same.0, same.1, same.2) v

  handle-AllAligned : Stores → (r : Request) (w : W) → AllAligned w → AllAligned (handle r w)
  unfolding handle create_schedule update_schedule delete_schedule
  handle-AllAligned stores (creates req now) w v =
      elim (Option-cases (repo.find_vehicle_by_id req.vehicle_id w)) [
        | inl missing ↦ rw (missing, handle, create_schedule) v
        | inr (vehicle, found) ↦ elim (Option-cases (repo.object_id_from_hex req.vehicle_id)) [
          | inl invalid ↦ rw (found, handle, create_schedule, invalid) v
          | inr (vehicle_id, valid) ↦
              rw (found, handle, create_schedule, valid)
                (λ id t e. elim (stores.create_found _ w id t e) [
                  | inl same ↦ rw (same.0, same.1, same.2) refl
                  | inr old ↦ v id t old
                ])
        ]
      ]
  handle-AllAligned stores (updates id req) w v =
      elim (Option-cases (repo.find_schedule_by_id id w)) [
        | inl missing ↦ rw (missing, handle, update_schedule) v
        | inr (s, found) ↦
            rw (found, handle, update_schedule)
              (λ j t e. elim (stores.update_found id (apply_update req s) w j t e) [
                | inl same ↦
                    same-IsAligned (apply_update req s) t same
                      (apply_update-IsAligned req s (v id s found))
                | inr old ↦ v j t old
              ])
      ]
  handle-AllAligned stores (deletes id) w v = elim (Option-cases (repo.find_schedule_by_id id w)) [
    | inl missing ↦ rw (missing, handle, delete_schedule) v
    | inr (s, found) ↦
        rw (found, handle, delete_schedule) (λ j t e. v j t (stores.delete_found id w j t e))
  ]

  -- Over any requests to create, update and delete schedules, each of which may fail, every schedule
  -- that the repository holds with a last service odometer and an interval in km has as its next
  -- service odometer the sum of the two, if that held before.
  pub handle_all-AllAligned :
      Stores → (rs : List Request) (w : W) → AllAligned w → AllAligned (handle_all rs w)
  unfolding handle_all
  handle_all-AllAligned stores [] w v = v
  handle_all-AllAligned stores (r ∷ rs) w v =
      handle_all-AllAligned stores rs (handle r w) (handle-AllAligned stores r w v)

-- What decides the date of the next service.
abbrev dates : MaintenanceSchedule → Option Time × Option ℤ
dates s = (s.next_service_date, s.interval_days)

abbrev next_date : Option Time → Option Time × Option ℤ → Option Time
next_date date (next, interval) = elim date [
  | none ↦ next
  | some d ↦ elim interval [ none ↦ next | some days ↦ some (add_days d days) ]
]

description-dates : (d : String) (s : MaintenanceSchedule) → dates (set_description d s) ≡ dates s
unfolding set_description
description-dates d s =
    if_either (λ (t : MaintenanceSchedule). dates t ≡ dates s) (str_eq d "") refl refl

km-dates : (o : Option ℤ) (s : MaintenanceSchedule) → dates (set_interval_km o s) ≡ dates s
unfolding set_interval_km
km-dates none s = refl
km-dates (some n) s = refl

odometer-dates : (o : Option ℤ) (s : MaintenanceSchedule) → dates (set_last_odometer o s) ≡ dates s
unfolding set_last_odometer
odometer-dates none s = refl
odometer-dates (some n) s = refl

days-dates :
    (o : Option ℤ) (s : MaintenanceSchedule)
    → dates (set_interval_days o s) ≡ ((dates s).0, elim o [ none ↦ (dates s).1 | some n ↦ some n ])
unfolding set_interval_days
days-dates none s = refl
days-dates (some n) s = refl

center-date :
    (d : String) (s : MaintenanceSchedule)
    → (set_service_center d s).next_service_date ≡ s.next_service_date
unfolding set_service_center
center-date d s =
    if_either (λ (t : MaintenanceSchedule). t.next_service_date ≡ s.next_service_date) (str_eq d "")
      refl refl

active-date :
    (o : Option Bool) (s : MaintenanceSchedule)
    → (set_active o s).next_service_date ≡ s.next_service_date
unfolding set_active
active-date none s = refl
active-date (some b) s = refl

last_date-date :
    (o : Option Time) (s : MaintenanceSchedule)
    → (set_last_date o s).next_service_date ≡ next_date o (dates s)
unfolding set_last_date
last_date-date none s = refl
last_date-date (some d) s = by_days s.interval_days
  where
    updated : Option ℤ → MaintenanceSchedule
    updated o = elim o [
      | none ↦ record s { last_service_date = d }
      | some n ↦ record s { last_service_date = d; next_service_date = some (add_days d n) }
    ]

    by_days :
        (o : Option ℤ)
        → (updated o).next_service_date
          ≡ elim o [ none ↦ s.next_service_date | some n ↦ some (add_days d n) ]
    by_days none = refl
    by_days (some n) = refl

-- The date of the next service after an update: it is set anew only if the update gives the date of
-- the last service, from the interval in days that the schedule has after the update, if it has one.
-- An update of the interval in days alone leaves the date as it was.
pub apply_update-date :
    (req : UpdateScheduleRequest) (s : MaintenanceSchedule)
    → (apply_update req s).next_service_date ≡ elim req.last_service_date [
      | none ↦ s.next_service_date
      | some date ↦ elim req.interval_days [
        | some days ↦ some (add_days date days)
        | none ↦ elim s.interval_days [
          | none ↦ s.next_service_date
          | some days ↦ some (add_days date days)
        ]
      ]
    ]
unfolding apply_update
apply_update-date req s =
    active-date req.is_active _
    ∙ center-date req.service_center_name _
    ∙ last_date-date req.last_service_date _
    ∙ ap (next_date req.last_service_date) (
        odometer-dates req.last_service_odometer _
        ∙ days-dates req.interval_days _
        ∙ ap (λ p. (p.0, elim req.interval_days [ none ↦ p.1 | some n ↦ some n ]))
            (km-dates req.interval_km _ ∙ description-dates req.description s))
    ∙ by_request req.last_service_date req.interval_days
  where
    by_request :
        (date : Option Time) (interval : Option ℤ)
        → next_date date
            (s.next_service_date, elim interval [ none ↦ s.interval_days | some n ↦ some n ])
          ≡ elim date [
            | none ↦ s.next_service_date
            | some d ↦ elim interval [
              | some days ↦ some (add_days d days)
              | none ↦ elim s.interval_days [
                | none ↦ s.next_service_date
                | some days ↦ some (add_days d days)
              ]
            ]
          ]
    by_request none interval = refl
    by_request (some d) none = refl
    by_request (some d) (some days) = refl
