-- ===== src/Alerts/Resolved.antt =====
-- The resolution of alerts.
use vehicle_telematics.Base.{
  String, ◌≡◌, ◌≢◌, refl, sym, ◌∙◌, inl, inr, true, false, not, List, [], ◌∷◌, Option, none, some,
  if◌then◌else◌, str_eq, eq_iff, All, Bool-cases, arith,
}
use vehicle_telematics.Base.Float.{Float}
use vehicle_telematics.Base.Time.{Time}
use vehicle_telematics.Models.{Alert}
use vehicle_telematics.Alerts.{
  AlertRepository, AlertService, Stores, UpdateAlertRequest, apply_alert_request, finish_alert,
  store_alert, resolve_found, resolve_alert, resolve_each, resolve_all, resolve_alerts_by_vehicle,
}

-- What the service relies on of the repository, while the database answers. `normal` is the hex text
-- of the ObjectID that a text names: a document answers to each spelling of its id. An alert that is
-- updated under its own id is found as it was stored, and the other alerts stay as they are.
pub record KeepsAlerts {A : Type 0} (repo : AlertRepository A) (normal : String → String)
    : Type 0 where
  pub spelling :
      (id j : String) (a : A) → normal id ≡ normal j → repo.find_by_id id a ≡ repo.find_by_id j a
  pub update-stored :
      (id : String) (old alert stored : Alert) (a : A)
      → repo.find_by_id id a ≡ some old
      → alert.id ≡ old.id
      → (repo.update id alert a).1 ≡ some stored
      → (repo.find_by_id id (repo.update id alert a).0 ≡ some stored)
        × (stored.resolved ≡ alert.resolved)
  pub update-others :
      (id : String) (alert : Alert) (a : A) (j : String)
      → normal id ≢ normal j
      → repo.find_by_id j (repo.update id alert a).0 ≡ repo.find_by_id j a
  pub vehicle-found :
      (vehicle_id : String) (a : A) (alerts : List Alert)
      → repo.find_by_vehicle_id vehicle_id a ≡ some alerts
      → All (λ (x : Alert). repo.find_by_id x.id a ≡ some x) alerts

-- No update fails, of an alert that is there and under its own id.
abbrev pub NeverFails : {A : Type 0} → AlertRepository A → Type 0
NeverFails {A} repo =
    (id : String) (old alert : Alert) (a : A)
    → repo.find_by_id id a ≡ some old
    → alert.id ≡ old.id
    → (stored : Alert) × ((repo.update id alert a).1 ≡ some stored)

-- The time of the resolution is there exactly when the alert is resolved.
abbrev pub IsTimed : Alert → Type 0
IsTimed alert = alert.resolved ≡ elim alert.resolved_at [ none ↦ false | some _ ↦ true ]

-- An update keeps the time of the resolution in step with the mark, for every request.
apply-IsTimed :
    (req : UpdateAlertRequest) (now : Time) (alert : Alert)
    → IsTimed alert
    → IsTimed (apply_alert_request req now alert)
unfolding apply_alert_request
apply-IsTimed req now alert h = ground arith

module _ {F : Float} {D A : Type 0} (s : AlertService F D A) (normal : String → String)
    (keeps : KeepsAlerts s.alert_repo normal) (writes : NeverFails s.alert_repo) where
  abbrev pub IsResolved : A → String → Type 0
  IsResolved a id = (x : Alert) × (s.alert_repo.find_by_id id a ≡ some x) × (x.resolved ≡ true)

  finish_alert-alerts :
      (alert : Alert) (w : Stores D A) (r : A × Option Alert)
      → (finish_alert s alert w r).0.alerts ≡ r.0
  unfolding finish_alert
  finish_alert-alerts alert w (a, none) = refl
  finish_alert-alerts alert w (a, some stored) = refl

  -- What `ResolveAlert` leaves of the alerts.
  resolve_found_self :
      (id : String) (now : Time) (x : Alert) (w : Stores D A)
      → s.alert_repo.find_by_id id w.alerts ≡ some x
      → IsResolved (resolve_found s id now (some x) w).0.alerts id
  unfolding resolve_found store_alert
  resolve_found_self id now x w e = elim (Bool-cases x.resolved) [
    | inl done ↦ rw (done, resolve_found) (x, e, done)
    | inr todo ↦
        let y = record x { resolved = true; resolved_at = some now } in
        let (stored, answer) = writes id x y w.alerts e refl in
        let (found, is) = keeps.update-stored id x y stored w.alerts e refl answer in
        let left = finish_alert-alerts y w (s.alert_repo.update id y w.alerts) in
        rw (todo, resolve_found, left) (stored, found, is)
  ]

  resolve_found-others :
      (id : String) (now : Time) (o : Option Alert) (w : Stores D A) (j : String)
      → normal id ≢ normal j
      → s.alert_repo.find_by_id j (resolve_found s id now o w).0.alerts
        ≡ s.alert_repo.find_by_id j w.alerts
  unfolding resolve_found store_alert
  resolve_found-others id now none w j differ = refl
  resolve_found-others id now (some x) w j differ = elim (Bool-cases x.resolved) [
    | inl done ↦ rw (done, resolve_found) refl
    | inr todo ↦
        let y = record x { resolved = true; resolved_at = some now } in
        let left = finish_alert-alerts y w (s.alert_repo.update id y w.alerts) in
        rw (todo, resolve_found, left) (keeps.update-others id y w.alerts j differ)
  ]

  resolve_alert_self :
      (id : String) (now : Time) (x : Alert) (w : Stores D A)
      → s.alert_repo.find_by_id id w.alerts ≡ some x
      → IsResolved (resolve_alert s id now w).0.alerts id
  unfolding resolve_alert
  resolve_alert_self id now x w e = rw (e) (resolve_found_self id now x w e)

  -- What is there stays there, and what is resolved stays resolved.
  resolve_alert-keeps :
      (P : Alert → Type 0)
      → ((x : Alert) → x.resolved ≡ true → P x)
      → (id : String) (now : Time) (w : Stores D A) (j : String)
      → ((x : Alert) × (s.alert_repo.find_by_id j w.alerts ≡ some x) × P x)
      → (x : Alert) × (s.alert_repo.find_by_id j (resolve_alert s id now w).0.alerts ≡ some x) × P x
  unfolding resolve_alert
  resolve_alert-keeps P holds id now w j (x, e, p) =
      elim (Bool-cases (str_eq (normal id) (normal j))) [
        | inl same ↦
            let is = (eq_iff (normal id) (normal j)).0 same in
            let (y, found, resolved) =
              resolve_alert_self id now x w (keeps.spelling id j w.alerts is ∙ e) in
            (
              y,
              sym (keeps.spelling id j (resolve_alert s id now w).0.alerts is) ∙ found,
              holds y resolved,
            )
        | inr other ↦
            let differ : normal id ≢ normal j =
              λ is. let same = (eq_iff (normal id) (normal j)).1 is in cc in
            (x, resolve_found-others id now (s.alert_repo.find_by_id id w.alerts) w j differ ∙ e, p)
      ]

  -- One round of the loop.
  abbrev round : Time → Alert → Stores D A → Stores D A
  round now x w = if not x.resolved then (resolve_alert s x.id now w).0 else w

  round-keeps :
      (P : Alert → Type 0)
      → ((x : Alert) → x.resolved ≡ true → P x)
      → (now : Time) (first : Alert) (w : Stores D A) (j : String)
      → ((x : Alert) × (s.alert_repo.find_by_id j w.alerts ≡ some x) × P x)
      → (x : Alert) × (s.alert_repo.find_by_id j (round now first w).alerts ≡ some x) × P x
  round-keeps P holds now first w j h = elim (Bool-cases first.resolved) [
    | inl done ↦ rw done h
    | inr todo ↦ rw todo (resolve_alert-keeps P holds first.id now w j h)
  ]

  -- An alert is there, and resolved if it was listed as such.
  abbrev IsListed : A → Alert → Type 0
  IsListed a x =
      (y : Alert) × (s.alert_repo.find_by_id x.id a ≡ some y)
      × (x.resolved ≡ true → y.resolved ≡ true)

  round-IsListed :
      (now : Time) (first : Alert) (w : Stores D A) (xs : List Alert)
      → All (IsListed w.alerts) xs
      → All (IsListed (round now first w).alerts) xs
  round-IsListed now first w [] h = tt
  round-IsListed now first w (x ∷ xs) h = (
    round-keeps (λ y. x.resolved ≡ true → y.resolved ≡ true) (λ y r _. r) now first w x.id h.0,
    round-IsListed now first w xs h.1,
  )

  round_self :
      (now : Time) (x : Alert) (w : Stores D A)
      → IsListed w.alerts x
      → IsResolved (round now x w).alerts x.id
  round_self now x w (y, found, same) = elim (Bool-cases x.resolved) [
    | inl done ↦ rw done (y, found, same done)
    | inr todo ↦ rw todo (resolve_alert_self x.id now y w found)
  ]

  resolve_each-IsResolved :
      (now : Time) (xs : List Alert) (w : Stores D A)
      → All (IsListed w.alerts) xs
      → All (λ (x : Alert). IsResolved (resolve_each s now xs w).alerts x.id) xs
        × ((j : String) → IsResolved w.alerts j → IsResolved (resolve_each s now xs w).alerts j)
  unfolding resolve_each
  resolve_each-IsResolved now [] w h = (tt, λ j r. r)
  resolve_each-IsResolved now (x ∷ xs) w h =
      let w1 = round now x w in
      let (rest, kept) = resolve_each-IsResolved now xs w1 (round-IsListed now x w xs h.1) in
      (
        (kept x.id (round_self now x w h.0), rest),
        λ j r. kept j (round-keeps (λ y. y.resolved ≡ true) (λ y e. e) now x w j r),
      )

  listed :
      (a : A) (xs : List Alert)
      → All (λ (x : Alert). s.alert_repo.find_by_id x.id a ≡ some x) xs
      → All (IsListed a) xs
  listed a [] h = tt
  listed a (x ∷ xs) h = ((x, h.0, λ r. r), listed a xs h.1)

  -- If no update of an alert fails, whose error `ResolveAlertsByVehicle` drops, it leaves every alert
  -- of the vehicle resolved, those of the others that were resolved too, and reports success whenever
  -- the alerts of the vehicle can be read.
  pub resolve_alerts_by_vehicle-IsResolved :
      (vehicle_id : String) (now : Time) (w : Stores D A) (alerts : List Alert)
      → s.alert_repo.find_by_vehicle_id vehicle_id w.alerts ≡ some alerts
      → let (w', done) = resolve_alerts_by_vehicle s vehicle_id now w in
        (done ≡ true)
        × All (λ (x : Alert). IsResolved w'.alerts x.id) alerts
        × ((j : String) → IsResolved w.alerts j → IsResolved w'.alerts j)
  unfolding resolve_alerts_by_vehicle resolve_all
  resolve_alerts_by_vehicle-IsResolved vehicle_id now w alerts e =
      let (all, kept) =
        resolve_each-IsResolved now alerts w
          (listed w.alerts alerts (keeps.vehicle-found vehicle_id w.alerts alerts e)) in
      rw (e, resolve_all) (refl, all, kept)

-- The alert that `UpdateAlert` passes to the repository has the time of the resolution in step with
-- the mark, if the alert that it has found had; a resolved one that is to be resolved keeps its time.
-- But a request that does not speak of the resolution, which is a request with `false`, makes a
-- resolved alert an open one, whatever else it changes. What the repository makes of it is not said
-- here.
pub apply_alert_request-resolution :
    (req : UpdateAlertRequest) (now : Time) (alert : Alert)
    → IsTimed alert
    → IsTimed (apply_alert_request req now alert)
      × ((apply_alert_request req now alert).resolved ≡ req.resolved)
      × (alert.resolved ≡ true
          → req.resolved ≡ true
          → (apply_alert_request req now alert).resolved_at ≡ alert.resolved_at)
      × (req.resolved ≡ false → (apply_alert_request req now alert).resolved_at ≡ none)
unfolding apply_alert_request
apply_alert_request-resolution req now alert h =
    (apply-IsTimed req now alert h, ground arith, λ a b. ground arith, λ a. ground arith)
