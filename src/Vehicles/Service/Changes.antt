-- ===== src/Vehicles/Service/Changes.antt =====
-- The changes of vehicles are the same with the cache, and keep it fresh.
use vehicle_telematics.Base.{
  String, ◌≡◌, ◌≢◌, sym, refl, ◌∙◌, inl, inr, Bool, true, false, Option, none, some, Bool-cases,
  Option-cases,
}
use vehicle_telematics.Base.Float.{Float}
use vehicle_telematics.Base.Time.{Time}
use vehicle_telematics.Models.{Vehicle}
use vehicle_telematics.Cache.{CacheManager}
use vehicle_telematics.Cache.View.{View}
use vehicle_telematics.Vehicles.Requests.{UpdateVehicleRequest, apply_request}
use vehicle_telematics.Vehicles.Caching.Dropped.{
  invalidate_on_update-Dropped, invalidate_on_delete-Dropped,
}
use vehicle_telematics.Vehicles.Service.Defs.{
  VehicleService, World, plate_taken, raise_alerts, finish_update, update_found, update_vehicle,
  finish_delete, delete_vehicle,
}
use vehicle_telematics.Vehicles.Service.Fresh.{IsFresh, Dropped-IsFresh}
use vehicle_telematics.Vehicles.Service.Reads.{IsSound, IsGood, put_one-good}

module _ {F : Float} {D A C : Type 0} (s : VehicleService F D A C)
    (cache : CacheManager (Vehicle F) C) where
  abbrev pub cached : VehicleService F D A C
  cached = record s { cache_manager = some cache }

module _ {F : Float} {D A C : Type 0} (s : VehicleService F D A C) where
  abbrev pub uncached : VehicleService F D A C
  uncached = record s { cache_manager = none }
  -- The service without a cache does to the vehicles and the alerts what the service with it does,
  -- and gives the same answer; the cache stays fresh.

module _ {F : Float} {D A C : Type 0} (s : VehicleService F D A C) (normal : String → String)
    (view : View (Vehicle F) C) where
  -- The service without a cache does to the vehicles and the alerts what the service with it does,
  -- and gives the same answer; the cache stays fresh.
  abbrev pub Same : {X : Type 0} → C → World D A C × X → World D A C × X → Type 0
  Same c0 (w, x) plain =
      ((plain ≡ (record w { cache = c0 }, x))
        × IsFresh s.vehicle_repo normal view w.vehicles w.cache)

module _ {F : Float} {D A C : Type 0} (s : VehicleService F D A C)
    (cache : CacheManager (Vehicle F) C) (normal : String → String) (view : View (Vehicle F) C)
    (sound : IsSound s cache normal view) where
  open sound use {lawful, reachable, keeps}

  finish_update-Same :
      (c0 : C) (id : String) (found : Vehicle F) (a : A) (w : World D A C)
      (r : D × Option (Vehicle F))
      → (r.1 ≡ none → r.0 ≡ w.vehicles)
      → ((u : Vehicle F)
          → r.1 ≡ some u
          → (u.id ≡ normal id)
            × (s.vehicle_repo.find_by_id u.id r.0 ≡ some u)
            × ((status : String)
                → status ≢ found.status
                → status ≢ u.status
                → s.vehicle_repo.find_by_status status r.0
                  ≡ s.vehicle_repo.find_by_status status w.vehicles)
            × ((driver : String)
                → driver ≢ found.driver
                → driver ≢ u.driver
                → s.vehicle_repo.find_by_driver driver r.0
                  ≡ s.vehicle_repo.find_by_driver driver w.vehicles))
      → ((j : String)
          → normal j ≢ normal id
          → s.vehicle_repo.find_by_id j r.0 ≡ s.vehicle_repo.find_by_id j w.vehicles)
      → IsGood s normal view w
      → Same s normal view c0
          (finish_update (cached s cache) found a w r)
          (finish_update (uncached s) found a (record w { cache = c0 }) r)
  unfolding finish_update
  finish_update-Same c0 id found a w (d, none) refused _ _ good = (refl, rw (refused refl) good)
  finish_update-Same c0 id found a w (d, some u) _ done others good =
      let (named, stored, statuses, drivers) = done u refl in
      let (c', dropped, is) =
        invalidate_on_update-Dropped s.cache_config cache view lawful reachable u found.driver
          found.status w.cache in
      (
        refl,
        rw is (
            put_one-good s cache normal view sound u.id u _ d c' stored (
              Dropped-IsFresh s.vehicle_repo normal view u found.driver found.status dropped
                (λ j other. others j (λ e. other (e ∙ sym named))) statuses drivers good)),
      )

  update_found-Same :
      (c0 : C) (id : String) (req : UpdateVehicleRequest F) (now : Time) (found : Vehicle F)
      (w : World D A C)
      → s.vehicle_repo.find_by_id id w.vehicles ≡ some found
      → IsGood s normal view w
      → Same s normal view c0
          (update_found (cached s cache) id req now found w)
          (update_found (uncached s) id req now found (record w { cache = c0 }))
  unfolding update_found raise_alerts
  update_found-Same c0 id req now found w e good =
      let changed = record (apply_request req found) { last_update = now; updated_at = now } in
      let (a, v) = raise_alerts s req found.fuel_level now changed w.alerts in
      let d = w.vehicles in
      finish_update-Same c0 id found a w (s.vehicle_repo.update id v d) (keeps.update-failed id v d)
        (λ u done. (
          keeps.update-id id v u d done,
          keeps.update-found id v u d done,
          λ status. keeps.update-status id v found u d status e done,
          λ driver. keeps.update-driver id v found u d driver e done,
        ))
        (keeps.update-others id v d) good

  pub update_vehicle-Same :
      (c0 : C) (id : String) (req : UpdateVehicleRequest F) (now : Time) (w : World D A C)
      → IsGood s normal view w
      → Same s normal view c0
          (update_vehicle (cached s cache) id req now w)
          (update_vehicle (uncached s) id req now (record w { cache = c0 }))
  unfolding update_vehicle plate_taken
  update_vehicle-Same c0 id req now w good =
      elim (Option-cases (s.vehicle_repo.find_by_id id w.vehicles)) [
        | inl missing ↦ rw (missing, update_vehicle) (refl, good)
        | inr (found, e) ↦ elim (Bool-cases (plate_taken s id req w.vehicles)) [
          | inl taken ↦ rw (e, update_vehicle, taken) (refl, good)
          | inr free ↦ rw (e, update_vehicle, free) (update_found-Same c0 id req now found w e good)
        ]
      ]

  finish_delete-Same :
      (c0 : C) (id : String) (v : Vehicle F) (w : World D A C) (r : D × Bool)
      → v.id ≡ normal id
      → (r.1 ≡ false → r.0 ≡ w.vehicles)
      → ((j : String)
          → normal j ≢ normal id
          → s.vehicle_repo.find_by_id j r.0 ≡ s.vehicle_repo.find_by_id j w.vehicles)
      → ((status : String)
          → status ≢ v.status
          → s.vehicle_repo.find_by_status status r.0
            ≡ s.vehicle_repo.find_by_status status w.vehicles)
      → ((driver : String)
          → driver ≢ v.driver
          → s.vehicle_repo.find_by_driver driver r.0
            ≡ s.vehicle_repo.find_by_driver driver w.vehicles)
      → IsGood s normal view w
      → Same s normal view c0
          (finish_delete (cached s cache) v w r)
          (finish_delete (uncached s) v (record w { cache = c0 }) r)
  unfolding finish_delete
  finish_delete-Same c0 id v w (d, false) _ refused _ _ _ good = (refl, rw (refused refl) good)
  finish_delete-Same c0 id v w (d, true) named _ others statuses drivers good = (
    refl,
    Dropped-IsFresh s.vehicle_repo normal view v v.driver v.status
        (invalidate_on_delete-Dropped s.cache_config cache view lawful reachable v w.cache)
        (λ j other. others j (λ e. other (e ∙ sym named))) (λ status one two. statuses status one)
        (λ driver one two. drivers driver one) good,
  )

  pub delete_vehicle-Same :
      (c0 : C) (id : String) (w : World D A C)
      → IsGood s normal view w
      → Same s normal view c0
          (delete_vehicle (cached s cache) id w)
          (delete_vehicle (uncached s) id (record w { cache = c0 }))
  unfolding delete_vehicle
  delete_vehicle-Same c0 id w good = elim (Option-cases (s.vehicle_repo.find_by_id id w.vehicles)) [
    | inl missing ↦ rw (missing, delete_vehicle) (refl, good)
    | inr (v, e) ↦
        let d = w.vehicles in
        rw (e, delete_vehicle)
          (finish_delete-Same c0 id v w (s.vehicle_repo.delete id d) (keeps.find-id id d v e)
            (keeps.delete-failed id d) (keeps.delete-others id d)
            (λ status. keeps.delete-status id v d status e)
            (λ driver. keeps.delete-driver id v d driver e) good)
  ]
