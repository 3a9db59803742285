-- ===== src/Vehicles/Caching/Dropped.antt =====
-- What is left of the cache after a vehicle has been changed or deleted.
use vehicle_telematics.Base.{String, ◌≡◌, refl, inl, inr, none, str_eq, eq_iff, Bool-cases}
use vehicle_telematics.Base.Float.{Float}
use vehicle_telematics.Models.{Vehicle}
use vehicle_telematics.Cache.{CacheConfig, CacheManager}
use vehicle_telematics.Cache.View.{
  View, Within, Within-refl, Within-trans, gone-vehicle, gone-list, IsLawful, IsReachable,
}
use vehicle_telematics.Vehicles.Caching.{
  status_list, driver_list, dropped_key, drop, drop_changed, keep, invalidate_cache_on_update,
  invalidate_cache_on_delete,
}

module _ {F : Float} {C : Type 0} (config : CacheConfig) (cache : CacheManager (Vehicle F) C)
    (view : View (Vehicle F) C) (lawful : IsLawful view cache) (reachable : IsReachable cache) where
  -- Nothing has come in, and neither the lists in which `v` or a vehicle of the given driver and
  -- status can stand nor the entry of `v` is left.
  pub record Dropped (v : Vehicle F) (driver status : String) (after before : C) : Type 0 where
    pub within : Within view after before
    pub one : view.stored v.id after ≡ none
    pub all : view.listed (dropped_key "all_vehicles") after ≡ none
    pub by_status : view.listed (dropped_key (status_list v.status)) after ≡ none
    pub by_old_status : view.listed (dropped_key (status_list status)) after ≡ none
    pub by_driver : view.listed (dropped_key (driver_list v.driver)) after ≡ none
    pub by_old_driver : view.listed (dropped_key (driver_list driver)) after ≡ none

  drop-Within : (list : String) (c : C) → Within view (drop config cache list c) c
  drop-Within list c = lawful.delete-Within (dropped_key list) c

  drop-gone :
      (list : String) (c : C) → view.listed (dropped_key list) (drop config cache list c) ≡ none
  drop-gone list c =
      lawful.delete-gone (dropped_key list) c (reachable.deletes (dropped_key list) c)

  drop_changed-Within :
      (previous current list : String) (c : C)
      → Within view (drop_changed config cache previous current list c) c
  drop_changed-Within previous current list c = elim (Bool-cases (str_eq previous current)) [
    | inl same ↦ rw same (Within-refl view c)
    | inr changed ↦ rw changed (drop-Within list c)
  ]

  -- The list of the previous value is gone, provided that of the current one was.
  drop_changed-gone :
      (list : String → String) (previous current : String) (c : C)
      → view.listed (dropped_key (list current)) c ≡ none
      → view.listed
          (dropped_key (list previous))
          (drop_changed config cache previous current (list previous) c)
        ≡ none
  drop_changed-gone list previous current c gone = elim (Bool-cases (str_eq previous current)) [
    | inl same ↦ rw same (let e = (eq_iff previous current).0 same in rw e gone)
    | inr changed ↦ rw changed (drop-gone (list previous) c)
  ]

  -- The cache before `invalidateCacheOnUpdate` stores the vehicle.
  abbrev cleared : Vehicle F → String → String → C → C
  cleared v driver status c =
      let c1 = drop config cache "all_vehicles" (cache.invalidate_vehicle v.id c).0 in
      let c2 = drop config cache (status_list v.status) c1 in
      let c3 = drop_changed config cache status v.status (status_list status) c2 in
      let c4 = drop config cache (driver_list v.driver) c3 in
      drop_changed config cache driver v.driver (driver_list driver) c4

  cleared-Dropped :
      (v : Vehicle F) (driver status : String) (c : C)
      → Dropped v driver status (cleared v driver status c) c
  cleared-Dropped v driver status c =
      let c0 = (cache.invalidate_vehicle v.id c).0 in
      let c1 = drop config cache "all_vehicles" c0 in
      let c2 = drop config cache (status_list v.status) c1 in
      let c3 = drop_changed config cache status v.status (status_list status) c2 in
      let c4 = drop config cache (driver_list v.driver) c3 in
      let w1 = drop-Within "all_vehicles" c0 in
      let w2 = drop-Within (status_list v.status) c1 in
      let w3 = drop_changed-Within status v.status (status_list status) c2 in
      let w4 = drop-Within (driver_list v.driver) c3 in
      let w5 = drop_changed-Within driver v.driver (driver_list driver) c4 in
      let w35 = Within-trans view w5 (Within-trans view w4 w3) in
      let w25 = Within-trans view w35 w2 in
      let w45 = Within-trans view w5 w4 in
      let w15 = Within-trans view w25 w1 in
      record {
        within = Within-trans view w15 (lawful.invalidate-Within v.id c);
        one =
            gone-vehicle view v.id w15
              (lawful.invalidate-gone v.id c (reachable.invalidates v.id c));
        all = gone-list view (dropped_key "all_vehicles") w25 (drop-gone "all_vehicles" c0);
        by_status =
            gone-list view (dropped_key (status_list v.status)) w35
              (drop-gone (status_list v.status) c1);
        by_old_status = gone-list view (dropped_key (status_list status)) w45 (
            drop_changed-gone status_list status v.status c2 (drop-gone (status_list v.status) c1));
        by_driver =
            gone-list view (dropped_key (driver_list v.driver)) w5
              (drop-gone (driver_list v.driver) c3);
        by_old_driver =
            drop_changed-gone driver_list driver v.driver c4 (drop-gone (driver_list v.driver) c3);
      }

  pub invalidate_on_update-Dropped :
      (v : Vehicle F) (driver status : String) (c : C)
      → (c' : C) × Dropped v driver status c' c
        × (invalidate_cache_on_update config cache v driver status c ≡ keep config cache v c')
  unfolding invalidate_cache_on_update
  invalidate_on_update-Dropped v driver status c =
      (cleared v driver status c, cleared-Dropped v driver status c, refl)

  pub invalidate_on_delete-Dropped :
      (v : Vehicle F) (c : C)
      → Dropped v v.driver v.status (invalidate_cache_on_delete config cache v c) c
  unfolding invalidate_cache_on_delete
  invalidate_on_delete-Dropped v c =
      let c0 = (cache.invalidate_vehicle v.id c).0 in
      let c1 = drop config cache "all_vehicles" c0 in
      let c2 = drop config cache (status_list v.status) c1 in
      let w1 = drop-Within "all_vehicles" c0 in
      let w2 = drop-Within (status_list v.status) c1 in
      let w3 = drop-Within (driver_list v.driver) c2 in
      let w23 = Within-trans view w3 w2 in
      let w13 = Within-trans view w23 w1 in
      let status_gone =
        gone-list view (dropped_key (status_list v.status)) w3
          (drop-gone (status_list v.status) c1) in
      let driver_gone = drop-gone (driver_list v.driver) c2 in
      record {
        within = Within-trans view w13 (lawful.invalidate-Within v.id c);
        one =
            gone-vehicle view v.id w13
              (lawful.invalidate-gone v.id c (reachable.invalidates v.id c));
        all = gone-list view (dropped_key "all_vehicles") w23 (drop-gone "all_vehicles" c0);
        by_status = status_gone;
        by_old_status = status_gone;
        by_driver = driver_gone;
        by_old_driver = driver_gone;
      }
