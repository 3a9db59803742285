-- ===== src/Vehicles/Service/Reads.antt =====
-- The getters answer what the repository answers, and keep the cache fresh.
use vehicle_telematics.Base.{
  String, ◌≡◌, sym, refl, ap, ◌∙◌, ◌⊎◌, inl, inr, List, [], ◌∷◌, Option, none, some,
}
use vehicle_telematics.Base.Float.{Float}
use vehicle_telematics.Base.Time.{Duration}
use vehicle_telematics.Models.{Vehicle}
use vehicle_telematics.Cache.{Cached, hit, miss, unavailable, CacheManager}
use vehicle_telematics.Cache.View.{View, IsLawful, IsReachable}
use vehicle_telematics.Vehicles.Caching.{
  status_list, driver_list, dropped_key, not_nil, read_through, get_list, get_one,
}
use vehicle_telematics.Vehicles.Caching.Keys.{dropped_key_inj}
use vehicle_telematics.Vehicles.Service.Defs.{VehicleService, World}
use vehicle_telematics.Vehicles.Service.Fresh.{KeepsVehicles, IsFresh, Within-IsFresh}

not_nil-hit :
    {V : Type 0} (cached : Cached (List V)) (vs : List V)
    → not_nil cached ≡ hit vs
    → cached ≡ hit vs
not_nil-hit (hit []) vs e = absurd (cc)
not_nil-hit (hit (v ∷ us)) vs e = e
not_nil-hit miss vs e = e
not_nil-hit unavailable vs e = e

module _ {X C : Type 0} (put : X → C → C) where
  read_through-answer :
      (found : Option X) (r : C × Cached X)
      → ((x : X) → r.1 ≡ hit x → found ≡ some x)
      → (read_through put found r).1 ≡ found
  unfolding read_through
  read_through-answer found (c, hit x) h = sym (h x refl)
  read_through-answer none (c, miss) h = refl
  read_through-answer (some x) (c, miss) h = refl
  read_through-answer none (c, unavailable) h = refl
  read_through-answer (some x) (c, unavailable) h = refl

  read_through-keeps :
      (P : C → Type 0) (found : Option X) (r : C × Cached X)
      → P r.0
      → ((x : X) → found ≡ some x → P (put x r.0))
      → P (read_through put found r).0
  unfolding read_through
  read_through-keeps P found (c, hit x) p h = p
  read_through-keeps P none (c, miss) p h = p
  read_through-keeps P (some x) (c, miss) p h = h x refl
  read_through-keeps P none (c, unavailable) p h = p
  read_through-keeps P (some x) (c, unavailable) p h = h x refl

module _ {F : Float} {D A C : Type 0} (s : VehicleService F D A C)
    (cache : CacheManager (Vehicle F) C) (normal : String → String)
    (view : View (Vehicle F) C) where
  -- What the service relies on of the cache and of the repository. It drops its lists under the keys
  -- under which the cache keeps them.
  pub record IsSound : Type 0 where
    pub lawful : IsLawful view cache
    pub reachable : IsReachable cache
    pub same_keys : (list : String) → view.list_key list ≡ dropped_key list
    pub keeps : KeepsVehicles s.vehicle_repo normal

module _ {F : Float} {D A C : Type 0} (s : VehicleService F D A C) (normal : String → String)
    (view : View (Vehicle F) C) where
  abbrev pub IsGood : World D A C → Type 0
  IsGood w = IsFresh s.vehicle_repo normal view w.vehicles w.cache

module _ {F : Float} {D A C : Type 0} (s : VehicleService F D A C)
    (cache : CacheManager (Vehicle F) C) (normal : String → String) (view : View (Vehicle F) C)
    (sound : IsSound s cache normal view) where
  open sound use {lawful, same_keys}

  abbrev pub IsAnswer : String → Option (List (Vehicle F)) → D → Type 0
  IsAnswer key found d =
      (("all_vehicles" ≡ key → s.vehicle_repo.find_all d ≡ found)
        × ((status : String)
            → status_list status ≡ key
            → s.vehicle_repo.find_by_status status d ≡ found)
        × ((driver : String)
            → driver_list driver ≡ key
            → s.vehicle_repo.find_by_driver driver d ≡ found))

  pub put_list-good :
      (key : String) (vs : List (Vehicle F)) (ttl : Duration) (d : D) (c : C)
      → IsAnswer key (some vs) d
      → IsFresh s.vehicle_repo normal view d c
      → IsFresh s.vehicle_repo normal view d (cache.set_vehicle_list key vs ttl c).0
  put_list-good key vs ttl d c (of_all, of_status, of_driver) good =
      let listed =
        λ (name : String) (us : List (Vehicle F))
            (here : view.listed (dropped_key name) (cache.set_vehicle_list key vs ttl c).0
              ≡ some us).
          entry name us (lawful.set_list-listed key vs ttl c (dropped_key name) us here) in
      record {
        one = λ id v e here. good.one id v e (lawful.set_list-stored key vs ttl c id v here);
        all = λ us here. pick (listed "all_vehicles" us here) (good.all us) of_all;
        by_status = λ status us here.
            pick (listed (status_list status) us here) (good.by_status status us)
              (of_status status);
        by_driver = λ driver us here.
            pick (listed (driver_list driver) us here) (good.by_driver driver us)
              (of_driver driver);
      }
    where
      entry :
          (name : String) (us : List (Vehicle F))
          → (view.listed (dropped_key name) c ≡ some us)
            ⊎ ((view.list_key key ≡ dropped_key name) × (vs ≡ us))
          → (view.listed (dropped_key name) c ≡ some us) ⊎ ((name ≡ key) × (vs ≡ us))
      entry name us (inl old) = inl old
      entry name us (inr (same, e)) = inr (dropped_key_inj name key (sym same ∙ same_keys key), e)

      pick :
          {name : String} {us : List (Vehicle F)} {answer : Option (List (Vehicle F))}
          → (view.listed (dropped_key name) c ≡ some us) ⊎ ((name ≡ key) × (vs ≡ us))
          → (view.listed (dropped_key name) c ≡ some us → answer ≡ some us)
          → (name ≡ key → answer ≡ some vs)
          → answer ≡ some us
      pick (inl old) f g = f old
      pick (inr (same, e)) f g = g same ∙ ap some e

  pub put_one-good :
      (id : String) (v : Vehicle F) (ttl : Duration) (d : D) (c : C)
      → s.vehicle_repo.find_by_id id d ≡ some v
      → IsFresh s.vehicle_repo normal view d c
      → IsFresh s.vehicle_repo normal view d (cache.set_vehicle id v ttl c).0
  put_one-good id v ttl d c found good = record {
    one = λ j u e here. elim (lawful.set_vehicle-stored id v ttl c j u here) [
      | inl old ↦ good.one j u e old
      | inr (same, value) ↦ rw (← same) (found ∙ ap some value)
    ];
    all = λ us here. good.all us (kept "all_vehicles" us here);
    by_status = λ status us here. good.by_status status us (kept (status_list status) us here);
    by_driver = λ driver us here. good.by_driver driver us (kept (driver_list driver) us here);
  }
    where
      kept :
          (list : String) (us : List (Vehicle F))
          → view.listed (dropped_key list) (cache.set_vehicle id v ttl c).0 ≡ some us
          → view.listed (dropped_key list) c ≡ some us
      kept list us here =
          let key = same_keys list in
          rw (← key) (
            lawful.set_vehicle-listed id v ttl c list us
              (ap (λ (k : String). view.listed k (cache.set_vehicle id v ttl c).0) key ∙ here))

  pub get_list-good :
      (key : String) (found : Option (List (Vehicle F))) (w : World D A C)
      → ((vs : List (Vehicle F))
          → view.listed (dropped_key key) w.cache ≡ some vs
          → found ≡ some vs)
      → IsAnswer key found w.vehicles
      → IsGood s normal view w
      → let (c, answer) = get_list s.cache_config (some cache) key found w.cache in
        (answer ≡ found) × IsFresh s.vehicle_repo normal view w.vehicles c
  unfolding get_list
  get_list-good key found w fresh answers good =
      let (c1, cached) = cache.get_vehicle_list key w.cache in
      let still =
        Within-IsFresh s.vehicle_repo normal view (lawful.get_list-Within key w.cache) good in
      (
        read_through-answer _ found (c1, not_nil cached)
            (λ vs e. fresh vs (
              ap (λ (k : String). view.listed k w.cache) (sym (same_keys key))
              ∙ lawful.get_list-hit key w.cache vs (not_nil-hit cached vs e))),
        read_through-keeps _ (IsFresh s.vehicle_repo normal view w.vehicles) found
            (c1, not_nil cached) still
            (λ vs e. put_list-good key vs _ w.vehicles c1 (rw e at answers) still),
      )

  pub get_one-good :
      (id : String) (w : World D A C)
      → normal id ≡ id
      → IsGood s normal view w
      → let found = s.vehicle_repo.find_by_id id w.vehicles in
        let (c, answer) = get_one s.cache_config (some cache) id found w.cache in
        (answer ≡ found) × IsFresh s.vehicle_repo normal view w.vehicles c
  unfolding get_one
  get_one-good id w hex good =
      let found = s.vehicle_repo.find_by_id id w.vehicles in
      let asked = cache.get_vehicle id w.cache in
      let still =
        Within-IsFresh s.vehicle_repo normal view (lawful.get_vehicle-Within id w.cache) good in
      (
        read_through-answer _ found asked
            (λ v e. good.one id v hex (lawful.get_vehicle-hit id w.cache v e)),
        read_through-keeps _ (IsFresh s.vehicle_repo normal view w.vehicles) found asked still
            (λ v e. put_one-good id v _ w.vehicles asked.0 e still),
      )
