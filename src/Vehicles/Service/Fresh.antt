-- ===== src/Vehicles/Service/Fresh.antt =====
-- The cache holds nothing that the repository would not answer, and the changes of vehicles keep
-- it so.
use vehicle_telematics.Base.{
  String, ◌≡◌, ◌≢◌, sym, ap, ◌∙◌, ◌⊎◌, inl, inr, false, List, Option, none, some, str_eq, eq_iff,
  Bool-cases,
}
use vehicle_telematics.Base.Float.{Float}
use vehicle_telematics.Models.{Vehicle}
use vehicle_telematics.Cache.{CacheConfig, CacheManager}
use vehicle_telematics.Cache.View.{View, Within, IsLawful, IsReachable}
use vehicle_telematics.Vehicles.Caching.{status_list, driver_list, dropped_key}
use vehicle_telematics.Vehicles.Caching.Dropped.{Dropped}
use vehicle_telematics.Vehicles.Service.Defs.{VehicleRepository}

-- What the service relies on of the repository. `normal` is the hex text of the ObjectID that a text
-- names: a document answers to each spelling of its id. A change that fails has changed nothing.
pub record KeepsVehicles {F : Float} {D : Type 0} (repo : VehicleRepository F D)
    (normal : String → String) : Type 0 where
  pub find-id :
      (id : String) (d : D) (v : Vehicle F) → repo.find_by_id id d ≡ some v → v.id ≡ normal id
  pub update-failed :
      (id : String) (v : Vehicle F) (d : D)
      → (repo.update id v d).1 ≡ none
      → (repo.update id v d).0 ≡ d
  pub update-found :
      (id : String) (v u : Vehicle F) (d : D)
      → (repo.update id v d).1 ≡ some u
      → repo.find_by_id u.id (repo.update id v d).0 ≡ some u
  pub update-id :
      (id : String) (v u : Vehicle F) (d : D) → (repo.update id v d).1 ≡ some u → u.id ≡ normal id
  pub update-others :
      (id : String) (v : Vehicle F) (d : D) (j : String)
      → normal j ≢ normal id
      → repo.find_by_id j (repo.update id v d).0 ≡ repo.find_by_id j d
  pub update-status :
      (id : String) (v old u : Vehicle F) (d : D) (status : String)
      → repo.find_by_id id d ≡ some old
      → (repo.update id v d).1 ≡ some u
      → status ≢ old.status
      → status ≢ u.status
      → repo.find_by_status status (repo.update id v d).0 ≡ repo.find_by_status status d
  pub update-driver :
      (id : String) (v old u : Vehicle F) (d : D) (driver : String)
      → repo.find_by_id id d ≡ some old
      → (repo.update id v d).1 ≡ some u
      → driver ≢ old.driver
      → driver ≢ u.driver
      → repo.find_by_driver driver (repo.update id v d).0 ≡ repo.find_by_driver driver d
  pub delete-failed :
      (id : String) (d : D) → (repo.delete id d).1 ≡ false → (repo.delete id d).0 ≡ d
  pub delete-others :
      (id : String) (d : D) (j : String)
      → normal j ≢ normal id
      → repo.find_by_id j (repo.delete id d).0 ≡ repo.find_by_id j d
  pub delete-status :
      (id : String) (old : Vehicle F) (d : D) (status : String)
      → repo.find_by_id id d ≡ some old
      → status ≢ old.status
      → repo.find_by_status status (repo.delete id d).0 ≡ repo.find_by_status status d
  pub delete-driver :
      (id : String) (old : Vehicle F) (d : D) (driver : String)
      → repo.find_by_id id d ≡ some old
      → driver ≢ old.driver
      → repo.find_by_driver driver (repo.delete id d).0 ≡ repo.find_by_driver driver d

same_or_not : (s t : String) → (s ≡ t) ⊎ (s ≢ t)
same_or_not s t = elim (Bool-cases (str_eq s t)) [
  | inl same ↦ inl ((eq_iff s t).0 same)
  | inr other ↦ inr (λ e. let same = (eq_iff s t).1 e in cc)
]

module _ {F : Float} {C : Type 0} (view : View (Vehicle F) C) where
  -- A list that is left in the cache is one that the change does not touch.
  list_left :
      (list : String → String) (s old new : String) {c c' : C}
      {answer answer' : Option (List (Vehicle F))} (vs : List (Vehicle F))
      → Within view c' c
      → view.listed (dropped_key (list new)) c' ≡ none
      → view.listed (dropped_key (list old)) c' ≡ none
      → (s ≢ old → s ≢ new → answer' ≡ answer)
      → (view.listed (dropped_key (list s)) c ≡ some vs → answer ≡ some vs)
      → view.listed (dropped_key (list s)) c' ≡ some vs
      → answer' ≡ some vs
  list_left list s old new {c'} vs within gone_new gone_old untouched fresh left =
      elim (same_or_not s old) [
        | inl e ↦
            absurd
              (let there = ap (λ (t : String). view.listed (dropped_key (list t)) c') (sym e) in cc)
        | inr not_old ↦ elim (same_or_not s new) [
          | inl e ↦
              absurd (
                let there = ap (λ (t : String). view.listed (dropped_key (list t)) c') (sym e) in
                cc)
          | inr not_new ↦
              untouched not_old not_new ∙ fresh (within.lists (dropped_key (list s)) vs left)
        ]
      ]

module _ {F : Float} {D C : Type 0} (repo : VehicleRepository F D) (normal : String → String)
    (view : View (Vehicle F) C) where
  -- Every entry of the cache is what the repository answers; of the entries under ids, those under
  -- the hex text of an id.
  pub record IsFresh (d : D) (c : C) : Type 0 where
    pub one :
        (id : String) (v : Vehicle F)
        → normal id ≡ id
        → view.stored id c ≡ some v
        → repo.find_by_id id d ≡ some v
    pub all :
        (vs : List (Vehicle F))
        → view.listed (dropped_key "all_vehicles") c ≡ some vs
        → repo.find_all d ≡ some vs
    pub by_status :
        (status : String) (vs : List (Vehicle F))
        → view.listed (dropped_key (status_list status)) c ≡ some vs
        → repo.find_by_status status d ≡ some vs
    pub by_driver :
        (driver : String) (vs : List (Vehicle F))
        → view.listed (dropped_key (driver_list driver)) c ≡ some vs
        → repo.find_by_driver driver d ≡ some vs

  pub Within-IsFresh : {d : D} {c c' : C} → Within view c' c → IsFresh d c → IsFresh d c'
  Within-IsFresh within fresh = record {
    one = λ id v e h. fresh.one id v e (within.vehicles id v h);
    all = λ vs h. fresh.all vs (within.lists _ vs h);
    by_status = λ status vs h. fresh.by_status status vs (within.lists _ vs h);
    by_driver = λ driver vs h. fresh.by_driver driver vs (within.lists _ vs h);
  }

  -- A vehicle `v` that had the given driver and status has changed, and what could show it has been
  -- dropped.
  pub Dropped-IsFresh :
      {config : CacheConfig} {cache : CacheManager (Vehicle F) C} {lawful : IsLawful view cache}
      {reachable : IsReachable cache} {d d' : D} {c c' : C} (v : Vehicle F) (driver status : String)
      → Dropped config cache view lawful reachable v driver status c' c
      → ((j : String) → normal j ≢ v.id → repo.find_by_id j d' ≡ repo.find_by_id j d)
      → ((s : String)
          → s ≢ status
          → s ≢ v.status
          → repo.find_by_status s d' ≡ repo.find_by_status s d)
      → ((s : String)
          → s ≢ driver
          → s ≢ v.driver
          → repo.find_by_driver s d' ≡ repo.find_by_driver s d)
      → IsFresh d c
      → IsFresh d' c'
  Dropped-IsFresh {c'} v driver status dropped others statuses drivers fresh = record {
    one = λ id u e left. elim (same_or_not id v.id) [
      | inl same ↦ absurd (
          let there = ap (λ (t : String). view.stored t c') (sym same) in
          let gone = dropped.one in cc)
      | inr other ↦
          others id (λ m. other (sym e ∙ m)) ∙ fresh.one id u e (dropped.within.vehicles id u left)
    ];
    all = λ vs left. absurd (let gone = dropped.all in cc);
    by_status = λ s vs left.
        list_left view status_list s status v.status vs dropped.within dropped.by_status
          dropped.by_old_status (statuses s) (fresh.by_status s vs) left;
    by_driver = λ s vs left.
        list_left view driver_list s driver v.driver vs dropped.within dropped.by_driver
          dropped.by_old_driver (drivers s) (fresh.by_driver s vs) left;
  }
