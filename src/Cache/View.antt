-- ===== src/Cache/View.antt =====
-- What the services rely on of a cache manager: which entries its calls can leave behind. An entry
-- may vanish at any call, by its time to live or by eviction.
use vehicle_telematics.Base.{
  String, ◌≡◌, ◌⊎◌, inl, inr, true, List, Option, none, some, Option-cases,
}
use vehicle_telematics.Base.Time.{Duration}
use vehicle_telematics.Cache.{hit, CacheManager}

-- The vehicles by their id, and the lists by their whole key.
pub record View (V C : Type 0) : Type 0 where
  pub stored : String → C → Option V
  pub listed : String → C → Option (List V)
  -- The whole key of a list.
  pub list_key : String → String

module _ {V C : Type 0} (view : View V C) where
  -- `after` has no entry that `before` has not.
  pub record Within (after before : C) : Type 0 where
    pub vehicles :
        (id : String) (v : V) → view.stored id after ≡ some v → view.stored id before ≡ some v
    pub lists :
        (key : String) (vs : List V)
        → view.listed key after ≡ some vs
        → view.listed key before ≡ some vs

  pub Within-refl : (c : C) → Within c c
  Within-refl c = record { vehicles = λ id v h. h; lists = λ key vs h. h }

  pub Within-trans : {c c' c'' : C} → Within c'' c' → Within c' c → Within c'' c
  Within-trans later first = record {
    vehicles = λ id v h. first.vehicles id v (later.vehicles id v h);
    lists = λ key vs h. first.lists key vs (later.lists key vs h);
  }

  -- What is gone stays gone.
  pub gone-vehicle :
      {c c' : C} (id : String) → Within c' c → view.stored id c ≡ none → view.stored id c' ≡ none
  gone-vehicle {c} {c'} id within gone = elim (Option-cases (view.stored id c')) [
    | inl none_left ↦ none_left
    | inr (v, left) ↦ absurd (let before = within.vehicles id v left in cc)
  ]

  pub gone-list :
      {c c' : C} (key : String) → Within c' c → view.listed key c ≡ none → view.listed key c' ≡ none
  gone-list {c} {c'} key within gone = elim (Option-cases (view.listed key c')) [
    | inl none_left ↦ none_left
    | inr (vs, left) ↦ absurd (let before = within.lists key vs left in cc)
  ]

  pub record IsLawful (cache : CacheManager V C) : Type 0 where
    pub get_vehicle-Within : (id : String) (c : C) → Within (cache.get_vehicle id c).0 c
    pub get_vehicle-hit :
        (id : String) (c : C) (v : V)
        → (cache.get_vehicle id c).1 ≡ hit v
        → view.stored id c ≡ some v
    pub get_list-Within : (key : String) (c : C) → Within (cache.get_vehicle_list key c).0 c
    pub get_list-hit :
        (key : String) (c : C) (vs : List V)
        → (cache.get_vehicle_list key c).1 ≡ hit vs
        → view.listed (view.list_key key) c ≡ some vs
    pub set_vehicle-stored :
        (id : String) (v : V) (ttl : Duration) (c : C) (j : String) (u : V)
        → view.stored j (cache.set_vehicle id v ttl c).0 ≡ some u
        → (view.stored j c ≡ some u) ⊎ ((id ≡ j) × (v ≡ u))
    pub set_vehicle-listed :
        (id : String) (v : V) (ttl : Duration) (c : C) (list : String) (us : List V)
        → view.listed (view.list_key list) (cache.set_vehicle id v ttl c).0 ≡ some us
        → view.listed (view.list_key list) c ≡ some us
    pub set_list-stored :
        (key : String) (vs : List V) (ttl : Duration) (c : C) (j : String) (u : V)
        → view.stored j (cache.set_vehicle_list key vs ttl c).0 ≡ some u
        → view.stored j c ≡ some u
    pub set_list-listed :
        (key : String) (vs : List V) (ttl : Duration) (c : C) (j : String) (us : List V)
        → view.listed j (cache.set_vehicle_list key vs ttl c).0 ≡ some us
        → (view.listed j c ≡ some us) ⊎ ((view.list_key key ≡ j) × (vs ≡ us))
    pub delete-Within : (key : String) (c : C) → Within (cache.delete key c).0 c
    pub delete-gone :
        (key : String) (c : C)
        → (cache.delete key c).1 ≡ true
        → view.listed key (cache.delete key c).0 ≡ none
    pub invalidate-Within : (id : String) (c : C) → Within (cache.invalidate_vehicle id c).0 c
    pub invalidate-gone :
        (id : String) (c : C)
        → (cache.invalidate_vehicle id c).1 ≡ true
        → view.stored id (cache.invalidate_vehicle id c).0 ≡ none

-- The deletions succeed: the cache can be reached.
pub record IsReachable {V C : Type 0} (cache : CacheManager V C) : Type 0 where
  pub deletes : (key : String) (c : C) → (cache.delete key c).1 ≡ true
  pub invalidates : (id : String) (c : C) → (cache.invalidate_vehicle id c).1 ≡ true
