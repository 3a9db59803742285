-- ===== src/Tests/Fleet.antt =====
-- A repository of vehicles in memory, which does what the vehicle service relies on.
use vehicle_telematics.Base.{
  String, ◌≡◌, ◌≢◌, refl, sym, ap, ◌∙◌, inl, inr, Bool, true, false, List, [], ◌∷◌, Option, none,
  some, if◌then◌else◌, str_eq, eq_iff, eq_refl, select, Bool-cases, arith,
}
use vehicle_telematics.Models.{Vehicle}
use vehicle_telematics.Vehicles.Service.Defs.{VehicleRepository}
use vehicle_telematics.Vehicles.Service.Fresh.{KeepsVehicles}
use vehicle_telematics.Tests.Numbers.{fixed}
use vehicle_telematics.Tests.Redis.{van}

abbrev Car : Type 0
Car = Vehicle fixed

abbrev pub Fleet : Type 0
Fleet = List Car

abbrev named : String → Car → Car
named id v = record v { id = id }

unfoldable pub find : (Car → Bool) → Fleet → Option Car
find p [] = none
find p (v ∷ fleet) = if p v then some v else find p fleet

abbrev has_id : String → Car → Bool
has_id id v = str_eq v.id id

-- The first vehicle with the id is replaced, or taken away.
unfoldable pub replace : String → Car → Fleet → Fleet
replace id new [] = []
replace id new (v ∷ fleet) =
    if str_eq v.id id then named id new ∷ fleet else v ∷ replace id new fleet

unfoldable pub take_away : String → Fleet → Fleet
take_away id [] = []
take_away id (v ∷ fleet) = if str_eq v.id id then fleet else v ∷ take_away id fleet

abbrev pub answer_update : String → Car → Fleet → Option Car → Fleet × Option Car
answer_update id new fleet none = (fleet, none)
answer_update id new fleet (some _) = (replace id new fleet, some (named id new))

abbrev pub answer_delete : String → Fleet → Option Car → Fleet × Bool
answer_delete id fleet none = (fleet, false)
answer_delete id fleet (some _) = (take_away id fleet, true)

abbrev pub fleet_repo : VehicleRepository fixed Fleet
fleet_repo = record {
  find_by_id = λ id fleet. find (has_id id) fleet;
  find_by_plate_number = λ plate fleet. find (λ v. str_eq v.plate_number plate) fleet;
  find_all = λ fleet. some fleet;
  find_by_status = λ status fleet. some (select (λ v. str_eq v.status status) fleet);
  find_by_driver = λ driver fleet. some (select (λ v. str_eq v.driver driver) fleet);
  create = λ v fleet. (v ∷ fleet, some v);
  update = λ id new fleet. answer_update id new fleet (find (has_id id) fleet);
  delete = λ id fleet. answer_delete id fleet (find (has_id id) fleet);
}

find-id : (id : String) (fleet : Fleet) (v : Car) → find (has_id id) fleet ≡ some v → v.id ≡ id
unfolding find
find-id id [] v h = cc
find-id id (x ∷ fleet) v h = ground (arith, eq_iff x.id id, find-id id fleet v)

find-replace :
    (id : String) (new old : Car) (fleet : Fleet)
    → find (has_id id) fleet ≡ some old
    → find (has_id id) (replace id new fleet) ≡ some (named id new)
unfolding find replace
find-replace id new old [] h = cc
find-replace id new old (x ∷ fleet) h = elim (Bool-cases (str_eq x.id id)) [
  | inl same ↦ rw (same, replace, find, eq_refl id) refl
  | inr other ↦ rw (other, replace, find, other) (find-replace id new old fleet (ground arith))
]

replace-others :
    (id j : String) (new : Car) (fleet : Fleet)
    → j ≢ id
    → find (has_id j) (replace id new fleet) ≡ find (has_id j) fleet
unfolding find replace
replace-others id j new [] differ = refl
replace-others id j new (x ∷ fleet) differ = ground (
  arith,
  differ,
  replace-others id j new fleet differ,
  eq_iff x.id id,
  eq_iff x.id j,
  eq_iff id j,
)

take_away-others :
    (id j : String) (fleet : Fleet)
    → j ≢ id
    → find (has_id j) (take_away id fleet) ≡ find (has_id j) fleet
unfolding find take_away
take_away-others id j [] differ = refl
take_away-others id j (x ∷ fleet) differ =
    ground (arith, differ, take_away-others id j fleet differ, eq_iff x.id id, eq_iff x.id j)

module _ (p : Car → Bool) (id : String) (old : Car) where
  -- A query that neither the old nor the new vehicle answers does not see the change.
  replace-select :
      (new : Car) (fleet : Fleet)
      → find (has_id id) fleet ≡ some old
      → p old ≡ false
      → p (named id new) ≡ false
      → select p (replace id new fleet) ≡ select p fleet
  unfolding find replace
  replace-select new [] h e1 e2 = refl
  replace-select new (x ∷ fleet) h e1 e2 = elim (Bool-cases (str_eq x.id id)) [
    | inl same ↦
        let it : x ≡ old = ground arith in
        let not_it : p x ≡ false = ap p it ∙ e1 in rw (same, replace, e2, not_it) refl
    | inr other ↦ rw (other, replace, replace-select new fleet (ground arith) e1 e2) refl
  ]

  take_away-select :
      (fleet : Fleet)
      → find (has_id id) fleet ≡ some old
      → p old ≡ false
      → select p (take_away id fleet) ≡ select p fleet
  unfolding find take_away
  take_away-select [] h e = refl
  take_away-select (x ∷ fleet) h e = elim (Bool-cases (str_eq x.id id)) [
    | inl same ↦
        let it : x ≡ old = ground arith in
        let not_it : p x ≡ false = ap p it ∙ e in rw (same, take_away, not_it) refl
    | inr other ↦ rw (other, take_away, take_away-select fleet (ground arith) e) refl
  ]

differ : (a b : String) → b ≢ a → str_eq a b ≡ false
differ a b h = ground (arith, h, eq_iff a b)

some_inj : {x y : Car} → some x ≡ some y → x ≡ y
some_inj e = cc

module _ (id : String) (new : Car) (fleet : Fleet) where
  update-failed :
      (o : Option Car)
      → (answer_update id new fleet o).1 ≡ none
      → (answer_update id new fleet o).0 ≡ fleet
  update-failed none h = refl
  update-failed (some old) h = absurd (cc)

  delete-failed :
      (o : Option Car) → (answer_delete id fleet o).1 ≡ false → (answer_delete id fleet o).0 ≡ fleet
  delete-failed none h = refl
  delete-failed (some old) h = absurd (cc)

  update-named :
      (o : Option Car) (u : Car) → (answer_update id new fleet o).1 ≡ some u → named id new ≡ u
  update-named none u h = absurd (cc)
  update-named (some old) u h = some_inj h

  update-found :
      (o : Option Car) (u : Car)
      → find (has_id id) fleet ≡ o
      → (answer_update id new fleet o).1 ≡ some u
      → find (has_id u.id) (answer_update id new fleet o).0 ≡ some u
  update-found none u e h = absurd (cc)
  update-found (some old) u e h = rw (← some_inj h) (find-replace id new old fleet e)

  update-others :
      (o : Option Car) (j : String)
      → j ≢ id
      → find (has_id j) (answer_update id new fleet o).0 ≡ find (has_id j) fleet
  update-others none j h = refl
  update-others (some old) j h = replace-others id j new fleet h

  delete-others :
      (o : Option Car) (j : String)
      → j ≢ id
      → find (has_id j) (answer_delete id fleet o).0 ≡ find (has_id j) fleet
  delete-others none j h = refl
  delete-others (some old) j h = take_away-others id j fleet h

  update-select :
      (p : Car → Bool) (o : Option Car) (old : Car)
      → find (has_id id) fleet ≡ some old
      → p old ≡ false
      → p (named id new) ≡ false
      → select p (answer_update id new fleet o).0 ≡ select p fleet
  update-select p none old e h1 h2 = refl
  update-select p (some _) old e h1 h2 = replace-select p id old new fleet e h1 h2

  delete-select :
      (p : Car → Bool) (o : Option Car) (old : Car)
      → find (has_id id) fleet ≡ some old
      → p old ≡ false
      → select p (answer_delete id fleet o).0 ≡ select p fleet
  delete-select p none old e h = refl
  delete-select p (some _) old e h = take_away-select p id old fleet e h

abbrev pub same_id : String → String
same_id id = id

pub fleet_repo-KeepsVehicles : KeepsVehicles fleet_repo same_id
fleet_repo-KeepsVehicles = record {
  find-id = λ id fleet v h. find-id id fleet v h;
  update-failed = λ id v fleet. update-failed id v fleet (find (has_id id) fleet);
  update-found = λ id v u fleet. update-found id v fleet (find (has_id id) fleet) u refl;
  update-id = λ id v u fleet h.
      ap (λ (c : Car). c.id) (sym (update-named id v fleet (find (has_id id) fleet) u h));
  update-others = λ id v fleet j. update-others id v fleet (find (has_id id) fleet) j;
  update-status = λ id v old u fleet status e h other new.
      let u_status =
        ap (λ (c : Car). c.status) (update-named id v fleet (find (has_id id) fleet) u h) in
      ap some (
        update-select id v fleet (λ c. str_eq c.status status) (find (has_id id) fleet) old e
          (differ old.status status other) (differ v.status status (λ e. new (e ∙ u_status))));
  update-driver = λ id v old u fleet driver e h other new.
      let u_driver =
        ap (λ (c : Car). c.driver) (update-named id v fleet (find (has_id id) fleet) u h) in
      ap some (
        update-select id v fleet (λ c. str_eq c.driver driver) (find (has_id id) fleet) old e
          (differ old.driver driver other) (differ v.driver driver (λ e. new (e ∙ u_driver))));
  delete-failed = λ id fleet. delete-failed id van fleet (find (has_id id) fleet);
  delete-others = λ id fleet j. delete-others id van fleet (find (has_id id) fleet) j;
  delete-status = λ id old fleet status e other. ap some (
      delete-select id old fleet (λ c. str_eq c.status status) (find (has_id id) fleet) old e
        (differ old.status status other));
  delete-driver = λ id old fleet driver e other. ap some (
      delete-select id old fleet (λ c. str_eq c.driver driver) (find (has_id id) fleet) old e
        (differ old.driver driver other));
}
