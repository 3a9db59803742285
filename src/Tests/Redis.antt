-- ===== src/Tests/Redis.antt =====
-- A Redis in memory, and the tests of the cache manager on it.
use vehicle_telematics.Base.{
  ◌*◌, ◌+◌, String, ◌≡◌, ◌≢◌, refl, ap, ◌∙◌, ◌⊎◌, inl, inr, true, not, List, [], ◌∷◌, ◌++◌, Option,
  none, some, if◌then◌else◌, str_eq, eq_iff, eq_refl, select, All, Bool-cases, Option-cases, arith,
}
use vehicle_telematics.Base.Int.{pos}
use vehicle_telematics.Base.Time.{second}
use vehicle_telematics.Models.{Vehicle}
use vehicle_telematics.Cache.{default_cache_config, hit}
use vehicle_telematics.Cache.Redis.{
  Command, sadd, srem, expire, del, Reply, value, nil, Redis, Json, RedisCacheManager,
  new_redis_cache_manager, build_key, build_tag_key, record_hit, record_miss, read_text, read_reply,
  fetch, tag_commands, tag_key, put, delete_commands, invalidate_by_tag,
}
use vehicle_telematics.Cache.Redis.Manager.{vehicle_tags, get_vehicle, set_vehicle}
use vehicle_telematics.Cache.Redis.Lawful.{KeepsText, ReadsBack, held}
use vehicle_telematics.Cache.Redis.Tags.{
  Spares, AnswersReads, In, Stays, Adds, Deletes, RunsPipelines, default-Apart, get-set_vehicle,
  invalidate_by_tag-gone,
}
use vehicle_telematics.Tests.Numbers.{fixed}

pub record Memory (J : Type 0) : Type 0 where
  pub texts : String → Option J
  pub sets : String → List String

abbrev at : {X : Type 0} → String → X → (String → X) → String → X
at key x old k = if str_eq key k then x else old k

not_at :
    {X : Type 0} (k key : String) (x : X) (old : String → X) → k ≢ key → at k x old key ≡ old key
not_at k key x old differ = ground (arith, eq_iff k key)

module _ {J : Type 0} where
  abbrev run_one : Command → Memory J → Memory J
  run_one (sadd key members) m = record m { sets = at key (members ++ m.sets key) m.sets }
  run_one (srem key member) m = record m {
    sets = at key (select (λ x. not (str_eq x member)) (m.sets key)) m.sets;
  }
  run_one (expire key ttl) m = m
  run_one (del key) m = record { texts = at key none m.texts; sets = at key [] m.sets }

  unfoldable pub run : List Command → Memory J → Memory J
  run [] m = m
  run (c ∷ commands) m = run commands (run_one c m)

  abbrev reply : Option J → Reply J
  reply none = nil
  reply (some j) = value j

  abbrev pub memory : Redis J (Memory J)
  memory = record {
    get = λ key m. reply (m.texts key);
    set = λ key j ttl m. (record m { texts = at key (some j) m.texts }, true);
    delete = λ key m. (run_one (del key) m, true);
    smembers = λ key m. some (m.sets key);
    exec = λ commands m. (run commands m, true);
  }

  run-texts :
      (commands : List Command) (m : Memory J) (key : String) (i : J)
      → (run commands m).texts key ≡ some i
      → m.texts key ≡ some i
  unfolding run
  run-texts [] m key i h = h
  run-texts (sadd k ms ∷ commands) m key i h = run-texts commands _ key i h
  run-texts (srem k x ∷ commands) m key i h = run-texts commands _ key i h
  run-texts (expire k ttl ∷ commands) m key i h = run-texts commands _ key i h
  run-texts (del k ∷ commands) m key i h =
      ground (arith, run-texts commands (run_one (del k) m) key i h)

  reply-value : (o : Option J) (j : J) → reply o ≡ value j → o ≡ some j
  reply-value none j h = cc
  reply-value (some i) j h = ground arith

  set-texts :
      (m : Memory J) (key : String) (j : J) (other : String) (i : J)
      → at key (some j) m.texts other ≡ some i
      → (m.texts other ≡ some i) ⊎ ((key ≡ other) × (j ≡ i))
  set-texts m key j other i h = elim (Bool-cases (str_eq key other)) [
    | inl same ↦ inr ((eq_iff key other).0 same, ground arith)
    | inr differs ↦ inl (ground arith)
  ]

  gone_texts :
      (m : Memory J) (key other : String) (i : J)
      → at key none m.texts other ≡ some i
      → m.texts other ≡ some i
  gone_texts m key other i h = ground arith

  pub memory-KeepsText : KeepsText memory
  memory-KeepsText = record {
    content = λ key m. m.texts key;
    get-value = λ key m j h. reply-value (m.texts key) j h;
    set-content = λ key j ttl m other i h. set-texts m key j other i h;
    delete-content = λ key m other i h. gone_texts m key other i h;
    delete-gone = λ key m h. rw (eq_refl key) refl;
    exec-content = λ commands m other i h. run-texts commands m other i h;
  }

  texts_kept :
      (commands : List Command) (m : Memory J) (key : String)
      → Spares key commands
      → (run commands m).texts key ≡ m.texts key
  unfolding run
  texts_kept [] m key h = refl
  texts_kept (sadd k ms ∷ commands) m key h = texts_kept commands _ key h.1
  texts_kept (srem k x ∷ commands) m key h = texts_kept commands _ key h.1
  texts_kept (expire k ttl ∷ commands) m key h = texts_kept commands _ key h.1
  texts_kept (del k ∷ commands) m key h =
      texts_kept commands (run_one (del k) m) key h.1 ∙ not_at k key none m.texts h.0

  pub memory-AnswersReads : AnswersReads memory
  memory-AnswersReads = record {
    get-set = λ key j ttl m h. rw (eq_refl key) refl;
    get-exec = λ commands m key h. ap reply (texts_kept commands m key h);
  }

In-append : (x : String) (xs ys : List String) → (In x xs) ⊎ (In x ys) → In x (xs ++ ys)
In-append x [] ys (inl h) = absurd h
In-append x [] ys (inr h) = h
In-append x (y ∷ xs) ys (inl (inl same)) = inl same
In-append x (y ∷ xs) ys (inl (inr h)) = inr (In-append x xs ys (inl h))
In-append x (y ∷ xs) ys (inr h) = inr (In-append x xs ys (inr h))

answered : (x : String) {xs ys : List String} → some xs ≡ some ys → In x xs → In x ys
answered x {xs} {ys} e h = let same : xs ≡ ys = cc in rw same at h

module _ {J : Type 0} where
  members_left :
      (commands : List Command) (m : Memory J) (key x : String)
      → All (Stays key) commands
      → In x (m.sets key)
      → In x ((run commands m).sets key)
  unfolding run
  members_left [] m key x h there = there
  members_left (sadd k ms ∷ commands) m key x h there =
      members_left commands (run_one (sadd k ms) m) key x h.1 (elim (Bool-cases (str_eq k key)) [
        | inr differs ↦ rw differs there
        | inl same ↦
            let e = (eq_iff k key).0 same in rw same (In-append x ms (m.sets k) (inr (rw e there)))
      ])
  members_left (srem k y ∷ commands) m key x h there =
      members_left commands (run_one (srem k y) m) key x h.1
        (rw (not_at k key (select (λ z. not (str_eq z y)) (m.sets k)) m.sets h.0) there)
  members_left (expire k ttl ∷ commands) m key x h there = members_left commands m key x h.1 there
  members_left (del k ∷ commands) m key x h there =
      members_left commands (run_one (del k) m) key x h.1 (rw (not_at k key [] m.sets h.0) there)

  members_added :
      (commands : List Command) (m : Memory J) (key x : String)
      → Adds key x commands
      → In x ((run commands m).sets key)
  unfolding run
  members_added [] m key x h = absurd h
  members_added (c ∷ commands) m key x (inr later) =
      members_added commands (run_one c m) key x later
  members_added (sadd k ms ∷ commands) m key x (inl (now, stays)) =
      members_left commands (run_one (sadd k ms) m) key x stays
        (rw ((eq_iff k key).1 now.0) (In-append x ms (m.sets k) (inl now.1)))
  members_added (srem k y ∷ commands) m key x (inl (now, stays)) = absurd now
  members_added (expire k ttl ∷ commands) m key x (inl (now, stays)) = absurd now
  members_added (del k ∷ commands) m key x (inl (now, stays)) = absurd now

  run-empty :
      (commands : List Command) (m : Memory J) (key : String)
      → m.texts key ≡ none
      → (run commands m).texts key ≡ none
  run-empty commands m key e = elim (Option-cases ((run commands m).texts key)) [
    | inl gone ↦ gone
    | inr (i, left) ↦ absurd (let before = run-texts commands m key i left in cc)
  ]

  run-gone :
      (commands : List Command) (m : Memory J) (key : String)
      → Deletes key commands
      → (run commands m).texts key ≡ none
  unfolding run
  run-gone [] m key h = absurd h
  run-gone (c ∷ commands) m key (inr later) = run-gone commands (run_one c m) key later
  run-gone (c ∷ commands) m key (inl e) =
      rw e (run-empty commands (run_one (del key) m) key (rw (eq_refl key) refl))

  pub memory-RunsPipelines : RunsPipelines (memory {J = J}) memory-KeepsText
  unfolding memory-KeepsText
  memory-RunsPipelines = record {
    exec-members =
        λ commands m key x members done adds e. answered x e (members_added commands m key x adds);
    exec-gone = λ commands m key done h. run-gone commands m key h;
  }

-- The texts stand for themselves: what json writes of a vehicle, and of a list of vehicles.
pub data Text : Type 0 where
  one : Vehicle fixed → Text
  many : List (Vehicle fixed) → Text

abbrev pub json : Json (Vehicle fixed) Text
json = record {
  marshal = λ v. some (one v);
  unmarshal = λ text. elim text [ one v ↦ some v | many vs ↦ none ];
}

abbrev pub json_list : Json (List (Vehicle fixed)) Text
json_list = record {
  marshal = λ vs. some (many vs);
  unmarshal = λ text. elim text [ one v ↦ none | many vs ↦ some vs ];
}

some_inj : {X : Type 0} {x y : X} → some x ≡ some y → x ≡ y
some_inj e = cc

pub json-ReadsBack : ReadsBack json
json-ReadsBack v j e = rw (← some_inj e) refl

pub json_list-ReadsBack : ReadsBack json_list
json_list-ReadsBack vs j e = rw (← some_inj e) refl

abbrev pub van : Vehicle fixed
van = record {
  id = "64f0";
  name = "Van 1";
  plate_number = "KAA 001A";
  driver = "Ann";
  fuel_level = pos 40_000_000;
  max_fuel_capacity = pos 60_000_000;
  location = record { lat = pos 0; lng = pos 0; address = "" };
  speed = pos 50;
  status = "active";
  last_update = 1;
  odometer = pos 1000;
  fuel_consumption = pos 8_000_000;
  alerts = [];
  make = "";
  model = "";
  year = pos 2020;
  vin = "";
  created_at = 0;
  updated_at = 1;
}

abbrev pub empty_memory : Memory Text
empty_memory = record { texts = λ key. none; sets = λ key. [] }

abbrev pub empty : RedisCacheManager (Memory Text)
empty = new_redis_cache_manager empty_memory

program : Unit {0}
unfolding new_redis_cache_manager default_cache_config build_key build_tag_key tag_key
    invalidate_by_tag vehicle_tags get_vehicle set_vehicle fetch put run read_reply tag_commands
    delete_commands read_text record_hit record_miss
program = tt

abbrev after_set : RedisCacheManager (Memory Text)
after_set =
    (set_vehicle default_cache_config memory json json_list "64f0" van (30 * second) empty).0

get-set_vehicle_example :
    get_vehicle default_cache_config memory json json_list "64f0" after_set
    ≡ (record after_set { total_hits = 0 + 1 }, hit van)
unfolding program
get-set_vehicle_example =
    get-set_vehicle default_cache_config memory json json_list json-ReadsBack memory-AnswersReads
      default-Apart "64f0" van (30 * second) empty refl

abbrev van_key : String
van_key = build_key default_cache_config "vehicle" "64f0"

invalidate_by_tag-gone_example :
    (invalidate_by_tag default_cache_config memory "status:active" after_set).0.client.texts van_key
    ≡ none
unfolding program memory-KeepsText
invalidate_by_tag-gone_example =
    invalidate_by_tag-gone default_cache_config memory json json_list memory-KeepsText
      memory-RunsPipelines (omega arith) "64f0" "status:active" van (30 * second) (one van) empty
      (inr (inr refl)) refl refl refl refl

-- By another driver's tag it is still there.
other_tag :
    (get_vehicle default_cache_config memory json json_list "64f0"
      (invalidate_by_tag default_cache_config memory "driver:Bob" after_set).0).1
    ≡ hit van
unfolding program
other_tag = refl

pub empty-held :
    {X : Type 0} (from : Json X Text) (key : String) → held memory-KeepsText from key empty ≡ none
unfolding memory-KeepsText new_redis_cache_manager
empty-held from key = refl
