-- ===== src/Cache/Redis/Tags.antt =====
-- What is put into the cache is read back, and its tags find it.
use vehicle_telematics.Base.{
  ◌+◌, ◌<◌, String, ◌≡◌, ◌≢◌, sym, refl, ap, ◌∙◌, ◌⊎◌, inl, inr, true, List, [], ◌∷◌, ◌++◌, none,
  some, Bool-cases, Option-cases, eq_iff, All, arith,
}
use Prim.Native.String.{◌++◌ as ◌+++◌}
use text.Mathlib.TextLemmas.{append_assoc, append_inj}
use vehicle_telematics.Base.Float.{Float}
use vehicle_telematics.Base.Time.{Duration}
use vehicle_telematics.Models.{Vehicle}
use vehicle_telematics.Cache.{CacheConfig, default_cache_config, hit}
use vehicle_telematics.Cache.Redis.{
  Command, sadd, srem, expire, del, value, Redis, Json, RedisCacheManager, build_key, build_tag_key,
  read_reply, fetch, tag_commands, tag_key, put, delete_commands, invalidate_by_tag,
}
use vehicle_telematics.Cache.Redis.Manager.{vehicle_tags, get_vehicle, set_vehicle}
use vehicle_telematics.Cache.Redis.Lawful.{KeepsText, ReadsBack}

abbrev pub target : Command → String
target (sadd key members) = key
target (srem key member) = key
target (expire key ttl) = key
target (del key) = key

-- No command of the pipeline is about the key.
abbrev pub Spares : String → List Command → Type 0
Spares key commands = All (λ c. target c ≢ key) commands

-- A text that was set is answered, until a command is about its key.
pub record AnswersReads {J R : Type 0} (redis : Redis J R) : Type 0 where
  pub get-set :
      (key : String) (j : J) (ttl : Duration) (r : R)
      → (redis.set key j ttl r).1 ≡ true
      → redis.get key (redis.set key j ttl r).0 ≡ value j
  pub get-exec :
      (commands : List Command) (r : R) (key : String)
      → Spares key commands
      → redis.get key (redis.exec commands r).0 ≡ redis.get key r

-- The two prefixes of the keys, of which neither begins with the other.
abbrev pub Apart : CacheConfig → Type 0
Apart config = (type kind a b : String) → build_key config type a ≢ build_tag_key config kind b

-- So it is in the default configuration.
pub default-Apart : Apart default_cache_config
unfolding default_cache_config build_key build_tag_key
default-Apart type kind a b e =
    let first =
      (append_inj {s₁ = "f"} {s₂ = "t"}
        (sym (append_assoc "f" "leet:" (type +++ (":" +++ a)))
          ∙ (e ∙ append_assoc "t" "ag:" (kind +++ (":" +++ b))))
        refl).0 in
    absurd (let same = (eq_iff "f" "t").1 first in cc)

abbrev pub In : String → List String → Type 0
In x [] = ⊥
In x (y ∷ ys) = (y ≡ x) ⊎ In x ys

-- The command adds the member to the set under the key.
abbrev pub AddsBy : String → String → Command → Type 0
AddsBy key member (sadd k members) = (k ≡ key) × In member members
AddsBy key member _ = ⊥

-- The command takes nothing out of the set under the key.
abbrev pub Stays : String → Command → Type 0
Stays key (sadd k members) = Unit
Stays key (expire k ttl) = 0 < ttl
Stays key (srem k member) = k ≢ key
Stays key (del k) = k ≢ key

abbrev pub Adds : String → String → List Command → Type 0
Adds key member [] = ⊥
Adds key member (c ∷ commands) =
    (AddsBy key member c × All (Stays key) commands) ⊎ Adds key member commands

abbrev pub Deletes : String → List Command → Type 0
Deletes key [] = ⊥
Deletes key (c ∷ commands) = (c ≡ del key) ⊎ Deletes key commands

-- A pipeline that has succeeded has added what it adds, and deleted what it deletes.
pub record RunsPipelines {J R : Type 0} (redis : Redis J R) (keeps : KeepsText redis) : Type 0 where
  pub exec-members :
      (commands : List Command) (r : R) (key member : String) (members : List String)
      → (redis.exec commands r).1 ≡ true
      → Adds key member commands
      → redis.smembers key (redis.exec commands r).0 ≡ some members
      → In member members
  pub exec-gone :
      (commands : List Command) (r : R) (key : String)
      → (redis.exec commands r).1 ≡ true
      → Deletes key commands
      → keeps.content key (redis.exec commands r).0 ≡ none

module _ {J R : Type 0} (config : CacheConfig) (redis : Redis J R) where
  tag_commands-Spares :
      (type id key : String) (tags : List String)
      → Apart config
      → Spares (build_key config type id) (tag_commands config redis key tags)
  unfolding tag_commands
  tag_commands-Spares type id key [] apart = tt
  tag_commands-Spares type id key (tag ∷ tags) apart =
      let other = λ (e : build_tag_key config "tag_keys" tag ≡ build_key config type id).
        apart type "tag_keys" id tag (sym e) in
      (other, (other, tag_commands-Spares type id key tags apart))

  tag_commands-Stays :
      (kept key : String) (tags : List String)
      → 0 < config.vehicle_data_ttl
      → All (Stays kept) (tag_commands config redis key tags)
  unfolding tag_commands
  tag_commands-Stays kept key [] long = tt
  tag_commands-Stays kept key (tag ∷ tags) long =
      (tt, (omega arith, tag_commands-Stays kept key tags long))

  tag_commands-Adds :
      (key tag : String) (tags : List String)
      → 0 < config.vehicle_data_ttl
      → In tag tags
      → Adds (build_tag_key config "tag_keys" tag) key (tag_commands config redis key tags)
  unfolding tag_commands
  tag_commands-Adds key tag [] long h = absurd h
  tag_commands-Adds key tag (t ∷ tags) long (inl same) = inl (
    (ap (build_tag_key config "tag_keys") same, inl refl),
    (omega arith, tag_commands-Stays (build_tag_key config "tag_keys" tag) key tags long),
  )
  tag_commands-Adds key tag (t ∷ tags) long (inr later) =
      inr (inr (tag_commands-Adds key tag tags long later))

  delete_commands-Deletes :
      (key : String) (keys : List String) (rest : List Command)
      → In key keys
      → Deletes key (delete_commands config redis keys ++ rest)
  unfolding delete_commands
  delete_commands-Deletes key [] rest h = absurd h
  delete_commands-Deletes key (k ∷ keys) rest (inl same) = inl (ap del same)
  delete_commands-Deletes key (k ∷ keys) rest (inr later) =
      inr (inr (delete_commands-Deletes key keys rest later))

-- A setter that has succeeded has set the text, and has tried to tag the key.
module _ {X J R : Type 0} (config : CacheConfig) (redis : Redis J R) (json : Json X J) where
  put-done :
      (key : String) (x : X) (tags : List String) (ttl : Duration) (m : RedisCacheManager R)
      → (put config redis json key x tags ttl m).1 ≡ true
      → (j : J) × (json.marshal x ≡ some j)
        × ((redis.set key j ttl m.client).1 ≡ true)
        × ((put config redis json key x tags ttl m).0
            ≡ (tag_key config redis key tags
                (record m { client = (redis.set key j ttl m.client).0 })).0)
  unfolding put
  put-done key x tags ttl m = elim (Option-cases (json.marshal x)) [
    | inl failed ↦ rw (failed, put) (λ h. absurd (cc))
    | inr (j, e) ↦ elim (Bool-cases (redis.set key j ttl m.client).1) [
      | inl done ↦ rw (e, put, done) (λ h. (j, refl, done, refl))
      | inr refused ↦ rw (e, put, refused) (λ h. absurd (cc))
    ]
  ]

  tagged-get :
      (type id : String) (tags : List String) (m : RedisCacheManager R)
      → AnswersReads redis
      → Apart config
      → let key = build_key config type id in
        redis.get key (tag_key config redis key tags m).0.client ≡ redis.get key m.client
  unfolding tag_key
  tagged-get type id tags m answers apart =
      let key = build_key config type id in
      let other =
        λ (e : build_tag_key config "key_tags" key ≡ key). apart type "key_tags" id key (sym e) in
      answers.get-exec _ m.client key
        (other, (other, tag_commands-Spares config redis type id key tags apart))

some_inj : {X : Type 0} {x y : X} → some x ≡ some y → x ≡ y
some_inj e = cc

-- The keys that Redis lists under the tag are gone.
invalidated :
    {J R : Type 0} (config : CacheConfig) (redis : Redis J R) (keeps : KeepsText redis)
    → RunsPipelines redis keeps
    → (key tag : String) (m : RedisCacheManager R)
    → ((members : List String)
        → redis.smembers (build_tag_key config "tag_keys" tag) m.client ≡ some members
        → In key members)
    → (invalidate_by_tag config redis tag m).1 ≡ true
    → keeps.content key (invalidate_by_tag config redis tag m).0.client ≡ none
unfolding invalidate_by_tag
invalidated config redis keeps runs key tag m listed =
    elim (Option-cases (redis.smembers (build_tag_key config "tag_keys" tag) m.client)) [
      | inl failed ↦ rw (failed, invalidate_by_tag) (λ h. absurd (cc))
      | inr ([], e) ↦ absurd (listed [] e)
      | inr (k ∷ ks, e) ↦
          let tag_keys = build_tag_key config "tag_keys" tag in
          let commands = delete_commands config redis (k ∷ ks) ++ (del tag_keys ∷ []) in
          elim (Bool-cases (redis.exec commands m.client).1) [
            | inr refused ↦ rw (e, invalidate_by_tag, refused) (λ h. absurd (cc))
            | inl done ↦
                rw (e, invalidate_by_tag, done)
                  (λ h.
                    runs.exec-gone commands m.client key done
                      (delete_commands-Deletes config redis key (k ∷ ks) _ (listed (k ∷ ks) e)))
          ]
    ]

module _ {F : Float} {J R : Type 0} (config : CacheConfig) (redis : Redis J R)
    (json : Json (Vehicle F) J) (json_list : Json (List (Vehicle F)) J) where
  -- A vehicle that was put into the cache is read back, and counts as a hit: when json reads back
  -- what it writes, Redis answers what was set, and the keys of the tags are apart from the others.
  pub get-set_vehicle :
      ReadsBack json
      → AnswersReads redis
      → Apart config
      → (id : String) (v : Vehicle F) (ttl : Duration) (m : RedisCacheManager R)
      → let (m', done) = set_vehicle config redis json json_list id v ttl m in
        done ≡ true
        → get_vehicle config redis json json_list id m'
          ≡ (record m' { total_hits = m.total_hits + 1 }, hit v)
  unfolding get_vehicle set_vehicle fetch tag_key read_reply
  get-set_vehicle reads answers apart id v ttl m done =
      let key = build_key config "vehicle" id in
      let (j, e, stored, is) = put-done config redis json key v (vehicle_tags id v) ttl m done in
      let m1 = record m { client = (redis.set key j ttl m.client).0 } in
      let asked =
        tagged-get config redis json "vehicle" id (vehicle_tags id v) m1 answers apart
        ∙ answers.get-set key j ttl m.client stored in
      rw is (rw (asked, read_reply, reads v j e) refl)

module _ {F : Float} {J R : Type 0} (config : CacheConfig) (redis : Redis J R)
    (json : Json (Vehicle F) J) (json_list : Json (List (Vehicle F)) J) where
  -- A vehicle that `SetVehicle` has put into the cache, and whose tags were stored, is gone once
  -- `InvalidateByTag` has succeeded for its id, for its driver or for its status. The tags live on for
  -- a while, and a pipeline that has succeeded has run.
  pub invalidate_by_tag-gone :
      (keeps : KeepsText redis)
      → RunsPipelines redis keeps
      → 0 < config.vehicle_data_ttl
      → (id tag : String) (v : Vehicle F) (ttl : Duration) (j : J) (m : RedisCacheManager R)
      → (tag ≡ "vehicle:" +++ id) ⊎ (tag ≡ "driver:" +++ v.driver) ⊎ (tag ≡ "status:" +++ v.status)
      → json.marshal v ≡ some j
      → let key = build_key config "vehicle" id in
        let m0 = record m { client = (redis.set key j ttl m.client).0 } in
        let (m1, stored) = set_vehicle config redis json json_list id v ttl m in
        let (m2, done) = invalidate_by_tag config redis tag m1 in
        (tag_key config redis key (vehicle_tags id v) m0).1 ≡ true
        → stored ≡ true
        → done ≡ true
        → keeps.content key m2.client ≡ none
  unfolding tag_key set_vehicle vehicle_tags
  invalidate_by_tag-gone keeps runs long id tag v ttl j m has written tagged stored done =
      let key = build_key config "vehicle" id in
      let tags = vehicle_tags id v in
      let (i, e, set, is) = put-done config redis json key v tags ttl m stored in
      let same : i ≡ j = some_inj (sym e ∙ written) in
      let m0 = record m { client = (redis.set key j ttl m.client).0 } in
      let m1 = (tag_key config redis key tags m0).0 in
      let here : (set_vehicle config redis json json_list id v ttl m).0 ≡ m1 = rw same at is in
      let added =
        λ (members : List String)
            (e : redis.smembers (build_tag_key config "tag_keys" tag) m1.client ≡ some members).
          runs.exec-members _ m0.client (build_tag_key config "tag_keys" tag) key members tagged
            (inr (inr (tag_commands-Adds config redis key tag tags long (has_tag has)))) e in
      rw here (invalidated config redis keeps runs key tag m1 added (rw here at done))
    where
      has_tag :
          (tag ≡ "vehicle:" +++ id)
            ⊎ (tag ≡ "driver:" +++ v.driver)
            ⊎ (tag ≡ "status:" +++ v.status)
          → In tag (vehicle_tags id v)
      has_tag (inl e) = inl (sym e)
      has_tag (inr (inl e)) = inr (inl (sym e))
      has_tag (inr (inr e)) = inr (inr (inl (sym e)))
