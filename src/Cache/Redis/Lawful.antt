-- ===== src/Cache/Redis/Lawful.antt =====
-- The cache manager on Redis does what the services rely on.
use vehicle_telematics.Base.{
  String, ◌≡◌, ◌≢◌, sym, refl, ap, ◌∙◌, ◌⊎◌, inl, inr, true, List, Option, none, some, arith,
  Bool-cases, Option-cases, eq_iff,
}
use Prim.Native.String.{◌++◌ as ◌+++◌}
use text.Mathlib.TextLemmas.{append_assoc, append_inj, append_cancel_left}
use vehicle_telematics.Base.Float.{Float}
use vehicle_telematics.Base.Time.{Duration}
use vehicle_telematics.Models.{Vehicle}
use vehicle_telematics.Cache.{CacheConfig, hit}
use vehicle_telematics.Cache.View.{View, Within, IsLawful}
use vehicle_telematics.Cache.Redis.{
  Command, Reply, value, nil, error, Redis, Json, RedisCacheManager, build_key, build_tag_key,
  read_text, read_reply, fetch, tag_key, put, remove_key_tags, delete,
}
use vehicle_telematics.Cache.Redis.Manager.{
  get_vehicle, set_vehicle, invalidate_vehicle, get_vehicle_list, set_vehicle_list, redis_cache,
}

-- What is relied on of Redis: `content` is the text that a key holds, if it holds one.
pub record KeepsText {J R : Type 0} (redis : Redis J R) : Type 0 where
  pub content : String → R → Option J
  pub get-value :
      (key : String) (r : R) (j : J) → redis.get key r ≡ value j → content key r ≡ some j
  pub set-content :
      (key : String) (j : J) (ttl : Duration) (r : R) (other : String) (i : J)
      → content other (redis.set key j ttl r).0 ≡ some i
      → (content other r ≡ some i) ⊎ ((key ≡ other) × (j ≡ i))
  pub delete-content :
      (key : String) (r : R) (other : String) (i : J)
      → content other (redis.delete key r).0 ≡ some i
      → content other r ≡ some i
  pub delete-gone :
      (key : String) (r : R)
      → (redis.delete key r).1 ≡ true
      → content key (redis.delete key r).0 ≡ none
  pub exec-content :
      (commands : List Command) (r : R) (other : String) (i : J)
      → content other (redis.exec commands r).0 ≡ some i
      → content other r ≡ some i

-- What is relied on of encoding/json: what was marshalled is read back.
abbrev pub ReadsBack : {X J : Type 0} → Json X J → Type 0
ReadsBack {X} {J} json = (x : X) (j : J) → json.marshal x ≡ some j → json.unmarshal j ≡ some x

module _ {J R : Type 0} {redis : Redis J R} (keeps : KeepsText redis) where
  -- The value under a key, if it can be read.
  abbrev pub held : {X : Type 0} → Json X J → String → RedisCacheManager R → Option X
  held json key m = elim (keeps.content key m.client) [ none ↦ none | some j ↦ json.unmarshal j ]

  held-inv :
      {X : Type 0} (json : Json X J) (key : String) (m : RedisCacheManager R) (x : X)
      → held json key m ≡ some x
      → (j : J) × (keeps.content key m.client ≡ some j) × (json.unmarshal j ≡ some x)
  held-inv {X} json key m x h = go (keeps.content key m.client) refl h
    where
      go :
          (o : Option J)
          → keeps.content key m.client ≡ o
          → ◌≡◌ {A = Option X} (elim o [ none ↦ none | some j ↦ json.unmarshal j ]) (some x)
          → (j : J) × (keeps.content key m.client ≡ some j) × (json.unmarshal j ≡ some x)
      go none e h = cc
      go (some j) e h = (j, e, h)

  held-of :
      {X : Type 0} (json : Json X J) (key : String) (m : RedisCacheManager R) {j : J} {x : X}
      → keeps.content key m.client ≡ some j
      → json.unmarshal j ≡ some x
      → held json key m ≡ some x
  held-of json key m e u = rw (e, held) u

  -- The first state has no text which the second has not.
  abbrev pub Less : R → R → Type 0
  Less r' r = (key : String) (i : J) → keeps.content key r' ≡ some i → keeps.content key r ≡ some i

  Less-held :
      {X : Type 0} (json : Json X J) (key : String) (m m' : RedisCacheManager R) (x : X)
      → Less m'.client m.client
      → held json key m' ≡ some x
      → held json key m ≡ some x
  Less-held json key m m' x less h =
      let (j, e, u) = held-inv json key m' x h in held-of json key m (less key j e) u

module _ {X J R : Type 0} (json : Json X J) (m : RedisCacheManager R) where
  read_reply-client : (r : Reply J) → (read_reply json m r).0.client ≡ m.client
  unfolding read_reply
  read_reply-client nil = refl
  read_reply-client error = refl
  read_reply-client (value j) = decoded (json.unmarshal j)
    where
      decoded : (o : Option X) → (read_text m o).0.client ≡ m.client
      decoded none = refl
      decoded (some x) = refl

  read_reply-hit :
      (r : Reply J) (x : X)
      → (read_reply json m r).1 ≡ hit x
      → (j : J) × (r ≡ value j) × (json.unmarshal j ≡ some x)
  unfolding read_reply
  read_reply-hit nil x h = cc
  read_reply-hit error x h = cc
  read_reply-hit (value j) x h = (j, refl, decoded (json.unmarshal j) h)
    where
      decoded : (o : Option X) → (read_text m o).1 ≡ hit x → o ≡ some x
      decoded none h = cc
      decoded (some y) h = ground arith

module _ {J R : Type 0} (config : CacheConfig) (redis : Redis J R) (keeps : KeepsText redis) where
  tag_key-Less :
      (key : String) (tags : List String) (m : RedisCacheManager R)
      → Less keeps (tag_key config redis key tags m).0.client m.client
  unfolding tag_key
  tag_key-Less key tags m other i h = keeps.exec-content _ m.client other i h

  remove_key_tags-Less :
      (key : String) (m : RedisCacheManager R)
      → Less keeps (remove_key_tags config redis key m).0.client m.client
  unfolding remove_key_tags
  remove_key_tags-Less key m =
      elim (Option-cases (redis.smembers (build_tag_key config "key_tags" key) m.client)) [
        | inl failed ↦ rw (failed, remove_key_tags) (λ other i h. h)
        | inr (tags, e) ↦
            rw (e, remove_key_tags) (λ other i h. keeps.exec-content _ m.client other i h)
      ]

  delete-Less :
      (key : String) (m : RedisCacheManager R)
      → Less keeps (delete config redis key m).0.client m.client
  unfolding delete
  delete-Less key m other i h =
      remove_key_tags-Less key m other i
        (keeps.delete-content key (remove_key_tags config redis key m).0.client other i h)

  put_text :
      (key : String) (j : J) (ttl : Duration) (r : R) (other : String) (i : J)
      → keeps.content other (redis.set key j ttl r).0 ≡ some i
      → (keeps.content other r ≡ some i) ⊎ ((key ≡ other) × (some j ≡ some i))
  put_text key j ttl r other i h = elim (keeps.set-content key j ttl r other i h) [
    | inl old ↦ inl old
    | inr (same, e) ↦ inr (same, ap some e)
  ]

  -- A setter leaves what was there, and the value under its key.
  put-held :
      {X : Type 0} (json : Json X J) (key : String) (x : X) (tags : List String) (ttl : Duration)
      (m : RedisCacheManager R) (other : String) (i : J)
      → keeps.content other (put config redis json key x tags ttl m).0.client ≡ some i
      → (keeps.content other m.client ≡ some i) ⊎ ((key ≡ other) × (json.marshal x ≡ some i))
  unfolding put
  put-held json key x tags ttl m other i = elim (Option-cases (json.marshal x)) [
    | inl failed ↦ rw (failed, put) (λ h. inl h)
    | inr (j, e) ↦ elim (Bool-cases (redis.set key j ttl m.client).1) [
      | inl done ↦
          rw (e, put, done)
            (λ h. put_text key j ttl m.client other i (
              tag_key-Less key tags (record m { client = (redis.set key j ttl m.client).0 }) other i
                h))
      | inr refused ↦ rw (e, put, refused) (put_text key j ttl m.client other i)
    ]
  ]

pub build_key_inj :
    (config : CacheConfig) (type a b : String)
    → build_key config type a ≡ build_key config type b
    → a ≡ b
unfolding build_key
build_key_inj config type a b e =
    append_cancel_left ":" a b
      (append_cancel_left type (":" +++ a) (":" +++ b) (append_cancel_left config.key_prefix _ _ e))

pub vehicle-ne-list :
    (config : CacheConfig) (id list : String)
    → build_key config "vehicle" id ≢ build_key config "vehicle_list" list
unfolding build_key
vehicle-ne-list config id list e =
    let types = append_cancel_left config.key_prefix _ _ e in
    let rest =
      append_cancel_left "vehicle" (":" +++ id) ("_list" +++ (":" +++ list))
        (types ∙ append_assoc "vehicle" "_list" (":" +++ list)) in
    let first = (append_inj (rest ∙ append_assoc "_" "list" (":" +++ list)) refl).0 in
    absurd (let same = (eq_iff ":" "_").1 first in cc)

module _ {F : Float} {J R : Type 0} (config : CacheConfig) {redis : Redis J R}
    (keeps : KeepsText redis) (json : Json (Vehicle F) J)
    (json_list : Json (List (Vehicle F)) J) where
  abbrev pub redis_view : View (Vehicle F) (RedisCacheManager R)
  redis_view = record {
    stored = λ id m. held keeps json (build_key config "vehicle" id) m;
    listed = λ key m. held keeps json_list key m;
    list_key = build_key config "vehicle_list";
  }

  Less-Within :
      (m m' : RedisCacheManager R) → Less keeps m'.client m.client → Within redis_view m' m
  Less-Within m m' less = record {
    vehicles = λ id v. Less-held keeps json (build_key config "vehicle" id) m m' v less;
    lists = λ key vs. Less-held keeps json_list key m m' vs less;
  }

  -- What a setter puts under its key, and what it leaves.
  put-value :
      {X Y : Type 0} (to : Json X J) (from : Json Y J) (key : String) (x : X) (tags : List String)
      (ttl : Duration) (m : RedisCacheManager R) (other : String) (y : Y)
      → held keeps from other (put config redis to key x tags ttl m).0 ≡ some y
      → (held keeps from other m ≡ some y)
        ⊎ ((key ≡ other) × (i : J) × (to.marshal x ≡ some i) × (from.unmarshal i ≡ some y))
  put-value to from key x tags ttl m other y h =
      let (i, e, u) = held-inv keeps from other (put config redis to key x tags ttl m).0 y h in
      elim (put-held config redis keeps to key x tags ttl m other i e) [
        | inl old ↦ inl (held-of keeps from other m old u)
        | inr (same, is) ↦ inr (same, i, is, u)
      ]

  fetch-Less :
      {X : Type 0} (from : Json X J) (key : String) (m : RedisCacheManager R)
      → Less keeps (fetch config redis from key m).0.client m.client
  unfolding fetch
  fetch-Less from key m other i h =
      let same = read_reply-client from m (redis.get key m.client) in
      ap (keeps.content other) (sym same) ∙ h

  fetch-hit :
      {X : Type 0} (from : Json X J) (key : String) (m : RedisCacheManager R) (x : X)
      → (fetch config redis from key m).1 ≡ hit x
      → held keeps from key m ≡ some x
  unfolding fetch
  fetch-hit from key m x h =
      let (j, e, u) = read_reply-hit from m (redis.get key m.client) x h in
      held-of keeps from key m (keeps.get-value key m.client j e) u

  -- After a deletion that has succeeded the key holds nothing.
  delete-held :
      {X : Type 0} (from : Json X J) (key : String) (m : RedisCacheManager R)
      → (delete config redis key m).1 ≡ true
      → held keeps from key (delete config redis key m).0 ≡ none
  unfolding delete
  delete-held from key m done =
      rw (keeps.delete-gone key (remove_key_tags config redis key m).0.client done, held) refl

  -- The cache manager on Redis is one that the services can rely on: a getter hits only what is
  -- there, a setter brings in its value only, and a deletion that succeeds takes it away.
  pub redis_cache-IsLawful :
      ReadsBack json
      → ReadsBack json_list
      → IsLawful redis_view (redis_cache config redis json json_list)
  unfolding redis_cache get_vehicle set_vehicle invalidate_vehicle get_vehicle_list set_vehicle_list
  redis_cache-IsLawful reads reads_list = record {
    get_vehicle-Within =
        λ id m. Less-Within m _ (fetch-Less json (build_key config "vehicle" id) m);
    get_vehicle-hit = λ id m v. fetch-hit json (build_key config "vehicle" id) m v;
    get_list-Within =
        λ key m. Less-Within m _ (fetch-Less json_list (build_key config "vehicle_list" key) m);
    get_list-hit = λ key m vs. fetch-hit json_list (build_key config "vehicle_list" key) m vs;
    set_vehicle-stored = λ id v ttl m j u h.
        elim (put-value json json (build_key config "vehicle" id) v _ ttl m
          (build_key config "vehicle" j) u h) [
            | inl old ↦ inl old
            | inr (same, i, is, read) ↦
                inr (build_key_inj config "vehicle" id j same, (let there = reads v i is in cc))
          ];
    set_vehicle-listed = λ id v ttl m list us h.
        elim (put-value json json_list (build_key config "vehicle" id) v _ ttl m
          (build_key config "vehicle_list" list) us h) [
            | inl old ↦ old
            | inr (same, i, is, read) ↦ absurd (vehicle-ne-list config id list same)
          ];
    set_list-stored = λ key vs ttl m j u h.
        elim (put-value json_list json (build_key config "vehicle_list" key) vs _ ttl m
          (build_key config "vehicle" j) u h) [
            | inl old ↦ old
            | inr (same, i, is, read) ↦ absurd (vehicle-ne-list config j key (sym same))
          ];
    set_list-listed = λ key vs ttl m j us h.
        elim (put-value json_list json_list (build_key config "vehicle_list" key) vs _ ttl m j us
          h) [
            | inl old ↦ inl old
            | inr (same, i, is, read) ↦ inr (same, (let there = reads_list vs i is in cc))
          ];
    delete-Within = λ key m. Less-Within m _ (delete-Less config redis keeps key m);
    delete-gone = λ key m done. delete-held json_list key m done;
    invalidate-Within =
        λ id m. Less-Within m _ (delete-Less config redis keeps (build_key config "vehicle" id) m);
    invalidate-gone = λ id m done. delete-held json (build_key config "vehicle" id) m done;
  }
