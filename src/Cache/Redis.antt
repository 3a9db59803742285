-- ===== src/Cache/Redis.antt =====
-- pkg/cache/redis_cache.go. Redis is a parameter on a state R that holds texts of type J, and
-- encoding/json the parameter Json. The memory and the number of keys, which `GetCacheStats` asks
-- Redis for, are left out.
pub mod Manager
pub mod Lawful
pub mod Tags
use vehicle_telematics.Base.{
  ℕ, ◌+◌, ◌*◌, String, Bool, true, false, List, [], ◌∷◌, ◌++◌, Option, none, some, if◌then◌else◌,
  length, map, ltb,
}
use Prim.Native.String.{◌++◌ as ◌+++◌}
use vehicle_telematics.Base.Float.{Float}
use vehicle_telematics.Base.Int.{pos}
use vehicle_telematics.Base.Time.{Duration}
use vehicle_telematics.Models.{Vehicle}
use vehicle_telematics.Cache.{CacheConfig, Cached, hit, miss, unavailable, CacheManager}

-- The commands of a pipeline.
pub data Command : Type 0 where
  sadd : String → List String → Command
  srem : String → String → Command
  expire : String → Duration → Command
  del : String → Command

-- The answer to GET: a value, `redis.Nil`, or an error.
pub data Reply (J : Type 0) : Type 0 where
  value : J → Reply J
  nil : Reply J
  error : Reply J

-- A change answers `true` where the source's error is nil.
pub record Redis (J R : Type 0) : Type 0 where
  pub get : String → R → Reply J
  pub set : String → J → Duration → R → R × Bool
  pub delete : String → R → R × Bool
  pub smembers : String → R → Option (List String)
  pub exec : List Command → R → R × Bool

-- `json.Marshal` and `json.Unmarshal` of a type.
pub record Json (X J : Type 0) : Type 0 where
  pub marshal : X → Option J
  pub unmarshal : J → Option X

pub record RedisCacheManager (R : Type 0) : Type 0 where
  pub client : R
  pub total_hits : ℕ
  pub total_misses : ℕ
  pub eviction_count : ℕ

unfoldable pub new_redis_cache_manager : {R : Type 0} → R → RedisCacheManager R
new_redis_cache_manager client = record {
  client = client;
  total_hits = 0;
  total_misses = 0;
  eviction_count = 0;
}

unfoldable pub build_key : CacheConfig → String → String → String
build_key config key_type identifier = config.key_prefix +++ (key_type +++ (":" +++ identifier))

unfoldable pub build_tag_key : CacheConfig → String → String → String
build_tag_key config key_type identifier = config.tag_prefix +++ (key_type +++ (":" +++ identifier))

module _ {R : Type 0} where
  unfoldable pub record_hit : RedisCacheManager R → RedisCacheManager R
  record_hit m = record m { total_hits = m.total_hits + 1 }

  unfoldable pub record_miss : RedisCacheManager R → RedisCacheManager R
  record_miss m = record m { total_misses = m.total_misses + 1 }

module _ {X R : Type 0} where
  unfoldable pub read_text : RedisCacheManager R → Option X → RedisCacheManager R × Cached X
  unfolding record_hit
  read_text m none = (m, unavailable)
  read_text m (some x) = (record_hit m, hit x)

-- The getters from the answer of Redis on.
unfoldable pub read_reply :
    {X J R : Type 0} → Json X J → RedisCacheManager R → Reply J → RedisCacheManager R × Cached X
unfolding read_text record_miss
read_reply json m nil = (record_miss m, miss)
read_reply json m error = (m, unavailable)
read_reply json m (value j) = read_text m (json.unmarshal j)

-- The rates of `GetCacheStats`: the part of the look-ups that hit, and that missed.
unfoldable pub hit_and_miss_rate :
    {R : Type 0} → (F : Float) → RedisCacheManager R → F.Carrier × F.Carrier
hit_and_miss_rate F m =
    let total = m.total_hits + m.total_misses in
    if ltb 0 total
    then (
      F.div (F.of_int (pos m.total_hits)) (F.of_int (pos total)),
      F.div (F.of_int (pos m.total_misses)) (F.of_int (pos total)),
    )
    else (F.lit 0 0, F.lit 0 0)

module _ {J R : Type 0} (config : CacheConfig) (redis : Redis J R) where
  -- The body of the getters, for the type of their value.
  unfoldable pub fetch :
      {X : Type 0} → Json X J → String → RedisCacheManager R → RedisCacheManager R × Cached X
  unfolding read_reply
  fetch json key m = read_reply json m (redis.get key m.client)

  -- The loop of `TagKey`.
  unfoldable pub tag_commands : String → List String → List Command
  unfolding build_tag_key
  tag_commands key [] = []
  tag_commands key (tag ∷ tags) =
      sadd (build_tag_key config "tag_keys" tag) (key ∷ [])
      ∷ expire (build_tag_key config "tag_keys" tag) (config.vehicle_data_ttl * 2)
      ∷ tag_commands key tags

  unfoldable pub tag_key : String → List String → RedisCacheManager R → RedisCacheManager R × Bool
  unfolding tag_commands
  tag_key key tags m =
      let key_tags = build_tag_key config "key_tags" key in
      let (r, done) =
        redis.exec
          (sadd key_tags tags
            ∷ expire key_tags (config.vehicle_data_ttl * 2)
            ∷ tag_commands key tags)
          m.client in
      (record m { client = r }, done)

  -- The body of the setters: the value is stored, and the key is tagged, whose failure is logged.
  unfoldable pub put :
      {X : Type 0}
      → Json X J
      → String
      → X
      → List String
      → Duration
      → RedisCacheManager R
      → RedisCacheManager R × Bool
  unfolding tag_key
  put json key x tags ttl m = elim (json.marshal x) [
    | none ↦ (m, false)
    | some j ↦
        let (r, done) = redis.set key j ttl m.client in
        if done
        then ((tag_key key tags (record m { client = r })).0, true)
        else (record m { client = r }, false)
  ]

  unfoldable pub remove_key_tags : String → RedisCacheManager R → RedisCacheManager R × Bool
  unfolding build_tag_key
  remove_key_tags key m =
      let key_tags = build_tag_key config "key_tags" key in
      elim (redis.smembers key_tags m.client) [
        | none ↦ (m, false)
        | some tags ↦
            let (r, done) =
              redis.exec
                (map (λ tag. srem (build_tag_key config "tag_keys" tag) key) tags
                  ++ (del key_tags ∷ []))
                m.client in
            (record m { client = r }, done)
      ]

  unfoldable pub delete : String → RedisCacheManager R → RedisCacheManager R × Bool
  unfolding remove_key_tags
  delete key m =
      let (m', _) = remove_key_tags key m in
      let (r, done) = redis.delete key m'.client in (record m' { client = r }, done)

  -- The loop of `InvalidateByTag`.
  unfoldable pub delete_commands : List String → List Command
  unfolding build_tag_key
  delete_commands [] = []
  delete_commands (key ∷ keys) =
      del key ∷ del (build_tag_key config "key_tags" key) ∷ delete_commands keys

  unfoldable pub invalidate_by_tag : String → RedisCacheManager R → RedisCacheManager R × Bool
  unfolding delete_commands
  invalidate_by_tag tag m =
      let tag_keys = build_tag_key config "tag_keys" tag in
      elim (redis.smembers tag_keys m.client) [
        | none ↦ (m, false)
        | some [] ↦ (m, true)
        | some (key ∷ keys) ↦
            let (r, done) =
              redis.exec (delete_commands (key ∷ keys) ++ (del tag_keys ∷ [])) m.client in
            if done
            then (
              record m { client = r; eviction_count = m.eviction_count + length (key ∷ keys) },
              true,
            )
            else (record m { client = r }, false)
      ]
