-- ===== src/Ratelimit/Memory.antt =====
-- pkg/ratelimit/memory_limiter.go: a bucket of tokens for each client and endpoint.
pub mod Grants
use vehicle_telematics.Base.{
  ℕ, suc, ◌+◌, ◌*◌, ◌-◌, ◌/◌, ◌%◌, String, Bool, true, false, List, [], ◌∷◌, Option, none, some,
  if◌then◌else◌, ltb, ◌==◌, length, lookup, insert, remove,
}
use vehicle_telematics.Base.Int.{ℤ, pos, negsuc, ◌+ℤ◌, ◌-ℤ◌, ◌*ℤ◌, ltb_ℤ, wrap64}
use vehicle_telematics.Base.Float.{Float}
use vehicle_telematics.Base.Time.{Time, Duration, minute, hour, since}
use vehicle_telematics.Ratelimit.Config.{RateLimit, Config, get_endpoint_key}
use Prim.Native.String.{◌++◌ as ◌+++◌}

pub record TokenBucket : Type 0 where
  pub capacity : ℤ
  pub tokens : ℤ
  pub refill_rate : ℤ
  pub last_refill : Time

pub record RateLimiterStats (F : Float) : Type 0 where
  pub total_requests : ℕ
  pub blocked_requests : ℕ
  pub average_latency : F.Carrier
  pub active_clients : ℕ

pub record MemoryRateLimiter (F : Float) : Type 0 where
  pub config : Config
  pub stats : RateLimiterStats F
  pub custom_limits : List (String × List (String × RateLimit))
  pub tokens : List (String × TokenBucket)

unfoldable pub new_memory_rate_limiter : (F : Float) → Config → MemoryRateLimiter F
new_memory_rate_limiter F config = record {
  config = config;
  stats = record {
    total_requests = 0;
    blocked_requests = 0;
    average_latency = F.lit 0 0;
    active_clients = 0;
  };
  custom_limits = [];
  tokens = [];
}

-- The helpers `min` and `max`.
unfoldable pub min_ℤ : ℤ → ℤ → ℤ
min_ℤ a b = if ltb_ℤ a b then a else b

unfoldable pub max_ℤ : ℤ → ℤ → ℤ
max_ℤ a b = if ltb_ℤ b a then a else b

-- `time.Minute / time.Duration(rate)`: Go drops the fraction, and panics for the rate 0, which is 0
-- here.
unfoldable pub time_until_refill : ℤ → ℤ
time_until_refill (pos rate) = pos (minute / rate)
time_until_refill (negsuc rate) = pos 0 -ℤ pos (minute / suc rate)

module _ (F : Float) where
  -- `Duration.Minutes()`
  unfoldable pub minutes : Duration → F.Carrier
  minutes d =
      F.add (F.of_int (pos (d / minute))) (F.div (F.of_int (pos (d % minute))) (F.lit minute 0))

  unfoldable pub tokens_to_add : RateLimit → Duration → ℤ
  unfolding minutes
  tokens_to_add limit elapsed =
      F.trunc (F.mul (F.of_int limit.requests_per_minute) (minutes elapsed))

  -- `if !tokenBucket.LastRefill.IsZero()`
  unfoldable pub refill : RateLimit → Time → TokenBucket → TokenBucket
  unfolding tokens_to_add min_ℤ
  refill limit now bucket = if bucket.last_refill == 0 then bucket else record bucket {
    tokens =
        min_ℤ bucket.capacity (bucket.tokens +ℤ tokens_to_add limit (since now bucket.last_refill));
  }

  -- The rest of `Allow`: the bucket, whether the request is allowed, and the time to wait.
  unfoldable pub take_token : RateLimit → Time → TokenBucket → TokenBucket × Bool × ℤ
  unfolding refill max_ℤ time_until_refill
  take_token limit now bucket =
      let filled = refill limit now bucket in
      if ltb_ℤ (pos 0) filled.tokens
      then (record filled { tokens = filled.tokens -ℤ pos 1; last_refill = now }, true, pos 0)
      else (
        filled,
        false,
        wrap64 (
            time_until_refill limit.requests_per_minute
            *ℤ max_ℤ (pos 1) (pos 0 -ℤ filled.tokens +ℤ pos 1)),
      )

-- The final fallback.
abbrev pub fallback_limit : RateLimit
fallback_limit = record { requests_per_minute = pos 60; burst_size = pos 15; window_size = minute }

unfoldable pub category_limit : Config → String → RateLimit
category_limit config endpoint =
    elim (lookup (get_endpoint_key endpoint "") config.default_limits) [
      | some limit ↦ limit
      | none ↦ elim (lookup "default" config.default_limits) [
        | some limit ↦ limit
        | none ↦ fallback_limit
      ]
    ]

unfoldable pub bucket_key : String → String → String
bucket_key client_id endpoint = client_id +++ ":" +++ endpoint

unfoldable pub merge_limits :
    List (String × RateLimit) → List (String × RateLimit) → List (String × RateLimit)
merge_limits [] limits = limits
merge_limits ((endpoint, limit) ∷ own) limits = merge_limits own (insert endpoint limit limits)

-- One tick of `cleanupExpiredTokens`, over the buckets.
unfoldable pub unexpired : Time → List (String × TokenBucket) → List (String × TokenBucket)
unexpired now [] = []
unexpired now ((key, bucket) ∷ tokens) =
    let rest = unexpired now tokens in
    if ltb hour (since now bucket.last_refill) then rest else (key, bucket) ∷ rest

module _ {F : Float} where
  unfoldable pub get_rate_limit : MemoryRateLimiter F → String → String → RateLimit
  unfolding category_limit
  get_rate_limit r client_id endpoint = elim (lookup client_id r.custom_limits) [
    | none ↦ category_limit r.config endpoint
    | some client_limits ↦ elim (lookup endpoint client_limits) [
      | some limit ↦ limit
      | none ↦ category_limit r.config endpoint
    ]
  ]

  unfoldable pub get_or_create_token_bucket :
      MemoryRateLimiter F → String → RateLimit → Time → TokenBucket
  get_or_create_token_bucket r key limit now = elim (lookup key r.tokens) [
    | some bucket ↦ bucket
    | none ↦ record {
      capacity = limit.burst_size;
      tokens = limit.burst_size;
      refill_rate = limit.requests_per_minute;
      last_refill = now;
    }
  ]

  -- What `Allow` changes: the counters and the bucket.
  unfoldable pub store : MemoryRateLimiter F → String → TokenBucket → Bool → MemoryRateLimiter F
  store r key bucket allowed = record r {
    stats = record (r.stats) {
      total_requests = r.stats.total_requests + 1;
      blocked_requests = if allowed then r.stats.blocked_requests else r.stats.blocked_requests + 1;
    };
    tokens = insert key bucket r.tokens;
  }

  unfoldable pub allow :
      MemoryRateLimiter F → String → String → Time → MemoryRateLimiter F × Bool × ℤ
  unfolding get_rate_limit get_or_create_token_bucket take_token bucket_key store
  allow r client_id endpoint now =
      let limit = get_rate_limit r client_id endpoint in
      let key = bucket_key client_id endpoint in
      let (bucket, allowed, wait) =
        take_token F limit now (get_or_create_token_bucket r key limit now) in
      if r.config.enabled then (store r key bucket allowed, allowed, wait) else (r, true, pos 0)

  unfoldable pub get_limits : MemoryRateLimiter F → String → List (String × RateLimit)
  unfolding merge_limits
  get_limits r client_id = elim (lookup client_id r.custom_limits) [
    | none ↦ r.config.default_limits
    | some own ↦ merge_limits own r.config.default_limits
  ]

  unfoldable pub set_custom_limit :
      MemoryRateLimiter F → String → String → RateLimit → MemoryRateLimiter F
  set_custom_limit r client_id endpoint limit =
      let own : List (String × RateLimit) = elim (lookup client_id r.custom_limits) [
        | none ↦ []
        | some own ↦ own
      ] in
      record r { custom_limits = insert client_id (insert endpoint limit own) r.custom_limits }

  unfoldable pub get_stats : MemoryRateLimiter F → RateLimiterStats F
  get_stats r = record (r.stats) {
    active_clients = length r.custom_limits;
    average_latency =
        if ltb 0 r.stats.total_requests
        then F.mul
            (F.div (F.of_int (pos r.stats.blocked_requests))
              (F.of_int (pos r.stats.total_requests)))
            (F.lit 100 0)
        else r.stats.average_latency;
  }

  unfoldable pub cleanup_expired_tokens : MemoryRateLimiter F → Time → MemoryRateLimiter F
  unfolding unexpired
  cleanup_expired_tokens r now = record r { tokens = unexpired now r.tokens }
