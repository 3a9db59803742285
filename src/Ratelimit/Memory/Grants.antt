-- ===== src/Ratelimit/Memory/Grants.antt =====
-- How many requests a bucket lets through.
use vehicle_telematics.Base.{
  ℕ, suc, ◌+◌, ◌*◌, ◌-◌, ◌/◌, ◌≤◌, min, String, ◌≡◌, refl, ap, ◌∙◌, ◌⊎◌, inl, inr, Bool, true,
  false, List, [], ◌∷◌, none, some, if◌then◌else◌, ◌==◌, lookup, lookup-insert_self, arith,
  Bool-cases, if_either, if_accepted,
}
use native.Mathlib.Nat.{mul-add}
use vehicle_telematics.Base.Int.{ℤ, pos, negsuc, ◌+ℤ◌, ◌-ℤ◌, ◌≤ℤ◌, ltb_ℤ, -ℤ_parts, eq_of_parts}
use vehicle_telematics.Base.Float.{Float}
use vehicle_telematics.Base.Time.{Time, minute, hour, since}
use vehicle_telematics.Ratelimit.Config.{RateLimit}
use vehicle_telematics.Ratelimit.Memory.{
  TokenBucket, MemoryRateLimiter, min_ℤ, tokens_to_add, refill, take_token, get_rate_limit,
  get_or_create_token_bucket, bucket_key, store, allow,
}

-- What is relied on of float64: for up to 1000 requests a minute and an hour, the product of the
-- rate and the minutes is not rounded up past the next integer, nor below zero.
pub record Refills (F : Float) : Type 0 where
  pub add_le :
      (limit : RateLimit) (rate d : ℕ)
      → limit.requests_per_minute ≡ pos rate
      → rate ≤ 1000
      → d ≤ hour
      → (pos 0 ≤ℤ tokens_to_add F limit d) × (tokens_to_add F limit d ≤ℤ pos (rate * d / minute))

-- The times follow each other from the first to the last.
abbrev pub Within : Time → Time → List Time → Type 0
Within first last [] = first ≤ last
Within first last (t ∷ times) = (first ≤ t) × Within t last times

Within-le : (first last : Time) (times : List Time) → Within first last times → first ≤ last
Within-le first last [] h = h
Within-le first last (t ∷ times) h = omega (arith, h.0, Within-le t last times h.1)

module _ (F : Float) where
  -- The bucket after requests at the given times, and how many were allowed.
  unfoldable pub take_each : RateLimit → List Time → TokenBucket → TokenBucket × ℕ
  take_each limit [] bucket = (bucket, 0)
  take_each limit (now ∷ times) bucket =
      let (bucket', allowed, _) = take_token F limit now bucket in
      let (bucket'', granted) = take_each limit times bucket' in
      (bucket'', if allowed then suc granted else granted)

  module _ (laws : Refills F) (limit : RateLimit) (rate : ℕ)
      (is_rate : limit.requests_per_minute ≡ pos rate) (small : rate ≤ 1000) where
    pos_plus : (n a : ℕ) → pos n +ℤ pos a ≡ pos (n + a)
    unfolding ◌+ℤ◌
    pos_plus n a = ground arith

    min_pos : (c m : ℕ) → min_ℤ (pos (suc c)) (pos m) ≡ pos (min (suc c) m)
    unfolding min_ℤ
    min_pos c m = ground arith

    refill-frame :
        (now : Time) (bucket : TokenBucket)
        → ((refill F limit now bucket).capacity ≡ bucket.capacity)
          × ((refill F limit now bucket).last_refill ≡ bucket.last_refill)
    unfolding refill
    refill-frame now bucket =
        if_either
          (λ (b : TokenBucket).
            (b.capacity ≡ bucket.capacity) × (b.last_refill ≡ bucket.last_refill))
          (bucket.last_refill == 0) (refl, refl) (refl, refl)

    refill-tokens :
        (now : Time) (bucket : TokenBucket) (c n : ℕ)
        → bucket.capacity ≡ pos (suc c)
        → bucket.tokens ≡ pos n
        → 1 ≤ bucket.last_refill
        → bucket.last_refill ≤ now
        → now ≤ bucket.last_refill + hour
        → (k : ℕ) × ((refill F limit now bucket).tokens ≡ pos k)
          × (k ≤ n + rate * (now - bucket.last_refill) / minute)
          × (k ≡ 0 → n ≡ 0)
    unfolding refill
    refill-tokens now bucket c n is_cap is_tokens h past soon =
        let (low, high) =
          laws.add_le limit rate (now - bucket.last_refill) is_rate small (omega arith) in
        let (a, is_a, below) =
          natural (tokens_to_add F limit (now - bucket.last_refill)) low high in
        (
          min (suc c) (n + a),
          rw (started, refill, d, is_a, is_cap, is_tokens, pos_plus n a) (min_pos c (n + a)),
          omega (arith, below),
          λ e. omega arith,
        )
      where
        started : (bucket.last_refill == 0) ≡ false
        started = ground arith

        d : since now bucket.last_refill ≡ now - bucket.last_refill
        d = omega arith

        natural :
            (a : ℤ)
            → pos 0 ≤ℤ a
            → a ≤ℤ pos (rate * (now - bucket.last_refill) / minute)
            → (m : ℕ) × (a ≡ pos m) × (m ≤ rate * (now - bucket.last_refill) / minute)
        natural (pos m) low high = (m, refl, omega arith)
        natural (negsuc m) low high = absurd (omega arith)

    -- One request: the tokens after it, and what it gained or spent.
    abbrev Taken : (now : Time) (bucket : TokenBucket) (n : ℕ) → TokenBucket × Bool × ℤ → Type 0
    Taken now bucket n (after, allowed, wait) =
        (m : ℕ) × (after.tokens ≡ pos m)
        × (after.capacity ≡ bucket.capacity)
        × (((allowed ≡ true)
              × (after.last_refill ≡ now)
              × (suc m ≤ n + rate * (now - bucket.last_refill) / minute))
            ⊎ ((allowed ≡ false) × (after.last_refill ≡ bucket.last_refill) × (m ≤ n)))

    take_token-Taken :
        (now : Time) (bucket : TokenBucket) (c n : ℕ)
        → bucket.capacity ≡ pos (suc c)
        → bucket.tokens ≡ pos n
        → 1 ≤ bucket.last_refill
        → bucket.last_refill ≤ now
        → now ≤ bucket.last_refill + hour
        → Taken now bucket n (take_token F limit now bucket)
    unfolding take_token
    take_token-Taken now bucket c n is_cap is_tokens h past soon =
        let (k, is_k, below, spent) = refill-tokens now bucket c n is_cap is_tokens h past soon in
        let (same_cap, same_refill) = refill-frame now bucket in
        elim (Bool-cases (ltb_ℤ (pos 0) (refill F limit now bucket).tokens)) [
          | inl some_left ↦
              let positive : 1 ≤ k = let left = rw is_k at some_left in ground arith in
              rw (some_left, take_token)
                (
                  k - 1,
                  rw is_k (pos_minus_one k positive),
                  same_cap,
                  inl (refl, refl, omega (arith, below)),
                )
          | inr empty ↦
              let zero_left : k ≡ 0 = let left = rw is_k at empty in ground arith in
              rw (empty, take_token)
                (k, is_k, same_cap, inr (refl, same_refill, omega (arith, zero_left)))
        ]
      where
        pos_minus_one : (k : ℕ) → 1 ≤ k → pos k -ℤ pos 1 ≡ pos (k - 1)
        pos_minus_one k h = eq_of_parts _ _ (omega (arith, -ℤ_parts (pos k) (pos 1)))

    -- Of the requests at the given times, within an hour of the bucket's last refill, no more are
    -- allowed than the bucket had tokens and than the rate gives for the time that has passed.
    take_each-granted :
        (last : Time) (times : List Time) (bucket : TokenBucket) (c n : ℕ)
        → bucket.capacity ≡ pos (suc c)
        → bucket.tokens ≡ pos n
        → 1 ≤ bucket.last_refill
        → last ≤ bucket.last_refill + hour
        → (first : Time) → bucket.last_refill ≤ first
        → Within first last times
        → (take_each limit times bucket).1 * minute
          ≤ n * minute + rate * (last - bucket.last_refill)
    unfolding take_each
    take_each-granted last [] bucket c n is_cap is_tokens h soon first past w = omega arith
    take_each-granted last (now ∷ times) bucket c n is_cap is_tokens h soon first past (ahead, w) =
        let within = Within-le now last times w in
        let (m, is_m, same_cap, which) =
          take_token-Taken now bucket c n is_cap is_tokens h (omega (arith, past, ahead))
            (omega (arith, soon, within)) in
        elim which [
          | inl (granted, refilled, spent) ↦
              let later =
                take_each-granted last times after c m (same_cap ∙ is_cap) is_m
                  (omega (arith, refilled, h, past, ahead))
                  (omega (arith, refilled, soon, past, ahead)) now (omega (arith, refilled)) w in
              let later' : (take_each limit times after).1 * minute
                  ≤ m * minute + rate * (last - now) =
                rw refilled at later in
              rw granted (omega (arith, later', spent, apart (omega (arith, past, ahead)) within))
          | inr (refused, kept, less) ↦
              let later =
                take_each-granted last times after c m (same_cap ∙ is_cap) is_m
                  (omega (arith, kept, h)) (omega (arith, kept, soon)) now
                  (omega (arith, kept, past, ahead)) w in
              let later' : (take_each limit times after).1 * minute
                  ≤ m * minute + rate * (last - bucket.last_refill) =
                rw kept at later in
              rw refused (omega (arith, later', less))
        ]
      where
        after : TokenBucket
        after = (take_token F limit now bucket).0

        apart :
            bucket.last_refill ≤ now
            → now ≤ last
            → rate * (last - bucket.last_refill)
              ≡ rate * (last - now) + rate * (now - bucket.last_refill)
        apart h k =
            let sum : last - bucket.last_refill ≡ (last - now) + (now - bucket.last_refill) =
              omega arith in
            rw sum (mul-add rate (last - now) (now - bucket.last_refill))

module _ {F : Float} (client_id endpoint : String) where
  -- The requests of one client for one endpoint, and how many were allowed.
  unfoldable pub allow_each : List Time → MemoryRateLimiter F → MemoryRateLimiter F × ℕ
  allow_each [] r = (r, 0)
  allow_each (now ∷ times) r =
      let (r', allowed, _) = allow r client_id endpoint now in
      let (r'', granted) = allow_each times r' in (r'', if allowed then suc granted else granted)

  limit_kept :
      (r r' : MemoryRateLimiter F)
      → r'.config ≡ r.config
      → r'.custom_limits ≡ r.custom_limits
      → get_rate_limit r' client_id endpoint ≡ get_rate_limit r client_id endpoint
  unfolding get_rate_limit
  limit_kept r r' same_config same_custom = rw (same_config, same_custom) refl

  -- The limiter as `allow` leaves it is enabled, has the same limit, and has the bucket.
  allow_lem :
      (now : Time) (r : MemoryRateLimiter F) (limit : RateLimit) (b : TokenBucket)
      → r.config.enabled ≡ true
      → get_rate_limit r client_id endpoint ≡ limit
      → get_or_create_token_bucket r (bucket_key client_id endpoint) limit now ≡ b
      → let (r', allowed, _) = allow r client_id endpoint now in
        (r'.config.enabled ≡ true)
        × (get_rate_limit r' client_id endpoint ≡ limit)
        × (allowed ≡ (take_token F limit now b).1)
        × (lookup (bucket_key client_id endpoint) r'.tokens ≡ some (take_token F limit now b).0)
  unfolding allow store
  allow_lem now r limit b enabled is_limit is_bucket =
      if_accepted
        (λ (x : MemoryRateLimiter F × Bool × ℤ).
          (x.0.config.enabled ≡ true)
          × (get_rate_limit x.0 client_id endpoint ≡ limit)
          × (x.1 ≡ (take_token F limit now b).1)
          × (lookup (bucket_key client_id endpoint) x.0.tokens ≡ some (take_token F limit now b).0))
        r.config.enabled (r, true, pos 0) enabled
        (
          enabled,
          limit_kept r (store r (bucket_key client_id endpoint) taken_now.0 taken_now.1) refl refl
              ∙ is_limit,
          ap (λ (x : TokenBucket × Bool × ℤ). x.1) taken,
          lookup-insert_self _ _ r.tokens ∙ ap (λ (x : TokenBucket × Bool × ℤ). some x.0) taken,
        )
    where
      taken_now : TokenBucket × Bool × ℤ
      taken_now = take_token F (get_rate_limit r client_id endpoint) now (
          get_or_create_token_bucket r (bucket_key client_id endpoint)
            (get_rate_limit r client_id endpoint) now)

      taken :
          take_token F (get_rate_limit r client_id endpoint) now (
            get_or_create_token_bucket r
              (bucket_key client_id endpoint)
              (get_rate_limit r client_id endpoint)
              now)
          ≡ take_token F limit now b
      taken = rw (is_limit, is_bucket) refl

  allow_each-take_each :
      (times : List Time) (r : MemoryRateLimiter F) (limit : RateLimit) (b : TokenBucket)
      → r.config.enabled ≡ true
      → get_rate_limit r client_id endpoint ≡ limit
      → lookup (bucket_key client_id endpoint) r.tokens ≡ some b
      → (allow_each times r).1 ≡ (take_each F limit times b).1
  unfolding allow_each take_each get_or_create_token_bucket
  allow_each-take_each [] r limit b enabled is_limit found = refl
  allow_each-take_each (now ∷ times) r limit b enabled is_limit found =
      let (enabled', is_limit', same, found') =
        allow_lem now r limit b enabled is_limit (known r limit b now found) in
      rw
        (
          same,
          allow_each-take_each times (allow r client_id endpoint now).0 limit
              (take_token F limit now b).0 enabled' is_limit' found',
        )
        refl
    where
      known :
          (r : MemoryRateLimiter F) (limit : RateLimit) (b : TokenBucket) (now : Time)
          → lookup (bucket_key client_id endpoint) r.tokens ≡ some b
          → get_or_create_token_bucket r (bucket_key client_id endpoint) limit now ≡ b
      known r limit b now found = rw (found, get_or_create_token_bucket) refl

  -- Of the requests of one client for one endpoint, from its first one on and within an hour, at
  -- most the burst size and the rate for the time that has passed are allowed, where the limiter is
  -- enabled, the client has no bucket yet, the burst size is positive and the rate at most 1000.
  pub allow_each-granted :
      (laws : Refills F) (r : MemoryRateLimiter F) (limit : RateLimit) (rate burst : ℕ)
      (first last : Time) (times : List Time)
      → r.config.enabled ≡ true
      → get_rate_limit r client_id endpoint ≡ limit
      → lookup (bucket_key client_id endpoint) r.tokens ≡ none
      → limit.requests_per_minute ≡ pos rate
      → rate ≤ 1000
      → limit.burst_size ≡ pos (suc burst)
      → 1 ≤ first
      → last ≤ first + hour
      → Within first last times
      → (allow_each (first ∷ times) r).1 * minute ≤ suc burst * minute + rate * (last - first)
  unfolding allow_each take_each get_or_create_token_bucket
  allow_each-granted laws r limit rate burst first last times enabled is_limit fresh is_rate small
        is_burst h soon w =
      rw same (
        take_each-granted F laws limit rate is_rate small last (first ∷ times) created burst
          (suc burst) is_burst is_burst h soon first (omega arith) (omega arith, w))
    where
      created : TokenBucket
      created = record {
        capacity = limit.burst_size;
        tokens = limit.burst_size;
        refill_rate = limit.requests_per_minute;
        last_refill = first;
      }

      same : (allow_each (first ∷ times) r).1 ≡ (take_each F limit (first ∷ times) created).1
      same =
          let (enabled', is_limit', allowed, found) =
            allow_lem first r limit created enabled is_limit
              (rw (fresh, get_or_create_token_bucket) refl) in
          let rest =
            allow_each-take_each times (allow r client_id endpoint first).0 limit
              (take_token F limit first created).0 enabled' is_limit' found in
          rw (allowed, rest) refl
