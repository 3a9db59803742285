-- ===== src/Telemetry/RateLimiter/Allowance.antt =====
-- How many of a vehicle's requests `CanMakeRequest` grants in its first window, exactly.
use vehicle_telematics.Base.{
  ℕ, suc, ◌+◌, ◌-◌, ◌≤◌, ◌<◌, ◌^◌, String, ◌≡◌, refl, ◌∙◌, Bool, true, false, List, [], ◌∷◌, none,
  some, arith, ltb, min, if◌then◌else◌, lookup, str_eq, eq_iff, Bool-cases, inl, inr, All,
}
use vehicle_telematics.Base.Int.{pos, +ℤ_parts, ◌≤ℤ◌, ◌+ℤ◌, ltb_ℤ}
use vehicle_telematics.Base.Float.{Float}
use vehicle_telematics.Base.Time.{Time, Duration}
use vehicle_telematics.Telemetry.RateLimiter.{
  Priority, is_critical, VehicleRateLimit, RateLimitConfig, SmartRateLimiter, reset_backoff,
  calculate_current_limit, current_limit, reject, check_limit, limit_for, new_limit,
}
use vehicle_telematics.Telemetry.RateLimiter.Quota.{Shrinks, calculate_current_limit-le}
use vehicle_telematics.Telemetry.RateLimiter.Windows.{
  Request, granted, serve, is_granted, is_granted_lem, serve_self, serve_other, serve-config,
  Within, window_kept, limit_for_known, known_other,
}

-- The requests of one vehicle in a history.
pub asked : String → List Request → ℕ
asked id [] = 0
asked id (r ∷ rs) = (if str_eq r.vehicle_id id then 1 else 0) + asked id rs

-- The vehicle's requests are all critical, or none is.
abbrev pub Uniform : String → Bool → List Request → Type 0
Uniform id urgent = All (λ r. r.vehicle_id ≡ id → is_critical r.priority ≡ urgent)

module _ {F : Float} where
  -- What a window grants at most: the base limit, and for critical requests the burst allowance.
  abbrev pub allowance : RateLimitConfig F → Bool → ℕ
  allowance cfg urgent = cfg.base_requests_per_hour + (if urgent then cfg.burst_allowance else 0)

module _ {F : Float} (laws : Shrinks F) (cfg : RateLimitConfig F)
    (backs_off : F.le (F.lit 1 0) cfg.backoff_multiplier ≡ true)
    (exact : cfg.base_requests_per_hour < 2 ^ 53) (id : String) (t : Time) (urgent : Bool) where
  open cfg use {window_duration}

  -- A window that began at `t` or later and has granted `k`; until it is used up there is no backoff.
  record Opened (k : ℕ) (l : VehicleRateLimit) : Type 0 where
    began : t ≤ l.window_start
    counted : l.current_requests ≡ k
    fits : k ≤ allowance cfg urgent
    calm : k < allowance cfg urgent → l.backoff_level ≡ 0

  current_limit-allowance :
      (priority : Priority) (l : VehicleRateLimit)
      → is_critical priority ≡ urgent
      → current_limit cfg priority l ≤ℤ pos (allowance cfg urgent)
  unfolding current_limit
  current_limit-allowance priority l same = ground (
    arith,
    calculate_current_limit-le laws cfg backs_off exact l,
    +ℤ_parts (calculate_current_limit cfg l) (pos cfg.burst_allowance),
  )

  current_limit_calm :
      (priority : Priority) (l : VehicleRateLimit)
      → is_critical priority ≡ urgent
      → l.backoff_level ≡ 0
      → current_limit cfg priority l ≡ pos (allowance cfg urgent)
  unfolding current_limit calculate_current_limit ◌+ℤ◌
  current_limit_calm priority l same calm = ground arith

  reset_backoff_calm :
      (now : Time) (l : VehicleRateLimit)
      → ((reset_backoff cfg now l).current_requests ≡ l.current_requests)
        × ((reset_backoff cfg now l).window_start ≡ l.window_start)
        × (l.backoff_level ≡ 0 → (reset_backoff cfg now l).backoff_level ≡ 0)
  unfolding reset_backoff
  reset_backoff_calm now l = ground arith

  check_limit-exact :
      (k : ℕ) (priority : Priority) (now : Time) (l : VehicleRateLimit)
      → is_critical priority ≡ urgent
      → t ≤ now
      → now < t + window_duration
      → Opened k l
      → ((check_limit cfg priority now l).1 ≡ ltb k (allowance cfg urgent))
        × Opened (min (suc k) (allowance cfg urgent)) (check_limit cfg priority now l).0
  unfolding check_limit reject
  check_limit-exact k priority now l same h j o =
      let kept = window_kept laws cfg backs_off exact id t now l o.began h j in
      let (count, window, level) = reset_backoff_calm now l in
      elim (Bool-cases (ltb k (allowance cfg urgent))) [
        | inl room ↦
            let limit =
              current_limit_calm priority (reset_backoff cfg now l) same
                (level (o.calm (ground arith))) in
            let allowed : ltb_ℤ (pos (reset_backoff cfg now l).current_requests)
                  (current_limit cfg priority (reset_backoff cfg now l))
                ≡ true =
              rw (limit, count, o.counted) (ground (arith, room)) in
            rw (check_limit, kept, allowed)
              (
                rw room refl,
                record {
                  began = rw window o.began;
                  counted = rw (count, o.counted) (ground arith);
                  fits = omega arith;
                  calm = λ _. level (o.calm (ground arith));
                },
              )
        | inr full ↦
            let limit = current_limit-allowance priority (reset_backoff cfg now l) same in
            let refused : ltb_ℤ (pos (reset_backoff cfg now l).current_requests)
                  (current_limit cfg priority (reset_backoff cfg now l))
                ≡ false =
              rw (count, o.counted) (ground (arith, o.fits)) in
            rw (check_limit, kept, refused)
              (
                rw full refl,
                record {
                  began = rw window o.began;
                  counted = rw (count, o.counted) (ground (arith, o.fits));
                  fits = omega arith;
                  calm = λ more. absurd (ground (arith, o.fits));
                },
              )
      ]

  -- A call for the vehicle, by the entry that it finds.
  served_exact :
      (k : ℕ) (srl : SmartRateLimiter F) (r : Request) (l : VehicleRateLimit)
      → srl.global_config ≡ cfg
      → r.vehicle_id ≡ id
      → limit_for srl id r.at ≡ l
      → is_critical r.priority ≡ urgent
      → t ≤ r.at
      → r.at < t + window_duration
      → Opened k l
      → (is_granted srl r ≡ ltb k (allowance cfg urgent))
        × ((after : VehicleRateLimit) × (lookup id (serve srl r).vehicle_limits ≡ some after)
            × Opened (min (suc k) (allowance cfg urgent)) after)
  served_exact k srl r l c e f same h j o =
      let (granted_lem, opened) = check_limit-exact k r.priority r.at l same h j o in
      (
        rw (← granted_lem, ← c, ← f, ← e) (is_granted_lem srl r),
        ((check_limit cfg r.priority r.at l).0, rw (← c, ← f, ← e) (serve_self srl r), opened),
      )

  -- After the window has opened, what is left of the allowance is granted.
  granted_left :
      (k : ℕ) (srl : SmartRateLimiter F) (rs : List Request) (l : VehicleRateLimit)
      → srl.global_config ≡ cfg
      → lookup id srl.vehicle_limits ≡ some l
      → Opened k l
      → Within t window_duration rs
      → Uniform id urgent rs
      → granted id srl rs ≡ min (asked id rs) (allowance cfg urgent - k)
  unfolding granted asked
  granted_left k srl [] l c e o w u = omega arith
  granted_left k srl (r ∷ rs) l c e o w u = elim (Bool-cases (str_eq r.vehicle_id id)) [
    | inl same ↦
        let p = (eq_iff _ _).0 same in
        let (now, (after, stored, opened)) =
          served_exact k srl r l c p (limit_for_known laws cfg backs_off exact id t srl r.at l e)
            (u.0 p) w.0.0 w.0.1 o in
        let rest =
          granted_left (min (suc k) (allowance cfg urgent)) (serve srl r) rs after
            (serve-config srl r ∙ c) stored opened w.1 u.1 in
        rw (same, now, asked) (ground (arith, rest, o.fits))
    | inr other ↦
        rw (other, asked)
          (omega (
            arith,
            granted_left k (serve srl r) rs l (serve-config srl r ∙ c)
                (known_other laws cfg backs_off exact id t srl r l other e) o w.1 u.1,
          ))
  ]

  -- While the limiter does not know the vehicle.
  granted_new :
      (srl : SmartRateLimiter F) (rs : List Request)
      → srl.global_config ≡ cfg
      → lookup id srl.vehicle_limits ≡ none
      → Within t window_duration rs
      → Uniform id urgent rs
      → granted id srl rs ≡ min (asked id rs) (allowance cfg urgent)
  unfolding granted asked limit_for new_limit
  granted_new srl [] c e w u = omega arith
  granted_new srl (r ∷ rs) c e w u = elim (Bool-cases (str_eq r.vehicle_id id)) [
    | inl same ↦
        let p = (eq_iff _ _).0 same in
        let (now, (after, stored, opened)) =
          served_exact 0 srl r (new_limit srl.global_config id r.at) c p (rw (e, limit_for) refl)
            (u.0 p) w.0.0 w.0.1
            (record { began = w.0.0; counted = refl; fits = omega arith; calm = λ _. refl }) in
        let rest =
          granted_left (min 1 (allowance cfg urgent)) (serve srl r) rs after
            (serve-config srl r ∙ c) stored opened w.1 u.1 in
        rw (same, now, asked) (ground (arith, rest))
    | inr other ↦
        rw (other, asked)
          (omega (
            arith,
            granted_new (serve srl r) rs (serve-config srl r ∙ c)
                (serve_other srl r id (λ p. ground (arith, eq_iff r.vehicle_id id)) ∙ e) w.1 u.1,
          ))
  ]

-- A history in one period, uniform in one vehicle's requests.
abbrev pub Burst : String → Bool → Time → Duration → List Request → Type 0
Burst id urgent t w =
    All (λ r. (t ≤ r.at) × (r.at < t + w) × (r.vehicle_id ≡ id → is_critical r.priority ≡ urgent))

Burst-parts :
    (id : String) (urgent : Bool) (t : Time) (w : Duration) (rs : List Request)
    → Burst id urgent t w rs
    → Within t w rs × Uniform id urgent rs
Burst-parts id urgent t w [] h = (tt, tt)
Burst-parts id urgent t w (r ∷ rs) h =
    let (within, uniform) = Burst-parts id urgent t w rs h.1 in
    (((h.0.0, h.0.1), within), (h.0.2, uniform))

-- Of the requests of a vehicle that the limiter does not know yet, in any history that falls within
-- one window's length, among any requests of other vehicles, and all critical or none, exactly the
-- first are granted: as many as the base limit, and for critical requests the burst allowance more.
-- float64 arithmetic shrinks as `Shrinks` says, the backoff multiplier is at least 1, and the base
-- limit is below 2 ^ 53.
pub granted-exact :
    {F : Float} (laws : Shrinks F) (srl : SmartRateLimiter F) (id : String) (t : Time)
    (urgent : Bool) (rs : List Request)
    → F.le (F.lit 1 0) srl.global_config.backoff_multiplier ≡ true
    → srl.global_config.base_requests_per_hour < 2 ^ 53
    → lookup id srl.vehicle_limits ≡ none
    → Burst id urgent t srl.global_config.window_duration rs
    → granted id srl rs
      ≡ min (asked id rs) (
          srl.global_config.base_requests_per_hour
          + (if urgent then srl.global_config.burst_allowance else 0))
granted-exact laws srl id t urgent rs backs_off exact new h =
    let (within, uniform) = Burst-parts id urgent t srl.global_config.window_duration rs h in
    granted_new laws srl.global_config backs_off exact id t urgent srl rs refl new within uniform
