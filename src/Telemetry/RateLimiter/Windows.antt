-- ===== src/Telemetry/RateLimiter/Windows.antt =====
-- The windows of `CanMakeRequest` over a whole history of requests, of any vehicles, in any order.
use vehicle_telematics.Base.{
  ℕ, ◌+◌, ◌*◌, ◌≤◌, ◌<◌, ◌^◌, String, ◌≡◌, refl, ◌≢◌, ◌∙◌, Bool, true, false, ◌&&◌, List, [], ◌∷◌,
  none, some, arith, leb, min, if◌then◌else◌, lookup, lookup-insert_self, lookup-insert_ne, str_eq,
  eq_iff, Option-cases, Bool-cases, ◌⊎◌, inl, inr, All,
}
use vehicle_telematics.Base.Float.{Float}
use vehicle_telematics.Base.Time.{Time, Duration, since}
use vehicle_telematics.Telemetry.RateLimiter.{
  Priority, VehicleRateLimit, RateLimitConfig, SmartRateLimiter, reset_window, check_limit,
  limit_for, can_make_request, new_limit,
}
use vehicle_telematics.Telemetry.RateLimiter.Quota.{
  Shrinks, quota, check_limit-quota, check_limit-count, check_limit-window,
}

pub record Request : Type 0 where
  pub vehicle_id : String
  pub priority : Priority
  pub at : Time

module _ {F : Float} where
  -- One call of the history: the limiter after it.
  abbrev pub serve : SmartRateLimiter F → Request → SmartRateLimiter F
  serve srl r = (can_make_request srl r.vehicle_id r.priority r.at).0

  abbrev pub is_granted : SmartRateLimiter F → Request → Bool
  is_granted srl r = (can_make_request srl r.vehicle_id r.priority r.at).1

  -- The number of requests of one vehicle that a history grants.
  unfoldable pub granted : String → SmartRateLimiter F → List Request → ℕ
  granted id srl [] = 0
  granted id srl (r ∷ rs) =
      (if str_eq r.vehicle_id id && is_granted srl r then 1 else 0) + granted id (serve srl r) rs

  pub serve_self :
      (srl : SmartRateLimiter F) (r : Request)
      → lookup r.vehicle_id (serve srl r).vehicle_limits
        ≡ some (check_limit srl.global_config r.priority r.at (limit_for srl r.vehicle_id r.at)).0
  unfolding can_make_request
  serve_self srl r = lookup-insert_self _ _ _

  -- A request of one vehicle leaves the entries of the others alone.
  pub serve_other :
      (srl : SmartRateLimiter F) (r : Request) (id : String)
      → r.vehicle_id ≢ id
      → lookup id (serve srl r).vehicle_limits ≡ lookup id srl.vehicle_limits
  unfolding can_make_request
  serve_other srl r id h = lookup-insert_ne r.vehicle_id id _ srl.vehicle_limits h

  pub serve-config :
      (srl : SmartRateLimiter F) (r : Request) → (serve srl r).global_config ≡ srl.global_config
  unfolding can_make_request
  serve-config srl r = refl

  pub is_granted_lem :
      (srl : SmartRateLimiter F) (r : Request)
      → is_granted srl r
        ≡ (check_limit srl.global_config r.priority r.at (limit_for srl r.vehicle_id r.at)).1
  unfolding can_make_request
  is_granted_lem srl r = refl

-- The requests of a history that fall into the period of one window's length from `t`.
abbrev pub Within : Time → Duration → List Request → Type 0
Within t w = All (λ r. (t ≤ r.at) × (r.at < t + w))

module _ {F : Float} (laws : Shrinks F) (cfg : RateLimitConfig F)
    (backs_off : F.le (F.lit 1 0) cfg.backoff_multiplier ≡ true)
    (exact : cfg.base_requests_per_hour < 2 ^ 53) (id : String) (t : Time) where
  open cfg use {window_duration}

  -- In a window that began at `t` or later no call of the period opens another one.
  pub window_kept :
      (now : Time) (l : VehicleRateLimit)
      → t ≤ l.window_start
      → t ≤ now
      → now < t + window_duration
      → reset_window cfg now l ≡ l
  unfolding reset_window
  window_kept now l h j k = ground arith

  window_opened :
      (now : Time) (l : VehicleRateLimit)
      → (reset_window cfg now l ≡ l)
        ⊎ (((reset_window cfg now l).window_start ≡ now)
            × ((reset_window cfg now l).current_requests ≡ 0))
  unfolding reset_window
  window_opened now l = elim (Bool-cases (leb window_duration (since now l.window_start))) [
    | inl e ↦ inr (rw e, rw e)
    | inr e ↦ inl (rw e)
  ]

  pub limit_for_known :
      (srl : SmartRateLimiter F) (now : Time) (l : VehicleRateLimit)
      → lookup id srl.vehicle_limits ≡ some l
      → limit_for srl id now ≡ l
  unfolding limit_for
  limit_for_known srl now l e = rw (e, limit_for)

  limit_for_new :
      (srl : SmartRateLimiter F) (now : Time)
      → lookup id srl.vehicle_limits ≡ none
      → ((limit_for srl id now).window_start ≡ now) × ((limit_for srl id now).current_requests ≡ 0)
  unfolding limit_for new_limit
  limit_for_new srl now e = (rw (e, limit_for), rw (e, limit_for))

  -- One call for the vehicle, in terms of the entry that it finds, `l`, and that entry with its
  -- window brought up to date.
  record Served (srl : SmartRateLimiter F) (r : Request) (l : VehicleRateLimit) : Type 0 where
    after : VehicleRateLimit
    stored : lookup id (serve srl r).vehicle_limits ≡ some after
    config : (serve srl r).global_config ≡ cfg
    count :
        after.current_requests
        ≡ (reset_window cfg r.at l).current_requests + (if is_granted srl r then 1 else 0)
    window : after.window_start ≡ (reset_window cfg r.at l).window_start
    limited : is_granted srl r ≡ true → after.current_requests ≤ quota cfg

  served :
      (srl : SmartRateLimiter F) (r : Request) (l : VehicleRateLimit)
      → srl.global_config ≡ cfg
      → r.vehicle_id ≡ id
      → limit_for srl id r.at ≡ l
      → Served srl r l
  served srl r l c e f = record {
    after = (check_limit cfg r.priority r.at l).0;
    stored = rw (← c, ← f, ← e) (serve_self srl r);
    config = serve-config srl r ∙ c;
    count = rw (granted_lem) (check_limit-count cfg r.priority r.at l);
    window = check_limit-window cfg r.priority r.at l;
    limited =
        λ g. check_limit-quota laws cfg backs_off exact r.priority r.at l (rw granted_lem at g);
  }
    where
      granted_lem : is_granted srl r ≡ (check_limit cfg r.priority r.at l).1
      granted_lem = rw (← c, ← f, ← e) (is_granted_lem srl r)

  pub known_other :
      (srl : SmartRateLimiter F) (r : Request) (l : VehicleRateLimit)
      → str_eq r.vehicle_id id ≡ false
      → lookup id srl.vehicle_limits ≡ some l
      → lookup id (serve srl r).vehicle_limits ≡ some l
  known_other srl r l other e =
      serve_other srl r id (λ p. ground (arith, eq_iff r.vehicle_id id)) ∙ e

  -- Once the vehicle's window began in the period, the rest of its quota is all that is granted.
  granted_in_window :
      (srl : SmartRateLimiter F) (rs : List Request) (l : VehicleRateLimit)
      → srl.global_config ≡ cfg
      → lookup id srl.vehicle_limits ≡ some l
      → t ≤ l.window_start
      → l.current_requests ≤ quota cfg
      → Within t window_duration rs
      → granted id srl rs + l.current_requests ≤ quota cfg
  unfolding granted
  granted_in_window srl [] l c e h q w = omega arith
  granted_in_window srl (r ∷ rs) l c e h q w = elim (Bool-cases (str_eq r.vehicle_id id)) [
    | inl same ↦
        let s = served srl r l c ((eq_iff _ _).0 same) (limit_for_known srl r.at l e) in
        let kept = window_kept r.at l h w.0.0 w.0.1 in
        let count = rw kept at s.count in
        let window = rw kept at s.window in
        let more : granted id (serve srl r) rs + s.after.current_requests ≤ quota cfg =
          granted_in_window (serve srl r) rs s.after s.config s.stored (omega arith)
            (ground (arith, s.limited)) w.1 in
        rw same (ground arith)
    | inr other ↦ rw other (
        omega (
          arith,
          granted_in_window (serve srl r) rs l (serve-config srl r ∙ c)
              (known_other srl r l other e) h q w.1,
        ))
  ]

  granted_known :
      (srl : SmartRateLimiter F) (rs : List Request) (l : VehicleRateLimit)
      → srl.global_config ≡ cfg
      → lookup id srl.vehicle_limits ≡ some l
      → Within t window_duration rs
      → granted id srl rs + min l.current_requests (quota cfg) ≤ 2 * quota cfg
  unfolding granted
  granted_known srl [] l c e w = omega arith
  granted_known srl (r ∷ rs) l c e w = elim (Bool-cases (str_eq r.vehicle_id id)) [
    | inl same ↦
        let s = served srl r l c ((eq_iff _ _).0 same) (limit_for_known srl r.at l e) in
        rw same (elim (window_opened r.at l) [
          | inl kept ↦
              let count = rw kept at s.count in
              let more = granted_known (serve srl r) rs s.after s.config s.stored w.1 in
              ground (arith, s.limited)
          | inr (start, none_yet) ↦
              let count = s.count in
              let window = s.window in
              let more : granted id (serve srl r) rs + s.after.current_requests ≤ quota cfg =
                granted_in_window (serve srl r) rs s.after s.config s.stored (omega arith)
                  (ground (arith, s.limited)) w.1 in
              ground arith
        ])
    | inr other ↦ rw other (
        omega (
          arith,
          granted_known (serve srl r) rs l (serve-config srl r ∙ c) (known_other srl r l other e)
              w.1,
        ))
  ]

  granted_unknown :
      (srl : SmartRateLimiter F) (rs : List Request)
      → srl.global_config ≡ cfg
      → lookup id srl.vehicle_limits ≡ none
      → Within t window_duration rs
      → granted id srl rs ≤ quota cfg
  unfolding granted
  granted_unknown srl [] c e w = omega arith
  granted_unknown srl (r ∷ rs) c e w = elim (Bool-cases (str_eq r.vehicle_id id)) [
    | inl same ↦
        let l = limit_for srl id r.at in
        let s = served srl r l c ((eq_iff _ _).0 same) refl in
        let fresh = limit_for_new srl r.at e in
        let count = s.count in
        let window = s.window in
        let kept = window_kept r.at l (omega arith) w.0.0 w.0.1 in
        let more : granted id (serve srl r) rs + s.after.current_requests ≤ quota cfg =
          granted_in_window (serve srl r) rs s.after s.config s.stored (ground arith)
            (ground (arith, s.limited)) w.1 in
        rw same (ground arith)
    | inr other ↦ rw other (
        omega (
          arith,
          granted_unknown (serve srl r) rs (serve-config srl r ∙ c)
              (serve_other srl r id (λ p. ground (arith, eq_iff r.vehicle_id id)) ∙ e) w.1,
        ))
  ]

  granted-le :
      (srl : SmartRateLimiter F) (rs : List Request)
      → srl.global_config ≡ cfg
      → Within t window_duration rs
      → granted id srl rs ≤ 2 * quota cfg
  granted-le srl rs c w = elim (Option-cases (lookup id srl.vehicle_limits)) [
    | inl missing ↦ omega (arith, granted_unknown srl rs c missing w)
    | inr (l, found) ↦ omega (arith, granted_known srl rs l c found w)
  ]

-- Whatever requests arrive, of any vehicles and priorities and in any order of their times: over
-- any period of one window's length, `CanMakeRequest` grants one vehicle at most twice the hourly
-- base limit plus the burst allowance, if the multiplier is at least 1, the base limit is
-- below 2 ^ 53 and float64 arithmetic shrinks as `Shrinks` says.
pub two_windows :
    {F : Float} (laws : Shrinks F) (srl : SmartRateLimiter F) (id : String) (t : Time)
    (rs : List Request)
    → F.le (F.lit 1 0) srl.global_config.backoff_multiplier ≡ true
    → srl.global_config.base_requests_per_hour < 2 ^ 53
    → Within t srl.global_config.window_duration rs
    → granted id srl rs ≤ 2 * quota srl.global_config
two_windows laws srl id t rs backs_off exact w =
    granted-le laws srl.global_config backs_off exact id t srl rs refl w
