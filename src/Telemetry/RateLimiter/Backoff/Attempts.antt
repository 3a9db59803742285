-- ===== src/Telemetry/RateLimiter/Backoff/Attempts.antt =====
-- How the attempts of `RequestWithBackoff` end.
use vehicle_telematics.Base.{
  ℕ, zero, suc, ◌<◌, String, ◌≡◌, refl, ap, inl, inr, Bool, true, false, Option, none, some,
  Bool-cases, Option-cases, arith,
}
use vehicle_telematics.Base.Int.{ℤ}
use vehicle_telematics.Base.Float.{Float}
use vehicle_telematics.Base.Time.{Time}
use vehicle_telematics.Telemetry.RateLimiter.{Priority, SmartRateLimiter, can_make_request}
use vehicle_telematics.Telemetry.RateLimiter.Backoff.{
  Outcome, returned, cancelled, exceeded, max_retries, attempt, request_with_backoff,
}

module _ {F : Float} {W E : Type 0} (wait : ℤ → W → W × Option Time) (vehicle_id : String)
    (priority : Priority) (request : W → W × Option E) where
  abbrev asked : SmartRateLimiter F × Time × W → SmartRateLimiter F × Bool × ℤ
  asked (srl, now, w) = can_make_request srl vehicle_id priority now

  -- So many attempts in a row are refused and waited for, from one state, time and world to another.
  pub data Refusals
      : ℕ → SmartRateLimiter F × Time × W → SmartRateLimiter F × Time × W → Type 0 where
    start : (s : SmartRateLimiter F × Time × W) → Refusals zero s s
    refused :
        (n : ℕ) (srl : SmartRateLimiter F) (now later : Time) (w w' : W)
        (s : SmartRateLimiter F × Time × W)
        → (asked (srl, now, w)).1 ≡ false
        → wait (asked (srl, now, w)).2 w ≡ (w', some later)
        → Refusals n ((asked (srl, now, w)).0, later, w') s
        → Refusals (suc n) (srl, now, w) s

  -- How a run with so many attempts ends: with the request after fewer refusals, with the context
  -- during the wait after a refusal, or after as many refusals as attempts.
  abbrev pub Ends : ℕ → SmartRateLimiter F × Time × W → SmartRateLimiter F × W × Outcome E → Type 0
  Ends n s (srl', w', returned e) =
      (k : ℕ) × (t : SmartRateLimiter F × Time × W) × (k < n)
      × Refusals k s t
      × ((asked t).1 ≡ true)
      × ((asked t).0 ≡ srl')
      × (request t.2 ≡ (w', e))
  Ends n s (srl', w', cancelled) =
      (k : ℕ) × (t : SmartRateLimiter F × Time × W) × (k < n)
      × Refusals k s t
      × ((asked t).1 ≡ false)
      × ((asked t).0 ≡ srl')
      × (wait (asked t).2 t.2 ≡ (w', none))
  Ends n s (srl', w', exceeded) = (later : Time) × Refusals n s (srl', later, w')

  -- An attempt that is refused before a run.
  Ends-refused :
      (n : ℕ) (srl : SmartRateLimiter F) (now later : Time) (w w' : W)
      (r : SmartRateLimiter F × W × Outcome E)
      → (asked (srl, now, w)).1 ≡ false
      → wait (asked (srl, now, w)).2 w ≡ (w', some later)
      → Ends n ((asked (srl, now, w)).0, later, w') r
      → Ends (suc n) (srl, now, w) r
  Ends-refused n srl now later w w' (srl', w'', returned e) h1 h2 (k, t, h, chain, l1, l2, l3) =
      (suc k, t, omega (arith, h), refused k srl now later w w' t h1 h2 chain, l1, l2, l3)
  Ends-refused n srl now later w w' (srl', w'', cancelled) h1 h2 (k, t, h, chain, l1, l2, l3) =
      (suc k, t, omega (arith, h), refused k srl now later w w' t h1 h2 chain, l1, l2, l3)
  Ends-refused n srl now later w w' (srl', w'', exceeded) h1 h2 (t, chain) =
      (t, refused n srl now later w w' (srl', t, w'') h1 h2 chain)

  attempt-Ends :
      (n : ℕ) (srl : SmartRateLimiter F) (now : Time) (w : W)
      → Ends n (srl, now, w) (attempt wait vehicle_id priority request n srl now w)
  unfolding attempt
  attempt-Ends zero srl now w = (now, start (srl, now, w))
  attempt-Ends (suc n) srl now w = elim (Bool-cases (asked (srl, now, w)).1) [
    | inl allowed ↦
        rw (allowed, attempt)
          (zero, (srl, now, w), omega arith, start (srl, now, w), allowed, refl, refl)
    | inr not_yet ↦ elim (Option-cases (wait (asked (srl, now, w)).2 w).1) [
      | inl done ↦
          rw (not_yet, done, attempt)
            (
              zero,
              (srl, now, w),
              omega arith,
              start (srl, now, w),
              not_yet,
              refl,
              ap (λ o. ((wait (asked (srl, now, w)).2 w).0, o)) done,
            )
      | inr (later, e) ↦
          let w' = (wait (asked (srl, now, w)).2 w).0 in
          rw (not_yet, e, attempt)
            (Ends-refused n srl now later w w'
              (attempt wait vehicle_id priority request n (asked (srl, now, w)).0 later w') not_yet
              (ap (λ o. (w', o)) e) (attempt-Ends n (asked (srl, now, w)).0 later w'))
    ]
  ]

  -- `RequestWithBackoff` ends in one of three ways. The request is made once, and its error passed on,
  -- when one of three attempts is allowed; the error of the context is returned when that is done while
  -- it waits after a refusal; otherwise all three attempts are refused and waited for, and the request
  -- is never made. Each attempt is at the time at which the wait before it ended.
  pub request_with_backoff-Ends :
      (srl : SmartRateLimiter F) (now : Time) (w : W)
      → Ends max_retries
          (srl, now, w)
          (request_with_backoff wait vehicle_id priority request srl now w)
  unfolding request_with_backoff
  request_with_backoff-Ends srl now w = attempt-Ends 3 srl now w
