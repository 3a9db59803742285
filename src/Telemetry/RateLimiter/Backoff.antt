-- ===== src/Telemetry/RateLimiter/Backoff.antt =====
-- pkg/telemetry/smart_rate_limiter.go: `RequestWithBackoff`. The select on the timer and the context is
-- a parameter: the wait ends at a time, or the context is done.
pub mod Attempts
use vehicle_telematics.Base.{
  ℕ, zero, suc, String, Bool, true, false, Option, none, some, if◌then◌else◌,
}
use vehicle_telematics.Base.Int.{ℤ}
use vehicle_telematics.Base.Float.{Float}
use vehicle_telematics.Base.Time.{Time}
use vehicle_telematics.Telemetry.RateLimiter.{Priority, SmartRateLimiter, can_make_request}

-- The result of the request, the error of the context, or the error after the last attempt.
pub data Outcome (E : Type 0) : Type 0 where
  returned : Option E → Outcome E
  cancelled exceeded : Outcome E

abbrev pub max_retries : ℕ
max_retries = 3

module _ {F : Float} {W E : Type 0} (wait : ℤ → W → W × Option Time) (vehicle_id : String)
    (priority : Priority) (request : W → W × Option E) where
  -- The loop, with so many attempts left.
  unfoldable pub attempt : ℕ → SmartRateLimiter F → Time → W → SmartRateLimiter F × W × Outcome E
  attempt zero srl now w = (srl, w, exceeded)
  attempt (suc n) srl now w =
      let (srl', allowed, retry_after) = can_make_request srl vehicle_id priority now in
      let (w', woken) = wait retry_after w in
      let rest : SmartRateLimiter F × W × Outcome E = elim woken [
        | none ↦ (srl', w', cancelled)
        | some later ↦ attempt n srl' later w'
      ] in
      let (done, error) = request w in if allowed then (srl', done, returned error) else rest

  unfoldable pub request_with_backoff :
      SmartRateLimiter F → Time → W → SmartRateLimiter F × W × Outcome E
  request_with_backoff srl now w = attempt max_retries srl now w
