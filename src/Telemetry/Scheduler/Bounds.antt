-- ===== src/Telemetry/Scheduler/Bounds.antt =====
-- The bounds of a vehicle's update interval, and what holds of its schedule after some events.
use vehicle_telematics.Base.{
  ℕ, suc, sym, ◌+◌, ◌^◌, ◌≤◌, ◌<◌, String, ◌≡◌, refl, ◌⊎◌, Bool, true, false, List, [], ◌∷◌, Option,
  none, some, arith, if◌then◌else◌, Values,
}
use vehicle_telematics.Base.Int.{pos, ◌≤ℤ◌}
use vehicle_telematics.Base.Float.{Float}
use vehicle_telematics.Base.Time.{Time}
use vehicle_telematics.Telemetry.Scheduler.{
  VehicleState, active, idle, parked, maintenance, offline, UpdateFrequency, VehicleSchedule,
  frequencies, stretched, adjust_update_frequency,
}

-- What the bounds take from float64 arithmetic: the factor of fewer than 2 ^ 20 idle rounds lies
-- between 1 and 2 ^ 18, and scaling an integer below 2 ^ 42 by such a factor, which stays within int64,
-- and dropping the fraction does not lower it.
pub record Expands (F : Float) : Type 0 where
  pub factor_bounds :
      (rounds : ℕ)
      → rounds < 2 ^ 20
      → let factor = F.add (F.lit 10 1) (F.mul (F.of_int (pos rounds)) (F.lit 2 1)) in
        (F.le (F.lit 1 0) factor ≡ true) × (F.le factor (F.lit 262_144 0) ≡ true)
  pub trunc_mul_ge :
      (n : ℕ) (x : F.Carrier)
      → n < 2 ^ 42
      → F.le (F.lit 1 0) x ≡ true
      → F.le x (F.lit 262_144 0) ≡ true
      → pos n ≤ℤ F.trunc (F.mul (F.of_int (pos n)) x)

-- A ticker fires at the vehicle's update interval, which lies between the base interval and the
-- maximum of the vehicle's state.
abbrev pub IsPaced : VehicleSchedule → Type 0
IsPaced s =
    (s.ticker ≡ none)
    ⊎ ((s.ticker ≡ some s.update_interval)
        × (pos (frequencies s.current_state).interval ≤ℤ s.update_interval)
        × (s.update_interval ≤ℤ pos (frequencies s.current_state).max_interval))

abbrev pub Regular : UpdateFrequency → Type 0
Regular freq = (0 < freq.interval) × (freq.interval ≤ freq.max_interval) × (freq.interval < 2 ^ 42)

pub frequencies-Regular : (s : VehicleState) → Regular (frequencies s)
unfolding frequencies
frequencies-Regular active = omega arith
frequencies-Regular idle = omega arith
frequencies-Regular parked = omega arith
frequencies-Regular maintenance = omega arith
frequencies-Regular offline = omega arith

-- A schedule after at most `k` events, `halted` whether one of them was a stop.
pub record Holds (k : ℕ) (halted : Bool) (s : VehicleSchedule) : Type 0 where
  pub paced : IsPaced s
  pub rested : s.consecutive_idle ≤ k
  pub opened : halted ≡ false → s.closed ≡ false

-- Only after a stop may it panic.
abbrev pub Gives : {A : Type 0} → Bool → (A → Type 0) → Option A → Type 0
Gives halted P none = halted ≡ true
Gives halted P (some x) = P x

pub weaken :
    (k : ℕ) (halted : Bool) (m : List (String × VehicleSchedule))
    → Values (Holds k halted) m
    → Values (Holds (suc k) halted) m
weaken k halted [] h = tt
weaken k halted (e ∷ m) h = (
  record { paced = h.0.paced; rested = omega (arith, h.0.rested); opened = h.0.opened },
  weaken k halted m h.1,
)

pub after_stop : (b : Bool) → (b ≡ false → true ≡ false) → b ≡ true
after_stop true h = refl
after_stop false h = sym (h refl)

pub if_closed :
    (P : VehicleSchedule → Type 0) (halted closed : Bool) (o : Option VehicleSchedule)
    → (closed ≡ true → halted ≡ true)
    → Gives halted P o
    → Gives halted P (if closed then none else o)
if_closed P halted true o h g = h refl
if_closed P halted false o h g = g

module _ {F : Float} (laws : Expands F) where
  stretched_bounds :
      (freq : UpdateFrequency) (n : ℕ)
      → Regular freq
      → n < 2 ^ 20
      → (pos freq.interval ≤ℤ stretched F freq n) × (stretched F freq n ≤ℤ pos freq.max_interval)
  unfolding stretched
  stretched_bounds freq n r few =
      let (low, high) = laws.factor_bounds n few in
      let grown = laws.trunc_mul_ge freq.interval _ r.2 low high in ground (arith, grown)

  pub adjust_bounds :
      (s : VehicleSchedule) (now : Time)
      → suc s.consecutive_idle < 2 ^ 20
      → let after = adjust_update_frequency F s now in
        (pos (frequencies s.current_state).interval ≤ℤ after.update_interval)
        × (after.update_interval ≤ℤ pos (frequencies s.current_state).max_interval)
        × (after.consecutive_idle ≤ suc s.consecutive_idle)
  unfolding adjust_update_frequency
  adjust_bounds s now few =
      let freq = frequencies s.current_state in
      let r = frequencies-Regular s.current_state in
      ground (arith, stretched_bounds freq (s.consecutive_idle + 1) r (omega arith))
