-- ===== src/Base/Time.antt =====
-- Go's times and durations in nanoseconds. The zero time is 0, and every other time is after it.
use Prim.Native.Nat.{ℕ, ◌-◌, ◌*◌, ◌^◌, min}

abbrev pub Time : Type 0
Time = ℕ

abbrev pub Duration : Type 0
Duration = ℕ

abbrev pub second : Duration
second = 1_000_000_000

abbrev pub minute : Duration
minute = 60 * second

abbrev pub hour : Duration
hour = 60 * minute

-- `now.Sub(t)` for a time `t` that is not after `now`: it saturates at the largest int64.
abbrev pub since : Time → Time → Duration
since now t = min (now - t) (2 ^ 63 - 1)
