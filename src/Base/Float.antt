-- ===== src/Base/Float.antt =====
-- Go's float64, as a parameter: the values and the operations that the source applies to them.
-- No law is assumed here; a theorem names those that it needs.
use Prim.Native.Nat.{ℕ}
use mathlib.Core.Bool.{Bool}
use vehicle_telematics.Base.Int.{ℤ}

pub record Float : Type 1 where
  pub Carrier : Type 0
  -- `float64(n)`, and the decimal literal n / 10 ^ k.
  pub of_int : ℤ → Carrier
  pub lit : ℕ → ℕ → Carrier
  -- `int(x)`, which drops the fraction.
  pub trunc : Carrier → ℤ
  pub add : Carrier → Carrier → Carrier
  pub sub : Carrier → Carrier → Carrier
  pub mul : Carrier → Carrier → Carrier
  pub div : Carrier → Carrier → Carrier
  pub abs : Carrier → Carrier
  pub lt : Carrier → Carrier → Bool
  pub le : Carrier → Carrier → Bool

-- The functions of Go's math package that the source calls.
pub record Math (F : Float) : Type 0 where
  pub pi : F.Carrier
  pub sin : F.Carrier → F.Carrier
  pub cos : F.Carrier → F.Carrier
  pub sqrt : F.Carrier → F.Carrier
  pub atan2 : F.Carrier → F.Carrier → F.Carrier
