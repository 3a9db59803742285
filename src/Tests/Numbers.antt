-- ===== src/Tests/Numbers.antt =====
-- Fixed-point numbers with six decimals, which stand in for float64 in the tests.
use vehicle_telematics.Base.{ℕ, suc, ◌*◌, ◌/◌, ◌^◌, ◌≤◌, ◌≡◌, refl, true, arith}
use native.Mathlib.Nat.{mul-le-mul, mul-le-mul_left, div-le_of_le-mul}
use vehicle_telematics.Base.Int.{ℤ, pos, negsuc, ◌+ℤ◌, ◌-ℤ◌, ltb_ℤ, leb_ℤ, ◌≤ℤ◌, sub_ℕ, abs}
use vehicle_telematics.Base.Float.{Float}
use vehicle_telematics.Telemetry.RateLimiter.Quota.{Shrinks}

abbrev pub one : ℕ
one = 1_000_000

abbrev pub neg : ℕ → ℤ
neg = sub_ℕ 0

abbrev pub from_int : ℤ → ℤ
from_int (pos a) = pos (a * one)
from_int (negsuc a) = neg (suc a * one)

abbrev pub truncate : ℤ → ℤ
truncate (pos a) = pos (a / one)
truncate (negsuc a) = neg (suc a / one)

abbrev pub times : ℤ → ℤ → ℤ
times (pos a) (pos b) = pos (a * b / one)
times (pos a) (negsuc b) = neg (a * suc b / one)
times (negsuc a) (pos b) = neg (suc a * b / one)
times (negsuc a) (negsuc b) = pos (suc a * suc b / one)

-- By zero it gives zero.
abbrev pub over : ℤ → ℤ → ℤ
over (pos a) (pos b) = pos (a * one / b)
over (pos a) (negsuc b) = neg (a * one / suc b)
over (negsuc a) (pos b) = neg (suc a * one / b)
over (negsuc a) (negsuc b) = pos (suc a * one / suc b)

abbrev pub fixed : Float
fixed = record {
  Carrier = ℤ;
  of_int = from_int;
  lit = λ n k. pos (n * one / 10 ^ k);
  trunc = truncate;
  add = ◌+ℤ◌;
  sub = ◌-ℤ◌;
  mul = times;
  div = over;
  abs = abs;
  lt = ltb_ℤ;
  le = leb_ℤ;
}

neg-le : (a b : ℕ) → neg a ≤ℤ pos b
neg-le a b = ground arith

quotient-le : (x m : ℕ) → one ≤ m → x ≤ one → x * one / m ≤ one
quotient-le x m h k =
    div-le_of_le-mul m (
      grind (arith, mul-le-mul {n₁ = x} {m₁ = one} {n₂ = m} {m₂ = one} (omega arith) (omega arith)))

scaled-le : (n x : ℕ) → x ≤ one → n * one * x / one / one ≤ n
scaled-le n x k =
    let fits : n * one * x ≤ n * one * one = mul-le-mul_left (n * one) k in omega arith

fixed-div_le :
    (x m : ℤ)
    → leb_ℤ (pos one) m ≡ true
    → leb_ℤ (pos 0) x ≡ true
    → leb_ℤ x (pos one) ≡ true
    → (leb_ℤ (pos 0) (over x m) ≡ true) × (leb_ℤ (over x m) (pos one) ≡ true)
fixed-div_le x (negsuc m) h j k = absurd (ground arith)
fixed-div_le (pos x) (pos m) h j k = (ground arith, ground (arith, quotient-le x m))
fixed-div_le (negsuc x) (pos m) h j k = absurd (ground arith)

fixed-trunc_mul_le :
    (n : ℕ) (x : ℤ) → leb_ℤ x (pos one) ≡ true → truncate (times (pos (n * one)) x) ≤ℤ pos n
fixed-trunc_mul_le n (pos x) h = ground (arith, scaled-le n x)
fixed-trunc_mul_le n (negsuc x) h = ground (arith, neg-le (n * one * suc x / one))

pub fixed-Shrinks : Shrinks fixed
fixed-Shrinks = record {
  zero_le_one = refl;
  one_le = refl;
  div_le = fixed-div_le;
  trunc_mul_le = λ n x small h k. fixed-trunc_mul_le n x k;
}
