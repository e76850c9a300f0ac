-- ===== src/FixedPoint/Rounding.antt =====
-- How the conversions to integers round.
use cs140_w.Prelude.{ℕ, zero, suc, ◌/◌, ◌≤◌, ◌≡◌, refl, arith}
use cs140_w.Prelude.Int.{ℤ, pos, negsuc, pos_part, neg_part, ◌+ℤ◌, ◌-ℤ◌, ◌*ℤ◌, ◌≤ℤ◌}
use native.Mathlib.Nat.{le-div_iff_mul-le, mul-div-le}
use cs140_w.FixedPoint.{one, minus, quotient, fp_to_int_nearest, fp_to_int_zero, int_to_fp}

-- An integer made a fixed point number comes back under both conversions to an integer.
pub fp_to_int-int_to_fp :
    (n : ℤ) → (fp_to_int_zero (int_to_fp n) ≡ n) × (fp_to_int_nearest (int_to_fp n) ≡ n)
unfolding fp_to_int_zero fp_to_int_nearest int_to_fp quotient ◌*ℤ◌ ◌+ℤ◌ ◌-ℤ◌
fp_to_int-int_to_fp (pos n) = (ground arith, ground arith)
fp_to_int-int_to_fp (negsuc n) = (ground arith, ground arith)

-- The nearest integer of a fixed point number, made a fixed point number again, differs from it by
-- at most half a unit.
pub nearest_error :
    (x : ℤ)
    → let r = int_to_fp (fp_to_int_nearest x) in
      (r ≤ℤ x +ℤ pos (one / 2)) × (x ≤ℤ r +ℤ pos (one / 2))
unfolding fp_to_int_nearest int_to_fp quotient ◌*ℤ◌ ◌+ℤ◌ ◌-ℤ◌
nearest_error (pos n) = (ground arith, ground arith)
nearest_error (negsuc n) = (ground arith, ground arith)

div_mono : (a b n : ℕ) → a ≤ b → a / n ≤ b / n
div_mono a b zero h = omega arith
div_mono a b (suc n) h =
    (le-div_iff_mul-le {k = suc n} {x = a / suc n} {y = b} (omega arith)).1
      (omega (arith, mul-div-le a (suc n)))

minus_parts : (m : ℕ) → (pos_part (minus m) ≡ 0) × (neg_part (minus m) ≡ m)
minus_parts zero = (refl, refl)
minus_parts (suc m) = (refl, refl)

-- Rounding towards zero keeps the order.
pub quotient_mono : (a b : ℤ) (n : ℕ) → a ≤ℤ b → quotient a n ≤ℤ quotient b n
unfolding quotient
quotient_mono (pos a) (pos b) n h = omega (arith, div_mono a b n (omega arith))
quotient_mono (pos a) (negsuc b) n h = absurd (omega arith)
quotient_mono (negsuc a) (pos b) n h = omega (arith, minus_parts (suc a / n))
quotient_mono (negsuc a) (negsuc b) n h = omega (
  arith,
  minus_parts (suc a / n),
  minus_parts (suc b / n),
  div_mono (suc b) (suc a) n (omega arith),
)
