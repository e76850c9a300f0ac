-- ===== src/FixedPoint.antt =====
-- pintos/src/threads/fixed_point.c: numbers with 14 binary digits behind the point. C's `int` is an
-- unbounded integer here, with division that rounds towards zero.
-- Overflow is not modelled.
pub mod Rounding
use cs140_w.Prelude.{ℕ, zero, suc, ◌+◌, ◌*◌, ◌/◌, Bool, true, false, if◌then◌else◌}
use cs140_w.Prelude.Int.{ℤ, pos, negsuc, ◌+ℤ◌, ◌-ℤ◌, ◌*ℤ◌, ltb_ℤ}

-- `F`
abbrev pub one : ℕ
one = 16384

-- -n
abbrev pub minus : ℕ → ℤ
minus zero = pos 0
minus (suc n) = negsuc n

-- `a / n` of C, for a positive `n`.
unfoldable pub quotient : ℤ → ℕ → ℤ
quotient (pos a) n = pos (a / n)
quotient (negsuc a) n = minus (suc a / n)

-- `a / b` of C, for `b` other than 0.
unfoldable pub quotient_ℤ : ℤ → ℤ → ℤ
quotient_ℤ a (pos n) = quotient a n
quotient_ℤ a (negsuc n) = pos 0 -ℤ quotient a (suc n)

unfoldable pub fp_to_int_nearest : ℤ → ℤ
fp_to_int_nearest x =
    if ltb_ℤ x (pos 0) then quotient (x -ℤ pos (one / 2)) one else quotient (x +ℤ pos (one / 2)) one

unfoldable pub fp_to_int_zero : ℤ → ℤ
fp_to_int_zero x = quotient x one

unfoldable pub int_to_fp : ℤ → ℤ
int_to_fp n = n *ℤ pos one

unfoldable pub add_fp_fp : ℤ → ℤ → ℤ
add_fp_fp x y = x +ℤ y

unfoldable pub add_fp_int : ℤ → ℤ → ℤ
add_fp_int x n = x +ℤ n *ℤ pos one

unfoldable pub multiply_fp_fp : ℤ → ℤ → ℤ
multiply_fp_fp x y = quotient (x *ℤ y) one

unfoldable pub multiply_fp_int : ℤ → ℤ → ℤ
multiply_fp_int x n = x *ℤ n

unfoldable pub divide_fp_fp : ℤ → ℤ → ℤ
divide_fp_fp x y = quotient_ℤ (x *ℤ pos one) y

unfoldable pub divide_fp_int : ℤ → ℤ → ℤ
divide_fp_int x n = quotient_ℤ x n
