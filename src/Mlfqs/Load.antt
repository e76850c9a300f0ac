-- ===== src/Mlfqs/Load.antt =====
-- The load average and the fading use of the processor stay within bounds.
use cs140_w.Prelude.{ℕ, ◌+◌, ◌*◌, ◌/◌, ◌≤◌, ◌≡◌, arith}
use native.Mathlib.Nat.{div-le_of_le-mul, mul-le-mul_right}
use cs140_w.Prelude.Int.{ℤ, pos, negsuc, ◌+ℤ◌, ◌*ℤ◌, ◌≤ℤ◌, int_laws}
use cs140_w.FixedPoint.{
  quotient, quotient_ℤ, int_to_fp, add_fp_int, multiply_fp_fp, multiply_fp_int, divide_fp_fp,
  divide_fp_int,
}
use cs140_w.Mlfqs.{Usage, next_load, coefficient, update_recent_cpu}

next_load-eq : (l r : ℕ) → next_load (pos l) r ≡ pos (16110 * l / 16384 + 273 * r)
unfolding next_load divide_fp_int multiply_fp_fp multiply_fp_int int_to_fp quotient quotient_ℤ ◌*ℤ◌
    ◌+ℤ◌
next_load-eq l r = ground arith

-- From a load average between 0 and a number of threads, and with at most that number of threads
-- ready, the next load average is between 0 and that number again.
pub next_load-bounds :
    (load_avg : ℤ) (ready bound : ℕ)
    → pos 0 ≤ℤ load_avg
    → load_avg ≤ℤ int_to_fp (pos bound)
    → ready ≤ bound
    → (pos 0 ≤ℤ next_load load_avg ready) × (next_load load_avg ready ≤ℤ int_to_fp (pos bound))
unfolding int_to_fp ◌*ℤ◌
next_load-bounds (pos l) ready bound h k r = ground (arith, next_load-eq l ready)
next_load-bounds (negsuc l) ready bound h k r = absurd (omega arith)

coefficient-eq : (l : ℕ) → coefficient (pos l) ≡ pos (l * 2 * 16384 / (l * 2 + 16384))
unfolding coefficient divide_fp_fp multiply_fp_int add_fp_int quotient_ℤ quotient ◌*ℤ◌ ◌+ℤ◌
coefficient-eq l = ground arith

-- l * 2 * 16384 / (l * 2 + 16384) is at most 16384.
factor_small : (l : ℕ) → l * 2 * 16384 / (l * 2 + 16384) ≤ 16384
factor_small l = div-le_of_le-mul (l * 2 + 16384) (omega arith)

faded : (c r : ℕ) → c ≤ 16384 → c * r / 16384 ≤ r
faded c r h = div-le_of_le-mul 16384 (mul-le-mul_right r h)

product :
    (l r : ℤ)
    → pos 0 ≤ℤ l
    → pos 0 ≤ℤ r
    → (pos 0 ≤ℤ multiply_fp_fp (coefficient l) r) × (multiply_fp_fp (coefficient l) r ≤ℤ r)
unfolding multiply_fp_fp quotient ◌*ℤ◌
product (pos l) (pos r) p q =
    rw (coefficient-eq l)
      (ground arith, ground (arith, faded (l * 2 * 16384 / (l * 2 + 16384)) r (factor_small l)))
product (negsuc l) r p q = absurd (omega arith)
product (pos l) (negsuc r) p q = absurd (omega arith)

-- With a load average that is not negative, what a thread used of the processor lately, if that is
-- not negative, does not grow by fading: the new value is at least the nice value of the thread,
-- and at most that and the old value.
pub update_recent_cpu-fades :
    (load_avg : ℤ) (t : Usage)
    → pos 0 ≤ℤ load_avg
    → pos 0 ≤ℤ t.recent_cpu
    → (int_to_fp t.nice ≤ℤ (update_recent_cpu load_avg t).recent_cpu)
      × ((update_recent_cpu load_avg t).recent_cpu ≤ℤ t.recent_cpu +ℤ int_to_fp t.nice)
unfolding update_recent_cpu add_fp_int int_to_fp
update_recent_cpu-fades load_avg t h k =
    let (lo, hi) = product load_avg t.recent_cpu h k in (omega int_laws, omega int_laws)
