-- ===== src/Mlfqs/Tests.antt =====
-- Runs and instances of the theorems on the multi-level feedback queue.
use cs140_w.Prelude.{◌≡◌, refl}
use cs140_w.Prelude.Int.{pos, ◌-ℤ◌, ◌*ℤ◌}
use cs140_w.FixedPoint.{int_to_fp, fp_to_int_zero, quotient, quotient_ℤ, divide_fp_int}
use cs140_w.Mlfqs.{priority_of}

-- 63 - 10 / 4 - 2 * 2, cut towards 0.
worker_priority : priority_of (pos 163840) (pos 2) ≡ pos 56
unfolding priority_of fp_to_int_zero int_to_fp divide_fp_int quotient quotient_ℤ ◌-ℤ◌ ◌*ℤ◌
worker_priority = refl
