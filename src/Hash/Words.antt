-- ===== src/Hash/Words.antt =====
-- The number of buckets that `rehash` rounds down to, and the index that a mask gives.
use Prim.Native.Nat.{bit_and}
use cs140_w.Prelude.{ℕ, zero, suc, ◌+◌, ◌-◌, ◌/◌, ◌≤◌, ◌≡◌, ◌==◌, some, arith, Bool-cases, inl, inr}
use cs140_w.Bits.{bit_and-low}
use cs140_w.Hash.{turn_off_least_1bit, is_power_of_2, round_loop, ideal_cnt}

and-le_fuel : (n a b : ℕ) → a + b ≤ n → bit_and a b ≤ b
and-le_fuel zero zero zero h = omega arith
and-le_fuel zero zero (suc b) h = absurd (omega arith)
and-le_fuel zero (suc a) b h = absurd (omega arith)
and-le_fuel (suc n) zero zero h = omega arith
and-le_fuel (suc n) zero (suc b) h =
    omega (arith, bit_and-low 0 (suc b), and-le_fuel n (0 / 2) (suc b / 2) (omega arith))
and-le_fuel (suc n) (suc a) b h =
    omega (arith, bit_and-low (suc a) b, and-le_fuel n (suc a / 2) (b / 2) (omega arith))

pub and-le : (a b : ℕ) → bit_and a b ≤ b
and-le a b = and-le_fuel (a + b) a b (omega arith)

-- The rounding loop ends within as many rounds as the number that it starts with.
round_loop-Some : (fuel x : ℕ) → 1 ≤ x → x ≤ fuel → (c : ℕ) × (round_loop fuel x ≡ some c) × (1 ≤ c)
unfolding round_loop is_power_of_2 turn_off_least_1bit
round_loop-Some zero x h k = absurd (omega arith)
round_loop-Some (suc fuel) x h k = elim (Bool-cases (bit_and x (x - 1) == 0)) [
  | inl done ↦ (x, ground (arith), h)
  | inr more ↦
      let (c, e, pos) =
        round_loop-Some fuel (bit_and x (x - 1)) (ground arith) (omega (arith, and-le x (x - 1))) in
      (c, ground (arith, e), pos)
]

pub ideal-rounded :
    (elem_cnt : ℕ)
    → (c : ℕ) × (round_loop (ideal_cnt elem_cnt) (ideal_cnt elem_cnt) ≡ some c) × (1 ≤ c)
ideal-rounded elem_cnt =
    round_loop-Some (ideal_cnt elem_cnt) (ideal_cnt elem_cnt) (ground arith) (omega arith)
