-- ===== src/Bits/Steps.antt =====
-- The native bit operations, one binary digit at a time: the fuel of their definition is dropped.
use Prim.Native.Nat.{
  bit_and, bit_or, bit_xor, digits, bitwise, differ, bit_and-bitwise, bit_or-bitwise,
  bit_xor-bitwise,
}
use cs140_w.Prelude.{ℕ, zero, suc, ◌+◌, ◌*◌, ◌/◌, ◌%◌, ◌≤◌, min, max, ◌≡◌, refl, arith}

module _ (rest : ℕ → ℕ) (op : ℕ → ℕ → ℕ) where
  -- More fuel than the first word changes nothing.
  digits-enough :
      (a b fuel more : ℕ) → a ≤ fuel → a ≤ more → digits rest op fuel a b ≡ digits rest op more a b
  digits-enough (suc a) b zero more enough also = absurd (omega arith)
  digits-enough (suc a) b (suc fuel) zero enough also = absurd (omega arith)
  digits-enough (suc a) b (suc fuel) (suc more) enough also =
      omega (arith, digits-enough (suc a / 2) (b / 2) fuel more (omega arith) (omega arith))
  digits-enough zero b (suc fuel) (suc more) enough also = refl
  digits-enough zero b (suc fuel) zero enough also = refl
  digits-enough zero b zero (suc more) enough also = refl
  digits-enough zero b zero zero enough also = refl

  low_digit :
      (word b : ℕ)
      → bitwise rest op (suc word) b
        ≡ op (suc word % 2) (b % 2) + bitwise rest op (suc word / 2) (b / 2) * 2
  low_digit word b =
      omega (
        arith,
        digits-enough (suc word / 2) (b / 2) word (suc word / 2) (omega arith) (omega arith),
      )

pub bit_or-low : (a b : ℕ) → bit_or a b ≡ bit_or (a / 2) (b / 2) * 2 + max (a % 2) (b % 2)
bit_or-low zero b = simp bit_or-bitwise (omega arith)
bit_or-low (suc a) b = simp bit_or-bitwise (omega (arith, low_digit (λ d. d) max a b))

pub bit_and-low : (a b : ℕ) → bit_and a b ≡ bit_and (a / 2) (b / 2) * 2 + min (a % 2) (b % 2)
bit_and-low zero b = simp bit_and-bitwise (omega arith)
bit_and-low (suc a) b = simp bit_and-bitwise (omega (arith, low_digit (λ d. 0) min a b))

pub bit_xor-low : (a b : ℕ) → bit_xor a b ≡ bit_xor (a / 2) (b / 2) * 2 + differ (a % 2) (b % 2)
bit_xor-low zero b = simp bit_xor-bitwise (omega arith)
bit_xor-low (suc a) b = simp bit_xor-bitwise (omega (arith, low_digit (λ d. d) differ a b))
