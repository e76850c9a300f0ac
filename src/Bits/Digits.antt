-- ===== src/Bits/Digits.antt =====
-- Each digit of a word after `|`, `&`, `^` and `~`, and the digits of a mask `1 << k`.
use Prim.Native.Nat.{bit_and, bit_or, bit_xor, differ}
use native.Mathlib.Nat.{pow-suc}
use cs140_w.Prelude.{
  ℕ, zero, suc, ◌+◌, ◌-◌, ◌*◌, ◌/◌, ◌%◌, ◌^◌, ◌≤◌, ◌<◌, ◌==◌, ◌≡◌, ◌≢◌, refl, ◌∙◌, ap, Bool, true,
  false, not, ◌&&◌, ◌||◌, arith, Bool-cases, inl, inr, ℕ_discrete,
}
use cs140_w.Bits.Steps.{bit_or-low, bit_and-low, bit_xor-low}

abbrev pub bit : ℕ → ℕ → Bool
bit w zero = w % 2 == 1
bit w (suc k) = bit (w / 2) k

abbrev pub differs : Bool → Bool → Bool
differs a true = not a
differs a false = a

half-or : (a b : ℕ) → bit_or a b / 2 ≡ bit_or (a / 2) (b / 2)
half-or a b = omega (arith, bit_or-low a b)

half-and : (a b : ℕ) → bit_and a b / 2 ≡ bit_and (a / 2) (b / 2)
half-and a b = omega (arith, bit_and-low a b)

pub bit-or : (j a b : ℕ) → bit (bit_or a b) j ≡ bit a j || bit b j
bit-or zero a b = ground (arith, bit_or-low a b)
bit-or (suc j) a b = ap (λ w. bit w j) (half-or a b) ∙ bit-or j (a / 2) (b / 2)

pub bit-and : (j a b : ℕ) → bit (bit_and a b) j ≡ bit a j && bit b j
bit-and zero a b = ground (arith, bit_and-low a b)
bit-and (suc j) a b = ap (λ w. bit w j) (half-and a b) ∙ bit-and j (a / 2) (b / 2)

differ-digits :
    (x a b : ℕ) → a < 2 → b < 2 → (differ a b ≤ 1) × ((x * 2 + differ a b) % 2 ≡ (a + b) % 2)
differ-digits x zero b p q = omega arith
differ-digits x (suc zero) zero p q = omega arith
differ-digits x (suc zero) (suc zero) p q = omega arith
differ-digits x (suc zero) (suc (suc b)) p q = absurd (omega arith)
differ-digits x (suc (suc a)) b p q = absurd (omega arith)

half-xor : (a b : ℕ) → bit_xor a b / 2 ≡ bit_xor (a / 2) (b / 2)
half-xor a b = omega (
  arith,
  bit_xor-low a b,
  differ-digits (bit_xor (a / 2) (b / 2)) (a % 2) (b % 2) (omega arith) (omega arith),
)

pub bit-xor : (j a b : ℕ) → bit (bit_xor a b) j ≡ differs (bit a j) (bit b j)
bit-xor zero a b = ground (
  arith,
  bit_xor-low a b,
  differ-digits (bit_xor (a / 2) (b / 2)) (a % 2) (b % 2) (omega arith) (omega arith),
)
bit-xor (suc j) a b = ap (λ w. bit w j) (half-xor a b) ∙ bit-xor j (a / 2) (b / 2)

pub bit-zero : (j : ℕ) → bit 0 j ≡ false
bit-zero zero = refl
bit-zero (suc j) = bit-zero j

pub pow_pos : (k : ℕ) → 0 < 2 ^ k
pow_pos zero = omega arith
pow_pos (suc k) = omega (arith, pow-suc 2 k, pow_pos k)

pub pow_mono : (k n : ℕ) → k < n → 2 ^ k < 2 ^ n
pow_mono k zero h = absurd (omega arith)
pow_mono zero (suc n) h = omega (arith, pow-suc 2 n, pow_pos n)
pow_mono (suc k) (suc n) h = omega (arith, pow-suc 2 n, pow-suc 2 k, pow_mono k n (omega arith))

-- The mask `1 << k` has digit `k` and no other.
pub bit-mask : (k j : ℕ) → bit (2 ^ k) j ≡ (k == j)
bit-mask zero zero = refl
bit-mask zero (suc j) = bit-zero j ∙ ground arith
bit-mask (suc k) zero = ground (arith, pow-suc 2 k)
bit-mask (suc k) (suc j) =
    ap (λ w. bit w j) (omega (arith, pow-suc 2 k)) ∙ bit-mask k j ∙ ground arith

-- `~m` over `n` digits is `2 ^ n - 1 - m`.
pub bit-complement : (n m j : ℕ) → m < 2 ^ n → j < n → bit (2 ^ n - 1 - m) j ≡ not (bit m j)
bit-complement zero m j p q = absurd (omega arith)
bit-complement (suc n) m zero p q = ground (arith, pow-suc 2 n)
bit-complement (suc n) m (suc j) p q =
    ap (λ w. bit w j) (omega (arith, pow-suc 2 n))
    ∙ bit-complement n (m / 2) j (omega (arith, pow-suc 2 n)) (omega arith)

no_digits_below : (n w : ℕ) → w ≤ n → ((j : ℕ) → bit w j ≡ false) → w ≡ 0
no_digits_below zero w p h = omega arith
no_digits_below (suc n) w p h =
    ground (arith, h 0, no_digits_below n (w / 2) (omega arith) (λ j. h (suc j)))

digit_of_masked : (w k j : ℕ) → bit (bit_and w (2 ^ k)) j ≡ bit w j && (k == j)
digit_of_masked w k j = bit-and j w (2 ^ k) ∙ ap (λ d. bit w j && d) (bit-mask k j)

masked_clear : (w k : ℕ) → bit w k ≡ false → bit_and w (2 ^ k) ≡ 0
masked_clear w k clear = no_digits_below _ _ le_refl' (λ j. digit_of_masked w k j ∙ off j)
  where
    le_refl' : bit_and w (2 ^ k) ≤ bit_and w (2 ^ k)
    le_refl' = omega arith

    off : (j : ℕ) → bit w j && (k == j) ≡ false
    off j = elim (ℕ_discrete k j) [ yes e ↦ rw (← e, clear) | no ne ↦ ground arith ]

masked_set : (w k : ℕ) → bit w k ≡ true → bit_and w (2 ^ k) ≢ 0
masked_set w k on zeroed =
    ground (arith, digit_of_masked w k k, ap (λ v. bit v k) zeroed, bit-zero k)

-- A masked word is nonzero exactly when its digit is set.
pub masked : (w k : ℕ) → not (bit_and w (2 ^ k) == 0) ≡ bit w k
masked w k = elim (Bool-cases (bit w k)) [
  | inl on ↦ ground (arith, masked_set w k on)
  | inr off ↦ ground (arith, masked_clear w k off)
]
