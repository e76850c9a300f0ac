-- ===== src/Bitmap/Single.antt =====
-- The functions on one bit: `bitmap_mark`, `bitmap_reset`, `bitmap_flip`, `bitmap_set` and
-- `bitmap_test`.
use Prim.Native.Nat.{bit_and, bit_or, bit_xor}
use cs140_w.Prelude.{ℕ, ◌-◌, ◌%◌, ◌^◌, ◌<◌, ◌≡◌, Bool, true, false, not, some, arith, lt→ltb}
use cs140_w.Bits.{bit-or, bit-and, bit-xor, bit-mask, bit-complement, masked, pow_mono}
use cs140_w.Bitmap.{Bitmap, elem_max, bit_mask, mark, reset, flip, set_bit, test}
use cs140_w.Bitmap.Valid.{Represents, Yields, update, word, update_word-Yields, word_found}

-- A mask of a 32-bit word fits in the word.
mask_fits : (k : ℕ) → 2 ^ (k % 32) < 2 ^ 32
mask_fits k = pow_mono (k % 32) 32 (omega arith)

module _ {b : Bitmap} {n : ℕ} {g : ℕ → Bool} (r : Represents b n g) (idx : ℕ)
    (inside : idx < n) where
  pub mark-Yields : Yields (mark b idx) n (update g idx true)
  unfolding mark
  mark-Yields =
      update_word-Yields r idx inside (λ w. bit_or w (bit_mask idx)) true
        λ k lt. ground (arith, bit-or k (word r idx inside) (bit_mask idx), bit-mask (idx % 32) k)

  pub reset-Yields : Yields (reset b idx) n (update g idx false)
  unfolding reset
  reset-Yields =
      update_word-Yields r idx inside (λ w. bit_and w (elem_max - bit_mask idx)) false
        λ k lt. ground (
          arith,
          bit-and k (word r idx inside) (elem_max - bit_mask idx),
          bit-complement 32 (bit_mask idx) k (mask_fits idx) lt,
          bit-mask (idx % 32) k,
        )

  -- For an index within a bitmap bitmap_flip, an exclusive or with a mask on one word, inverts that
  -- bit and leaves every other bit as it was.
  pub flip-Yields : Yields (flip b idx) n (update g idx (not (g idx)))
  unfolding flip
  flip-Yields =
      update_word-Yields r idx inside (λ w. bit_xor w (bit_mask idx)) (not (g idx))
        λ k lt.
          ground (
            arith,
            bit-xor k (word r idx inside) (bit_mask idx),
            bit-mask (idx % 32) k,
            r.digits idx,
          )

  pub set_bit-Yields : (v : Bool) → Yields (set_bit b idx v) n (update g idx v)
  unfolding set_bit
  set_bit-Yields true = rw (lt→ltb idx b.bit_cnt (omega (arith, r.size))) mark-Yields
  set_bit-Yields false = rw (lt→ltb idx b.bit_cnt (omega (arith, r.size))) reset-Yields

  pub test-eq : test b idx ≡ some (g idx)
  unfolding test
  test-eq =
      ground (
        arith,
        r.size,
        word_found r idx inside,
        masked (word r idx inside) (idx % 32),
        r.digits idx,
      )
