-- ===== src/Bitmap/Valid.antt =====
-- What a bitmap stands for: `n` bits given by a function. The operations on one bit against it.
use cs140_w.Prelude.{
  ℕ, ◌+◌, ◌/◌, ◌%◌, ◌^◌, ◌≤◌, ◌<◌, ◌≡◌, ap, ◌∙◌, ◌==◌, Bool, if◌then◌else◌, Option, some, length,
  get_elem?, get_or, set, arith, ℕ_discrete, length-set, get_elem?-eq-get_or, get_or-set_self,
  get_or-set_ne,
}
use cs140_w.Bits.{bit}
use cs140_w.Bitmap.{Bitmap, elem_bits, elem_idx, elem_cnt, update_word}

-- Bit `j` of the array of words.
abbrev pub get : Bitmap → ℕ → Bool
get b j = bit (get_or b.bits (elem_idx j) 0) (j % elem_bits)

-- There are exactly as many words as the bits need, and no `size_t` sum on indices wraps.
pub record IsValid (b : Bitmap) : Type 0 where
  pub words : length b.bits ≡ elem_cnt b.bit_cnt
  pub small : b.bit_cnt + elem_bits ≤ 2 ^ 32

-- `b` is an array of `n` bits whose bit `j` is `g j`.
pub record Represents (b : Bitmap) (n : ℕ) (g : ℕ → Bool) : Type 0 where
  pub valid : IsValid b
  pub size : b.bit_cnt ≡ n
  pub digits : (j : ℕ) → get b j ≡ g j

-- `b'` is an outcome of `m` that stands for `n` bits given by `g`.
abbrev pub Yields : Option Bitmap → ℕ → (ℕ → Bool) → Type 0
Yields m n g = (b' : Bitmap) × (m ≡ some b') × Represents b' n g

abbrev pub update : (ℕ → Bool) → ℕ → Bool → ℕ → Bool
update g idx v j = if idx == j then v else g j

-- Two bits in one word differ in their place.
bit-place : (i j : ℕ) → i / 32 ≡ j / 32 → ((i % 32) == (j % 32)) ≡ (i == j)
bit-place i j e = ground arith

module _ {b : Bitmap} {n : ℕ} {g : ℕ → Bool} (r : Represents b n g) (idx : ℕ)
    (inside : idx < n) where
  pub word_inside : elem_idx idx < length b.bits
  word_inside = let v = r.valid in omega (arith, r.size, v.words, v.small)

  abbrev pub word : ℕ
  word = get_or b.bits (elem_idx idx) 0

  -- An update of the word that changes digit `idx % 32` to `d` and no other digit.
  pub update_word-Yields :
      (f : ℕ → ℕ) (d : Bool)
      → ((k : ℕ) → k < 32 → bit (f word) k ≡ (if (idx % 32) == k then d else bit word k))
      → Yields (update_word b (elem_idx idx) f) n (update g idx d)
  update_word-Yields f d changes = (b', found, record { valid = v'; size = r.size; digits = ds })
    where
      b' : Bitmap
      b' = record b { bits = set b.bits (elem_idx idx) (f word) }

      found : update_word b (elem_idx idx) f ≡ some b'
      found = rw (get_elem?-eq-get_or b.bits (elem_idx idx) 0 word_inside)

      v' : IsValid b'
      v' =
          let v = r.valid in
          record { words = length-set b.bits (elem_idx idx) (f word) ∙ v.words; small = v.small }

      ds : (j : ℕ) → get b' j ≡ update g idx d j
      ds j = elim (ℕ_discrete (elem_idx idx) (elem_idx j)) [
        | yes e ↦ ground (
          arith,
          ap (λ i. get_or (set b.bits (elem_idx idx) (f word)) i 0) e,
          get_or-set_self b.bits (elem_idx idx) (f word) 0 word_inside,
          ap (λ i. get_or b.bits i 0) e,
          changes (j % 32) (omega arith),
          bit-place idx j e,
          r.digits j,
        )
        | no ne ↦
            ground
              (arith, get_or-set_ne b.bits (elem_idx idx) (elem_idx j) (f word) 0 ne, r.digits j)
      ]

  -- The same for a read.
  pub word_found : get_elem? b.bits (elem_idx idx) ≡ some word
  word_found = get_elem?-eq-get_or b.bits (elem_idx idx) 0 word_inside
