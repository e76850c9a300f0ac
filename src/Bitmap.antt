-- ===== src/Bitmap.antt =====
-- pintos/src/lib/kernel/bitmap.c: an array of bits packed into 32-bit words (`unsigned long` of the
-- 80x86 target). Each function of the file is a definition of the same name without the prefix
-- `bitmap_`; a failed ASSERT, and an access beyond the words, is `none`. Memory that malloc returns
-- and the file that `read` and `write` use are arguments.
pub mod Valid
pub mod Single
pub mod Ranges
pub mod Scan
pub mod Storage
mod Tests
use Prim.Native.Nat.{bit_and, bit_or, bit_xor}
use cs140_w.Prelude.{
  ℕ, zero, suc, ◌+◌, ◌-◌, ◌*◌, ◌/◌, ◌%◌, ◌^◌, ◌≡◌, ◌==◌, ltb, leb, Bool, true, false, not, ◌||◌,
  if◌then◌else◌, Option, none, some, List, length, get_elem?, set, replicate, ◌>>=◌, ◌>>◌, assert,
}

-- Bits of `elem_type`.
abbrev pub elem_bits : ℕ
elem_bits = 32

-- The largest `elem_type`, all ones.
abbrev pub elem_max : ℕ
elem_max = 2 ^ 32 - 1

-- `size_t` addition.
abbrev pub add_size : ℕ → ℕ → ℕ
add_size a b = (a + b) % 2 ^ 32

-- SIZE_MAX
abbrev pub bitmap_error : ℕ
bitmap_error = 2 ^ 32 - 1

pub record Bitmap : Type 0 where
  pub bit_cnt : ℕ
  pub bits : List ℕ

abbrev pub elem_idx : ℕ → ℕ
elem_idx bit_idx = bit_idx / elem_bits

abbrev pub bit_mask : ℕ → ℕ
bit_mask bit_idx = 2 ^ (bit_idx % elem_bits)

-- DIV_ROUND_UP (bit_cnt, ELEM_BITS), whose sum wraps.
abbrev pub elem_cnt : ℕ → ℕ
elem_cnt bit_cnt = add_size bit_cnt (elem_bits - 1) / elem_bits

abbrev pub byte_cnt : ℕ → ℕ
byte_cnt bit_cnt = 4 * elem_cnt bit_cnt

abbrev pub last_mask : Bitmap → ℕ
last_mask b = if b.bit_cnt % elem_bits == 0 then elem_max else 2 ^ (b.bit_cnt % elem_bits) - 1

-- One `orl`, `andl` or `xorl` on the word of a bit: a read and a write, `none` beyond the words.
abbrev pub update_word : Bitmap → ℕ → (ℕ → ℕ) → Option Bitmap
update_word b idx f = get_elem? b.bits idx >>= λ w. some (record b { bits = set b.bits idx (f w) })

unfoldable pub mark : Bitmap → ℕ → Option Bitmap
mark b bit_idx = update_word b (elem_idx bit_idx) (λ w. bit_or w (bit_mask bit_idx))

unfoldable pub reset : Bitmap → ℕ → Option Bitmap
reset b bit_idx = update_word b (elem_idx bit_idx) (λ w. bit_and w (elem_max - bit_mask bit_idx))

unfoldable pub flip : Bitmap → ℕ → Option Bitmap
flip b bit_idx = update_word b (elem_idx bit_idx) (λ w. bit_xor w (bit_mask bit_idx))

unfoldable pub set_bit : Bitmap → ℕ → Bool → Option Bitmap
set_bit b idx value = do assert (ltb idx b.bit_cnt); if value then mark b idx else reset b idx

unfoldable pub test : Bitmap → ℕ → Option Bool
test b idx = do
  assert (ltb idx b.bit_cnt)
  w ← get_elem? b.bits (elem_idx idx)
  some (not (bit_and w (bit_mask idx) == 0))

-- The ASSERTs on START and CNT that the functions on ranges share.
abbrev pub assert_range : Bitmap → ℕ → ℕ → Option (Unit {0})
assert_range b start cnt = do
  assert (leb start b.bit_cnt)
  assert (leb (add_size start cnt) b.bit_cnt)

-- The loop of `bitmap_set_multiple`, `n` rounds from bit `i` on.
pub set_loop : ℕ → Bitmap → ℕ → Bool → Option Bitmap
set_loop zero b i value = some b
set_loop (suc n) b i value = set_bit b i value >>= λ b'. set_loop n b' (add_size i 1) value

unfoldable pub set_multiple : Bitmap → ℕ → ℕ → Bool → Option Bitmap
unfolding set_loop
set_multiple b start cnt value = assert_range b start cnt >> set_loop cnt b start value

unfoldable pub set_all : Bitmap → Bool → Option Bitmap
set_all b value = set_multiple b 0 b.bit_cnt value

-- `a == b` on `bool`.
abbrev pub same : Bool → Bool → Bool
same a true = a
same a false = not a

-- The loop of `bitmap_count`.
pub count_loop : ℕ → Bitmap → ℕ → Bool → ℕ → Option ℕ
count_loop zero b i value value_cnt = some value_cnt
count_loop (suc n) b i value value_cnt = test b i >>= λ v.
    count_loop n b (add_size i 1) value (if same v value then value_cnt + 1 else value_cnt)

unfoldable pub count : Bitmap → ℕ → ℕ → Bool → Option ℕ
unfolding count_loop
count b start cnt value = assert_range b start cnt >> count_loop cnt b start value 0

-- The loop of `bitmap_contains`.
pub contains_loop : ℕ → Bitmap → ℕ → Bool → Option Bool
contains_loop zero b i value = some false
contains_loop (suc n) b i value = test b i >>= λ v.
    (let rest = contains_loop n b (add_size i 1) value in if same v value then some true else rest)

unfoldable pub contains : Bitmap → ℕ → ℕ → Bool → Option Bool
unfolding contains_loop
contains b start cnt value = assert_range b start cnt >> contains_loop cnt b start value

unfoldable pub any : Bitmap → ℕ → ℕ → Option Bool
any b start cnt = contains b start cnt true

unfoldable pub none_set : Bitmap → ℕ → ℕ → Option Bool
none_set b start cnt = contains b start cnt true >>= λ v. some (not v)

unfoldable pub all : Bitmap → ℕ → ℕ → Option Bool
all b start cnt = contains b start cnt false >>= λ v. some (not v)

-- The loop of `bitmap_scan`, `n` rounds from `i` on.
pub scan_loop : ℕ → Bitmap → ℕ → ℕ → Bool → Option ℕ
scan_loop zero b i cnt value = some bitmap_error
scan_loop (suc n) b i cnt value = contains b i cnt (not value) >>= λ found.
    (let rest = scan_loop n b (add_size i 1) cnt value in if found then rest else some i)

-- `i` runs from START to `last` and stops there, so there are `last + 1 - START` rounds.
unfoldable pub scan : Bitmap → ℕ → ℕ → Bool → Option ℕ
unfolding scan_loop
scan b start cnt value = do
  assert (leb start b.bit_cnt)
  if leb cnt b.bit_cnt
      then scan_loop (b.bit_cnt - cnt + 1 - start) b start cnt value
      else some bitmap_error

unfoldable pub scan_and_flip : Bitmap → ℕ → ℕ → Bool → Option (ℕ × Bitmap)
scan_and_flip b start cnt value = do
  idx ← scan b start cnt value
  if idx == bitmap_error
      then some (idx, b)
      else (set_multiple b idx cnt (not value) >>= λ b'. some (idx, b'))
