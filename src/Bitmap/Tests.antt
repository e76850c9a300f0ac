-- ===== src/Bitmap/Tests.antt =====
-- Runs and instances of the theorems on bitmaps, over 40 bits in two words.
use cs140_w.Prelude.{ℕ, ◌≡◌, refl, true, false, Option, none, some, List, [], ◌∷◌, arith}
use cs140_w.Bitmap.{
  Bitmap, mark, reset, set_bit, test, set_multiple, set_loop, contains, contains_loop, scan,
  scan_loop, scan_and_flip, bitmap_error,
}
use cs140_w.Bitmap.Valid.{get, Represents, Yields, update}
use cs140_w.Bitmap.Single.{set_bit-Yields, test-eq}
use cs140_w.Bitmap.Scan.{Scanned, Flipped, scan-Scanned, scan_and_flip-Flipped}

-- Bits 0, 2 and 32 are set.
abbrev forty : Bitmap
forty = record { bit_cnt = 40; bits = 5 ∷ 1 ∷ [] }

forty-Represents : Represents forty 40 (get forty)
forty-Represents = record { valid = omega arith; size = refl; digits = λ j. refl }

bits_of : Option (ℕ × Bitmap) → ℕ × List ℕ
bits_of none = (0, [])
bits_of (some (i, b)) = (i, b.bits)

-- The first two clear bits in a row are 3 and 4.
scan_two : bits_of (scan_and_flip forty 0 2 false) ≡ (3, 29 ∷ 1 ∷ [])
unfolding bits_of scan_and_flip scan scan_loop contains contains_loop set_multiple set_loop set_bit
    mark reset test
scan_two = refl

-- A group across the two words.
scan_twelve : bits_of (scan_and_flip forty 25 5 false) ≡ (25, 1040187397 ∷ 1 ∷ [])
unfolding bits_of scan_and_flip scan scan_loop contains contains_loop set_multiple set_loop set_bit
    mark reset test
scan_twelve = refl

scan_fails : scan forty 0 33 false ≡ some bitmap_error
unfolding scan scan_loop contains contains_loop test
scan_fails = refl

set_bit-Yields_example : Yields (set_bit forty 33 true) 40 (update (get forty) 33 true)
set_bit-Yields_example = set_bit-Yields forty-Represents 33 (omega arith) true

test-eq_example : test forty 32 ≡ some (get forty 32)
test-eq_example = test-eq forty-Represents 32 (omega arith)

scan-Scanned_example :
    (idx : ℕ) × (scan forty 0 2 false ≡ some idx) × Scanned (get forty) 40 0 2 false idx
scan-Scanned_example = scan-Scanned forty-Represents 0 2 false (omega arith)

scan_and_flip-Flipped_example :
    (idx : ℕ) × (b' : Bitmap) × (scan_and_flip forty 0 2 false ≡ some (idx, b'))
    × Flipped forty-Represents 0 2 false idx b'
scan_and_flip-Flipped_example = scan_and_flip-Flipped forty-Represents 0 2 false (omega arith)
