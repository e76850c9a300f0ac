-- ===== src/Swap/Tests.antt =====
-- Instances of the theorems on the swap device, of 40 slots.
use cs140_w.Prelude.{◌≡◌, refl, some, [], ◌∷◌, arith}
use cs140_w.Bitmap.{Bitmap}
use cs140_w.Bitmap
use cs140_w.Bitmap.Valid.{get, Represents}
use cs140_w.Swap.{allocate_slot}

-- Slots 0 and 1 are in use.
abbrev slots : Bitmap
slots = record { bit_cnt = 40; bits = 3 ∷ 0 ∷ [] }

abbrev with_two : Bitmap
with_two = record { bit_cnt = 40; bits = 7 ∷ 0 ∷ [] }

slots-Represents : Represents slots 40 (get slots)
slots-Represents = record { valid = omega arith; size = refl; digits = λ j. refl }

takes_two : allocate_slot slots ≡ some (2, with_two)
unfolding allocate_slot Bitmap.scan_and_flip Bitmap.scan Bitmap.set_multiple Bitmap.set_bit
    Bitmap.mark Bitmap.contains Bitmap.test
takes_two = refl
