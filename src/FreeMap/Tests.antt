-- ===== src/FreeMap/Tests.antt =====
-- Instances of the theorems on the free map, over 40 sectors and a file that is a number.
use cs140_w.Prelude.{
  ℕ, zero, suc, ◌+◌, ◌≡◌, refl, Bool, true, not, Option, some, [], ◌∷◌, arith, ◌==◌,
}
use cs140_w.Bitmap.{Bitmap}
use cs140_w.Bitmap.Valid.{get, Represents}
use cs140_w.Bitmap.Scan.{IsGroup}
use cs140_w.FreeMap.{FreeMap, allocate}
use cs140_w.FreeMap.Sectors.{Allocated, allocate-Allocated}

-- Sectors 0 and 1 are in use.
abbrev disk_map : FreeMap ℕ
disk_map = record { map = record { bit_cnt = 40; bits = 3 ∷ 0 ∷ [] }; file = some 5 }

-- A write that fails where the file is 5.
abbrev fails_at_five : Bitmap → ℕ → Bool × ℕ
fails_at_five b f = (not (f == 5), f + 1)

-- A write that succeeds.
abbrev writes : Bitmap → ℕ → Bool × ℕ
writes b f = (true, f)

disk_map-Represents : Represents disk_map.map 40 (get disk_map.map)
disk_map-Represents = record { valid = omega arith; size = refl; digits = λ j. refl }

allocate-Allocated_example :
    (out : Option ℕ) × (s' : FreeMap ℕ) × (allocate fails_at_five disk_map 2 ≡ some (out, s'))
    × Allocated fails_at_five (get disk_map.map) 40 2 disk_map.file out s'
allocate-Allocated_example = allocate-Allocated fails_at_five disk_map disk_map-Represents 2

two_used : IsGroup (get disk_map.map) 0 2 true
two_used zero p q = refl
two_used (suc zero) p q = refl
two_used (suc (suc j)) p q = absurd (omega arith)

not_three_used : ¬ IsGroup (get disk_map.map) 0 3 true
not_three_used h = let e = h 2 (omega arith) (omega arith) in cc
