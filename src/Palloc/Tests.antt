-- ===== src/Palloc/Tests.antt =====
-- Instances of the theorems on the page allocator, with 40 pages in each pool.
use cs140_w.Prelude.{ℕ, ◌≡◌, ◌⊎◌, refl, true, false, some, [], ◌∷◌, arith}
use cs140_w.Bitmap.{Bitmap}
use cs140_w.Bitmap.Valid.{get, Represents}
use cs140_w.Bitmap.Ranges.{fill}
use cs140_w.Bitmap.Scan.{IsGroup}
use cs140_w.Palloc.{Flags, Allocator, memset, free_multiple}
use cs140_w.Palloc.Pools.{Apart, IsPool, replaced, Got, Refused, get_multiple-Got}
use cs140_w.Palloc.Release.{free_multiple-frees}

-- Pages 0 and 1 are in use.
abbrev pages_map : Bitmap
pages_map = record { bit_cnt = 40; bits = 3 ∷ 0 ∷ [] }

abbrev allocator : Allocator
allocator = record {
  kernel_pool = record { used_map = pages_map; base = 4096 };
  user_pool = record { used_map = pages_map; base = 409600 };
  memory = λ a. a;
}

abbrev for_user : Flags
for_user = record { pal_assert = false; pal_zero = true; pal_user = true }

pages_map-Represents : Represents pages_map 40 (get pages_map)
pages_map-Represents = record { valid = omega arith; size = refl; digits = λ j. refl }

user-IsPool : IsPool allocator.user_pool 40 (get pages_map)
user-IsPool = record { map = pages_map-Represents; aligned = refl; placed = omega arith }

allocator-Apart : Apart allocator 40 40 (get pages_map) (get pages_map)
allocator-Apart = record {
  kernel = record { map = pages_map-Represents; aligned = refl; placed = omega arith };
  user = user-IsPool;
  order = omega arith;
}

get_multiple-Got_example :
    Got for_user 3 allocator 40 (get pages_map) ⊎ Refused for_user 3 allocator 40 (get pages_map)
get_multiple-Got_example = get_multiple-Got allocator for_user user-IsPool 3 (omega arith)

two_used : IsGroup (get pages_map) 1 1 true
two_used j p q = at j (omega arith)
  where
    at : (j : ℕ) → j ≡ 1 → get pages_map j ≡ true
    at j e = rw e refl

free_multiple-frees_example :
    (b' : Bitmap) × (free_multiple 413696 1 allocator
      ≡ some (replaced true b' (memset allocator.memory 413696 204 4096) allocator))
    × Represents b' 40 (fill (get pages_map) 1 1 false)
free_multiple-frees_example =
    free_multiple-frees allocator allocator-Apart true 1 1 (omega arith) (omega arith) two_used
