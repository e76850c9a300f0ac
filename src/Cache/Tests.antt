-- ===== src/Cache/Tests.antt =====
-- Runs and instances of the theorems on the cache.
use cs140_w.Prelude.{ℕ, ◌%◌, ◌≡◌, refl, true, false, Option, none, some, [], ◌∷◌, arith, ◌==◌}
use cs140_w.Cache.{
  Contents, Disk, Cache, no_sector, init, run_clock, insert, flush, find_loop, settle,
}
use cs140_w.Cache.Quiet.{Quiet, Holds, init-Quiet}
use cs140_w.Cache.Clock.{AllRead, Victim, run_clock-Victim, run_clock-even}
use cs140_w.Cache.Insert.{Fetches, insert-Fetches}
use cs140_w.Cache.Endless.{MapInUse, insert-no_sector}
use cs140_w.Cache.Flush.{flush-writes_back}

-- A disk whose sector `n` holds the one byte `n`.
abbrev numbered : Disk
numbered n = n ∷ []

abbrev start : Cache
start = init (0 ∷ [])

-- Every block of this cache is in use for its own sector, and all are read.
abbrev full : Cache
full = record {
  blocks = λ i. record {
    contents = i ∷ [];
    sector = i;
    old_sector = no_sector;
    in_use = true;
    active_r_w = 0;
    accessed = false;
    dirty = i == 2;
    io_needed = false;
  };
  hand = 0;
}

-- The block and the bytes that an insertion comes back with.
abbrev outcome : Option (ℕ × Cache × Disk) → Option (ℕ × Contents)
outcome none = none
outcome (some (i, c, d)) = some (i, (c.blocks i).contents)

-- The last free block, 64, is taken for sector 7.
insert_seven : outcome (insert 1 start numbered 7) ≡ some (64, 7 ∷ [])
unfolding insert find_loop settle init
insert_seven = refl

-- In the full cache block 2 gives way, and sector 2 is written back.
insert_hundred : outcome (insert 1 full numbered 100) ≡ some (2, 100 ∷ [])
unfolding insert find_loop settle run_clock
insert_hundred = refl

start-Quiet : Quiet start numbered
start-Quiet = init-Quiet (0 ∷ []) numbered

insert-Fetches_example : Fetches 1 start numbered 7
insert-Fetches_example = insert-Fetches start-Quiet 7 (omega arith) 0

start-MapInUse : MapInUse start
unfolding init
start-MapInUse = ground arith

insert-no_sector_example : insert 5 start numbered no_sector ≡ none
insert-no_sector_example = insert-no_sector 5 start numbered start-MapInUse

full-AllRead : AllRead full
full-AllRead i p lt = refl

run_clock-Victim_example :
    (i : ℕ) × (c' : Cache) × (run_clock 66 full ≡ some (i, c')) × Victim full i c'
run_clock-Victim_example = run_clock-Victim 66 full full-AllRead (omega arith)

run_clock-even_example : (2 % 2 ≡ 0) × (2 % 2 ≡ 0)
unfolding run_clock
run_clock-even_example = run_clock-even 1 full 2 (record full { hand = 2 }) (omega arith) refl

flush-writes_back_example :
    (c' : Cache) × (d' : Disk) × (flush start numbered ≡ some (c', d'))
    × Quiet c' d'
    × ((u : ℕ) (x : Contents) → Holds start numbered u x → d' u ≡ x)
flush-writes_back_example = flush-writes_back start-Quiet
