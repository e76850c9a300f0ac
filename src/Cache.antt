-- ===== src/Cache.antt =====
-- pintos/src/filesys/cache.c: the buffer cache of 64 sectors and the free map between the inodes
-- and the disk. The disk is a function from sector numbers to contents. The model runs one thread:
-- the locks are free, and a wait for other readers or writers of a block (`cond_wait`) never ends,
-- which is `none`. `while (true)` takes fuel, and `none` means that it ran out.
pub mod Clock
pub mod Find
pub mod Quiet
pub mod Insert
pub mod Endless
pub mod Flush
mod Tests
use cs140_w.Prelude.{
  ℕ, zero, suc, ◌+◌, ◌-◌, ◌%◌, ◌^◌, ◌==◌, ltb, Bool, true, false, ◌&&◌, ◌||◌, if◌then◌else◌, Option,
  none, some, List, ◌>>=◌,
}

-- The bytes of a sector.
abbrev pub Contents : Type 0
Contents = List ℕ

abbrev pub Disk : Type 0
Disk = ℕ → Contents

-- `struct cached_block` without its lock and condition.
pub record Block : Type 0 where
  pub contents : Contents
  pub sector : ℕ
  pub old_sector : ℕ
  pub in_use : Bool
  pub active_r_w : ℕ
  pub accessed : Bool
  pub dirty : Bool
  pub io_needed : Bool

-- `block_cache` and `cache_hand`.
pub record Cache : Type 0 where
  pub blocks : ℕ → Block
  pub hand : ℕ

abbrev pub cache_size : ℕ
cache_size = 65

-- (block_sector_t) -1
abbrev pub no_sector : ℕ
no_sector = 2 ^ 32 - 1

abbrev pub update {ℓ} : {A : Type ℓ} → (ℕ → A) → ℕ → A → ℕ → A
update f i a j = if i == j then a else f j

abbrev pub put : Cache → ℕ → Block → Cache
put c i b = record c { blocks = update c.blocks i b }

-- A block of zeroed static storage after the loop of `cache_init`.
abbrev pub blank : Contents → Block
blank zeros = record {
  contents = zeros;
  sector = no_sector;
  old_sector = no_sector;
  in_use = false;
  active_r_w = 0;
  accessed = false;
  dirty = false;
  io_needed = false;
}

-- The state that `cache_init` sets up: block 0 is kept for sector 0, the free map.
unfoldable pub init : Contents → Cache
init zeros = record {
  blocks =
      update (λ _. blank zeros) 0
        (record (blank zeros) { sector = 0; in_use = true; io_needed = true });
  hand = 0;
}

abbrev pub next_hand : ℕ → ℕ
next_hand hand = (hand + 1) % (cache_size - 1) + 1

unfoldable pub run_clock : ℕ → Cache → Option (ℕ × Cache)
run_clock zero c = none
run_clock (suc fuel) c =
    let h = next_hand c.hand in
    let b = c.blocks h in
    let c' = record c { hand = h } in
    let skip = run_clock fuel c' in
    let spare = run_clock fuel (put c' h (record b { accessed = false })) in
    if b.accessed then spare else (if b.io_needed then skip else some (h, c'))

-- What the search of `cache_insert` through the blocks ends with: the block that has the sector, or
-- the last block not in use, if any.
pub data Found : Type 0 where
  present : ℕ → Found
  absent : Option ℕ → Found

-- The `for` loop of `cache_insert`, `n` rounds from block `i` on.
unfoldable pub find_loop : ℕ → Cache → ℕ → ℕ → Option ℕ → Found
find_loop zero c sector i empty = absent empty
find_loop (suc n) c sector i empty =
    let b = c.blocks i in
    let rest = find_loop n c sector (i + 1) (if b.in_use then empty else some i) in
    if b.in_use && (b.sector == sector || b.old_sector == sector) then present i else rest

-- Enough for the clock to pass every block with its accessed bit set, and one more.
abbrev pub clock_fuel : ℕ
clock_fuel = 66

abbrev pub claim : Cache → ℕ → ℕ → Cache
claim c i sector =
    put c i (record (c.blocks i) { sector = sector; io_needed = true; in_use = true })

-- The part of `cache_insert` under `cache_lock`: a block for the sector.
abbrev pub choose : Cache → ℕ → Found → Option (ℕ × Cache)
choose c sector (present i) = some (i, c)
choose c sector (absent (some i)) = some (i, claim c i sector)
choose c sector (absent none) = run_clock clock_fuel c >>= λ r.
    (let (i, c') = r in
      let b = c'.blocks i in
      some (i, claim (put c' i (record b { old_sector = b.sector })) i sector))

-- The part of `cache_insert` under the lock of the block: write back what it held, read the sector.
unfoldable pub settle : ℕ → Cache → Disk → Option (Cache × Disk)
settle i c d =
    let b = c.blocks i in
    let d' = if b.dirty then update d b.old_sector b.contents else d in
    let b' = record b {
      contents = d' b.sector;
      old_sector = no_sector;
      io_needed = false;
      accessed = false;
      dirty = false;
    } in
    if b.io_needed then (if b.active_r_w == 0 then some (put c i b', d') else none) else some (c, d)

unfoldable pub insert : ℕ → Cache → Disk → ℕ → Option (ℕ × Cache × Disk)
insert zero c d sector = none
insert (suc fuel) c d sector = choose c sector (find_loop cache_size c sector 0 none) >>= λ r.
    settle r.0 r.1 d >>= λ r'.
    (let again = insert fuel r'.0 r'.1 sector in
      if (r'.0.blocks r.0).sector == sector then some (r.0, r'.0, r'.1) else again)

-- The write-back of one block by `cache_flush`.
unfoldable pub flush_block : ℕ → Cache → Disk → Option (Cache × Disk)
flush_block i c d =
    let b = c.blocks i in
    if b.active_r_w == 0
    then (if b.in_use && b.dirty
        then some (
          put c i (record b { dirty = false }),
          update d (if b.io_needed then b.old_sector else b.sector) b.contents,
        )
        else some (c, d))
    else none

-- The loop of `cache_flush`, `n` rounds from block `i` on.
unfoldable pub flush_loop : ℕ → ℕ → Cache → Disk → Option (Cache × Disk)
flush_loop zero i c d = some (c, d)
flush_loop (suc n) i c d = flush_block i c d >>= λ r. flush_loop n (i + 1) r.0 r.1

unfoldable pub flush : Cache → Disk → Option (Cache × Disk)
flush c d = flush_loop cache_size 0 c d
