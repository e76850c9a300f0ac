-- ===== src/Cache/Endless.antt =====
-- `cache_insert` for sector -1, the value by which `byte_to_sector` says that a position lies beyond
-- the end of a file, and by which a block says that no change of its sector is under way.
use cs140_w.Prelude.{
  ℕ, zero, suc, ◌≡◌, ◌≢◌, refl, true, false, if◌then◌else◌, none, some, arith, Bool-cases, inl, inr,
}
use cs140_w.Cache.{
  Disk, Block, Cache, cache_size, no_sector, update, put, present, find_loop, settle, insert,
}

-- Block 0 is in use for a sector, and nobody reads or writes it: so it is from `cache_init` on.
pub record MapInUse (c : Cache) : Type 0 where
  pub in_use : (c.blocks 0).in_use ≡ true
  pub sector : (c.blocks 0).sector ≢ no_sector
  pub old_sector : (c.blocks 0).old_sector ≡ no_sector
  pub active_r_w : (c.blocks 0).active_r_w ≡ 0

finds_map : (c : Cache) → MapInUse c → find_loop cache_size c no_sector 0 none ≡ present 0
unfolding find_loop
finds_map c m = ground arith

settle-MapInUse :
    (c : Cache) (d : Disk)
    → MapInUse c
    → (c' : Cache) × (d' : Disk) × (settle 0 c d ≡ some (c', d')) × MapInUse c'
unfolding settle
settle-MapInUse c d m = elim (Bool-cases (c.blocks 0).io_needed) [
  | inr read ↦ (c, d, rw read refl, m)
  | inl unread ↦ (
    put c 0 b',
    d',
    rw (unread, m.active_r_w) refl,
    record { in_use = m.in_use; sector = m.sector; old_sector = refl; active_r_w = m.active_r_w },
  )
]
  where
    d' : Disk
    d' = if (c.blocks 0).dirty then update d (c.blocks 0).old_sector (c.blocks 0).contents else d

    b' : Block
    b' = record (c.blocks 0) {
      contents = d' (c.blocks 0).sector;
      old_sector = no_sector;
      io_needed = false;
      accessed = false;
      dirty = false;
    }

-- While block 0 is in use for a sector other than -1, with no change of sector under way and no
-- reader or writer, cache_insert for sector -1 returns after no number of rounds.
pub insert-no_sector :
    (fuel : ℕ) (c : Cache) (d : Disk) → MapInUse c → insert fuel c d no_sector ≡ none
unfolding insert
insert-no_sector zero c d m = refl
insert-no_sector (suc fuel) c d m =
    let (c', d', e, m') = settle-MapInUse c d m in
    ground (arith, finds_map c m, e, m'.sector, insert-no_sector fuel c' d' m')
