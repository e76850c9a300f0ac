-- ===== src/Cache/Insert.antt =====
-- `cache_insert` returns a block that holds the sector, and changes what no sector holds.
use cs140_w.Prelude.{
  ℕ, suc, ◌≤◌, ◌<◌, ◌≡◌, ◌≢◌, refl, ap, ◌∙◌, sym, true, false, if◌then◌else◌, none, some, arith,
  Bool-cases, inl, inr,
}
use cs140_w.Cache.{
  Contents, Disk, Block, Cache, cache_size, no_sector, update, put, claim, choose, Found, present,
  absent, find_loop, clock_fuel, settle, insert,
}
use cs140_w.Cache.Clock.{Aged, run_clock-Victim, pending-le}
use cs140_w.Cache.Find.{Has, FindSpec, find_loop-FindSpec}
use cs140_w.Cache.Quiet.{Quiet, Cached, Holds, Loaded, Loaded-Cached, Loaded-Quiet, Loaded-Holds}

-- Block `i` of `c1` is the one of `c`, claimed for sector `s`.
record Claimed (c : Cache) (s i : ℕ) (c1 : Cache) : Type 0 where
  in_range : i < cache_size
  contents : (c1.blocks i).contents ≡ (c.blocks i).contents
  dirty : (c1.blocks i).dirty ≡ (c.blocks i).dirty
  io_needed : (c1.blocks i).io_needed ≡ true
  in_use : (c1.blocks i).in_use ≡ true
  sector : (c1.blocks i).sector ≡ s
  active_r_w : (c1.blocks i).active_r_w ≡ 0
  old_sector : (c.blocks i).dirty ≡ true → (c1.blocks i).old_sector ≡ (c.blocks i).sector
  others : (k : ℕ) → i ≢ k → Aged (c.blocks k) (c1.blocks k)
  alone : (k : ℕ) → k < cache_size → i ≢ k → (c.blocks k).in_use ≡ true → (c.blocks k).sector ≢ s
  fresh : ¬ Cached c s i

module _ {c : Cache} {s i : ℕ} {c1 : Cache} (d : Disk) (l : Claimed c s i c1) where
  disk_after : Disk
  disk_after =
      if (c1.blocks i).dirty then update d (c1.blocks i).old_sector (c1.blocks i).contents else d

  block_after : Block
  block_after = record (c1.blocks i) {
    contents = disk_after (c1.blocks i).sector;
    old_sector = no_sector;
    io_needed = false;
    accessed = false;
    dirty = false;
  }

  disk_after-eq :
      disk_after
      ≡ (if (c.blocks i).dirty then update d (c.blocks i).sector (c.blocks i).contents else d)
  unfolding disk_after
  disk_after-eq = elim (Bool-cases (c.blocks i).dirty) [
    | inl dirty ↦ rw (l.dirty, dirty, l.contents, l.old_sector dirty)
    | inr clean ↦ rw (l.dirty, clean)
  ]

  settle-eq : settle i c1 d ≡ some (put c1 i block_after, disk_after)
  unfolding settle block_after disk_after
  settle-eq = rw (l.io_needed, l.active_r_w)

  put-Loaded : Loaded c d s i (put c1 i block_after) disk_after
  unfolding block_after
  put-Loaded = record {
    in_range = l.in_range;
    sector = ground (arith, l.sector);
    in_use = ground (arith, l.in_use);
    io_needed = ground arith;
    dirty = ground arith;
    old_sector = ground arith;
    active_r_w = ground (arith, l.active_r_w);
    contents = ground (arith, ap disk_after l.sector);
    others = λ k ne. let a = l.others k ne in ground arith;
    written = disk_after-eq;
    alone = l.alone;
    fresh = l.fresh;
  }

-- What a call of `cache_insert` for sector `s` comes back with.
pub record Fetched (c : Cache) (d : Disk) (s i : ℕ) (c' : Cache) (d' : Disk) : Type 0 where
  pub quiet : Quiet c' d'
  pub cached : Cached c' s i
  pub kept : (u : ℕ) (x : Contents) → Holds c d u x → Holds c' d' u x

abbrev pub Fetches : ℕ → Cache → Disk → ℕ → Type 0
Fetches fuel c d s =
    (i : ℕ) × (c' : Cache) × (d' : Disk) × (insert fuel c d s ≡ some (i, c', d'))
    × Fetched c d s i c' d'

module _ {c : Cache} {d : Disk} (q : Quiet c d) (s : ℕ) (valid : s ≢ no_sector) (fuel : ℕ) where
  search : Found
  search = find_loop cache_size c s 0 none

  -- A call that chooses a claimed block loads it.
  Claimed-Fetches :
      (i : ℕ) (c1 : Cache)
      → choose c s search ≡ some (i, c1)
      → Claimed c s i c1
      → Fetches (suc fuel) c d s
  unfolding insert search
  Claimed-Fetches i c1 e l =
      let loaded = put-Loaded d l in
      (
        i,
        put c1 i (block_after d l),
        disk_after d l,
        ground (arith, e, settle-eq d l, loaded.sector),
        record {
          quiet = Loaded-Quiet q loaded;
          cached = Loaded-Cached q loaded;
          kept = Loaded-Holds q loaded;
        },
      )

  Has-sector : (k : ℕ) → k < cache_size → Has c s k → (c.blocks k).sector ≡ s
  Has-sector k lt (used, inl e) = e
  Has-sector k lt (used, inr e) = absurd (valid (sym e ∙ q.settled k lt))

  present-Fetches :
      (k : ℕ) → search ≡ present k → k < cache_size → Has c s k → Fetches (suc fuel) c d s
  unfolding insert search settle
  present-Fetches k e lt has = elim (Bool-cases (c.blocks k).io_needed) [
    | inr loaded ↦ (
      k,
      c,
      d,
      ground (arith, e, loaded, Has-sector k lt has),
      record {
        quiet = q;
        cached = record {
          in_range = lt;
          used = has.0;
          loaded = loaded;
          of_sector = Has-sector k lt has;
        };
        kept = λ u x h. h;
      },
    )
    | inl unread ↦ Claimed-Fetches k c (rw e) (record {
      in_range = lt;
      contents = refl;
      dirty = refl;
      io_needed = unread;
      in_use = has.0;
      sector = Has-sector k lt has;
      active_r_w = q.idle k lt;
      old_sector = λ dirty. ground (arith, q.unread k lt unread);
      others = λ j ne. ground arith;
      alone = λ j lj ne used e2. ne (q.unique k j lt lj has.0 used (Has-sector k lt has ∙ sym e2));
      fresh = λ h. let l = h.loaded in ground arith;
    })
  ]

  vacant-Fetches :
      (i : ℕ)
      → search ≡ absent (some i)
      → i < cache_size
      → (c.blocks i).in_use ≡ false
      → ((k : ℕ) → 0 ≤ k → k < cache_size → ¬ Has c s k)
      → Fetches (suc fuel) c d s
  vacant-Fetches i e lt free missing = Claimed-Fetches i (claim c i s) (rw e) (record {
    in_range = lt;
    contents = ground arith;
    dirty = ground arith;
    io_needed = ground arith;
    in_use = ground arith;
    sector = ground arith;
    active_r_w = ground (arith, q.idle i lt);
    old_sector = λ dirty. ground (arith, q.empty i lt free);
    others = λ j ne. ground arith;
    alone = λ j lj ne used e2. missing j (omega arith) lj (used, inl e2);
    fresh = λ h. let u = h.used in ground arith;
  })

  evict-Fetches :
      search ≡ absent none
      → ((k : ℕ) → 0 ≤ k → k < cache_size → ((c.blocks k).in_use ≡ true) × ¬ Has c s k)
      → Fetches (suc fuel) c d s
  evict-Fetches e full =
      let (i, c1, ran, v) =
        run_clock-Victim clock_fuel c q.all_read (omega (arith, pending-le cache_size c.blocks)) in
      let a = v.aged i in
      let b = c1.blocks i in
      Claimed-Fetches i (claim (put c1 i (record b { old_sector = b.sector })) i s) (rw (e, ran))
        (record {
          in_range = v.in_range;
          contents = ground (arith, a);
          dirty = ground (arith, a);
          io_needed = ground arith;
          in_use = ground arith;
          sector = ground arith;
          active_r_w = ground (arith, a, q.idle i v.in_range);
          old_sector = λ dirty. ground (arith, a);
          others = λ j ne. let aj = v.aged j in ground (arith, aj);
          alone = λ j lj ne used e2. (full j (omega arith) lj).1 (used, inl e2);
          fresh = λ h. (full i (omega arith) v.in_range).1 (h.used, inl h.of_sector);
        })

  by_search : (r : Found) → search ≡ r → FindSpec c s 0 cache_size none r → Fetches (suc fuel) c d s
  by_search (present k) e (p, lt, has) = present-Fetches k e lt has
  by_search (absent none) e (p, full) = evict-Fetches e full
  by_search (absent (some i)) e (inl no_empty, missing) = cc
  by_search (absent (some i)) e (inr (p, lt, free), missing) = vacant-Fetches i e lt free missing

  -- From a quiet cache, and for a sector other than -1, cache_insert returns in its first round;
  -- the block returned is loaded with that sector, the cache is quiet again, and every sector still
  -- holds, in the cache or on the disk, the bytes that it held before.
  pub insert-Fetches : Fetches (suc fuel) c d s
  unfolding search
  insert-Fetches =
      by_search search refl (find_loop-FindSpec c s cache_size 0 cache_size none (omega arith))
