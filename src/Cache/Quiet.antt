-- ===== src/Cache/Quiet.antt =====
-- The invariant of the cache between calls, what the cache and the disk together hold, and the
-- effect of loading a sector into a block.
use cs140_w.Prelude.{
  ℕ, ◌≤◌, ◌<◌, ◌≡◌, ◌≢◌, ◌⊎◌, refl, ap, ◌∙◌, sym, true, false, if◌then◌else◌, arith, Bool-cases,
  inl, inr, ℕ_discrete,
}
use mathlib.Core.Path.{subst}
use cs140_w.Cache.{Contents, Disk, Block, Cache, cache_size, no_sector, update, init}
use cs140_w.Cache.Clock.{Aged, AllRead}

-- Between calls: nobody uses a block, no change of sector is under way, no two blocks have one
-- sector, and a block that is not dirty agrees with the disk.
pub record Quiet (c : Cache) (d : Disk) : Type 0 where
  pub idle : (i : ℕ) → i < cache_size → (c.blocks i).active_r_w ≡ 0
  pub settled : (i : ℕ) → i < cache_size → (c.blocks i).old_sector ≡ no_sector
  pub all_read : AllRead c
  pub empty : (i : ℕ) → i < cache_size → (c.blocks i).in_use ≡ false → (c.blocks i).dirty ≡ false
  pub unread : (i : ℕ) → i < cache_size → (c.blocks i).io_needed ≡ true → (c.blocks i).dirty ≡ false
  pub clean :
      (i : ℕ)
      → i < cache_size
      → (c.blocks i).in_use ≡ true
      → (c.blocks i).io_needed ≡ false
      → (c.blocks i).dirty ≡ false
      → (c.blocks i).contents ≡ d (c.blocks i).sector
  pub unique :
      (i j : ℕ)
      → i < cache_size
      → j < cache_size
      → (c.blocks i).in_use ≡ true
      → (c.blocks j).in_use ≡ true
      → (c.blocks i).sector ≡ (c.blocks j).sector
      → i ≡ j

-- Block `i` holds the bytes of sector `s`.
pub record Cached (c : Cache) (s i : ℕ) : Type 0 where
  pub in_range : i < cache_size
  pub used : (c.blocks i).in_use ≡ true
  pub loaded : (c.blocks i).io_needed ≡ false
  pub of_sector : (c.blocks i).sector ≡ s

-- What a reader of sector `s` is to see: the block that holds it, or else the disk.
abbrev pub Holds : Cache → Disk → ℕ → Contents → Type 0
Holds c d s x =
    ((i : ℕ) × Cached c s i × ((c.blocks i).contents ≡ x))
    ⊎ (((i : ℕ) → ¬ Cached c s i) × (d s ≡ x))

-- `c'` and `d'` are `c` and `d` with sector `s` loaded into block `i`, whose old contents are
-- written back.
pub record Loaded (c : Cache) (d : Disk) (s i : ℕ) (c' : Cache) (d' : Disk) : Type 0 where
  pub in_range : i < cache_size
  pub sector : (c'.blocks i).sector ≡ s
  pub in_use : (c'.blocks i).in_use ≡ true
  pub io_needed : (c'.blocks i).io_needed ≡ false
  pub dirty : (c'.blocks i).dirty ≡ false
  pub old_sector : (c'.blocks i).old_sector ≡ no_sector
  pub active_r_w : (c'.blocks i).active_r_w ≡ 0
  pub contents : (c'.blocks i).contents ≡ d' s
  pub others : (k : ℕ) → i ≢ k → Aged (c.blocks k) (c'.blocks k)
  pub written :
      d' ≡ (if (c.blocks i).dirty then update d (c.blocks i).sector (c.blocks i).contents else d)
  pub alone :
      (k : ℕ) → k < cache_size → i ≢ k → (c.blocks k).in_use ≡ true → (c.blocks k).sector ≢ s
  pub fresh : ¬ Cached c s i

module _ {c : Cache} {d : Disk} (q : Quiet c d) where
  -- A dirty block holds its sector.
  pub dirty-Cached :
      (i : ℕ) → i < cache_size → (c.blocks i).dirty ≡ true → Cached c (c.blocks i).sector i
  dirty-Cached i lt dirty = record { in_range = lt; used = used; loaded = loaded; of_sector = refl }
    where
      used : (c.blocks i).in_use ≡ true
      used = ground (arith, q.empty i lt)

      loaded : (c.blocks i).io_needed ≡ false
      loaded = ground (arith, q.unread i lt)

module _ {c c' : Cache} {d d' : Disk} {s i : ℕ} (q : Quiet c d) (l : Loaded c d s i c' d') where
  -- Only the sector of a dirty block that is replaced changes on the disk.
  same_on_disk : (u : ℕ) → ((c.blocks i).dirty ≡ true → (c.blocks i).sector ≢ u) → d' u ≡ d u
  same_on_disk u other = ground (arith, ap (λ (f : Disk). f u) l.written)

  written_back : (c.blocks i).dirty ≡ true → d' (c.blocks i).sector ≡ (c.blocks i).contents
  written_back dirty = ground (arith, ap (λ (f : Disk). f (c.blocks i).sector) l.written)

  -- Another block in use has another sector than a dirty block that is replaced.
  not_replaced :
      (k : ℕ)
      → k < cache_size
      → i ≢ k
      → (c.blocks k).in_use ≡ true
      → (c.blocks i).dirty ≡ true
      → (c.blocks i).sector ≢ (c.blocks k).sector
  not_replaced k lt ne used dirty e =
      ne (q.unique i k l.in_range lt (dirty-Cached q i l.in_range dirty).used used e)

  Cached-other : (u k : ℕ) → i ≢ k → Cached c u k → Cached c' u k
  Cached-other u k ne h =
      let a = l.others k ne in
      record {
        in_range = h.in_range;
        used = a.in_use ∙ h.used;
        loaded = a.io_needed ∙ h.loaded;
        of_sector = a.sector ∙ h.of_sector;
      }

  Cached-before : (u k : ℕ) → i ≢ k → Cached c' u k → Cached c u k
  Cached-before u k ne h =
      let a = l.others k ne in
      record {
        in_range = h.in_range;
        used = sym a.in_use ∙ h.used;
        loaded = sym a.io_needed ∙ h.loaded;
        of_sector = sym a.sector ∙ h.of_sector;
      }

  pub Loaded-Cached : Cached c' s i
  Loaded-Cached = record {
    in_range = l.in_range;
    used = l.in_use;
    loaded = l.io_needed;
    of_sector = l.sector;
  }

  -- A block that is replaced and not dirty agreed with the disk, and a dirty one is written back.
  replaced : (u : ℕ) → Cached c u i → (c.blocks i).contents ≡ d' u
  replaced u h = elim (Bool-cases (c.blocks i).dirty) [
    | inl dirty ↦ sym (written_back dirty) ∙ ap d' h.of_sector
    | inr clean ↦
        q.clean i l.in_range h.used h.loaded clean
        ∙ ap d h.of_sector
        ∙ sym (same_on_disk u (λ dirty. cc))
  ]

  -- Loading a sector changes the contents of no sector.
  pub Loaded-Holds : (u : ℕ) (x : Contents) → Holds c d u x → Holds c' d' u x
  Loaded-Holds u x (inl (k, h, e)) = elim (ℕ_discrete i k) [
    | no ne ↦ inl (k, Cached-other u k ne h, (l.others k ne).contents ∙ e)
    | yes same ↦
        let h' : Cached c u i = rw (← same) at h in
        let e' : (c.blocks i).contents ≡ x = rw (← same) at e in
        inr (gone h', sym (replaced u h') ∙ e')
  ]
    where
      gone : Cached c u i → (j : ℕ) → ¬ Cached c' u j
      gone h' j h2 = elim (ℕ_discrete i j) [
        | yes e2 ↦ l.fresh (record {
          in_range = l.in_range;
          used = h'.used;
          loaded = h'.loaded;
          of_sector =
              h'.of_sector ∙ sym h2.of_sector ∙ ap (λ m. (c'.blocks m).sector) (sym e2) ∙ l.sector;
        })
        | no ne ↦
            let hb = Cached-before u j ne h2 in
            ne (
              q.unique i j l.in_range hb.in_range h'.used hb.used (h'.of_sector ∙ sym hb.of_sector))
      ]
  Loaded-Holds u x (inr (absent, e)) = elim (ℕ_discrete u s) [
    | yes same ↦ inl (i, rw same Loaded-Cached, l.contents ∙ sym (ap d' same) ∙ kept ∙ e)
    | no ne ↦ inr (still_absent ne, kept ∙ e)
  ]
    where
      kept : d' u ≡ d u
      kept = same_on_disk u λ dirty same. absent i (
          let h = dirty-Cached q i l.in_range dirty in
          record { in_range = l.in_range; used = h.used; loaded = h.loaded; of_sector = same })

      still_absent : u ≢ s → (j : ℕ) → ¬ Cached c' u j
      still_absent ne j h = elim (ℕ_discrete i j) [
        | yes e2 ↦ ne (sym h.of_sector ∙ ap (λ m. (c'.blocks m).sector) (sym e2) ∙ l.sector)
        | no other ↦ absent j (Cached-before u j other h)
      ]

  -- A property that block `i` has and aging keeps holds of each block.
  each :
      (P : ℕ → Block → Type 0)
      → P i (c'.blocks i)
      → ((k : ℕ) → k < cache_size → i ≢ k → P k (c'.blocks k))
      → (k : ℕ) → k < cache_size
      → P k (c'.blocks k)
  each P here there k lt = elim (ℕ_discrete i k) [
    | yes e ↦ subst (λ m. P m (c'.blocks m)) e here
    | no ne ↦ there k lt ne
  ]

  unique_after :
      (j k : ℕ)
      → j < cache_size
      → k < cache_size
      → (c'.blocks j).in_use ≡ true
      → (c'.blocks k).in_use ≡ true
      → (c'.blocks j).sector ≡ (c'.blocks k).sector
      → j ≡ k
  unique_after j k lj lk uj uk e = elim (ℕ_discrete i j) [
    | yes ej ↦ elim (ℕ_discrete i k) [
      | yes ek ↦ sym ej ∙ ek
      | no nk ↦
          let a = l.others k nk in
          absurd (
            l.alone k lk nk (sym a.in_use ∙ uk)
              (sym a.sector ∙ sym e ∙ ap (λ m. (c'.blocks m).sector) (sym ej) ∙ l.sector))
    ]
    | no nj ↦ elim (ℕ_discrete i k) [
      | yes ek ↦
          let a = l.others j nj in
          absurd (
            l.alone j lj nj (sym a.in_use ∙ uj)
              (sym a.sector ∙ e ∙ ap (λ m. (c'.blocks m).sector) (sym ek) ∙ l.sector))
      | no nk ↦
          let a = l.others j nj in
          let b = l.others k nk in
          q.unique j k lj lk (sym a.in_use ∙ uj) (sym b.in_use ∙ uk) (sym a.sector ∙ e ∙ b.sector)
    ]
  ]

  pub Loaded-Quiet : Quiet c' d'
  Loaded-Quiet = record {
    idle =
        each (λ k b. b.active_r_w ≡ 0) l.active_r_w
          (λ k lt ne. (l.others k ne).active_r_w ∙ q.idle k lt);
    settled =
        each (λ k b. b.old_sector ≡ no_sector) l.old_sector
          (λ k lt ne. (l.others k ne).old_sector ∙ q.settled k lt);
    all_read = λ k p lt.
        each (λ m b. 1 ≤ m → b.io_needed ≡ false) (λ _. l.io_needed)
          (λ m lm ne pm. (l.others m ne).io_needed ∙ q.all_read m pm lm) k lt p;
    empty =
        each (λ k b. b.in_use ≡ false → b.dirty ≡ false) (λ _. l.dirty)
          (λ k lt ne u. (l.others k ne).dirty ∙ q.empty k lt (sym (l.others k ne).in_use ∙ u));
    unread =
        each (λ k b. b.io_needed ≡ true → b.dirty ≡ false) (λ _. l.dirty)
          (λ k lt ne u. (l.others k ne).dirty ∙ q.unread k lt (sym (l.others k ne).io_needed ∙ u));
    clean =
        each
          (λ k b.
            b.in_use ≡ true → b.io_needed ≡ false → b.dirty ≡ false → b.contents ≡ d' b.sector)
          (λ _ _ _. l.contents ∙ ap d' (sym l.sector)) clean_other;
    unique = unique_after;
  }
    where
      clean_other :
          (k : ℕ)
          → k < cache_size
          → i ≢ k
          → (c'.blocks k).in_use ≡ true
          → (c'.blocks k).io_needed ≡ false
          → (c'.blocks k).dirty ≡ false
          → (c'.blocks k).contents ≡ d' (c'.blocks k).sector
      clean_other k lt ne u io cl =
          let a = l.others k ne in
          let u0 = sym a.in_use ∙ u in
          a.contents
          ∙ q.clean k lt u0 (sym a.io_needed ∙ io) (sym a.dirty ∙ cl)
          ∙ sym (same_on_disk _ (not_replaced k lt ne u0))
          ∙ ap d' (sym a.sector)

-- The cache that cache_init sets up is quiet with every disk.
pub init-Quiet : (zeros : Contents) (d : Disk) → Quiet (init zeros) d
unfolding init
init-Quiet zeros d = record {
  idle = λ i lt. ground arith;
  settled = λ i lt. ground arith;
  all_read = λ i p lt. ground arith;
  empty = λ i lt u. ground arith;
  unread = λ i lt u. ground arith;
  clean = λ i lt u r cl. ground arith;
  unique = λ i j li lj ui uj e. ground arith;
}

-- At first each sector holds what is on the disk.
pub init-Holds : (zeros : Contents) (d : Disk) (s : ℕ) → Holds (init zeros) d s (d s)
unfolding init
init-Holds zeros d s = inr (λ i h. let u = h.used in let l = h.loaded in ground arith, refl)
