-- ===== src/Cache/Flush.antt =====
-- `cache_flush` leaves the disk with what the sectors hold.
use cs140_w.Prelude.{
  ℕ, zero, suc, ◌+◌, ◌≤◌, ◌<◌, ◌≡◌, ◌≢◌, refl, ap, ◌∙◌, sym, true, false, some, arith, Bool-cases,
  inl, inr, ℕ_discrete,
}
use cs140_w.Cache.{Contents, Disk, Cache, cache_size, update, put, flush_block, flush_loop, flush}
use cs140_w.Cache.Quiet.{Quiet, Cached, Holds, dirty-Cached}

-- What one round of the loop does to block `i`.
record Flushed (c : Cache) (d : Disk) (i : ℕ) (c' : Cache) (d' : Disk) : Type 0 where
  quiet : Quiet c' d'
  kept : (u : ℕ) (x : Contents) → Holds c d u x → Holds c' d' u x
  clean : (c'.blocks i).dirty ≡ false
  others : (k : ℕ) → (c.blocks k).dirty ≡ false → (c'.blocks k).dirty ≡ false

module _ {c : Cache} {d : Disk} (q : Quiet c d) (i : ℕ) (lt : i < cache_size) where
  module _ (dirty : (c.blocks i).dirty ≡ true) where
    abbrev saved : Cache
    saved = put c i (record (c.blocks i) { dirty = false })

    abbrev disk : Disk
    disk = update d (c.blocks i).sector (c.blocks i).contents

    held : Cached c (c.blocks i).sector i
    held = dirty-Cached q i lt dirty

    saved-Cached : (u k : ℕ) → Cached c u k → Cached saved u k
    saved-Cached u k h = let e = h.of_sector in ground (arith, h)

    Cached-saved : (u k : ℕ) → Cached saved u k → Cached c u k
    Cached-saved u k h = record {
      in_range = h.in_range;
      used = ground (arith, h.used);
      loaded = ground (arith, h.loaded);
      of_sector = ground (arith, h.of_sector);
    }

    saved-contents : (k : ℕ) → (saved.blocks k).contents ≡ (c.blocks k).contents
    saved-contents k = ground arith

    disk_other : (u : ℕ) → (c.blocks i).sector ≢ u → disk u ≡ d u
    disk_other u ne = ground arith

    saved-clean :
        (k : ℕ)
        → k < cache_size
        → (saved.blocks k).in_use ≡ true
        → (saved.blocks k).io_needed ≡ false
        → (saved.blocks k).dirty ≡ false
        → (saved.blocks k).contents ≡ disk (saved.blocks k).sector
    saved-clean k lk used loaded cl = elim (ℕ_discrete i k) [
      | yes e ↦ rw (← e) (ground arith)
      | no ne ↦ ground (arith, q.clean k lk, q.unique i k lt lk held.used)
    ]

    saved-Quiet : Quiet saved disk
    saved-Quiet = record {
      idle = λ k lk. ground (arith, q.idle k lk);
      settled = λ k lk. ground (arith, q.settled k lk);
      all_read = λ k p lk. ground (arith, q.all_read k p lk);
      empty = λ k lk u. ground (arith, q.empty k lk);
      unread = λ k lk u. ground (arith, q.unread k lk);
      clean = saved-clean;
      unique = λ j k lj lk uj uk e. q.unique j k lj lk (ground arith) (ground arith) (ground arith);
    }

    saved-Holds : (u : ℕ) (x : Contents) → Holds c d u x → Holds saved disk u x
    saved-Holds u x (inl (k, h, e)) = inl (k, saved-Cached u k h, saved-contents k ∙ e)
    saved-Holds u x (inr (absent, e)) = inr (
      λ k h. absent k (Cached-saved u k h),
      disk_other u (λ same.
            absent i
              (record { in_range = lt; used = held.used; loaded = held.loaded; of_sector = same }))
          ∙ e,
    )

  flush_block-Flushed :
      (c' : Cache) × (d' : Disk) × (flush_block i c d ≡ some (c', d')) × Flushed c d i c' d'
  unfolding flush_block
  flush_block-Flushed = elim (Bool-cases (c.blocks i).dirty) [
    | inl dirty ↦ (
      saved dirty,
      disk dirty,
      ground (arith, q.idle i lt, held dirty),
      record {
        quiet = saved-Quiet dirty;
        kept = saved-Holds dirty;
        clean = ground arith;
        others = λ k e. ground arith;
      },
    )
    | inr clean ↦ (
      c,
      d,
      ground (arith, q.idle i lt),
      record { quiet = q; kept = λ u x h. h; clean = clean; others = λ k e. e },
    )
  ]

-- What the loop has done after its rounds from block `i` on.
record Cleaned (c : Cache) (d : Disk) (i : ℕ) (c' : Cache) (d' : Disk) : Type 0 where
  quiet : Quiet c' d'
  kept : (u : ℕ) (x : Contents) → Holds c d u x → Holds c' d' u x
  clean : (k : ℕ) → i ≤ k → k < cache_size → (c'.blocks k).dirty ≡ false
  others : (k : ℕ) → (c.blocks k).dirty ≡ false → (c'.blocks k).dirty ≡ false

flush_loop-Cleaned :
    (n i : ℕ) {c : Cache} {d : Disk}
    → Quiet c d
    → i + n ≡ cache_size
    → (c' : Cache) × (d' : Disk) × (flush_loop n i c d ≡ some (c', d')) × Cleaned c d i c' d'
unfolding flush_loop
flush_loop-Cleaned zero i {c} {d} q e = (
  c,
  d,
  refl,
  record {
    quiet = q;
    kept = λ u x h. h;
    clean = λ k p lk. absurd (omega arith);
    others = λ k h. h;
  },
)
flush_loop-Cleaned (suc n) i {c} {d} q e =
    let (c1, d1, e1, f) = flush_block-Flushed q i (omega arith) in
    let (c2, d2, e2, g) = flush_loop-Cleaned n (i + 1) f.quiet (omega arith) in
    (
      c2,
      d2,
      rw e1 e2,
      record {
        quiet = g.quiet;
        kept = λ u x h. g.kept u x (f.kept u x h);
        clean = λ k p lk. elim (ℕ_discrete i k) [
          | yes same ↦ g.others k (rw same at f.clean)
          | no ne ↦ g.clean k (omega arith) lk
        ];
        others = λ k h. g.others k (f.others k h);
      },
    )

-- From a quiet cache cache_flush returns with the cache quiet, and then the disk has in every
-- sector the bytes that the sector held, in the cache or on the disk, before.
pub flush-writes_back :
    {c : Cache} {d : Disk}
    → Quiet c d
    → (c' : Cache) × (d' : Disk) × (flush c d ≡ some (c', d'))
      × Quiet c' d'
      × ((u : ℕ) (x : Contents) → Holds c d u x → d' u ≡ x)
unfolding flush
flush-writes_back q =
    let (c', d', e, f) = flush_loop-Cleaned cache_size 0 q (omega arith) in
    (c', d', e, f.quiet, λ u x h. on_disk f u x (f.kept u x h))
  where
    on_disk :
        {c' c : Cache} {d' d : Disk}
        → Cleaned c d 0 c' d'
        → (u : ℕ) (x : Contents) → Holds c' d' u x
        → d' u ≡ x
    on_disk {c'} {d' = d'} f u x (inl (k, h, e)) =
        ap d' (sym h.of_sector)
        ∙ sym (f.quiet.clean k h.in_range h.used h.loaded (f.clean k (omega arith) h.in_range))
        ∙ e
    on_disk f u x (inr (absent, e)) = e
