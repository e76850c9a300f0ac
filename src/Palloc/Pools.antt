-- ===== src/Palloc/Pools.antt =====
-- What the page allocator gives out.
use cs140_w.Prelude.{
  ℕ, ◌+◌, ◌-◌, ◌*◌, ◌%◌, ◌≤◌, ◌<◌, ◌≡◌, ◌≢◌, ◌⊎◌, refl, ap, ◌∙◌, ◌==◌, Bool, true, false,
  if◌then◌else◌, none, some, arith, inl, inr,
}
use cs140_w.Bitmap
use cs140_w.Bitmap.{Bitmap, bitmap_error}
use cs140_w.Bitmap.Valid.{Represents}
use cs140_w.Bitmap.Ranges.{fill}
use cs140_w.Bitmap.Scan.{IsGroup, NoGroup, Flipped, group_index, scan_and_flip-Flipped}
use cs140_w.Palloc.{Flags, Pool, Allocator, pool_of, put_pool, memset, hand_out, get_multiple}

-- A pool of `n` pages, of which those with their bit in `g` are in use.
pub record IsPool (p : Pool) (n : ℕ) (g : ℕ → Bool) : Type 0 where
  pub map : Represents p.used_map n g
  pub aligned : p.base % 4096 ≡ 0
  pub placed : 0 < p.base

-- The pool's bits, and memory, are replaced.
abbrev pub replaced : Bool → Bitmap → (ℕ → ℕ) → Allocator → Allocator
replaced user b memory s = record (put_pool user (record (pool_of user s) { used_map = b }) s) {
  memory = memory;
}

-- The pages from `p` on are handed out: the first `cnt` free ones of the pool in a row.
abbrev pub Got : Flags → ℕ → Allocator → ℕ → (ℕ → Bool) → Type 0
Got flags cnt s n g =
    (idx : ℕ) × (b' : Bitmap) × (let p = (pool_of flags.pal_user s).base + 4096 * idx in
      get_multiple flags cnt s
      ≡ some (
        p,
        replaced flags.pal_user b'
            (if flags.pal_zero then memset s.memory p 0 (4096 * cnt) else s.memory) s,
      ))
    × (idx + cnt ≤ n)
    × IsGroup g idx cnt false
    × NoGroup g 0 idx cnt false
    × Represents b' n (fill g idx cnt true)

-- No pages are handed out, since the pool has not as many free ones in a row.
abbrev pub Refused : Flags → ℕ → Allocator → ℕ → (ℕ → Bool) → Type 0
Refused flags cnt s n g =
    (get_multiple flags cnt s ≡ (if flags.pal_assert then none else some (0, s)))
    × NoGroup g 0 (n + 1 - cnt) cnt false

hand_out-pages :
    (flags : Flags) (cnt idx base : ℕ) (s : Allocator)
    → idx ≢ bitmap_error
    → 0 < base
    → hand_out flags cnt idx base s
      ≡ some (
        base + 4096 * idx,
        (if flags.pal_zero
            then record s { memory = memset s.memory (base + 4096 * idx) 0 (4096 * cnt) }
            else s),
      )
hand_out-pages flags cnt idx base s ne placed =
    rw (index_found idx ne) (rw (address_found base idx placed) refl)
  where
    index_found : (i : ℕ) → i ≢ bitmap_error → (i == bitmap_error) ≡ false
    index_found i h = ground arith

    address_found : (b i : ℕ) → 0 < b → ((b + 4096 * i) == 0) ≡ false
    address_found b i h = ground arith

module _ (s : Allocator) where
  put_back : (user : Bool) → put_pool user (pool_of user s) s ≡ s
  put_back true = refl
  put_back false = refl

  zeroed :
      (zero user : Bool) (q : Pool) (p size : ℕ)
      → (if zero
          then record (put_pool user q s) { memory = memset (put_pool user q s).memory p 0 size }
          else put_pool user q s)
        ≡ record (put_pool user q s) {
          memory = if zero then memset s.memory p 0 size else s.memory;
        }
  zeroed true true q p size = refl
  zeroed true false q p size = refl
  zeroed false true q p size = refl
  zeroed false false q p size = refl

module _ (s : Allocator) (flags : Flags) {n : ℕ} {g : ℕ → Bool}
    (pool : IsPool (pool_of flags.pal_user s) n g) where
  scanned :
      (cnt idx : ℕ) (b' : Bitmap)
      → 0 < cnt
      → Bitmap.scan_and_flip (pool_of flags.pal_user s).used_map 0 cnt false ≡ some (idx, b')
      → get_multiple flags cnt s
        ≡ hand_out flags cnt idx
            (pool_of flags.pal_user s).base
            (put_pool flags.pal_user (record (pool_of flags.pal_user s) { used_map = b' }) s)
  unfolding get_multiple
  scanned cnt idx b' h e = rw (nonzero cnt h) (rw e refl)
    where
      nonzero : (c : ℕ) → 0 < c → (c == 0) ≡ false
      nonzero c h = ground arith

  -- From a pool of n pages at an address that is a multiple of the page size and not null,
  -- palloc_get_multiple of at least one page either returns the address of the first free pages in
  -- a row, as many as asked for, which and no others are then in use, with their bytes zero under
  -- PAL_ZERO and memory as before otherwise; or it returns a null pointer and changes nothing, and
  -- panics under PAL_ASSERT, and then no group of pages is free in a row.
  pub get_multiple-Got : (cnt : ℕ) → 0 < cnt → Got flags cnt s n g ⊎ Refused flags cnt s n g
  get_multiple-Got cnt some_pages =
      let (idx, b', e, spec) = scan_and_flip-Flipped pool.map 0 cnt false (omega arith) in
      finish idx b' e spec
    where
      user : Bool
      user = flags.pal_user

      p : Pool
      p = pool_of flags.pal_user s

      finish :
          (idx : ℕ) (b' : Bitmap)
          → Bitmap.scan_and_flip (pool_of flags.pal_user s).used_map 0 cnt false ≡ some (idx, b')
          → Flipped pool.map 0 cnt false idx b'
          → Got flags cnt s n g ⊎ Refused flags cnt s n g
      finish idx b' e (inl (_, q, group, first, r')) =
          let t = put_pool user (record p { used_map = b' }) s in
          inl (
            idx,
            b',
            scanned cnt idx b' some_pages e
                ∙ hand_out-pages flags cnt idx p.base t (group_index pool.map 0 cnt false idx q)
                    pool.placed
                ∙ ap (λ (x : Allocator). some (p.base + 4096 * idx, x))
                    (zeroed s flags.pal_zero user (record p { used_map = b' }) (p.base + 4096 * idx)
                      (4096 * cnt)),
            q,
            group,
            first,
            r',
          )
      finish idx b' e (inr (error, absent, same)) = inr (
        scanned cnt idx b' some_pages e
            ∙ ap (λ i. hand_out flags cnt i p.base (put_pool user (record p { used_map = b' }) s))
                error
            ∙ ap
                (λ (b : Bitmap).
                  (if flags.pal_assert
                    then none
                    else some (0, put_pool user (record p { used_map = b }) s)))
                same
            ∙ ap (λ (x : Allocator). (if flags.pal_assert then none else some (0, x)))
                (put_back s user),
        absent,
      )

-- The pools stand in memory one behind the other, and each of their pages is theirs alone.
pub record Apart (s : Allocator) (nk nu : ℕ) (gk gu : ℕ → Bool) : Type 0 where
  pub kernel : IsPool s.kernel_pool nk gk
  pub user : IsPool s.user_pool nu gu
  pub order : s.kernel_pool.base + 4096 * nk ≤ s.user_pool.base
