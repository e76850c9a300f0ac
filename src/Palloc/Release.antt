-- ===== src/Palloc/Release.antt =====
-- What the page allocator takes back.
use cs140_w.Prelude.{
  ℕ, ◌+◌, ◌-◌, ◌*◌, ◌%◌, ◌≤◌, ◌<◌, ◌≡◌, refl, ◌∙◌, ◌==◌, leb, ltb, Bool, true, false, ◌&&◌, ◌||◌,
  if◌then◌else◌, none, some, arith,
}
use cs140_w.Bitmap
use cs140_w.Bitmap.{Bitmap, bitmap_error}
use cs140_w.Bitmap.Valid.{Represents}
use cs140_w.Bitmap.Ranges.{fill, all-eq, set_multiple-Yields}
use cs140_w.Bitmap.Scan.{IsGroup, has-of_group}
use cs140_w.Palloc.{
  Pool, Allocator, pool_of, memset, pg_no, page_from_pool, give_back, free_multiple,
}
use cs140_w.Palloc.Pools.{Apart, IsPool, replaced}

-- The number of a page of the pool within the pool, and that it is of the pool.
page-number : (base idx : ℕ) → pg_no (base + 4096 * idx) - pg_no base ≡ idx
page-number base idx = omega arith

page_from_pool-own :
    (p : Pool) (n : ℕ) (g : ℕ → Bool) (idx : ℕ)
    → IsPool p n g
    → idx < n
    → page_from_pool p (p.base + 4096 * idx) ≡ true
page_from_pool-own p n g idx pool h = let m = pool.map in own p.base p.used_map.bit_cnt m.size
  where
    own :
        (base cnt : ℕ)
        → cnt ≡ n
        → leb (pg_no base) (pg_no (base + 4096 * idx))
            && ltb (pg_no (base + 4096 * idx)) (pg_no base + cnt)
          ≡ true
    own base cnt e = ground arith

page_from_pool-behind :
    (p : Pool) (n : ℕ) (g : ℕ → Bool) (a : ℕ)
    → IsPool p n g
    → p.base + 4096 * n ≤ a
    → page_from_pool p a ≡ false
page_from_pool-behind p n g a pool h = let m = pool.map in behind p.base p.used_map.bit_cnt m.size h
  where
    behind :
        (base cnt : ℕ)
        → cnt ≡ n
        → base + 4096 * n ≤ a
        → leb (pg_no base) (pg_no a) && ltb (pg_no a) (pg_no base + cnt) ≡ false
    behind base cnt e k = ground arith

free_multiple-search :
    (s : Allocator) (a cnt : ℕ)
    → a % 4096 ≡ 0
    → 0 < a
    → 0 < cnt
    → free_multiple a cnt s ≡ (
        if page_from_pool s.kernel_pool a
        then give_back false a cnt s
        else (if page_from_pool s.user_pool a then give_back true a cnt s else none))
unfolding free_multiple
free_multiple-search s a cnt e h k = rw (on_page a e) (rw (no_null a cnt h k) refl)
  where
    on_page : (x : ℕ) → x % 4096 ≡ 0 → ((x % 4096) == 0) ≡ true
    on_page x e = ground arith

    no_null : (x c : ℕ) → 0 < x → 0 < c → (x == 0) || (c == 0) ≡ false
    no_null x c h k = ground arith

module _ (s : Allocator) {nk nu : ℕ} {gk gu : ℕ → Bool} (apart : Apart s nk nu gk gu) where
  -- The number of pages of a pool, and which are in use.
  abbrev size_of : Bool → ℕ
  size_of user = if user then nu else nk

  abbrev bits_of : Bool → ℕ → Bool
  bits_of user = if user then gu else gk

  pool_of-IsPool : (user : Bool) → IsPool (pool_of user s) (size_of user) (bits_of user)
  pool_of-IsPool true = apart.user
  pool_of-IsPool false = apart.kernel

  found :
      (user : Bool) (idx cnt : ℕ)
      → 0 < cnt
      → idx + cnt ≤ size_of user
      → free_multiple ((pool_of user s).base + 4096 * idx) cnt s
        ≡ give_back user ((pool_of user s).base + 4096 * idx) cnt s
  found true idx cnt h k =
      let u = apart.user in
      free_multiple-search s (s.user_pool.base + 4096 * idx) cnt (omega (arith, u.aligned))
        (omega (arith, u.placed)) h
      ∙ rw
          (page_from_pool-behind s.kernel_pool nk gk (s.user_pool.base + 4096 * idx) apart.kernel
            (omega (arith, apart.order)))
          (rw (page_from_pool-own s.user_pool nu gu idx u (omega arith)) refl)
  found false idx cnt h k =
      let u = apart.kernel in
      free_multiple-search s (s.kernel_pool.base + 4096 * idx) cnt (omega (arith, u.aligned))
        (omega (arith, u.placed)) h
      ∙ rw (page_from_pool-own s.kernel_pool nk gk idx u (omega arith)) refl

  -- With the kernel pool before the user pool in memory, both at multiples of the page size and not
  -- null, palloc_free_multiple of at least one page, all of one pool and in use, finds that pool,
  -- makes exactly these pages free and fills them with 0xcc.
  pub free_multiple-frees :
      (user : Bool) (idx cnt : ℕ)
      → 0 < cnt
      → idx + cnt ≤ size_of user
      → IsGroup (bits_of user) idx cnt true
      → (b' : Bitmap) × (free_multiple ((pool_of user s).base + 4096 * idx) cnt s
          ≡ some (
              replaced user b'
                (memset s.memory ((pool_of user s).base + 4096 * idx) 204 (4096 * cnt))
                s))
        × Represents b' (size_of user) (fill (bits_of user) idx cnt false)
  free_multiple-frees user idx cnt h k used =
      let pool = pool_of-IsPool user in
      let (b', e, r') = set_multiple-Yields pool.map idx cnt false k in
      (b', found user idx cnt h k ∙ given user b' e all_set, r')
    where
      all_set : Bitmap.all (pool_of user s).used_map idx cnt ≡ some true
      all_set =
          let pool = pool_of-IsPool user in
          all-eq pool.map idx cnt k ∙ rw (has-of_group (bits_of user) idx cnt true used) refl

      given :
          (user : Bool) (b' : Bitmap)
          → Bitmap.set_multiple (pool_of user s).used_map idx cnt false ≡ some b'
          → Bitmap.all (pool_of user s).used_map idx cnt ≡ some true
          → give_back user ((pool_of user s).base + 4096 * idx) cnt s
            ≡ some (
                replaced user b'
                  (memset s.memory ((pool_of user s).base + 4096 * idx) 204 (4096 * cnt))
                  s)
      given true b' e a = rw (page-number s.user_pool.base idx) (rw a (rw e refl))
      given false b' e a = rw (page-number s.kernel_pool.base idx) (rw a (rw e refl))
