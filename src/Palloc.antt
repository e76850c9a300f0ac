-- ===== src/Palloc.antt =====
-- pintos/src/threads/palloc.c: pages of memory from the kernel pool and the user pool. An address is
-- a number, 0 the null pointer, and memory a function from addresses to bytes. A pool's lock is taken
-- and released around the scan, which is one step here. `none` is a failed ASSERT or a panic.
pub mod Pools
pub mod Release
mod Tests
use cs140_w.Prelude.{
  ℕ, ◌+◌, ◌-◌, ◌*◌, ◌/◌, ◌%◌, ◌==◌, leb, ltb, Bool, true, false, not, ◌&&◌, ◌||◌, if◌then◌else◌,
  Option, none, some, ◌>>=◌, ◌>>◌, assert,
}
use cs140_w.Bitmap
use cs140_w.Bitmap.{Bitmap, bitmap_error}

-- `PGSIZE`
abbrev pub page_bytes : ℕ
page_bytes = 4096

-- `enum palloc_flags`, one member for each bit.
pub record Flags : Type 0 where
  pub pal_assert : Bool
  pub pal_zero : Bool
  pub pal_user : Bool

-- `struct pool`
pub record Pool : Type 0 where
  pub used_map : Bitmap
  pub base : ℕ

pub record Allocator : Type 0 where
  pub kernel_pool : Pool
  pub user_pool : Pool
  pub memory : ℕ → ℕ

-- The pool that `PAL_USER` chooses.
abbrev pub pool_of : Bool → Allocator → Pool
pool_of user s = if user then s.user_pool else s.kernel_pool

abbrev pub put_pool : Bool → Pool → Allocator → Allocator
put_pool true p s = record s { user_pool = p }
put_pool false p s = record s { kernel_pool = p }

abbrev pub memset : (ℕ → ℕ) → ℕ → ℕ → ℕ → ℕ → ℕ
memset memory dst value size a = if leb dst a && ltb a (dst + size) then value else memory a

-- `pg_no`
abbrev pub pg_no : ℕ → ℕ
pg_no a = a / page_bytes

abbrev pub page_from_pool : Pool → ℕ → Bool
page_from_pool p page =
    let start_page = pg_no p.base in
    let end_page = start_page + p.used_map.bit_cnt in
    leb start_page (pg_no page) && ltb (pg_no page) end_page

-- `palloc_get_multiple` behind the scan, whose index is given.
abbrev pub hand_out : Flags → ℕ → ℕ → ℕ → Allocator → Option (ℕ × Allocator)
hand_out flags page_cnt page_idx base s =
    let pages = if not (page_idx == bitmap_error) then base + page_bytes * page_idx else 0 in
    if not (pages == 0)
    then some (
      pages,
      (if flags.pal_zero
          then record s { memory = memset s.memory pages 0 (page_bytes * page_cnt) }
          else s),
    )
    else (if flags.pal_assert then none else some (pages, s))

-- `palloc_get_multiple`
unfoldable pub get_multiple : Flags → ℕ → Allocator → Option (ℕ × Allocator)
get_multiple flags page_cnt s =
    let pool = pool_of flags.pal_user s in
    if page_cnt == 0
    then some (0, s)
    else (Bitmap.scan_and_flip pool.used_map 0 page_cnt false >>= λ r.
        hand_out flags page_cnt r.0 pool.base
          (put_pool flags.pal_user (record pool { used_map = r.1 }) s))

unfoldable pub get_page : Flags → Allocator → Option (ℕ × Allocator)
get_page flags s = get_multiple flags 1 s

-- `palloc_free_multiple` once the pool is known.
abbrev pub give_back : Bool → ℕ → ℕ → Allocator → Option Allocator
give_back user pages page_cnt s =
    let pool = pool_of user s in
    let page_idx = pg_no pages - pg_no pool.base in
    let s' = record s { memory = memset s.memory pages 204 (page_bytes * page_cnt) } in
    Bitmap.all pool.used_map page_idx page_cnt >>= λ used.
    assert used
    >> (Bitmap.set_multiple pool.used_map page_idx page_cnt false >>= λ b.
        some (put_pool user (record pool { used_map = b }) s'))

-- `palloc_free_multiple`
unfoldable pub free_multiple : ℕ → ℕ → Allocator → Option Allocator
free_multiple pages page_cnt s =
    assert (pages % page_bytes == 0)
    >> (if pages == 0 || page_cnt == 0
        then some s
        else (if page_from_pool s.kernel_pool pages
            then give_back false pages page_cnt s
            else (if page_from_pool s.user_pool pages
                then give_back true pages page_cnt s
                else none)))

unfoldable pub free_page : ℕ → Allocator → Option Allocator
free_page page s = free_multiple page 1 s
