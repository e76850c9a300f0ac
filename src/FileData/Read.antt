-- ===== src/FileData/Read.antt =====
-- `inode_read_at` reads the bytes of the file, up to its end and no further.
use cs140_w.Prelude.{
  if_true, lt→ltb, ◌⊎◌, inl, ℕ, zero, suc, ◌+◌, ◌-◌, ◌/◌, ◌%◌, ◌≤◌, ◌<◌, ◌≡◌, refl, ap, sym, ◌∙◌,
  some, min, arith, ℕ_discrete, dec_lt,
}
use mathlib.Core.Path.{subst}
use cs140_w.Inode.{block_sector, Inode, block_sector_size, byte_to_sector}
use cs140_w.FileData.{Sectors, copy, chunk, read_loop, inode_read_at}

-- The byte of the file at an offset.
abbrev pub byte_at : (ℕ → ℕ → ℕ) → Inode → Sectors → ℕ → ℕ
byte_at fs_device inode sectors offset =
    sectors (byte_to_sector fs_device inode offset) (offset % block_sector_size)

-- Offsets in the file and in one block are in one sector.
pub byte_to_sector-block :
    (fs_device : ℕ → ℕ → ℕ) (inode : Inode) (a b : ℕ)
    → a < inode.length
    → b < inode.length
    → a / 512 ≡ b / 512
    → byte_to_sector fs_device inode a ≡ byte_to_sector fs_device inode b
unfolding byte_to_sector
byte_to_sector-block fs_device inode a b la lb e =
    if_true _ _ (lt→ltb a inode.length la)
    ∙ ap (block_sector fs_device inode) e
    ∙ sym (if_true _ _ (lt→ltb b inode.length lb))

pub record OneRound (limit size offset : ℕ) : Type 0 where
  pub fits : chunk limit size offset ≤ size
  pub ends : offset < limit → offset + chunk limit size offset ≤ limit
  pub block : offset % 512 + chunk limit size offset ≤ 512
  pub some_bytes : 0 < size → offset < limit → 0 < chunk limit size offset
  pub no_bytes : limit ≤ offset → chunk limit size offset ≡ 0

pub chunk-OneRound : (limit size offset : ℕ) → OneRound limit size offset
chunk-OneRound limit size offset = record {
  fits = ground arith;
  ends = λ h. ground (arith, h);
  block = ground arith;
  some_bytes = λ z h. ground (arith, z, h);
  no_bytes = λ h. ground (arith, h);
}

-- The bytes from `offset` on, as many as there are up to `limit`, stand in the buffer from `k` on.
pub record IsRead (fs_device : ℕ → ℕ → ℕ) (inode : Inode) (sectors : Sectors) (offset size k : ℕ)
    (buffer buffer' : ℕ → ℕ) : Type 0 where
  pub within : (i : ℕ) → i < size → buffer' (k + i) ≡ byte_at fs_device inode sectors (offset + i)
  pub elsewhere : (j : ℕ) → (j < k) ⊎ (k + size ≤ j) → buffer' j ≡ buffer j

module _ (fs_device : ℕ → ℕ → ℕ) (inode : Inode) (limit : ℕ) (sectors : Sectors)
    (below : limit ≤ inode.length) where
  -- One round, and the rest.
  round-IsRead :
      (n r offset k : ℕ) (buffer buffer' : ℕ → ℕ)
      → offset % 512 + n ≤ 512
      → offset + n ≤ limit
      → IsRead fs_device inode sectors
          (offset + n)
          r
          (k + n)
          (copy buffer k (sectors (byte_to_sector fs_device inode offset)) (offset % 512) n)
          buffer'
      → IsRead fs_device inode sectors offset (n + r) k buffer buffer'
  round-IsRead n r offset k buffer buffer' b e c = record {
    within = λ i l. elim (dec_lt i n) [
      | yes before ↦ first i before
      | no behind ↦ later i l (omega (arith, behind))
    ];
    elsewhere = λ j o. ground (arith, o, c.elsewhere j);
  }
    where
      first : (i : ℕ) → i < n → buffer' (k + i) ≡ byte_at fs_device inode sectors (offset + i)
      first i l =
          let place : offset % 512 + (k + i - k) ≡ (offset + i) % 512 = omega (arith, b, l) in
          let sector =
            byte_to_sector-block fs_device inode offset (offset + i) (omega (arith, below, e, l))
              (omega (arith, below, e, l)) (omega (arith, b, l)) in
          c.elsewhere (k + i) (inl (omega (arith, l)))
          ∙ ground (arith, l)
          ∙ ap (sectors (byte_to_sector fs_device inode offset)) place
          ∙ ap (λ s. sectors s ((offset + i) % 512)) sector

      later :
          (i : ℕ)
          → i < n + r
          → n ≤ i
          → buffer' (k + i) ≡ byte_at fs_device inode sectors (offset + i)
      later i l g =
          let to : k + i ≡ k + n + (i - n) = omega (arith, g) in
          let from : offset + n + (i - n) ≡ offset + i = omega (arith, g) in
          ap buffer' to
          ∙ c.within (i - n) (omega (arith, g, l))
          ∙ ap (byte_at fs_device inode sectors) from

  read_loop-IsRead :
      (fuel size offset k : ℕ) (buffer : ℕ → ℕ)
      → size < fuel
      → (buffer' : ℕ → ℕ) × (read_loop fuel fs_device inode limit sectors buffer size offset k
          ≡ some (k + min size (limit - offset), buffer'))
        × IsRead fs_device inode sectors offset (min size (limit - offset)) k buffer buffer'
  unfolding read_loop
  read_loop-IsRead zero size offset k buffer l = elim l [ ]
  read_loop-IsRead (suc fuel) size offset k buffer l =
      let c = chunk-OneRound limit size offset in
      elim (ℕ_discrete (chunk limit size offset) 0) [
        | yes none_left ↦
            let nothing : min size (limit - offset) ≡ 0 = ground (arith, none_left, c.some_bytes) in
            (
              buffer,
              ground (arith, none_left, nothing),
              record { within = λ i h. ground (arith, h, nothing); elsewhere = λ j o. refl },
            )
        | no more ↦
            let inside : offset < limit = ground (arith, more, c.no_bytes) in
            let n = chunk limit size offset in
            let (buffer', ran, is) =
              read_loop-IsRead fuel (size - n) (offset + n) (k + n)
                (copy buffer k (sectors (byte_to_sector fs_device inode offset)) (offset % 512) n)
                (omega (arith, more, c.fits, l)) in
            let all : n + min (size - n) (limit - (offset + n)) ≡ min size (limit - offset) =
              omega (arith, c.fits, c.ends inside) in
            (
              buffer',
              ground (arith, more, c.fits, ran, all),
              subst (λ z. IsRead fs_device inode sectors offset z k buffer buffer') all
                  (round-IsRead n (min (size - n) (limit - (offset + n))) offset k buffer buffer'
                    c.block (c.ends inside) is),
            )
      ]

-- With a limit at or before the end of the file and fuel for one round more than bytes asked for,
-- inode_read_at reads as many of them as there are up to the limit: the buffer starts with the
-- bytes that the sectors of the file hold from the offset on, and is as before behind these.
pub inode_read_at-IsRead :
    (fuel : ℕ) (fs_device : ℕ → ℕ → ℕ) (inode : Inode) (limit : ℕ) (sectors : Sectors)
    (buffer : ℕ → ℕ) (size offset : ℕ)
    → size < fuel
    → limit ≤ inode.length
    → (buffer' : ℕ → ℕ) × (inode_read_at fuel fs_device inode limit sectors buffer size offset
        ≡ some (min size (limit - offset), buffer'))
      × IsRead fs_device inode sectors offset (min size (limit - offset)) 0 buffer buffer'
unfolding inode_read_at
inode_read_at-IsRead fuel fs_device inode limit sectors buffer size offset f below =
    let (buffer', ran, is) =
      read_loop-IsRead fs_device inode limit sectors below fuel size offset 0 buffer f in
    (buffer', ground (arith, ran), is)
