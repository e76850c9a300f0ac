-- ===== src/FileData/Write.antt =====
-- The loop of `inode_write_at` writes the bytes of the file that it is given, and no others.
use cs140_w.Prelude.{
  ℕ, zero, suc, ◌+◌, ◌-◌, ◌/◌, ◌%◌, ◌≤◌, ◌<◌, ◌≡◌, refl, ap, sym, ◌∙◌, some, min, arith, ℕ_discrete,
  dec_lt, ◌⊎◌, inl, inr,
}
use mathlib.Core.Path.{subst}
use cs140_w.Inode.{Inode, byte_to_sector}
use cs140_w.FileData.{Sectors, copy, chunk, write_block, write_loop, inode_read_at}
use cs140_w.FileData.Read.{byte_at, byte_to_sector-block, chunk-OneRound, inode_read_at-IsRead}

-- Different blocks of the file are in different sectors.
abbrev pub Apart : (ℕ → ℕ → ℕ) → Inode → Type 0
Apart fs_device inode =
    (a b : ℕ)
    → a < inode.length
    → b < inode.length
    → byte_to_sector fs_device inode a ≡ byte_to_sector fs_device inode b
    → a / 512 ≡ b / 512

-- The bytes of the file from `offset` on are those of the buffer from `k` on, and all others are as
-- before.
pub record IsWritten (fs_device : ℕ → ℕ → ℕ) (inode : Inode) (offset size k : ℕ) (buffer : ℕ → ℕ)
    (sectors sectors' : Sectors) : Type 0 where
  pub within : (i : ℕ) → i < size → byte_at fs_device inode sectors' (offset + i) ≡ buffer (k + i)
  pub elsewhere :
      (o : ℕ)
      → o < inode.length
      → (o < offset) ⊎ (offset + size ≤ o)
      → byte_at fs_device inode sectors' o ≡ byte_at fs_device inode sectors o

module _ (fs_device : ℕ → ℕ → ℕ) (inode : Inode) (buffer : ℕ → ℕ)
    (apart : Apart fs_device inode) where
  -- The sectors after one round.
  abbrev after_round : Sectors → ℕ → ℕ → ℕ → Sectors
  after_round sectors offset k n =
      let sector = byte_to_sector fs_device inode offset in
      write_block sectors sector (copy (sectors sector) (offset % 512) buffer k n)

  round_within :
      (sectors : Sectors) (offset k n i : ℕ)
      → offset % 512 + n ≤ 512
      → offset + n ≤ inode.length
      → i < n
      → byte_at fs_device inode (after_round sectors offset k n) (offset + i) ≡ buffer (k + i)
  round_within sectors offset k n i b e l =
      let same =
        byte_to_sector-block fs_device inode offset (offset + i) (omega (arith, e, l))
          (omega (arith, e, l)) (omega (arith, b, l)) in
      let place : (offset + i) % 512 ≡ offset % 512 + i = omega (arith, b, l) in
      let from : k + (offset % 512 + i - offset % 512) ≡ k + i = omega arith in
      ap (λ s. after_round sectors offset k n s ((offset + i) % 512)) (sym same)
      ∙ ap (after_round sectors offset k n (byte_to_sector fs_device inode offset)) place
      ∙ ground (arith, l)
      ∙ ap buffer from

  round_elsewhere :
      (sectors : Sectors) (offset k n o : ℕ)
      → offset < inode.length
      → offset % 512 + n ≤ 512
      → o < inode.length
      → (o < offset) ⊎ (offset + n ≤ o)
      → byte_at fs_device inode (after_round sectors offset k n) o
        ≡ byte_at fs_device inode sectors o
  round_elsewhere sectors offset k n o inside b l h =
      elim (ℕ_discrete (byte_to_sector fs_device inode o) (byte_to_sector fs_device inode offset)) [
        | yes same ↦
            let block = apart o offset l inside same in
            let outside : (o % 512 < offset % 512) ⊎ (offset % 512 + n ≤ o % 512) = elim h [
              | inl before ↦ inl (omega (arith, before, block))
              | inr behind ↦ inr (omega (arith, behind, block))
            ] in
            ground (arith, same, outside, ap (λ s. sectors s (o % 512)) same)
        | no other ↦ ground (arith, other)
      ]

  round-IsWritten :
      (sectors sectors' : Sectors) (offset k n r : ℕ)
      → offset < inode.length
      → offset % 512 + n ≤ 512
      → offset + n ≤ inode.length
      → IsWritten fs_device inode
          (offset + n)
          r
          (k + n)
          buffer
          (after_round sectors offset k n)
          sectors'
      → IsWritten fs_device inode offset (n + r) k buffer sectors sectors'
  round-IsWritten sectors sectors' offset k n r inside b e w = record {
    within = λ i l. elim (dec_lt i n) [
      | yes before ↦
          w.elsewhere (offset + i) (omega (arith, before, e)) (inl (omega (arith, before)))
          ∙ round_within sectors offset k n i b e before
      | no behind ↦ later i l (omega (arith, behind))
    ];
    elsewhere = λ o l h.
        w.elsewhere o l (ground (arith, h))
        ∙ round_elsewhere sectors offset k n o inside b l (ground (arith, h));
  }
    where
      later :
          (i : ℕ)
          → i < n + r
          → n ≤ i
          → byte_at fs_device inode sectors' (offset + i) ≡ buffer (k + i)
      later i l g =
          let to : offset + i ≡ offset + n + (i - n) = omega (arith, g) in
          let from : k + n + (i - n) ≡ k + i = omega (arith, g) in
          ap (byte_at fs_device inode sectors') to
          ∙ w.within (i - n) (omega (arith, g, l))
          ∙ ap buffer from

  -- The loop writes the bytes up to the end of the file, and no others.
  pub write_loop-IsWritten :
      (fuel : ℕ) (sectors : Sectors) (size offset k : ℕ)
      → size < fuel
      → (sectors' : Sectors) × (write_loop fuel fs_device inode sectors buffer size offset k
          ≡ some (k + min size (inode.length - offset), sectors'))
        × IsWritten fs_device inode offset
            (min size (inode.length - offset))
            k
            buffer
            sectors
            sectors'
  unfolding write_loop
  write_loop-IsWritten zero sectors size offset k l = elim l [ ]
  write_loop-IsWritten (suc fuel) sectors size offset k l =
      let c = chunk-OneRound inode.length size offset in
      elim (ℕ_discrete (chunk inode.length size offset) 0) [
        | yes none_left ↦
            let nothing : min size (inode.length - offset) ≡ 0 =
              ground (arith, none_left, c.some_bytes) in
            (
              sectors,
              ground (arith, none_left, nothing),
              record { within = λ i h. ground (arith, h, nothing); elsewhere = λ o h j. refl },
            )
        | no more ↦
            let inside : offset < inode.length = ground (arith, more, c.no_bytes) in
            let n = chunk inode.length size offset in
            let (sectors', ran, is) =
              write_loop-IsWritten fuel (after_round sectors offset k n) (size - n) (offset + n)
                (k + n) (omega (arith, more, c.fits, l)) in
            let all : n + min (size - n) (inode.length - (offset + n))
                ≡ min size (inode.length - offset) =
              omega (arith, c.fits, c.ends inside) in
            (
              sectors',
              ground (arith, more, c.fits, ran, all),
              subst (λ z. IsWritten fs_device inode offset z k buffer sectors sectors') all
                  (round-IsWritten sectors sectors' offset k n
                    (min (size - n) (inode.length - (offset + n))) inside c.block (c.ends inside)
                    is),
            )
      ]

-- If different blocks of a file are in different sectors, the loop of inode_write_at writes all
-- bytes that it is given for a range within the file, and inode_read_at of that range then reads
-- all of them and gives them back.
pub inode_read_at-write_loop :
    (fuel : ℕ) (fs_device : ℕ → ℕ → ℕ) (inode : Inode) (sectors : Sectors)
    (buffer read_buffer : ℕ → ℕ) (size offset : ℕ)
    → Apart fs_device inode
    → size < fuel
    → offset + size ≤ inode.length
    → (sectors' : Sectors) × (buffer' : ℕ → ℕ) × (write_loop fuel fs_device inode sectors buffer
          size offset 0
        ≡ some (size, sectors'))
      × (inode_read_at fuel fs_device inode inode.length sectors' read_buffer size offset
          ≡ some (size, buffer'))
      × ((i : ℕ) → i < size → buffer' i ≡ buffer i)
inode_read_at-write_loop fuel fs_device inode sectors buffer read_buffer size offset apart f e =
    let (sectors', wrote, w) =
      write_loop-IsWritten fs_device inode buffer apart fuel sectors size offset 0 f in
    let (buffer', read, r) =
      inode_read_at-IsRead fuel fs_device inode inode.length sectors' read_buffer size offset f
        (omega arith) in
    (
      sectors',
      buffer',
      wrote ∙ ap (λ z. some (z, sectors')) written,
      read ∙ ap (λ z. some (z, buffer')) whole,
      λ i l.
          let at : i ≡ 0 + i = omega arith in
          ap buffer' at
          ∙ r.within i (omega (arith, l, whole))
          ∙ w.within i (omega (arith, l, whole))
          ∙ ap buffer (sym at),
    )
  where
    whole : min size (inode.length - offset) ≡ size
    whole = omega (arith, e)

    written : 0 + min size (inode.length - offset) ≡ size
    written = omega (arith, e)
