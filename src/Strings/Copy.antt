-- ===== src/Strings/Copy.antt =====
-- `strlcpy` and `strlcat` write a string that fits, and write nowhere else.
use cs140_w.Prelude.{
  ℕ, zero, suc, ◌+◌, ◌-◌, ◌≤◌, ◌<◌, ◌≡◌, ◌≢◌, refl, ap, ◌∙◌, ◌⊎◌, ltb, if◌then◌else◌, some, arith,
  dec_lt, List, [], ◌∷◌, ◌++◌, length, take,
}
use mathlib.Core.Path.{subst}
use cs140_w.Strings.{Memory, store, strlcpy, strlcat}
use cs140_w.Strings.Blocks.{memcpy-Copied}
use cs140_w.Strings.View.{Holds, strlen-length, copied-Holds, append-Holds}

-- All bytes but the `size` bytes at `dst` are as before.
abbrev pub Spared : Memory → ℕ → ℕ → Memory → Type 0
Spared m dst size m' = (a : ℕ) → (a < dst) ⊎ (dst + size ≤ a) → m' a ≡ m a

-- The whole list if it is no longer.
take-all : (n : ℕ) (s : List ℕ) → length s ≤ n → take (length s) s ≡ take n s
take-all zero [] l = refl
take-all (suc n) [] l = refl
take-all zero (c ∷ s) l = elim l [ ]
take-all (suc n) (c ∷ s) l = ap (λ z. c ∷ z) (take-all n s (omega (arith, l)))

-- The number of characters copied: all, or as many as there is room for.
abbrev fits : ℕ → ℕ → ℕ
fits n room = if ltb n room then n else room

fits-le : (n room : ℕ) → (fits n room ≤ n) × (fits n room ≤ room)
fits-le n room = (ground arith, ground arith)

take-fits : (room : ℕ) (s : List ℕ) → take (fits (length s) room) s ≡ take room s
take-fits room s = elim (dec_lt (length s) room) [
  | yes l ↦ ap (λ n. take n s) (ground (arith, l)) ∙ take-all room s (omega (arith, l))
  | no n ↦ ap (λ n. take n s) (ground (arith, n))
]

-- `strlcpy` copies as many characters as fit, ends them by a null byte, and writes nowhere else.
pub strlcpy-Holds :
    (fuel : ℕ) (m : Memory) (dst src size : ℕ) (s : List ℕ)
    → dst ≢ 0
    → src ≢ 0
    → 0 < size
    → Holds m src s
    → length s < fuel
    → (dst + size ≤ src) ⊎ (src + length s < dst)
    → (m' : Memory) × (strlcpy fuel m dst src size ≡ some (length s, m'))
      × Holds m' dst (take (size - 1) s)
      × Spared m dst size m'
unfolding strlcpy
strlcpy-Holds fuel m dst src size s d0 s0 z h f apart =
    let (m', copied, c) =
      memcpy-Copied m dst src n d0 s0 (ground (arith, apart, fits-le (length s) (size - 1))) in
    (
      store m' (dst + n) 0,
      ground (arith, d0, s0, z, strlen-length fuel m src s s0 h f, copied),
      subst (Holds (store m' (dst + n) 0) dst) (take-fits (size - 1) s) (
          copied-Holds m m' dst src n (dst + n) s h (fits-le (length s) (size - 1)).0 refl
            c.within),
      λ a o. ground (arith, fits-le (length s) (size - 1), o, z, c.before a, c.behind a),
    )
  where
    n : ℕ
    n = fits (length s) (size - 1)

-- If the string at the destination is shorter than the size given, and the source is apart from the
-- destination, strlcat returns the sum of both lengths, the destination holds the joined string as
-- far as it fits with its null byte, and no byte outside the size is written.
pub strlcat-Holds :
    (fuel : ℕ) (m : Memory) (dst src size : ℕ) (t s : List ℕ)
    → dst ≢ 0
    → src ≢ 0
    → Holds m dst t
    → Holds m src s
    → length t < size
    → length t < fuel
    → length s < fuel
    → (dst + size ≤ src) ⊎ (src + length s < dst)
    → (m' : Memory) × (strlcat fuel m dst src size ≡ some (length s + length t, m'))
      × Holds m' dst (t ++ take (size - length t - 1) s)
      × Spared m dst size m'
unfolding strlcat
strlcat-Holds fuel m dst src size t s d0 s0 ht hs room ft fs apart =
    let (m', copied, c) =
      memcpy-Copied m q src n (omega (arith, d0)) s0
        (ground (arith, apart, room, fits-le (length s) (size - length t - 1))) in
    (
      store m' (q + n) 0,
      ground (
        arith,
        d0,
        s0,
        room,
        strlen-length fuel m src s s0 hs fs,
        strlen-length fuel m dst t d0 ht ft,
        copied,
      ),
      append-Holds m (store m' (q + n) 0) dst q t (take (size - length t - 1) s) ht refl
          (λ a l b. ground (arith, b, c.before a b))
          (subst (Holds (store m' (q + n) 0) q) (take-fits (size - length t - 1) s) (
            copied-Holds m m' q src n (q + n) s hs (fits-le (length s) (size - length t - 1)).0 refl
              c.within)),
      λ a o.
          ground (arith, fits-le (length s) (size - length t - 1), o, room, c.before a, c.behind a),
    )
  where
    q : ℕ
    q = dst + length t

    n : ℕ
    n = fits (length s) (size - length t - 1)
