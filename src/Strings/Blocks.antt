-- ===== src/Strings/Blocks.antt =====
-- `memcpy` and `memmove` do to blocks of bytes what they promise.
use cs140_w.Prelude.{
  ℕ, zero, suc, ◌+◌, ◌-◌, ◌≤◌, ◌<◌, ◌≡◌, ◌≢◌, refl, ap, ◌∙◌, ◌⊎◌, inl, ltb, if◌then◌else◌, some,
  arith, dec_lt, ℕ_discrete,
}
use cs140_w.Strings.{Memory, store, copy_up, copy_down, memcpy, memmove}

-- `m'` has at `dst` the `size` bytes that `m` has at `src`, and is `m` elsewhere.
pub record Copied (m : Memory) (dst src size : ℕ) (m' : Memory) : Type 0 where
  pub within : (k : ℕ) → k < size → m' (dst + k) ≡ m (src + k)
  pub before : (a : ℕ) → a < dst → m' a ≡ m a
  pub behind : (a : ℕ) → dst + size ≤ a → m' a ≡ m a

module _ (m m' : Memory) (dst src size : ℕ) where
  -- The first byte, and then the others.
  up :
      (dst ≤ src) ⊎ (src + suc size ≤ dst)
      → Copied (store m dst (m src)) (dst + 1) (src + 1) size m'
      → Copied m dst src (suc size) m'
  up h c = record {
    within =
        λ k l. elim (ℕ_discrete k 0) [ yes e ↦ start k e | no n ↦ onwards k l (omega (arith, n)) ];
    before = λ a l. ground (arith, c.before a (omega arith));
    behind = λ a l. ground (arith, c.behind a (omega arith));
  }
    where
      start : (k : ℕ) → k ≡ 0 → m' (dst + k) ≡ m (src + k)
      start k e =
          let to : dst + k ≡ dst = omega (arith, e) in
          let from : src ≡ src + k = omega (arith, e) in
          ap m' to ∙ c.before dst (omega arith) ∙ ground arith ∙ ap m from

      onwards : (k : ℕ) → k < suc size → 0 < k → m' (dst + k) ≡ m (src + k)
      onwards k l n =
          let to : dst + k ≡ dst + 1 + (k - 1) = omega (arith, n) in
          let from : src + 1 + (k - 1) ≡ src + k = omega (arith, n) in
          ap m' to ∙ c.within (k - 1) (omega (arith, n, l)) ∙ ground (arith, h, l, n) ∙ ap m from

  -- The last byte, and then the others.
  down :
      (p q : ℕ)
      → p ≡ dst + size
      → q ≡ src + size
      → src ≤ dst
      → Copied (store m p (m q)) dst src size m'
      → Copied m dst src (suc size) m'
  down p q ep eq h c = record {
    within = λ k l. elim (ℕ_discrete k size) [
      | yes e ↦ last k e
      | no n ↦ c.within k (omega (arith, n, l)) ∙ ground (arith, n, l, h, ep)
    ];
    before = λ a l. ground (arith, c.before a l, ep);
    behind = λ a l. ground (arith, c.behind a (omega arith), ep);
  }
    where
      last : (k : ℕ) → k ≡ size → m' (dst + k) ≡ m (src + k)
      last k e =
          let to : dst + k ≡ p = omega (arith, e, ep) in
          let from : q ≡ src + k = omega (arith, e, eq) in
          ap m' to ∙ c.behind p (omega (arith, ep)) ∙ ground arith ∙ ap m from

-- Going up, no byte is read after it was written.
pub copy_up-Copied :
    (size : ℕ) (m : Memory) (dst src : ℕ)
    → (dst ≤ src) ⊎ (src + size ≤ dst)
    → Copied m dst src size (copy_up size m dst src)
unfolding copy_up
copy_up-Copied zero m dst src h = record {
  within = λ k l. elim l [ ];
  before = λ a l. refl;
  behind = λ a l. refl;
}
copy_up-Copied (suc size) m dst src h =
    up m (copy_up (suc size) m dst src) dst src size h
      (copy_up-Copied size (store m dst (m src)) (dst + 1) (src + 1) (ground (arith, h)))

copy_down-Copied :
    (size : ℕ) (m : Memory) (dst src p q : ℕ)
    → p ≡ dst + size
    → q ≡ src + size
    → src ≤ dst
    → Copied m dst src size (copy_down size m p q)
unfolding copy_down
copy_down-Copied zero m dst src p q ep eq h = record {
  within = λ k l. elim l [ ];
  before = λ a l. refl;
  behind = λ a l. refl;
}
copy_down-Copied (suc size) m dst src p q ep eq h =
    down m (copy_down (suc size) m p q) dst src size (p - 1) (q - 1) (omega (arith, ep))
      (omega (arith, eq)) h
      (copy_down-Copied size (store m (p - 1) (m (q - 1))) dst src (p - 1) (q - 1)
        (omega (arith, ep)) (omega (arith, eq)) h)

-- For blocks that are not at the null pointer, which may overlap, memmove leaves at the destination
-- the bytes that the source had and every other byte as it was; what it returns is the end of the
-- destination if the destination comes first, and its start otherwise.
pub memmove-Copied :
    (m : Memory) (dst src size : ℕ)
    → dst ≢ 0
    → src ≢ 0
    → (m' : Memory) × (memmove m dst src size
        ≡ some ((if ltb dst src then dst + size else dst), m'))
      × Copied m dst src size m'
unfolding memmove
memmove-Copied m dst src size d s = elim (dec_lt dst src) [
  | yes l ↦ (
    copy_up size m dst src,
    ground (arith, d, s, l),
    copy_up-Copied size m dst src (inl (omega (arith, l))),
  )
  | no n ↦ (
    copy_down size m (dst + size) (src + size),
    ground (arith, d, s, n),
    copy_down-Copied size m dst src (dst + size) (src + size) refl refl (omega (arith, n)),
  )
]

pub memcpy-Copied :
    (m : Memory) (dst src size : ℕ)
    → dst ≢ 0
    → src ≢ 0
    → (dst ≤ src) ⊎ (src + size ≤ dst)
    → (m' : Memory) × (memcpy m dst src size ≡ some (dst, m')) × Copied m dst src size m'
unfolding memcpy
memcpy-Copied m dst src size d s h =
    (copy_up size m dst src, ground (arith, d, s), copy_up-Copied size m dst src h)
