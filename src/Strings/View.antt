-- ===== src/Strings/View.antt =====
-- Strings in memory as sequences of characters: `strlen` and `strchr`.
use cs140_w.Prelude.{
  ℕ, zero, suc, ◌+◌, ◌≤◌, ◌<◌, ◌≡◌, ◌≢◌, ap, ◌∙◌, ◌==◌, Bool, not, ◌||◌, some, arith, ℕ_discrete,
  List, [], ◌∷◌, ◌++◌, length, take,
}
use mathlib.Core.Path.{subst}
use cs140_w.Strings.{Memory, store, strlen, strlen_loop, strchr, strchr_loop}

-- At `p` stands the string of the characters `s`, with its null terminator.
abbrev pub Holds : Memory → ℕ → List ℕ → Type 0
Holds m p [] = m p ≡ 0
Holds m p (c ∷ s) = (m p ≡ c) × (c ≢ 0) × Holds m (p + 1) s

-- Memories that agree on the string and its terminator.
pub Holds-same :
    (m m' : Memory) (p : ℕ) (s : List ℕ)
    → ((a : ℕ) → p ≤ a → a ≤ p + length s → m' a ≡ m a)
    → Holds m p s
    → Holds m' p s
Holds-same m m' p [] same h = same p (omega arith) (omega arith) ∙ h
Holds-same m m' p (c ∷ s) same (e, n, h) = (
  same p (omega arith) (omega arith) ∙ e,
  n,
  Holds-same m m' (p + 1) s (λ a b l. same a (omega arith) (omega arith)) h,
)

strlen_loop-end :
    (fuel : ℕ) (m : Memory) (p : ℕ) (s : List ℕ)
    → Holds m p s
    → length s < fuel
    → strlen_loop fuel m p ≡ some (p + length s)
unfolding strlen_loop
strlen_loop-end zero m p s h l = elim l [ ]
strlen_loop-end (suc fuel) m p [] h l = ground (arith, h)
strlen_loop-end (suc fuel) m p (c ∷ s) (e, n, h) l =
    ground (arith, e, n, strlen_loop-end fuel m (p + 1) s h (omega (arith, l)))

pub strlen-length :
    (fuel : ℕ) (m : Memory) (p : ℕ) (s : List ℕ)
    → p ≢ 0
    → Holds m p s
    → length s < fuel
    → strlen fuel m p ≡ some (length s)
unfolding strlen
strlen-length fuel m p s p0 h l = ground (arith, p0, strlen_loop-end fuel m p s h l)

-- Whether the character is in the string, the terminator included.
abbrev pub has : List ℕ → ℕ → Bool
has [] c = 0 == c
has (d ∷ s) c = d == c || has s c

-- `strchr` finds a character exactly if it is in the string.
strchr_loop-has :
    (fuel : ℕ) (m : Memory) (p c : ℕ) (s : List ℕ)
    → p ≢ 0
    → Holds m p s
    → length s < fuel
    → (r : ℕ) × (strchr_loop fuel m p c ≡ some r) × ((r == 0) ≡ not (has s c))
unfolding strchr_loop
strchr_loop-has zero m p c s p0 h l = elim l [ ]
strchr_loop-has (suc fuel) m p c [] p0 h l = elim (ℕ_discrete c 0) [
  | yes e ↦ (p, ground (arith, e, h), ground (arith, e, p0))
  | no n ↦ (0, ground (arith, n, h), ground (arith, n))
]
strchr_loop-has (suc fuel) m p c (d ∷ s) p0 (e, n, h) l = elim (ℕ_discrete d c) [
  | yes same ↦ (p, ground (arith, e, same), ground (arith, p0, same))
  | no other ↦
      let (r, found, right) =
        strchr_loop-has fuel m (p + 1) c s (omega arith) h (omega (arith, l)) in
      (r, ground (arith, e, n, other, found), ground (arith, right, other))
]

pub strchr-has :
    (fuel : ℕ) (m : Memory) (p c : ℕ) (s : List ℕ)
    → p ≢ 0
    → Holds m p s
    → length s < fuel
    → (r : ℕ) × (strchr fuel m p c ≡ some r) × ((r == 0) ≡ not (has s c))
unfolding strchr
strchr-has fuel m p c s p0 h l =
    let (r, found, right) = strchr_loop-has fuel m p c s p0 h l in
    (r, ground (arith, p0, found), right)

-- A copy of the first `n` characters, ended by a null byte at `q`.
pub copied-Holds :
    (m m' : Memory) (dst src n q : ℕ) (s : List ℕ)
    → Holds m src s
    → n ≤ length s
    → q ≡ dst + n
    → ((k : ℕ) → k < n → m' (dst + k) ≡ m (src + k))
    → Holds (store m' q 0) dst (take n s)
copied-Holds m m' dst src zero q s h l e c = ground (arith, e)
copied-Holds m m' dst src (suc n) q [] h l e c = elim l [ ]
copied-Holds m m' dst src (suc n) q (d ∷ s) (f, z, h) l e c = (
  ground (arith, e, f, c 0 (omega arith), ap m' zero_dst, ap m zero_src),
  z,
  copied-Holds m m' (dst + 1) (src + 1) n q s h (omega (arith, l)) (omega (arith, e))
      (λ k b. ap m' (to k) ∙ c (k + 1) (omega (arith, b)) ∙ ap m (from k)),
)
  where
    zero_dst : dst ≡ dst + 0
    zero_dst = omega arith

    zero_src : src + 0 ≡ src
    zero_src = omega arith

    to : (k : ℕ) → dst + 1 + k ≡ dst + (k + 1)
    to k = omega arith

    from : (k : ℕ) → src + (k + 1) ≡ src + 1 + k
    from k = omega arith

-- A string that goes on with another one at the place of its terminator.
pub append-Holds :
    (m m' : Memory) (p q : ℕ) (t u : List ℕ)
    → Holds m p t
    → q ≡ p + length t
    → ((a : ℕ) → p ≤ a → a < q → m' a ≡ m a)
    → Holds m' q u
    → Holds m' p (t ++ u)
append-Holds m m' p q [] u h e same v = subst (λ z. Holds m' z u) (omega (arith, e)) v
append-Holds m m' p q (c ∷ t) u (f, z, h) e same v = (
  same p (omega arith) (omega (arith, e)) ∙ f,
  z,
  append-Holds m m' (p + 1) q t u h (omega (arith, e)) (λ a b l. same a (omega arith) l) v,
)
