-- ===== src/Strings/Tokens.antt =====
-- `strtok_r` splits a string at delimiters, in place.
use cs140_w.Prelude.{
  ℕ, zero, suc, ◌+◌, ◌≤◌, ◌<◌, ◌≡◌, ◌≢◌, refl, ap, sym, ◌∙◌, ◌⊎◌, inl, inr, ◌==◌, Bool, true, false,
  if◌then◌else◌, some, ◌>>=◌, arith, List, [], ◌∷◌, length, Bool-cases,
}
use mathlib.Core.Path.{subst}
use cs140_w.Strings.{Memory, store, end_token, skip_loop, token_loop, strtok_r}
use cs140_w.Strings.View.{Holds, Holds-same, has, strchr-has}

-- The string from its first character that is no delimiter on.
abbrev pub skip : List ℕ → List ℕ → List ℕ
skip ds [] = []
skip ds (c ∷ s) = let rest = skip ds s in if has ds c then rest else c ∷ s

-- The characters before the first delimiter.
abbrev pub word : List ℕ → List ℕ → List ℕ
word ds [] = []
word ds (c ∷ s) = let rest = word ds s in if has ds c then [] else c ∷ rest

-- The characters behind the first delimiter.
abbrev pub after : List ℕ → List ℕ → List ℕ
after ds [] = []
after ds (c ∷ s) = let rest = after ds s in if has ds c then s else rest

length-skip : (ds s : List ℕ) → length (skip ds s) ≤ length s
length-skip ds [] = omega arith
length-skip ds (c ∷ s) = ground (arith, length-skip ds s)

abbrev nonempty : List ℕ → Bool
nonempty [] = false
nonempty (c ∷ s) = true

has-end : (ds : List ℕ) → has ds 0 ≡ true
has-end [] = refl
has-end (c ∷ ds) = ground (arith, has-end ds)

module _ (m : Memory) (d : ℕ) (ds : List ℕ) (inner : ℕ) (d0 : d ≢ 0) (hd : Holds m d ds)
    (enough : length ds < inner) where
  skip_loop-skip :
      (fuel p : ℕ) (s : List ℕ)
      → Holds m p s
      → length s < fuel
      → (q : ℕ) × (skip_loop fuel inner m d p ≡ some (nonempty (skip ds s), q))
        × Holds m q (skip ds s)
        × (q + length (skip ds s) ≡ p + length s)
  unfolding skip_loop
  skip_loop-skip zero p s h f = elim f [ ]
  skip_loop-skip (suc fuel) p [] h f =
      let (r, found, right) = strchr-has inner m d (m p) ds d0 hd enough in
      (p, ground (arith, h, found, right, has-end ds, ap (has ds) h), h, refl)
  skip_loop-skip (suc fuel) p (c ∷ s) (e, n, h) f =
      let (r, found, right) = strchr-has inner m d (m p) ds d0 hd enough in
      let (q, ran, held, size) = skip_loop-skip fuel (p + 1) s h (omega (arith, f)) in
      elim (Bool-cases (has ds c)) [
        | inl y ↦ (
          q,
          ground (arith, found, right, e, n, y, ran, ap (has ds) e),
          subst (Holds m q) (ground (arith, y)) held,
          ground (arith, size, y),
        )
        | inr y ↦ (
          p,
          ground (arith, found, right, e, n, y, ap (has ds) e),
          subst (Holds m p) {x = c ∷ s} (ground (arith, y)) (e, n, h),
          ground (arith, y),
        )
      ]

  token_loop-word :
      (fuel p : ℕ) (s : List ℕ)
      → Holds m p s
      → length s < fuel
      → (token_loop fuel inner m d p ≡ some (p + length (word ds s)))
  unfolding token_loop
  token_loop-word zero p s h f = elim f [ ]
  token_loop-word (suc fuel) p [] h f =
      let (r, found, right) = strchr-has inner m d (m p) ds d0 hd enough in
      ground (arith, found, right, has-end ds, ap (has ds) h)
  token_loop-word (suc fuel) p (c ∷ s) (e, n, h) f =
      let (r, found, right) = strchr-has inner m d (m p) ds d0 hd enough in
      ground
        (arith, found, right, ap (has ds) e, token_loop-word fuel (p + 1) s h (omega (arith, f)))

-- The end of the first word: the end of the string, or a delimiter with the rest of it behind.
word-end :
    (m : Memory) (ds : List ℕ) (p q : ℕ) (s : List ℕ)
    → Holds m p s
    → q ≡ p + length (word ds s)
    → ((m q ≡ 0) × (word ds s ≡ s) × (after ds s ≡ []))
      ⊎ ((m q ≢ 0) × Holds m (q + 1) (after ds s) × (q < p + length s))
word-end m ds p q [] h e = inl (ap m (omega (arith, e)) ∙ h, refl, refl)
word-end m ds p q (c ∷ s) (f, n, h) e = elim (Bool-cases (has ds c)) [
  | inl y ↦
      let at : q ≡ p = ground (arith, e, y) in
      let rest : s ≡ after ds (c ∷ s) = ground (arith, y) in
      inr (
        ground (arith, n, ap m at ∙ f),
        subst (Holds m (q + 1)) rest (subst (λ z. Holds m (z + 1) s) (sym at) h),
        omega (arith, at),
      )
  | inr y ↦ elim (word-end m ds (p + 1) q s h (ground (arith, e, y))) [
    | inl (z, w, r) ↦ inl (z, ground (arith, y) ∙ ap (λ k. c ∷ k) w, ground (arith, y, r))
    | inr (z, r, l) ↦
        let rest : after ds s ≡ after ds (c ∷ s) = ground (arith, y) in
        inr (z, subst (Holds m (q + 1)) rest r, omega (arith, l))
  ]
]

word-Holds :
    (m : Memory) (ds : List ℕ) (p q : ℕ) (s : List ℕ)
    → Holds m p s
    → q ≡ p + length (word ds s)
    → Holds (store m q 0) p (word ds s)
word-Holds m ds p q [] h e = ground (arith, e)
word-Holds m ds p q (c ∷ s) (f, n, h) e = elim (Bool-cases (has ds c)) [
  | inl y ↦
      let no_word : [] ≡ word ds (c ∷ s) = ground (arith, y) in
      let here : store m q 0 p ≡ 0 = ground (arith, e, y) in
      subst (Holds (store m q 0) p) no_word here
  | inr y ↦
      let more : c ∷ word ds s ≡ word ds (c ∷ s) = ground (arith, y) in
      let kept : store m q 0 p ≡ c = ground (arith, e, y, f) in
      let rest : Holds (store m q 0) (p + 1) (word ds s) =
        word-Holds m ds (p + 1) q s h (ground (arith, e, y)) in
      subst (Holds (store m q 0) p) more (kept, n, rest)
]

-- What `strtok_r` gives for the string `s`, which starts at its first token: the token, and behind it
-- the rest for the next call. There is no token in the empty string.
abbrev pub IsToken : List ℕ → List ℕ → ℕ → ℕ → Memory → Type 0
IsToken ds [] token save m = (token ≡ 0) × Holds m save []
IsToken ds (c ∷ s) token save m =
    (token ≢ 0) × Holds m token (word ds (c ∷ s)) × Holds m save (after ds (c ∷ s))

found-Token :
    (m : Memory) (ds : List ℕ) (p : ℕ) (s : List ℕ)
    → p ≢ 0
    → Holds m p s
    → (save : ℕ) × (m' : Memory) × (end_token m p (p + length (word ds s)) ≡ (p, save, m'))
      × Holds m' p (word ds s)
      × Holds m' save (after ds s)
      × ((a : ℕ) → (a < p) ⊎ (p + length s ≤ a) → m' a ≡ m a)
found-Token m ds p s p0 h = elim (word-end m ds p q s h refl) [
  | inl (z, w, r) ↦ (
    q,
    m,
    ground (arith, z),
    subst (Holds m p) (sym w) h,
    subst (Holds m q) (sym r) z,
    λ a o. refl,
  )
  | inr (z, r, l) ↦ (
    q + 1,
    store m q 0,
    ground (arith, z),
    word-Holds m ds p q s h refl,
    Holds-same m (store m q 0) (q + 1) (after ds s) (λ a b c. ground (arith, b)) r,
    λ a o. ground (arith, o, l),
  )
]
  where
    q : ℕ
    q = p + length (word ds s)

-- `strtok_r` from where the loop over delimiters has ended.
finish :
    (fuel : ℕ) (m : Memory) (q d : ℕ) (t ds : List ℕ)
    → d ≢ 0
    → q ≢ 0
    → Holds m d ds
    → Holds m q t
    → length ds < fuel
    → length t < fuel
    → (token : ℕ) × (save' : ℕ) × (m' : Memory) × ((if nonempty t
          then (token_loop fuel fuel m d q >>= λ end_. some (end_token m q end_))
          else some (0, q, m))
        ≡ some (token, save', m'))
      × IsToken ds t token save' m'
      × ((a : ℕ) → (a < q) ⊎ (q + length t ≤ a) → m' a ≡ m a)
finish fuel m q d [] ds d0 q0 hd h fd f = (0, q, m, refl, (refl, h), λ a o. refl)
finish fuel m q d (c ∷ t) ds d0 q0 hd h fd f =
    let (save', m', ended, held, rest, spared) = found-Token m ds q (c ∷ t) q0 h in
    let ran = token_loop-word m d ds fuel d0 hd fd fuel q (c ∷ t) h f in
    (
      q,
      save',
      m',
      ap (λ o. o >>= λ end_. some (end_token m q end_)) ran ∙ ap some ended,
      (q0, held, rest),
      spared,
    )

-- With strings at the pointer it starts from and at the delimiters, neither of them null, and fuel
-- above both lengths, strtok_r returns the first word behind leading delimiters, ended by a null
-- byte, and saves a place that holds what follows the delimiter behind the word; or, if there are
-- delimiters only, it returns a null pointer and saves an empty string. No byte outside the string
-- is written.
pub strtok_r-IsToken :
    (fuel : ℕ) (m : Memory) (s d save : ℕ) (str ds : List ℕ)
    → d ≢ 0
    → (if s == 0 then save else s) ≢ 0
    → Holds m d ds
    → Holds m (if s == 0 then save else s) str
    → length ds < fuel
    → length str < fuel
    → (token : ℕ) × (save' : ℕ) × (m' : Memory) × (strtok_r fuel m s d save
        ≡ some (token, save', m'))
      × IsToken ds (skip ds str) token save' m'
      × ((a : ℕ)
          → (a < (if s == 0 then save else s)) ⊎ ((if s == 0 then save else s) + length str ≤ a)
          → m' a ≡ m a)
unfolding strtok_r
strtok_r-IsToken fuel m s d save str ds d0 from0 hd h fd f =
    let (q, ran, held, size) = skip_loop-skip m d ds fuel d0 hd fd fuel _ str h f in
    let (token, save', m', ran', is, spared) =
      finish fuel m q d (skip ds str) ds d0 (omega (arith, size, length-skip ds str, from0)) hd held
        fd (omega (arith, length-skip ds str, f)) in
    (
      token,
      save',
      m',
      ground (arith, d0, from0, ran, ran'),
      is,
      λ a o. spared a (ground (arith, size, length-skip ds str, o)),
    )
