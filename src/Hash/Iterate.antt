-- ===== src/Hash/Iterate.antt =====
-- An iterator visits the elements that `hash_apply` visits, in the same order.
use cs140_w.Prelude.{
  ℕ, zero, suc, ◌+◌, ◌-◌, ◌<◌, ◌≡◌, refl, ap, none, some, List, [], ◌∷◌, ◌++◌, length, arith,
}
use mathlib.Core.Path.{subst}
use cs140_w.Hash.{Hash, Iterator, elements_from, hash_first, next_loop, hash_next}

-- What is left to be visited by an iterator.
abbrev pub left : Hash → Iterator → List ℕ
left h i = i.rest ++ elements_from (h.bucket_cnt - 1 - i.bucket) (i.bucket + 1) h.buckets

-- The loop in which callers use an iterator: the elements that `hash_cur` gives.
unfoldable pub visit : ℕ → Hash → Iterator → List ℕ
visit zero h i = []
visit (suc fuel) h i =
    let i' = hash_next h i in
    elim (i'.elem) [ none ↦ [] | some e ↦ e ∷ visit fuel h (hash_next h i) ]

-- What an iterator is at, given what was left before the step to it.
abbrev Stepped : Hash → Iterator → List ℕ → Type 0
Stepped h i [] = i.elem ≡ none
Stepped h i (x ∷ xs) = (i.elem ≡ some x) × (i.bucket < h.bucket_cnt) × (left h i ≡ xs)

module _ (h : Hash) where
  next_loop-Stepped :
      (n b : ℕ) (rest : List ℕ)
      → b + n + 1 ≡ h.bucket_cnt
      → Stepped h (next_loop n h b rest) (rest ++ elements_from n (b + 1) h.buckets)
  unfolding next_loop elements_from
  next_loop-Stepped n b (e ∷ rest) k =
      (refl, omega arith, ap (λ m. rest ++ elements_from m (b + 1) h.buckets) (omega arith))
  next_loop-Stepped zero b [] k = refl
  next_loop-Stepped (suc n) b [] k = next_loop-Stepped n (b + 1) (h.buckets (b + 1)) (omega arith)

  next_step : (i : Iterator) → i.bucket < h.bucket_cnt → Stepped h (hash_next h i) (left h i)
  unfolding hash_next
  next_step i b = next_loop-Stepped (h.bucket_cnt - 1 - i.bucket) i.bucket i.rest (omega arith)

  visit-eq :
      (fuel : ℕ) (i : Iterator) (total : List ℕ)
      → i.bucket < h.bucket_cnt
      → left h i ≡ total
      → length total < fuel
      → visit fuel h i ≡ total
  unfolding visit
  visit-eq zero i total b e room = absurd (omega arith)
  visit-eq (suc fuel) i total b e room =
      by_total total room (visit-eq fuel (hash_next h i))
        (subst (Stepped h (hash_next h i)) e (next_step i b))
    where
      by_total :
          (l : List ℕ)
          → length l < suc fuel
          → ((xs : List ℕ)
              → (hash_next h i).bucket < h.bucket_cnt
              → left h (hash_next h i) ≡ xs
              → length xs < fuel
              → visit fuel h (hash_next h i) ≡ xs)
          → Stepped h (hash_next h i) l
          → visit (suc fuel) h i ≡ l
      by_total [] r ih s = rw (s, visit) refl
      by_total (x ∷ xs) r ih (here, small, onward) =
          rw (here, visit) (ap (λ l. x ∷ l) (ih xs small onward (omega arith)))

  -- In a table with at least one bucket, hash_first and then hash_next until it finds nothing visit
  -- the elements of all buckets, one bucket after the other, each as often as it stands there; one
  -- call more than there are elements is enough.
  pub visit-elements :
      0 < h.bucket_cnt
      → visit (length (elements_from h.bucket_cnt 0 h.buckets) + 1) h (hash_first h)
        ≡ elements_from h.bucket_cnt 0 h.buckets
  unfolding hash_first elements_from
  visit-elements some_buckets =
      visit-eq (length (elements_from h.bucket_cnt 0 h.buckets) + 1) (hash_first h)
        (elements_from h.bucket_cnt 0 h.buckets) some_buckets (whole h.bucket_cnt some_buckets)
        (omega arith)
    where
      whole :
          (n : ℕ)
          → 0 < n
          → h.buckets 0 ++ elements_from (n - 1 - 0) 1 h.buckets ≡ elements_from n 0 h.buckets
      whole zero p = absurd (omega arith)
      whole (suc n) p = ap (λ m. h.buckets 0 ++ elements_from m 1 h.buckets) (omega arith)
