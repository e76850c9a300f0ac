-- ===== src/KernelList/Removal.antt =====
-- `list_remove` and how often an element stands in a list.
use cs140_w.Prelude.{ℕ, ◌+◌, ◌-◌, ◌≡◌, ◌≢◌, ◌==◌, if◌then◌else◌, List, [], ◌∷◌, ◌++◌, arith}
use cs140_w.KernelList.{list_remove}
use cs140_w.KernelList.Extremes.{All}

module _ (a : ℕ) where
  -- How often `a` stands in the list.
  abbrev pub occurrences : List ℕ → ℕ
  occurrences [] = 0
  occurrences (e ∷ es) = occurrences es + (if a == e then 1 else 0)

  pub occurrences-append :
      (front back : List ℕ) → occurrences (front ++ back) ≡ occurrences front + occurrences back
  occurrences-append [] back = ground arith
  occurrences-append (e ∷ es) back = ground (arith, occurrences-append es back)

  pub occurrences-remove :
      (b : ℕ) (es : List ℕ)
      → occurrences (list_remove b es) ≡ occurrences es - (if a == b then 1 else 0)
  unfolding list_remove
  occurrences-remove b [] = ground arith
  occurrences-remove b (e ∷ es) = ground (arith, occurrences-remove b es)

  pub remove-append :
      (xs ys : List ℕ) → All (λ x. x ≢ a) xs → list_remove a (xs ++ a ∷ ys) ≡ xs ++ ys
  unfolding list_remove
  remove-append [] ys h = ground arith
  remove-append (x ∷ xs) ys h = ground (arith, remove-append xs ys h.1, h.0)
