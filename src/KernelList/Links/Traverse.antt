-- ===== src/KernelList/Links/Traverse.antt =====
-- `list_init` and the loop of `list_size`: the empty list, and a walk from the beginning to the end.
use cs140_w.Prelude.{
  ℕ, zero, suc, ◌+◌, ◌<◌, ◌≡◌, ◌≢◌, ap, ◌∙◌, some, List, [], ◌∷◌, ◌++◌, arith, length,
}
use cs140_w.KernelList.Removal.{occurrences, occurrences-append}
use cs140_w.KernelList.Links.{Links, ListEnds, list_init, list_next, list_size, size_loop}
use cs140_w.KernelList.Links.Chains.{Chained, Distinct}
use cs140_w.KernelList.Links.Lists.{IsList}

-- `list_init` makes an empty list.
pub list_init-IsList :
    (m : Links) (l : ListEnds)
    → l.head ≢ 0
    → l.tail ≢ 0
    → l.head ≢ l.tail
    → IsList (list_init m l) l []
unfolding list_init
list_init-IsList m l h t other = record {
  chained = (ground (arith, other), ground (arith, other), tt);
  distinct = λ a. ground (arith, other);
  no_null = ground (arith, h, t);
  top = ground (arith, other);
  bottom = ground (arith, other);
}

module _ (m : Links) (t : ℕ) where
  next-nonzero :
      (y : ℕ) (ys : List ℕ)
      → occurrences 0 (ys ++ t ∷ []) ≡ 0
      → Chained m (y ∷ ys ++ t ∷ [])
      → m.next y ≢ 0
  next-nonzero y [] n (e, g, h) = ground (arith, n, e)
  next-nonzero y (z ∷ ys) n (e, g, h) = ground (arith, n, e)

  size_loop-rest :
      (fuel c x : ℕ) (ys : List ℕ)
      → length ys < fuel
      → Distinct (ys ++ t ∷ [])
      → occurrences 0 (ys ++ t ∷ []) ≡ 0
      → x ≢ 0
      → Chained m (x ∷ ys ++ t ∷ [])
      → size_loop fuel m (m.next x) t c ≡ some (c + length ys)
  unfolding size_loop list_next
  size_loop-rest zero c x ys f d n x0 e = ground (arith, f)
  size_loop-rest (suc fuel) c x [] f d n x0 e = ground (arith, e)
  size_loop-rest (suc fuel) c x (y ∷ ys) f d n x0 (e, g, h) = ground (
    arith,
    e,
    g,
    x0,
    d t,
    n,
    occurrences-append t ys (t ∷ []),
    next-nonzero y ys (ground (arith, n)) h,
    size_loop-rest fuel (c + 1) y ys (ground (arith, f)) (λ a. ground (arith, d a))
        (ground (arith, n)) (ground (arith, n)) h,
  )

-- `list_size` counts the elements, with fuel above their number.
pub list_size-length :
    (m : Links) (l : ListEnds) (xs : List ℕ) (fuel : ℕ)
    → IsList m l xs
    → length xs < fuel
    → list_size fuel m l ≡ some (length xs)
unfolding list_size
list_size-length m l xs fuel i f =
    size_loop-rest m l.tail fuel 0 l.head xs f (λ a. ground (arith, i.distinct a))
      (ground (arith, i.no_null)) (ground (arith, i.no_null)) i.chained
    ∙ ap some (omega arith)
