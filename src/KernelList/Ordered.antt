-- ===== src/KernelList/Ordered.antt =====
-- `list_insert_ordered` keeps a list in order.
use cs140_w.Prelude.{◌≡◌, refl, ap, Bool, true, false, List, [], ◌∷◌, ◌++◌, Bool-cases, inl, inr}
use cs140_w.KernelList.{list_insert_ordered}
use cs140_w.KernelList.Extremes.{All, All-imp, IsWeakOrder}

module _ {ℓ} {A : Type ℓ} (less : A → A → Bool) where
  -- No element is greater than a later one.
  abbrev pub IsOrdered : List A → Type ℓ
  IsOrdered [] = Unit
  IsOrdered (x ∷ xs) = All (λ y. less y x ≡ false) xs × IsOrdered xs

  -- `a` was put into `xs` behind every element that is not greater, and before a greater one.
  abbrev pub InsertedIn : A → List A → List A → Type ℓ
  InsertedIn a xs ys =
      (before : List A) × (after : List A) × (xs ≡ before ++ after)
      × (ys ≡ before ++ a ∷ after)
      × All (λ b. less a b ≡ false) before
      × IsOrdered ys

  All-list_insert_ordered {κ} :
      (P : A → Type κ) (a : A) (xs : List A)
      → P a
      → All P xs
      → All P (list_insert_ordered less a xs)
  unfolding list_insert_ordered
  All-list_insert_ordered P a [] p h = (p, tt)
  All-list_insert_ordered P a (e ∷ es) p h = elim (Bool-cases (less a e)) [
    | inl lt ↦ rw lt (p, h)
    | inr ge ↦ rw ge (h.0, All-list_insert_ordered P a es p h.1)
  ]

  module _ (o : IsWeakOrder less) where
    asymmetric : (a b : A) → less a b ≡ true → less b a ≡ false
    asymmetric a b h = elim (Bool-cases (less b a)) [
      | inr no_gt ↦ no_gt
      | inl gt ↦ let loop = o.transitive a b a h gt in let self = o.irreflexive a in cc
    ]

    -- What is not less than a greater element is not less than `a`.
    not_less_trans : (a x y : A) → less a x ≡ true → less y x ≡ false → less y a ≡ false
    not_less_trans a x y h k = elim (Bool-cases (less y a)) [
      | inr no_lt ↦ no_lt
      | inl lt ↦ let chain = o.transitive y a x lt h in cc
    ]

    pub list_insert_ordered-InsertedIn :
        (a : A) (xs : List A) → IsOrdered xs → InsertedIn a xs (list_insert_ordered less a xs)
    unfolding list_insert_ordered
    list_insert_ordered-InsertedIn a [] h = ([], [], refl, refl, tt, (tt, tt))
    list_insert_ordered-InsertedIn a (e ∷ es) h = elim (Bool-cases (less a e)) [
      | inl lt ↦ rw lt (
        [],
        e ∷ es,
        refl,
        refl,
        tt,
        ((asymmetric a e lt, All-imp _ _ (λ y. not_less_trans a e y lt) es h.0), h),
      )
      | inr ge ↦
          let (before, after, was, is, lo, sorted) = list_insert_ordered-InsertedIn a es h.1 in
          rw ge (
            e ∷ before,
            after,
            ap (λ l. e ∷ l) was,
            ap (λ l. e ∷ l) is,
            (ge, lo),
            (All-list_insert_ordered (λ y. less y e ≡ false) a es ge h.0, sorted),
          )
    ]
