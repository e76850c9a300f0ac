-- ===== src/KernelList/Extremes.antt =====
-- `list_max` and `list_min` return the first extreme element.
use cs140_w.Prelude.{
  ◌≡◌, refl, ap, Bool, true, false, some, List, [], ◌∷◌, ◌++◌, Bool-cases, inl, inr,
}
use mathlib.Core.List.{append-nil, append_assoc}
use mathlib.Core.Path.{subst}
use cs140_w.KernelList.{max_loop, list_max}

-- A predicate on every element.
abbrev pub All {ℓ κ} : {A : Type ℓ} → (A → Type κ) → List A → Type κ
All P [] = Unit
All P (x ∷ xs) = P x × All P xs

pub All-append {ℓ κ} :
    {A : Type ℓ} (P : A → Type κ) (xs ys : List A) → All P xs → All P ys → All P (xs ++ ys)
All-append P [] ys h k = k
All-append P (x ∷ xs) ys h k = (h.0, All-append P xs ys h.1 k)

pub All-imp {ℓ κ} :
    {A : Type ℓ} (P Q : A → Type κ) → ((x : A) → P x → Q x) → (xs : List A) → All P xs → All Q xs
All-imp P Q f [] h = tt
All-imp P Q f (x ∷ xs) h = (f x h.0, All-imp P Q f xs h.1)

-- A comparison that orders its elements up to ties.
pub record IsWeakOrder {ℓ} {A : Type ℓ} (less : A → A → Bool) : Type ℓ where
  pub irreflexive : (a : A) → less a a ≡ false
  pub transitive : (a b c : A) → less a b ≡ true → less b c ≡ true → less a c ≡ true
  pub cotransitive : (a b c : A) → less a b ≡ false → less b c ≡ false → less a c ≡ false

module _ {ℓ} {A : Type ℓ} (less : A → A → Bool) where
  -- `m` stands in the list, every element before it is less, and none is greater.
  abbrev pub FirstMax : List A → A → Type ℓ
  FirstMax xs m =
      (before : List A) × (after : List A) × (xs ≡ before ++ m ∷ after)
      × All (λ a. less a m ≡ true) before
      × All (λ a. less m a ≡ false) after

  module _ (o : IsWeakOrder less) where
    -- What is not greater than `m` is less than what `m` is less than.
    below : (a m e : A) → less m a ≡ false → less m e ≡ true → less a e ≡ true
    below a m e h greater = elim (Bool-cases (less a e)) [
      | inl lt ↦ lt
      | inr ge ↦ let no_gt = o.cotransitive m a e h ge in cc
    ]

    -- The loop with the elements already seen on the left.
    max_loop-FirstMax :
        (before : List A) (m : A) (seen rest : List A)
        → All (λ a. less a m ≡ true) before
        → All (λ a. less m a ≡ false) seen
        → FirstMax (before ++ m ∷ (seen ++ rest)) (max_loop less m rest)
    unfolding max_loop
    max_loop-FirstMax before m seen [] lo hi =
        (before, seen, ap (λ l. before ++ m ∷ l) (append-nil seen), lo, hi)
    max_loop-FirstMax before m seen (e ∷ es) lo hi = elim (Bool-cases (less m e)) [
      | inl greater ↦ rw greater (
          subst (λ l. FirstMax l (max_loop less e es)) (regroup_new before m seen e es)
            (max_loop-FirstMax (before ++ m ∷ seen) e [] es
              (All-append _ before (m ∷ seen)
                (All-imp _ _ (λ a h. o.transitive a m e h greater) before lo)
                (greater, All-imp _ _ (λ a h. below a m e h greater) seen hi))
              tt))
      | inr not_greater ↦ rw not_greater (
          subst (λ l. FirstMax l (max_loop less m es)) (regroup_old before m seen e es)
            (max_loop-FirstMax before m (seen ++ e ∷ []) es lo
              (All-append _ seen (e ∷ []) hi (not_greater, tt))))
    ]
      where
        regroup_new :
            (before : List A) (m : A) (seen : List A) (e : A) (es : List A)
            → (before ++ m ∷ seen) ++ e ∷ es ≡ before ++ m ∷ (seen ++ e ∷ es)
        regroup_new before m seen e es = simp append_assoc

        regroup_old :
            (before : List A) (m : A) (seen : List A) (e : A) (es : List A)
            → before ++ m ∷ ((seen ++ e ∷ []) ++ es) ≡ before ++ m ∷ (seen ++ e ∷ es)
        regroup_old before m seen e es = simp append_assoc

    -- For a comparison that orders its elements up to ties, list_max of a list that is not empty is
    -- an element that every element before it is less than, and that no element after it is greater
    -- than.
    pub list_max-FirstMax :
        (x : A) (xs : List A) → (m : A) × (list_max less (x ∷ xs) ≡ some m) × FirstMax (x ∷ xs) m
    unfolding list_max
    list_max-FirstMax x xs = (max_loop less x xs, refl, max_loop-FirstMax [] x [] xs tt tt)
