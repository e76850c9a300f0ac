-- ===== src/Hash/View.antt =====
-- What a table stands for: for every element the equal one that is in it, if any.
use Prim.Native.Nat.{bit_and}
use cs140_w.Prelude.{
  ℕ, ◌+◌, ◌-◌, ◌≤◌, ◌<◌, ◌≡◌, ◌≢◌, refl, ap, ◌∙◌, sym, ◌==◌, Bool, true, false, if◌then◌else◌, none,
  some, List, [], ◌∷◌, arith, Bool-cases, inl, inr, ℕ_discrete,
}
use cs140_w.KernelList.{list_remove}
use cs140_w.KernelList.Extremes.{All, IsWeakOrder}
use cs140_w.Hash.{slot, same, find_elem}

-- What a table asks of its functions: an order up to ties, and one hash for equal elements.
pub record Laws (hash : ℕ → ℕ) (less : ℕ → ℕ → Bool) : Type 0 where
  pub order : IsWeakOrder less
  pub respects : (a b : ℕ) → same hash less a b ≡ true → hash a ≡ hash b

module _ (hash : ℕ → ℕ) (less : ℕ → ℕ → Bool) where
  -- How many elements of a bucket are equal to `e`.
  abbrev pub equals : List ℕ → ℕ → ℕ
  equals [] e = 0
  equals (x ∷ xs) e = (if same hash less x e then 1 else 0) + equals xs e

  -- Each element stands in the bucket of its hash, and no two elements are equal.
  pub record IsTable (bucket_cnt : ℕ) (buckets : ℕ → List ℕ) : Type 0 where
    pub some_buckets : 0 < bucket_cnt
    pub placed : (i : ℕ) → All (λ x. slot hash less bucket_cnt x ≡ i) (buckets i)
    pub once : (i e : ℕ) → equals (buckets i) e ≤ 1

  module _ (laws : Laws hash less) where
    pub same_self : (a : ℕ) → same hash less a a ≡ true
    same_self a = let o = laws.order in ground (arith, o.irreflexive a)

    pub same_sym : (a b : ℕ) → same hash less a b ≡ true → same hash less b a ≡ true
    same_sym a b h = ground arith

    -- Equal elements are equal to the same elements.
    pub same_congr :
        (x p q : ℕ) → same hash less p q ≡ true → same hash less x p ≡ same hash less x q
    same_congr x p q h =
        let o = laws.order in
        ground (
          arith,
          o.cotransitive x p q,
          o.cotransitive q p x,
          o.cotransitive x q p,
          o.cotransitive p q x,
        )

    pub find_congr :
        (l : List ℕ) (p q : ℕ)
        → same hash less p q ≡ true
        → find_elem hash less l p ≡ find_elem hash less l q
    unfolding find_elem
    find_congr [] p q h = refl
    find_congr (x ∷ xs) p q h = ground (arith, same_congr x p q h, find_congr xs p q h)

    pub equals_congr : (l : List ℕ) (p q : ℕ) → same hash less p q ≡ true → equals l p ≡ equals l q
    equals_congr [] p q h = refl
    equals_congr (x ∷ xs) p q h = ground (arith, same_congr x p q h, equals_congr xs p q h)

    pub slot_congr :
        (bucket_cnt p q : ℕ)
        → same hash less p q ≡ true
        → slot hash less bucket_cnt p ≡ slot hash less bucket_cnt q
    slot_congr bucket_cnt p q h = ap (λ x. bit_and x (bucket_cnt - 1)) (laws.respects p q h)

    -- In a bucket that is not its own there is no element equal to `q`.
    pub elsewhere :
        (bucket_cnt i q : ℕ) (l : List ℕ)
        → All (λ x. slot hash less bucket_cnt x ≡ i) l
        → slot hash less bucket_cnt q ≢ i
        → equals l q ≡ 0
    elsewhere bucket_cnt i q [] a ne = refl
    elsewhere bucket_cnt i q (x ∷ xs) a ne = elim (Bool-cases (same hash less x q)) [
      | inl e ↦ absurd (ne (sym (slot_congr bucket_cnt x q e) ∙ a.0))
      | inr d ↦ rw d (omega (arith, elsewhere bucket_cnt i q xs a.1 ne))
    ]

  pub find-none : (l : List ℕ) (e : ℕ) → equals l e ≡ 0 → find_elem hash less l e ≡ none
  unfolding find_elem
  find-none [] e h = refl
  find-none (x ∷ xs) e h = ground (arith, find-none xs e)

  pub none-equals : (l : List ℕ) (e : ℕ) → find_elem hash less l e ≡ none → equals l e ≡ 0
  unfolding find_elem
  none-equals [] e h = refl
  none-equals (x ∷ xs) e h = ground (arith, none-equals xs e)

  pub find-same :
      (l : List ℕ) (e x : ℕ) → find_elem hash less l e ≡ some x → same hash less x e ≡ true
  unfolding find_elem
  find-same [] e x h = cc
  find-same (y ∷ ys) e x h = ground (arith, find-same ys e x)

  -- Unlinking an element that is not equal to `q` leaves what is found for `q`.
  pub find-remove :
      (l : List ℕ) (x q : ℕ)
      → same hash less x q ≡ false
      → find_elem hash less (list_remove x l) q ≡ find_elem hash less l q
  unfolding find_elem list_remove
  find-remove [] x q h = refl
  find-remove (y ∷ ys) x q h = elim (ℕ_discrete x y) [
    | yes e ↦ ground (arith, ap (λ z. same hash less z q) e)
    | no ne ↦ ground (arith, find-remove ys x q h)
  ]

  pub equals-remove-le : (l : List ℕ) (x q : ℕ) → equals (list_remove x l) q ≤ equals l q
  unfolding list_remove
  equals-remove-le [] x q = omega arith
  equals-remove-le (y ∷ ys) x q = ground (arith, equals-remove-le ys x q)

  pub equals-remove :
      (l : List ℕ) (e x : ℕ)
      → find_elem hash less l e ≡ some x
      → equals (list_remove x l) e + 1 ≡ equals l e
  unfolding find_elem list_remove
  equals-remove [] e x h = cc
  equals-remove (y ∷ ys) e x h = elim (ℕ_discrete x y) [
    | yes eq ↦ ground (arith, find-same (y ∷ ys) e x h, ap (λ z. same hash less z e) eq)
    | no ne ↦ ground (arith, equals-remove ys e x)
  ]

  pub All-remove {κ} : (P : ℕ → Type κ) (x : ℕ) (l : List ℕ) → All P l → All P (list_remove x l)
  unfolding list_remove
  All-remove P x [] a = tt
  All-remove P x (y ∷ ys) a = elim (Bool-cases (x == y)) [
    | inl e ↦ rw e a.1
    | inr ne ↦ rw ne (a.0, All-remove P x ys a.1)
  ]
