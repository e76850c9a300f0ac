-- ===== src/KernelList/Links/Insertion.antt =====
-- `list_insert` on the links inserts into the sequence.
use cs140_w.Prelude.{ℕ, ◌+◌, ◌≡◌, ◌≢◌, ap, ◌∙◌, sym, some, List, [], ◌∷◌, ◌++◌, arith, ℕ_discrete}
use mathlib.Core.List.{append_assoc}
use mathlib.Core.Path.{subst}
use cs140_w.KernelList.Removal.{occurrences, occurrences-append}
use cs140_w.KernelList.Links.{Links, ListEnds, set_prev, set_next, list_insert}
use cs140_w.KernelList.Links.Chains.{
  Chained, Distinct, cut, SameLinks, Chained-same, join, join-right, join-Chained,
}
use cs140_w.KernelList.Links.Lists.{
  IsList, nodes, front, Outside, back, but_last, rest, nodes-split, nodes-insert, head-ne-front,
  tail-ne-back,
}

insert-Distinct :
    (pre post : List ℕ) (e : ℕ)
    → Distinct (pre ++ post)
    → occurrences e (pre ++ post) ≡ 0
    → Distinct (pre ++ e ∷ post)
insert-Distinct pre post e d new a = elim (ℕ_discrete a e) [
  | yes same ↦ ground (
    arith,
    occurrences-append a pre (e ∷ post),
    occurrences-append e pre post,
    ap (λ z. occurrences z pre) same,
    ap (λ z. occurrences z post) same,
  )
  | no other ↦
      ground (arith, d a, occurrences-append a pre (e ∷ post), occurrences-append a pre post)
]

-- Insertion between two elements that are linked.
module _ (m : Links) (pre : List ℕ) (p b : ℕ) (post : List ℕ) (e : ℕ)
    (d : Distinct (pre ++ p ∷ b ∷ post)) (new : occurrences e (pre ++ p ∷ b ∷ post) ≡ 0) where
  wider : Distinct ((pre ++ p ∷ []) ++ e ∷ b ∷ post)
  wider =
      insert-Distinct (pre ++ p ∷ []) (b ∷ post) e
        (subst Distinct (sym (append_assoc pre (p ∷ []) (b ∷ post))) d)
        (ap (occurrences e) (append_assoc pre (p ∷ []) (b ∷ post)) ∙ new)

  counts :
      (a : ℕ)
      → occurrences a (pre ++ p ∷ b ∷ post) ≡ occurrences a pre + occurrences a (p ∷ b ∷ post)
  counts a = occurrences-append a pre (p ∷ b ∷ post)

  insert-Chained :
      Chained m (pre ++ p ∷ b ∷ post) → Chained (join (join m p e) e b) (pre ++ p ∷ e ∷ b ∷ post)
  insert-Chained c =
      let (left, _, _, right) = cut m pre p b post c in
      let upto =
        join-Chained m pre p e []
          (λ a. ground (
            arith,
            wider a,
            occurrences-append a pre (p ∷ e ∷ []),
            occurrences-append a (pre ++ p ∷ []) (e ∷ b ∷ post),
            occurrences-append a pre (p ∷ []),
          ))
          left tt in
      let from =
        join-right m p e b post (ground (arith, d p, counts p)) (ground (arith, new, counts e))
          right in
      subst (Chained (join (join m p e) e b)) (append_assoc pre (p ∷ []) (e ∷ b ∷ post)) (
        join-Chained (join m p e) (pre ++ p ∷ []) e b post wider
          (subst (Chained (join m p e)) (sym (append_assoc pre (p ∷ []) (e ∷ []))) upto) from)

IsList-same :
    (m m' : Links) (l : ListEnds) (xs : List ℕ) → SameLinks m m' → IsList m l xs → IsList m' l xs
IsList-same m m' l xs same i = record {
  chained = Chained-same m m' (nodes l xs) same i.chained;
  distinct = i.distinct;
  no_null = i.no_null;
  top = (same l.head).0 ∙ i.top;
  bottom = (same l.tail).1 ∙ i.bottom;
}

module _ (m : Links) (l : ListEnds) (xs ys : List ℕ) where
  -- The elements before and behind the place between `xs` and `ys`.
  abbrev p : ℕ
  p = back l.head xs

  abbrev b : ℕ
  b = front ys l.tail

  abbrev pre : List ℕ
  pre = but_last l.head xs

  abbrev post : List ℕ
  post = rest ys l.tail

  module _ (e : ℕ) (i : IsList m l (xs ++ ys)) (nonzero : e ≢ 0)
      (new : occurrences e (nodes l (xs ++ ys)) ≡ 0) where
    abbrev inserted : Links
    inserted =
        let m1 = set_prev m e (m.prev b) in
        let m2 = set_next m1 e b in set_prev (set_next m2 (m2.prev b) e) b e

    split : nodes l (xs ++ ys) ≡ pre ++ p ∷ b ∷ post
    split = nodes-split l xs ys

    d : Distinct (pre ++ p ∷ b ∷ post)
    d = subst Distinct split i.distinct

    fresh : occurrences e (pre ++ p ∷ b ∷ post) ≡ 0
    fresh = ap (occurrences e) (sym split) ∙ new

    at : Chained m (pre ++ p ∷ []) × (m.next p ≡ b) × (m.prev b ≡ p) × Chained m (b ∷ post)
    at = cut m pre p b post (subst (Chained m) split i.chained)

    no_null : occurrences 0 (pre ++ p ∷ b ∷ post) ≡ 0
    no_null = ap (occurrences 0) (sym split) ∙ i.no_null

    others : (e ≢ p) × (e ≢ b) × (p ≢ 0) × (b ≢ 0) × (p ≢ b)
    others = (
      ground (arith, fresh, counts m pre p b post e d fresh e),
      ground (arith, fresh, counts m pre p b post e d fresh e),
      ground (arith, no_null, counts m pre p b post e d fresh 0),
      ground (arith, no_null, counts m pre p b post e d fresh 0),
      ground (arith, d p, counts m pre p b post e d fresh p),
    )

    inserted-same : SameLinks (join (join m p e) e b) inserted
    inserted-same y = (ground (arith, others, at), ground (arith, others, at))

    inserted-split : nodes l (xs ++ e ∷ ys) ≡ pre ++ p ∷ e ∷ b ∷ post
    inserted-split = nodes-insert l xs ys e

    inserted-count :
        (a : ℕ) → occurrences a (nodes l (xs ++ e ∷ ys)) ≡ occurrences a (e ∷ nodes l (xs ++ ys))
    inserted-count a = ground (
      arith,
      ap (occurrences a) (append_assoc xs (e ∷ ys) (l.tail ∷ [])),
      ap (occurrences a) (append_assoc xs ys (l.tail ∷ [])),
      occurrences-append a xs (e ∷ ys ++ l.tail ∷ []),
      occurrences-append a xs (ys ++ l.tail ∷ []),
    )

    inserted-Distinct : Distinct (nodes l (xs ++ e ∷ ys))
    inserted-Distinct =
        subst Distinct (append_assoc pre (p ∷ []) (e ∷ b ∷ post) ∙ sym inserted-split)
          (wider m pre p b post e d fresh)

    inserted-IsList : IsList inserted l (xs ++ e ∷ ys)
    inserted-IsList = record {
      chained = subst (Chained inserted) (sym inserted-split) (
          Chained-same (join (join m p e) e b) inserted (pre ++ p ∷ e ∷ b ∷ post) inserted-same
            (insert-Chained m pre p b post e d fresh (subst (Chained m) split i.chained)));
      distinct = inserted-Distinct;
      no_null = ground (arith, inserted-count 0, i.no_null);
      top = ground (arith, new, head-ne-front l xs ys i.distinct, i.top);
      bottom = ground (
        arith,
        new,
        occurrences-append e (xs ++ ys) (l.tail ∷ []),
        tail-ne-back l xs ys i.distinct,
        at.2,
        i.bottom,
      );
    }

    inserted-Outside : Outside (e ∷ nodes l (xs ++ ys)) m inserted
    inserted-Outside y o = (
      ground (arith, o, ap (occurrences y) split, counts m pre p b post e d fresh y),
      ground (arith, o, ap (occurrences y) split, counts m pre p b post e d fresh y, at.2, others),
    )

-- In a list whose links are as list.c describes, list_insert of an element that is not in it,
-- before one of its elements or its tail, succeeds: the links then hold the sequence with the
-- element at that place, and no other address is written.
pub list_insert-IsList :
    (m : Links) (l : ListEnds) (xs ys : List ℕ) (e : ℕ)
    → IsList m l (xs ++ ys)
    → e ≢ 0
    → occurrences e (nodes l (xs ++ ys)) ≡ 0
    → (m' : Links) × (list_insert m (front ys l.tail) e ≡ some m')
      × IsList m' l (xs ++ e ∷ ys)
      × Outside (e ∷ nodes l (xs ++ ys)) m m'
unfolding list_insert
list_insert-IsList m l xs ys e i nonzero new = (
  inserted m l xs ys e i nonzero new,
  ground (arith, nonzero, others m l xs ys e i nonzero new, (at m l xs ys e i nonzero new).2),
  inserted-IsList m l xs ys e i nonzero new,
  inserted-Outside m l xs ys e i nonzero new,
)
