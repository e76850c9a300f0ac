-- ===== src/KernelList/Links/Unlink.antt =====
-- `list_remove` on the links removes from the sequence.
use cs140_w.Prelude.{ℕ, ◌+◌, ◌≤◌, ◌≡◌, ◌≢◌, ap, ◌∙◌, sym, none, some, List, [], ◌∷◌, ◌++◌, arith}
use mathlib.Core.List.{append_assoc}
use mathlib.Core.Path.{subst}
use cs140_w.KernelList.Removal.{occurrences, occurrences-append}
use cs140_w.KernelList.Links.{
  Links, ListEnds, set_prev, set_next, list_unlink, list_pop_front, list_front,
}
use cs140_w.KernelList.Links.Chains.{
  Chained, Distinct, cut, SameLinks, Chained-same, join, join-Chained,
}
use cs140_w.KernelList.Links.Lists.{
  IsList, nodes, front, Outside, back, but_last, rest, nodes-split, nodes-insert, head-ne-front,
  tail-ne-back,
}

-- Removal of an element between two others.
module _ (m : Links) (pre : List ℕ) (p e b : ℕ) (post : List ℕ)
    (d : Distinct (pre ++ p ∷ e ∷ b ∷ post)) where
  without : (a : ℕ) → occurrences a (pre ++ p ∷ b ∷ post) ≤ occurrences a (pre ++ p ∷ e ∷ b ∷ post)
  without a =
      ground (
        arith,
        occurrences-append a pre (p ∷ b ∷ post),
        occurrences-append a pre (p ∷ e ∷ b ∷ post),
      )

  smaller : Distinct (pre ++ p ∷ b ∷ post)
  smaller a = omega (arith, d a, without a)

  unlink-Chained : Chained m (pre ++ p ∷ e ∷ b ∷ post) → Chained (join m p b) (pre ++ p ∷ b ∷ post)
  unlink-Chained c =
      join-Chained m pre p b post smaller (cut m pre p e (b ∷ post) c).0
        (cut m pre p e (b ∷ post) c).3.2

module _ (m : Links) (l : ListEnds) (xs ys : List ℕ) (e : ℕ) (i : IsList m l (xs ++ e ∷ ys)) where
  abbrev p : ℕ
  p = back l.head xs

  abbrev b : ℕ
  b = front ys l.tail

  abbrev pre : List ℕ
  pre = but_last l.head xs

  abbrev post : List ℕ
  post = rest ys l.tail

  split : nodes l (xs ++ e ∷ ys) ≡ pre ++ p ∷ e ∷ b ∷ post
  split = nodes-insert l xs ys e

  d : Distinct (pre ++ p ∷ e ∷ b ∷ post)
  d = subst Distinct split i.distinct

  count :
      (a : ℕ)
      → occurrences a (nodes l (xs ++ e ∷ ys))
        ≡ occurrences a pre + occurrences a (p ∷ e ∷ b ∷ post)
  count a = ap (occurrences a) split ∙ occurrences-append a pre (p ∷ e ∷ b ∷ post)

  chain : Chained m (pre ++ p ∷ e ∷ b ∷ post)
  chain = subst (Chained m) split i.chained

  around : (m.next p ≡ e) × (m.prev e ≡ p) × (m.next e ≡ b) × (m.prev b ≡ e)
  around = let (left, pe, ep, (eb, be, right)) = cut m pre p e (b ∷ post) chain in (pe, ep, eb, be)

  others : (e ≢ p) × (e ≢ b) × (p ≢ b) × (e ≢ 0) × (p ≢ 0) × (b ≢ 0)
  others = (
    ground (arith, i.distinct e, count e),
    ground (arith, i.distinct e, count e),
    ground (arith, i.distinct p, count p),
    ground (arith, i.no_null, count 0),
    ground (arith, i.no_null, count 0),
    ground (arith, i.no_null, count 0),
  )

  abbrev unlinked : Links
  unlinked = let m1 = set_next m (m.prev e) (m.next e) in set_prev m1 (m1.next e) (m1.prev e)

  same : SameLinks (join m p b) unlinked
  same y = (ground (arith, others, around), ground (arith, others, around))

  fewer : (a : ℕ) → occurrences a (nodes l (xs ++ e ∷ ys)) ≡ occurrences a (e ∷ nodes l (xs ++ ys))
  fewer a = ground (
    arith,
    ap (occurrences a) (append_assoc xs (e ∷ ys) (l.tail ∷ [])),
    ap (occurrences a) (append_assoc xs ys (l.tail ∷ [])),
    occurrences-append a xs (e ∷ ys ++ l.tail ∷ []),
    occurrences-append a xs (ys ++ l.tail ∷ []),
  )

  unlinked-Distinct : Distinct (nodes l (xs ++ ys))
  unlinked-Distinct a = ground (arith, i.distinct a, fewer a)

  unlinked-IsList : IsList unlinked l (xs ++ ys)
  unlinked-IsList = record {
    chained = subst (Chained unlinked) (sym (nodes-split l xs ys)) (
        Chained-same (join m p b) unlinked (pre ++ p ∷ b ∷ post) same
          (unlink-Chained m pre p e b post d chain));
    distinct = unlinked-Distinct;
    no_null = ground (arith, i.no_null, fewer 0);
    top = ground (arith, head-ne-front l xs ys unlinked-Distinct, around, i.top);
    bottom = ground (arith, tail-ne-back l xs ys unlinked-Distinct, around, i.bottom);
  }

  unlinked-Outside : Outside (nodes l (xs ++ e ∷ ys)) m unlinked
  unlinked-Outside y o = (ground (arith, o, count y, around), ground (arith, o, count y, around))

-- list_remove of an element of a list whose links are as list.c describes returns the element or
-- the tail that follows it: the links then hold the sequence without the element, and no address
-- outside the list is written.
pub list_unlink-IsList :
    (m : Links) (l : ListEnds) (xs ys : List ℕ) (e : ℕ)
    → IsList m l (xs ++ e ∷ ys)
    → (m' : Links) × (list_unlink m e ≡ some (front ys l.tail, m'))
      × IsList m' l (xs ++ ys)
      × Outside (nodes l (xs ++ e ∷ ys)) m m'
unfolding list_unlink
list_unlink-IsList m l xs ys e i = (
  unlinked m l xs ys e i,
  ground (arith, others m l xs ys e i, around m l xs ys e i),
  unlinked-IsList m l xs ys e i,
  unlinked-Outside m l xs ys e i,
)

-- `list_pop_front` returns the first element and removes it.
pub list_pop_front-IsList :
    (m : Links) (l : ListEnds) (x : ℕ) (xs : List ℕ)
    → IsList m l (x ∷ xs)
    → (m' : Links) × (list_pop_front m l ≡ some (x, m')) × IsList m' l xs
unfolding list_pop_front list_front
list_pop_front-IsList m l x xs i =
    let (m', removed, held, outside) = list_unlink-IsList m l [] xs x i in
    (
      m',
      ground (
        arith,
        removed,
        i.chained,
        i.distinct l.tail,
        occurrences-append l.tail xs (l.tail ∷ []),
      ),
      held,
    )

list_pop_front-none : (m : Links) (l : ListEnds) → IsList m l [] → list_pop_front m l ≡ none
unfolding list_pop_front list_front
list_pop_front-none m l i = ground (arith, i.chained)
