-- ===== src/KernelList/Links/Lists.antt =====
-- What it means that links hold a sequence of elements, as list.c describes its lists.
use cs140_w.Prelude.{ℕ, ◌≡◌, ◌≢◌, refl, ap, ◌∙◌, List, [], ◌∷◌, ◌++◌, arith}
use mathlib.Core.List.{append_assoc}
use cs140_w.KernelList.Removal.{occurrences, occurrences-append}
use cs140_w.KernelList.Links.{Links, ListEnds}
use cs140_w.KernelList.Links.Chains.{Chained, Distinct}

-- The addresses of a list, its head and tail included.
abbrev pub nodes : ListEnds → List ℕ → List ℕ
nodes l xs = l.head ∷ (xs ++ l.tail ∷ [])

-- In memory `m` the list `l` has the elements `xs`, in this order.
pub record IsList (m : Links) (l : ListEnds) (xs : List ℕ) : Type 0 where
  pub chained : Chained m (nodes l xs)
  pub distinct : Distinct (nodes l xs)
  pub no_null : occurrences 0 (nodes l xs) ≡ 0
  pub top : m.prev l.head ≡ 0
  pub bottom : m.next l.tail ≡ 0

-- The element that `ys` starts with, or the tail.
abbrev pub front : List ℕ → ℕ → ℕ
front [] t = t
front (y ∷ ys) t = y

-- The links of all other addresses are as before.
abbrev pub Outside : List ℕ → Links → Links → Type 0
Outside ns m m' = (y : ℕ) → occurrences y ns ≡ 0 → (m'.prev y ≡ m.prev y) × (m'.next y ≡ m.next y)

abbrev pub back : ℕ → List ℕ → ℕ
back x [] = x
back x (y ∷ l) = back y l

abbrev pub but_last : ℕ → List ℕ → List ℕ
but_last x [] = []
but_last x (y ∷ l) = x ∷ but_last y l

abbrev pub rest : List ℕ → ℕ → List ℕ
rest [] t = []
rest (y ∷ ys) t = ys ++ t ∷ []

pub last-split : (x : ℕ) (l : List ℕ) → x ∷ l ≡ but_last x l ++ back x l ∷ []
last-split x [] = refl
last-split x (y ∷ l) = ap (λ k. x ∷ k) (last-split y l)

pub front-split : (ys : List ℕ) (t : ℕ) → ys ++ t ∷ [] ≡ front ys t ∷ rest ys t
front-split [] t = refl
front-split (y ∷ ys) t = refl

-- The nodes of a list, cut before the place of `ys`.
pub nodes-split :
    (l : ListEnds) (xs ys : List ℕ)
    → nodes l (xs ++ ys) ≡ but_last l.head xs ++ back l.head xs ∷ front ys l.tail ∷ rest ys l.tail
nodes-split l xs ys =
    ap (λ k. l.head ∷ k) (append_assoc xs ys (l.tail ∷ []))
    ∙ ap (λ k. (l.head ∷ xs) ++ k) (front-split ys l.tail)
    ∙ ap (λ k. k ++ front ys l.tail ∷ rest ys l.tail) (last-split l.head xs)
    ∙ append_assoc (but_last l.head xs) (back l.head xs ∷ []) (front ys l.tail ∷ rest ys l.tail)

pub nodes-insert :
    (l : ListEnds) (xs ys : List ℕ) (e : ℕ)
    → nodes l (xs ++ e ∷ ys)
      ≡ but_last l.head xs ++ back l.head xs ∷ e ∷ front ys l.tail ∷ rest ys l.tail
nodes-insert l xs ys e =
    nodes-split l xs (e ∷ ys)
    ∙ ap (λ k. but_last l.head xs ++ back l.head xs ∷ e ∷ k) (front-split ys l.tail)

pub head-ne-front :
    (l : ListEnds) (xs ys : List ℕ) → Distinct (nodes l (xs ++ ys)) → l.head ≢ front ys l.tail
head-ne-front l xs ys d = ground (
  arith,
  d l.head,
  ap (occurrences l.head) (append_assoc xs ys (l.tail ∷ [])),
  occurrences-append l.head xs (ys ++ l.tail ∷ []),
  ap (occurrences l.head) (front-split ys l.tail),
)

pub tail-ne-back :
    (l : ListEnds) (xs ys : List ℕ) → Distinct (nodes l (xs ++ ys)) → l.tail ≢ back l.head xs
tail-ne-back l xs ys d = ground (
  arith,
  d l.tail,
  ap (occurrences l.tail) (append_assoc xs ys (l.tail ∷ [])),
  occurrences-append l.tail xs (ys ++ l.tail ∷ []),
  occurrences-append l.tail ys (l.tail ∷ []),
  ap (occurrences l.tail) (last-split l.head xs),
  occurrences-append l.tail (but_last l.head xs) (back l.head xs ∷ []),
)
