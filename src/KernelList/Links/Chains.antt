-- ===== src/KernelList/Links/Chains.antt =====
-- Chains of linked elements: how they are cut, joined, and left alone by writes elsewhere.
use cs140_w.Prelude.{ℕ, ◌≤◌, ◌≡◌, ◌≢◌, ◌∙◌, List, [], ◌∷◌, ◌++◌, arith}
use mathlib.Core.Path.{subst}
use cs140_w.KernelList.Removal.{occurrences, occurrences-append}
use cs140_w.KernelList.Links.{Links, set_prev, set_next}

-- Each element is linked with the next one in the list, both ways.
abbrev pub Chained : Links → List ℕ → Type 0
Chained m [] = Unit
Chained m (x ∷ []) = Unit
Chained m (x ∷ y ∷ l) = (m.next x ≡ y) × (m.prev y ≡ x) × Chained m (y ∷ l)

-- No address stands in the list twice.
abbrev pub Distinct : List ℕ → Type 0
Distinct l = (a : ℕ) → occurrences a l ≤ 1

-- All elements but the last of the list `x ∷ l`.
abbrev pub init : ℕ → List ℕ → List ℕ
init x [] = []
init x (y ∷ l) = x ∷ init y l

-- A chain survives writes that spare the links in it: the first element's `prev` and the last one's
-- `next` are none of these.
pub frame :
    (m m' : Links) (x : ℕ) (l : List ℕ)
    → ((y : ℕ) → occurrences y l ≢ 0 → m'.prev y ≡ m.prev y)
    → ((y : ℕ) → occurrences y (init x l) ≢ 0 → m'.next y ≡ m.next y)
    → Chained m (x ∷ l)
    → Chained m' (x ∷ l)
frame m m' x [] p n c = tt
frame m m' x (y ∷ l) p n (e, f, c) = (
  ground (arith, n x),
  ground (arith, p y),
  frame m m' y l (λ z h. p z (ground arith)) (λ z h. n z (ground arith)) c,
)

pub init-last :
    (x : ℕ) (l : List ℕ) (p y : ℕ) → occurrences y (init x (l ++ p ∷ [])) ≡ occurrences y (x ∷ l)
init-last x [] p y = ground arith
init-last x (z ∷ l) p y = ground (arith, init-last z l p y)

-- A chain is cut between two elements, and the pieces are chains.
pub cut :
    (m : Links) (pre : List ℕ) (p b : ℕ) (post : List ℕ)
    → Chained m (pre ++ p ∷ b ∷ post)
    → Chained m (pre ++ p ∷ []) × (m.next p ≡ b) × (m.prev b ≡ p) × Chained m (b ∷ post)
cut m [] p b post (e, f, c) = (tt, e, f, c)
cut m (x ∷ []) p b post (e, f, c) = ((e, f, tt), c.0, c.1, c.2)
cut m (x ∷ y ∷ pre) p b post (e, f, c) =
    let (left, g, h, right) = cut m (y ∷ pre) p b post c in ((e, f, left), g, h, right)

pub glue :
    (m : Links) (pre : List ℕ) (p b : ℕ) (post : List ℕ)
    → Chained m (pre ++ p ∷ [])
    → m.next p ≡ b
    → m.prev b ≡ p
    → Chained m (b ∷ post)
    → Chained m (pre ++ p ∷ b ∷ post)
glue m [] p b post l e f c = (e, f, c)
glue m (x ∷ []) p b post l e f c = (l.0, l.1, (e, f, c))
glue m (x ∷ y ∷ pre) p b post l e f c = (l.0, l.1, glue m (y ∷ pre) p b post l.2 e f c)

-- Links that agree everywhere chain the same elements.
abbrev pub SameLinks : Links → Links → Type 0
SameLinks m m' = (y : ℕ) → (m'.prev y ≡ m.prev y) × (m'.next y ≡ m.next y)

pub Chained-same : (m m' : Links) (l : List ℕ) → SameLinks m m' → Chained m l → Chained m' l
Chained-same m m' [] h c = tt
Chained-same m m' (x ∷ l) h c = frame m m' x l (λ y o. (h y).0) (λ y o. (h y).1) c

-- `p` and `b` are linked with one another, in this order.
abbrev pub join : Links → ℕ → ℕ → Links
join m p b = set_prev (set_next m p b) b p

apart : (a y : ℕ) (l : List ℕ) → occurrences a l ≡ 0 → occurrences y l ≢ 0 → a ≢ y
apart a y l h o e = o (subst (λ z. occurrences z l ≡ 0) e h)

init-le : (x : ℕ) (l : List ℕ) (y : ℕ) → occurrences y (init x l) ≤ occurrences y (x ∷ l)
init-le x [] y = omega arith
init-le x (z ∷ l) y = ground (arith, init-le z l y)

-- A chain of other elements, in which `p` may be the last and `b` the first, is left alone.
pub join-left :
    (m : Links) (p b : ℕ) (pre : List ℕ) (last : ℕ)
    → occurrences p pre ≡ 0
    → occurrences b (pre ++ last ∷ []) ≡ 0
    → Chained m (pre ++ last ∷ [])
    → Chained (join m p b) (pre ++ last ∷ [])
join-left m p b [] last np nb c = tt
join-left m p b (x ∷ pre) last np nb c =
    frame m (join m p b) x (pre ++ last ∷ [])
      (λ y o. ground (arith, apart b y (pre ++ last ∷ []) (ground arith) o))
      (λ y o. ground (arith, apart p y (x ∷ pre) np (spared y o))) c
  where
    spared : (y : ℕ) → occurrences y (init x (pre ++ last ∷ [])) ≢ 0 → occurrences y (x ∷ pre) ≢ 0
    spared y o e = o (init-last x pre last y ∙ e)

pub join-right :
    (m : Links) (p b x : ℕ) (l : List ℕ)
    → occurrences p (x ∷ l) ≡ 0
    → occurrences b l ≡ 0
    → Chained m (x ∷ l)
    → Chained (join m p b) (x ∷ l)
join-right m p b x l np nb c =
    frame m (join m p b) x l (λ y o. ground (arith, apart b y l nb o))
      (λ y o. ground (arith, apart p y (x ∷ l) np (λ e. o (omega (arith, init-le x l y))))) c

pub join-Chained :
    (m : Links) (pre : List ℕ) (p b : ℕ) (post : List ℕ)
    → Distinct (pre ++ p ∷ b ∷ post)
    → Chained m (pre ++ p ∷ [])
    → Chained m (b ∷ post)
    → Chained (join m p b) (pre ++ p ∷ b ∷ post)
join-Chained m pre p b post d l r =
    glue (join m p b) pre p b post
      (join-left m p b pre p (ground (arith, d p, occurrences-append p pre (p ∷ b ∷ post)))
        (ground
          (arith, d b, occurrences-append b pre (p ∷ b ∷ post), occurrences-append b pre (p ∷ [])))
        l)
      (ground arith) (ground arith)
      (join-right m p b b post (ground (arith, d p, occurrences-append p pre (p ∷ b ∷ post)))
        (ground (arith, d b, occurrences-append b pre (p ∷ b ∷ post))) r)
