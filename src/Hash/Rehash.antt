-- ===== src/Hash/Rehash.antt =====
-- A rehash keeps what is found for every element.
use cs140_w.Prelude.{
  ℕ, zero, suc, ◌+◌, ◌-◌, ◌≤◌, ◌<◌, ◌≡◌, ◌≢◌, refl, ap, ◌==◌, leb, ltb, Bool, true, false, not,
  ◌&&◌, if◌then◌else◌, some, List, [], ◌∷◌, arith, Bool-cases, inl, inr, ℕ_discrete,
}
use cs140_w.KernelList.Extremes.{All}
use cs140_w.Hash.{
  Hash, put_bucket, slot, find_elem, move_loop, move_all, install, rehash, fuel_for, hash_find,
}
use cs140_w.Hash.Words.{and-le, ideal-rounded}
use cs140_w.Hash.View.{Laws, equals, IsTable, slot_congr, elsewhere, find-none}

module _ (hash : ℕ → ℕ) (less : ℕ → ℕ → Bool) (laws : Laws hash less) (cnt : ℕ) where
  abbrev pub home : ℕ → ℕ
  home q = slot hash less cnt q

  abbrev pub Placed : (ℕ → List ℕ) → Type 0
  Placed f = (i : ℕ) → All (λ x. home x ≡ i) (f i)

  pub push-Placed :
      (f : ℕ → List ℕ) (x : ℕ) → Placed f → Placed (put_bucket f (home x) (x ∷ f (home x)))
  push-Placed f x p i = elim (ℕ_discrete (home x) i) [
    | yes e ↦ rw e (ground (arith, p i, e))
    | no ne ↦ ground (arith, p i)
  ]

  move_loop-Placed : (l : List ℕ) (f : ℕ → List ℕ) → Placed f → Placed (move_loop hash less cnt l f)
  unfolding move_loop
  move_loop-Placed [] f p = p
  move_loop-Placed (x ∷ xs) f p =
      move_loop-Placed xs (put_bucket f (home x) (x ∷ f (home x))) (push-Placed f x p)

  -- How many elements equal to `q` its bucket has, and which is found, behind the inner loop.
  move_loop-equals :
      (l : List ℕ) (f : ℕ → List ℕ) (q : ℕ)
      → equals hash less (move_loop hash less cnt l f (home q)) q
        ≡ equals hash less l q + equals hash less (f (home q)) q
  unfolding move_loop
  move_loop-equals [] f q = omega arith
  move_loop-equals (x ∷ xs) f q = ground (
    arith,
    move_loop-equals xs (put_bucket f (home x) (x ∷ f (home x))) q,
    slot_congr hash less laws cnt x q,
    ap f,
  )

  move_loop-find :
      (l : List ℕ) (f : ℕ → List ℕ) (q : ℕ)
      → equals hash less l q + equals hash less (f (home q)) q ≤ 1
      → find_elem hash less (move_loop hash less cnt l f (home q)) q ≡ (
          if equals hash less l q == 0
          then find_elem hash less (f (home q)) q
          else find_elem hash less l q)
  unfolding move_loop find_elem
  move_loop-find [] f q h = refl
  move_loop-find (x ∷ xs) f q h = ground (
    arith,
    move_loop-find xs (put_bucket f (home x) (x ∷ f (home x))) q,
    slot_congr hash less laws cnt x q,
    ap f,
    find-none hash less xs q,
  )

  module _ (old_cnt : ℕ) (old : ℕ → List ℕ) (t : IsTable hash less old_cnt old) where
    abbrev from : ℕ → ℕ
    from q = slot hash less old_cnt q

    move_all-Placed :
        (n i : ℕ) (f : ℕ → List ℕ) → Placed f → Placed (move_all hash less n i cnt old f)
    unfolding move_all
    move_all-Placed zero i f p = p
    move_all-Placed (suc n) i f p =
        move_all-Placed n (i + 1) (move_loop hash less cnt (old i) f) (move_loop-Placed (old i) f p)

    -- Whether the bucket that had the elements equal to `q` is among `n` buckets from `i` on.
    abbrev among : ℕ → ℕ → ℕ → Bool
    among n i q = leb i (from q) && ltb (from q) (i + n)

    only_from : (i q : ℕ) → from q ≢ i → equals hash less (old i) q ≡ 0
    only_from i q ne = elsewhere hash less laws old_cnt i q (old i) (t.placed i) ne

    move_all-equals :
        (n i : ℕ) (f : ℕ → List ℕ) (q : ℕ)
        → equals hash less (move_all hash less n i cnt old f (home q)) q
          ≡ (if among n i q then equals hash less (old (from q)) q else 0)
            + equals hash less (f (home q)) q
    unfolding move_all
    move_all-equals zero i f q = ground arith
    move_all-equals (suc n) i f q = elim (ℕ_discrete (from q) i) [
      | yes e ↦ ground (
        arith,
        move_all-equals n (i + 1) (move_loop hash less cnt (old i) f) q,
        move_loop-equals (old i) f q,
        ap old e,
      )
      | no ne ↦ ground (
        arith,
        move_all-equals n (i + 1) (move_loop hash less cnt (old i) f) q,
        move_loop-equals (old i) f q,
        only_from i q ne,
      )
    ]

    move_all-find :
        (n i : ℕ) (f : ℕ → List ℕ) (q : ℕ)
        → (if among n i q then equals hash less (old (from q)) q else 0)
            + equals hash less (f (home q)) q
          ≤ 1
        → find_elem hash less (move_all hash less n i cnt old f (home q)) q ≡ (
            if among n i q && not (equals hash less (old (from q)) q == 0)
            then find_elem hash less (old (from q)) q
            else find_elem hash less (f (home q)) q)
    unfolding move_all
    move_all-find zero i f q h = ground arith
    move_all-find (suc n) i f q h = elim (ℕ_discrete (from q) i) [
      | yes e ↦ ground (
        arith,
        move_all-find n (i + 1) (move_loop hash less cnt (old i) f) q,
        move_loop-equals (old i) f q,
        move_loop-find (old i) f q,
        ap old e,
      )
      | no ne ↦ ground (
        arith,
        move_all-find n (i + 1) (move_loop hash less cnt (old i) f) q,
        move_loop-equals (old i) f q,
        move_loop-find (old i) f q,
        only_from i q ne,
      )
    ]

module _ (hash : ℕ → ℕ) (less : ℕ → ℕ → Bool) (laws : Laws hash less) where
  module _ (cnt old_cnt : ℕ) (old : ℕ → List ℕ) (t : IsTable hash less old_cnt old)
      (some_new : 0 < cnt) where
    moved : ℕ → List ℕ
    moved = move_all hash less old_cnt 0 cnt old (λ _. [])

    moved-Placed : (i : ℕ) → All (λ x. slot hash less cnt x ≡ i) (moved i)
    unfolding moved
    moved-Placed = move_all-Placed hash less laws cnt old_cnt old t old_cnt 0 (λ _. []) (λ i. tt)

    from_small : (q : ℕ) → slot hash less old_cnt q < old_cnt
    from_small q = omega (arith, t.some_buckets, and-le (hash q) (old_cnt - 1))

    moved-equals :
        (q : ℕ)
        → equals hash less (moved (slot hash less cnt q)) q
          ≡ equals hash less (old (slot hash less old_cnt q)) q
    unfolding moved
    moved-equals q = ground (
      arith,
      move_all-equals hash less laws cnt old_cnt old t old_cnt 0 (λ _. []) q,
      from_small q,
    )

    moved-once : (i e : ℕ) → equals hash less (moved i) e ≤ 1
    moved-once i e = elim (ℕ_discrete (slot hash less cnt e) i) [
      | yes here ↦ rw (← here) (omega (arith, moved-equals e, t.once (slot hash less old_cnt e) e))
      | no ne ↦ omega (arith, elsewhere hash less laws cnt i e (moved i) (moved-Placed i) ne)
    ]

    moved-IsTable : IsTable hash less cnt moved
    moved-IsTable = record { some_buckets = some_new; placed = moved-Placed; once = moved-once }

    moved-find :
        (q : ℕ)
        → find_elem hash less (moved (slot hash less cnt q)) q
          ≡ find_elem hash less (old (slot hash less old_cnt q)) q
    unfolding moved find_elem
    moved-find q = ground (
      arith,
      move_all-find hash less laws cnt old_cnt old t old_cnt 0 (λ _. []) q,
      from_small q,
      t.once (slot hash less old_cnt q) q,
      find-none hash less (old (slot hash less old_cnt q)) q,
    )

  -- `h'` is a table in which the same is found for every element, with the same number of elements.
  pub record Alike (h h' : Hash) : Type 0 where
    pub table : IsTable hash less h'.bucket_cnt h'.buckets
    pub finds : (q : ℕ) → hash_find hash less h' q ≡ hash_find hash less h q
    pub size : h'.elem_cnt ≡ h.elem_cnt

  install-Alike :
      (room : Bool) (h : Hash) (c : ℕ)
      → IsTable hash less h.bucket_cnt h.buckets
      → 0 < c
      → Alike h (install hash less room h c)
  unfolding hash_find moved
  install-Alike room h c t pos = elim (Bool-cases (c == h.bucket_cnt)) [
    | inl kept ↦ rw kept (record { table = t; finds = λ q. refl; size = refl })
    | inr other ↦ rw other (by_room room)
  ]
    where
      new : Hash
      new = record h {
        bucket_cnt = c;
        buckets = move_all hash less h.bucket_cnt 0 c h.buckets (λ _. []);
      }

      by_room : (room : Bool) → Alike h (if room then new else h)
      by_room true = record {
        table = moved-IsTable c h.bucket_cnt h.buckets t pos;
        finds = moved-find c h.bucket_cnt h.buckets t pos;
        size = refl;
      }
      by_room false = record { table = t; finds = λ q. refl; size = refl }

  pub rehash-Alike :
      (room : Bool) (h : Hash)
      → IsTable hash less h.bucket_cnt h.buckets
      → (h' : Hash) × (rehash hash less (fuel_for hash less h) room h ≡ some h') × Alike h h'
  unfolding rehash
  rehash-Alike room h t =
      let (c, e, pos) = ideal-rounded h.elem_cnt in
      (install hash less room h c, rw (e, rehash) refl, install-Alike room h c t (omega arith))
