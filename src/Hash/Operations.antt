-- ===== src/Hash/Operations.antt =====
-- What `hash_insert`, `hash_replace` and `hash_delete` do to what is found for every element.
use cs140_w.Prelude.{
  ℕ, ◌+◌, ◌-◌, ◌%◌, ◌^◌, ◌≡◌, refl, ap, ◌∙◌, sym, Bool, true, if◌then◌else◌, Option, none, some,
  List, arith, Bool-cases, inl, inr,
}
use cs140_w.KernelList.{list_remove}
use cs140_w.Hash.{
  Hash, slot, same, find_elem, insert_elem, remove_elem, rehashed, hash_find, hash_insert,
  hash_replace, hash_delete,
}
use cs140_w.Hash.View.{
  Laws, equals, IsTable, same_self, slot_congr, find-none, none-equals, find-same, same_congr,
  find_congr, equals_congr, find-remove, equals-remove, equals-remove-le, All-remove,
}
use cs140_w.Hash.Rehash.{push-Placed, rehash-Alike}

-- The element that is found for new, or new itself where none is.
abbrev pub or_new : Option ℕ → ℕ → ℕ
or_new none new = new
or_new (some x) new = x

module _ (hash : ℕ → ℕ) (less : ℕ → ℕ → Bool) where
  -- The outcome of an operation: what it returns, and a table with what is found then.
  abbrev pub Gives : Option (Option ℕ × Hash) → Option ℕ → ℕ → (ℕ → Option ℕ) → Type 0
  Gives m old size view =
      (h' : Hash) × (m ≡ some (old, h'))
      × IsTable hash less h'.bucket_cnt h'.buckets
      × ((q : ℕ) → hash_find hash less h' q ≡ view q)
      × (h'.elem_cnt ≡ size)

module _ (hash : ℕ → ℕ) (less : ℕ → ℕ → Bool) (laws : Laws hash less) where
  abbrev Table : Hash → Type 0
  Table h = IsTable hash less h.bucket_cnt h.buckets

  abbrev found : Hash → ℕ → Option ℕ
  found h q = hash_find hash less h q

  rehashed-Gives :
      (room : Bool) (old : Option ℕ) (h : Hash) (view : ℕ → Option ℕ)
      → Table h
      → ((q : ℕ) → found h q ≡ view q)
      → Gives hash less (rehashed hash less room old h) old h.elem_cnt view
  rehashed-Gives room old h view t v =
      let (h', e, a) = rehash-Alike hash less laws room h t in
      (h', rw (e, rehashed) refl, a.table, λ q. a.finds q ∙ v q, a.size)

  -- The home of `e` in `h`.
  abbrev home : Hash → ℕ → ℕ
  home h e = slot hash less h.bucket_cnt e

  abbrev bucket : Hash → ℕ → List ℕ
  bucket h e = h.buckets (home h e)

  module _ (h : Hash) (t : Table h) where
    insert-Table : (new : ℕ) → found h new ≡ none → Table (insert_elem hash less h (home h new) new)
    unfolding hash_find
    insert-Table new absent = record {
      some_buckets = t.some_buckets;
      placed = push-Placed hash less laws h.bucket_cnt h.buckets new t.placed;
      once = λ i e. ground (
        arith,
        t.once i e,
        none-equals hash less (bucket h new) new absent,
        equals_congr hash less laws (bucket h new) new e,
      );
    }

    insert-found :
        (new q : ℕ)
        → found (insert_elem hash less h (home h new) new) q
          ≡ (if same hash less new q then some new else found h q)
    unfolding hash_find find_elem
    insert-found new q = ground (arith, slot_congr hash less laws h.bucket_cnt new q, ap h.buckets)

    remove-Table : (x : ℕ) → Table (remove_elem hash less h x)
    remove-Table x = record {
      some_buckets = t.some_buckets;
      placed = λ i. All-remove hash less (λ y. home h y ≡ i) x (h.buckets i) (t.placed i);
      once = λ i e. omega (arith, t.once i e, equals-remove-le hash less (h.buckets i) x e);
    }

    remove-found :
        (e x : ℕ)
        → found h e ≡ some x
        → (q : ℕ)
        → found (remove_elem hash less h x) q ≡ (if same hash less e q then none else found h q)
    unfolding hash_find
    remove-found e x hit q = elim (Bool-cases (same hash less e q)) [
      | inl equal ↦ rw equal (find-none hash less (list_remove x (bucket h q)) q (gone equal))
      | inr other ↦ rw other (
          find-remove hash less (bucket h q) x q (
            ground
              (arith, find-same hash less (bucket h e) e x hit, same_congr hash less laws q x e)))
    ]
      where
        gone : same hash less e q ≡ true → equals hash less (list_remove x (bucket h q)) q ≡ 0
        gone equal =
            ap (λ i. equals hash less (list_remove x (h.buckets i)) q)
              (sym (slot_congr hash less laws h.bucket_cnt e q equal))
            ∙ sym (equals_congr hash less laws (list_remove x (bucket h e)) e q equal)
            ∙ omega (arith, equals-remove hash less (bucket h e) e x hit, t.once (home h e) e)

    found_congr : (p q : ℕ) → same hash less p q ≡ true → found h p ≡ found h q
    unfolding hash_find
    found_congr p q equal =
        find_congr hash less laws (bucket h p) p q equal
        ∙ ap (λ i. find_elem hash less (h.buckets i) q)
            (slot_congr hash less laws h.bucket_cnt p q equal)

    -- What is found, with an answer of its own for the elements equal to `p`.
    found_self :
        (p : ℕ) (o : Option ℕ)
        → found h p ≡ o
        → (q : ℕ) → found h q ≡ (if same hash less p q then o else found h q)
    found_self p o e q = elim (Bool-cases (same hash less p q)) [
      | inl equal ↦ rw equal (sym (found_congr p q equal) ∙ e)
      | inr other ↦ rw other refl
    ]

  module _ (h : Hash) (t : Table h) where
    -- For a comparison that orders its elements up to ties, which then have one hash, and a table
    -- of at least one bucket, with every element in the bucket of its hash and no two equal,
    -- hash_insert returns, whether there is room for new buckets or not: the result is the element
    -- equal to the new one that hash_find found before, if any; then hash_find finds under the new
    -- key that element, or else the new one, and under every other key what it found before; the
    -- table is again of this kind, and its count grows by one, in 32 bits, if nothing was found.
    pub hash_insert-Gives :
        (room : Bool) (new : ℕ)
        → Gives hash less
            (hash_insert hash less room h new)
            (hash_find hash less h new)
            (elim (hash_find hash less h new) [
              | none ↦ (h.elem_cnt + 1) % 2 ^ 32
              | some _ ↦ h.elem_cnt
            ])
            (λ q.
              (if same hash less new q
                then some (or_new (hash_find hash less h new) new)
                else hash_find hash less h q))
    unfolding hash_insert hash_find
    hash_insert-Gives room new = by_found (found h new) refl
      where
        by_found :
            (o : Option ℕ)
            → found h new ≡ o
            → Gives hash less
                (hash_insert hash less room h new)
                o
                (elim o [ none ↦ (h.elem_cnt + 1) % 2 ^ 32 | some _ ↦ h.elem_cnt ])
                (λ q. (if same hash less new q then some (or_new o new) else found h q))
        by_found none e = rw e (
            rehashed-Gives room none (insert_elem hash less h (home h new) new)
              (λ q. (if same hash less new q then some new else found h q)) (insert-Table h t new e)
              (insert-found h t new))
        by_found (some x) e = rw e (
            rehashed-Gives room (some x) h
              (λ q. (if same hash less new q then some x else found h q)) t
              (found_self h t new (some x) e))

    -- `hash_replace` returns what was found before, and then finds the new element under its key.
    pub hash_replace-Gives :
        (room : Bool) (new : ℕ)
        → Gives hash less
            (hash_replace hash less room h new)
            (hash_find hash less h new)
            (elim (hash_find hash less h new) [
              | none ↦ (h.elem_cnt + 1) % 2 ^ 32
              | some _ ↦ ((h.elem_cnt + 2 ^ 32 - 1) % 2 ^ 32 + 1) % 2 ^ 32
            ])
            (λ q. (if same hash less new q then some new else hash_find hash less h q))
    unfolding hash_replace hash_find
    hash_replace-Gives room new = by_found (found h new) refl
      where
        after :
            (x : ℕ)
            → found h new ≡ some x
            → (q : ℕ)
            → (if same hash less new q then some new else found (remove_elem hash less h x) q)
              ≡ (if same hash less new q then some new else found h q)
        after x e q = elim (Bool-cases (same hash less new q)) [
          | inl equal ↦ rw equal refl
          | inr other ↦ rw other (remove-found h t new x e q ∙ rw other refl)
        ]

        by_found :
            (o : Option ℕ)
            → found h new ≡ o
            → Gives hash less
                (hash_replace hash less room h new)
                o
                (elim o [
                  | none ↦ (h.elem_cnt + 1) % 2 ^ 32
                  | some _ ↦ ((h.elem_cnt + 2 ^ 32 - 1) % 2 ^ 32 + 1) % 2 ^ 32
                ])
                (λ q. (if same hash less new q then some new else found h q))
        by_found none e = rw e (
            rehashed-Gives room none (insert_elem hash less h (home h new) new)
              (λ q. (if same hash less new q then some new else found h q)) (insert-Table h t new e)
              (insert-found h t new))
        by_found (some x) e =
            let h1 = remove_elem hash less h x in
            let t1 = remove-Table h t x in
            rw e (
              rehashed-Gives room (some x) (insert_elem hash less h1 (home h new) new)
                (λ q. (if same hash less new q then some new else found h q))
                (insert-Table h1 t1 new
                  (remove-found h t new x e new ∙ rw (same_self hash less laws new) refl))
                (λ q. insert-found h1 t1 new q ∙ after x e q))

    -- For a comparison that orders its elements up to ties, which then have one hash, and a table
    -- of at least one bucket, with every element in the bucket of its hash and no two equal,
    -- hash_delete returns the element that hash_find found, if any, whether there is room for new
    -- buckets or not; then hash_find finds nothing under that key, and under every other key what
    -- it found before; the table is again of this kind, and its count falls by one, in 32 bits, if
    -- something was found.
    pub hash_delete-Gives :
        (room : Bool) (e : ℕ)
        → Gives hash less
            (hash_delete hash less room h e)
            (hash_find hash less h e)
            (elim (hash_find hash less h e) [
              | none ↦ h.elem_cnt
              | some _ ↦ (h.elem_cnt + 2 ^ 32 - 1) % 2 ^ 32
            ])
            (λ q. (if same hash less e q then none else hash_find hash less h q))
    unfolding hash_delete hash_find
    hash_delete-Gives room e = by_found (found h e) refl
      where
        by_found :
            (o : Option ℕ)
            → found h e ≡ o
            → Gives hash less
                (hash_delete hash less room h e)
                o
                (elim o [ none ↦ h.elem_cnt | some _ ↦ (h.elem_cnt + 2 ^ 32 - 1) % 2 ^ 32 ])
                (λ q. (if same hash less e q then none else found h q))
        by_found none miss = rw (miss, hash_delete) (h, refl, t, found_self h t e none miss, refl)
        by_found (some x) hit =
            rw (hit, hash_delete)
              (rehashed-Gives room (some x) (remove_elem hash less h x)
                (λ q. (if same hash less e q then none else found h q)) (remove-Table h t x)
                (remove-found h t e x hit))
