-- ===== src/Directory/Names.antt =====
-- Names are compared character by character, and are equal exactly if they are the same.
use cs140_w.Prelude.{ℕ, ◌≡◌, refl, ap, true, List, [], ◌∷◌, suc, zero, ◌≤◌, length, take, arith}
use cs140_w.Directory.{name_eq}

pub name_eq_refl : (a : List ℕ) → name_eq a a ≡ true
name_eq_refl [] = refl
name_eq_refl (c ∷ a) = ground (arith, name_eq_refl a)

pub name_eq_eq : (a b : List ℕ) → name_eq a b ≡ true → a ≡ b
name_eq_eq [] [] h = refl
name_eq_eq [] (d ∷ b) h = cc
name_eq_eq (c ∷ a) [] h = cc
name_eq_eq (c ∷ a) (d ∷ b) h =
    let heads : c ≡ d = ground (arith, h) in let tails = name_eq_eq a b (ground (arith, h)) in cc

pub take-short : (n : ℕ) (a : List ℕ) → length a ≤ n → take n a ≡ a
take-short zero [] h = refl
take-short (suc n) [] h = refl
take-short zero (c ∷ a) h = elim h [ ]
take-short (suc n) (c ∷ a) h = ap (λ z. c ∷ z) (take-short n a (omega (arith, h)))
