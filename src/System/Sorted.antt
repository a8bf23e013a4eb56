-- ===== src/System/Sorted.antt =====
-- The order of the ports that internal/system/system.go sorts.
use zfw_dark.Common.{
  Bool, true, false, ◌||◌, List, [], ◌∷◌, ◌≡◌, refl, inl, inr, arith, All, All-map, any, Bool-cases,
}
use zfw_dark.Common.Int.{ℤ, eq_ℤ, ltb_ℤ}
use zfw_dark.Rules.Starter.{insert_int, sort_ints}

-- Each number is less than all that follow it.
abbrev pub Ascending : List ℤ → Type 0
Ascending [] = Unit
Ascending (x ∷ xs) = All (λ y. ltb_ℤ x y ≡ true) xs × Ascending xs

abbrev pub Distinct : List ℤ → Type 0
Distinct [] = Unit
Distinct (x ∷ xs) = All (λ y. eq_ℤ x y ≡ false) xs × Distinct xs

module _ (P : ℤ → Type 0) where
  insert_int-All : (p : ℤ) (xs : List ℤ) → P p → All P xs → All P (insert_int p xs)
  unfolding insert_int
  insert_int-All p [] here h = (here, tt)
  insert_int-All p (x ∷ xs) here (first, h) = elim (Bool-cases (ltb_ℤ x p)) [
    | inl e ↦ rw e (first, insert_int-All p xs here h)
    | inr e ↦ rw e (here, (first, h))
  ]

  pub sort_ints-All : (xs : List ℤ) → All P xs → All P (sort_ints xs)
  unfolding sort_ints
  sort_ints-All [] h = tt
  sort_ints-All (x ∷ xs) (here, h) = insert_int-All x (sort_ints xs) here (sort_ints-All xs h)

module _ (test : ℤ → Bool) where
  any-insert_int : (p : ℤ) (xs : List ℤ) → any test (insert_int p xs) ≡ (test p || any test xs)
  unfolding insert_int
  any-insert_int p [] = refl
  any-insert_int p (x ∷ xs) = ground (arith, any-insert_int p xs)

  pub any-sort_ints : (xs : List ℤ) → any test (sort_ints xs) ≡ any test xs
  unfolding sort_ints
  any-sort_ints [] = refl
  any-sort_ints (x ∷ xs) = ground (arith, any-insert_int x (sort_ints xs), any-sort_ints xs)

lt_of_le_ne : (p x : ℤ) → ltb_ℤ x p ≡ false → eq_ℤ p x ≡ false → ltb_ℤ p x ≡ true
lt_of_le_ne p x h k = ground arith

lt_trans : (x y z : ℤ) → ltb_ℤ x y ≡ true → ltb_ℤ y z ≡ true → ltb_ℤ x z ≡ true
lt_trans x y z h k = ground arith

insert_int-Ascending :
    (p : ℤ) (xs : List ℤ)
    → All (λ y. eq_ℤ p y ≡ false) xs
    → Ascending xs
    → Ascending (insert_int p xs)
unfolding insert_int
insert_int-Ascending p [] apart h = (tt, tt)
insert_int-Ascending p (x ∷ xs) (ne, apart) (below, h) = elim (Bool-cases (ltb_ℤ x p)) [
  | inl e ↦
      rw e (insert_int-All (λ y. ltb_ℤ x y ≡ true) p xs e below, insert_int-Ascending p xs apart h)
  | inr e ↦
      let first = lt_of_le_ne p x e ne in
      rw e ((first, All-map (λ y k. lt_trans p x y first k) xs below), (below, h))
]

pub sort_ints-Ascending : (xs : List ℤ) → Distinct xs → Ascending (sort_ints xs)
unfolding sort_ints
sort_ints-Ascending [] h = tt
sort_ints-Ascending (x ∷ xs) (apart, h) =
    insert_int-Ascending x (sort_ints xs) (sort_ints-All (λ y. eq_ℤ x y ≡ false) xs apart)
      (sort_ints-Ascending xs h)
