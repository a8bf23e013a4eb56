-- ===== src/Update/Order.antt =====
-- internal/update/update.go: the order that `Compare` puts on versions.
use zfw_dark.Common.{
  ℕ, zero, suc, ◌<◌, true, false, List, [], ◌∷◌, ◌++◌, ◌≡◌, ◌⊎◌, refl, inl, inr, arith, Bool-cases,
  nat_eq,
}
use zfw_dark.Common.Int.{ℤ, pos, negsuc, ltb_ℤ, ◌≤ℤ◌}
use zfw_dark.Common.Text.{Text}
use zfw_dark.Update.{compare_part, compare_parts, compare, parts, trim_v, release}

-- The part at an index, 0 behind the end.
abbrev pub part_at : ℕ → List ℤ → ℤ
part_at i [] = pos 0
part_at zero (x ∷ xs) = x
part_at (suc i) (x ∷ xs) = part_at i xs

infix 50 ◌<ℤ◌
abbrev pub ◌<ℤ◌ : ℤ → ℤ → Type 0
a <ℤ b = ltb_ℤ a b ≡ true

-- The result of a comparison tells where the first difference is: nowhere, or at a part that is less
-- or greater.
pub data Compared (xs ys : List ℤ) (r : ℤ) : Type 0 where
  same : r ≡ pos 0 → ((i : ℕ) → part_at i xs ≡ part_at i ys) → Compared xs ys r
  below :
      r ≡ negsuc 0
      → (i : ℕ) → ((j : ℕ) → j < i → part_at j xs ≡ part_at j ys)
      → part_at i xs <ℤ part_at i ys
      → Compared xs ys r
  above :
      r ≡ pos 1
      → (i : ℕ) → ((j : ℕ) → j < i → part_at j xs ≡ part_at j ys)
      → part_at i ys <ℤ part_at i xs
      → Compared xs ys r

abbrev rest_of : List ℤ → List ℤ
rest_of [] = []
rest_of (x ∷ xs) = xs

part_at-suc : (i : ℕ) (xs : List ℤ) → part_at (suc i) xs ≡ part_at i (rest_of xs)
part_at-suc i [] = refl
part_at-suc i (x ∷ xs) = refl

equal_ℤ : (x y : ℤ) → ltb_ℤ x y ≡ false → ltb_ℤ y x ≡ false → x ≡ y
equal_ℤ x y h k = ground arith

-- Where the heads agree, the parts agree up to an index if the rests do up to the one before.
agree :
    (xs ys : List ℤ) (i j : ℕ)
    → part_at 0 xs ≡ part_at 0 ys
    → ((k : ℕ) → k < i → part_at k (rest_of xs) ≡ part_at k (rest_of ys))
    → j < suc i
    → part_at j xs ≡ part_at j ys
agree xs ys i zero head rest h = head
agree xs ys i (suc j) head rest h = rw (part_at-suc j xs, part_at-suc j ys) (rest j (omega arith))

-- What a round of the loop adds.
behind :
    (xs ys : List ℤ) (r : ℤ)
    → part_at 0 xs ≡ part_at 0 ys
    → Compared (rest_of xs) (rest_of ys) r
    → Compared xs ys r
behind xs ys r head (same e all_same) =
    same e (λ i. agree xs ys i i head (λ k h. all_same k) (omega arith))
behind xs ys r head (below e i before less) =
    below e (suc i) (λ j h. agree xs ys i j head before h)
      (rw (part_at-suc i xs, part_at-suc i ys) less)
behind xs ys r head (above e i before less) =
    above e (suc i) (λ j h. agree xs ys i j head before h)
      (rw (part_at-suc i xs, part_at-suc i ys) less)

round :
    (xs ys : List ℤ) (rest : ℤ)
    → Compared (rest_of xs) (rest_of ys) rest
    → Compared xs ys (compare_part (part_at 0 xs) (part_at 0 ys) rest)
round xs ys rest h = elim (Bool-cases (ltb_ℤ (part_at 0 xs) (part_at 0 ys))) [
  | inl less ↦ below (rw less refl) 0 (λ j k. absurd (omega arith)) less
  | inr not_less ↦ elim (Bool-cases (ltb_ℤ (part_at 0 ys) (part_at 0 xs))) [
    | inl more ↦ above (rw (not_less, more) refl) 0 (λ j k. absurd (omega arith)) more
    | inr not_more ↦ rw (not_less, not_more) (behind xs ys rest (equal_ℤ _ _ not_less not_more) h)
  ]
]

compare_parts-Compared : (xs ys : List ℤ) → Compared xs ys (compare_parts xs ys)
unfolding compare_parts
compare_parts-Compared [] [] = same refl (λ i. refl)
compare_parts-Compared [] (y ∷ ys) = round [] (y ∷ ys) _ (compare_parts-Compared [] ys)
compare_parts-Compared (x ∷ xs) [] = round (x ∷ xs) [] _ (compare_parts-Compared xs [])
compare_parts-Compared (x ∷ xs) (y ∷ ys) = round (x ∷ xs) (y ∷ ys) _ (compare_parts-Compared xs ys)

-- Compare returns 0 if the parts of the two versions agree at every index, parts that are missing
-- counting as 0, and otherwise -1 or 1 as the first of them that differs is less or greater.
pub compare-Compared : (a b : Text) → Compared (parts a) (parts b) (compare a b)
unfolding compare
compare-Compared a b = compare_parts-Compared (parts a) (parts b)

compare_parts_trans :
    (xs ys zs : List ℤ)
    → compare_parts xs ys ≤ℤ pos 0
    → compare_parts ys zs ≤ℤ pos 0
    → compare_parts xs zs ≤ℤ pos 0
unfolding compare_parts
compare_parts_trans [] [] zs h k = k
compare_parts_trans [] (y ∷ ys) [] h k = ground arith
compare_parts_trans [] (y ∷ ys) (z ∷ zs) h k = ground (arith, compare_parts_trans [] ys zs)
compare_parts_trans (x ∷ xs) [] [] h k = h
compare_parts_trans (x ∷ xs) [] (z ∷ zs) h k = ground (arith, compare_parts_trans xs [] zs)
compare_parts_trans (x ∷ xs) (y ∷ ys) [] h k = ground (arith, compare_parts_trans xs ys [])
compare_parts_trans (x ∷ xs) (y ∷ ys) (z ∷ zs) h k = ground (arith, compare_parts_trans xs ys zs)

abbrev pub opposite : ℤ → ℤ
opposite (pos zero) = pos 0
opposite (pos (suc n)) = negsuc n
opposite (negsuc n) = pos (suc n)

compare_part-opposite :
    (x y a b : ℤ) → a ≡ opposite b → compare_part x y a ≡ opposite (compare_part y x b)
compare_part-opposite x y a b h = ground arith

compare_parts-opposite : (xs ys : List ℤ) → compare_parts xs ys ≡ opposite (compare_parts ys xs)
unfolding compare_parts
compare_parts-opposite [] [] = refl
compare_parts-opposite [] (y ∷ ys) =
    compare_part-opposite (pos 0) y _ _ (compare_parts-opposite [] ys)
compare_parts-opposite (x ∷ xs) [] =
    compare_part-opposite x (pos 0) _ _ (compare_parts-opposite xs [])
compare_parts-opposite (x ∷ xs) (y ∷ ys) =
    compare_part-opposite x y _ _ (compare_parts-opposite xs ys)

-- Compare is a total preorder: swapping two versions turns the sign around, and a version that is
-- at most a second one, which is at most a third one, is at most the third one.
pub compare_preorder :
    (a b c : Text)
    → (compare a b ≡ opposite (compare b a))
      × (compare a b ≤ℤ pos 0 → compare b c ≤ℤ pos 0 → compare a c ≤ℤ pos 0)
unfolding compare
compare_preorder a b c =
    (compare_parts-opposite (parts a) (parts b), compare_parts_trans (parts a) (parts b) (parts c))

release-append : (v s : Text) (c : ℕ) → (c ≡ b'-') ⊎ (c ≡ b'+') → release (v ++ c ∷ s) ≡ release v
unfolding release
release-append [] s c (inl e) = ground arith
release-append [] s c (inr e) = ground arith
release-append (d ∷ v) s c h = rw (release-append v s c h) refl

release-trim_v :
    (v s : Text) (c : ℕ)
    → (c ≡ b'-') ⊎ (c ≡ b'+')
    → release (trim_v (v ++ c ∷ s)) ≡ release (trim_v v)
unfolding trim_v
release-trim_v [] s c (inl e) = rw e (release-append [] s b'-' (inl refl))
release-trim_v [] s c (inr e) = rw e (release-append [] s b'+' (inr refl))
release-trim_v (d ∷ v) s c h = elim (Bool-cases (nat_eq d b'v')) [
  | inl e ↦ rw e (release-append v s c h)
  | inr e ↦ rw e (release-append (d ∷ v) s c h)
]

parts-suffix : (v s : Text) (c : ℕ) → (c ≡ b'-') ⊎ (c ≡ b'+') → parts (v ++ c ∷ s) ≡ parts v
unfolding parts
parts-suffix v s c h = rw (release-trim_v v s c h) refl

-- A suffix that begins with - or + does not count in a comparison, on either side.
pub compare-suffix :
    (v s w : Text) (c : ℕ)
    → (c ≡ b'-') ⊎ (c ≡ b'+')
    → (compare (v ++ c ∷ s) w ≡ compare v w) × (compare w (v ++ c ∷ s) ≡ compare w v)
unfolding compare
compare-suffix v s w c h = rw (parts-suffix v s c h) (refl, refl)
