-- ===== src/Common/Some.antt =====
-- A property of some element of a list, and the test that decides it.
use zfw_dark.Common.{Bool, true, List, [], ◌∷◌, ◌≡◌, ◌↔◌, ◌⊎◌, inl, inr, arith, any, Bool-cases}

-- Some element has the property.
abbrev pub Some : {A : Type 0} → (A → Type 0) → List A → Type 0
Some P [] = ⊥
Some P (l ∷ ls) = P l ⊎ Some P ls

pub any-Some :
    {A : Type 0} (test : A → Bool) (P : A → Type 0)
    → ((l : A) → (test l ≡ true) ↔ P l)
    → (ls : List A) → (any test ls ≡ true) ↔ Some P ls
any-Some test P each [] = (λ h. absurd (cc), λ h. absurd h)
any-Some test P each (l ∷ ls) =
    let (to, from) = each l in
    let (down, up) = any-Some test P each ls in
    (
      λ h. elim (Bool-cases (test l)) [ inl k ↦ inl (to k) | inr k ↦ inr (down (ground arith)) ],
      λ h. elim h [
        | inl m ↦ let here = from m in ground arith
        | inr m ↦ let there = up m in ground arith
      ],
    )
