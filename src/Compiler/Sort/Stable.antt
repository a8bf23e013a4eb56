-- ===== src/Compiler/Sort/Stable.antt =====
-- The order in which internal/compiler emits the rules: `sort.SliceStable` by `Order`.
use zfw_dark.Common.{List, [], ◌∷◌, ◌≡◌, refl, ap, ◌∙◌, inl, inr}
use zfw_dark.Common.{arith, All, All-map, Bool-cases, if◌then◌else◌}
use zfw_dark.Common.Int.{ℤ, ltb_ℤ, eq_ℤ, ◌≤ℤ◌}
use mathlib.Core.List.{Perm}
use mathlib.Core.List.Perm
use zfw_dark.Compiler.Sort.{insert_rule, sort_rules}
use zfw_dark.Rules.Model.{Rule}

-- Each rule's order is at most that of every later one.
abbrev pub IsSorted : List Rule → Type 0
IsSorted [] = Unit
IsSorted (r ∷ rs) = All (λ x. r.order ≤ℤ x.order) rs × IsSorted rs

-- The rules of one order, as they stand.
abbrev pub of_order : ℤ → List Rule → List Rule
of_order k [] = []
of_order k (r ∷ rs) = let rest = of_order k rs in if eq_ℤ r.order k then r ∷ rest else rest

All-insert_rule :
    (P : Rule → Type 0) (r : Rule) (rs : List Rule) → P r → All P rs → All P (insert_rule r rs)
unfolding insert_rule
All-insert_rule P r [] p h = (p, tt)
All-insert_rule P r (x ∷ xs) p (q, h) = elim (Bool-cases (ltb_ℤ x.order r.order)) [
  | inl lt ↦ rw lt (q, All-insert_rule P r xs p h)
  | inr ge ↦ rw ge (p, (q, h))
]

insert_rule-IsSorted : (r : Rule) (rs : List Rule) → IsSorted rs → IsSorted (insert_rule r rs)
unfolding insert_rule
insert_rule-IsSorted r [] h = (tt, tt)
insert_rule-IsSorted r (x ∷ xs) (le, h) = elim (Bool-cases (ltb_ℤ x.order r.order)) [
  | inl lt ↦ rw lt (
    All-insert_rule (λ y. x.order ≤ℤ y.order) r xs (ground arith) le,
    insert_rule-IsSorted r xs h,
  )
  | inr ge ↦
      let first : r.order ≤ℤ x.order = ground arith in
      rw ge ((first, All-map (λ y k. omega arith) xs le), (le, h))
]

insert_rule-Perm : (r : Rule) (rs : List Rule) → Perm (insert_rule r rs) (r ∷ rs)
unfolding insert_rule
insert_rule-Perm r [] = Perm.refl (r ∷ [])
insert_rule-Perm r (x ∷ xs) = elim (Bool-cases (ltb_ℤ x.order r.order)) [
  | inl lt ↦ rw lt (Perm.trans (Perm.cons x (insert_rule-Perm r xs)) (Perm.swap r x xs))
  | inr ge ↦ rw ge (Perm.refl (r ∷ x ∷ xs))
]

of_order-insert_rule :
    (k : ℤ) (r : Rule) (rs : List Rule) → of_order k (insert_rule r rs) ≡ of_order k (r ∷ rs)
unfolding insert_rule
of_order-insert_rule k r [] = refl
of_order-insert_rule k r (x ∷ xs) = ground (arith, of_order-insert_rule k r xs)

sort_rules-IsSorted : (rs : List Rule) → IsSorted (sort_rules rs)
unfolding sort_rules
sort_rules-IsSorted [] = tt
sort_rules-IsSorted (r ∷ rs) = insert_rule-IsSorted r (sort_rules rs) (sort_rules-IsSorted rs)

sort_rules-Perm : (rs : List Rule) → Perm (sort_rules rs) rs
unfolding sort_rules
sort_rules-Perm [] = Perm.refl []
sort_rules-Perm (r ∷ rs) =
    Perm.trans (insert_rule-Perm r (sort_rules rs)) (Perm.cons r (sort_rules-Perm rs))

of_order-sort_rules : (k : ℤ) (rs : List Rule) → of_order k (sort_rules rs) ≡ of_order k rs
unfolding sort_rules
of_order-sort_rules k [] = refl
of_order-sort_rules k (r ∷ rs) =
    of_order-insert_rule k r (sort_rules rs)
    ∙ ap (λ rest. if eq_ℤ r.order k then r ∷ rest else rest) (of_order-sort_rules k rs)

-- The emitted order is by `Order`, keeps every rule, and leaves rules of one order as they stood.
pub sort_rules_stable :
    (rs : List Rule)
    → IsSorted (sort_rules rs)
      × Perm (sort_rules rs) rs
      × ((k : ℤ) → of_order k (sort_rules rs) ≡ of_order k rs)
sort_rules_stable rs = (sort_rules-IsSorted rs, sort_rules-Perm rs, λ k. of_order-sort_rules k rs)
