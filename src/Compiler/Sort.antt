-- ===== src/Compiler/Sort.antt =====
-- `sort.SliceStable` by `Order`, `sort.Strings`, and the keys of a map in that order.
pub mod Stable
use zfw_dark.Common.{Bool, true, false, ◌&&◌, ◌||◌, List, [], ◌∷◌}
use zfw_dark.Common.{ltb, nat_eq, if◌then◌else◌}
use zfw_dark.Common.Int.{ltb_ℤ}
use zfw_dark.Common.Text.{Text, ◌==◌}
use zfw_dark.Rules.Model.{Rule}

-- Behind the rules of a smaller order, in front of those of its own.
unfoldable pub insert_rule : Rule → List Rule → List Rule
insert_rule r [] = r ∷ []
insert_rule r (x ∷ xs) =
    let rest = insert_rule r xs in if ltb_ℤ x.order r.order then x ∷ rest else r ∷ x ∷ xs

unfoldable pub sort_rules : List Rule → List Rule
sort_rules [] = []
sort_rules (r ∷ rs) = insert_rule r (sort_rules rs)

-- `s < t` on strings: by bytes.
unfoldable pub text_lt : Text → Text → Bool
text_lt [] [] = false
text_lt [] (_ ∷ _) = true
text_lt (_ ∷ _) [] = false
text_lt (a ∷ s) (b ∷ t) = ltb a b || (nat_eq a b && text_lt s t)

insert_text : Text → List Text → List Text
insert_text s [] = s ∷ []
insert_text s (t ∷ ts) = let rest = insert_text s ts in if text_lt t s then t ∷ rest else s ∷ t ∷ ts

unfoldable pub sort_texts : List Text → List Text
unfolding insert_text text_lt
sort_texts [] = []
sort_texts (s ∷ ss) = insert_text s (sort_texts ss)

-- A `map[string]string`, its entries in any order; a missing key reads as "".
abbrev pub TextMap : Type 0
TextMap = List (Text × Text)

unfoldable pub keys : TextMap → List Text
keys [] = []
keys ((k, _) ∷ m) = k ∷ keys m

unfoldable pub at_key : Text → TextMap → Text
at_key k [] = []
at_key k ((j, v) ∷ m) = if j == k then v else at_key k m
