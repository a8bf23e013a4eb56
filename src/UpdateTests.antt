-- ===== src/UpdateTests.antt =====
-- The theorems on internal/update applied to versions and to a checker that is asked twice.
use zfw_dark.Common.{ℕ, List, [], ◌∷◌, ◌≡◌, refl}
use zfw_dark.Common.Int.{pos, negsuc}
use zfw_dark.Common.Text.{Text, lit, split}
use zfw_dark.Update.{Reply, manifest, answered, parts, compare, compare_parts, number_of}
use zfw_dark.Update.Order.{Compared, compare-Compared}

abbrev running : Text
running = lit "v1.2"

abbrev released : Text
released = lit "1.10.0"

running-before-released : compare running released ≡ negsuc 0
unfolding compare compare_parts parts number_of split lit
running-before-released = refl

candidate-same : compare (lit "1.2.0-rc1") running ≡ pos 0
unfolding compare compare_parts parts number_of split lit
candidate-same = refl

too_long-is-largest : number_of (lit "99999999999999999999x") ≡ pos 9223372036854775807
unfolding number_of lit
too_long-is-largest = refl

compare-Compared_example : Compared (parts running) (parts released) (compare running released)
compare-Compared_example = compare-Compared running released

abbrev two_checks : List (ℕ × Reply)
two_checks = (5, manifest released []) ∷ (9, answered (pos 500)) ∷ []
