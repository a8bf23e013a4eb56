-- ===== src/Rules/Checks.antt =====
-- The character tests of internal/rules/rules.go. The source ranges over runes; a byte of a rune
-- beyond ASCII fails these tests just as that rune does.
use zfw_dark.Common.{ℕ, Bool, true, false, not, ◌&&◌, ◌||◌, List, [], ◌∷◌, Option, none, some}
use zfw_dark.Common.{all, length, ltb, nat_eq, if◌then◌else◌}
use zfw_dark.Common.Int.{ℤ, pos, ltb_ℤ}
use zfw_dark.Common.Text.{Text, is_letter, is_digit, is_empty, split, trim_space, atoi}

-- `-`, `_`, and what `strings` of both kinds share.
abbrev pub is_id_byte : ℕ → Bool
is_id_byte c = is_letter c || is_digit c || nat_eq c b'-' || nat_eq c b'_'

unfoldable pub is_safe_container_id : Text → Bool
is_safe_container_id s =
    if ltb 64 (length s) then false else all (λ c. is_id_byte c || nat_eq c b'.') s

unfoldable pub is_safe_rule_id : Text → Bool
is_safe_rule_id s =
    if is_empty s then true else if ltb 16 (length s) then false else all is_id_byte s

-- The loop of `SplitCountries`.
keep_nonempty : List Text → List Text
keep_nonempty [] = []
keep_nonempty (c ∷ cs) =
    let t = trim_space c in
    let rest = keep_nonempty cs in if not (is_empty t) then t ∷ rest else rest

unfoldable pub split_countries : Text → List Text
unfolding keep_nonempty
split_countries v = keep_nonempty (split b',' v)

unfoldable pub is_alpha : Text → Bool
is_alpha s = all is_letter s && not (is_empty s)

-- `err == nil && n >= 0 && n <= most`.
abbrev pub clock_part : ℕ → Option ℤ → Bool
clock_part most none = false
clock_part most (some n) = not (ltb_ℤ n (pos 0)) && not (ltb_ℤ (pos most) n)

-- `len(s) == 5 && s[2] == ':'`, then both parts.
unfoldable pub is_hhmm : Text → Bool
is_hhmm (a ∷ b ∷ c ∷ d ∷ e ∷ []) =
    nat_eq c b':' && clock_part 23 (atoi (a ∷ b ∷ [])) && clock_part 59 (atoi (d ∷ e ∷ []))
is_hhmm _ = false
