-- ===== src/Update.antt =====
-- internal/update/update.go: the order of versions, and the cached result of the update check.
pub mod Order
pub mod Cache
use zfw_dark.Common.{
  ℕ, zero, suc, ◌+◌, ◌-◌, ◌*◌, ◌^◌, Bool, true, false, ◌||◌, List, [], ◌∷◌, ◌++◌, Option, none,
  some, map,
}
use zfw_dark.Common.{ltb, leb, nat_eq, if◌then◌else◌}
use zfw_dark.Common.Int.{ℤ, pos, negsuc, ltb_ℤ}
use zfw_dark.Common.Text.{Text, lit, is_empty, is_digit, itoa, split}

-- The loop of `strconv.ParseUint`: `none` at a byte that is no digit, the greatest number of 64 bits
-- as soon as the digits so far exceed it.
unfoldable pub parse_uint : ℕ → Text → Option ℕ
parse_uint n [] = some n
parse_uint n (c ∷ s) =
    let m = n * 10 + (c - b'0') in
    let rest = parse_uint m s in
    if is_digit c then (if leb (2 ^ 64) m then some (2 ^ 64 - 1) else rest) else none

unfoldable pub parse_magnitude : Text → Option ℕ
unfolding parse_uint
parse_magnitude [] = none
parse_magnitude (c ∷ s) = parse_uint 0 (c ∷ s)

unfoldable pub clamp_pos : Option ℕ → ℤ
clamp_pos none = pos 0
clamp_pos (some n) = if leb (2 ^ 63) n then pos (2 ^ 63 - 1) else pos n

unfoldable pub clamp_neg : Option ℕ → ℤ
clamp_neg none = pos 0
clamp_neg (some zero) = pos 0
clamp_neg (some (suc n)) = if leb (2 ^ 63) (suc n) then negsuc (2 ^ 63 - 1) else negsuc n

-- `n, _ := strconv.Atoi(s)`: 0 where it is no number, the nearest number of 64 bits where it is too
-- long.
unfoldable pub number_of : Text → ℤ
unfolding parse_magnitude clamp_pos clamp_neg
number_of [] = pos 0
number_of (c ∷ s) =
    if nat_eq c b'-'
    then clamp_neg (parse_magnitude s)
    else if nat_eq c b'+'
    then clamp_pos (parse_magnitude s)
    else clamp_pos (parse_magnitude (c ∷ s))

-- `strings.TrimPrefix(v, "v")`.
unfoldable pub trim_v : Text → Text
trim_v [] = []
trim_v (c ∷ s) = if nat_eq c b'v' then s else c ∷ s

-- `v[:i]` at the first `-` or `+`.
unfoldable pub release : Text → Text
release [] = []
release (c ∷ s) = let rest = release s in if nat_eq c b'-' || nat_eq c b'+' then [] else c ∷ rest

unfoldable pub parts : Text → List ℤ
unfolding trim_v release number_of
parts v = map number_of (split b'.' (release (trim_v v)))

-- One round of the loop of `Compare`, and what the rounds behind it return.
abbrev pub compare_part : ℤ → ℤ → ℤ → ℤ
compare_part x y rest = if ltb_ℤ x y then negsuc 0 else if ltb_ℤ y x then pos 1 else rest

-- The loop of `Compare`: a list that has ended counts as zeros.
unfoldable pub compare_parts : List ℤ → List ℤ → ℤ
compare_parts [] [] = pos 0
compare_parts [] (y ∷ ys) = compare_part (pos 0) y (compare_parts [] ys)
compare_parts (x ∷ xs) [] = compare_part x (pos 0) (compare_parts xs [])
compare_parts (x ∷ xs) (y ∷ ys) = compare_part x y (compare_parts xs ys)

-- `Compare`.
unfoldable pub compare : Text → Text → ℤ
unfolding compare_parts parts
compare a b = compare_parts (parts a) (parts b)

-- `Status`, less `Current`, which is the checker's; times are seconds.
pub record Status : Type 0 where
  pub latest : Text
  pub available : Bool
  pub notes : Text
  pub checked_at : ℕ
  pub error : Text

pub record Checker : Type 0 where
  pub current : Text
  pub url : Text
  pub last : Status

unfoldable pub new_checker : Text → Text → Checker
new_checker current url = record {
  current = current;
  url = url;
  last = record { latest = []; available = false; notes = []; checked_at = 0; error = [] };
}

-- How the request for the manifest ends: not made or not answered, with the error's text; a status;
-- a body that is no manifest; a manifest.
pub data Reply : Type 0 where
  unanswered : Text → Reply
  answered : ℤ → Reply
  unreadable : Text → Reply
  manifest : Text → Text → Reply

abbrev failed : Status → Text → Status
failed s e = record s { error = e }

-- What `CheckOnce` stores; `s` is the snapshot with its `CheckedAt` and an empty `Error`.
unfoldable pub judged : Text → Status → Reply → Status
unfolding compare
judged current s (unanswered e) = failed s e
judged current s (answered code) = failed s (lit "manifest HTTP " ++ itoa code)
judged current s (unreadable e) = failed s (lit "manifest parse: " ++ e)
judged current s (manifest version notes) =
    if is_empty version then failed s (lit "manifest has no version field") else record s {
      latest = version;
      notes = notes;
      available = ltb_ℤ (compare current version) (pos 0);
    }

-- `CheckOnce` at a time; without a URL it does nothing.
unfoldable pub check_once : Checker → ℕ → Reply → Checker
unfolding judged
check_once c now reply =
    if is_empty c.url
    then c
    else record c { last = judged c.current (record c.last { checked_at = now; error = [] }) reply }
